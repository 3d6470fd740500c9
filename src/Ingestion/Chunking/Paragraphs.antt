-- ===== src/Ingestion/Chunking/Paragraphs.antt =====
-- The paragraphs stand in the text in their order.
use nexus_rag.Prelude.{
  ℕ, ◌≡◌, refl, sym, ap, ◌∙◌, inl, inr, Bool, true, false, ◌&&◌, List, [], ◌∷◌, ◌++◌, arith, ◌==◌,
  Bool-cases,
}
use mathlib.Core.Path.{subst}
use nexus_rag.Ingestion.Chunking.{
  Text, is_space, lstrip, rstrip, strip, is_empty, prepend, split_from, stripped,
}

pub append_assoc : {A : Type 0} (xs ys zs : List A) → (xs ++ ys) ++ zs ≡ xs ++ (ys ++ zs)
append_assoc [] ys zs = refl
append_assoc (x ∷ xs) ys zs = ap (λ r. x ∷ r) (append_assoc xs ys zs)

-- The pieces stand in the text one after the other, with any text before, between and after them.
abbrev pub Follows : Text → List Text → Type 0
Follows xs [] = Unit
Follows xs (p ∷ ps) = (a : Text) × (b : Text) × (xs ≡ a ++ (p ++ b)) × Follows b ps

-- The first stands at the start.
abbrev Starts : Text → List Text → Type 0
Starts xs [] = Unit
Starts xs (p ∷ ps) = (b : Text) × (xs ≡ p ++ b) × Follows b ps

pub append-Follows : (c : Text) (b : Text) (ps : List Text) → Follows b ps → Follows (c ++ b) ps
append-Follows c b [] f = tt
append-Follows c b (p ∷ ps) f =
    (c ++ f.0, f.1, ap (λ r. c ++ r) f.2 ∙ sym (append_assoc c f.0 (p ++ f.1)), f.3)

Starts-Follows : (xs : Text) (ps : List Text) → Starts xs ps → Follows xs ps
Starts-Follows xs [] s = tt
Starts-Follows xs (p ∷ ps) s = ([], s.0, s.1, s.2)

prepend-Starts :
    (c : ℕ) (xs : Text) (ps : List Text) → Starts xs ps → Starts (c ∷ xs) (prepend c ps)
prepend-Starts c xs [] s = (xs, refl, tt)
prepend-Starts c xs (p ∷ ps) s = (s.0, ap (λ r. c ∷ r) s.1, s.2)

-- A line feed that was read stands before the rest.
abbrev seen : Bool → Text → Text
seen true xs = 10 ∷ xs
seen false xs = xs

split_from-Starts : (pending : Bool) (xs : Text) → Starts (seen pending xs) (split_from pending xs)
unfolding split_from
split_from-Starts false [] = ([], refl, tt)
split_from-Starts true [] = ([], refl, tt)
split_from-Starts false (c ∷ cs) = elim (Bool-cases (c == 10)) [
  | inl e ↦
      let line_feed : c ≡ 10 = ground arith in
      rw e (
        subst (λ x. Starts (x ∷ cs) (split_from true cs)) (sym line_feed)
          (split_from-Starts true cs))
  | inr n ↦ rw n (prepend-Starts c cs (split_from false cs) (split_from-Starts false cs))
]
split_from-Starts true (c ∷ cs) =
    let rest = split_from-Starts false cs in
    elim (Bool-cases (c == 10)) [
      | inl e ↦ rw e (
        10 ∷ c ∷ cs,
        refl,
        append-Follows (10 ∷ c ∷ []) cs _ (Starts-Follows cs (split_from false cs) rest),
      )
      | inr n ↦ rw n (prepend-Starts 10 (c ∷ cs) _ (prepend-Starts c cs (split_from false cs) rest))
    ]

lstrip-append : (p : Text) → (l : Text) × (p ≡ l ++ lstrip p)
unfolding lstrip
lstrip-append [] = ([], refl)
lstrip-append (c ∷ cs) =
    let r = lstrip-append cs in
    elim (Bool-cases (is_space c)) [
      | inl s ↦ (c ∷ r.0, rw s (ap (λ x. c ∷ x) r.1))
      | inr s ↦ ([], rw s refl)
    ]

rstrip-append : (p : Text) → (r : Text) × (p ≡ rstrip p ++ r)
unfolding rstrip
rstrip-append [] = ([], refl)
rstrip-append (c ∷ cs) =
    let r = rstrip-append cs in
    elim (Bool-cases (is_space c && is_empty (rstrip cs))) [
      | inl s ↦ (c ∷ cs, rw s refl)
      | inr s ↦ (r.0, rw s (ap (λ x. c ∷ x) r.1))
    ]

strip-append : (p : Text) → (l : Text) × (r : Text) × (p ≡ l ++ (strip p ++ r))
unfolding strip
strip-append p =
    let l = lstrip-append p in
    let r = rstrip-append (lstrip p) in (l.0, r.0, l.1 ∙ ap (λ x. l.0 ++ x) r.1)

stripped-Follows : (xs : Text) (ps : List Text) → Follows xs ps → Follows xs (stripped ps)
unfolding stripped
stripped-Follows xs [] f = tt
stripped-Follows xs (p ∷ ps) f =
    let rest = stripped-Follows f.1 ps f.3 in
    let s = strip-append p in
    elim (Bool-cases (is_empty (strip p))) [
      | inl e ↦ rw e (
          subst (λ x. Follows x (stripped ps)) (append_assoc f.0 p f.1 ∙ sym f.2)
            (append-Follows (f.0 ++ p) f.1 (stripped ps) rest))
      | inr n ↦ rw n (
        f.0 ++ s.0,
        s.1 ++ f.1,
        f.2
            ∙ ap (λ x. f.0 ++ (x ++ f.1)) s.2
            ∙ ap (λ x. f.0 ++ x) (append_assoc s.0 (strip p ++ s.1) f.1)
            ∙ ap (λ x. f.0 ++ (s.0 ++ x)) (append_assoc (strip p) s.1 f.1)
            ∙ sym (append_assoc f.0 s.0 (strip p ++ (s.1 ++ f.1))),
        append-Follows s.1 f.1 (stripped ps) rest,
      )
    ]

-- The paragraphs of a text stand in it one after the other.
pub paragraphs-Follows : (text : Text) → Follows text (stripped (split_from false text))
paragraphs-Follows text =
    stripped-Follows text (split_from false text)
      (Starts-Follows text (split_from false text) (split_from-Starts false text))
