-- ===== src/Ingestion/Chunking/Offsets.antt =====
-- The offsets of the chunks of a text.
use mathlib.Core.Path.{subst}
use nexus_rag.Prelude.{
  ℕ, zero, suc, ◌+◌, ◌-◌, ◌≤◌, ◌<◌, ◌≡◌, ◌⊎◌, refl, sym, ap, ◌∙◌, inl, inr, true, false, Option,
  some, List, [], ◌∷◌, ◌++◌, arith, leb, Bool-cases, length, length-append, All,
}
use nexus_rag.Prelude.Int.{pos}
use nexus_rag.Prelude.Tables.Entries.{All-map, All-append}
use nexus_rag.Ingestion.Chunking.{
  Text, take, drop, Chunk, is_prefix, index_of, find, window_text, validate_chunk_params,
  chunk_paragraphs, chunk_text,
}
use nexus_rag.Ingestion.Chunking.Window.{take-drop, drop-drop, IsWindow, window_text-Windows}
use nexus_rag.Ingestion.Chunking.Paragraphs.{
  append_assoc, Follows, append-Follows, paragraphs-Follows,
}

is_prefix-append : (p b : Text) → is_prefix p (p ++ b) ≡ true
unfolding is_prefix
is_prefix-append [] b = refl
is_prefix-append (x ∷ xs) b = ground (arith, is_prefix-append xs b)

is_prefix-take : (p xs : Text) → is_prefix p xs ≡ true → p ≡ take (length p) xs
unfolding is_prefix take
is_prefix-take [] xs h = refl
is_prefix-take (x ∷ p) [] h = absurd (ground arith)
is_prefix-take (x ∷ p) (y ∷ ys) h = ground (arith, is_prefix-take p ys)

index_of-prefix : (p xs : Text) → is_prefix p xs ≡ true → index_of p xs ≡ some 0
unfolding is_prefix index_of
index_of-prefix [] [] h = refl
index_of-prefix (x ∷ p) [] h = absurd (ground arith)
index_of-prefix p (x ∷ xs) h = rw h refl

-- The search finds the text, at the latest where it is known to stand.
abbrev Found : Text → Text → ℕ → Type 0
Found p xs n = (j : ℕ) × (index_of p xs ≡ some j) × (j ≤ n) × (is_prefix p (drop j xs) ≡ true)

index_of-Found : (p a b : Text) → Found p (a ++ (p ++ b)) (length a)
unfolding index_of drop
index_of-Found p [] b =
    let h = is_prefix-append p b in (0, index_of-prefix p (p ++ b) h, omega arith, h)
index_of-Found p (x ∷ xs) b =
    let r = index_of-Found p xs b in
    elim (Bool-cases (is_prefix p (x ∷ (xs ++ (p ++ b))))) [
      | inl h ↦ (0, rw h refl, omega arith, h)
      | inr h ↦ (suc r.0, rw (h, r.1) refl, omega (arith, r.2), r.3)
    ]

drop-append : (m : ℕ) (xs ys : Text) → m ≤ length xs → drop m (xs ++ ys) ≡ drop m xs ++ ys
unfolding drop
drop-append zero xs ys h = refl
drop-append (suc m) [] ys h = absurd (omega arith)
drop-append (suc m) (x ∷ xs) ys h = drop-append m xs ys (omega arith)

-- The chunk is the text between its offsets; or it is cut from a paragraph of the text that is
-- longer than the size, and is the paragraph between its offsets.
abbrev pub IsLocated : Text → ℕ → Chunk → Type 0
IsLocated text size c =
    IsWindow text size c
    ⊎ ((p : Text) × (a : Text) × (b : Text) × (text ≡ a ++ (p ++ b))
        × (size < length p)
        × IsWindow p size c)

abbrev pub Located : Text → ℕ → Option (List Chunk) → Type 0
Located text size o = (cs : List Chunk) × (o ≡ some cs) × All (IsLocated text size) cs

module _ (text : Text) (size overlap : ℕ)
    (v : validate_chunk_params (pos size) (pos overlap) ≡ true) where
  find-Found :
      (cursor : ℕ) (p a b : Text)
      → drop cursor text ≡ a ++ (p ++ b)
      → Found p (drop cursor text) (length a)
  find-Found cursor p a b e = subst (λ xs. Found p xs (length a)) (sym e) (index_of-Found p a b)

  after-Follows :
      (cursor j : ℕ) (p a b : Text) (ps : List Text)
      → drop cursor text ≡ a ++ (p ++ b)
      → j ≤ length a
      → Follows b ps
      → Follows (drop (cursor + j + length p) text) ps
  after-Follows cursor j p a b ps e h f =
      let m : j + length p ≤ length (a ++ p) = omega (arith, length-append a p) in
      subst (λ xs. Follows xs ps)
        (sym (
          sym (drop-drop cursor (j + length p) (cursor + j + length p) text (omega arith))
          ∙ ap (drop (j + length p)) (e ∙ sym (append_assoc a p b))
          ∙ drop-append (j + length p) (a ++ p) b m))
        (append-Follows (drop (j + length p) (a ++ p)) b ps f)

  whole-IsWindow :
      (cursor j : ℕ) (p : Text)
      → length p ≤ size
      → is_prefix p (drop j (drop cursor text)) ≡ true
      → IsWindow text size
          (record { chunk = p; start = pos (cursor + j); end = pos (cursor + j + length p) })
  whole-IsWindow cursor j p s h =
      let n : length p ≡ cursor + j + length p - (cursor + j) = omega arith in
      (
        s,
        (
          cursor + j,
          cursor + j + length p,
          refl,
          refl,
          is_prefix-take p (drop j (drop cursor text)) h
              ∙ ap (take (length p)) (drop-drop cursor j (cursor + j) text refl)
              ∙ ap (λ k. take k (drop (cursor + j) text)) n,
        ),
      )

  short_step :
      (cursor i : ℕ) (p : Text) (ps : List Text) (cs : List Chunk)
      → leb (length p) size ≡ true
      → find text p cursor ≡ some i
      → chunk_paragraphs text size overlap (i + length p) ps ≡ some cs
      → chunk_paragraphs text size overlap cursor (p ∷ ps)
        ≡ some (record { chunk = p; start = pos i; end = pos (i + length p) } ∷ cs)
  unfolding chunk_paragraphs
  short_step cursor i p ps cs s e r = ground (arith, s, e, r)

  long_step :
      (cursor : ℕ) (p : Text) (ps : List Text) (ws cs : List Chunk)
      → leb (length p) size ≡ false
      → window_text p size overlap ≡ some ws
      → chunk_paragraphs text size overlap cursor ps ≡ some cs
      → chunk_paragraphs text size overlap cursor (p ∷ ps) ≡ some (ws ++ cs)
  unfolding chunk_paragraphs
  long_step cursor p ps ws cs s e r = ground (arith, s, e, r)

  chunk_paragraphs-Located :
      (cursor : ℕ) (ps : List Text)
      → Follows (drop cursor text) ps
      → Located text size (chunk_paragraphs text size overlap cursor ps)
  unfolding chunk_paragraphs find
  chunk_paragraphs-Located cursor [] f = ([], refl, tt)
  chunk_paragraphs-Located cursor (p ∷ ps) f = elim (Bool-cases (leb (length p) size)) [
    | inl s ↦
        let r = find-Found cursor p f.0 f.1 f.2 in
        let rest =
          chunk_paragraphs-Located (cursor + r.0 + length p) ps
            (after-Follows cursor r.0 p f.0 f.1 ps f.2 r.2 f.3) in
        (
          record { chunk = p; start = pos (cursor + r.0); end = pos (cursor + r.0 + length p) }
              ∷ rest.0,
          short_step cursor (cursor + r.0) p ps rest.0 s (rw (find, r.1) refl) rest.1,
          (inl (whole-IsWindow cursor r.0 p (ground arith) r.3), rest.2),
        )
    | inr s ↦
        let ws = window_text-Windows p size overlap v in
        let rest = chunk_paragraphs-Located cursor ps (
          subst (λ xs. Follows xs ps) (append_assoc f.0 p f.1 ∙ sym f.2)
            (append-Follows (f.0 ++ p) f.1 ps f.3)) in
        (
          ws.0 ++ rest.0,
          long_step cursor p ps ws.0 rest.0 s ws.1 rest.1,
          All-append (IsLocated text size) ws.0 rest.0
              (All-map (IsWindow p size) (IsLocated text size)
                (λ c w. inr (
                  p,
                  take cursor text ++ f.0,
                  f.1,
                  sym (take-drop cursor text)
                      ∙ ap (λ x. take cursor text ++ x) f.2
                      ∙ sym (append_assoc (take cursor text) f.0 (p ++ f.1)),
                  (ground arith),
                  w,
                ))
                ws.0 ws.3)
              rest.2,
        )
  ]

-- With parameters that are accepted, `chunk_text` ends on every text. Each of its chunks is at most
-- `size` characters long and is the text between its offsets; only the chunks of a paragraph that
-- is longer than `size` have the offsets of that paragraph, which stands somewhere in the text.
pub chunk_text-Located :
    (text : Text) (size overlap : ℕ)
    → validate_chunk_params (pos size) (pos overlap) ≡ true
    → Located text size (chunk_text text size overlap)
unfolding chunk_text drop
chunk_text-Located text size overlap v =
    chunk_paragraphs-Located text size overlap v 0 _ (paragraphs-Follows text)
