-- ===== src/Ingestion/Chunking/Window.antt =====
-- The sliding window: it ends, covers the text, and each window is short enough.
use nexus_rag.Prelude.{
  ℕ, zero, suc, ◌+◌, ◌-◌, ◌≤◌, ◌<◌, min, ◌≡◌, refl, sym, ap, ◌∙◌, inl, inr, true, false, Option,
  none, some, List, [], ◌∷◌, ◌++◌, arith, ltb, ◌==◌, Bool-cases, length, All,
}
use nexus_rag.Prelude.Int.{pos}
use nexus_rag.Ingestion.Chunking.{
  Text, take, drop, slice, Chunk, window_from, window_text, validate_chunk_params,
}

module _ {ℓ} {A : Type ℓ} where
  pub take-drop : (n : ℕ) (xs : List A) → take n xs ++ drop n xs ≡ xs
  unfolding take drop
  take-drop zero xs = refl
  take-drop (suc n) [] = refl
  take-drop (suc n) (x ∷ xs) = ap (λ ys. x ∷ ys) (take-drop n xs)

  -- The sum is a variable with an equation, since `m + n` is stuck.
  pub drop-drop : (m n k : ℕ) (xs : List A) → k ≡ m + n → drop n (drop m xs) ≡ drop k xs
  unfolding drop
  drop-drop zero n k xs e = let q : n ≡ k = omega arith in rw q refl
  drop-drop (suc m) zero zero [] e = refl
  drop-drop (suc m) (suc n) zero [] e = refl
  drop-drop (suc m) zero (suc k) [] e = refl
  drop-drop (suc m) (suc n) (suc k) [] e = refl
  drop-drop (suc m) n zero (x ∷ xs) e = absurd (omega arith)
  drop-drop (suc m) n (suc k) (x ∷ xs) e = drop-drop m n k xs (omega arith)

  pub drop-all : (n : ℕ) (xs : List A) → length xs ≤ n → drop n xs ≡ []
  unfolding drop
  drop-all zero [] h = refl
  drop-all zero (x ∷ xs) h = absurd (omega arith)
  drop-all (suc n) [] h = refl
  drop-all (suc n) (x ∷ xs) h = drop-all n xs (omega arith)

  pub length-take : (n : ℕ) (xs : List A) → length (take n xs) ≤ n
  unfolding take
  length-take zero xs = omega arith
  length-take (suc n) [] = omega arith
  length-take (suc n) (x ∷ xs) = omega (arith, length-take n xs)

-- The text that windows stand for: each is followed by what comes after it without its overlap.
unfoldable pub joined : ℕ → List Chunk → Text
joined overlap [] = []
joined overlap (w ∷ ws) = w.chunk ++ drop overlap (joined overlap ws)

-- A window is the text between its offsets, and no longer than the size.
abbrev pub IsWindow : Text → ℕ → Chunk → Type 0
IsWindow text size c =
    (length c.chunk ≤ size)
    × ((i : ℕ) × (j : ℕ) × (c.start ≡ pos i) × (c.end ≡ pos j) × (c.chunk ≡ slice text i j))

-- The windows from an offset on.
abbrev pub Windows : Text → ℕ → ℕ → ℕ → Option (List Chunk) → Type 0
Windows text size overlap start o =
    (ws : List Chunk) × (o ≡ some ws)
    × (joined overlap ws ≡ drop start text)
    × All (IsWindow text size) ws

rejoin :
    (text : Text) (start end overlap : ℕ)
    → start ≤ end
    → overlap ≤ end
    → slice text start end ++ drop overlap (drop (end - overlap) text) ≡ drop start text
rejoin text start end overlap h k =
    ap (λ x. slice text start end ++ x)
      (drop-drop (end - overlap) overlap end text (omega arith)
        ∙ sym (drop-drop start (end - start) end text (omega arith)))
    ∙ take-drop (end - start) (drop start text)

abbrev window_at : Text → ℕ → ℕ → Chunk
window_at text size start = record {
  chunk = slice text start (min (length text) (start + size));
  start = pos start;
  end = pos (min (length text) (start + size));
}

window_at-IsWindow : (text : Text) (size start : ℕ) → IsWindow text size (window_at text size start)
window_at-IsWindow text size start = (
  omega (arith, length-take (min (length text) (start + size) - start) (drop start text)),
  (start, min (length text) (start + size), refl, refl, refl),
)

last_joined :
    (text : Text) (size overlap start : ℕ)
    → start ≤ length text
    → min (length text) (start + size) ≡ length text
    → joined overlap (window_at text size start ∷ []) ≡ drop start text
unfolding joined
last_joined text size overlap start h e =
    let end = min (length text) (start + size) in
    ap (λ x. slice text start end ++ x)
      (drop-all overlap [] (omega arith)
        ∙ sym (drop-all end text (omega arith))
        ∙ sym (drop-drop start (end - start) end text (omega arith)))
    ∙ take-drop (end - start) (drop start text)

window_from-Windows :
    (fuel : ℕ) (text : Text) (size overlap start : ℕ)
    → overlap < size
    → length text ≤ start + fuel
    → Windows text size overlap start (window_from fuel text size overlap start)
unfolding window_from joined
window_from-Windows zero text size overlap start o h =
    ([], ground arith, sym (drop-all start text (omega arith)), tt)
window_from-Windows (suc fuel) text size overlap start o h =
    elim (Bool-cases (ltb start (length text))) [
      | inr f ↦ ([], rw f refl, sym (drop-all start text (ground arith)), tt)
      | inl t ↦ elim (Bool-cases (min (length text) (start + size) == length text)) [
        | inl q ↦ (
          window_at text size start ∷ [],
          rw (t, q) refl,
          last_joined text size overlap start (ground arith) (ground arith),
          (window_at-IsWindow text size start, tt),
        )
        | inr q ↦
            let rest =
              window_from-Windows fuel text size overlap
                (min (length text) (start + size) - overlap) o (ground arith) in
            (
              window_at text size start ∷ rest.0,
              rw (t, q, rest.1) refl,
              rw rest.2 (
                  rejoin text start (min (length text) (start + size)) overlap (ground arith)
                    (ground arith)),
              (window_at-IsWindow text size start, rest.3),
            )
      ]
    ]

-- With parameters that are accepted the loop ends within as many rounds as the text has characters:
-- its windows put together without their overlaps are the text, each is the text between its
-- offsets and at most `size` characters long.
pub window_text-Windows :
    (text : Text) (size overlap : ℕ)
    → validate_chunk_params (pos size) (pos overlap) ≡ true
    → Windows text size overlap 0 (window_text text size overlap)
unfolding window_text validate_chunk_params
window_text-Windows text size overlap v =
    window_from-Windows (length text) text size overlap 0 (ground arith) (omega arith)

-- With an overlap that is not smaller than the size, which is not accepted, the loop never ends on
-- a text that is longer than the size, whatever the fuel.
pub window_from-none :
    (fuel : ℕ) (text : Text) (size overlap start : ℕ)
    → size ≤ overlap
    → start + size < length text
    → window_from fuel text size overlap start ≡ none
unfolding window_from
window_from-none zero text size overlap start o h = ground arith
window_from-none (suc fuel) text size overlap start o h =
    let t : ltb start (length text) ≡ true = ground arith in
    let q : (min (length text) (start + size) == length text) ≡ false = ground arith in
    rw
      (
        t,
        q,
        window_from-none fuel text size overlap (min (length text) (start + size) - overlap) o
            (omega arith),
      )
      refl
