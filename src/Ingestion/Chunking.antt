-- ===== src/Ingestion/Chunking.antt =====
-- nexusrag/ingestion/chunking.py and the check of its parameters in
-- nexusrag/services/ingest/ingestion.py. A text is the list of its code points.
pub mod Window
pub mod Paragraphs
pub mod Offsets
mod Examples
use nexus_rag.Prelude.{
  ℕ, zero, suc, ◌+◌, ◌-◌, min, Bool, true, false, not, ◌&&◌, ◌||◌, Option, none, some, List, [],
  ◌∷◌, ◌++◌, ltb, leb, ◌==◌, if◌then◌else◌, length,
}
use nexus_rag.Prelude.Int.{ℤ, pos, negsuc, ltb_ℤ}

abbrev pub Text : Type 0
Text = List ℕ

unfoldable pub take {ℓ} : {A : Type ℓ} → ℕ → List A → List A
take zero xs = []
take (suc n) [] = []
take (suc n) (x ∷ xs) = x ∷ take n xs

unfoldable pub drop {ℓ} : {A : Type ℓ} → ℕ → List A → List A
drop zero xs = xs
drop (suc n) [] = []
drop (suc n) (x ∷ xs) = drop n xs

-- `text[start:end]`
abbrev pub slice {ℓ} : {A : Type ℓ} → List A → ℕ → ℕ → List A
slice text start end = take (end - start) (drop start text)

-- A chunk with its offsets; `text.find` returns -1 for what it does not find.
pub record Chunk : Type 0 where
  pub chunk : Text
  pub start : ℤ
  pub end : ℤ

-- The loop of `_window_text` from an offset; `none` when it takes more rounds than the fuel.
unfoldable pub window_from : ℕ → Text → ℕ → ℕ → ℕ → Option (List Chunk)
window_from zero text size overlap start = if ltb start (length text) then none else some []
window_from (suc fuel) text size overlap start =
    let end = min (length text) (start + size) in
    let window : Chunk = record {
      chunk = slice text start end;
      start = pos start;
      end = pos end;
    } in
    let rest = window_from fuel text size overlap (end - overlap) in
    if not (ltb start (length text))
    then some []
    else if end == length text
    then some (window ∷ [])
    else elim rest [ none ↦ none | some ws ↦ some (window ∷ ws) ]

-- `_window_text`; the text's length is enough fuel.
unfoldable pub window_text : Text → ℕ → ℕ → Option (List Chunk)
window_text text size overlap = window_from (length text) text size overlap 0

-- `_validate_chunk_params` returns, or raises a `ValueError`.
unfoldable pub validate_chunk_params : ℤ → ℤ → Bool
validate_chunk_params chunk_size chunk_overlap =
    if ltb_ℤ chunk_size (pos 1) || ltb_ℤ chunk_overlap (pos 0)
    then false
    else if not (ltb_ℤ chunk_overlap chunk_size)
    then false
    else true

-- `str.isspace` of one code point.
unfoldable pub is_space : ℕ → Bool
is_space c =
    leb 9 c && leb c 13
    || leb 28 c && leb c 32
    || c == 133
    || c == 160
    || c == 5760
    || leb 8192 c && leb c 8202
    || c == 8232
    || c == 8233
    || c == 8239
    || c == 8287
    || c == 12288

unfoldable pub lstrip : Text → Text
lstrip [] = []
lstrip (c ∷ cs) = let rest = lstrip cs in if is_space c then rest else c ∷ cs

abbrev pub is_empty : Text → Bool
is_empty [] = true
is_empty (c ∷ cs) = false

unfoldable pub rstrip : Text → Text
rstrip [] = []
rstrip (c ∷ cs) = let rest = rstrip cs in if is_space c && is_empty rest then [] else c ∷ rest

-- `p.strip()`
unfoldable pub strip : Text → Text
strip p = rstrip (lstrip p)

abbrev pub prepend : ℕ → List Text → List Text
prepend c [] = (c ∷ []) ∷ []
prepend c (p ∷ ps) = (c ∷ p) ∷ ps

-- `text.split("\n\n")`; the flag says that a line feed was read that does not yet stand in the
-- piece.
unfoldable pub split_from : Bool → Text → List Text
split_from false [] = [] ∷ []
split_from true [] = (10 ∷ []) ∷ []
split_from false (c ∷ cs) =
    let rest = split_from (c == 10) cs in if c == 10 then rest else prepend c rest
split_from true (c ∷ cs) =
    let rest = split_from false cs in if c == 10 then [] ∷ rest else prepend 10 (prepend c rest)

-- `[p.strip() for p in pieces if p.strip()]`
unfoldable pub stripped : List Text → List Text
stripped [] = []
stripped (p ∷ ps) = let rest = stripped ps in if is_empty (strip p) then rest else strip p ∷ rest

unfoldable pub is_prefix : Text → Text → Bool
is_prefix [] ys = true
is_prefix (x ∷ xs) [] = false
is_prefix (x ∷ xs) (y ∷ ys) = x == y && is_prefix xs ys

unfoldable pub index_of : Text → Text → Option ℕ
index_of p [] = if is_empty p then some 0 else none
index_of p (x ∷ xs) =
    let rest = index_of p xs in
    if is_prefix p (x ∷ xs) then some 0 else elim rest [ none ↦ none | some i ↦ some (suc i) ]

-- `text.find(p, cursor)` of a text `p` that is not empty.
unfoldable pub find : Text → Text → ℕ → Option ℕ
find text p cursor = elim (index_of p (drop cursor text)) [
  | none ↦ none
  | some i ↦ some (cursor + i)
]

-- `start`, and `end = start + len(paragraph)`, which is the next cursor.
abbrev pub start_of : Option ℕ → ℤ
start_of none = negsuc 0
start_of (some i) = pos i

abbrev pub end_of : Option ℕ → ℕ → ℕ
end_of none n = n - 1
end_of (some i) n = i + n

-- The loop of `chunk_text` over the paragraphs.
unfoldable pub chunk_paragraphs : Text → ℕ → ℕ → ℕ → List Text → Option (List Chunk)
chunk_paragraphs text size overlap cursor [] = some []
chunk_paragraphs text size overlap cursor (p ∷ ps) =
    let at = find text p cursor in
    let short = leb (length p) size in
    let next = if short then end_of at (length p) else cursor in
    let rest = chunk_paragraphs text size overlap next ps in
    let whole : Chunk = record {
      chunk = p;
      start = start_of at;
      end = pos (end_of at (length p));
    } in
    let windows = if short then some (whole ∷ []) else window_text p size overlap in
    elim windows [ none ↦ none | some ws ↦ elim rest [ none ↦ none | some cs ↦ some (ws ++ cs) ] ]

-- `chunk_text`
unfoldable pub chunk_text : Text → ℕ → ℕ → Option (List Chunk)
chunk_text text size overlap =
    chunk_paragraphs text size overlap 0 (stripped (split_from false text))
