-- ===== src/Ingestion/Chunking/Examples.antt =====
-- A text of two paragraphs, the second longer than the size.
use nexus_rag.Prelude.{◌≡◌, refl, false, some, [], ◌∷◌}
use nexus_rag.Prelude.Int.{pos, negsuc}
use nexus_rag.Ingestion.Chunking.{
  Text, take, drop, window_from, window_text, validate_chunk_params, is_space, lstrip, rstrip,
  strip, split_from, stripped, is_prefix, index_of, find, chunk_paragraphs, chunk_text,
}
use nexus_rag.Ingestion.Chunking.Window.{Windows, window_text-Windows}
use nexus_rag.Ingestion.Chunking.Offsets.{Located, chunk_text-Located}

-- "ab", an empty line, " cdef"
abbrev text : Text
text = 97 ∷ 98 ∷ 10 ∷ 10 ∷ 32 ∷ 99 ∷ 100 ∷ 101 ∷ 102 ∷ []

-- The offsets of the windows count from the start of the second paragraph.
chunks :
    chunk_text text 3 1
    ≡ some (
        record { chunk = 97 ∷ 98 ∷ []; start = pos 0; end = pos 2 }
        ∷ record { chunk = 99 ∷ 100 ∷ 101 ∷ []; start = pos 0; end = pos 3 }
        ∷ record { chunk = 101 ∷ 102 ∷ []; start = pos 2; end = pos 4 }
        ∷ [])
unfolding chunk_text chunk_paragraphs stripped split_from strip lstrip rstrip is_space find index_of
    is_prefix window_text window_from take drop
chunks = refl

no_overlap_allowed : validate_chunk_params (pos 2) (pos 2) ≡ false
unfolding validate_chunk_params
no_overlap_allowed = refl

negative_refused : validate_chunk_params (pos 2) (negsuc 0) ≡ false
unfolding validate_chunk_params
negative_refused = refl

window_text-Windows_example : Windows text 3 1 0 (window_text text 3 1)
unfolding validate_chunk_params
window_text-Windows_example = window_text-Windows text 3 1 refl

chunk_text-Located_example : Located text 3 (chunk_text text 3 1)
unfolding validate_chunk_params
chunk_text-Located_example = chunk_text-Located text 3 1 refl
