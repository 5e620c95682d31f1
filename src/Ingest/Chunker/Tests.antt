-- ===== src/Ingest/Chunker/Tests.antt =====
-- Tests of the chunker, and its theorems at a concrete input.
use etoeragcb.Base.{ℕ, ◌+◌, ◌≤◌, ◌<◌, ◌≡◌, refl, List, [], ◌∷◌, length, arith, All}
use etoeragcb.Base.Text.{Text, codes, is_space, lstrip, strip, text_eq}
use etoeragcb.Base.Counter.{count_of, bump}
use etoeragcb.Base.Result.{ok, raise}
use etoeragcb.Ingest.Chunker.{
  TokenSpan, SectionedBlock, BuiltChunk, overlap_too_large, Calls, valid_spans, token_windows,
  slice, add_chunk, add_chunks, add_spans, is_blank, add_block, add_blocks, some_chunks,
  chunk_blocks,
}
use etoeragcb.Ingest.Chunker.Windows.{rejoin, windows_cover}
use etoeragcb.Ingest.Chunker.Numbering.{IsNumbered, chunk_blocks_numbers}

program : Unit {0}
unfolding is_space lstrip strip text_eq count_of bump valid_spans token_windows slice add_chunk
    add_chunks add_spans is_blank add_block add_blocks some_chunks chunk_blocks rejoin
program = tt

abbrev char_spans : ℕ → Text → List TokenSpan
char_spans n [] = []
char_spans n (c ∷ s) = record { start = n; end = n + 1 } ∷ char_spans (n + 1) s

-- A token for each character.
abbrev calls : Calls
calls = record {
  token_spans = λ t. ok (char_spans 0 t);
  normalize_lexical = λ t. t;
  sha256_text = λ t. t;
  stable_chunk_id = λ page section start occurrence digest. start;
}

abbrev block : SectionedBlock
block = record { section_id = 4; page_number = 2; text_original = codes "abcde" }

abbrev made : ℕ → ℕ → ℕ → Text → BuiltChunk
made index start end body = record {
  id = start;
  section_id = 4;
  occurrence_index = 0;
  chunk_index = index;
  page_start = 2;
  page_end = 2;
  char_start = start;
  char_end = end;
  content_sha256 = body;
  lexical_sha256 = body;
  token_count = 3;
  text_original = body;
  text_lexical = body;
}

too_much_overlap : chunk_blocks calls 3 3 (block ∷ []) ≡ raise overlap_too_large
unfolding program
too_much_overlap = refl

abbrev chunks : List BuiltChunk
chunks = made 0 0 3 (codes "abc") ∷ made 1 2 5 (codes "cde") ∷ []

chunk_blocks_numbers_example : (1 < 3) × (1 ≤ length chunks) × IsNumbered calls 3 chunks
unfolding program
chunk_blocks_numbers_example = chunk_blocks_numbers calls 3 1 (block ∷ []) chunks refl

windows_cover_example :
    (rejoin 2 (token_windows 5 3 2 (codes "abcde")) ≡ codes "abcde")
    × All (λ w. length w ≤ 3) (token_windows 5 3 2 (codes "abcde"))
windows_cover_example =
    windows_cover 5 3 2 (codes "abcde") (omega arith) (omega arith) (omega arith) (omega arith)
