-- ===== src/Ingest/Chunker.antt =====
-- backend/app/ingest/chunker.py: the text of a block is cut into windows of tokens that overlap. The
-- tokenizer is a parameter, and so are the digests, the chunk identifier and the normalization of
-- text, which call libraries.
pub mod Windows
pub mod Numbering
mod Tests
use etoeragcb.Base.{
  ℕ, zero, suc, ◌+◌, ◌-◌, Bool, true, false, not, ◌&&◌, Option, none, some, List, [], ◌∷◌, ◌++◌,
  length, take, drop, ltb, leb, if◌then◌else◌, text_keys,
}
use etoeragcb.Base.Text.{Text, strip}
use etoeragcb.Base.Counter.{count_of, bump}
use etoeragcb.Base.Result.{Result, ok, raise, ◌>>=◌, ◌>>◌, raise_if}

pub record TokenSpan : Type 0 where
  pub start : ℕ
  pub end : ℕ

-- A block with its section, as far as it is read.
pub record SectionedBlock : Type 0 where
  pub section_id : ℕ
  pub page_number : ℕ
  pub text_original : Text

pub record BuiltChunk : Type 0 where
  pub id : ℕ
  pub section_id : ℕ
  pub occurrence_index : ℕ
  pub chunk_index : ℕ
  pub page_start : ℕ
  pub page_end : ℕ
  pub char_start : ℕ
  pub char_end : ℕ
  pub content_sha256 : Text
  pub lexical_sha256 : Text
  pub token_count : ℕ
  pub text_original : Text
  pub text_lexical : Text

pub data ChunkingError : Type 0 where
  overlap_too_large no_offsets no_chunks tokenizer_failed : ChunkingError

-- What the chunker calls: `token_spans`, `normalize_lexical`, `sha256_text`, and `stable_chunk_id` of
-- page, section, first character, occurrence and content digest.
pub record Calls : Type 0 where
  pub token_spans : Text → Result ChunkingError (List TokenSpan)
  pub normalize_lexical : Text → Text
  pub sha256_text : Text → Text
  pub stable_chunk_id : ℕ → ℕ → ℕ → ℕ → Text → ℕ

-- `0 <= span.start < span.end <= len(source_text)`.
unfoldable pub valid_spans : ℕ → List TokenSpan → List TokenSpan
valid_spans size [] = []
valid_spans size (span ∷ spans) =
    if ltb span.start span.end && leb span.end size
    then span ∷ valid_spans size spans
    else valid_spans size spans

-- The windows of the inner loop. The loop ends at the window that reaches the end; each round goes on
-- by `step`, one at least, so the number of tokens is fuel enough.
unfoldable pub token_windows {ℓ} : {A : Type ℓ} → ℕ → ℕ → ℕ → List A → List (List A)
token_windows zero max_tokens step spans = []
token_windows (suc fuel) max_tokens step spans =
    let rest = token_windows fuel max_tokens step (drop step spans) in
    take max_tokens spans ∷ (if leb (length spans) max_tokens then [] else rest)

first_start : List TokenSpan → ℕ
first_start [] = 0
first_start (span ∷ spans) = span.start

last_end : List TokenSpan → ℕ
last_end [] = 0
last_end (span ∷ []) = span.end
last_end (span ∷ next ∷ spans) = last_end (next ∷ spans)

-- `value[start:end]`.
unfoldable pub slice : ℕ → ℕ → Text → Text
slice start end value = drop start (take end value)

-- The variables of the loops.
pub record ChunkState : Type 0 where
  pub occurrence_by_hash : List (Text × ℕ)
  pub result : List BuiltChunk

module _ (calls : Calls) where
  -- A round of the inner loop.
  unfoldable pub add_chunk : SectionedBlock → ChunkState → List TokenSpan → ChunkState
  unfolding first_start last_end slice
  add_chunk block s window =
      let char_start = first_start window in
      let char_end = last_end window in
      let original = slice char_start char_end block.text_original in
      let lexical = calls.normalize_lexical original in
      let content_hash = calls.sha256_text original in
      let lexical_hash = calls.sha256_text lexical in
      let occurrence = count_of lexical_hash s.occurrence_by_hash in
      record {
        occurrence_by_hash = bump lexical_hash s.occurrence_by_hash;
        result =
            s.result
            ++ record {
              id =
                  calls.stable_chunk_id block.page_number block.section_id char_start occurrence
                    content_hash;
              section_id = block.section_id;
              occurrence_index = occurrence;
              chunk_index = length s.result;
              page_start = block.page_number;
              page_end = block.page_number;
              char_start = char_start;
              char_end = char_end;
              content_sha256 = content_hash;
              lexical_sha256 = lexical_hash;
              token_count = length window;
              text_original = original;
              text_lexical = lexical;
            }
              ∷ [];
      }

  unfoldable pub add_chunks : SectionedBlock → ChunkState → List (List TokenSpan) → ChunkState
  add_chunks block s [] = s
  add_chunks block s (window ∷ windows) = add_chunks block (add_chunk block s window) windows

  -- The spans of a block that has any.
  unfoldable pub add_spans :
      ℕ → ℕ → SectionedBlock → ChunkState → List TokenSpan → Result ChunkingError ChunkState
  unfolding add_chunks token_windows
  add_spans max_tokens overlap block s [] = raise no_offsets
  add_spans max_tokens overlap block s (span ∷ spans) = ok (
      add_chunks block s
        (token_windows (length (span ∷ spans)) max_tokens (max_tokens - overlap) (span ∷ spans)))

  unfoldable pub is_blank : Text → Bool
  is_blank [] = true
  is_blank (c ∷ s) = false

  unfoldable pub add_block : ℕ → ℕ → SectionedBlock → ChunkState → Result ChunkingError ChunkState
  unfolding is_blank valid_spans add_spans
  add_block max_tokens overlap block s =
      if is_blank (strip block.text_original)
      then ok s
      else (calls.token_spans block.text_original >>= λ spans.
          add_spans max_tokens overlap block s (valid_spans (length block.text_original) spans))

  unfoldable pub add_blocks :
      ℕ → ℕ → List SectionedBlock → ChunkState → Result ChunkingError ChunkState
  unfolding add_block
  add_blocks max_tokens overlap [] s = ok s
  add_blocks max_tokens overlap (block ∷ blocks) s =
      add_block max_tokens overlap block s >>= add_blocks max_tokens overlap blocks

  unfoldable pub some_chunks : List BuiltChunk → Result ChunkingError (List BuiltChunk)
  some_chunks [] = raise no_chunks
  some_chunks (c ∷ cs) = ok (c ∷ cs)

  unfoldable pub chunk_blocks : ℕ → ℕ → List SectionedBlock → Result ChunkingError (List BuiltChunk)
  unfolding add_blocks some_chunks
  chunk_blocks max_tokens overlap blocks = do
    raise_if (leb max_tokens overlap) overlap_too_large
    s ← add_blocks max_tokens overlap blocks (record { occurrence_by_hash = []; result = [] })
    some_chunks s.result
