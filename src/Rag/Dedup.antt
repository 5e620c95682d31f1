-- ===== src/Rag/Dedup.antt =====
-- backend/app/rag/dedup.py: repeated evidence is collapsed onto the best ranked of its copies.
-- The thresholds and similarities are multiples of 2^-1074; a quotient is rounded by `ops`.
pub mod Shingles
pub mod Absorb
pub mod Laws
pub mod Correct
mod Tests
use etoeragcb.Base.{
  ℕ, ◌-◌, min, max, Bool, true, false, not, ◌||◌, Option, none, some, List, [], ◌∷◌, ◌++◌, ltb, leb,
  if◌then◌else◌, ◌==◌, text_keys,
}
use etoeragcb.Base.Text.{Text, codes, text_eq}
use etoeragcb.Base.Float.{FloatOps, one}
use etoeragcb.Base.Counter.{add_all, difference}
use etoeragcb.Base.Dict.{get, set}
use etoeragcb.Base.Result.{Result, ok, raise, ◌>>=◌, ◌>>◌, raise_if}
use etoeragcb.Rag.Records.{Meta, texts, EvidenceCandidate, RerankedEvidence, id_of}
use etoeragcb.Rag.Candidates.Order.{ranked}
use etoeragcb.Rag.Dedup.Shingles.{shingle_similarity}

pub data DuplicateReason : Type 0 where
  content_hash lexical_hash overlapping_span near_duplicate : DuplicateReason

pub record DuplicateDecision : Type 0 where
  pub dropped_candidate_id : Text
  pub kept_candidate_id : Text
  pub reason : DuplicateReason
  pub similarity : ℕ

pub record DeduplicationResult : Type 0 where
  pub candidates : List RerankedEvidence
  pub decisions : List DuplicateDecision

pub data ThresholdError : Type 0 where
  overlap_threshold_range near_duplicate_threshold_range : ThresholdError

-- The share of the shorter span that two spans have in common.
span_ratio : FloatOps → ℕ → ℕ → ℕ → ℕ → ℕ
span_ratio ops start end start' end' =
    let intersection = min end end' - max start start' in
    let shortest = min (end - start) (end' - start') in
    if ltb 0 shortest then ops.div intersection shortest else 0

overlap_of : FloatOps → Option ℕ → Option ℕ → Option ℕ → Option ℕ → ℕ
unfolding span_ratio
overlap_of ops (some a) (some b) (some c) (some d) = span_ratio ops a b c d
overlap_of ops a b c d = 0

unfoldable pub span_overlap : FloatOps → RerankedEvidence → RerankedEvidence → ℕ
unfolding overlap_of
span_overlap ops left right =
    let first = left.candidate in
    let second = right.candidate in
    if not (first.source_key == second.source_key) || not (first.section_key == second.section_key)
    then 0
    else overlap_of ops first.char_start first.char_end second.char_start second.char_end

is_empty : {A : Type 0} → List A → Bool
is_empty [] = true
is_empty (x ∷ xs) = false

unfoldable pub duplicate_reason :
    FloatOps → ℕ → ℕ → RerankedEvidence → RerankedEvidence → Option (DuplicateReason × ℕ)
unfolding is_empty
duplicate_reason ops overlap_threshold near_duplicate_threshold existing current =
    let left = existing.candidate in
    let right = current.candidate in
    let overlap = span_overlap ops existing current in
    let similarity = shingle_similarity ops left.text_lexical right.text_lexical in
    if left.content_sha256 == right.content_sha256
    then some (content_hash, one)
    else if left.lexical_sha256 == right.lexical_sha256
    then some (lexical_hash, one)
    else if not (is_empty (difference right.matched_exact_terms left.matched_exact_terms))
    then none
    else if leb overlap_threshold overlap
    then some (overlapping_span, overlap)
    else if leb near_duplicate_threshold similarity
    then some (near_duplicate, similarity)
    else none

-- `collapsed if isinstance(collapsed, list) else []`.
texts_of : Option Meta → List Text
texts_of (some (texts ts)) = ts
texts_of other = []

unfoldable pub merge_exact_provenance : RerankedEvidence → RerankedEvidence → RerankedEvidence
unfolding texts_of
merge_exact_provenance survivor duplicate =
    let left = survivor.candidate in
    let right = duplicate.candidate in
    let key = codes "collapsed_candidate_ids" in
    let collapsed_ids = texts_of (get key left.provenance) ++ right.candidate_id ∷ [] in
    record survivor {
      candidate = record left {
        matched_exact_terms = add_all [] (left.matched_exact_terms ++ right.matched_exact_terms);
        matched_hints = add_all [] (left.matched_hints ++ right.matched_hints);
        provenance = set key (texts collapsed_ids) left.provenance;
      };
    }

-- The inner loop over `kept`: at the first duplicate, its merged record in its place, and the
-- decision; `none` where the loop ends without one.
unfoldable pub absorb :
    FloatOps
    → ℕ
    → ℕ
    → List RerankedEvidence
    → RerankedEvidence
    → Option (List RerankedEvidence × DuplicateDecision)
absorb ops overlap near [] current = none
absorb ops overlap near (existing ∷ kept) current =
    elim (duplicate_reason ops overlap near existing current) [
      | some (r, s) ↦ some (
        merge_exact_provenance existing current ∷ kept,
        record {
          dropped_candidate_id = id_of current;
          kept_candidate_id = id_of existing;
          reason = r;
          similarity = s;
        },
      )
      | none ↦ elim (absorb ops overlap near kept current) [
        | none ↦ none
        | some (kept', decision) ↦ some (existing ∷ kept', decision)
      ]
    ]

-- The end of a round: a candidate that duplicates nothing is kept.
unfoldable pub settle :
    DeduplicationResult
    → RerankedEvidence
    → Option (List RerankedEvidence × DuplicateDecision)
    → DeduplicationResult
settle r current none = record r { candidates = r.candidates ++ current ∷ [] }
settle r current (some (kept, decision)) = record {
  candidates = kept;
  decisions = r.decisions ++ decision ∷ [];
}

-- The outer loop, over the candidates that are left.
unfoldable pub collapse :
    FloatOps → ℕ → ℕ → List RerankedEvidence → DeduplicationResult → DeduplicationResult
collapse ops overlap near [] r = r
collapse ops overlap near (current ∷ rest) r =
    collapse ops overlap near rest (settle r current (absorb ops overlap near r.candidates current))

abbrev pub nothing_kept : DeduplicationResult
nothing_kept = record { candidates = []; decisions = [] }

unfoldable pub deduplicate :
    FloatOps → ℕ → ℕ → List RerankedEvidence → Result ThresholdError DeduplicationResult
deduplicate ops overlap_threshold near_duplicate_threshold candidates = do
  raise_if (ltb one overlap_threshold) overlap_threshold_range
  raise_if (ltb one near_duplicate_threshold) near_duplicate_threshold_range
  ok (collapse ops overlap_threshold near_duplicate_threshold (ranked candidates) nothing_kept)
