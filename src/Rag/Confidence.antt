-- ===== src/Rag/Confidence.antt =====
-- backend/app/rag/confidence.py: weak evidence is removed before the context is packed.
-- Scores and bounds are multiples of 2^-1074; the difference is rounded by `ops`.
pub mod Laws
mod Tests
use etoeragcb.Base.{ℕ, max, Bool, Option, none, some, List, [], ◌∷◌, ltb, leb, if◌then◌else◌}
use etoeragcb.Base.Text.{Text}
use etoeragcb.Base.Float.{FloatOps, one}
use etoeragcb.Base.Result.{Result, ok, raise, ◌>>=◌, ◌>>◌, raise_if}
use etoeragcb.Rag.Records.{RerankedEvidence, id_of}
use etoeragcb.Rag.Candidates.Order.{ranked}

pub data DropReason : Type 0 where
  below_score_min outside_top_delta : DropReason

pub record CandidateConfidenceDecision : Type 0 where
  pub candidate_id : Text
  pub rerank_rank : ℕ
  pub rerank_score : ℕ
  pub reason : DropReason

pub record CandidateConfidenceResult : Type 0 where
  pub candidates : List RerankedEvidence
  pub decisions : List CandidateConfidenceDecision
  pub top_score : Option ℕ
  pub effective_score_cutoff : ℕ
  pub score_min : ℕ
  pub top_delta : ℕ

pub record CandidateConfidenceFilter : Type 0 where
  pub score_min : ℕ
  pub top_delta : ℕ

pub data BoundError : Type 0 where
  score_min_range top_delta_range : BoundError

-- `__init__`.
unfoldable pub init : ℕ → ℕ → Result BoundError CandidateConfidenceFilter
init score_min top_delta = do
  raise_if (ltb one score_min) score_min_range
  raise_if (ltb one top_delta) top_delta_range
  ok (record { score_min = score_min; top_delta = top_delta })

unfoldable pub top_score_of : List RerankedEvidence → Option ℕ
top_score_of [] = none
top_score_of (item ∷ rest) = some item.rerank_score

-- `max(score_min, top_score - top_delta)`; a negative difference is below `score_min`.
unfoldable pub effective_cutoff : FloatOps → CandidateConfidenceFilter → Option ℕ → ℕ
effective_cutoff ops f none = f.score_min
effective_cutoff ops f (some top) =
    if ltb top f.top_delta then f.score_min else max f.score_min (ops.sub top f.top_delta)

-- The loop over the ranked evidence: what is retained, and the decisions on the rest.
unfoldable pub sift :
    ℕ → ℕ → List RerankedEvidence → List RerankedEvidence × List CandidateConfidenceDecision
sift cutoff score_min [] = ([], [])
sift cutoff score_min (item ∷ rest) =
    let (retained, decisions) = sift cutoff score_min rest in
    if leb cutoff item.rerank_score then (item ∷ retained, decisions) else (
      retained,
      record {
        candidate_id = id_of item;
        rerank_rank = item.rerank_rank;
        rerank_score = item.rerank_score;
        reason = if ltb item.rerank_score score_min then below_score_min else outside_top_delta;
      }
          ∷ decisions,
    )

unfoldable pub filter :
    FloatOps → CandidateConfidenceFilter → List RerankedEvidence → CandidateConfidenceResult
filter ops f candidates =
    let order = ranked candidates in
    let top_score = top_score_of order in
    let cutoff = effective_cutoff ops f top_score in
    let (retained, decisions) = sift cutoff f.score_min order in
    record {
      candidates = retained;
      decisions = decisions;
      top_score = top_score;
      effective_score_cutoff = cutoff;
      score_min = f.score_min;
      top_delta = f.top_delta;
    }
