-- ===== src/Rag/Postprocess.antt =====
-- backend/app/rag/postprocess.py: the stages after retrieval, each a model of its own, composed as
-- `process` composes them. Each stage raises its own errors.
pub mod Stages
pub mod Packing
pub mod Decision
mod Tests
use etoeragcb.Base.{ℕ, Option, List, map}
use etoeragcb.Base.Text.{Text}
use etoeragcb.Base.Float.{FloatOps}
use etoeragcb.Base.Result.{Result, ok, raise, ◌>>=◌}
use etoeragcb.Rag.Records.{EvidenceCandidate, RerankedEvidence}
use etoeragcb.Rag.Reranker.{RerankServiceError, Entry, rerank}
use etoeragcb.Rag.Dedup.{ThresholdError, DeduplicationResult, deduplicate}
use etoeragcb.Rag.Confidence.{CandidateConfidenceFilter, CandidateConfidenceResult, filter}
use etoeragcb.Rag.Context.{ContextPacker, PackError, PackedContext, PackedSource, pack}
use etoeragcb.Rag.Gate.{ConfidenceGate, GateDecision, GateError, evaluate}

pub data PostprocessError : Type 0 where
  in_reranking : RerankServiceError → PostprocessError
  in_deduplication : ThresholdError → PostprocessError
  in_packing : PackError → PostprocessError
  in_gate : GateError → PostprocessError

pub record PostRetrievalResult : Type 0 where
  pub reranked : List RerankedEvidence
  pub deduplication : DeduplicationResult
  pub confidence_filter : CandidateConfidenceResult
  pub context : PackedContext
  pub gate : GateDecision

-- The error of a stage, as the exception that leaves `process`.
abbrev pub stage_of :
    {E A : Type 0} → (E → PostprocessError) → Result E A → Result PostprocessError A
stage_of f (raise e) = raise (f e)
stage_of f (ok a) = ok a

-- What the processor is made with: the services and limits of the stages.
pub record Postprocessor : Type 0 where
  pub ops : FloatOps
  pub service : List EvidenceCandidate → Result RerankServiceError (Option (List Entry))
  pub cache : List EvidenceCandidate → Option (List ℕ)
  pub batch_size : ℕ
  pub max_candidates : ℕ
  pub overlap_threshold : ℕ
  pub near_duplicate_threshold : ℕ
  pub confidence : CandidateConfidenceFilter
  pub count : Text → Result PackError ℕ
  pub packer : ContextPacker
  pub gate : ConfidenceGate

-- `tuple(source.evidence for source in context.sources)`.
abbrev pub packed_evidence : PackedContext → List RerankedEvidence
packed_evidence context = map (λ s. s.evidence) context.sources

-- `process`.
unfoldable pub process :
    Postprocessor → List EvidenceCandidate → Result PostprocessError PostRetrievalResult
process p candidates = do
  reranked ←
      stage_of in_reranking (rerank p.service p.cache p.batch_size p.max_candidates candidates)
  deduplication ←
      stage_of in_deduplication
        (deduplicate p.ops p.overlap_threshold p.near_duplicate_threshold reranked)
  let confidence_filter = filter p.ops p.confidence deduplication.candidates
  context ← stage_of in_packing (pack p.count p.packer confidence_filter.candidates)
  gate ← stage_of in_gate (evaluate p.ops p.gate (packed_evidence context))
  ok (record {
    reranked = reranked;
    deduplication = deduplication;
    confidence_filter = confidence_filter;
    context = context;
    gate = gate;
  })
