-- ===== src/Rag/Postprocess/Tests.antt =====
-- A run after retrieval at a concrete input.
use etoeragcb.Base.{true, false, refl, none, some, Option, List, [], ◌∷◌, length}
use etoeragcb.Base.Text.{codes}
use etoeragcb.Base.Result.{Result, ok, raise}
use etoeragcb.Rag.Records.{EvidenceCandidate, RerankedEvidence}
use etoeragcb.Rag.Samples.{exact_ops, first, copy, other}
use etoeragcb.Rag.Context.Total.{pack_within_limits}
use etoeragcb.Rag.Reranker.{Entry, entry, integer, finite, RerankServiceError}
use etoeragcb.Rag.Dedup.{ThresholdError, DeduplicationResult, nothing_kept, deduplicate}
use etoeragcb.Rag.Confidence.{filter}
use etoeragcb.Rag.Context.{PackedContext}
use etoeragcb.Rag.Gate.{ConfidenceGate}
use etoeragcb.Rag.Postprocess.{Postprocessor}

abbrev service : List EvidenceCandidate → Result RerankServiceError (Option (List Entry))
service (a ∷ b ∷ cs) = ok (
    some
      (entry (integer false 1) (finite false 80) ∷ entry (integer false 0) (finite false 20) ∷ []))
service cs = ok (some (entry (integer false 0) (finite false 50) ∷ []))

abbrev gate : ConfidenceGate
gate = record {
  artifact = record {
    configuration = record {
      artifact_id = codes "gate";
      calibrated = false;
      dataset = record { name = none; version = none; sha256 = none; examples = 0 };
      models = record {
        embedding_model = codes "e";
        embedding_revision = codes "1";
        reranker_model = codes "r";
        reranker_revision = codes "2";
      };
      thresholds = none;
    };
    sha256 = codes "0";
  };
  models_match = true;
}

abbrev processor : Postprocessor
processor = record {
  ops = exact_ops;
  service = service;
  cache = λ bs. none;
  batch_size = 2;
  max_candidates = 5;
  overlap_threshold = 0;
  near_duplicate_threshold = 0;
  confidence = record { score_min = 0; top_delta = 100 };
  count = λ t. ok (length t);
  packer = record {
    token_budget = 400;
    max_candidates = 2;
    section_limit = 2;
    source_limit = 2;
    domain_limit = 2;
    web_limit = none;
  };
  gate = gate;
}

abbrev candidates : List EvidenceCandidate
candidates = other.candidate ∷ copy.candidate ∷ first.candidate ∷ []

abbrev reranked : List RerankedEvidence
reranked =
    record { candidate = copy.candidate; rerank_score = 80; rerank_rank = 1 }
    ∷ record { candidate = other.candidate; rerank_score = 50; rerank_rank = 2 }
    ∷ record { candidate = first.candidate; rerank_score = 20; rerank_rank = 3 }
    ∷ []

abbrev kept_by : Result ThresholdError DeduplicationResult → DeduplicationResult
kept_by (ok d) = d
kept_by (raise e) = nothing_kept

abbrev kept : DeduplicationResult
unfolding deduplicate
kept = kept_by (deduplicate exact_ops 0 0 reranked)

abbrev sifted : List RerankedEvidence
sifted = (filter exact_ops processor.confidence kept.candidates).candidates

-- The context that the packing of it returns.
abbrev context : PackedContext
context = (pack_within_limits processor.count processor.packer sifted (λ t. (length t, refl))).0
