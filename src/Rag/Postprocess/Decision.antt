-- ===== src/Rag/Postprocess/Decision.antt =====
-- After retrieval the gate always comes to a decision.
use etoeragcb.Base.{◌≡◌, ◌↔◌, List, length}
use etoeragcb.Base.Result.{ok}
use etoeragcb.Rag.Records.{EvidenceCandidate, RerankedEvidence}
use etoeragcb.Rag.Dedup.{DeduplicationResult}
use etoeragcb.Rag.Confidence.{filter}
use etoeragcb.Rag.Context.{PackedContext}
use etoeragcb.Rag.Gate.{GateDecision, answer}
use etoeragcb.Rag.Gate.Laws.{Admits}
use etoeragcb.Rag.Postprocess.{Postprocessor, process}

-- A run that decides, with the stages it went through.
pub record IsDecided (p : Postprocessor) (candidates : List EvidenceCandidate)
    (r : List RerankedEvidence) (d : DeduplicationResult) (context : PackedContext) : Type 0 where
  pub decision : GateDecision
  pub returned :
      process p candidates
      ≡ ok (record {
        reranked = r;
        deduplication = d;
        confidence_filter = filter p.ops p.confidence d.candidates;
        context = context;
        gate = decision;
      })
  pub admitted : (decision.route ≡ answer) ↔ Admits p.gate decision.scores
  pub counted : decision.scores.evidence_count ≡ length context.sources
