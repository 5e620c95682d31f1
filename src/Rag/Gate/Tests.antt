-- ===== src/Rag/Gate/Tests.antt =====
-- Tests of the gate, and its theorems at a concrete input.
use etoeragcb.Base.{true, false, ◌≡◌, ◌↔◌, refl, some, [], ◌∷◌, arith, length}
use etoeragcb.Base.Text.{codes, text_leb, text_eq}
use etoeragcb.Base.Result.{ok, raise}
use etoeragcb.Base.Sort.{sort_by}
use etoeragcb.Rag.Samples.{exact_ops, shuffled}
use etoeragcb.Rag.Candidates.Order.{stable_reranked_key, key_leb, ranked}
use etoeragcb.Rag.Gate.{
  ModelProvenance, GateThresholds, GateConfiguration, GateScores, ConfidenceGate, GateDecision,
  answer, init, evaluate, judge, validate_calibration, uncalibrated_thresholds,
  insufficient_evidence,
}
use etoeragcb.Rag.Gate.Laws.{IsAdmitted, evaluate_answers}

abbrev models : ModelProvenance
models = record {
  embedding_model = codes "e";
  embedding_revision = codes "1";
  reranker_model = codes "r";
  reranker_revision = codes "2";
}

abbrev bounds : GateThresholds
bounds = record {
  top_score_min = 800;
  score_margin_min = 100;
  exact_score_min = 950;
  min_evidence = 4;
}

abbrev configuration : GateConfiguration
configuration = record {
  artifact_id = codes "gate";
  calibrated = true;
  dataset = record {
    name = some (codes "golden");
    version = some (codes "v1");
    sha256 = some (codes "0");
    examples = 59;
  };
  models = models;
  thresholds = some bounds;
}

abbrev gate : ConfidenceGate
gate = record {
  artifact = record { configuration = configuration; sha256 = codes "0" };
  models_match = true;
}

gate-init : init gate.artifact models ≡ gate
unfolding init text_eq
gate-init = refl

configuration_validated : validate_calibration configuration ≡ ok configuration
unfolding validate_calibration
configuration_validated = refl

uncalibrated_refused :
    validate_calibration (record configuration { calibrated = false })
    ≡ raise uncalibrated_thresholds
unfolding validate_calibration
uncalibrated_refused = refl

-- Three pieces of evidence where four are wanted.
abbrev scores : GateScores
scores = record {
  top_score = some 900;
  second_score = some 700;
  score_margin = some 200;
  best_exact_score = some 700;
  evidence_count = 3;
}

judge_scores : (judge bounds scores).1 ≡ insufficient_evidence ∷ []
unfolding judge
judge_scores = refl

evaluate_answers_example :
    (d : GateDecision) × (evaluate exact_ops (init gate.artifact models) shuffled ≡ ok d)
    × ((d.route ≡ answer) ↔ IsAdmitted exact_ops gate.artifact models (ranked shuffled))
    × (d.scores.evidence_count ≡ length shuffled)
unfolding ranked sort_by key_leb stable_reranked_key text_leb
evaluate_answers_example = evaluate_answers exact_ops gate.artifact models shuffled (omega arith)
