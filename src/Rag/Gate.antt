-- ===== src/Rag/Gate.antt =====
-- backend/app/rag/gate.py: the calibrated gate that routes a question to an answer or to none.
-- Scores and thresholds are multiples of 2^-1074; the margin is rounded by `ops`. The artifact's
-- bytes, their digest and their JSON reading are the caller's: the model begins at the parsed record.
pub mod Laws
mod Tests
use etoeragcb.Base.{
  ℕ, ◌≡◌, Bool, true, false, not, ◌&&◌, ◌||◌, max, Option, none, some, List, [], ◌∷◌, ◌++◌, ltb,
  leb, if◌then◌else◌, length, ◌==◌, text_keys,
}
use etoeragcb.Base.Text.{Text}
use etoeragcb.Base.Float.{FloatOps}
use etoeragcb.Base.Result.{Result, ok, raise, ◌>>=◌, ◌>>◌, raise_if}
use etoeragcb.Rag.Records.{RerankedEvidence}
use etoeragcb.Rag.Candidates.Order.{ranked}

pub record DatasetProvenance : Type 0 where
  pub name : Option Text
  pub version : Option Text
  pub sha256 : Option Text
  pub examples : ℕ

pub record ModelProvenance : Type 0 where
  pub embedding_model : Text
  pub embedding_revision : Text
  pub reranker_model : Text
  pub reranker_revision : Text

pub record GateThresholds : Type 0 where
  pub top_score_min : ℕ
  pub score_margin_min : ℕ
  pub exact_score_min : ℕ
  pub min_evidence : ℕ

pub record GateConfiguration : Type 0 where
  pub artifact_id : Text
  pub calibrated : Bool
  pub dataset : DatasetProvenance
  pub models : ModelProvenance
  pub thresholds : Option GateThresholds

pub record GateArtifact : Type 0 where
  pub configuration : GateConfiguration
  pub sha256 : Text

pub record GateScores : Type 0 where
  pub top_score : Option ℕ
  pub second_score : Option ℕ
  pub score_margin : Option ℕ
  pub best_exact_score : Option ℕ
  pub evidence_count : ℕ

pub data GateReason : Type 0 where
  thresholds_passed exact_threshold_passed no_candidates calibration_unavailable : GateReason
  model_revision_mismatch insufficient_evidence top_score_below_threshold : GateReason
  score_margin_below_threshold : GateReason

pub data Route : Type 0 where
  answer no_answer : Route

pub record GateDecision : Type 0 where
  pub route : Route
  pub reasons : List GateReason
  pub scores : GateScores
  pub artifact_id : Text
  pub artifact_sha256 : Text
  pub calibrated : Bool
  pub dataset_name : Option Text
  pub dataset_version : Option Text
  pub dataset_sha256 : Option Text

pub data GateError : Type 0 where
  incomplete_calibration uncalibrated_thresholds negative_margin : GateError

is_some : {A : Type 0} → Option A → Bool
is_some none = false
is_some (some a) = true

unfoldable pub complete : DatasetProvenance → Bool
unfolding is_some
complete d = is_some d.name && is_some d.version && is_some d.sha256 && ltb 0 d.examples

unfoldable pub validate_calibration : GateConfiguration → Result GateError GateConfiguration
unfolding is_some complete
validate_calibration c = do
  raise_if (c.calibrated && (not (is_some c.thresholds) || not (complete c.dataset)))
      incomplete_calibration
  raise_if (not c.calibrated && is_some c.thresholds) uncalibrated_thresholds
  ok c

pub record ConfidenceGate : Type 0 where
  pub artifact : GateArtifact
  pub models_match : Bool

-- `__init__`: the models in use are compared with those of the calibration.
unfoldable pub init : GateArtifact → ModelProvenance → ConfidenceGate
init artifact used =
    let models = artifact.configuration.models in
    record {
      artifact = artifact;
      models_match =
          models.embedding_model == used.embedding_model
          && models.embedding_revision == used.embedding_revision
          && models.reranker_model == used.reranker_model
          && models.reranker_revision == used.reranker_revision;
    }

unfoldable pub top_score_of : List RerankedEvidence → Option ℕ
top_score_of [] = none
top_score_of (a ∷ rest) = some a.rerank_score

unfoldable pub second_score_of : List RerankedEvidence → Option ℕ
second_score_of [] = none
second_score_of (a ∷ []) = none
second_score_of (a ∷ b ∷ rest) = some b.rerank_score

-- The margin of the best over the second score. `GateScores` refuses a negative one.
unfoldable pub margin_of : FloatOps → Option ℕ → Option ℕ → Result GateError (Option ℕ)
margin_of ops (some top) (some second) =
    if ltb top second then raise negative_margin else ok (some (ops.sub top second))
margin_of ops top second = ok top

unfoldable pub max_with : ℕ → Option ℕ → Option ℕ
max_with a none = some a
max_with a (some b) = some (max a b)

-- The best score among the evidence that matched an exact term.
unfoldable pub best_exact : List RerankedEvidence → Option ℕ
unfolding max_with
best_exact [] = none
best_exact (item ∷ rest) = elim item.candidate.matched_exact_terms [
  | [] ↦ best_exact rest
  | t ∷ ts ↦ max_with item.rerank_score (best_exact rest)
]

unfoldable pub scores_of : FloatOps → List RerankedEvidence → Result GateError GateScores
unfolding top_score_of second_score_of margin_of best_exact
scores_of ops order = do
  margin ← margin_of ops (top_score_of order) (second_score_of order)
  ok (record {
    top_score = top_score_of order;
    second_score = second_score_of order;
    score_margin = margin;
    best_exact_score = best_exact order;
    evidence_count = length order;
  })

-- `score is not None and score >= bound`.
unfoldable pub reaches : ℕ → Option ℕ → Bool
reaches bound none = false
reaches bound (some score) = leb bound score

-- The checks of the thresholds that fail, in order.
unfoldable pub failures_of : GateThresholds → GateScores → List GateReason
unfolding reaches
failures_of t s =
    (if ltb s.evidence_count t.min_evidence then insufficient_evidence ∷ [] else [])
    ++ ((if reaches t.top_score_min s.top_score then [] else top_score_below_threshold ∷ [])
        ++ (if reaches t.score_margin_min s.score_margin
            then []
            else score_margin_below_threshold ∷ []))

unfoldable pub route_of_failures : List GateReason → Route × List GateReason
route_of_failures [] = (answer, thresholds_passed ∷ [])
route_of_failures (f ∷ fs) = (no_answer, f ∷ fs)

unfoldable pub judge : GateThresholds → GateScores → Route × List GateReason
unfolding reaches failures_of route_of_failures
judge t s =
    if reaches t.exact_score_min s.best_exact_score
    then (answer, exact_threshold_passed ∷ [])
    else route_of_failures (failures_of t s)

-- The cascade of early returns of `evaluate`.
unfoldable pub route_of :
    ConfidenceGate → List RerankedEvidence → GateScores → Route × List GateReason
unfolding judge
route_of gate [] s = (no_answer, no_candidates ∷ [])
route_of gate (item ∷ rest) s =
    let config = gate.artifact.configuration in
    if not config.calibrated
    then (no_answer, calibration_unavailable ∷ [])
    else if not gate.models_match
    then (no_answer, model_revision_mismatch ∷ [])
    else elim config.thresholds [
      | none ↦ (no_answer, calibration_unavailable ∷ [])
      | some t ↦ judge t s
    ]

-- `_decision`.
unfoldable pub decision : ConfidenceGate → Route × List GateReason → GateScores → GateDecision
decision gate (route, reasons) s =
    let config = gate.artifact.configuration in
    record {
      route = route;
      reasons = reasons;
      scores = s;
      artifact_id = config.artifact_id;
      artifact_sha256 = gate.artifact.sha256;
      calibrated = config.calibrated;
      dataset_name = config.dataset.name;
      dataset_version = config.dataset.version;
      dataset_sha256 = config.dataset.sha256;
    }

unfoldable pub evaluate :
    FloatOps → ConfidenceGate → List RerankedEvidence → Result GateError GateDecision
unfolding route_of decision scores_of
evaluate ops gate candidates = do
  let order = ranked candidates
  scores ← scores_of ops order
  ok (decision gate (route_of gate order scores) scores)
