-- ===== src/Rag/Gate/Laws.antt =====
-- The theorems about the gate: when it answers, and what its reasons say.
use etoeragcb.Base.{
  ℕ, ◌≤◌, ◌<◌, true, ◌≡◌, ◌⊎◌, ◌↔◌, inl, inr, refl, Option, none, some, List, [], ◌∷◌, arith,
  Option-cases, length, Any, text_keys, ap, subst, sym,
}
use etoeragcb.Base.Float.{FloatOps}
use etoeragcb.Base.Result.{ok}
use etoeragcb.Rag.Records.{RerankedEvidence}
use etoeragcb.Rag.Candidates.Order.{ranked, length-ranked}
use etoeragcb.Rag.Gate.{
  init, GateThresholds, GateScores, GateReason, GateDecision, answer, thresholds_passed,
  insufficient_evidence, top_score_below_threshold, score_margin_below_threshold, ConfidenceGate,
  margin_of, reaches, failures_of, route_of_failures, judge, route_of, decision, scores_of,
  evaluate, top_score_of, second_score_of, best_exact, max_with, ModelProvenance, GateArtifact,
}

-- A score is there and is at least the bound.
abbrev pub IsAtLeast : ℕ → Option ℕ → Type 0
IsAtLeast bound none = ⊥
IsAtLeast bound (some score) = bound ≤ score

-- The bounds on the reported scores.
abbrev Passes : GateThresholds → GateScores → Type 0
Passes t s =
    IsAtLeast t.exact_score_min s.best_exact_score
    ⊎ ((t.min_evidence ≤ s.evidence_count)
        × IsAtLeast t.top_score_min s.top_score
        × IsAtLeast t.score_margin_min s.score_margin)

reaches_iff : (bound : ℕ) (o : Option ℕ) → (reaches bound o ≡ true) ↔ IsAtLeast bound o
unfolding reaches
reaches_iff bound none = (λ e. cc, λ h. absurd h)
reaches_iff bound (some s) = ground arith

judge_iff : (t : GateThresholds) (s : GateScores) → ((judge t s).0 ≡ answer) ↔ Passes t s
unfolding judge failures_of route_of_failures
judge_iff t s =
    let e = reaches_iff t.exact_score_min s.best_exact_score in
    let h = reaches_iff t.top_score_min s.top_score in
    let m = reaches_iff t.score_margin_min s.score_margin in
    (ground (arith, e, h, m), ground (arith, e, h, m))

-- The best ranked score is not below the second one, as it is for evidence that a reranker ranked.
abbrev pub IsDescending : List RerankedEvidence → Type 0
IsDescending [] = Unit
IsDescending (a ∷ []) = Unit
IsDescending (a ∷ b ∷ rest) = b.rerank_score ≤ a.rerank_score

-- The margin of the best score over the second; the best score itself where it is alone.
abbrev margin_over : FloatOps → List RerankedEvidence → Option ℕ
margin_over ops [] = none
margin_over ops (a ∷ []) = some a.rerank_score
margin_over ops (a ∷ b ∷ rest) = some (ops.sub a.rerank_score b.rerank_score)

abbrev expected_scores : FloatOps → List RerankedEvidence → GateScores
expected_scores ops order = record {
  top_score = top_score_of order;
  second_score = second_score_of order;
  score_margin = margin_over ops order;
  best_exact_score = best_exact order;
  evidence_count = length order;
}

scores_of_returns :
    (ops : FloatOps) (order : List RerankedEvidence)
    → IsDescending order
    → scores_of ops order ≡ ok (expected_scores ops order)
unfolding scores_of margin_of top_score_of second_score_of
scores_of_returns ops [] h = refl
scores_of_returns ops (a ∷ []) h = refl
scores_of_returns ops (a ∷ b ∷ rest) h = ground arith

-- Evidence that matched an exact term and whose score is at least the bound.
abbrev pub IsStrongExact : ℕ → RerankedEvidence → Type 0
IsStrongExact bound item =
    (¬ (item.candidate.matched_exact_terms ≡ [])) × (bound ≤ item.rerank_score)

-- The first score is at least one bound, and what it is ahead of the second at least the other; a
-- first score that is alone has to reach both.
abbrev pub IsClearlyBest : FloatOps → ℕ → ℕ → List RerankedEvidence → Type 0
IsClearlyBest ops top margin [] = ⊥
IsClearlyBest ops top margin (a ∷ []) = (top ≤ a.rerank_score) × (margin ≤ a.rerank_score)
IsClearlyBest ops top margin (a ∷ b ∷ rest) =
    (top ≤ a.rerank_score) × (margin ≤ ops.sub a.rerank_score b.rerank_score)

-- The specification, of ranked evidence: a strong exact match, or enough evidence with a strong and
-- clear best score.
abbrev pub IsEnough : FloatOps → GateThresholds → List RerankedEvidence → Type 0
IsEnough ops t order =
    Any (IsStrongExact t.exact_score_min) order
    ⊎ ((t.min_evidence ≤ length order) × IsClearlyBest ops t.top_score_min t.score_margin_min order)

max_with_iff :
    (bound a : ℕ) (o : Option ℕ)
    → IsAtLeast bound (max_with a o) ↔ ((bound ≤ a) ⊎ IsAtLeast bound o)
unfolding max_with
max_with_iff bound a none = (λ h. inl h, λ h. elim h [ inl p ↦ p | inr q ↦ absurd q ])
max_with_iff bound a (some b) = ground arith

List-cases : {A : Type 0} (xs : List A) → (xs ≡ []) ⊎ ((x : A) × (ys : List A) × (xs ≡ x ∷ ys))
List-cases [] = inl refl
List-cases (x ∷ xs) = inr (x, xs, refl)

best_exact_iff :
    (bound : ℕ) (order : List RerankedEvidence)
    → IsAtLeast bound (best_exact order) ↔ Any (IsStrongExact bound) order
unfolding best_exact
best_exact_iff bound [] = (λ h. h, λ h. h)
best_exact_iff bound (item ∷ rest) =
    let ih = best_exact_iff bound rest in
    elim (List-cases item.candidate.matched_exact_terms) [
      | inl e ↦ (
        λ h. inr (ih.0 (rw e at h)),
        λ h. elim h [ inl p ↦ absurd (p.0 e) | inr q ↦ rw e (ih.1 q) ],
      )
      | inr (t, ts, e) ↦
          let m = max_with_iff bound item.rerank_score (best_exact rest) in
          (
            λ h. elim (m.0 (rw e at h)) [
              | inl p ↦ inl ((λ none_there. cc), p)
              | inr q ↦ inr (ih.0 q)
            ],
            λ h. rw e (m.1 (elim h [ inl p ↦ inl p.1 | inr q ↦ inr (ih.1 q) ])),
          )
    ]

clear_iff :
    (ops : FloatOps) (top margin : ℕ) (order : List RerankedEvidence)
    → (IsAtLeast top (top_score_of order) × IsAtLeast margin (margin_over ops order))
      ↔ IsClearlyBest ops top margin order
unfolding top_score_of
clear_iff ops top margin [] = (λ h. h.0, λ h. absurd h)
clear_iff ops top margin (a ∷ []) = (λ h. h, λ h. h)
clear_iff ops top margin (a ∷ b ∷ rest) = (λ h. h, λ h. h)

bounds_iff :
    (ops : FloatOps) (t : GateThresholds) (order : List RerankedEvidence)
    → Passes t (expected_scores ops order) ↔ IsEnough ops t order
bounds_iff ops t order =
    let e = best_exact_iff t.exact_score_min order in
    let c = clear_iff ops t.top_score_min t.score_margin_min order in
    (
      λ h. elim h [ inl p ↦ inl (e.0 p) | inr (n, b, m) ↦ inr (n, c.0 (b, m)) ],
      λ h. elim h [ inl p ↦ inl (e.1 p) | inr q ↦ let (b, m) = c.1 q.1 in inr (q.0, b, m) ],
    )

-- What the gate demands of the calibration, of the models and of the scores.
abbrev pub Admits : ConfidenceGate → GateScores → Type 0
Admits gate s =
    (gate.artifact.configuration.calibrated ≡ true)
    × (gate.models_match ≡ true)
    × ((t : GateThresholds) × (gate.artifact.configuration.thresholds ≡ some t) × Passes t s)

no_scores :
    (ops : FloatOps) {s : GateScores}
    → scores_of ops [] ≡ ok s
    → (s.top_score ≡ none) × (s.best_exact_score ≡ none)
unfolding scores_of margin_of top_score_of second_score_of best_exact
no_scores ops h = ground arith

not-Passes :
    (t : GateThresholds) (s : GateScores)
    → s.top_score ≡ none
    → s.best_exact_score ≡ none
    → ¬ Passes t s
not-Passes t s top exact (inl p) = rw exact at p
not-Passes t s top exact (inr p) = rw top at p.1

route_iff :
    (ops : FloatOps) (gate : ConfidenceGate) (order : List RerankedEvidence) (s : GateScores)
    → scores_of ops order ≡ ok s
    → ((route_of gate order s).0 ≡ answer) ↔ Admits gate s
unfolding route_of
route_iff ops gate [] s h =
    let (top, exact) = no_scores ops h in
    (λ e. cc, λ a. absurd (not-Passes a.2.0 s top exact a.2.2))
route_iff ops gate (item ∷ rest) s h = elim (Option-cases gate.artifact.configuration.thresholds) [
  | inl missing ↦ (ground arith, ground arith)
  | inr (t, found) ↦ (
    λ e. (ground arith, ground arith, (t, found, (judge_iff t s).0 (ground arith))),
    λ a. rw (a.0, a.1, a.2.1, route_of) ((judge_iff a.2.0 s).1 a.2.2),
  )
]

models_alike :
    (a b : ModelProvenance)
    → a.embedding_model ≡ b.embedding_model
    → a.embedding_revision ≡ b.embedding_revision
    → a.reranker_model ≡ b.reranker_model
    → a.reranker_revision ≡ b.reranker_revision
    → a ≡ b
models_alike a b e f g h = rw (e, f, g, h) refl

models_match_iff :
    (artifact : GateArtifact) (used : ModelProvenance)
    → ((init artifact used).models_match ≡ true) ↔ (artifact.configuration.models ≡ used)
unfolding init
models_match_iff artifact used =
    let m = artifact.configuration.models in
    let e = text_keys.same_iff m.embedding_model used.embedding_model in
    let f = text_keys.same_iff m.embedding_revision used.embedding_revision in
    let g = text_keys.same_iff m.reranker_model used.reranker_model in
    let h = text_keys.same_iff m.reranker_revision used.reranker_revision in
    (
      λ k.
          models_alike m used (e.0 (ground (arith, k))) (f.0 (ground (arith, k)))
            (g.0 (ground (arith, k))) (h.0 (ground (arith, k))),
      λ k.
          rw
            (
              e.1 (ap (λ x. x.embedding_model) k),
              f.1 (ap (λ x. x.embedding_revision) k),
              g.1 (ap (λ x. x.reranker_model) k),
              h.1 (ap (λ x. x.reranker_revision) k),
            )
            refl,
    )

-- What is demanded of the calibration, of the models in use and of the ranked evidence.
abbrev pub IsAdmitted : FloatOps → GateArtifact → ModelProvenance → List RerankedEvidence → Type 0
IsAdmitted ops artifact used order =
    (artifact.configuration.calibrated ≡ true)
    × (artifact.configuration.models ≡ used)
    × ((t : GateThresholds) × (artifact.configuration.thresholds ≡ some t) × IsEnough ops t order)

evidence_iff :
    (ops : FloatOps) (artifact : GateArtifact) (used : ModelProvenance)
    (order : List RerankedEvidence)
    → Admits (init artifact used) (expected_scores ops order) ↔ IsAdmitted ops artifact used order
unfolding init
evidence_iff ops artifact used order =
    let m = models_match_iff artifact used in
    (
      λ (calibrated, same, (t, found, passes)).
          (calibrated, m.0 same, (t, found, (bounds_iff ops t order).0 passes)),
      λ (calibrated, same, (t, found, passes)).
          (calibrated, m.1 same, (t, found, (bounds_iff ops t order).1 passes)),
    )

-- The decision of a gate by the scores that it reports.
pub evaluate_by_scores :
    (ops : FloatOps) (gate : ConfidenceGate) (cs : List RerankedEvidence)
    → IsDescending (ranked cs)
    → (d : GateDecision) × (evaluate ops gate cs ≡ ok d)
      × ((d.route ≡ answer) ↔ Admits gate d.scores)
      × (d.scores.evidence_count ≡ length cs)
      × (d.scores ≡ expected_scores ops (ranked cs))
unfolding evaluate decision
evaluate_by_scores ops gate cs h =
    let s = expected_scores ops (ranked cs) in
    let e = scores_of_returns ops (ranked cs) h in
    (
      decision gate (route_of gate (ranked cs) s) s,
      rw e refl,
      route_iff ops gate (ranked cs) s e,
      length-ranked cs,
      refl,
    )

-- Where the best ranked score is not below the second one, the gate that is made for the models in use
-- returns a decision. It answers exactly when the artifact is calibrated, its models and their
-- revisions are the ones in use, it has thresholds, and either some evidence that matched an exact
-- term reaches the bound for an exact match, or there is as much evidence as is wanted, its best
-- ranked score reaches its bound, and what this is ahead of the second score, or the score itself
-- where it is alone, reaches the bound of the margin. The scores it reports count all the evidence.
pub evaluate_answers :
    (ops : FloatOps) (artifact : GateArtifact) (used : ModelProvenance) (cs : List RerankedEvidence)
    → IsDescending (ranked cs)
    → (d : GateDecision) × (evaluate ops (init artifact used) cs ≡ ok d)
      × ((d.route ≡ answer) ↔ IsAdmitted ops artifact used (ranked cs))
      × (d.scores.evidence_count ≡ length cs)
evaluate_answers ops artifact used cs h =
    let (d, returned, by_scores, counted, scores) =
      evaluate_by_scores ops (init artifact used) cs h in
    let by_evidence = evidence_iff ops artifact used (ranked cs) in
    let admits = Admits (init artifact used) in
    (
      d,
      returned,
      (
        λ k. by_evidence.0 (subst admits scores (by_scores.0 k)),
        λ k. by_scores.1 (subst admits (sym scores) (by_evidence.1 k)),
      ),
      counted,
    )

-- A reason stands among the reasons of a decision.
abbrev pub States : GateReason → List GateReason → Type 0
States r = Any (λ x. x ≡ r)

-- A decision by the thresholds states exactly the checks that failed: where the bound for an exact
-- match is not reached, each of the three other reasons is stated exactly when its bound is missed,
-- and the gate answers exactly when none is.
pub judge_reasons :
    (t : GateThresholds) (s : GateScores)
    → ¬ IsAtLeast t.exact_score_min s.best_exact_score
    → (States insufficient_evidence (judge t s).1 ↔ (s.evidence_count < t.min_evidence))
      × (States top_score_below_threshold (judge t s).1 ↔ (¬ IsAtLeast t.top_score_min s.top_score))
      × (States score_margin_below_threshold (judge t s).1
          ↔ (¬ IsAtLeast t.score_margin_min s.score_margin))
      × (((judge t s).0 ≡ answer) ↔ ((judge t s).1 ≡ thresholds_passed ∷ []))
unfolding judge failures_of route_of_failures
judge_reasons t s h =
    let e = reaches_iff t.exact_score_min s.best_exact_score in
    let a = reaches_iff t.top_score_min s.top_score in
    let m = reaches_iff t.score_margin_min s.score_margin in
    (
      (ground (arith, e, a, m), ground (arith, e, a, m)),
      (ground (arith, e, a, m), ground (arith, e, a, m)),
      (ground (arith, e, a, m), ground (arith, e, a, m)),
      (ground (arith, e, a, m), ground (arith, e, a, m)),
    )
