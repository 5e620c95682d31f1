-- ===== src/Rag/Confidence/Tests.antt =====
-- Tests of the confidence filter, and its theorems at a concrete input.
use etoeragcb.Base.{◌-◌, ◌≤◌, ◌<◌, ◌≡◌, refl, List, [], ◌∷◌, map, arith}
use etoeragcb.Base.Text.{Text, codes, text_leb}
use etoeragcb.Base.Float.{IsRounded, FloatOps}
use etoeragcb.Base.Sort.{sort_by}
use etoeragcb.Rag.Records.{RerankedEvidence, id_of}
use etoeragcb.Rag.Samples.{first, copy, other, shuffled}
use etoeragcb.Rag.Candidates.Order.{stable_reranked_key, key_leb, ranked}
use etoeragcb.Rag.Confidence.{
  CandidateConfidenceFilter, CandidateConfidenceDecision, below_score_min, top_score_of,
  effective_cutoff, sift, filter,
}
use etoeragcb.Rag.Confidence.Laws.{filter_top}

-- Whole quotients, and differences that are exact: a rounding that meets the guarantees.
abbrev whole_ops : FloatOps
whole_ops = record { sub = λ a b. a - b; div = λ i j. 0 }

whole_ops-IsRounded : IsRounded whole_ops
whole_ops-IsRounded = record { sub_le = λ a b. omega arith; div_le_one = λ i j h. omega arith }

abbrev limits : CandidateConfidenceFilter
limits = record { score_min = 600; top_delta = 250 }

program : Unit {0}
unfolding text_leb sort_by stable_reranked_key key_leb ranked top_score_of effective_cutoff sift
    filter
program = tt

retained : map id_of (filter whole_ops limits shuffled).candidates ≡ codes "a" ∷ codes "b" ∷ []
unfolding program
retained = refl

filter_top_example :
    let r = filter whole_ops limits shuffled in
    (limits.score_min ≤ first.rerank_score
      → (kept : List RerankedEvidence) × (r.candidates ≡ first ∷ kept))
    × (first.rerank_score < limits.score_min
        → (d : CandidateConfidenceDecision) × (ds : List CandidateConfidenceDecision) × (r.decisions
            ≡ d ∷ ds)
          × (d.candidate_id ≡ id_of first)
          × (d.reason ≡ below_score_min))
unfolding program
filter_top_example =
    filter_top whole_ops limits shuffled first (copy ∷ other ∷ []) whole_ops-IsRounded refl
