-- ===== src/Rag/Confidence/Laws.antt =====
-- The theorems about the confidence filter.
use etoeragcb.Base.{ℕ, ◌≤◌, ◌<◌, ◌≡◌, ◌↔◌, refl, some, List, ◌∷◌, arith}
use etoeragcb.Base.Text.{Text}
use etoeragcb.Base.Float.{FloatOps, IsRounded}
use etoeragcb.Rag.Records.{RerankedEvidence, id_of}
use etoeragcb.Rag.Candidates.Order.{ranked}
use etoeragcb.Rag.Confidence.{
  below_score_min, CandidateConfidenceDecision, CandidateConfidenceFilter, top_score_of,
  effective_cutoff, sift, filter,
}

-- A decision to drop is justified: by the minimum, or by the distance from the best score.
abbrev pub IsJustified : ℕ → ℕ → CandidateConfidenceDecision → Type 0
IsJustified cutoff score_min d =
    (d.rerank_score < cutoff) × ((d.reason ≡ below_score_min) ↔ (d.rerank_score < score_min))

-- With rounding as IEEE 754 has it, and a best ranked candidate whose score reaches the minimum, that
-- candidate is retained and stands first; so the filter never empties such a pool. Where the score
-- of the best ranked candidate is below the minimum, that candidate is dropped for this reason.
pub filter_top :
    (ops : FloatOps) (f : CandidateConfidenceFilter) (cs : List RerankedEvidence)
    (top : RerankedEvidence) (rest : List RerankedEvidence)
    → IsRounded ops
    → ranked cs ≡ top ∷ rest
    → let r = filter ops f cs in
      (f.score_min ≤ top.rerank_score
        → (kept : List RerankedEvidence) × (r.candidates ≡ top ∷ kept))
      × (top.rerank_score < f.score_min
          → (d : CandidateConfidenceDecision) × (ds : List CandidateConfidenceDecision)
            × (r.decisions ≡ d ∷ ds)
            × (d.candidate_id ≡ id_of top)
            × (d.reason ≡ below_score_min))
unfolding filter sift top_score_of effective_cutoff
filter_top ops f cs top rest rounded e =
    let bound = rounded.sub_le top.rerank_score f.top_delta in
    let cutoff = effective_cutoff ops f (some top.rerank_score) in
    let rests = sift cutoff f.score_min rest in
    (
      λ h. (rests.0, rw e (ground arith)),
      λ h. (
        record {
          candidate_id = id_of top;
          rerank_rank = top.rerank_rank;
          rerank_score = top.rerank_score;
          reason = below_score_min;
        },
        rests.1,
        rw e (ground arith),
        refl,
        refl,
      ),
    )
