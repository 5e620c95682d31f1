-- ===== src/Rag/Pool/Tests.antt =====
-- The theorem on the merged pool at a concrete input.
use etoeragcb.Base.{ℕ, ◌+◌, Bool, ◌≡◌, List, [], ◌∷◌, map, length, take, occurrences, numbers_from}
use etoeragcb.Base.Text.{Text}
use etoeragcb.Rag.Records.{EvidenceCandidate}
use etoeragcb.Rag.Samples.{first, copy, other}
use etoeragcb.Rag.Candidates.Order.{ranked_candidates}
use etoeragcb.Rag.Pool.{merge_candidate_pool}
use etoeragcb.Rag.Pool.Laws.{IsFair, interleave, merge_takes_turns}

abbrev documents : List EvidenceCandidate
documents = other.candidate ∷ first.candidate ∷ []

abbrev pages : List EvidenceCandidate
pages = copy.candidate ∷ []

merge_takes_turns_example :
    let pool = merge_candidate_pool documents pages 2 in
    (a : ℕ) × (b : ℕ) × IsFair 2
      (length (ranked_candidates documents))
      (length (ranked_candidates pages))
      a
      b
    × (length pool ≡ a + b)
    × (map (λ c. c.retrieval_rank) pool ≡ numbers_from 1 (a + b))
    × (map (λ c. c.candidate_id) pool
        ≡ map
            (λ c. c.candidate_id)
            (take 2 (interleave (ranked_candidates documents) (ranked_candidates pages))))
    × ((p : Text → Bool)
        → occurrences (λ c. p c.candidate_id) pool
          ≡ occurrences (λ c. p c.candidate_id) (take a (ranked_candidates documents))
            + occurrences (λ c. p c.candidate_id) (take b (ranked_candidates pages)))
merge_takes_turns_example = merge_takes_turns documents pages 2
