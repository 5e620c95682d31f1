-- ===== src/Rag/Reranker/Tests.antt =====
-- Tests of the reranker, and its theorems at a concrete input.
use etoeragcb.Base.{
  ℕ, ◌≡◌, refl, none, some, Option, List, [], ◌∷◌, length, take, arith, All, false, true,
}
use etoeragcb.Base.Text.{text_leb}
use etoeragcb.Base.Float.{one}
use etoeragcb.Base.Result.{Result, ok, raise}
use etoeragcb.Base.Sort.{insert_by, sort_by}
use etoeragcb.Rag.Records.{EvidenceCandidate, RerankedEvidence}
use etoeragcb.Rag.Samples.{first, copy, other}
use etoeragcb.Rag.Candidates.Order.{stable_candidate_key, key_leb, ranked_candidates}
use etoeragcb.Rag.Reranker.{
  Entry, entry, integer, finite, index_value, unit_between, unit_of, place_at, RerankServiceError,
  invalid_index_or_score, score_outside, is_free, fill, place, place_all, empty_slots, all_scores,
  score_batch, score, cached_or, pair_up, score_leb, number_ranks, order_by_score, rerank_bounded,
  rerank,
}
use etoeragcb.Rag.Reranker.Laws.{IsScoreOf, score_batch_faithful}
use etoeragcb.Rag.Reranker.Order.{IsOrderOf, rerank_orders}

program : Unit {0}
unfolding text_leb insert_by sort_by stable_candidate_key key_leb ranked_candidates is_free fill
    index_value unit_between unit_of place_at one place place_all empty_slots all_scores score_batch
    score cached_or pair_up score_leb number_ranks order_by_score rerank_bounded rerank
program = tt

abbrev received : List Entry
received =
    entry (integer false 1) (finite false 80) ∷ entry (integer false 0) (finite false 20) ∷ []

abbrev pair_scores : List ℕ
pair_scores = 20 ∷ 80 ∷ []

-- A service that scores any two candidates so, and a third one in a batch of its own.
abbrev service : List EvidenceCandidate → Result RerankServiceError (Option (List Entry))
service (a ∷ b ∷ cs) = ok (some received)
service cs = ok (some (entry (integer false 0) (finite false 50) ∷ []))

abbrev no_cache : List EvidenceCandidate → Option (List ℕ)
no_cache cs = none

abbrev candidates : List EvidenceCandidate
candidates = other.candidate ∷ copy.candidate ∷ first.candidate ∷ []

abbrev scored_all : List RerankedEvidence
scored_all =
    record { candidate = copy.candidate; rerank_score = 80; rerank_rank = 1 }
    ∷ record { candidate = other.candidate; rerank_score = 50; rerank_rank = 2 }
    ∷ record { candidate = first.candidate; rerank_score = 20; rerank_rank = 3 }
    ∷ []

twice :
    score_batch 2 (
      some
        (entry (integer false 0) (finite false 1) ∷ entry (integer false 0) (finite false 2) ∷ []))
    ≡ raise invalid_index_or_score
unfolding program
twice = refl

above_one :
    score_batch 1 (some (entry (integer false 0) (integer false 2) ∷ [])) ≡ raise score_outside
unfolding program
above_one = refl

below_zero :
    score_batch 1 (some (entry (integer false 0) (finite true 1) ∷ [])) ≡ raise score_outside
unfolding program
below_zero = refl

score_batch_faithful_example :
    (length received ≡ 2) × (length pair_scores ≡ 2) × All (IsScoreOf pair_scores) received
unfolding program
score_batch_faithful_example = score_batch_faithful 2 received pair_scores refl

rerank_orders_example : IsOrderOf (take 5 (ranked_candidates candidates)) scored_all
unfolding program
rerank_orders_example =
    rerank_orders service no_cache 2 5 candidates scored_all (omega arith) (λ bs kept e. cc) refl
