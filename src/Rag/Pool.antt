-- ===== src/Rag/Pool.antt =====
-- `merge_candidate_pool` of backend/app/rag/combined.py: document and web evidence, each in its own
-- order, are taken in turn up to a limit, and ranked anew.
pub mod Laws
mod Tests
use etoeragcb.Base.{ℕ, zero, suc, List, [], ◌∷◌, take}
use etoeragcb.Base.Text.{codes, text_keys}
use etoeragcb.Base.Dict.{set}
use etoeragcb.Rag.Records.{EvidenceCandidate, whole}
use etoeragcb.Rag.Candidates.Order.{ranked_candidates}

-- The loop: a document, then a web page, as long as there is room.
unfoldable pub weave {ℓ} : {A : Type ℓ} → ℕ → List A → List A → List A
weave zero ds ws = []
weave (suc n) [] [] = []
weave (suc n) [] (w ∷ ws) = w ∷ weave n [] ws
weave (suc n) (d ∷ ds) [] = d ∷ weave n ds []
weave (suc zero) (d ∷ ds) (w ∷ ws) = d ∷ []
weave (suc (suc n)) (d ∷ ds) (w ∷ ws) = d ∷ w ∷ weave n ds ws

-- `candidate.model_copy(update=...)`.
unfoldable pub with_pool_rank : ℕ → EvidenceCandidate → EvidenceCandidate
with_pool_rank rank c = record c {
  retrieval_rank = rank;
  provenance =
      set (codes "combined_pool_rank") (whole rank)
        (set (codes "branch_retrieval_rank") (whole c.retrieval_rank) c.provenance);
}

-- `enumerate(merged[:limit], start=1)`.
unfoldable pub rank_from : ℕ → List EvidenceCandidate → List EvidenceCandidate
unfolding with_pool_rank
rank_from rank [] = []
rank_from rank (c ∷ cs) = with_pool_rank rank c ∷ rank_from (suc rank) cs

unfoldable pub merge_candidate_pool :
    List EvidenceCandidate → List EvidenceCandidate → ℕ → List EvidenceCandidate
unfolding weave rank_from
merge_candidate_pool documents web limit =
    rank_from 1 (take limit (weave limit (ranked_candidates documents) (ranked_candidates web)))
