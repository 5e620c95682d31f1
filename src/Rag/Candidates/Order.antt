-- ===== src/Rag/Candidates/Order.antt =====
-- `stable_candidate_key` and `stable_reranked_key`, the tuples (rank, id) by which
-- backend/app/rag sorts evidence, with Python's order of tuples.
use etoeragcb.Base.{
  ℕ, Bool, ◌&&◌, ◌||◌, List, ltb, nat_eq, arith, occurrences, length, occurrences_all, true, ◌≡◌,
}
use etoeragcb.Base.Text.{Text, text_leb, text_leb-TotalOrder}
use etoeragcb.Base.Sort.{TotalOrder, by_key, sort_by, occurrences-sort_by}
use etoeragcb.Rag.Records.{EvidenceCandidate, RerankedEvidence, id_of}

unfoldable pub stable_candidate_key : EvidenceCandidate → ℕ × Text
stable_candidate_key c = (c.retrieval_rank, c.candidate_id)

unfoldable pub stable_reranked_key : RerankedEvidence → ℕ × Text
stable_reranked_key item = (item.rerank_rank, id_of item)

-- `(rank, id) <= (rank', id')`.
unfoldable pub key_leb : ℕ × Text → ℕ × Text → Bool
key_leb (r, i) (r', i') = ltb r r' || (nat_eq r r' && text_leb i i')

pub key_leb-TotalOrder : TotalOrder key_leb
unfolding key_leb
key_leb-TotalOrder = record {
  total = λ a b h. ground (arith, text_leb-TotalOrder.total a.1 b.1);
  trans = λ a b c h k. ground (arith, text_leb-TotalOrder.trans a.1 b.1 c.1);
}

-- `sorted(candidates, key=stable_reranked_key)`.
unfoldable pub ranked : List RerankedEvidence → List RerankedEvidence
ranked = sort_by (by_key stable_reranked_key key_leb)

-- `sorted(candidates, key=stable_candidate_key)`.
unfoldable pub ranked_candidates : List EvidenceCandidate → List EvidenceCandidate
ranked_candidates = sort_by (by_key stable_candidate_key key_leb)

pub occurrences-ranked :
    (p : RerankedEvidence → Bool) (items : List RerankedEvidence)
    → occurrences p (ranked items) ≡ occurrences p items
unfolding ranked
occurrences-ranked p items =
    occurrences-sort_by (λ a b. key_leb (stable_reranked_key a) (stable_reranked_key b)) p items

pub length-ranked : (items : List RerankedEvidence) → length (ranked items) ≡ length items
length-ranked items = omega (
  arith,
  occurrences_all (ranked items),
  occurrences_all items,
  occurrences-ranked (λ item. true) items,
)
