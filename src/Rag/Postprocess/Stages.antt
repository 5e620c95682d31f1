-- ===== src/Rag/Postprocess/Stages.antt =====
-- Every stage after the reranker hands on evidence with the rank and the score that the reranker gave.
use etoeragcb.Base.{
  ℕ, ◌≡◌, refl, ap, subst, Option, none, some, List, [], ◌∷◌, ltb, leb, Bool-cases, Option-cases,
  inl, inr, All, All-append, Any,
}
use mathlib.Core.Option.{some-injective}
use etoeragcb.Base.Float.{FloatOps, one}
use etoeragcb.Base.Sort.{by_key, All-sort_by}
use etoeragcb.Base.Result.{ok, ok_injective}
use etoeragcb.Rag.Records.{RerankedEvidence}
use etoeragcb.Rag.Candidates.Order.{ranked, stable_reranked_key, key_leb}
use etoeragcb.Rag.Dedup.{
  DeduplicationResult, DuplicateDecision, duplicate_reason, merge_exact_provenance, absorb, settle,
  collapse, nothing_kept, deduplicate,
}
use etoeragcb.Rag.Confidence.{CandidateConfidenceFilter, sift, filter}

-- An item with the rank and the score of one in the list.
abbrev pub IsScored : List RerankedEvidence → RerankedEvidence → Type 0
IsScored r item =
    Any (λ x. (x.rerank_rank ≡ item.rerank_rank) × (x.rerank_score ≡ item.rerank_score)) r

pub All-ranked :
    (P : RerankedEvidence → Type 0) (cs : List RerankedEvidence) → All P cs → All P (ranked cs)
unfolding ranked
All-ranked P cs h = All-sort_by (by_key stable_reranked_key key_leb) P cs h

module _ (r : List RerankedEvidence) where
  IsScored-merge : (a b : RerankedEvidence) → IsScored r a → IsScored r (merge_exact_provenance a b)
  unfolding merge_exact_provenance
  IsScored-merge a b h = h

  All-absorb :
      (ops : FloatOps) (overlap near : ℕ) (kept : List RerankedEvidence)
      (current : RerankedEvidence) (kept' : List RerankedEvidence) (d : DuplicateDecision)
      → All (IsScored r) kept
      → absorb ops overlap near kept current ≡ some (kept', d)
      → All (IsScored r) kept'
  unfolding absorb
  All-absorb ops overlap near [] current kept' d h e = cc
  All-absorb ops overlap near (x ∷ kept) current kept' d (first, more) e =
      elim (Option-cases (duplicate_reason ops overlap near x current)) [
        | inr (q, found) ↦
            let same = ap (λ p. p.0) (some-injective _ (kept', d) (rw (found, absorb) at e)) in
            subst (All (IsScored r)) same (IsScored-merge x current first, more)
        | inl other ↦ elim (Option-cases (absorb ops overlap near kept current)) [
          | inl nothing ↦ cc (rw (other, nothing, absorb) at e)
          | inr (q, found) ↦
              let same =
                ap (λ p. p.0) (some-injective _ (kept', d) (rw (other, found, absorb) at e)) in
              subst (All (IsScored r)) same
                (first, All-absorb ops overlap near kept current q.0 q.1 more found)
        ]
      ]

  All-settle :
      (ops : FloatOps) (overlap near : ℕ) (s : DeduplicationResult) (current : RerankedEvidence)
      (o : Option (List RerankedEvidence × DuplicateDecision))
      → absorb ops overlap near s.candidates current ≡ o
      → All (IsScored r) s.candidates
      → IsScored r current
      → All (IsScored r) (settle s current o).candidates
  unfolding settle
  All-settle ops overlap near s current none e h c =
      All-append (IsScored r) s.candidates (current ∷ []) h (c, tt)
  All-settle ops overlap near s current (some (kept, d)) e h c =
      All-absorb ops overlap near s.candidates current kept d h e

  All-collapse :
      (ops : FloatOps) (overlap near : ℕ) (cs : List RerankedEvidence) (s : DeduplicationResult)
      → All (IsScored r) cs
      → All (IsScored r) s.candidates
      → All (IsScored r) (collapse ops overlap near cs s).candidates
  unfolding collapse
  All-collapse ops overlap near [] s h k = k
  All-collapse ops overlap near (c ∷ cs) s (first, more) k =
      All-collapse ops overlap near cs (settle s c (absorb ops overlap near s.candidates c)) more
        (All-settle ops overlap near s c _ refl k first)

  All-sift :
      (cutoff score_min : ℕ) (cs : List RerankedEvidence)
      → All (IsScored r) cs
      → All (IsScored r) (sift cutoff score_min cs).0
  unfolding sift
  All-sift cutoff score_min [] h = tt
  All-sift cutoff score_min (c ∷ cs) (first, more) = elim (Bool-cases (leb cutoff c.rerank_score)) [
    | inl e ↦ rw e (first, All-sift cutoff score_min cs more)
    | inr e ↦ rw e (All-sift cutoff score_min cs more)
  ]

  pub All-filter :
      (ops : FloatOps) (f : CandidateConfidenceFilter) (cs : List RerankedEvidence)
      → All (IsScored r) cs
      → All (IsScored r) (filter ops f cs).candidates
  unfolding filter
  All-filter ops f cs h = All-sift _ f.score_min (ranked cs) (All-ranked (IsScored r) cs h)

  pub All-deduplicate :
      (ops : FloatOps) (overlap near : ℕ) (cs : List RerankedEvidence) (d : DeduplicationResult)
      → All (IsScored r) cs
      → deduplicate ops overlap near cs ≡ ok d
      → All (IsScored r) d.candidates
  unfolding deduplicate
  All-deduplicate ops overlap near cs d h e = elim (Bool-cases (ltb one overlap)) [
    | inl high ↦ cc (rw high at e)
    | inr fits ↦ elim (Bool-cases (ltb one near)) [
      | inl high ↦ cc (rw (fits, high) at e)
      | inr good ↦
          let same = ap (λ x. x.candidates) (ok_injective _ d (rw (fits, good) at e)) in
          subst (All (IsScored r)) same (
            All-collapse ops overlap near (ranked cs) nothing_kept (All-ranked (IsScored r) cs h)
              tt)
    ]
  ]
