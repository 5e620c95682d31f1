-- ===== src/Rag/Dedup/Correct.antt =====
-- The theorems about `deduplicate`, at thresholds between zero and one. The loop's invariants are
-- those of Rag/Dedup/Laws.
use etoeragcb.Base.{
  ℕ, ◌+◌, ◌≤◌, Bool, true, ◌≡◌, inl, inr, List, [], ◌∷◌, map, arith, All, Any, occurrences,
  occurrences-map,
}
use etoeragcb.Base.Text.{Text, text_keys}
use etoeragcb.Base.Float.{FloatOps, one}
use etoeragcb.Base.Counter.{contains}
use etoeragcb.Base.Result.{ok}
use etoeragcb.Base.Sort.{
  IsSorted, by_key-TotalOrder, sort_by-IsSorted, Any-sort_by, occurrences-sort_by,
}
use etoeragcb.Rag.Records.{RerankedEvidence, id_of}
use etoeragcb.Rag.Candidates.Order.{stable_reranked_key, key_leb, key_leb-TotalOrder, ranked}
use etoeragcb.Rag.Dedup.{DeduplicationResult, collapse, nothing_kept, deduplicate}
use etoeragcb.Rag.Dedup.Absorb.{HasTerm}
use etoeragcb.Rag.Dedup.Laws.{
  AllApart, digests, keys, dropped_ids, InOrder, Carries, Accounts, collapse_inv, AllApart-settle,
  InOrder-settle, Carries-settle, Accounts-settle,
}

module _ (ops : FloatOps) (overlap near : ℕ) (cs : List RerankedEvidence) where
  result : DeduplicationResult
  result = collapse ops overlap near (ranked cs) nothing_kept

  deduplicate_returns : overlap ≤ one → near ≤ one → deduplicate ops overlap near cs ≡ ok result
  unfolding deduplicate result
  deduplicate_returns h k = ground arith

  occurrences-ranked :
      (p : Text → Bool) → occurrences p (map id_of (ranked cs)) ≡ occurrences p (map id_of cs)
  unfolding ranked
  occurrences-ranked p = ground (
    arith,
    occurrences-map id_of p (ranked cs),
    occurrences-map id_of p cs,
    occurrences-sort_by (λ a b. key_leb (stable_reranked_key a) (stable_reranked_key b))
        (λ x. p (id_of x)) cs,
  )

  -- At thresholds of at most one `deduplicate` returns. Each candidate is then kept or dropped, and
  -- only once: every identifier occurs among the kept and the dropped ones together as often as
  -- among the candidates given. Each decision names a kept candidate as the one that is kept.
  pub deduplicate_partition :
      overlap ≤ one
      → near ≤ one
      → (r : DeduplicationResult) × (deduplicate ops overlap near cs ≡ ok r)
        × ((p : Text → Bool)
            → occurrences p (map id_of r.candidates) + occurrences p (dropped_ids r.decisions)
              ≡ occurrences p (map id_of cs))
        × All (λ d. contains d.kept_candidate_id (map id_of r.candidates) ≡ true) r.decisions
  unfolding result
  deduplicate_partition h k = (
    result,
    deduplicate_returns h k,
    λ p. omega (arith, (accounts p).0, occurrences-ranked p),
    (accounts (λ i. true)).1,
  )
    where
      accounts :
          (p : Text → Bool)
          → (occurrences p (map id_of result.candidates)
                + occurrences p (dropped_ids result.decisions)
                + 0
              ≡ occurrences p (map id_of (ranked cs)))
            × All
                (λ d. contains d.kept_candidate_id (map id_of result.candidates) ≡ true)
                result.decisions
      accounts p =
          collapse_inv ops overlap near
            (Accounts ops overlap near p (occurrences p (map id_of (ranked cs))))
            (λ r c rest.
              Accounts-settle ops overlap near p (occurrences p (map id_of (ranked cs))) r c rest)
            (ranked cs) nothing_kept (omega arith, tt)

  -- At thresholds of at most one `deduplicate` returns, and no exact term is lost: a term that any
  -- of the candidates given matched is matched by a kept candidate.
  pub deduplicate_keeps_terms :
      overlap ≤ one
      → near ≤ one
      → (r : DeduplicationResult) × (deduplicate ops overlap near cs ≡ ok r)
        × ((t : Text) → Any (HasTerm t) cs → Any (HasTerm t) r.candidates)
  unfolding result ranked
  deduplicate_keeps_terms h k = (
    result,
    deduplicate_returns h k,
    λ t a.
        elim (collapse_inv ops overlap near (Carries ops overlap near t)
          (Carries-settle ops overlap near t) (ranked cs) nothing_kept
          (inr (Any-sort_by _ (HasTerm t) cs a))) [ inl found ↦ found | inr h ↦ elim h [ ] ],
  )

  -- At thresholds of at most one `deduplicate` returns. Any two kept candidates differ in the digest
  -- of their text and in the digest of its search form, and the kept candidates stand in the order of
  -- rank and identifier.
  pub deduplicate_distinct :
      overlap ≤ one
      → near ≤ one
      → (r : DeduplicationResult) × (deduplicate ops overlap near cs ≡ ok r)
        × AllApart (digests r.candidates)
        × IsSorted key_leb (keys r.candidates)
  unfolding result ranked
  deduplicate_distinct h k = (
    result,
    deduplicate_returns h k,
    collapse_inv ops overlap near (λ r rest. AllApart (digests r.candidates))
        (λ r c rest a. AllApart-settle ops overlap near r c a) (ranked cs) nothing_kept tt,
    (collapse_inv ops overlap near (InOrder ops overlap near) (InOrder-settle ops overlap near)
        (ranked cs) nothing_kept
        (
          tt,
          none_below (ranked cs),
          sort_by-IsSorted _ (by_key-TotalOrder stable_reranked_key key_leb key_leb-TotalOrder) cs,
        )).0,
  )
    where
      none_below : (xs : List RerankedEvidence) → All (λ c. Unit {0}) xs
      none_below [] = tt
      none_below (x ∷ xs) = (tt, none_below xs)
