-- ===== src/Rag/Reranker/Order.antt =====
-- How the reranker orders what it returns.
use etoeragcb.Base.{
  ℕ, zero, suc, ◌≤◌, Bool, true, ◌≡◌, refl, ap, sym, subst, ◌∙◌, Option, none, some, List, [], ◌∷◌,
  ◌++◌, map, arith, All, length, take, drop, length-take, length-append, occurrences,
  occurrences_all, numbers_from, length-drop,
}
use etoeragcb.Base.Result.{Result, ok, bind-eq-ok, ok_injective}
use etoeragcb.Base.Sort.{TotalOrder, IsSorted, sort_by, sort_by-IsSorted, occurrences-sort_by}
use etoeragcb.Rag.Records.{EvidenceCandidate, RerankedEvidence}
use etoeragcb.Rag.Candidates.Order.{stable_candidate_key, key_leb-TotalOrder, ranked_candidates}
use etoeragcb.Rag.Reranker.{
  Entry, RerankServiceError, score_batch, score, cached_or, pair_up, score_leb, number_ranks,
  order_by_score, rerank_bounded, rerank,
}
use etoeragcb.Rag.Reranker.Laws.{score_batch_faithful}

score_leb-TotalOrder : TotalOrder score_leb
unfolding score_leb
score_leb-TotalOrder = record {
  total = λ a b h.
      ground
        (arith, key_leb-TotalOrder.total (stable_candidate_key a.0) (stable_candidate_key b.0));
  trans = λ a b c h k. ground (
    arith,
    key_leb-TotalOrder.trans (stable_candidate_key a.0) (stable_candidate_key b.0)
        (stable_candidate_key c.0),
  );
}

-- Each score is at least the scores that follow.
abbrev pub HasFallingScores : List RerankedEvidence → Type 0
HasFallingScores [] = Unit
HasFallingScores (a ∷ rest) =
    All (λ b. b.rerank_score ≤ a.rerank_score) rest × HasFallingScores rest

All-number_ranks :
    (top rank : ℕ) (c : EvidenceCandidate) (ps : List (EvidenceCandidate × ℕ))
    → All (λ q. score_leb (c, top) q ≡ true) ps
    → All (λ b. b.rerank_score ≤ top) (number_ranks rank ps)
unfolding number_ranks score_leb
All-number_ranks top rank c [] h = tt
All-number_ranks top rank c ((c', s) ∷ ps) (this, rest) =
    (ground arith, All-number_ranks top (suc rank) c ps rest)

number_ranks-HasFallingScores :
    (rank : ℕ) (ps : List (EvidenceCandidate × ℕ))
    → IsSorted score_leb ps
    → HasFallingScores (number_ranks rank ps)
unfolding number_ranks
number_ranks-HasFallingScores rank [] h = tt
number_ranks-HasFallingScores rank ((c, s) ∷ ps) (this, rest) =
    (All-number_ranks s (suc rank) c ps this, number_ranks-HasFallingScores (suc rank) ps rest)

ranks-number_ranks :
    (rank : ℕ) (ps : List (EvidenceCandidate × ℕ))
    → map (λ r. r.rerank_rank) (number_ranks rank ps) ≡ numbers_from rank (length ps)
unfolding number_ranks
ranks-number_ranks rank [] = refl
ranks-number_ranks rank ((c, s) ∷ ps) = ap (λ ns. rank ∷ ns) (ranks-number_ranks (suc rank) ps)

occurrences-number_ranks :
    (p : EvidenceCandidate → ℕ → Bool) (rank : ℕ) (ps : List (EvidenceCandidate × ℕ))
    → occurrences (λ r. p r.candidate r.rerank_score) (number_ranks rank ps)
      ≡ occurrences (λ q. p q.0 q.1) ps
unfolding number_ranks
occurrences-number_ranks p rank [] = refl
occurrences-number_ranks p rank ((c, s) ∷ ps) =
    ground (arith, occurrences-number_ranks p (suc rank) ps)

length-sort_by : (ps : List (EvidenceCandidate × ℕ)) → length (sort_by score_leb ps) ≡ length ps
length-sort_by ps = omega (
  arith,
  occurrences_all (sort_by score_leb ps),
  occurrences_all ps,
  occurrences-sort_by score_leb (λ x. true) ps,
)

length-pair_up :
    (cs : List EvidenceCandidate) (scores : List ℕ)
    → length scores ≡ length cs
    → length (pair_up cs scores) ≡ length cs
unfolding pair_up
length-pair_up [] scores h = refl
length-pair_up (c ∷ cs) [] h = absurd (omega arith)
length-pair_up (c ∷ cs) (s ∷ scores) h = ap suc (length-pair_up cs scores (omega arith))

length-score_batch :
    (n : ℕ) (entries : Option (List Entry)) (scores : List ℕ)
    → score_batch n entries ≡ ok scores
    → length scores ≡ n
unfolding score_batch
length-score_batch n none scores h = cc
length-score_batch n (some entries) scores h = (score_batch_faithful n entries scores h).1

module _ (service : List EvidenceCandidate → Result RerankServiceError (Option (List Entry))) where
  length-score :
      (size fuel : ℕ) (cs : List EvidenceCandidate) (scores : List ℕ)
      → 1 ≤ size
      → length cs ≤ fuel
      → score service size fuel cs ≡ ok scores
      → length scores ≡ length cs
  unfolding score
  length-score size zero [] scores k l h = ap length (sym (ok_injective [] scores h))
  length-score size zero (c ∷ cs) scores k l h = absurd (omega arith)
  length-score size (suc fuel) [] scores k l h = ap length (sym (ok_injective [] scores h))
  length-score size (suc fuel) (c ∷ cs) scores k l h =
      let batch = take size (c ∷ cs) in
      let (entries, served, rest1) = bind-eq-ok (service batch) _ h in
      let (first, scored, rest2) = bind-eq-ok (score_batch (length batch) entries) _ rest1 in
      let (more, scored_more, last) =
        bind-eq-ok (score service size fuel (drop size (c ∷ cs))) _ rest2 in
      let same : first ++ more ≡ scores = ok_injective _ _ last in
      omega (
        arith,
        ap length same,
        length-append first more,
        length-score_batch (length batch) entries first scored,
        length-take size (c ∷ cs),
        length-drop size (c ∷ cs),
        length-score size fuel (drop size (c ∷ cs)) more k
            (omega (arith, length-drop size (c ∷ cs))) scored_more,
      )

occurrences-pair_up :
    (p : EvidenceCandidate → Bool) (cs : List EvidenceCandidate) (scores : List ℕ)
    → length scores ≡ length cs
    → occurrences (λ q. p q.0) (pair_up cs scores) ≡ occurrences p cs
unfolding pair_up
occurrences-pair_up p [] scores h = refl
occurrences-pair_up p (c ∷ cs) [] h = absurd (omega arith)
occurrences-pair_up p (c ∷ cs) (s ∷ scores) h =
    ground (arith, occurrences-pair_up p cs scores (omega arith))

length-cached_or :
    (n : ℕ) (o : Option (List ℕ)) (scored : Result RerankServiceError (List ℕ)) (scores : List ℕ)
    → ((kept : List ℕ) → o ≡ some kept → length kept ≡ n)
    → ((kept : List ℕ) → scored ≡ ok kept → length kept ≡ n)
    → cached_or o scored ≡ ok scores
    → length scores ≡ n
unfolding cached_or
length-cached_or n none scored scores cached fresh h = fresh scores h
length-cached_or n (some []) scored scores cached fresh h = fresh scores h
length-cached_or n (some (s ∷ kept)) scored scores cached fresh h =
    ap length (sym (ok_injective _ _ h)) ∙ cached (s ∷ kept) refl

-- What is said of the evidence `r` that is made of the candidates in `bounded`.
pub record IsOrderOf (bounded : List EvidenceCandidate) (r : List RerankedEvidence) : Type 0 where
  pub ranks : map (λ x. x.rerank_rank) r ≡ numbers_from 1 (length bounded)
  pub falling : HasFallingScores r
  pub same :
      (p : EvidenceCandidate → Bool) → occurrences (λ x. p x.candidate) r ≡ occurrences p bounded

order_by_score-IsOrderOf :
    (bounded : List EvidenceCandidate) (scores : List ℕ)
    → length scores ≡ length bounded
    → IsOrderOf bounded (order_by_score bounded scores)
unfolding order_by_score
order_by_score-IsOrderOf bounded scores h =
    let ps = sort_by score_leb (pair_up bounded scores) in
    record {
      ranks =
          ranks-number_ranks 1 ps
          ∙ ap (numbers_from 1)
              (length-sort_by (pair_up bounded scores) ∙ length-pair_up bounded scores h);
      falling =
          number_ranks-HasFallingScores 1 ps
            (sort_by-IsSorted score_leb score_leb-TotalOrder (pair_up bounded scores));
      same = λ p.
          occurrences-number_ranks (λ c s. p c) 1 ps
          ∙ occurrences-sort_by score_leb (λ q. p q.0) (pair_up bounded scores)
          ∙ occurrences-pair_up p bounded scores h;
    }

-- Where the reranker returns, with batches of one candidate at least and a cache that holds a score
-- for each candidate of a request, it returns the candidates of best retrieval rank, up to its
-- limit, each as often as it was given; they are ranked 1, 2 and so on, and no score is below a
-- later one.
pub rerank_orders :
    (service : List EvidenceCandidate → Result RerankServiceError (Option (List Entry)))
    (cache : List EvidenceCandidate → Option (List ℕ)) (batch_size max_candidates : ℕ)
    (cs : List EvidenceCandidate) (r : List RerankedEvidence)
    → 1 ≤ batch_size
    → ((bs : List EvidenceCandidate) (kept : List ℕ)
        → cache bs ≡ some kept
        → length kept ≡ length bs)
    → rerank service cache batch_size max_candidates cs ≡ ok r
    → IsOrderOf (take max_candidates (ranked_candidates cs)) r
unfolding rerank rerank_bounded
rerank_orders service cache batch_size max_candidates cs r k cached h =
    bounded_orders (take max_candidates (ranked_candidates cs)) h
  where
    bounded_orders :
        (bounded : List EvidenceCandidate)
        → rerank_bounded service cache batch_size bounded ≡ ok r
        → IsOrderOf bounded r
    bounded_orders [] e =
        subst (IsOrderOf []) (ok_injective [] r e)
          (record { ranks = refl; falling = tt; same = λ p. refl })
    bounded_orders (c ∷ bs) e =
        let scored = score service batch_size (length (c ∷ bs)) (c ∷ bs) in
        let (scores, given, last) = bind-eq-ok (cached_or (cache (c ∷ bs)) scored) _ e in
        subst (IsOrderOf (c ∷ bs)) (ok_injective _ r last) (
          order_by_score-IsOrderOf (c ∷ bs) scores (
            length-cached_or (length (c ∷ bs)) (cache (c ∷ bs)) scored scores (cached (c ∷ bs))
              (λ kept.
                length-score service batch_size (length (c ∷ bs)) (c ∷ bs) kept k (omega arith))
              given))
