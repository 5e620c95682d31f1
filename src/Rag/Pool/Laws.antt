-- ===== src/Rag/Pool/Laws.antt =====
-- What the merged pool holds: a fair share of both kinds of evidence, ranked from one.
use etoeragcb.Base.{
  true, false, occurrences_all, if◌then◌else◌, ℕ, zero, suc, ◌+◌, ◌≤◌, min, Bool, ◌≡◌, refl, ap,
  sym, ◌∙◌, ◌⊎◌, inl, inr, List, [], ◌∷◌, map, arith, length, take, length-take, occurrences,
  numbers_from, take_all,
}
use etoeragcb.Base.Text.{Text}
use etoeragcb.Rag.Records.{EvidenceCandidate}
use etoeragcb.Rag.Candidates.Order.{ranked_candidates}
use etoeragcb.Rag.Pool.{weave, with_pool_rank, rank_from, merge_candidate_pool}

-- `a` documents and `b` web pages share a limit fairly: the documents are ahead by at most one, and
-- one kind falls behind only when it is used up.
pub record IsFair (limit documents web a b : ℕ) : Type 0 where
  pub some_documents : a ≤ documents
  pub some_web : b ≤ web
  pub total : a + b ≡ min limit (documents + web)
  pub ahead : (a ≤ suc b) ⊎ (b ≡ web)
  pub behind : (b ≤ a) ⊎ (a ≡ documents)

none_taken : (n d w : ℕ) → min n (d + w) ≡ 0 → IsFair n d w 0 0
none_taken n d w h = record {
  some_documents = omega arith;
  some_web = omega arith;
  total = sym h;
  ahead = inl (omega arith);
  behind = inl (omega arith);
}

take_none : {A : Type 0} (n : ℕ) → take {A = A} n [] ≡ []
take_none zero = refl
take_none (suc n) = refl

count_two :
    (x y : Bool) (n a b : ℕ)
    → n ≡ a + b
    → (if x then suc (if y then suc n else n) else (if y then suc n else n))
      ≡ (if x then suc a else a) + (if y then suc b else b)
count_two true true n a b h = omega arith
count_two true false n a b h = omega arith
count_two false true n a b h = omega arith
count_two false false n a b h = omega arith

module _ {A : Type 0} where
  -- A document, then a web page, and so on; the rest of one kind once the other is used up.
  unfoldable pub interleave : List A → List A → List A
  interleave [] ws = ws
  interleave (d ∷ ds) [] = d ∷ ds
  interleave (d ∷ ds) (w ∷ ws) = d ∷ w ∷ interleave ds ws

  weave-interleave : (n : ℕ) (ds ws : List A) → weave n ds ws ≡ take n (interleave ds ws)
  unfolding weave interleave
  weave-interleave zero ds ws = refl
  weave-interleave (suc n) [] [] = refl
  weave-interleave (suc n) [] (w ∷ ws) = ap (λ xs. w ∷ xs) (weave-interleave n [] ws)
  weave-interleave (suc zero) (d ∷ ds) [] = refl
  weave-interleave (suc (suc n)) (d ∷ []) [] = refl
  weave-interleave (suc (suc n)) (d ∷ e ∷ ds) [] =
      ap (λ xs. d ∷ xs) (weave-interleave (suc n) (e ∷ ds) [])
  weave-interleave (suc zero) (d ∷ ds) (w ∷ ws) = refl
  weave-interleave (suc (suc n)) (d ∷ ds) (w ∷ ws) =
      ap (λ xs. d ∷ w ∷ xs) (weave-interleave n ds ws)

  -- How many documents, and how many web pages, the loop takes.
  taken : ℕ → List A → List A → ℕ × ℕ
  taken zero ds ws = (0, 0)
  taken (suc n) [] [] = (0, 0)
  taken (suc n) [] (w ∷ ws) = let (a, b) = taken n [] ws in (a, suc b)
  taken (suc n) (d ∷ ds) [] = let (a, b) = taken n ds [] in (suc a, b)
  taken (suc zero) (d ∷ ds) (w ∷ ws) = (1, 0)
  taken (suc (suc n)) (d ∷ ds) (w ∷ ws) = let (a, b) = taken n ds ws in (suc a, suc b)

  taken-IsFair :
      (n : ℕ) (ds ws : List A)
      → IsFair n (length ds) (length ws) (taken n ds ws).0 (taken n ds ws).1
  unfolding taken
  taken-IsFair zero ds ws = none_taken zero (length ds) (length ws) (omega arith)
  taken-IsFair (suc n) [] [] = none_taken (suc n) 0 0 (omega arith)
  taken-IsFair (suc n) [] (w ∷ ws) =
      let ih = taken-IsFair n [] ws in
      record {
        some_documents = ih.some_documents;
        some_web = omega (arith, ih.some_web);
        total = omega (arith, ih.total);
        ahead = inl (omega (arith, ih.some_documents));
        behind = inr (omega (arith, ih.some_documents));
      }
  taken-IsFair (suc n) (d ∷ ds) [] =
      let ih = taken-IsFair n ds [] in
      record {
        some_documents = omega (arith, ih.some_documents);
        some_web = ih.some_web;
        total = omega (arith, ih.total);
        ahead = inr (omega (arith, ih.some_web));
        behind = inl (omega (arith, ih.some_web));
      }
  taken-IsFair (suc zero) (d ∷ ds) (w ∷ ws) = record {
    some_documents = omega arith;
    some_web = omega arith;
    total = omega arith;
    ahead = inl (omega arith);
    behind = inl (omega arith);
  }
  taken-IsFair (suc (suc n)) (d ∷ ds) (w ∷ ws) =
      let ih = taken-IsFair n ds ws in
      record {
        some_documents = omega (arith, ih.some_documents);
        some_web = omega (arith, ih.some_web);
        total = omega (arith, ih.total);
        ahead = elim ih.ahead [ inl h ↦ inl (omega arith) | inr h ↦ inr (omega arith) ];
        behind = elim ih.behind [ inl h ↦ inl (omega arith) | inr h ↦ inr (omega arith) ];
      }

  weave-taken :
      (p : A → Bool) (n : ℕ) (ds ws : List A)
      → occurrences p (weave n ds ws)
        ≡ occurrences p (take (taken n ds ws).0 ds) + occurrences p (take (taken n ds ws).1 ws)
  unfolding taken weave
  weave-taken p zero ds ws = omega arith
  weave-taken p (suc n) [] [] = omega arith
  weave-taken p (suc n) [] (w ∷ ws) =
      rw (take_none (taken n [] ws).0)
        (ground (arith, weave-taken p n [] ws, take_none {A = A} (taken n [] ws).0))
  weave-taken p (suc n) (d ∷ ds) [] =
      ground (arith, weave-taken p n ds [], take_none {A = A} (taken n ds []).1)
  weave-taken p (suc zero) (d ∷ ds) (w ∷ ws) = omega arith
  weave-taken p (suc (suc n)) (d ∷ ds) (w ∷ ws) =
      count_two (p d) (p w) _ _ _ (weave-taken p n ds ws)

  length-weave :
      (n : ℕ) (ds ws : List A) → length (weave n ds ws) ≡ (taken n ds ws).0 + (taken n ds ws).1
  length-weave n ds ws =
      let fair = taken-IsFair n ds ws in
      omega (
        arith,
        weave-taken (λ x. true) n ds ws,
        occurrences_all (weave n ds ws),
        occurrences_all (take (taken n ds ws).0 ds),
        occurrences_all (take (taken n ds ws).1 ws),
        length-take (taken n ds ws).0 ds,
        length-take (taken n ds ws).1 ws,
        fair.some_documents,
        fair.some_web,
      )

ranks-rank_from :
    (r : ℕ) (cs : List EvidenceCandidate)
    → map (λ c. c.retrieval_rank) (rank_from r cs) ≡ numbers_from r (length cs)
unfolding rank_from with_pool_rank
ranks-rank_from r [] = refl
ranks-rank_from r (c ∷ cs) = ap (λ ns. r ∷ ns) (ranks-rank_from (suc r) cs)

ids-rank_from :
    (r : ℕ) (cs : List EvidenceCandidate)
    → map (λ c. c.candidate_id) (rank_from r cs) ≡ map (λ c. c.candidate_id) cs
unfolding rank_from with_pool_rank
ids-rank_from r [] = refl
ids-rank_from r (c ∷ cs) = ap (λ ids. c.candidate_id ∷ ids) (ids-rank_from (suc r) cs)

length-rank_from : (r : ℕ) (cs : List EvidenceCandidate) → length (rank_from r cs) ≡ length cs
unfolding rank_from
length-rank_from r [] = refl
length-rank_from r (c ∷ cs) = ap suc (length-rank_from (suc r) cs)

occurrences-rank_from :
    (p : Text → Bool) (r : ℕ) (cs : List EvidenceCandidate)
    → occurrences (λ c. p c.candidate_id) (rank_from r cs) ≡ occurrences (λ c. p c.candidate_id) cs
unfolding rank_from with_pool_rank
occurrences-rank_from p r [] = refl
occurrences-rank_from p r (c ∷ cs) = ground (arith, occurrences-rank_from p (suc r) cs)

-- The pool is the first so many of the ranked documents and the ranked web pages taken in turn, a
-- document first, the rest of one kind once the other is used up. As many are taken as the limit or
-- both kinds allow, the documents ahead by at most one, and one kind behind only when it is used up.
-- The pool is ranked 1, 2 and so on.
pub merge_takes_turns :
    (documents web : List EvidenceCandidate) (limit : ℕ)
    → let pool = merge_candidate_pool documents web limit in
      (a : ℕ) × (b : ℕ) × IsFair limit
        (length (ranked_candidates documents))
        (length (ranked_candidates web))
        a
        b
      × (length pool ≡ a + b)
      × (map (λ c. c.retrieval_rank) pool ≡ numbers_from 1 (a + b))
      × (map (λ c. c.candidate_id) pool
          ≡ map
              (λ c. c.candidate_id)
              (take limit (interleave (ranked_candidates documents) (ranked_candidates web))))
      × ((p : Text → Bool)
          → occurrences (λ c. p c.candidate_id) pool
            ≡ occurrences (λ c. p c.candidate_id) (take a (ranked_candidates documents))
              + occurrences (λ c. p c.candidate_id) (take b (ranked_candidates web)))
unfolding merge_candidate_pool
merge_takes_turns documents web limit =
    let ds = ranked_candidates documents in
    let ws = ranked_candidates web in
    let merged = weave limit ds ws in
    let count = length-weave limit ds ws in
    let fair = taken-IsFair limit ds ws in
    let whole : take limit merged ≡ merged =
      take_all limit merged (omega (arith, count, fair.total)) in
    (
      (taken limit ds ws).0,
      (taken limit ds ws).1,
      fair,
      rw whole (length-rank_from 1 merged ∙ count),
      rw whole (ranks-rank_from 1 merged ∙ ap (numbers_from 1) count),
      rw whole
          (ids-rank_from 1 merged ∙ ap (map (λ c. c.candidate_id)) (weave-interleave limit ds ws)),
      λ p.
          rw whole
            (occurrences-rank_from p 1 merged ∙ weave-taken (λ c. p c.candidate_id) limit ds ws),
    )
