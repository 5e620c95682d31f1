-- ===== src/Rag/Dedup/Absorb.antt =====
-- One round of the loop of `deduplicate`: what `absorb` changes, and what it leaves alone.
use etoeragcb.Base.{
  ℕ, true, ◌≡◌, ◌≢◌, ◌⊎◌, inl, inr, refl, ap, Option, none, some, List, [], ◌∷◌, ◌++◌, map, arith,
  Option-cases, All, Any,
}
use etoeragcb.Base.Text.{Text, text_keys, text_eq_iff}
use etoeragcb.Base.Float.{FloatOps}
use etoeragcb.Base.Counter.{contains, contains-append, contains-add_all}
use etoeragcb.Rag.Records.{RerankedEvidence, id_of}
use etoeragcb.Rag.Candidates.Order.{stable_reranked_key}
use etoeragcb.Rag.Dedup.{DuplicateDecision, duplicate_reason, merge_exact_provenance, absorb}

-- What a merge leaves alone: the key by which evidence is sorted, and the two digests.
abbrev pub fingerprint : RerankedEvidence → (ℕ × Text) × (Text × Text)
fingerprint e = (stable_reranked_key e, (e.candidate.content_sha256, e.candidate.lexical_sha256))

-- The evidence carries an exact term.
abbrev pub HasTerm : Text → RerankedEvidence → Type 0
HasTerm t e = contains t e.candidate.matched_exact_terms ≡ true

abbrev pub AreApart : Text × Text → Text × Text → Type 0
AreApart (content, lexical) (content', lexical') = (content ≢ content') × (lexical ≢ lexical')

fingerprint-merge :
    (e c : RerankedEvidence) → fingerprint (merge_exact_provenance e c) ≡ fingerprint e
unfolding merge_exact_provenance stable_reranked_key
fingerprint-merge e c = refl

id_of-merge : (e c : RerankedEvidence) → id_of (merge_exact_provenance e c) ≡ id_of e
unfolding merge_exact_provenance
id_of-merge e c = refl

HasTerm-merge :
    (t : Text) (e c : RerankedEvidence)
    → HasTerm t e ⊎ HasTerm t c
    → HasTerm t (merge_exact_provenance e c)
unfolding merge_exact_provenance contains
HasTerm-merge t e c h =
    let l = e.candidate.matched_exact_terms in
    let r = c.candidate.matched_exact_terms in
    ground (arith, contains-add_all t [] (l ++ r), contains-append t l r)

module _ (ops : FloatOps) (overlap near : ℕ) where
  AreApart-of_none :
      (e c : RerankedEvidence)
      → duplicate_reason ops overlap near e c ≡ none
      → AreApart (fingerprint e).1 (fingerprint c).1
  unfolding duplicate_reason
  AreApart-of_none e c h =
      let l = e.candidate in
      let r = c.candidate in
      (
        λ p. ground (arith, text_eq_iff l.content_sha256 r.content_sha256),
        λ p. ground (arith, text_eq_iff l.lexical_sha256 r.lexical_sha256),
      )

  -- What one round has done, by how the inner loop ended.
  abbrev pub Absorbed :
      List RerankedEvidence
      → RerankedEvidence
      → Option (List RerankedEvidence × DuplicateDecision)
      → Type 0
  Absorbed kept c none = All (λ e. AreApart (fingerprint e).1 (fingerprint c).1) kept
  Absorbed kept c (some (kept', d)) =
      (map fingerprint kept' ≡ map fingerprint kept)
      × (map id_of kept' ≡ map id_of kept)
      × (d.dropped_candidate_id ≡ id_of c)
      × (contains d.kept_candidate_id (map id_of kept) ≡ true)
      × ((t : Text) → Any (HasTerm t) kept ⊎ HasTerm t c → Any (HasTerm t) kept')

  Any-merge_head :
      (t : Text) (e c : RerankedEvidence) (kept : List RerankedEvidence)
      → Any (HasTerm t) (e ∷ kept) ⊎ HasTerm t c
      → Any (HasTerm t) (merge_exact_provenance e c ∷ kept)
  Any-merge_head t e c kept (inl (inl h)) = inl (HasTerm-merge t e c (inl h))
  Any-merge_head t e c kept (inl (inr h)) = inr h
  Any-merge_head t e c kept (inr h) = inl (HasTerm-merge t e c (inr h))

  Any-merge_tail :
      (t : Text) (e c : RerankedEvidence) (kept kept' : List RerankedEvidence)
      → (Any (HasTerm t) kept ⊎ HasTerm t c → Any (HasTerm t) kept')
      → Any (HasTerm t) (e ∷ kept) ⊎ HasTerm t c
      → Any (HasTerm t) (e ∷ kept')
  Any-merge_tail t e c kept kept' step (inl (inl h)) = inl h
  Any-merge_tail t e c kept kept' step (inl (inr h)) = inr (step (inl h))
  Any-merge_tail t e c kept kept' step (inr h) = inr (step (inr h))

  absorb_step :
      (e c : RerankedEvidence) (kept : List RerankedEvidence)
      → duplicate_reason ops overlap near e c ≡ none
      → (o : Option (List RerankedEvidence × DuplicateDecision))
      → absorb ops overlap near kept c ≡ o
      → Absorbed kept c o
      → Absorbed (e ∷ kept) c (absorb ops overlap near (e ∷ kept) c)
  unfolding absorb contains
  absorb_step e c kept apart none p h = rw (apart, p, absorb) (AreApart-of_none e c apart, h)
  absorb_step e c kept apart (some (kept', d)) p (prints, ids, dropped, known, terms) =
      rw (apart, p, absorb)
        (
          ap (◌∷◌ (fingerprint e)) prints,
          ap (◌∷◌ (id_of e)) ids,
          dropped,
          ground arith,
          λ t. Any-merge_tail t e c kept kept' (terms t),
        )

  pub absorb_lem :
      (c : RerankedEvidence) (kept : List RerankedEvidence)
      → Absorbed kept c (absorb ops overlap near kept c)
  unfolding absorb contains
  absorb_lem c [] = tt
  absorb_lem c (e ∷ kept) = elim (Option-cases (duplicate_reason ops overlap near e c)) [
    | inl apart ↦
        absorb_step e c kept apart (absorb ops overlap near kept c) refl (absorb_lem c kept)
    | inr ((r, s), found) ↦
        rw (found, absorb)
          (
            ap (λ f. f ∷ map fingerprint kept) (fingerprint-merge e c),
            ap (λ i. i ∷ map id_of kept) (id_of-merge e c),
            refl,
            ground (arith, text_eq_iff (id_of e) (id_of e)),
            λ t. Any-merge_head t e c kept,
          )
  ]
