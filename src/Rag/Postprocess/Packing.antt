-- ===== src/Rag/Postprocess/Packing.antt =====
-- The context packs evidence that it was given.
use etoeragcb.Base.{
  ℕ, suc, Bool, true, false, ◌≡◌, subst, Option, some, List, [], ◌∷◌, ◌++◌, map, ltb, if◌then◌else◌,
  Bool-cases, Option-cases, inl, inr, All, All-append,
}
use mathlib.Core.Option.{some-injective}
use etoeragcb.Base.Text.{Text, text_keys}
use etoeragcb.Base.Counter.{contains, add_all}
use etoeragcb.Base.Result.{Result, ok, bind-eq-ok, ok_injective}
use etoeragcb.Rag.Records.{RerankedEvidence, SourceType, document, web, id_of}
use etoeragcb.Rag.Candidates.Order.{ranked}
use etoeragcb.Rag.Context.{
  format_context, PackError, PackState, ContextPacker, PackedContext, cap_of, skip, select,
  number_from, settle_weight, weigh, pack_step, pack_loop, pack, empty_pack, evidence_order,
  term_representatives, first_of_type, with_representative, without_ids,
}
use etoeragcb.Rag.Postprocess.{packed_evidence}
use etoeragcb.Rag.Postprocess.Stages.{All-ranked}

module _ (P : RerankedEvidence → Type 0) where
  either_way :
      (b : Bool) (xs ys : List RerankedEvidence)
      → All P xs
      → All P ys
      → All P (if b then xs else ys)
  either_way true xs ys x y = x
  either_way false xs ys x y = y

  taken_or_later :
      (b : Bool) (x c : RerankedEvidence) (o : Option RerankedEvidence)
      → P x
      → (o ≡ some c → P c)
      → (if b then some x else o) ≡ some c
      → P c
  taken_or_later true x c o first later e = subst P (some-injective x c e) first
  taken_or_later false x c o first later e = later e

  All-term_representatives :
      (terms : List Text) (cs : List RerankedEvidence)
      → All P cs
      → All P (term_representatives terms cs)
  unfolding term_representatives
  All-term_representatives terms [] h = tt
  All-term_representatives terms (c ∷ cs) (first, more) =
      let skipped = All-term_representatives terms cs more in
      let taken =
        All-term_representatives (add_all terms c.candidate.matched_exact_terms) cs more in
      either_way _ (term_representatives terms cs)
        (c ∷ term_representatives (add_all terms c.candidate.matched_exact_terms) cs) skipped
        (first, taken)

  first_of_type-found :
      (kind : SourceType) (ids : List Text) (cs : List RerankedEvidence) (c : RerankedEvidence)
      → All P cs
      → first_of_type kind ids cs ≡ some c
      → P c
  unfolding first_of_type
  first_of_type-found kind ids [] c h e = cc
  first_of_type-found kind ids (x ∷ cs) c (first, more) e =
      taken_or_later _ x c (first_of_type kind ids cs) first
        (first_of_type-found kind ids cs c more) e

  All-with_representative :
      (order chosen : List RerankedEvidence) (kind : SourceType)
      → All P order
      → All P chosen
      → All P (with_representative order chosen kind)
  unfolding with_representative
  All-with_representative order chosen kind h k =
      elim (Option-cases (first_of_type kind (map id_of chosen) order)) [
        | inl e ↦ rw (e, with_representative) k
        | inr (c, e) ↦
            rw (e, with_representative)
              (All-append P chosen (c ∷ []) k
                (first_of_type-found kind (map id_of chosen) order c h e, tt))
      ]

  All-without_ids :
      (ids : List Text) (cs : List RerankedEvidence) → All P cs → All P (without_ids ids cs)
  unfolding without_ids
  All-without_ids ids [] h = tt
  All-without_ids ids (c ∷ cs) (first, more) = elim (Bool-cases (contains (id_of c) ids)) [
    | inl e ↦ rw e (All-without_ids ids cs more)
    | inr e ↦ rw e (first, All-without_ids ids cs more)
  ]

  All-evidence_order : (cs : List RerankedEvidence) → All P cs → All P (evidence_order cs)
  unfolding evidence_order
  All-evidence_order cs h =
      let order = All-ranked P cs h in
      let by_types = All-with_representative (ranked cs) _ web order (
        All-with_representative (ranked cs) _ document order
          (All-term_representatives [] (ranked cs) order)) in
      All-append P _ _ by_types (All-without_ids _ (ranked cs) order)

  module _ (count : Text → Result PackError ℕ) (p : ContextPacker) where
    All-settle_weight :
        (s : PackState) (c : RerankedEvidence) (text : Text) (n : ℕ)
        → All P s.selected
        → P c
        → All P (settle_weight count p s c text n).selected
    unfolding settle_weight select
    All-settle_weight s c text n h k = elim (Bool-cases (ltb p.token_budget n)) [
      | inl heavy ↦ rw heavy h
      | inr fits ↦ rw fits (All-append P s.selected (c ∷ []) h (k, tt))
    ]

    All-pack_step :
        (s t : PackState) (c : RerankedEvidence)
        → All P s.selected
        → P c
        → pack_step count p s c ≡ ok t
        → All P t.selected
    unfolding pack_step weigh
    All-pack_step s t c h k e = elim (Option-cases (cap_of p s c)) [
      | inr (reason, capped) ↦
          subst (λ z. All P z.selected)
            (ok_injective (skip s c reason) t (rw (capped, pack_step) at e)) h
      | inl free ↦
          let (n, counted, rest) =
            bind-eq-ok (count (format_context (s.selected ++ c ∷ []))) _
              (rw (free, pack_step) at e) in
          subst (λ z. All P z.selected) (ok_injective _ t rest) (All-settle_weight s c _ n h k)
    ]

    All-pack_loop :
        (cs : List RerankedEvidence) (s t : PackState)
        → All P cs
        → All P s.selected
        → pack_loop count p cs s ≡ ok t
        → All P t.selected
    unfolding pack_loop
    All-pack_loop [] s t h k e = subst (λ z. All P z.selected) (ok_injective s t e) k
    All-pack_loop (c ∷ cs) s t (first, more) k e =
        let (u, step, rest) = bind-eq-ok (pack_step count p s c) _ e in
        All-pack_loop cs u t more (All-pack_step s u c k first step) rest

    All-number_from :
        (i : ℕ) (cs : List RerankedEvidence)
        → All P cs
        → All P (map (λ x. x.evidence) (number_from i cs))
    unfolding number_from
    All-number_from i [] h = tt
    All-number_from i (c ∷ cs) (first, more) = (first, All-number_from (suc i) cs more)

    pub All-pack :
        (cs : List RerankedEvidence) (context : PackedContext)
        → All P cs
        → pack count p cs ≡ ok context
        → All P (packed_evidence context)
    unfolding pack
    All-pack cs context h e =
        let (s, looped, rest) = bind-eq-ok (pack_loop count p (evidence_order cs) empty_pack) _ e in
        subst (λ z. All P (packed_evidence z)) (ok_injective _ context rest)
          (All-number_from 1 s.selected
            (All-pack_loop (evidence_order cs) empty_pack s (All-evidence_order cs h) tt looped))
