-- ===== src/Rag/Context/Total.antt =====
-- `pack` as a whole, with a tokenizer that answers.
use etoeragcb.Base.{
  ℕ, List, ◌≡◌, ◌∷◌, ◌++◌, map, ◌≤◌, none, [], Bool, map-append_one, Option-cases, append-nil,
  Option, suc, refl, occurrences, arith, append_assoc, ◌+◌, occurrences-append, inr, inl, some,
  Bool-cases, ltb,
}
use etoeragcb.Base.Text.{Text}
use etoeragcb.Base.Result.{Result, ok}
use etoeragcb.Rag.Records.{RerankedEvidence, id_of}
use etoeragcb.Rag.Context.{
  ContextPacker, PackedContext, PackState, PackError, ContextSkip, cap_of, skip, select, weigh,
  settle_weight, pack_step, pack_loop, pack, evidence_order, format_context, number_from,
  empty_pack, SkipReason, token_budget,
}
use etoeragcb.Rag.Context.Laws.{
  IsWithinCaps, HasCounts, HasCounts-select, IsWithinCaps-select, cap_of-none, IsWithinWeb,
}
use etoeragcb.Base.Counter.{count_of}

-- The context of a selection, and its size: nothing is formatted or counted for an empty one.
abbrev pub IsContextOf : (Text → Result PackError ℕ) → List RerankedEvidence → Text → ℕ → Type 0
IsContextOf count [] text n = (text ≡ []) × (n ≡ 0)
IsContextOf count (e ∷ es) text n =
    (text ≡ format_context (e ∷ es)) × (count (format_context (e ∷ es)) ≡ ok n)

IsContextOf-append :
    (count : Text → Result PackError ℕ) (es : List RerankedEvidence) (e : RerankedEvidence) (n : ℕ)
    → count (format_context (es ++ e ∷ [])) ≡ ok n
    → IsContextOf count (es ++ e ∷ []) (format_context (es ++ e ∷ [])) n
IsContextOf-append count [] e n h = (refl, h)
IsContextOf-append count (x ∷ es) e n h = (refl, h)

abbrev pub skipped_ids : List ContextSkip → List Text
skipped_ids = map (λ s. s.candidate_id)

module _ (count : Text → Result PackError ℕ) (p : ContextPacker) where
  pub record IsPacked (seen : List RerankedEvidence) (s : PackState) : Type 0 where
    pub counted : HasCounts s
    pub within : IsWithinCaps p s.selected
    pub context_of : IsContextOf count s.selected s.context s.token_count
    pub budget : s.token_count ≤ p.token_budget
    pub accounted :
        (q : Text → Bool)
        → occurrences q (map id_of s.selected) + occurrences q (skipped_ids s.skipped)
          ≡ occurrences q (map id_of seen)

  IsPacked-skip :
      (seen : List RerankedEvidence) (s : PackState) (item : RerankedEvidence) (r : SkipReason)
      → IsPacked seen s
      → IsPacked (seen ++ item ∷ []) (skip s item r)
  IsPacked-skip seen s item r h = record {
    counted = record {
      sections = h.counted.sections;
      sources = h.counted.sources;
      domains = h.counted.domains;
      types = h.counted.types;
    };
    within = h.within;
    context_of = h.context_of;
    budget = h.budget;
    accounted = λ q.
        rw
          (
            map-append_one id_of seen item,
            map-append_one (λ k. k.candidate_id) s.skipped
                (record { candidate_id = id_of item; reason = r }),
          )
          (ground (
            arith,
            h.accounted q,
            occurrences-append q (map id_of seen) (id_of item ∷ []),
            occurrences-append q (skipped_ids s.skipped) (id_of item ∷ []),
          ));
  }

  IsPacked-select :
      (seen : List RerankedEvidence) (s : PackState) (item : RerankedEvidence) (n : ℕ)
      → IsPacked seen s
      → cap_of p s item ≡ none
      → count (format_context (s.selected ++ item ∷ [])) ≡ ok n
      → n ≤ p.token_budget
      → IsPacked (seen ++ item ∷ []) (select s item (format_context (s.selected ++ item ∷ [])) n)
  unfolding select
  IsPacked-select seen s item n h room counted fits = record {
    counted = HasCounts-select s item (format_context (s.selected ++ item ∷ [])) n h.counted;
    within =
        IsWithinCaps-select p s item (format_context (s.selected ++ item ∷ [])) n h.counted
          (cap_of-none p s item room) h.within;
    context_of = IsContextOf-append count s.selected item n counted;
    budget = fits;
    accounted = λ q.
        rw (map-append_one id_of seen item, map-append_one id_of s.selected item)
          (ground (
            arith,
            h.accounted q,
            occurrences-append q (map id_of seen) (id_of item ∷ []),
            occurrences-append q (map id_of s.selected) (id_of item ∷ []),
          ));
  }

  module _ (answers : (t : Text) → (n : ℕ) × (count t ≡ ok n)) where
    pack_step_lem :
        (seen : List RerankedEvidence) (s : PackState) (item : RerankedEvidence)
        → IsPacked seen s
        → (s' : PackState) × (pack_step count p s item ≡ ok s') × IsPacked (seen ++ item ∷ []) s'
    unfolding pack_step weigh settle_weight
    pack_step_lem seen s item h = elim (Option-cases (cap_of p s item)) [
      | inr (r, full) ↦ (skip s item r, rw (full, pack_step), IsPacked-skip seen s item r h)
      | inl room ↦
          let tentative = format_context (s.selected ++ item ∷ []) in
          let (n, counted) = answers tentative in
          elim (Bool-cases (ltb p.token_budget n)) [
            | inl over ↦ (
              skip s item token_budget,
              rw (room, pack_step, counted, over),
              IsPacked-skip seen s item token_budget h,
            )
            | inr fits ↦ (
              select s item tentative n,
              rw (room, pack_step, counted, fits),
              IsPacked-select seen s item n h room counted (ground arith),
            )
          ]
    ]

    pack_loop_lem :
        (seen rest : List RerankedEvidence) (s : PackState)
        → IsPacked seen s
        → (s' : PackState) × (pack_loop count p rest s ≡ ok s') × IsPacked (seen ++ rest) s'
    unfolding pack_loop
    pack_loop_lem seen [] s h = (s, refl, rw append-nil h)
    pack_loop_lem seen (item ∷ rest) s h =
        let (s1, e1, h1) = pack_step_lem seen s item h in
        let (s2, e2, h2) = pack_loop_lem (seen ++ item ∷ []) rest s1 h1 in
        (s2, rw e1 e2, rw append_assoc at h2)

  IsPacked-empty : IsPacked [] empty_pack
  unfolding count_of
  IsPacked-empty = record {
    counted = record {
      sections = λ k. refl;
      sources = λ k. refl;
      domains = λ k. refl;
      types = λ k. refl;
    };
    within = record {
      candidates = omega arith;
      sections = λ k. omega arith;
      sources = λ k. omega arith;
      domains = λ k. omega arith;
      web = none_of_web p.web_limit;
    };
    context_of = (refl, refl);
    budget = omega arith;
    accounted = λ q. refl;
  }
    where
      none_of_web : (limit : Option ℕ) → IsWithinWeb limit 0
      none_of_web none = tt
      none_of_web (some n) = omega arith

evidence_of :
    (index : ℕ) (es : List RerankedEvidence) → map (λ s. s.evidence) (number_from index es) ≡ es
unfolding number_from
evidence_of index [] = refl
evidence_of index (e ∷ es) = rw (evidence_of (suc index) es)

ids_of :
    (index : ℕ) (es : List RerankedEvidence)
    → map (λ s. id_of s.evidence) (number_from index es) ≡ map id_of es
unfolding number_from
ids_of index [] = refl
ids_of index (e ∷ es) = rw (ids_of (suc index) es)

-- With a tokenizer that answers for every text, `pack` returns. The packed evidence passes none of
-- the caps on candidates, on a section, on a source, on a domain and on web sources. The context is
-- the formatted text of exactly that evidence, its size is the tokenizer's answer for it, and it is
-- within the token budget. Each candidate that `_evidence_order` gives is packed or skipped, and
-- only once.
pub pack_within_limits :
    (count : Text → Result PackError ℕ) (p : ContextPacker) (cs : List RerankedEvidence)
    → ((t : Text) → (n : ℕ) × (count t ≡ ok n))
    → (r : PackedContext) × (pack count p cs ≡ ok r)
      × IsWithinCaps p (map (λ s. s.evidence) r.sources)
      × IsContextOf count (map (λ s. s.evidence) r.sources) r.text r.token_count
      × (r.token_count ≤ p.token_budget)
      × ((q : Text → Bool)
          → occurrences q (map (λ s. id_of s.evidence) r.sources)
              + occurrences q (skipped_ids r.skipped)
            ≡ occurrences q (map id_of (evidence_order cs)))
unfolding pack
pack_within_limits count p cs answers =
    let (s, e, h) =
      pack_loop_lem count p answers [] (evidence_order cs) empty_pack (IsPacked-empty count p) in
    let same = evidence_of 1 s.selected in
    (
      record {
        text = s.context;
        token_count = s.token_count;
        token_budget = p.token_budget;
        sources = number_from 1 s.selected;
        skipped = s.skipped;
      },
      rw e refl,
      rw same h.within,
      rw same h.context_of,
      h.budget,
      λ q. rw (ids_of 1 s.selected) (h.accounted q),
    )
