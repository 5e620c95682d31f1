-- ===== src/Rag/Context/Laws.antt =====
-- The invariant of the loop of `pack`: no cap is passed, and the context is that of the selection.
use etoeragcb.Base.{
  ℕ, Option, List, length, ◌≡◌, arith, ◌≤◌, ◌<◌, none, ◌==◌, length-append, occurrences, false, ◌∷◌,
  some, ◌++◌, [], Bool-cases, occurrences-append, inl, subst, refl, text_keys, inr,
}
use etoeragcb.Base.Text.{Text, codes, text_eq, text_eq_iff}
use etoeragcb.Rag.Records.{RerankedEvidence, SourceType, document, web}
use etoeragcb.Rag.Context.{ContextPacker, PackState, cap_of, select, domain_full, web_full}
use etoeragcb.Rag.Context.Counts.{
  Counts, with_section, Counts-bump, with_source, Counts-bump_domain, with_domain, of_type,
}
use etoeragcb.Rag.Context.Format.{source_type_text}
use etoeragcb.Base.Counter.{count_of}

-- The limit of web sources, where one is set.
abbrev pub IsWithinWeb : Option ℕ → ℕ → Type 0
IsWithinWeb none n = Unit
IsWithinWeb (some limit) n = n ≤ limit

-- A selection that passes no cap.
pub record IsWithinCaps (p : ContextPacker) (selected : List RerankedEvidence) : Type 0 where
  pub candidates : length selected ≤ p.max_candidates
  pub sections : (k : Text) → occurrences (with_section k) selected ≤ p.section_limit
  pub sources : (k : Text) → occurrences (with_source k) selected ≤ p.source_limit
  pub domains : (k : Text) → occurrences (with_domain k) selected ≤ p.domain_limit
  pub web : IsWithinWeb p.web_limit (occurrences (of_type (codes "web")) selected)

pub record HasCounts (s : PackState) : Type 0 where
  pub sections : Counts with_section s.selected s.section_counts
  pub sources : Counts with_source s.selected s.source_counts
  pub domains : Counts with_domain s.selected s.domain_counts
  pub types : Counts of_type s.selected s.source_type_counts

-- The room that is left when no cap holds.
pub record HasRoom (p : ContextPacker) (s : PackState) (item : RerankedEvidence) : Type 0 where
  pub candidates : length s.selected < p.max_candidates
  pub sections : count_of item.candidate.section_key s.section_counts < p.section_limit
  pub sources : count_of item.candidate.source_key s.source_counts < p.source_limit
  pub domains : domain_full item.candidate.domain s.domain_counts p.domain_limit ≡ false
  pub web : web_full item.candidate.source_type p.web_limit s.source_type_counts ≡ false

pub cap_of-none :
    (p : ContextPacker) (s : PackState) (item : RerankedEvidence)
    → cap_of p s item ≡ none
    → HasRoom p s item
unfolding cap_of
cap_of-none p s item h = ground arith

pub HasCounts-select :
    (s : PackState) (item : RerankedEvidence) (tentative : Text) (n : ℕ)
    → HasCounts s
    → HasCounts (select s item tentative n)
unfolding select
HasCounts-select s item tentative n h = record {
  sections = Counts-bump (λ e. e.candidate.section_key) s.selected s.section_counts item h.sections;
  sources = Counts-bump (λ e. e.candidate.source_key) s.selected s.source_counts item h.sources;
  domains = Counts-bump_domain s.selected s.domain_counts item h.domains item.candidate.domain refl;
  types =
      Counts-bump (λ e. source_type_text e.candidate.source_type) s.selected s.source_type_counts
        item h.types;
}

module _ (p : ContextPacker) (s : PackState) (item : RerankedEvidence) where
  key_cap :
      (key : RerankedEvidence → Text) (limit : ℕ) (counts : List (Text × ℕ))
      → Counts (λ k e. key e == k) s.selected counts
      → count_of (key item) counts < limit
      → ((k : Text) → occurrences (λ e. key e == k) s.selected ≤ limit)
      → (k : Text) → occurrences (λ e. key e == k) (s.selected ++ item ∷ []) ≤ limit
  key_cap key limit counts c room before k = elim (Bool-cases (key item == k)) [
    | inl same ↦
        let e = (text_eq_iff (key item) k).0 same in
        let here : count_of k counts < limit = subst (λ j. count_of j counts < limit) e room in
        ground (arith, c k, occurrences-append (λ e. key e == k) s.selected (item ∷ []), before k)
    | inr apart ↦
        ground (arith, occurrences-append (λ e. key e == k) s.selected (item ∷ []), before k)
  ]

  domain_cap :
      (limit : ℕ)
      → Counts with_domain s.selected s.domain_counts
      → (d : Option Text) → item.candidate.domain ≡ d
      → domain_full d s.domain_counts limit ≡ false
      → ((k : Text) → occurrences (with_domain k) s.selected ≤ limit)
      → (k : Text) → occurrences (with_domain k) (s.selected ++ item ∷ []) ≤ limit
  unfolding domain_full
  domain_cap limit c none e room before k =
      ground (arith, occurrences-append (with_domain k) s.selected (item ∷ []), before k)
  domain_cap limit c (some d) e room before k = ground (
    arith,
    c k,
    c d,
    text_eq_iff d k,
    occurrences-append (with_domain k) s.selected (item ∷ []),
    before k,
  )

  web_cap :
      (limit : Option ℕ)
      → Counts of_type s.selected s.source_type_counts
      → (t : SourceType) → item.candidate.source_type ≡ t
      → web_full t limit s.source_type_counts ≡ false
      → IsWithinWeb limit (occurrences (of_type (codes "web")) s.selected)
      → IsWithinWeb limit (occurrences (of_type (codes "web")) (s.selected ++ item ∷ []))
  unfolding web_full source_type_text text_eq
  web_cap none c t e room before = tt
  web_cap (some n) c document e room before =
      ground (arith, occurrences-append (of_type (codes "web")) s.selected (item ∷ []))
  web_cap (some n) c web e room before =
      ground
        (arith, c (codes "web"), occurrences-append (of_type (codes "web")) s.selected (item ∷ []))

  pub IsWithinCaps-select :
      (tentative : Text) (n : ℕ)
      → HasCounts s
      → HasRoom p s item
      → IsWithinCaps p s.selected
      → IsWithinCaps p (select s item tentative n).selected
  unfolding select
  IsWithinCaps-select tentative n c room h = record {
    candidates = omega (arith, room.candidates, length-append s.selected (item ∷ []));
    sections =
        key_cap (λ e. e.candidate.section_key) p.section_limit s.section_counts c.sections
          room.sections h.sections;
    sources =
        key_cap (λ e. e.candidate.source_key) p.source_limit s.source_counts c.sources room.sources
          h.sources;
    domains = domain_cap p.domain_limit c.domains item.candidate.domain refl room.domains h.domains;
    web = web_cap p.web_limit c.types item.candidate.source_type refl room.web h.web;
  }
