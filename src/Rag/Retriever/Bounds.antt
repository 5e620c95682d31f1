-- ===== src/Rag/Retriever/Bounds.antt =====
-- How many chunks `retrieve` returns, in all and of a section, and how they are ranked.
use etoeragcb.Base.{
  ℕ, suc, ◌+◌, ◌-◌, ◌≤◌, ◌<◌, max, Bool, false, ◌||◌, ◌≡◌, refl, ap, sym, ◌∙◌, List, [], ◌∷◌, ◌++◌,
  map, length, leb, nat_eq, nat_keys, if◌then◌else◌, arith, Bool-cases, inl, inr, occurrences,
  occurrences-append, length-append, numbers_from,
}
use etoeragcb.Base.Text.{Text}
use etoeragcb.Base.Counter.{count_of, bump, count_of-bump}
use etoeragcb.Ingest.Tables.{Store}
use etoeragcb.Rag.Records.{RetrievalCandidate}
use etoeragcb.Rag.Retriever.{FusionOps, BranchResults}
use etoeragcb.Rag.Retriever.Selection.{
  cap_from, cap_sections, section_counts, add_neighbors, ranked_from, Limits, reserve,
  with_neighbors, choose, retrieve, load_neighbors,
}
use etoeragcb.Rag.Scope.{ResolvedScope}

abbrev is_of_section : ℕ → RetrievalCandidate → Bool
is_of_section section c = nat_eq c.section_id section

length-cap_from :
    (limit section_limit n : ℕ) (counts : List (ℕ × ℕ)) (cs : List RetrievalCandidate)
    → n < limit
    → n + length (cap_from limit section_limit n counts cs) ≤ limit
unfolding cap_from
length-cap_from limit section_limit n counts [] h = omega arith
length-cap_from limit section_limit n counts (c ∷ cs) h =
    elim (Bool-cases (leb section_limit (count_of c.section_id counts))) [
      | inl e ↦ rw e (length-cap_from limit section_limit n counts cs h)
      | inr e ↦ rw e (elim (Bool-cases (nat_eq (suc n) limit)) [
        | inl last ↦ rw last (ground arith)
        | inr more ↦ rw more (
            ground
              (arith, length-cap_from limit section_limit (suc n) (bump c.section_id counts) cs))
      ])
    ]

-- A chunk that is not skipped has room in its section, and keeps the section within its limit.
room_after :
    (section_limit section : ℕ) (counts : List (ℕ × ℕ)) (c : RetrievalCandidate)
    → leb section_limit (count_of c.section_id counts) ≡ false
    → count_of section counts ≤ section_limit
    → (count_of section (bump c.section_id counts)
        ≡ count_of section counts + (if is_of_section section c then 1 else 0))
      × (count_of section (bump c.section_id counts) ≤ section_limit)
room_after section_limit section counts c e h =
    let bumped = count_of-bump section c.section_id counts in
    elim (Bool-cases (nat_eq c.section_id section)) [
      | inl here ↦
          let same : count_of c.section_id counts ≡ count_of section counts =
            ap (λ k. count_of k counts) (ground arith) in
          (ground arith, ground arith)
      | inr other ↦ (ground arith, ground arith)
    ]

sections-cap_from :
    (limit section_limit n : ℕ) (counts : List (ℕ × ℕ)) (cs : List RetrievalCandidate) (section : ℕ)
    → count_of section counts ≤ section_limit
    → count_of section counts
        + occurrences (is_of_section section) (cap_from limit section_limit n counts cs)
      ≤ section_limit
unfolding cap_from
sections-cap_from limit section_limit n counts [] section h = omega arith
sections-cap_from limit section_limit n counts (c ∷ cs) section h =
    elim (Bool-cases (leb section_limit (count_of c.section_id counts))) [
      | inl e ↦ rw e (sections-cap_from limit section_limit n counts cs section h)
      | inr e ↦
          let (counted, room) = room_after section_limit section counts c e h in
          rw e (elim (Bool-cases (nat_eq (suc n) limit)) [
            | inl last ↦ rw last (ground arith)
            | inr more ↦
                let later =
                  sections-cap_from limit section_limit (suc n) (bump c.section_id counts) cs
                    section room in
                rw more (ground arith)
          ])
    ]

length-cap_sections :
    (cs : List RetrievalCandidate) (limit section_limit : ℕ)
    → 1 ≤ limit
    → length (cap_sections cs limit section_limit) ≤ limit
unfolding cap_sections
length-cap_sections cs limit section_limit one =
    omega (arith, length-cap_from limit section_limit 0 [] cs (omega arith))

sections-cap_sections :
    (cs : List RetrievalCandidate) (limit section_limit section : ℕ)
    → occurrences (is_of_section section) (cap_sections cs limit section_limit) ≤ section_limit
unfolding cap_sections count_of
sections-cap_sections cs limit section_limit section =
    omega (arith, sections-cap_from limit section_limit 0 [] cs section (omega arith))

sections-add_neighbors :
    (pool_limit section_limit n : ℕ) (counts : List (ℕ × ℕ)) (cs : List RetrievalCandidate)
    (section : ℕ)
    → count_of section counts ≤ section_limit
    → count_of section counts
        + occurrences (is_of_section section) (add_neighbors pool_limit section_limit n counts cs)
      ≤ section_limit
unfolding add_neighbors
sections-add_neighbors pool_limit section_limit n counts [] section h = omega arith
sections-add_neighbors pool_limit section_limit n counts (c ∷ cs) section h =
    elim (Bool-cases (leb pool_limit n)) [
      | inl full ↦ rw full (omega arith)
      | inr open_pool ↦
          rw open_pool (elim (Bool-cases (leb section_limit (count_of c.section_id counts))) [
            | inl e ↦ rw e (sections-add_neighbors pool_limit section_limit n counts cs section h)
            | inr e ↦
                let (counted, room) = room_after section_limit section counts c e h in
                let later =
                  sections-add_neighbors pool_limit section_limit (suc n) (bump c.section_id counts)
                    cs section room in
                rw e (ground arith)
          ])
    ]

length-add_neighbors :
    (pool_limit section_limit n : ℕ) (counts : List (ℕ × ℕ)) (cs : List RetrievalCandidate)
    → n ≤ pool_limit
    → n + length (add_neighbors pool_limit section_limit n counts cs) ≤ pool_limit
unfolding add_neighbors
length-add_neighbors pool_limit section_limit n counts [] h = omega arith
length-add_neighbors pool_limit section_limit n counts (c ∷ cs) h =
    elim (Bool-cases (leb pool_limit n)) [
      | inl full ↦ rw full (omega arith)
      | inr open_pool ↦
          rw open_pool (elim (Bool-cases (leb section_limit (count_of c.section_id counts))) [
            | inl e ↦ rw e (length-add_neighbors pool_limit section_limit n counts cs h)
            | inr e ↦
                let later =
                  length-add_neighbors pool_limit section_limit (suc n) (bump c.section_id counts)
                    cs (ground arith) in
                rw e (omega arith)
          ])
    ]

count_of-section_counts :
    (section : ℕ) (counts : List (ℕ × ℕ)) (cs : List RetrievalCandidate)
    → count_of section (section_counts counts cs)
      ≡ count_of section counts + occurrences (is_of_section section) cs
unfolding section_counts
count_of-section_counts section counts [] = omega arith
count_of-section_counts section counts (c ∷ cs) =
    let bumped = count_of-bump section c.section_id counts in
    let later = count_of-section_counts section (bump c.section_id counts) cs in ground arith

counted_sections :
    (section : ℕ) (cs : List RetrievalCandidate)
    → count_of section (section_counts [] cs) ≡ occurrences (is_of_section section) cs
unfolding count_of
counted_sections section cs = omega (arith, count_of-section_counts section [] cs)

occurrences-ranked_from :
    (section rank : ℕ) (cs : List RetrievalCandidate)
    → occurrences (is_of_section section) (ranked_from rank cs)
      ≡ occurrences (is_of_section section) cs
unfolding ranked_from
occurrences-ranked_from section rank [] = refl
occurrences-ranked_from section rank (c ∷ cs) =
    ground (arith, occurrences-ranked_from section (suc rank) cs)

length-ranked_from :
    (rank : ℕ) (cs : List RetrievalCandidate) → length (ranked_from rank cs) ≡ length cs
unfolding ranked_from
length-ranked_from rank [] = refl
length-ranked_from rank (c ∷ cs) = omega (arith, length-ranked_from (suc rank) cs)

ranks-ranked_from :
    (rank : ℕ) (cs : List RetrievalCandidate)
    → map (λ c. c.rank) (ranked_from rank cs) ≡ numbers_from rank (length cs)
unfolding ranked_from
ranks-ranked_from rank [] = refl
ranks-ranked_from rank (c ∷ cs) = ap (λ ns. rank ∷ ns) (ranks-ranked_from (suc rank) cs)

-- A pool of at most so many chunks, at most so many of a section, ranked 1, 2 and so on.
pub record IsPool (pool_limit section_limit : ℕ) (cs : List RetrievalCandidate) : Type 0 where
  pub size : length cs ≤ pool_limit
  pub sections : (section : ℕ) → occurrences (is_of_section section) cs ≤ section_limit
  pub ranks : map (λ c. c.rank) cs ≡ numbers_from 1 (length cs)

ranked_from-IsPool :
    (pool_limit section_limit : ℕ) (cs : List RetrievalCandidate)
    → length cs ≤ pool_limit
    → ((section : ℕ) → occurrences (is_of_section section) cs ≤ section_limit)
    → IsPool pool_limit section_limit (ranked_from 1 cs)
ranked_from-IsPool pool_limit section_limit cs size sections = record {
  size = ground (arith, length-ranked_from 1 cs);
  sections = λ section. ground (arith, occurrences-ranked_from section 1 cs, sections section);
  ranks = ranks-ranked_from 1 cs ∙ ap (numbers_from 1) (sym (length-ranked_from 1 cs));
}

with_neighbors-IsPool :
    (l : Limits) (primaries neighbors : List RetrievalCandidate)
    → length primaries ≤ l.pool_limit
    → ((section : ℕ) → occurrences (is_of_section section) primaries ≤ l.section_chunk_limit)
    → IsPool l.pool_limit l.section_chunk_limit
        (ranked_from 1 (with_neighbors l primaries neighbors))
unfolding with_neighbors
with_neighbors-IsPool l primaries neighbors size sections =
    let added =
      add_neighbors l.pool_limit l.section_chunk_limit (length primaries)
        (section_counts [] primaries) neighbors in
    ranked_from-IsPool l.pool_limit l.section_chunk_limit (primaries ++ added)
      (let k =
          length-add_neighbors l.pool_limit l.section_chunk_limit (length primaries)
            (section_counts [] primaries) neighbors size in
        ground (arith, length-append primaries added))
      (λ section.
        let counted = counted_sections section primaries in
        let few = sections section in
        let k =
          sections-add_neighbors l.pool_limit l.section_chunk_limit (length primaries)
            (section_counts [] primaries) neighbors section (ground arith) in
        ground (arith, occurrences-append (is_of_section section) primaries added))

choose-IsPool :
    (l : Limits) (s : Store) (scope : ResolvedScope) (excluded : List ℕ)
    (ranked : List RetrievalCandidate)
    → 1 ≤ l.pool_limit
    → IsPool l.pool_limit l.section_chunk_limit (choose l s scope excluded ranked)
unfolding choose
choose-IsPool l s scope excluded [] one = record {
  size = omega arith;
  sections = λ section. omega arith;
  ranks = refl;
}
choose-IsPool l s scope excluded (c ∷ cs) one =
    let ranked = c ∷ cs in
    let limit = max 1 (l.pool_limit - reserve l (length ranked)) in
    let primaries = cap_sections ranked limit l.section_chunk_limit in
    let size : length primaries ≤ l.pool_limit =
      ground (arith, length-cap_sections ranked limit l.section_chunk_limit) in
    let sections =
      λ (section : ℕ). sections-cap_sections ranked limit l.section_chunk_limit section in
    elim (Bool-cases (nat_eq l.neighbor_radius 0 || leb l.pool_limit (length primaries))) [
      | inl full ↦
          rw full (ranked_from-IsPool l.pool_limit l.section_chunk_limit primaries size sections)
      | inr room ↦ rw room (
          with_neighbors-IsPool l primaries
            (load_neighbors s scope.tenant_id scope.version_ids primaries l.neighbor_radius
              excluded)
            size sections)
    ]

-- Where the pool limit is at least one, a search returns at most as many chunks as the pool holds and
-- at most the limit of a section from each section, neighbours included, ranked 1, 2 and so on.
pub retrieve_bounds :
    (ops : FusionOps) (l : Limits) (s : Store) (scope : ResolvedScope) (branches : BranchResults)
    (exact_terms : List Text)
    → 1 ≤ l.pool_limit
    → IsPool l.pool_limit l.section_chunk_limit (retrieve ops l s scope branches exact_terms)
unfolding retrieve
retrieve_bounds ops l s scope branches exact_terms one = choose-IsPool l s scope _ _ one
