-- ===== src/Rag/Retriever/Visibility.antt =====
-- Every chunk that `retrieve` returns is one that the search may see.
use etoeragcb.Base.{
  ℕ, suc, ◌-◌, true, false, ◌||◌, Option, none, some, List, [], ◌∷◌, map, length, max, leb, nat_eq,
  nat_keys, arith, Bool-cases, Option-cases, inl, inr, All, All-append, each_is_element,
}
use etoeragcb.Base.Text.{Text}
use etoeragcb.Base.Sort.{All-sort_by}
use etoeragcb.Base.Dict.{get}
use etoeragcb.Base.Counter.{count_of, bump}
use etoeragcb.Ingest.Tables.{Store}
use etoeragcb.Rag.Records.{RetrievalCandidate}
use etoeragcb.Rag.Retriever.{FusionOps, BranchResults, Evidence, HydratedChunk, evidence_of}
use etoeragcb.Rag.Retriever.Hydration.{
  hydrate_chunks, candidate_or_none, candidates_from, rank_hydrated, is_empty,
}
use etoeragcb.Rag.Retriever.Selection.{
  cap_from, cap_sections, add_neighbors, ranked_from, Limits, reserve, with_neighbors, choose,
  retrieve, load_neighbors, neighbors_of, neighbor_of_root, nearest, neighbor_before, Neighbor,
}
use etoeragcb.Rag.Retriever.Scope.{
  IsVisible, IsJoined, All-joined, AllValues, AllValues-by_chunk_id, AllValues-get,
  joined-IsVisible,
}
use etoeragcb.Rag.Scope.{ResolvedScope}

hydrated-IsJoined :
    (s : Store) (scope : ResolvedScope) (chunk_ids : List ℕ)
    → AllValues (IsJoined s scope) (hydrate_chunks s scope.tenant_id scope.version_ids chunk_ids)
unfolding hydrate_chunks
hydrated-IsJoined s scope chunk_ids =
    elim (Bool-cases (is_empty chunk_ids || is_empty scope.version_ids)) [
      | inl e ↦ rw e tt
      | inr e ↦ rw e (
          AllValues-by_chunk_id (IsJoined s scope) _ []
            (All-joined s scope _ s.chunks (λ c h. ground (arith, h)) (each_is_element s.chunks))
            tt)
    ]

All-candidates_from :
    (s : Store) (scope : ResolvedScope) (rank : ℕ) (hydrated : List (ℕ × HydratedChunk))
    (evidence : List (ℕ × Evidence)) (ids : List ℕ)
    → AllValues (IsJoined s scope) hydrated
    → All (IsVisible s scope) (candidates_from rank hydrated evidence ids)
unfolding candidates_from candidate_or_none
All-candidates_from s scope rank hydrated evidence [] h = tt
All-candidates_from s scope rank hydrated evidence (id ∷ ids) h =
    let rest = All-candidates_from s scope (suc rank) hydrated evidence ids h in
    elim (Option-cases (get id hydrated)) [
      | inl e ↦ rw e rest
      | inr (r, e) ↦ rw e (
        joined-IsVisible s scope r (evidence_of id evidence) rank false none
            (AllValues-get (IsJoined s scope) id hydrated r h e),
        rest,
      )
    ]

All-cap_from :
    (P : RetrievalCandidate → Type 0) (limit section_limit n : ℕ) (counts : List (ℕ × ℕ))
    (cs : List RetrievalCandidate)
    → All P cs
    → All P (cap_from limit section_limit n counts cs)
unfolding cap_from
All-cap_from P limit section_limit n counts [] h = tt
All-cap_from P limit section_limit n counts (c ∷ cs) (first, more) =
    elim (Bool-cases (leb section_limit (count_of c.section_id counts))) [
      | inl e ↦ rw e (All-cap_from P limit section_limit n counts cs more)
      | inr e ↦ rw e (elim (Bool-cases (nat_eq (suc n) limit)) [
        | inl last ↦ rw last (first, tt)
        | inr on ↦
            rw on
              (first, All-cap_from P limit section_limit (suc n) (bump c.section_id counts) cs more)
      ])
    ]

All-add_neighbors :
    (P : RetrievalCandidate → Type 0) (limit section_limit n : ℕ) (counts : List (ℕ × ℕ))
    (cs : List RetrievalCandidate)
    → All P cs
    → All P (add_neighbors limit section_limit n counts cs)
unfolding add_neighbors
All-add_neighbors P limit section_limit n counts [] h = tt
All-add_neighbors P limit section_limit n counts (c ∷ cs) (first, more) =
    elim (Bool-cases (leb limit n)) [
      | inl full ↦ rw full tt
      | inr room ↦ rw room (elim (Bool-cases (leb section_limit (count_of c.section_id counts))) [
        | inl e ↦ rw e (All-add_neighbors P limit section_limit n counts cs more)
        | inr e ↦ rw e (
          first,
          All-add_neighbors P limit section_limit (suc n) (bump c.section_id counts) cs more,
        )
      ])
    ]

All-ranked_from :
    (s : Store) (scope : ResolvedScope) (rank : ℕ) (cs : List RetrievalCandidate)
    → All (IsVisible s scope) cs
    → All (IsVisible s scope) (ranked_from rank cs)
unfolding ranked_from
All-ranked_from s scope rank [] h = tt
All-ranked_from s scope rank (c ∷ cs) (first, more) = (
  record {
    tenant = first.tenant;
    version = first.version;
    present = first.present;
    stored = first.stored;
  },
  All-ranked_from s scope (suc rank) cs more,
)

abbrev IsVisibleNeighbor : Store → ResolvedScope → Neighbor → Type 0
IsVisibleNeighbor s scope n = IsVisible s scope n.candidate

All-neighbor_of_root :
    (s : Store) (scope : ResolvedScope) (ranks : List ℕ) (r : HydratedChunk)
    (o : Option RetrievalCandidate) (rest : List Neighbor)
    → IsJoined s scope r
    → All (IsVisibleNeighbor s scope) rest
    → All (IsVisibleNeighbor s scope) (neighbor_of_root ranks r o rest)
unfolding neighbor_of_root
All-neighbor_of_root s scope ranks r none rest j more = more
All-neighbor_of_root s scope ranks r (some root) rest j more =
    (joined-IsVisible s scope r _ 0 true (some root.chunk_id) j, more)

All-neighbors_of :
    (s : Store) (scope : ResolvedScope) (radius : ℕ) (roots : List RetrievalCandidate)
    (rs : List HydratedChunk)
    → All (IsJoined s scope) rs
    → All (IsVisibleNeighbor s scope) (neighbors_of radius roots rs)
unfolding neighbors_of
All-neighbors_of s scope radius roots [] h = tt
All-neighbors_of s scope radius roots (r ∷ rs) (first, more) =
    All-neighbor_of_root s scope _ r (nearest _ radius r.chunk roots) _ first
      (All-neighbors_of s scope radius roots rs more)

All-candidates :
    (s : Store) (scope : ResolvedScope) (ns : List Neighbor)
    → All (IsVisibleNeighbor s scope) ns
    → All (IsVisible s scope) (map (λ n. n.candidate) ns)
All-candidates s scope [] h = tt
All-candidates s scope (n ∷ ns) (first, more) = (first, All-candidates s scope ns more)

All-load_neighbors :
    (s : Store) (scope : ResolvedScope) (roots : List RetrievalCandidate) (radius : ℕ)
    (excluded : List ℕ)
    → All
        (IsVisible s scope)
        (load_neighbors s scope.tenant_id scope.version_ids roots radius excluded)
unfolding load_neighbors
All-load_neighbors s scope roots radius excluded = All-candidates s scope _ (
    All-sort_by neighbor_before (IsVisibleNeighbor s scope) _ (
      All-neighbors_of s scope radius roots _
        (All-joined s scope _ s.chunks (λ c h. ground (arith, h)) (each_is_element s.chunks))))

All-choose :
    (l : Limits) (s : Store) (scope : ResolvedScope) (excluded : List ℕ)
    (ranked : List RetrievalCandidate)
    → All (IsVisible s scope) ranked
    → All (IsVisible s scope) (choose l s scope excluded ranked)
unfolding choose with_neighbors cap_sections
All-choose l s scope excluded [] h = tt
All-choose l s scope excluded (c ∷ cs) h =
    let ranked = c ∷ cs in
    let primaries =
      cap_sections ranked (max 1 (l.pool_limit - reserve l (length ranked)))
        l.section_chunk_limit in
    let capped : All (IsVisible s scope) primaries =
      All-cap_from (IsVisible s scope) _ _ 0 [] ranked h in
    elim (Bool-cases (nat_eq l.neighbor_radius 0 || leb l.pool_limit (length primaries))) [
      | inl full ↦ rw full (All-ranked_from s scope 1 primaries capped)
      | inr room ↦ rw room (
          All-ranked_from s scope 1 _ (
            All-append (IsVisible s scope) primaries _ capped (
              All-add_neighbors (IsVisible s scope) _ _ _ _ _
                (All-load_neighbors s scope primaries l.neighbor_radius excluded))))
    ]

-- Every chunk that a search returns, a neighbour too, is stored with its document and version, belongs to the
-- tenant of the scope and to a version in the scope, and its document is in the store under that tenant and not deleted, whatever the search
-- service has answered.
pub retrieve-IsVisible :
    (ops : FusionOps) (l : Limits) (s : Store) (scope : ResolvedScope) (branches : BranchResults)
    (exact_terms : List Text)
    → All (IsVisible s scope) (retrieve ops l s scope branches exact_terms)
unfolding retrieve rank_hydrated
retrieve-IsVisible ops l s scope branches exact_terms =
    All-choose l s scope _ _ (All-candidates_from s scope 1 _ _ _ (hydrated-IsJoined s scope _))
