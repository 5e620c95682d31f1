-- ===== src/Rag/Retriever/Selection.antt =====
-- backend/app/rag/retriever.py: the cap on the chunks of a section, the neighbours of the chunks that
-- were chosen, and `retrieve`. The answer of the search service is an argument.
use etoeragcb.Base.{
  ℕ, suc, ◌+◌, ◌-◌, ◌/◌, min, max, Bool, true, false, ◌&&◌, ◌||◌, not, Option, none, some, List, [],
  ◌∷◌, ◌++◌, map, length, ltb, leb, nat_eq, nat_keys, if◌then◌else◌,
}
use etoeragcb.Base.Text.{Text, text_leb, uuid_text}
use etoeragcb.Base.Sort.{sort_by}
use etoeragcb.Base.Counter.{contains, count_of, bump}
use etoeragcb.Ingest.Chunker.{BuiltChunk}
use etoeragcb.Ingest.Tables.{Stored, Store}
use etoeragcb.Rag.Records.{RetrievalCandidate}
use etoeragcb.Rag.Retriever.{
  BranchResults, no_evidence, HydratedChunk, FusionOps, index_of, fuse_branches,
}
use etoeragcb.Rag.Retriever.Hydration.{
  joined, is_in_scope, hydrate_chunks, candidate_from_record, keys_of, rank_hydrated,
}
use etoeragcb.Rag.Scope.{ResolvedScope}

-- The loop of `_cap_sections`, with the number selected so far and the counts of the sections.
unfoldable pub cap_from :
    ℕ → ℕ → ℕ → List (ℕ × ℕ) → List RetrievalCandidate → List RetrievalCandidate
cap_from limit section_limit n counts [] = []
cap_from limit section_limit n counts (c ∷ cs) =
    let skipped = leb section_limit (count_of c.section_id counts) in
    let rest =
      cap_from limit section_limit (if skipped then n else suc n)
        (if skipped then counts else bump c.section_id counts) cs in
    if skipped then rest else (c ∷ (if nat_eq (suc n) limit then [] else rest))

-- `_cap_sections`.
unfoldable pub cap_sections : List RetrievalCandidate → ℕ → ℕ → List RetrievalCandidate
unfolding cap_from
cap_sections candidates limit section_limit = cap_from limit section_limit 0 [] candidates

-- `abs(a - b)`.
abbrev distance : ℕ → ℕ → ℕ
distance a b = (a - b) + (b - a)

unfoldable pub is_near : ℕ → Stored BuiltChunk → RetrievalCandidate → Bool
is_near radius c root =
    nat_eq root.section_id c.row.section_id
    && leb (distance root.chunk_index c.row.chunk_index) radius

-- The nearer of a root and the best of those behind it; the first of two that are equal.
unfoldable pub closer :
    List ℕ
    → Stored BuiltChunk
    → Bool
    → RetrievalCandidate
    → Option RetrievalCandidate
    → Option RetrievalCandidate
unfolding index_of
closer ranks c false root other = other
closer ranks c true root none = some root
closer ranks c true root (some other) =
    let a = distance root.chunk_index c.row.chunk_index in
    let b = distance other.chunk_index c.row.chunk_index in
    if ltb a b || (nat_eq a b && leb (index_of root.chunk_id ranks) (index_of other.chunk_id ranks))
    then some root
    else some other

unfoldable pub nearest :
    List ℕ → ℕ → Stored BuiltChunk → List RetrievalCandidate → Option RetrievalCandidate
unfolding is_near closer
nearest ranks radius c [] = none
nearest ranks radius c (root ∷ roots) =
    closer ranks c (is_near radius c root) root (nearest ranks radius c roots)

-- The tuple that the neighbours are sorted by, with the candidate.
pub record Neighbor : Type 0 where
  pub root_rank : ℕ
  pub apart : ℕ
  pub candidate : RetrievalCandidate

unfoldable pub neighbor_before : Neighbor → Neighbor → Bool
neighbor_before a b =
    ltb a.root_rank b.root_rank
    || (nat_eq a.root_rank b.root_rank
        && (ltb a.apart b.apart
            || (nat_eq a.apart b.apart
                && (ltb a.candidate.chunk_index b.candidate.chunk_index
                    || (nat_eq a.candidate.chunk_index b.candidate.chunk_index
                        && text_leb (uuid_text a.candidate.chunk_id)
                            (uuid_text b.candidate.chunk_id))))))

-- A neighbour has the score and the hints of its root.
unfoldable pub neighbor_of_root :
    List ℕ → HydratedChunk → Option RetrievalCandidate → List Neighbor → List Neighbor
unfolding candidate_from_record index_of
neighbor_of_root ranks r none rest = rest
neighbor_of_root ranks r (some root) rest =
    record {
      root_rank = index_of root.chunk_id ranks;
      apart = distance root.chunk_index r.chunk.row.chunk_index;
      candidate =
          candidate_from_record r
            (record no_evidence {
              fusion_score = root.fusion_score;
              matched_hints = root.matched_hints;
            })
            0 true (some root.chunk_id);
    }
    ∷ rest

unfoldable pub neighbors_of : ℕ → List RetrievalCandidate → List HydratedChunk → List Neighbor
unfolding nearest neighbor_of_root
neighbors_of radius roots [] = []
neighbors_of radius roots (r ∷ rs) =
    let ranks = map (λ c. c.chunk_id) roots in
    neighbor_of_root ranks r (nearest ranks radius r.chunk roots) (neighbors_of radius roots rs)

unfoldable pub near_some : ℕ → List RetrievalCandidate → Stored BuiltChunk → Bool
unfolding is_near
near_some radius [] c = false
near_some radius (root ∷ roots) c = is_near radius c root || near_some radius roots c

-- `_load_neighbors`.
unfoldable pub load_neighbors :
    Store → ℕ → List ℕ → List RetrievalCandidate → ℕ → List ℕ → List RetrievalCandidate
unfolding joined is_in_scope near_some neighbors_of neighbor_before
load_neighbors s tenant_id version_ids roots radius excluded =
    map (λ n. n.candidate)
      (sort_by neighbor_before (
        neighbors_of radius roots (
          joined
            (λ c.
              (is_in_scope tenant_id version_ids c && not (contains c.row.id excluded))
              && near_some radius roots c)
            s s.chunks)))

-- The counts of `section_counts[candidate.section_id] += 1`.
unfoldable pub section_counts : List (ℕ × ℕ) → List RetrievalCandidate → List (ℕ × ℕ)
section_counts counts [] = counts
section_counts counts (c ∷ cs) = section_counts (bump c.section_id counts) cs

-- The loop that adds neighbours, with the number of chunks so far; the chunks that it adds.
unfoldable pub add_neighbors :
    ℕ → ℕ → ℕ → List (ℕ × ℕ) → List RetrievalCandidate → List RetrievalCandidate
add_neighbors pool_limit section_limit n counts [] = []
add_neighbors pool_limit section_limit n counts (c ∷ cs) =
    let skipped = leb section_limit (count_of c.section_id counts) in
    let rest =
      add_neighbors pool_limit section_limit (if skipped then n else suc n)
        (if skipped then counts else bump c.section_id counts) cs in
    if leb pool_limit n then [] else if skipped then rest else c ∷ rest

-- `candidate.model_copy(update={"rank": rank})` over `enumerate(..., 1)`.
unfoldable pub ranked_from : ℕ → List RetrievalCandidate → List RetrievalCandidate
ranked_from rank [] = []
ranked_from rank (c ∷ cs) = record c { rank = rank } ∷ ranked_from (suc rank) cs

-- What a retriever is made with.
pub record Limits : Type 0 where
  pub pool_limit : ℕ
  pub section_chunk_limit : ℕ
  pub neighbor_radius : ℕ
  pub rrf_k : ℕ

unfoldable pub reserve : Limits → ℕ → ℕ
reserve l count = if nat_eq l.neighbor_radius 0 then 0 else min (l.pool_limit / 4) count

-- The chunks that are chosen, and their neighbours behind them.
unfoldable pub with_neighbors :
    Limits → List RetrievalCandidate → List RetrievalCandidate → List RetrievalCandidate
unfolding section_counts add_neighbors
with_neighbors l primaries neighbors =
    primaries
    ++ add_neighbors l.pool_limit l.section_chunk_limit (length primaries)
        (section_counts [] primaries) neighbors

unfoldable pub choose :
    Limits → Store → ResolvedScope → List ℕ → List RetrievalCandidate → List RetrievalCandidate
unfolding reserve cap_sections load_neighbors with_neighbors ranked_from
choose l s scope excluded [] = []
choose l s scope excluded (c ∷ cs) =
    let ranked = c ∷ cs in
    let primaries =
      cap_sections ranked (max 1 (l.pool_limit - reserve l (length ranked)))
        l.section_chunk_limit in
    if nat_eq l.neighbor_radius 0 || leb l.pool_limit (length primaries)
    then ranked_from 1 primaries
    else ranked_from 1 (
        with_neighbors l primaries
          (load_neighbors s scope.tenant_id scope.version_ids primaries l.neighbor_radius excluded))

-- `retrieve`, after the search service has answered.
unfoldable pub retrieve :
    FusionOps → Limits → Store → ResolvedScope → BranchResults → List Text → List RetrievalCandidate
unfolding fuse_branches hydrate_chunks rank_hydrated choose
retrieve ops l s scope branches exact_terms =
    let evidence = fuse_branches ops branches l.rrf_k in
    let hydrated = hydrate_chunks s scope.tenant_id scope.version_ids (keys_of evidence) in
    choose l s scope (keys_of evidence)
      (rank_hydrated ops evidence hydrated exact_terms scope.boosts l.rrf_k)
