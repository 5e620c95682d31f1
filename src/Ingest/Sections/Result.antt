-- ===== src/Ingest/Sections/Result.antt =====
-- What `build_sections` returns.
use etoeragcb.Base.{
  ℕ, zero, suc, ◌+◌, true, ◌≡◌, refl, ap, sym, ◌∙◌, none, List, [], ◌∷◌, ◌++◌, map, length, leb,
  arith, All, Any, Any-append_left, Any-map, append-nil, append_assoc, map-append_one,
  length-append, length-map, numbers_from,
}
use mathlib.Core.List.{head-eq_of_cons-eq, tail-eq_of_cons-eq}
use etoeragcb.Base.Sort.{sort_by, by_key}
use etoeragcb.Ingest.Chunker.{SectionedBlock}
use etoeragcb.Ingest.Tables.{BuiltSection}
use etoeragcb.Ingest.Sections.{
  ParsedBlock, SectionCalls, SectionState, walk, walk_all, raw_path, stripped, build_sections,
}
use etoeragcb.Ingest.Sections.Tree.{Node, node_of, IsTree, Entries, nodes}
use etoeragcb.Ingest.Sections.Growth.{IsBuilt, walk-IsVisited}

-- A block whose section is among those given.
abbrev pub IsPlaced : List Node → SectionedBlock → Type 0
IsPlaced ns b = Any (λ q. q.id ≡ b.section_id) ns

record IsWalked (st : SectionState) (r : SectionState × List SectionedBlock) : Type 0 where
  built : IsBuilt r.0
  placed : All (IsPlaced (nodes r.0.sections)) r.1
  more : List Node
  extends : nodes r.0.sections ≡ nodes st.sections ++ more

module _ (calls : SectionCalls) (version_id : ℕ) where
  walk_all-IsWalked :
      (blocks : List ParsedBlock) (st : SectionState)
      → IsBuilt st
      → IsWalked st (walk_all calls version_id blocks st)
  unfolding walk_all
  walk_all-IsWalked [] st built = record {
    built = built;
    placed = tt;
    more = [];
    extends = sym (append-nil (nodes st.sections));
  }
  walk_all-IsWalked (block ∷ blocks) st built =
      let path = raw_path (stripped block.heading_path) in
      let (n, v) =
        walk-IsVisited calls version_id [] path.0 path.1 none block.page_number st built refl in
      let rest =
        walk_all-IsWalked blocks
          (walk calls version_id [] path.0 path.1 none block.page_number st).0 v.built in
      record {
        built = rest.built;
        placed = (
          rw rest.extends (Any-append_left _ _ rest.more (Any-map (λ q h. h.0) _ v.node)),
          rest.placed,
        );
        more = v.more ++ rest.more;
        extends =
            rest.extends
            ∙ ap (λ z. z ++ rest.more) v.extends
            ∙ append_assoc (nodes st.sections) v.more rest.more;
      }

numbers_from-append :
    (start n : ℕ) → numbers_from start (suc n) ≡ numbers_from start n ++ (start + n) ∷ []
numbers_from-append start zero = ap (λ k. k ∷ []) (omega arith)
numbers_from-append start (suc n) =
    ap (λ z. start ∷ z)
      (numbers_from-append (suc start) n
        ∙ ap (λ k. numbers_from (suc start) n ++ k ∷ []) (omega arith))

ordinals-IsTree :
    (ns : List Node) → IsTree ns → map (λ q. q.ordinal) ns ≡ numbers_from 0 (length ns)
ordinals-IsTree ns (IsTree.empty other e) = rw e refl
ordinals-IsTree all (IsTree.grown ns more n tree place under e) =
    let size : length (ns ++ n ∷ []) ≡ suc (length ns) = length-append ns (n ∷ []) ∙ omega arith in
    rw (e, size)
      (map-append_one (λ q. q.ordinal) ns n
        ∙ ap (λ z. z ++ n.ordinal ∷ []) (ordinals-IsTree ns tree)
        ∙ ap (λ k. numbers_from 0 (length ns) ++ k ∷ []) (place ∙ omega arith)
        ∙ sym (numbers_from-append 0 (length ns)))

-- Sorting sections that are numbered in order changes nothing.
sort_by-numbers :
    (start : ℕ) (xs : List BuiltSection)
    → map (λ r. r.ordinal) xs ≡ numbers_from start (length xs)
    → sort_by (by_key (λ r. r.ordinal) leb) xs ≡ xs
unfolding sort_by
sort_by-numbers start [] h = refl
sort_by-numbers start (x ∷ []) h = refl
sort_by-numbers start (x ∷ y ∷ xs) h =
    let later : map (λ r. r.ordinal) (y ∷ xs) ≡ numbers_from (suc start) (length (y ∷ xs)) =
      tail-eq_of_cons-eq h in
    let first : x.ordinal ≡ start = head-eq_of_cons-eq h in
    let second : y.ordinal ≡ suc start = head-eq_of_cons-eq later in
    let le : leb x.ordinal y.ordinal ≡ true = ground arith in
    rw (sort_by-numbers (suc start) (y ∷ xs) later, le) refl

nodes_of_values : (d : Entries) → map node_of (map (λ p. p.1) d) ≡ nodes d
nodes_of_values [] = refl
nodes_of_values (p ∷ d) = ap (λ z. node_of p.1 ∷ z) (nodes_of_values d)

ordinals_of_nodes :
    (xs : List BuiltSection) → map (λ q. q.ordinal) (map node_of xs) ≡ map (λ r. r.ordinal) xs
ordinals_of_nodes [] = refl
ordinals_of_nodes (x ∷ xs) = ap (λ z. x.ordinal ∷ z) (ordinals_of_nodes xs)

-- Sections that are a tree, with blocks that lie in them.
pub record IsOutline (r : List BuiltSection × List SectionedBlock) : Type 0 where
  pub tree : IsTree (map node_of r.0)
  pub placed : All (IsPlaced (map node_of r.0)) r.1

-- The sections of any list of blocks are a tree: in the order in which they are returned they are
-- numbered 0, 1 and so on, each is on the first level or has its parent, one level above, before it, and
-- every block lies in one of them.
pub build_sections-IsOutline :
    (calls : SectionCalls) (version_id : ℕ) (blocks : List ParsedBlock)
    → IsOutline (build_sections calls version_id blocks)
unfolding build_sections
build_sections-IsOutline calls version_id blocks =
    let w =
      walk_all-IsWalked calls version_id blocks (record { sections = []; ordinal = 0 })
        (record { tree = IsTree.empty [] refl; counted = refl; levels = tt }) in
    let d = (walk_all calls version_id blocks (record { sections = []; ordinal = 0 })).0.sections in
    let same = nodes_of_values d in
    let ordinals : map (λ r. r.ordinal) (map (λ p. p.1) d)
        ≡ numbers_from 0 (length (map (λ p. p.1) d)) =
      sym (ordinals_of_nodes (map (λ p. p.1) d))
      ∙ ap (map (λ q. q.ordinal)) same
      ∙ ordinals-IsTree (nodes d) w.built.tree
      ∙ ap (numbers_from 0) (length-map _ d ∙ sym (length-map (λ p. p.1) d)) in
    let sorted = sort_by-numbers 0 (map (λ p. p.1) d) ordinals in
    record { tree = rw (sorted, same) w.built.tree; placed = rw (sorted, same) w.placed }
