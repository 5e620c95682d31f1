-- ===== src/Ingest/Sections/Growth.antt =====
-- Each round of the loops of `build_sections` keeps the tree and adds to it.
use etoeragcb.Base.{
  ℕ, suc, ◌≡◌, refl, ap, sym, ◌∙◌, subst, Option, none, some, List, [], ◌∷◌, ◌++◌, length, ltb,
  arith, Bool-cases, inl, inr, Any-append_right, append-nil, append_assoc, length-append,
}
use mathlib.Core.List.{map-append}
use etoeragcb.Base.Text.{Text}
use etoeragcb.Base.Dict.{get, set}
use etoeragcb.Ingest.Tables.{BuiltSection}
use etoeragcb.Ingest.Sections.{
  SectionCalls, SectionState, path_keys, new_section, visit_found, visit, walk,
}
use etoeragcb.Ingest.Sections.Tree.{
  Node, node_of, HasNode, IsUnder, IsTree, nodes, set_new, nodes-set, get_node, AllLevels,
  level_of_path, AllLevels-set,
}

pub record IsBuilt (st : SectionState) : Type 0 where
  pub tree : IsTree (nodes st.sections)
  pub counted : st.ordinal ≡ length (nodes st.sections)
  pub levels : AllLevels st.sections

-- The state after a section was visited, which a block or the next part of a path goes under.
pub record IsVisited (st : SectionState) (level : ℕ) (v : SectionState × ℕ) : Type 0 where
  pub built : IsBuilt v.0
  pub node : HasNode v.1 level (nodes v.0.sections)
  pub more : List Node
  pub extends : nodes v.0.sections ≡ nodes st.sections ++ more

-- A section that is updated without a change to its node.
updated :
    (st : SectionState) (path : List Text) (s t : BuiltSection)
    → IsBuilt st
    → get path st.sections ≡ some s
    → node_of t ≡ node_of s
    → t.level ≡ s.level
    → IsVisited st (length path) (record st { sections = set path t st.sections }, s.id)
updated st path s t built h e same =
    let level = level_of_path path s st.sections built.levels h in
    let kept = nodes-set path s t st.sections h e in
    record {
      built = record {
        tree = rw kept built.tree;
        counted = rw kept built.counted;
        levels = AllLevels-set path t st.sections built.levels (same ∙ level);
      };
      node = rw (kept, sym level) (get_node path s st.sections h);
      more = [];
      extends = kept ∙ sym (append-nil (nodes st.sections));
    }

module _ (calls : SectionCalls) (version_id : ℕ) where
  visit_found-IsVisited :
      (o : Option BuiltSection) (path : List Text) (part : Text) (parent : Option ℕ) (page : ℕ)
      (st : SectionState)
      → get path st.sections ≡ o
      → IsBuilt st
      → IsUnder parent (length path) (nodes st.sections)
      → IsVisited st (length path) (visit_found calls version_id o path part parent page st)
  unfolding visit_found new_section
  visit_found-IsVisited none path part parent page st h built under =
      let s = new_section calls version_id path part parent st.ordinal page in
      let grows : nodes (set path s st.sections) ≡ nodes st.sections ++ node_of s ∷ [] =
        ap nodes (set_new path s st.sections h) ∙ map-append _ st.sections ((path, s) ∷ []) in
      record {
        built = record {
          tree =
              IsTree.grown (nodes st.sections) _ (node_of s) built.tree built.counted under grows;
          counted =
              rw grows
                (ground (arith, built.counted, length-append (nodes st.sections) (node_of s ∷ [])));
          levels = AllLevels-set path s st.sections built.levels refl;
        };
        node =
            rw grows (Any-append_right _ (nodes st.sections) (node_of s ∷ []) (inl (refl, refl)));
        more = node_of s ∷ [];
        extends = grows;
      }
  visit_found-IsVisited (some s) path part parent page st h built under =
      elim (Bool-cases (ltb s.page_end page)) [
        | inl e ↦ rw e (updated st path s (record s { page_end = page }) built h refl refl)
        | inr e ↦ rw e (record {
          built = built;
          node =
              rw (sym (level_of_path path s st.sections built.levels h))
                (get_node path s st.sections h);
          more = [];
          extends = sym (append-nil (nodes st.sections));
        })
      ]

  visit-IsVisited :
      (above : List Text) (part : Text) (parent : Option ℕ) (page : ℕ) (st : SectionState)
      → IsBuilt st
      → IsUnder parent (suc (length above)) (nodes st.sections)
      → IsVisited st (suc (length above)) (visit calls version_id above part parent page st)
  unfolding visit
  visit-IsVisited above part parent page st built under =
      let size : length (above ++ part ∷ []) ≡ suc (length above) =
        length-append above (part ∷ []) ∙ omega arith in
      subst (λ n. IsVisited st n (visit calls version_id above part parent page st)) size
        (visit_found-IsVisited (get (above ++ part ∷ []) st.sections) (above ++ part ∷ []) part
          parent page st refl built (rw size under))

  then-IsVisited :
      (st : SectionState) (v w : SectionState × ℕ) (n m : ℕ)
      → IsVisited st n v
      → IsVisited v.0 m w
      → IsVisited st m w
  then-IsVisited st v w n m first second = record {
    built = second.built;
    node = second.node;
    more = first.more ++ second.more;
    extends =
        second.extends
        ∙ ap (λ z. z ++ second.more) first.extends
        ∙ append_assoc (nodes st.sections) first.more second.more;
  }

  pub walk-IsVisited :
      (above : List Text) (part : Text) (parts : List Text) (parent : Option ℕ) (page : ℕ)
      (st : SectionState)
      → IsBuilt st
      → IsUnder parent (suc (length above)) (nodes st.sections)
      → (n : ℕ) × IsVisited st n (walk calls version_id above part parts parent page st)
  unfolding walk
  walk-IsVisited above part [] parent page st built under =
      (suc (length above), visit-IsVisited above part parent page st built under)
  walk-IsVisited above part (next ∷ parts) parent page st built under =
      let first = visit-IsVisited above part parent page st built under in
      let size : length (above ++ part ∷ []) ≡ suc (length above) =
        length-append above (part ∷ []) ∙ omega arith in
      let (n, rest) =
        walk-IsVisited (above ++ part ∷ []) next parts _ page _ first.built
          (suc (length above), ap suc size, first.node) in
      (n, then-IsVisited st _ _ _ n first rest)
