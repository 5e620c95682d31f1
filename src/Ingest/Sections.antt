-- ===== src/Ingest/Sections.antt =====
-- backend/app/ingest/sections.py: the sections of a document from the heading paths of its blocks. The
-- normalization of text and `uuid.uuid5` of a version and a name are parameters. `source_metadata` is
-- left out.
pub mod Tree
pub mod Growth
pub mod Result
mod Tests
use etoeragcb.Base.{
  ℕ, zero, suc, ◌+◌, Bool, true, false, ◌&&◌, ◌≡◌, refl, Option, none, some, List, [], ◌∷◌, ◌++◌,
  map, length, ltb, leb, if◌then◌else◌, Keys, ◌↔◌, text_keys, arith,
}
use etoeragcb.Base.Text.{Text, codes, text_eq, text_eq_iff, strip, join}
use etoeragcb.Base.Sort.{sort_by, by_key}
use etoeragcb.Base.Dict.{get, set}
use etoeragcb.Ingest.Chunker.{SectionedBlock}
use etoeragcb.Ingest.Tables.{BuiltSection}

-- `ParsedBlock` of ingest/parsers.py, as far as it is read.
pub record ParsedBlock : Type 0 where
  pub text_original : Text
  pub page_number : ℕ
  pub heading_path : List Text

-- Two tuples of strings are equal.
unfoldable pub path_eq : List Text → List Text → Bool
path_eq [] [] = true
path_eq [] (y ∷ ys) = false
path_eq (x ∷ xs) [] = false
path_eq (x ∷ xs) (y ∷ ys) = text_eq x y && path_eq xs ys

pub path_eq_iff : (xs ys : List Text) → (path_eq xs ys ≡ true) ↔ (xs ≡ ys)
unfolding path_eq
path_eq_iff [] [] = ((λ e. refl), λ e. refl)
path_eq_iff [] (y ∷ ys) = ((λ e. cc), λ e. cc)
path_eq_iff (x ∷ xs) [] = ((λ e. cc), λ e. cc)
path_eq_iff (x ∷ xs) (y ∷ ys) = ground (arith, text_eq_iff x y, path_eq_iff xs ys)

instance abbrev pub path_keys : Keys (List Text)
path_keys = record { same = path_eq; same_iff = path_eq_iff }

pub record SectionCalls : Type 0 where
  pub normalize_lexical : Text → Text
  pub uuid5 : ℕ → Text → ℕ

unfoldable pub stripped : List Text → List Text
stripped [] = []
stripped (part ∷ parts) =
    let rest = stripped parts in elim (strip part) [ [] ↦ rest | c ∷ text ↦ (c ∷ text) ∷ rest ]

-- The path of a block, its first part and the others; `Document` where it has none.
unfoldable pub raw_path : List Text → Text × List Text
raw_path [] = (codes "Document", [])
raw_path (part ∷ parts) = (part, parts)

-- `sections_by_path` and `ordinal`.
pub record SectionState : Type 0 where
  pub sections : List (List Text × BuiltSection)
  pub ordinal : ℕ

module _ (calls : SectionCalls) (document_version_id : ℕ) where
  -- `uuid.uuid5(document_version_id, f"section:{'/'.join(path_lexical_parts)}")`.
  unfoldable pub section_id_of : List Text → ℕ
  section_id_of path =
      calls.uuid5 document_version_id
        (codes "section:" ++ join (codes "/") (map calls.normalize_lexical path))

  -- The section for a path, under a parent; the last argument but two is the last part of the path.
  unfoldable pub new_section : List Text → Text → Option ℕ → ℕ → ℕ → BuiltSection
  unfolding section_id_of
  new_section path part parent_id ordinal page_number = record {
    id = section_id_of path;
    parent_id = parent_id;
    ordinal = ordinal;
    level = length path;
    heading_original = part;
    heading_lexical = calls.normalize_lexical part;
    page_start = page_number;
    page_end = page_number;
    path_original = join (codes " / ") path;
    path_lexical = join (codes " / ") (map calls.normalize_lexical path);
  }

  -- The section that was there for a path or not, and its identifier.
  unfoldable pub visit_found :
      Option BuiltSection → List Text → Text → Option ℕ → ℕ → SectionState → SectionState × ℕ
  unfolding new_section
  visit_found none path part parent_id page_number st =
      let section = new_section path part parent_id st.ordinal page_number in
      (record { sections = set path section st.sections; ordinal = suc st.ordinal }, section.id)
  visit_found (some existing) path part parent_id page_number st = (
    if ltb existing.page_end page_number
        then record st {
          sections = set path (record existing { page_end = page_number }) st.sections;
        }
        else st,
    existing.id,
  )

  -- One round of the inner loop.
  unfoldable pub visit : List Text → Text → Option ℕ → ℕ → SectionState → SectionState × ℕ
  unfolding visit_found
  visit above part parent_id page_number st =
      let path = above ++ part ∷ [] in
      visit_found (get path st.sections) path part parent_id page_number st

  -- The inner loop, over the parts of a path from the one given on.
  unfoldable pub walk :
      List Text → Text → List Text → Option ℕ → ℕ → SectionState → SectionState × ℕ
  unfolding visit
  walk above part [] parent_id page_number st = visit above part parent_id page_number st
  walk above part (next ∷ parts) parent_id page_number st =
      let visited = visit above part parent_id page_number st in
      walk (above ++ part ∷ []) next parts (some visited.1) page_number visited.0

  -- The outer loop.
  unfoldable pub walk_all : List ParsedBlock → SectionState → SectionState × List SectionedBlock
  unfolding stripped raw_path walk
  walk_all [] st = (st, [])
  walk_all (block ∷ blocks) st =
      let path = raw_path (stripped block.heading_path) in
      let walked = walk [] path.0 path.1 none block.page_number st in
      let rest = walk_all blocks walked.0 in
      (
        rest.0,
        record {
          section_id = walked.1;
          page_number = block.page_number;
          text_original = block.text_original;
        }
            ∷ rest.1,
      )

  -- `build_sections`.
  unfoldable pub build_sections : List ParsedBlock → List BuiltSection × List SectionedBlock
  unfolding walk_all sort_by
  build_sections blocks =
      let walked = walk_all blocks (record { sections = []; ordinal = 0 }) in
      (sort_by (by_key (λ r. r.ordinal) leb) (map (λ p. p.1) walked.0.sections), walked.1)
