-- ===== src/Rag/Retriever.antt =====
-- backend/app/rag/retriever.py: the fusion of the two branches of a search and the ranking of its chunks.
-- `add` and `rrf` are the sum of two doubles and `1.0 / (k + rank)`; `normalize_lexical`, which calls a
-- Unicode library, is a parameter too. A score is a multiple of 2^-1074.
pub mod Fusion
pub mod Hydration
pub mod Selection
pub mod Bounds
pub mod Scope
pub mod Visibility
pub mod Deletion
pub mod Samples
mod Tests
use etoeragcb.Base.{
  ℕ, suc, ◌+◌, Bool, true, false, ◌&&◌, ◌||◌, Option, none, some, List, [], ◌∷◌, map, length, min,
  ltb, leb, nat_eq, nat_keys, if◌then◌else◌,
}
use etoeragcb.Base.Text.{Text, starts_with, text_leb, uuid_text}
use etoeragcb.Base.Float.{Signed}
use etoeragcb.Base.Sort.{sort_by}
use etoeragcb.Base.Dict.{get, set}
use etoeragcb.Base.Counter.{contains}
use etoeragcb.Ingest.Chunker.{BuiltChunk}
use etoeragcb.Ingest.Tables.{Stored, BuiltSection, Document}
use etoeragcb.Rag.Records.{RetrievalCandidate}
use etoeragcb.Rag.Scope.{HintTarget, HintBoost, HintTarget, whole_document, one_section}

pub record BranchHit : Type 0 where
  pub chunk_id : ℕ
  pub score : Signed

pub record BranchResults : Type 0 where
  pub dense : List BranchHit
  pub sparse : List BranchHit

pub record Evidence : Type 0 where
  pub fusion_score : ℕ
  pub dense_rank : Option ℕ
  pub dense_score : Option Signed
  pub sparse_rank : Option ℕ
  pub sparse_score : Option Signed
  pub exact_rank : Option ℕ
  pub hint_rank : Option ℕ
  pub matched_exact_terms : List Text
  pub matched_hints : List Text

-- `_Evidence()`.
abbrev pub no_evidence : Evidence
no_evidence = record {
  fusion_score = 0;
  dense_rank = none;
  dense_score = none;
  sparse_rank = none;
  sparse_score = none;
  exact_rank = none;
  hint_rank = none;
  matched_exact_terms = [];
  matched_hints = [];
}

pub record HydratedChunk : Type 0 where
  pub chunk : Stored BuiltChunk
  pub section : Stored BuiltSection
  pub document : Document

pub record FusionOps : Type 0 where
  pub add : ℕ → ℕ → ℕ
  pub rrf : ℕ → ℕ → ℕ
  pub normalize_lexical : Text → Text

abbrev pub or_empty : Option Evidence → Evidence
or_empty none = no_evidence
or_empty (some e) = e

-- `result.setdefault(chunk_id, _Evidence())`, read.
abbrev pub evidence_of : ℕ → List (ℕ × Evidence) → Evidence
evidence_of id evidence = or_empty (get id evidence)

-- `needle in text` with the place that `find` gives; the second argument is the place of the text's start.
unfoldable pub find_from : Text → ℕ → Text → Option ℕ
find_from needle at [] = if starts_with [] needle then some at else none
find_from needle at (c ∷ text) =
    let rest = find_from needle (suc at) text in
    if starts_with (c ∷ text) needle then some at else rest

-- `base_order.index(id)`.
unfoldable pub index_of : ℕ → List ℕ → ℕ
index_of id [] = 0
index_of id (x ∷ xs) = let rest = index_of id xs in if nat_eq x id then 0 else suc rest

-- `sorted(..., key=(-fusion_score, str(item)))`.
unfoldable pub scored_before : List (ℕ × Evidence) → ℕ → ℕ → Bool
scored_before evidence a b =
    let x = (evidence_of a evidence).fusion_score in
    let y = (evidence_of b evidence).fusion_score in
    ltb y x || (nat_eq x y && text_leb (uuid_text a) (uuid_text b))

abbrev is_some : {A : Type 0} → Option A → Bool
is_some none = false
is_some (some a) = true

-- The terms that a text contains, as they were written.
unfoldable pub terms_in : List (Text × Text) → Text → List Text
unfolding find_from
terms_in [] text = []
terms_in ((original, normalized) ∷ terms) text =
    let rest = terms_in terms text in
    if is_some (find_from normalized 0 text) then original ∷ rest else rest

abbrev smaller : Option ℕ → Option ℕ → Option ℕ
smaller none b = b
smaller (some a) none = some a
smaller (some a) (some b) = some (min a b)

-- The first place of a term in a text, where one is contained.
unfoldable pub first_position : List (Text × Text) → Text → Option ℕ
unfolding find_from
first_position [] text = none
first_position ((original, normalized) ∷ terms) text =
    smaller (find_from normalized 0 text) (first_position terms text)

unfoldable pub is_boosted : HintTarget → List ℕ → Stored BuiltChunk → Bool
is_boosted whole_document ids chunk = contains chunk.document_id ids
is_boosted one_section ids chunk = contains chunk.row.section_id ids

unfoldable pub hints_on : List HintBoost → Stored BuiltChunk → List Text
unfolding is_boosted
hints_on [] chunk = []
hints_on (boost ∷ boosts) chunk =
    let rest = hints_on boosts chunk in
    if is_boosted boost.target boost.target_ids chunk then boost.hint ∷ rest else rest

-- A chunk that matched: its identifier, how many terms or hints did, and the first place of a term.
pub record Match : Type 0 where
  pub chunk_id : ℕ
  pub count : ℕ
  pub position : ℕ

unfoldable pub matched_before : List ℕ → Match → Match → Bool
unfolding index_of
matched_before base_order a b =
    ltb b.count a.count
    || (nat_eq a.count b.count
        && (ltb a.position b.position
            || (nat_eq a.position b.position
                && leb (index_of a.chunk_id base_order) (index_of b.chunk_id base_order))))

module _ (ops : FusionOps) where
  unfoldable pub fuse_dense : ℕ → ℕ → List BranchHit → List (ℕ × Evidence) → List (ℕ × Evidence)
  fuse_dense k rank [] evidence = evidence
  fuse_dense k rank (hit ∷ hits) evidence =
      let e = evidence_of hit.chunk_id evidence in
      fuse_dense k (suc rank) hits (
        set hit.chunk_id
          (record e {
            dense_rank = some rank;
            dense_score = some hit.score;
            fusion_score = ops.add e.fusion_score (ops.rrf k rank);
          })
          evidence)

  unfoldable pub fuse_sparse : ℕ → ℕ → List BranchHit → List (ℕ × Evidence) → List (ℕ × Evidence)
  fuse_sparse k rank [] evidence = evidence
  fuse_sparse k rank (hit ∷ hits) evidence =
      let e = evidence_of hit.chunk_id evidence in
      fuse_sparse k (suc rank) hits (
        set hit.chunk_id
          (record e {
            sparse_rank = some rank;
            sparse_score = some hit.score;
            fusion_score = ops.add e.fusion_score (ops.rrf k rank);
          })
          evidence)

  -- `_fuse_branches`.
  unfoldable pub fuse_branches : BranchResults → ℕ → List (ℕ × Evidence)
  unfolding fuse_dense fuse_sparse
  fuse_branches branches k = fuse_sparse k 1 branches.sparse (fuse_dense k 1 branches.dense [])

  unfoldable pub normalized_terms : List Text → List (Text × Text)
  normalized_terms [] = []
  normalized_terms (term ∷ terms) =
      let rest = normalized_terms terms in
      elim (ops.normalize_lexical term) [
        | [] ↦ rest
        | c ∷ normalized ↦ (term, c ∷ normalized) ∷ rest
      ]

  unfoldable pub rank_exact : ℕ → ℕ → List Match → List (ℕ × Evidence) → List (ℕ × Evidence)
  rank_exact k rank [] evidence = evidence
  rank_exact k rank (m ∷ ms) evidence =
      let e = evidence_of m.chunk_id evidence in
      rank_exact k (suc rank) ms (
        set m.chunk_id
          (record e {
            exact_rank = some rank;
            fusion_score = ops.add e.fusion_score (ops.rrf k rank);
          })
          evidence)

  unfoldable pub rank_hints : ℕ → ℕ → List Match → List (ℕ × Evidence) → List (ℕ × Evidence)
  rank_hints k rank [] evidence = evidence
  rank_hints k rank (m ∷ ms) evidence =
      let e = evidence_of m.chunk_id evidence in
      rank_hints k (suc rank) ms (
        set m.chunk_id
          (record e {
            hint_rank = some rank;
            fusion_score = ops.add e.fusion_score (ops.rrf k rank);
          })
          evidence)
