-- ===== src/Rag/Scope.antt =====
-- backend/app/rag/scope.py: the documents, versions and sections that a question may be answered from.
-- A set is a list without repetition. `uuid.UUID` of a text, `normalize_lexical` and the ratio of
-- `SequenceMatcher` are parameters; a ratio is a multiple of 2^-1074. The log is left out.
pub mod Hints
pub mod Documents
pub mod Resolve
pub mod Safety
pub mod Allowed
pub mod Outcome
mod Tests
use etoeragcb.Base.{ℕ, ◌*◌, ◌^◌, Option, List}
use etoeragcb.Base.Text.{Text}

pub data HintKind : Type 0 where
  document_hint collection_hint heading_hint : HintKind

pub data ResolutionKind : Type 0 where
  explicit_scope exact_scope ambiguous_boost fuzzy_boost no_match : ResolutionKind

pub record HintDecision : Type 0 where
  pub kind : HintKind
  pub hint : Text
  pub resolution : ResolutionKind
  pub matched_ids : List ℕ
  pub expanded_section_count : ℕ

pub data HintTarget : Type 0 where
  whole_document one_section : HintTarget

pub record HintBoost : Type 0 where
  pub hint : Text
  pub target : HintTarget
  pub target_ids : List ℕ

pub record ResolvedScope : Type 0 where
  pub tenant_id : ℕ
  pub generation_id : Option ℕ
  pub retrieval_revision : ℕ
  pub document_ids : List ℕ
  pub version_ids : List ℕ
  pub section_ids : Option (List ℕ)
  pub decisions : List HintDecision
  pub boosts : List HintBoost

-- `ScopeValidationError("scope not found")`.
pub data ScopeValidationError : Type 0 where
  scope_not_found : ScopeValidationError

-- What `resolve` reads of a `RetrievalPlan`.
pub record PlanHints : Type 0 where
  pub document_hints : List Text
  pub collection_hints : List Text
  pub heading_hints : List Text

-- A row of models/content.py that only this component reads.
pub record KnowledgeCollection : Type 0 where
  pub id : ℕ
  pub tenant_id : ℕ
  pub name : Text
  pub deleted_at : Option ℕ

pub record ScopeCalls : Type 0 where
  pub uuid_or_none : Text → Option ℕ
  pub normalize_lexical : Text → Text
  pub ratio : Text → Text → ℕ

-- An item of the dictionary `documents`: the version, title and source filename under a document.
pub record ActiveDocument : Type 0 where
  pub document_id : ℕ
  pub document_version_id : ℕ
  pub title : Text
  pub source_filename : Text

-- `FUZZY_HINT_MINIMUM`, the double nearest to 0.82.
unfoldable pub fuzzy_hint_minimum : ℕ
fuzzy_hint_minimum = 7385903388887613 * 2 ^ 1021
