-- ===== src/Ingest/Tables.antt =====
-- The tables of backend/app/models that ingestion reads and writes, as lists of rows in one store. A
-- time is a number of seconds. Columns that no modelled statement reads or writes are left out.
use etoeragcb.Base.{ℕ, Bool, true, false, Option, none, some, List, nat_eq}
use etoeragcb.Base.Text.{Text}
use etoeragcb.Ingest.Chunker.{BuiltChunk}

pub record Tenant : Type 0 where
  pub id : ℕ
  pub active_index_generation_id : Option ℕ
  pub retrieval_revision : ℕ

pub record Document : Type 0 where
  pub id : ℕ
  pub tenant_id : ℕ
  pub title : Text
  pub source_filename : Text
  pub active_version_id : Option ℕ
  pub deleted_at : Option ℕ

pub data VersionStatus : Type 0 where
  staged processing ready active failed superseded : VersionStatus

pub record DocumentVersion : Type 0 where
  pub id : ℕ
  pub tenant_id : ℕ
  pub document_id : ℕ
  pub version : ℕ
  pub storage_key : Text
  pub status : VersionStatus
  pub page_count : ℕ
  pub section_count : ℕ
  pub chunk_count : ℕ
  pub index_generation_id : Option ℕ
  pub error_code : Option Text
  pub error_detail : Option Text
  pub created_at : ℕ
  pub activated_at : Option ℕ
  pub garbage_collected_at : Option ℕ

-- `source_metadata` is left out.
pub record BuiltSection : Type 0 where
  pub id : ℕ
  pub parent_id : Option ℕ
  pub ordinal : ℕ
  pub level : ℕ
  pub heading_original : Text
  pub heading_lexical : Text
  pub page_start : ℕ
  pub page_end : ℕ
  pub path_original : Text
  pub path_lexical : Text

-- The three columns that a stored section or chunk has besides those of what was built.
pub record Stored (A : Type 0) : Type 0 where
  pub tenant_id : ℕ
  pub document_id : ℕ
  pub document_version_id : ℕ
  pub row : A

pub data GenerationStatus : Type 0 where
  preparing live abandoned : GenerationStatus

pub record IndexGeneration : Type 0 where
  pub id : ℕ
  pub tenant_id : ℕ
  pub reason : Text
  pub changed_document_version_id : Option ℕ
  pub parent_generation_id : Option ℕ
  pub status : GenerationStatus
  pub retrieval_revision : ℕ
  pub activated_at : Option ℕ

-- `IndexGenerationDocument`: a document and its version in the manifest of a generation.
pub record ManifestRow : Type 0 where
  pub generation_id : ℕ
  pub document_id : ℕ
  pub tenant_id : ℕ
  pub document_version_id : ℕ

pub data JobStatus : Type 0 where
  waiting queued running succeeded stopped : JobStatus

pub record IngestionJob : Type 0 where
  pub id : ℕ
  pub tenant_id : ℕ
  pub document_version_id : ℕ
  pub status : JobStatus
  pub attempt : ℕ
  pub heartbeat_at : Option ℕ
  pub error : Option Text
  pub created_at : ℕ

pub record DocumentCollection : Type 0 where
  pub document_id : ℕ
  pub collection_id : ℕ
  pub tenant_id : ℕ

pub record Store : Type 0 where
  pub tenants : List Tenant
  pub documents : List Document
  pub versions : List DocumentVersion
  pub sections : List (Stored BuiltSection)
  pub chunks : List (Stored BuiltChunk)
  pub generations : List IndexGeneration
  pub manifest : List ManifestRow
  pub jobs : List IngestionJob
  pub collections : List DocumentCollection

abbrev pub same_option : Option ℕ → Option ℕ → Bool
same_option none none = true
same_option (some a) (some b) = nat_eq a b
same_option a b = false

abbrev pub is_null : Option ℕ → Bool
is_null none = true
is_null (some a) = false

abbrev pub is_live : VersionStatus → Bool
is_live active = true
is_live s = false

abbrev pub is_preparing : GenerationStatus → Bool
is_preparing preparing = true
is_preparing s = false

abbrev pub has_succeeded : JobStatus → Bool
has_succeeded succeeded = true
has_succeeded s = false

abbrev pub is_running : JobStatus → Bool
is_running running = true
is_running s = false
