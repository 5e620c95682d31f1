-- ===== src/Ingest/Jobs/Samples.antt =====
-- A store with a tenant, a document with an active version, and a second version whose job waits.
use etoeragcb.Base.{ℕ, none, some, [], ◌∷◌}
use etoeragcb.Base.Text.{codes}
use etoeragcb.Ingest.Tables.{
  Tenant, Document, VersionStatus, staged, active, DocumentVersion, live, IndexGeneration,
  ManifestRow, queued, IngestionJob, Store,
}

abbrev pub tenant : Tenant
tenant = record { id = 1; active_index_generation_id = some 10; retrieval_revision = 3 }

abbrev pub document : Document
document = record {
  id = 5;
  tenant_id = 1;
  title = codes "Guide";
  source_filename = codes "guide.pdf";
  active_version_id = some 50;
  deleted_at = none;
}

abbrev version_of : ℕ → ℕ → VersionStatus → DocumentVersion
version_of id number status = record {
  id = id;
  tenant_id = 1;
  document_id = 5;
  version = number;
  storage_key = codes "tenant/document/file";
  status = status;
  page_count = 0;
  section_count = 0;
  chunk_count = 0;
  index_generation_id = none;
  error_code = none;
  error_detail = none;
  created_at = 0;
  activated_at = none;
  garbage_collected_at = none;
}

abbrev pub first : DocumentVersion
first = version_of 50 1 active

abbrev pub second : DocumentVersion
second = version_of 51 2 staged

abbrev pub generation : IndexGeneration
generation = record {
  id = 10;
  tenant_id = 1;
  reason = codes "document_upload";
  changed_document_version_id = some 50;
  parent_generation_id = none;
  status = live;
  retrieval_revision = 3;
  activated_at = some 1;
}

abbrev pub job : IngestionJob
job = record {
  id = 7;
  tenant_id = 1;
  document_version_id = 51;
  status = queued;
  attempt = 0;
  heartbeat_at = none;
  error = none;
  created_at = 90;
}

abbrev row : ℕ → ℕ → ManifestRow
row document_id version_id = record {
  generation_id = 10;
  document_id = document_id;
  tenant_id = 1;
  document_version_id = version_id;
}

abbrev pub store : Store
store = record {
  tenants = tenant ∷ [];
  documents = document ∷ [];
  versions = first ∷ second ∷ [];
  sections = [];
  chunks = [];
  generations = generation ∷ [];
  manifest = row 5 50 ∷ row 6 60 ∷ [];
  jobs = job ∷ [];
  collections = record { document_id = 5; collection_id = 3; tenant_id = 1 } ∷ [];
}
