-- ===== src/Ingest/Jobs/Finish.antt =====
-- The transactions of backend/app/ingest/jobs.py that end a job: `_mark_ready`, `_activate` and
-- `_mark_failed`.
use etoeragcb.Base.{
  ℕ, ◌+◌, Bool, false, Option, none, some, List, [], ◌∷◌, take, ltb, nat_eq, if◌then◌else◌,
}
use etoeragcb.Base.Text.{Text, codes, strip}
use etoeragcb.Base.Table.{having, set_row}
use etoeragcb.Base.Result.{Result, ok, ◌>>=◌, ◌>>◌, raise_if}
use etoeragcb.Ingest.Tables.{
  Tenant, Document, ready, active, failed, superseded, DocumentVersion, live, abandoned,
  IndexGeneration, ManifestRow, succeeded, stopped, IngestionJob, Store, same_option, is_null,
  is_live, is_preparing, has_succeeded,
}
use etoeragcb.Ingest.Jobs.{
  JobError, no_job, no_version, no_document, disappeared, disappeared_before_validation,
  disappeared_before_activation, deleted, newer_active, service, job_row, version_row, document_row,
  tenant_row, generation_row, need, fill_manifest, clear_manifest,
}

-- `_mark_ready`.
unfoldable pub mark_ready : Store → ℕ → ℕ → ℕ → Result JobError Store
unfolding need
mark_ready s now job_id version_id = do
  version ← need disappeared_before_validation (version_row version_id s)
  job ← need disappeared_before_validation (job_row job_id s)
  ok (
      if has_succeeded job.status then s else record s {
        versions = set_row (λ r. r.id) version.id (λ r. record r { status = ready }) s.versions;
        jobs = set_row (λ r. r.id) job.id (λ r. record r { heartbeat_at = some now }) s.jobs;
      })

-- The number of the active version of a document, where that is another version than the one given.
unfoldable pub other_active_number : Document → DocumentVersion → Store → Option ℕ
other_active_number document version s = elim document.active_version_id [
  | none ↦ none
  | some id ↦
      if nat_eq id version.id
      then none
      else elim (version_row id s) [ none ↦ none | some other ↦ some other.version ]
]

unfoldable pub is_newer : Option ℕ → ℕ → Bool
is_newer none number = false
is_newer (some other) number = ltb number other

-- The manifest is made again where another generation was activated in the meantime.
unfoldable pub refresh_manifest :
    Tenant → Document → DocumentVersion → IndexGeneration → List ManifestRow → List ManifestRow
unfolding fill_manifest clear_manifest
refresh_manifest tenant document version generation rows =
    if same_option generation.parent_generation_id tenant.active_index_generation_id
    then rows
    else fill_manifest tenant generation.id tenant.id document.id version.id
        (clear_manifest generation.id rows)

-- The previous version of the document gives way.
unfoldable pub supersede : Option ℕ → ℕ → List DocumentVersion → List DocumentVersion
supersede none version_id rows = rows
supersede (some previous) version_id rows =
    if nat_eq previous version_id
    then rows
    else set_row (λ r. r.id) previous (λ r. record r { status = superseded }) rows

-- The writes of `_activate`.
unfoldable pub switch :
    Store → ℕ → Tenant → Document → DocumentVersion → IndexGeneration → IngestionJob → Store
unfolding refresh_manifest supersede
switch s now tenant document version generation job =
    let revision = tenant.retrieval_revision + 1 in
    record s {
      manifest = refresh_manifest tenant document version generation s.manifest;
      versions =
          set_row (λ r. r.id) version.id
            (λ r. record r { status = active; activated_at = some now })
            (supersede document.active_version_id version.id s.versions);
      generations =
          set_row (λ r. r.id) generation.id
            (λ r. record r {
              parent_generation_id = tenant.active_index_generation_id;
              status = live;
              retrieval_revision = revision;
              activated_at = some now;
            })
            s.generations;
      documents =
          set_row (λ r. r.id) document.id (λ r. record r { active_version_id = some version.id })
            s.documents;
      tenants =
          set_row (λ r. r.id) tenant.id
            (λ r. record r {
              active_index_generation_id = some generation.id;
              retrieval_revision = revision;
            })
            s.tenants;
      jobs =
          set_row (λ r. r.id) job.id
            (λ r. record r { status = succeeded; heartbeat_at = some now; error = none }) s.jobs;
    }

-- The tests of `_activate` on the tenant and the document of a job that has not succeeded yet.
unfoldable pub activate_open :
    Store → ℕ → DocumentVersion → IndexGeneration → IngestionJob → Result JobError Store
unfolding need other_active_number is_newer switch
activate_open s now version generation job = do
  tenant ← need deleted (tenant_row version.tenant_id s)
  document ←
      need deleted
        (having (λ r. is_null r.deleted_at) (document_row version.document_id version.tenant_id s))
  raise_if (is_newer (other_active_number document version s) version.version) newer_active
  ok (switch s now tenant document version generation job)

-- `_activate`.
unfoldable pub activate : Store → ℕ → ℕ → ℕ → ℕ → Result JobError Store
unfolding need activate_open
activate s now job_id version_id generation_id = do
  version ← need disappeared_before_activation (version_row version_id s)
  generation ← need disappeared_before_activation (generation_row generation_id s)
  job ← need disappeared_before_activation (job_row job_id s)
  if has_succeeded job.status then ok s else activate_open s now version generation job

-- `str(exc).strip()[:1000] or type(exc).__name__`.
unfoldable pub detail_of : JobError → Text
detail_of no_job = codes "ingestion job does not exist"
detail_of no_version = codes "document version does not exist"
detail_of no_document = codes "document does not exist"
detail_of disappeared = codes "ingestion state disappeared"
detail_of disappeared_before_validation = codes "ingestion state disappeared before validation"
detail_of disappeared_before_activation = codes "ingestion state disappeared before activation"
detail_of deleted = codes "document was deleted before activation"
detail_of newer_active = codes "a newer document version is already active"
detail_of (service name message) = elim (take 1000 (strip message)) [
  | [] ↦ name
  | c ∷ rest ↦ c ∷ rest
]

-- The generation of a failed version, where it is not active yet.
unfoldable pub abandon : Option ℕ → List IndexGeneration → List IndexGeneration
abandon none gs = gs
abandon (some id) gs =
    set_row (λ r. r.id) id
      (λ g. if is_preparing g.status then record g { status = abandoned } else g) gs

unfoldable pub fail_version : Text → Option DocumentVersion → Store → Store
unfolding abandon
fail_version detail none s = s
fail_version detail (some version) s = if is_live version.status then s else record s {
  versions =
      set_row (λ r. r.id) version.id
        (λ r. record r {
          status = failed;
          error_code = some (codes "INGESTION_FAILED");
          error_detail = some detail;
        })
        s.versions;
  generations = abandon version.index_generation_id s.generations;
}

-- The writes of `_mark_failed`, for the job that was found.
unfoldable pub stop_job : ℕ → JobError → Option IngestionJob → Store → Store
unfolding detail_of fail_version
stop_job now e none s = s
stop_job now e (some job) s =
    if has_succeeded job.status
    then s
    else fail_version (detail_of e) (version_row job.document_version_id s) (record s {
      jobs =
          set_row (λ r. r.id) job.id
            (λ r. record r {
              status = stopped;
              error = some (detail_of e);
              heartbeat_at = some now;
            })
            s.jobs;
    })

-- `_mark_failed`.
unfoldable pub mark_failed : Store → ℕ → ℕ → JobError → Store
unfolding stop_job
mark_failed s now job_id e = stop_job now e (job_row job_id s) s
