-- ===== src/Ingest/Reconcile.antt =====
-- backend/app/ingest/reconcile.py: the jobs that are run again, the deletion of documents and the
-- collection of old versions, on the store of the ingestion jobs.
pub mod Retention
pub mod Tombstones
pub mod Queue
pub mod Garbage
pub mod Protection
pub mod Repetition
mod Tests
use etoeragcb.Base.{
  ℕ, ◌+◌, ◌-◌, Bool, true, false, not, ◌&&◌, ◌||◌, Option, none, some, List, [], ◌∷◌, ◌++◌, map,
  ltb, leb, nat_eq, nat_keys, if◌then◌else◌,
}
use etoeragcb.Base.Text.{codes}
use etoeragcb.Base.Sort.{sort_by}
use etoeragcb.Base.Counter.{contains}
use etoeragcb.Base.Table.{select_where, update_where, having, set_row}
use etoeragcb.Base.Result.{Result, ok, ◌>>=◌, raise}
use etoeragcb.Ingest.Tables.{
  Tenant, Document, VersionStatus, staged, processing, ready, active, failed, superseded,
  DocumentVersion, preparing, live, abandoned, IndexGeneration, ManifestRow, JobStatus, waiting,
  queued, running, succeeded, stopped, IngestionJob, Store, is_null, is_preparing,
}
use etoeragcb.Ingest.Jobs.{tenant_row, document_row, copy_manifest}

-- The jobs that are due: those that wait, and those whose worker has not been heard of for a while.
unfoldable pub is_due : ℕ → ℕ → IngestionJob → Bool
is_due stale_after now job = elim job.status [
  | waiting ↦ true
  | queued ↦ true
  | running ↦ elim job.heartbeat_at [ none ↦ true | some at ↦ ltb at (now - stale_after) ]
  | succeeded ↦ false
  | stopped ↦ false
]

-- `order_by(IngestionJob.created_at, IngestionJob.id)`.
unfoldable pub is_queued_before : IngestionJob → IngestionJob → Bool
is_queued_before a b =
    ltb a.created_at b.created_at || (nat_eq a.created_at b.created_at && leb a.id b.id)

unfoldable pub due_jobs : ℕ → ℕ → Store → List ℕ
unfolding is_due is_queued_before
due_jobs stale_after now s =
    map (λ j. j.id) (sort_by is_queued_before (select_where (is_due stale_after now) s.jobs))

-- The loop of `reconcile_ingestion_jobs` over a function that processes a job: the store after it, and
-- whether it returned. A job that raises is left out of the result.
unfoldable pub process_all : (ℕ → Store → Store × Bool) → List ℕ → Store → Store × List ℕ
process_all process [] s = (s, [])
process_all process (id ∷ ids) s =
    let after = process id s in
    let rest = process_all process ids after.0 in (rest.0, if after.1 then id ∷ rest.1 else rest.1)

-- `reconcile_ingestion_jobs`.
unfoldable pub reconcile_ingestion_jobs :
    (ℕ → Store → Store × Bool) → ℕ → ℕ → Store → Store × List ℕ
unfolding due_jobs process_all
reconcile_ingestion_jobs process stale_after now s =
    process_all process (due_jobs stale_after now s) s

-- `LookupError("document does not exist")`.
pub data LookupError : Type 0 where
  document_missing : LookupError

abbrev pub is_pending : VersionStatus → Bool
is_pending staged = true
is_pending processing = true
is_pending ready = true
is_pending s = false

unfoldable pub pending_version_ids : ℕ → ℕ → Store → List ℕ
pending_version_ids tenant_id document_id s =
    map (λ v. v.id)
      (select_where
        (λ v.
          nat_eq v.document_id document_id && (nat_eq v.tenant_id tenant_id && is_pending v.status))
        s.versions)

unfoldable pub changed_in : Option ℕ → List ℕ → Bool
changed_in none ids = false
changed_in (some id) ids = contains id ids

-- The versions that were not active yet fail, with their jobs and generations.
unfoldable pub cancel : List ℕ → Store → Store
unfolding changed_in
cancel ids s = record s {
  versions =
      update_where (λ v. contains v.id ids)
        (λ v. record v {
          status = failed;
          error_code = some (codes "DOCUMENT_DELETED");
          error_detail = some (codes "Document was deleted before activation");
        })
        s.versions;
  jobs =
      update_where (λ j. contains j.document_version_id ids)
        (λ j. record j {
          status = stopped;
          error = some (codes "Document was deleted before activation");
        })
        s.jobs;
  generations =
      update_where (λ g. changed_in g.changed_document_version_id ids && is_preparing g.status)
        (λ g. record g { status = abandoned }) s.generations;
}

-- The active version of the document gives way.
unfoldable pub retire : Option ℕ → List DocumentVersion → List DocumentVersion
retire none vs = vs
retire (some id) vs = set_row (λ v. v.id) id (λ v. record v { status = superseded }) vs

-- The generation without the document becomes the active one.
unfoldable pub bury : ℕ → ℕ → Tenant → Document → Store → Store
unfolding retire copy_manifest
bury now new_id tenant document s =
    let revision = tenant.retrieval_revision + 1 in
    record s {
      generations =
          s.generations
          ++ record {
            id = new_id;
            tenant_id = tenant.id;
            reason = codes "document_delete";
            changed_document_version_id = none;
            parent_generation_id = tenant.active_index_generation_id;
            status = live;
            retrieval_revision = revision;
            activated_at = some now;
          }
            ∷ [];
      manifest =
          copy_manifest tenant.active_index_generation_id new_id tenant.id document.id s.manifest;
      versions = retire document.active_version_id s.versions;
      documents =
          set_row (λ d. d.id) document.id
            (λ d. record d { deleted_at = some now; active_version_id = none }) s.documents;
      tenants =
          set_row (λ t. t.id) tenant.id
            (λ t. record t {
              active_index_generation_id = some new_id;
              retrieval_revision = revision;
            })
            s.tenants;
    }

unfoldable pub found : {A : Type 0} → Option A → Result LookupError A
found none = raise document_missing
found (some a) = ok a

-- `tombstone_document`: the store and the revision.
unfoldable pub tombstone_document : Store → ℕ → ℕ → ℕ → ℕ → Result LookupError (Store × ℕ)
unfolding found pending_version_ids cancel bury
tombstone_document s now new_id tenant_id document_id = do
  tenant ← found (tenant_row tenant_id s)
  document ← found (having (λ d. is_null d.deleted_at) (document_row document_id tenant_id s))
  ok (
    bury now new_id tenant document (cancel (pending_version_ids tenant_id document.id s) s),
    tenant.retrieval_revision + 1,
  )

-- The documents of a tenant that are not deleted, as the join of `active_manifest_version_ids` sees them.
unfoldable pub is_present : ℕ → ℕ → List Document → Bool
is_present document_id tenant_id [] = false
is_present document_id tenant_id (d ∷ ds) =
    (nat_eq d.id document_id && (nat_eq d.tenant_id tenant_id && is_null d.deleted_at))
    || is_present document_id tenant_id ds

unfoldable pub manifest_versions : Option ℕ → ℕ → Store → List ℕ
unfolding is_present
manifest_versions none tenant_id s = []
manifest_versions (some generation_id) tenant_id s =
    map (λ r. r.document_version_id)
      (sort_by (λ a b. leb a.document_id b.document_id)
        (select_where
          (λ r.
            (nat_eq r.generation_id generation_id && nat_eq r.tenant_id tenant_id)
            && is_present r.document_id r.tenant_id s.documents)
          s.manifest))

unfoldable pub tenant_versions : Option Tenant → ℕ → Store → List ℕ
unfolding manifest_versions
tenant_versions none tenant_id s = []
tenant_versions (some tenant) tenant_id s =
    manifest_versions tenant.active_index_generation_id tenant_id s

-- `active_manifest_version_ids`.
unfoldable pub active_manifest_version_ids : ℕ → Store → List ℕ
unfolding tenant_versions
active_manifest_version_ids tenant_id s = tenant_versions (tenant_row tenant_id s) tenant_id s
