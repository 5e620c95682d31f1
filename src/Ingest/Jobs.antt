-- ===== src/Ingest/Jobs.antt =====
-- backend/app/ingest/jobs.py: the transactions of `IngestionPipeline`, each a function on the store.
-- `now` is the clock at the transaction.
pub mod Finish
pub mod Manifest
pub mod Activation
pub mod Preparation
pub mod Publication
pub mod Failure
pub mod Start
pub mod Samples
mod Tests
use etoeragcb.Base.{
  ℕ, suc, ◌+◌, ◌-◌, Bool, true, false, not, ◌&&◌, ◌||◌, Option, none, some, List, [], ◌∷◌, ◌++◌,
  map, length, leb, ltb, nat_eq, if◌then◌else◌,
}
use etoeragcb.Base.Text.{Text, codes}
use etoeragcb.Base.Table.{
  select_where, update_where, delete_where, having, first_row, get_row, set_row,
}
use etoeragcb.Base.Result.{Result, ok, raise, ◌>>=◌, ◌>>◌, raise_if}
use etoeragcb.Ingest.Chunker.{BuiltChunk}
use etoeragcb.Ingest.Tables.{
  Tenant, Document, VersionStatus, staged, processing, ready, active, failed, superseded,
  DocumentVersion, BuiltSection, Stored, GenerationStatus, preparing, live, abandoned,
  IndexGeneration, ManifestRow, JobStatus, waiting, queued, running, succeeded, stopped,
  IngestionJob, DocumentCollection, Store, same_option, is_null, is_live, is_preparing,
  has_succeeded, is_running,
}

-- The errors that are raised; `service` stands for one of a parser, a tokenizer, an embedder or the
-- index, with the name of its class and its message.
pub data JobError : Type 0 where
  no_job no_version no_document disappeared disappeared_before_validation : JobError
  disappeared_before_activation deleted newer_active : JobError
  service : Text → Text → JobError

abbrev pub job_row : ℕ → Store → Option IngestionJob
job_row id s = get_row (λ r. r.id) id s.jobs

abbrev pub version_row : ℕ → Store → Option DocumentVersion
version_row id s = get_row (λ r. r.id) id s.versions

abbrev pub document_row : ℕ → ℕ → Store → Option Document
document_row id tenant_id s =
    having (λ r. nat_eq r.tenant_id tenant_id) (get_row (λ r. r.id) id s.documents)

abbrev pub tenant_row : ℕ → Store → Option Tenant
tenant_row id s = get_row (λ r. r.id) id s.tenants

abbrev pub generation_row : ℕ → Store → Option IndexGeneration
generation_row id s = get_row (λ r. r.id) id s.generations

-- A row that must be there.
unfoldable pub need : {A : Type 0} → JobError → Option A → Result JobError A
need e none = raise e
need e (some a) = ok a

-- `job.status == "processing"` with a heartbeat that is recent.
unfoldable pub is_held : ℕ → ℕ → IngestionJob → Bool
is_held timeout now job = elim job.heartbeat_at [
  | none ↦ false
  | some at ↦ is_running job.status && leb (now - timeout) at
]

is_unset : {A : Type 0} → Option A → Bool
is_unset none = true
is_unset (some a) = false

-- The columns of the job that a start writes. An assignment that does not change the object that was
-- loaded, `seen`, is no part of the UPDATE, and the attempts are counted from that object.
unfoldable pub begun_job : ℕ → IngestionJob → IngestionJob → IngestionJob
unfolding is_unset
begun_job now seen r = record r {
  status = if is_running seen.status then r.status else running;
  attempt = suc seen.attempt;
  heartbeat_at = some now;
  error = if is_unset seen.error then r.error else none;
}

unfoldable pub begun_version : DocumentVersion → DocumentVersion → DocumentVersion
unfolding is_unset
begun_version seen r = record r {
  status = elim seen.status [ processing ↦ r.status | _ ↦ processing ];
  error_code = if is_unset seen.error_code then r.error_code else none;
  error_detail = if is_unset seen.error_detail then r.error_detail else none;
}

-- The writes of a start to the rows of the objects that were loaded.
unfoldable pub begin : ℕ → IngestionJob → DocumentVersion → Store → Store
unfolding begun_job begun_version
begin now job version s = record s {
  jobs = set_row (λ r. r.id) job.id (begun_job now job) s.jobs;
  versions = set_row (λ r. r.id) version.id (begun_version version) s.versions;
}

-- `_start`: the job with its version and document, where it is to be run. The job and the version are
-- loaded from `seen`, without a lock. When the locks are held the store is `s`: the document is loaded
-- from it, but of the job and the version only that they are there counts, since a session keeps an
-- object that it has loaded.
unfoldable pub start_after :
    Store
    → Store
    → ℕ
    → ℕ
    → ℕ
    → Result JobError (Store × Option (IngestionJob × DocumentVersion × Document))
unfolding need is_held begin
start_after seen s timeout now job_id = do
  job ← need no_job (job_row job_id seen)
  version ←
      need no_version
        (having (λ r. nat_eq r.tenant_id job.tenant_id) (version_row job.document_version_id seen))
  document ← need no_document (document_row version.document_id version.tenant_id s)
  locked_version ← need disappeared (version_row version.id s)
  locked_job ← need disappeared (job_row job_id s)
  ok (
      if has_succeeded job.status || is_held timeout now job
      then (s, none)
      else (begin now job version s, some (job, version, document)))

-- `_start` of a worker while no other one writes.
unfoldable pub start :
    Store → ℕ → ℕ → ℕ → Result JobError (Store × Option (IngestionJob × DocumentVersion × Document))
unfolding start_after
start s timeout now job_id = start_after s s timeout now job_id

-- A row of a manifest in the manifest of another generation.
abbrev pub moved : ℕ → ℕ → ManifestRow → ManifestRow
moved target tenant_id r = record r { generation_id = target; tenant_id = tenant_id }

-- `_copy_manifest`.
unfoldable pub copy_manifest : Option ℕ → ℕ → ℕ → ℕ → List ManifestRow → List ManifestRow
copy_manifest none target tenant_id exclude rows = rows
copy_manifest (some source) target tenant_id exclude rows =
    rows
    ++ map (moved target tenant_id) (
        select_where
          (λ r.
            nat_eq r.generation_id source
            && (nat_eq r.tenant_id tenant_id && not (nat_eq r.document_id exclude)))
          rows)

-- The active manifest without the document, and the document with its version.
unfoldable pub fill_manifest : Tenant → ℕ → ℕ → ℕ → ℕ → List ManifestRow → List ManifestRow
unfolding copy_manifest
fill_manifest tenant target row_tenant document_id version_id rows =
    copy_manifest tenant.active_index_generation_id target tenant.id document_id rows
    ++ record {
      generation_id = target;
      document_id = document_id;
      tenant_id = row_tenant;
      document_version_id = version_id;
    }
      ∷ []

unfoldable pub clear_manifest : ℕ → List ManifestRow → List ManifestRow
clear_manifest generation_id = delete_where (λ r. nat_eq r.generation_id generation_id)

-- The latest generation that is prepared for a version: `order_by(id.desc())` of those selected.
unfoldable pub latest : List IndexGeneration → Option IndexGeneration
latest [] = none
latest (g ∷ gs) = elim (latest gs) [
  | none ↦ some g
  | some h ↦ if ltb h.id g.id then some g else some h
]

unfoldable pub prior_generation : ℕ → Store → Option IndexGeneration
unfolding latest
prior_generation version_id s = latest (
    select_where
      (λ g. same_option g.changed_document_version_id (some version_id) && is_preparing g.status)
      s.generations)

-- The generation that is prepared, and the tables after that.
pub record Prepared : Type 0 where
  pub generation_id : ℕ
  pub generations : List IndexGeneration
  pub manifest : List ManifestRow

-- The one there was, its manifest cleared, or a new one with the next identifier.
unfoldable pub prepare_generation :
    Tenant → DocumentVersion → ℕ → Option IndexGeneration → Store → Prepared
unfolding clear_manifest
prepare_generation tenant version new_id none s = record {
  generation_id = new_id;
  generations =
      s.generations
      ++ record {
        id = new_id;
        tenant_id = version.tenant_id;
        reason = codes "document_upload";
        changed_document_version_id = some version.id;
        parent_generation_id = tenant.active_index_generation_id;
        status = preparing;
        retrieval_revision = tenant.retrieval_revision + 1;
        activated_at = none;
      }
        ∷ [];
  manifest = s.manifest;
}
prepare_generation tenant version new_id (some prior) s = record {
  generation_id = prior.id;
  generations =
      set_row (λ g. g.id) prior.id
        (λ g. record g {
          parent_generation_id = tenant.active_index_generation_id;
          retrieval_revision = tenant.retrieval_revision + 1;
        })
        s.generations;
  manifest = clear_manifest prior.id s.manifest;
}

abbrev pub stored : {A : Type 0} → DocumentVersion → A → Stored A
stored version row = record {
  tenant_id = version.tenant_id;
  document_id = version.document_id;
  document_version_id = version.id;
  row = row;
}

-- The writes of `_persist_staged_content`.
unfoldable pub stage :
    Store
    → ℕ
    → ℕ
    → Tenant
    → DocumentVersion
    → List BuiltSection
    → List BuiltChunk
    → ℕ
    → Prepared
    → Store
unfolding fill_manifest
stage s now job_id tenant version sections chunks page_count prepared = record s {
  sections =
      delete_where (λ r. nat_eq r.document_version_id version.id) s.sections
      ++ map (stored version) sections;
  chunks =
      delete_where (λ r. nat_eq r.document_version_id version.id) s.chunks
      ++ map (stored version) chunks;
  generations = prepared.generations;
  manifest =
      fill_manifest tenant prepared.generation_id version.tenant_id version.document_id version.id
        prepared.manifest;
  versions =
      set_row (λ r. r.id) version.id
        (λ r. record r {
          status = processing;
          page_count = page_count;
          section_count = length sections;
          chunk_count = length chunks;
          index_generation_id = some prepared.generation_id;
        })
        s.versions;
  jobs = set_row (λ r. r.id) job_id (λ r. record r { heartbeat_at = some now }) s.jobs;
}

-- `_persist_staged_content`: the generation, and the collections of the document.
unfoldable pub persist_staged_content :
    Store
    → ℕ
    → ℕ
    → ℕ
    → DocumentVersion
    → List BuiltSection
    → List BuiltChunk
    → ℕ
    → Result JobError (Store × ℕ × List ℕ)
unfolding need prior_generation prepare_generation stage
persist_staged_content s now new_id job_id version sections chunks page_count = do
  tenant ← need disappeared (tenant_row version.tenant_id s)
  current ← need disappeared (version_row version.id s)
  job ← need disappeared (job_row job_id s)
  let prepared = prepare_generation tenant current new_id (prior_generation current.id s) s
  ok (
    stage s now job.id tenant current sections chunks page_count prepared,
    prepared.generation_id,
    map (λ r. r.collection_id)
        (select_where
          (λ r. nat_eq r.document_id current.document_id && nat_eq r.tenant_id current.tenant_id)
          s.collections),
  )

-- `_heartbeat`.
unfoldable pub heartbeat : Store → ℕ → ℕ → Store
heartbeat s now job_id = record s {
  jobs =
      set_row (λ r. r.id) job_id
        (λ r. if is_running r.status then record r { heartbeat_at = some now } else r) s.jobs;
}
