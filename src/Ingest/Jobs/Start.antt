-- ===== src/Ingest/Jobs/Start.antt =====
-- When `_start` gives a job to a worker.
use etoeragcb.Base.{ℕ, Bool, true, false, ◌||◌, ◌≡◌, some, nat_eq, arith, Option}
use etoeragcb.Base.Result.{Result}
use etoeragcb.Ingest.Tables.{Document, DocumentVersion, Store, IngestionJob, has_succeeded}
use etoeragcb.Ingest.Jobs.{version_row, document_row, job_row, is_held, begin}

or-eq-false_left : (a b : Bool) → a || b ≡ false → a ≡ false
or-eq-false_left a b h = ground (arith, h)

-- What `_start` has read and written where it returns a job.
record IsStarted (seen s : Store) (timeout now job_id : ℕ) (s' : Store)
    (started : IngestionJob × DocumentVersion × Document) : Type 0 where
  job : IngestionJob
  version : DocumentVersion
  document : Document
  job_found : job_row job_id seen ≡ some job
  version_found : version_row job.document_version_id seen ≡ some version
  same_tenant : nat_eq version.tenant_id job.tenant_id ≡ true
  document_found : document_row version.document_id version.tenant_id s ≡ some document
  free : (has_succeeded job.status || is_held timeout now job) ≡ false
  result : s' ≡ begin now job version s
  returned : started ≡ (job, version, document)
