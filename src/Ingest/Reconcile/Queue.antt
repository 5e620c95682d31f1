-- ===== src/Ingest/Reconcile/Queue.antt =====
-- The jobs that `reconcile_ingestion_jobs` runs are those that `_start` does not decline.
use etoeragcb.Base.{ℕ, Bool, true, false, not, ◌||◌, ◌≡◌, refl, Option, none, some, arith}
use etoeragcb.Ingest.Tables.{
  IngestionJob, JobStatus, waiting, queued, running, succeeded, stopped, has_succeeded,
}
use etoeragcb.Ingest.Jobs.{is_held}
use etoeragcb.Ingest.Reconcile.{is_due}

abbrev pub has_stopped : JobStatus → Bool
has_stopped stopped = true
has_stopped s = false

-- A job that has not failed and that `_start` would not decline.
unfoldable pub is_free : ℕ → ℕ → IngestionJob → Bool
unfolding is_held
is_free timeout now job =
    not (has_stopped job.status || (has_succeeded job.status || is_held timeout now job))

due_cases :
    (timeout now : ℕ) (status : JobStatus) (heartbeat : Option ℕ) (job : IngestionJob)
    → job.status ≡ status
    → job.heartbeat_at ≡ heartbeat
    → is_due timeout now job ≡ is_free timeout now job
unfolding is_due is_held is_free
due_cases timeout now waiting none job e h = rw (e, h) refl
due_cases timeout now waiting (some at) job e h = rw (e, h) refl
due_cases timeout now queued none job e h = rw (e, h) refl
due_cases timeout now queued (some at) job e h = rw (e, h) refl
due_cases timeout now running none job e h = rw (e, h) refl
due_cases timeout now running (some at) job e h = rw (e, h) (ground arith)
due_cases timeout now succeeded heartbeat job e h = rw e refl
due_cases timeout now stopped heartbeat job e h = rw e refl

-- A job is due for reconciliation exactly where it has not failed, has not succeeded and no worker holds
-- it, the two timeouts being one.
pub due_lem :
    (timeout now : ℕ) (job : IngestionJob) → is_due timeout now job ≡ is_free timeout now job
due_lem timeout now job = due_cases timeout now job.status job.heartbeat_at job refl refl
