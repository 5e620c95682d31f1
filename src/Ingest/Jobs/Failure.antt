-- ===== src/Ingest/Jobs/Failure.antt =====
-- What `_mark_failed` leaves as it was.
use etoeragcb.Base.{ℕ, true, false, ◌≡◌, some}
use etoeragcb.Base.Text.{Text}
use etoeragcb.Ingest.Tables.{
  DocumentVersion, IndexGeneration, Store, IngestionJob, has_succeeded, is_live, is_preparing,
}
use etoeragcb.Ingest.Jobs.{version_row, generation_row, job_row}

-- What a tenant serves is the same in two stores: the active versions, the generations that are not in
-- preparation, the manifests and the jobs that have succeeded.
pub record IsServed (s s' : Store) : Type 0 where
  pub tenants : s'.tenants ≡ s.tenants
  pub documents : s'.documents ≡ s.documents
  pub manifest : s'.manifest ≡ s.manifest
  pub versions :
      (id : ℕ) (v : DocumentVersion)
      → version_row id s ≡ some v
      → is_live v.status ≡ true
      → version_row id s' ≡ some v
  pub generations :
      (id : ℕ) (g : IndexGeneration)
      → generation_row id s ≡ some g
      → is_preparing g.status ≡ false
      → generation_row id s' ≡ some g
  pub jobs :
      (id : ℕ) (j : IngestionJob)
      → job_row id s ≡ some j
      → has_succeeded j.status ≡ true
      → job_row id s' ≡ some j
