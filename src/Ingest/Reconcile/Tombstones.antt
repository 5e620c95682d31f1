-- ===== src/Ingest/Reconcile/Tombstones.antt =====
-- What `tombstone_document` makes of the active manifest, and that the document stays away.
use etoeragcb.Base.{
  ℕ, ◌+◌, false, ◌≡◌, refl, ap, subst, Option, none, some, List, [], nat_eq, Bool-cases,
  Option-cases, inl, inr,
}
use etoeragcb.Base.Table.{having, having-eq-some, get_row, get_row-set_row_own, get_row-key}
use etoeragcb.Base.Result.{ok, raise, bind-eq-ok, ok_injective}
use etoeragcb.Ingest.Tables.{
  Tenant, Document, DocumentVersion, Store, is_null, has_succeeded, IngestionJob, IndexGeneration,
}
use etoeragcb.Ingest.Jobs.{
  tenant_row, document_row, version_row, generation_row, job_row, need, deleted,
}
use etoeragcb.Ingest.Jobs.Finish.{activate, activate_open}
use etoeragcb.Ingest.Jobs.Manifest.{manifest_of, active_manifest, without, copy_manifest_lem}
use etoeragcb.Ingest.Reconcile.{found, pending_version_ids, cancel, bury, tombstone_document}

pub found-eq-ok : {A : Type 0} (o : Option A) (a : A) → found o ≡ ok a → o ≡ some a
unfolding found
found-eq-ok none a h = cc
found-eq-ok (some x) a h = ap some (ok_injective x a h)

-- A tenant and a document after a deletion.
pub record IsBuried (s : Store) (new_id tenant_id document_id : ℕ) (tenant : Tenant) (s' : Store)
    (revision : ℕ) : Type 0 where
  pub row : Tenant
  pub tenant_found : tenant_row tenant_id s' ≡ some row
  pub points : row.active_index_generation_id ≡ some new_id
  pub revised : (row.retrieval_revision ≡ revision) × (revision ≡ tenant.retrieval_revision + 1)
  pub manifest :
      active_manifest row.active_index_generation_id tenant_id s'.manifest
      ≡ without document_id (active_manifest tenant.active_index_generation_id tenant_id s.manifest)
  pub document : Document
  pub document_found : get_row (λ d. d.id) document_id s'.documents ≡ some document
  pub deleted : is_null document.deleted_at ≡ false

bury-IsBuried :
    (s : Store) (ids : List ℕ) (now new_id tenant_id document_id : ℕ) (tenant : Tenant)
    (d : Document)
    → tenant_row tenant_id s ≡ some tenant
    → get_row (λ r. r.id) document_id s.documents ≡ some d
    → manifest_of new_id tenant_id s.manifest ≡ []
    → IsBuried s new_id tenant_id document_id tenant
        (bury now new_id tenant d (cancel ids s))
        (tenant.retrieval_revision + 1)
unfolding bury cancel active_manifest
bury-IsBuried s ids now new_id tenant_id document_id tenant d t f empty =
    let k = get_row-key (λ r. r.id) tenant_id s.tenants tenant t in
    let dk = get_row-key (λ r. r.id) document_id s.documents d f in
    record {
      row = _;
      tenant_found =
          get_row-set_row_own (λ r. r.id) tenant_id tenant.id
            (λ r. record r {
              active_index_generation_id = some new_id;
              retrieval_revision = tenant.retrieval_revision + 1;
            })
            s.tenants tenant (λ x. refl) k t;
      points = refl;
      revised = (refl, refl);
      manifest =
          rw (k, dk)
            (copy_manifest_lem tenant.active_index_generation_id new_id tenant_id document_id
              s.manifest empty);
      document = _;
      document_found =
          get_row-set_row_own (λ r. r.id) document_id d.id
            (λ r. record r { deleted_at = some now; active_version_id = none }) s.documents d
            (λ x. refl) dk f;
      deleted = refl;
    }

-- A document that is deleted is gone from the active manifest of its tenant, which is otherwise the one
-- from before, under a new generation without rows and a revision that is one more; the row of the
-- document carries the time of its deletion.
pub tombstone_buries :
    (s s' : Store) (now new_id tenant_id document_id revision : ℕ) (tenant : Tenant)
    → tenant_row tenant_id s ≡ some tenant
    → manifest_of new_id tenant_id s.manifest ≡ []
    → tombstone_document s now new_id tenant_id document_id ≡ ok (s', revision)
    → IsBuried s new_id tenant_id document_id tenant s' revision
unfolding tombstone_document found
tombstone_buries s s' now new_id tenant_id document_id revision tenant t empty h =
    let (d, e, h2) =
      bind-eq-ok (found (having (λ d. is_null d.deleted_at) (document_row document_id tenant_id s)))
        _ (rw t at h) in
    let (present, _) =
      having-eq-some (λ d. is_null d.deleted_at) (document_row document_id tenant_id s) d
        (found-eq-ok _ d e) in
    let (row, _) =
      having-eq-some (λ r. nat_eq r.tenant_id tenant_id)
        (get_row (λ r. r.id) document_id s.documents) d present in
    let result = ok_injective _ (s', revision) h2 in
    subst (λ r. IsBuried s new_id tenant_id document_id tenant r.0 r.1) result
      (bury-IsBuried s (pending_version_ids tenant_id d.id s) now new_id tenant_id document_id
        tenant d t row empty)

-- An activation of a version whose document is marked deleted raises.
activate_deleted :
    (s : Store) (now job_id version_id generation_id : ℕ) (version : DocumentVersion)
    (generation : IndexGeneration) (job : IngestionJob) (document : Document)
    → version_row version_id s ≡ some version
    → generation_row generation_id s ≡ some generation
    → job_row job_id s ≡ some job
    → has_succeeded job.status ≡ false
    → get_row (λ d. d.id) version.document_id s.documents ≡ some document
    → is_null document.deleted_at ≡ false
    → activate s now job_id version_id generation_id ≡ raise deleted
unfolding activate activate_open need having
activate_deleted s now job_id version_id generation_id version generation job document v g j
      unfinished d gone =
    rw (v, g, j, unfinished)
      (elim (Option-cases (tenant_row version.tenant_id s)) [
        | inl missing ↦ rw missing refl
        | inr (tenant, there) ↦
            rw (there, d)
              (elim (Bool-cases (nat_eq document.tenant_id version.tenant_id)) [
                | inl same ↦ rw (same, gone) refl
                | inr other ↦ rw other refl
              ])
      ])

-- After a document was deleted, a job that has not succeeded cannot activate a version of it: the
-- activation raises that the document was deleted, where the rows of version, generation and job exist.
pub tombstone_stays :
    (s s1 : Store)
    (now later new_id tenant_id document_id revision job_id version_id generation_id : ℕ)
    (tenant : Tenant) (version : DocumentVersion) (generation : IndexGeneration)
    (job : IngestionJob)
    → tenant_row tenant_id s ≡ some tenant
    → manifest_of new_id tenant_id s.manifest ≡ []
    → tombstone_document s now new_id tenant_id document_id ≡ ok (s1, revision)
    → version_row version_id s1 ≡ some version
    → version.document_id ≡ document_id
    → generation_row generation_id s1 ≡ some generation
    → job_row job_id s1 ≡ some job
    → has_succeeded job.status ≡ false
    → activate s1 later job_id version_id generation_id ≡ raise deleted
tombstone_stays s s1 now later new_id tenant_id document_id revision job_id version_id generation_id
      tenant version generation job t empty h v e g j unfinished =
    let b = tombstone_buries s s1 now new_id tenant_id document_id revision tenant t empty h in
    activate_deleted s1 later job_id version_id generation_id version generation job b.document v g
      j unfinished (rw e b.document_found) b.deleted
