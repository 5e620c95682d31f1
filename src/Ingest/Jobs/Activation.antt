-- ===== src/Ingest/Jobs/Activation.antt =====
-- What `_activate` makes of the active manifest of a tenant.
use etoeragcb.Base.{
  ℕ, ◌+◌, true, false, ◌≡◌, refl, ap, sym, ◌∙◌, Option, none, some, List, [], ◌∷◌, ◌++◌, Bool-cases,
  inl, inr, nat_eq,
}
use mathlib.Core.Option.{some-injective}
use etoeragcb.Base.Table.{having, having-eq-some, get_row, get_row-set_row_own, get_row-key}
use etoeragcb.Base.Result.{ok, bind-eq-ok, ok_injective}
use etoeragcb.Ingest.Tables.{
  Tenant, Document, DocumentVersion, IndexGeneration, IngestionJob, Store, same_option, is_null,
  has_succeeded, ManifestRow,
}
use etoeragcb.Ingest.Jobs.{
  JobError, deleted, job_row, version_row, document_row, tenant_row, generation_row, need,
  clear_manifest,
}
use etoeragcb.Ingest.Jobs.Finish.{
  other_active_number, is_newer, refresh_manifest, switch, activate_open, activate,
}
use etoeragcb.Ingest.Jobs.Manifest.{
  manifest_of, active_manifest, without, fill_manifest_lem, manifest_of_cleared,
  active_manifest_cleared,
}

pub need-eq-ok : {A : Type 0} (e : JobError) (o : Option A) (a : A) → need e o ≡ ok a → o ≡ some a
unfolding need
need-eq-ok e none a h = cc
need-eq-ok e (some x) a h = ap some (ok_injective x a h)

-- What holds where `_activate` returns for a job that had not succeeded.
pub record IsActivation (s : Store) (now : ℕ) (version : DocumentVersion)
    (generation : IndexGeneration) (job : IngestionJob) (s' : Store) : Type 0 where
  pub tenant : Tenant
  pub document : Document
  pub tenant_found : tenant_row version.tenant_id s ≡ some tenant
  pub document_found : get_row (λ d. d.id) version.document_id s.documents ≡ some document
  pub present : is_null document.deleted_at ≡ true
  pub newest : is_newer (other_active_number document version s) version.version ≡ false
  pub result : s' ≡ switch s now tenant document version generation job

pub activate_open-IsActivation :
    (s s' : Store) (now : ℕ) (version : DocumentVersion) (generation : IndexGeneration)
    (job : IngestionJob)
    → activate_open s now version generation job ≡ ok s'
    → IsActivation s now version generation job s'
unfolding activate_open
activate_open-IsActivation s s' now version generation job h =
    let (tenant, e1, h1) = bind-eq-ok (need deleted (tenant_row version.tenant_id s)) _ h in
    let (document, e2, h2) =
      bind-eq-ok
        (need deleted (
          having (λ r. is_null r.deleted_at)
            (document_row version.document_id version.tenant_id s)))
        _ h1 in
    let (found, present) =
      having-eq-some (λ r. is_null r.deleted_at)
        (document_row version.document_id version.tenant_id s) document
        (need-eq-ok deleted _ document e2) in
    let (row, _) =
      having-eq-some (λ r. nat_eq r.tenant_id version.tenant_id)
        (get_row (λ r. r.id) version.document_id s.documents) document found in
    elim (Bool-cases (is_newer (other_active_number document version s) version.version)) [
      | inl newer ↦ cc (rw newer at h2)
      | inr newest ↦ record {
        tenant = tenant;
        document = document;
        tenant_found = need-eq-ok deleted (tenant_row version.tenant_id s) tenant e1;
        document_found = row;
        present = present;
        newest = newest;
        result = sym (ok_injective _ s' (rw newest at h2));
      }
    ]

-- The manifest that a generation is to have: the active one with the version in its place.
abbrev pub replaced : Tenant → ℕ → ℕ → List ManifestRow → List (ℕ × ℕ)
replaced tenant document_id version_id rows =
    without document_id (active_manifest tenant.active_index_generation_id tenant.id rows)
    ++ (document_id, version_id) ∷ []

refresh_manifest_lem :
    (tenant : Tenant) (document : Document) (version : DocumentVersion)
    (generation : IndexGeneration) (rows : List ManifestRow)
    → ¬ (tenant.active_index_generation_id ≡ some generation.id)
    → (same_option generation.parent_generation_id tenant.active_index_generation_id ≡ true
        → manifest_of generation.id tenant.id rows ≡ replaced tenant document.id version.id rows)
    → manifest_of generation.id tenant.id (refresh_manifest tenant document version generation rows)
      ≡ replaced tenant document.id version.id rows
unfolding refresh_manifest
refresh_manifest_lem tenant document version generation rows other prepared =
    elim (Bool-cases
      (same_option generation.parent_generation_id tenant.active_index_generation_id)) [
        | inl same ↦ rw same (prepared same)
        | inr moved ↦ rw moved (
            fill_manifest_lem tenant generation.id document.id version.id
              (clear_manifest generation.id rows) (manifest_of_cleared generation.id tenant.id rows)
            ∙ ap (λ zs. without document.id zs ++ (document.id, version.id) ∷ [])
                (active_manifest_cleared tenant.active_index_generation_id generation.id tenant.id
                  rows other))
      ]

-- A tenant, a document and a version after an activation.
pub record IsReplaced (s : Store) (tenant : Tenant) (version : DocumentVersion) (generation_id : ℕ)
    (s' : Store) : Type 0 where
  pub row : Tenant
  pub tenant_found : tenant_row version.tenant_id s' ≡ some row
  pub points : row.active_index_generation_id ≡ some generation_id
  pub revised : row.retrieval_revision ≡ tenant.retrieval_revision + 1
  pub manifest :
      active_manifest row.active_index_generation_id row.id s'.manifest
      ≡ replaced tenant version.document_id version.id s.manifest

switch-IsReplaced :
    (s : Store) (now : ℕ) (tenant : Tenant) (document : Document) (version : DocumentVersion)
    (generation : IndexGeneration) (job : IngestionJob)
    → tenant_row version.tenant_id s ≡ some tenant
    → document.id ≡ version.document_id
    → ¬ (tenant.active_index_generation_id ≡ some generation.id)
    → (same_option generation.parent_generation_id tenant.active_index_generation_id ≡ true
        → manifest_of generation.id tenant.id s.manifest
          ≡ replaced tenant version.document_id version.id s.manifest)
    → IsReplaced s tenant version generation.id
        (switch s now tenant document version generation job)
unfolding switch active_manifest
switch-IsReplaced s now tenant document version generation job found e other prepared =
    let k = get_row-key (λ t. t.id) version.tenant_id s.tenants tenant found in
    record {
      row = record tenant {
        active_index_generation_id = some generation.id;
        retrieval_revision = tenant.retrieval_revision + 1;
      };
      tenant_found =
          get_row-set_row_own (λ t. t.id) version.tenant_id tenant.id _ s.tenants tenant (λ x. refl)
            k found;
      points = refl;
      revised = refl;
      manifest = rw (sym e) (
          refresh_manifest_lem tenant document version generation s.manifest other
            (λ h. rw e (prepared h)));
    }

-- A job that has not succeeded and activates its version points its tenant to the generation, counts its
-- revision up, and leaves the manifest that was active with the document at the version: where the
-- manifest that was prepared belongs to the active generation, it was to be that one, and the generation
-- is not the active one.
pub activate_replaces :
    (s s' : Store) (now job_id version_id generation_id : ℕ) (tenant : Tenant)
    (version : DocumentVersion) (generation : IndexGeneration) (job : IngestionJob)
    → version_row version_id s ≡ some version
    → generation_row generation_id s ≡ some generation
    → job_row job_id s ≡ some job
    → tenant_row version.tenant_id s ≡ some tenant
    → has_succeeded job.status ≡ false
    → ¬ (tenant.active_index_generation_id ≡ some generation.id)
    → (same_option generation.parent_generation_id tenant.active_index_generation_id ≡ true
        → manifest_of generation.id tenant.id s.manifest
          ≡ replaced tenant version.document_id version.id s.manifest)
    → activate s now job_id version_id generation_id ≡ ok s'
    → IsReplaced s tenant version generation.id s'
unfolding activate need
activate_replaces s s' now job_id version_id generation_id tenant version generation job v g j t
      unfinished other prepared h =
    let r =
      activate_open-IsActivation s s' now version generation job (rw (v, g, j, unfinished) at h) in
    let same : tenant ≡ r.tenant = some-injective tenant r.tenant (sym t ∙ r.tenant_found) in
    rw (r.result, sym same)
      (switch-IsReplaced s now tenant r.document version generation job t
        (get_row-key (λ d. d.id) version.document_id s.documents r.document r.document_found) other
        prepared)
