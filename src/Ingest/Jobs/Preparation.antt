-- ===== src/Ingest/Jobs/Preparation.antt =====
-- What `_persist_staged_content` leaves for the activation.
use mathlib.Core.Option.{some-injective}
use etoeragcb.Base.{
  ℕ, ◌≡◌, refl, ap, sym, subst, ◌∙◌, Option, none, some, List, [], ◌∷◌, ◌++◌, arith, Bool-cases,
  Option-cases, inl, inr, nat_eq, ltb,
}
use etoeragcb.Base.Table.{select_where, get_row, get_row-set_row, get_row_new, get_row_found}
use etoeragcb.Base.Result.{ok, ok_injective}
use etoeragcb.Ingest.Chunker.{BuiltChunk}
use etoeragcb.Ingest.Tables.{
  Tenant, DocumentVersion, IndexGeneration, Store, BuiltSection, IngestionJob,
}
use etoeragcb.Ingest.Jobs.{
  version_row, tenant_row, generation_row, need, latest, prior_generation, Prepared,
  prepare_generation, stage, persist_staged_content, job_row,
}
use etoeragcb.Ingest.Jobs.Manifest.{
  manifest_of, active_manifest, without, fill_manifest_lem, manifest_of_cleared,
  active_manifest_cleared, active_manifest_filled,
}
use etoeragcb.Ingest.Jobs.Activation.{replaced}

abbrev HasRow : List IndexGeneration → IndexGeneration → Type 0
HasRow gs g = (row : IndexGeneration) × get_row (λ r. r.id) g.id gs ≡ some row

latest_found : (gs : List IndexGeneration) (g : IndexGeneration) → latest gs ≡ some g → HasRow gs g
unfolding latest get_row
latest_found [] g h = cc
latest_found (x ∷ gs) g h = elim (Option-cases (latest gs)) [
  | inl e ↦
      let same : x ≡ g = some-injective x g (rw e at h) in
      subst (HasRow (x ∷ gs)) same (x, ground arith)
  | inr (y, e) ↦
      let (row, found) = latest_found gs y e in
      elim (Bool-cases (ltb y.id x.id)) [
        | inl below ↦
            let same : x ≡ g = some-injective x g (rw (e, below) at h) in
            subst (HasRow (x ∷ gs)) same (x, ground arith)
        | inr above ↦
            let same : y ≡ g = some-injective y g (rw (e, above) at h) in
            subst (HasRow (x ∷ gs)) same (elim (Bool-cases (nat_eq x.id y.id)) [
              | inl here ↦ (x, ground arith)
              | inr there ↦ (row, ground arith)
            ])
      ]
]

-- The generation that the version was prepared in is among the rows.
prior_generation_found :
    (version_id : ℕ) (s : Store) (g : IndexGeneration)
    → prior_generation version_id s ≡ some g
    → (row : IndexGeneration) × generation_row g.id s ≡ some row
unfolding prior_generation
prior_generation_found version_id s g h =
    let (row, found) = latest_found (select_where _ s.generations) g h in
    get_row_found (λ r. r.id) _ g.id s.generations row found

-- A generation whose manifest is still to be filled.
pub record IsOpened (s : Store) (tenant : Tenant) (prepared : Prepared) : Type 0 where
  row : IndexGeneration
  found : get_row (λ g. g.id) prepared.generation_id prepared.generations ≡ some row
  parent : row.parent_generation_id ≡ tenant.active_index_generation_id
  empty : manifest_of prepared.generation_id tenant.id prepared.manifest ≡ []
  kept :
      active_manifest tenant.active_index_generation_id tenant.id prepared.manifest
      ≡ active_manifest tenant.active_index_generation_id tenant.id s.manifest
  other : ¬ (tenant.active_index_generation_id ≡ some prepared.generation_id)

prepare_generation-IsOpened :
    (s : Store) (tenant : Tenant) (version : DocumentVersion) (new_id : ℕ)
    (o : Option IndexGeneration)
    → prior_generation version.id s ≡ o
    → generation_row new_id s ≡ none
    → manifest_of new_id tenant.id s.manifest ≡ []
    → ¬ (tenant.active_index_generation_id ≡ some new_id)
    → ((g : IndexGeneration) → o ≡ some g → ¬ (tenant.active_index_generation_id ≡ some g.id))
    → IsOpened s tenant (prepare_generation tenant version new_id o s)
unfolding prepare_generation
prepare_generation-IsOpened s tenant version new_id none e fresh empty other prior = record {
  row = _;
  found = get_row_new (λ g. g.id) new_id s.generations _ fresh refl;
  parent = refl;
  empty = empty;
  kept = refl;
  other = other;
}
prepare_generation-IsOpened s tenant version new_id (some g) e fresh empty other prior =
    let (row, found) = prior_generation_found version.id s g e in
    record {
      row = _;
      found = get_row-set_row (λ g. g.id) g.id _ s.generations row (λ x. refl) found;
      parent = refl;
      empty = manifest_of_cleared g.id tenant.id s.manifest;
      kept =
          active_manifest_cleared tenant.active_index_generation_id g.id tenant.id s.manifest
            (prior g refl);
      other = prior g refl;
    }

-- A generation that is ready to be activated in place of the active one.
pub record IsPrepared (s : Store) (tenant : Tenant) (version : DocumentVersion) (generation_id : ℕ)
    (s' : Store) : Type 0 where
  pub generation : IndexGeneration
  pub found : generation_row generation_id s' ≡ some generation
  pub parent : generation.parent_generation_id ≡ tenant.active_index_generation_id
  pub other : ¬ (tenant.active_index_generation_id ≡ some generation_id)
  pub manifest :
      manifest_of generation_id tenant.id s'.manifest
      ≡ replaced tenant version.document_id version.id s.manifest
  pub kept :
      active_manifest tenant.active_index_generation_id tenant.id s'.manifest
      ≡ active_manifest tenant.active_index_generation_id tenant.id s.manifest
  pub tenants : s'.tenants ≡ s.tenants

pub stage-IsPrepared :
    (s : Store) (now job_id : ℕ) (tenant : Tenant) (version : DocumentVersion)
    (sections : List BuiltSection) (chunks : List BuiltChunk) (page_count : ℕ) (prepared : Prepared)
    → version.tenant_id ≡ tenant.id
    → IsOpened s tenant prepared
    → IsPrepared s tenant version prepared.generation_id
        (stage s now job_id tenant version sections chunks page_count prepared)
unfolding stage
stage-IsPrepared s now job_id tenant version sections chunks page_count prepared e opened = record {
  generation = opened.row;
  found = opened.found;
  parent = opened.parent;
  other = opened.other;
  manifest = rw e (
      fill_manifest_lem tenant prepared.generation_id version.document_id version.id
        prepared.manifest opened.empty
      ∙ ap (λ zs. without version.document_id zs ++ (version.document_id, version.id) ∷ [])
          opened.kept);
  kept = rw e (
      active_manifest_filled tenant.active_index_generation_id tenant prepared.generation_id
        version.document_id version.id prepared.manifest opened.other
      ∙ opened.kept);
  tenants = refl;
}

-- The generation that a call of `_persist_staged_content` may prepare: a new one has an identifier that
-- is not in use, and one from before is not the active one.
pub record IsFresh (s : Store) (tenant : Tenant) (version : DocumentVersion) (new_id : ℕ)
    : Type 0 where
  pub unused : generation_row new_id s ≡ none
  pub empty : manifest_of new_id tenant.id s.manifest ≡ []
  pub new_one : ¬ (tenant.active_index_generation_id ≡ some new_id)
  pub prior_one :
      (g : IndexGeneration)
      → prior_generation version.id s ≡ some g
      → ¬ (tenant.active_index_generation_id ≡ some g.id)

abbrev pub prepared_for : Store → ℕ → Tenant → DocumentVersion → Prepared
prepared_for s new_id tenant version =
    prepare_generation tenant version new_id (prior_generation version.id s) s

pub prepared_for-IsOpened :
    (s : Store) (tenant : Tenant) (version : DocumentVersion) (new_id : ℕ)
    → IsFresh s tenant version new_id
    → IsOpened s tenant (prepared_for s new_id tenant version)
prepared_for-IsOpened s tenant version new_id fresh =
    prepare_generation-IsOpened s tenant version new_id (prior_generation version.id s) refl
      fresh.unused fresh.empty fresh.new_one fresh.prior_one

-- What `_persist_staged_content` returns where the rows are there.
pub persist_staged_content_lem :
    (s : Store) (now new_id job_id : ℕ) (tenant : Tenant) (version current : DocumentVersion)
    (job : IngestionJob) (sections : List BuiltSection) (chunks : List BuiltChunk) (page_count : ℕ)
    (s' : Store) (generation_id : ℕ) (collection_ids : List ℕ)
    → tenant_row version.tenant_id s ≡ some tenant
    → version_row version.id s ≡ some current
    → job_row job_id s ≡ some job
    → persist_staged_content s now new_id job_id version sections chunks page_count
      ≡ ok (s', generation_id, collection_ids)
    → (s'
        ≡ stage s now job.id tenant current sections chunks page_count
            (prepared_for s new_id tenant current))
      × (generation_id ≡ (prepared_for s new_id tenant current).generation_id)
unfolding persist_staged_content need
persist_staged_content_lem s now new_id job_id tenant version current job sections chunks page_count
      s' generation_id collection_ids t v j h =
    let e = ok_injective _ (s', generation_id, collection_ids) (rw (t, v, j) at h) in
    (ap (λ r. r.0) (sym e), ap (λ r. r.1) (sym e))
