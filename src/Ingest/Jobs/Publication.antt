-- ===== src/Ingest/Jobs/Publication.antt =====
-- The three transactions that publish a version, one after the other: `_persist_staged_content`,
-- `_mark_ready` and `_activate`.
use etoeragcb.Base.{ℕ, false, ◌≡◌, refl, ap, sym, subst, ◌∙◌, some, List}
use etoeragcb.Base.Table.{get_row-set_row, get_row-set_row_own, get_row-key}
use etoeragcb.Base.Result.{ok, ok_injective}
use etoeragcb.Ingest.Chunker.{BuiltChunk}
use etoeragcb.Ingest.Tables.{
  Tenant, DocumentVersion, Store, BuiltSection, IngestionJob, has_succeeded,
}
use etoeragcb.Ingest.Jobs.{version_row, tenant_row, need, stage, persist_staged_content, job_row}
use etoeragcb.Ingest.Jobs.Finish.{mark_ready, activate}
use etoeragcb.Ingest.Jobs.Activation.{replaced, IsReplaced, activate_replaces}
use etoeragcb.Ingest.Jobs.Preparation.{
  IsPrepared, IsFresh, stage-IsPrepared, prepared_for, prepared_for-IsOpened,
  persist_staged_content_lem,
}

-- A version and its job between two of the transactions.
record IsOngoing (version : DocumentVersion) (job_id : ℕ) (s : Store) : Type 0 where
  row : DocumentVersion
  found : version_row version.id s ≡ some row
  same_id : row.id ≡ version.id
  same_tenant : row.tenant_id ≡ version.tenant_id
  same_document : row.document_id ≡ version.document_id
  job : IngestionJob
  job_found : job_row job_id s ≡ some job
  unfinished : has_succeeded job.status ≡ false

stage-IsOngoing :
    (s : Store) (now : ℕ) (tenant : Tenant) (version : DocumentVersion) (job : IngestionJob)
    (job_id : ℕ) (sections : List BuiltSection) (chunks : List BuiltChunk) (page_count new_id : ℕ)
    → version_row version.id s ≡ some version
    → job_row job_id s ≡ some job
    → has_succeeded job.status ≡ false
    → IsOngoing version job_id (
        stage s now job.id tenant version sections chunks page_count
          (prepared_for s new_id tenant version))
unfolding stage
stage-IsOngoing s now tenant version job job_id sections chunks page_count new_id v j unfinished =
    record {
      row = _;
      found = get_row-set_row (λ r. r.id) version.id _ s.versions version (λ x. refl) v;
      same_id = refl;
      same_tenant = refl;
      same_document = refl;
      job = _;
      job_found =
          get_row-set_row_own (λ r. r.id) job_id job.id _ s.jobs job (λ x. refl)
            (get_row-key (λ r. r.id) job_id s.jobs job j) j;
      unfinished = unfinished;
    }

mark_ready-IsPrepared :
    (s s1 s2 : Store) (now job_id generation_id : ℕ) (tenant : Tenant) (version : DocumentVersion)
    → mark_ready s1 now job_id version.id ≡ ok s2
    → IsOngoing version job_id s1
    → IsPrepared s tenant version generation_id s1
    → IsPrepared s tenant version generation_id s2 × IsOngoing version job_id s2
unfolding mark_ready need
mark_ready-IsPrepared s s1 s2 now job_id generation_id tenant version h ongoing prepared =
    let e = ok_injective _ s2 (rw (ongoing.found, ongoing.job_found, ongoing.unfinished) at h) in
    subst (λ z. IsPrepared s tenant version generation_id z × IsOngoing version job_id z) e
      (
        record {
          generation = prepared.generation;
          found = prepared.found;
          parent = prepared.parent;
          other = prepared.other;
          manifest = prepared.manifest;
          kept = prepared.kept;
          tenants = prepared.tenants;
        },
        record {
          row = _;
          found =
              get_row-set_row_own (λ r. r.id) version.id ongoing.row.id _ s1.versions ongoing.row
                (λ x. refl) ongoing.same_id ongoing.found;
          same_id = ongoing.same_id;
          same_tenant = ongoing.same_tenant;
          same_document = ongoing.same_document;
          job = _;
          job_found =
              get_row-set_row_own (λ r. r.id) job_id ongoing.job.id _ s1.jobs ongoing.job
                (λ x. refl) (get_row-key (λ r. r.id) job_id s1.jobs ongoing.job ongoing.job_found)
                ongoing.job_found;
          unfinished = ongoing.unfinished;
        },
      )

activate_prepared :
    (s s2 s3 : Store) (now job_id generation_id : ℕ) (tenant : Tenant) (version : DocumentVersion)
    → tenant_row version.tenant_id s ≡ some tenant
    → IsPrepared s tenant version generation_id s2
    → IsOngoing version job_id s2
    → activate s2 now job_id version.id generation_id ≡ ok s3
    → IsReplaced s tenant version generation_id s3
activate_prepared s s2 s3 now job_id generation_id tenant version t prepared ongoing h =
    let row = ongoing.row in
    let k =
      get_row-key (λ g. g.id) generation_id s2.generations prepared.generation prepared.found in
    let same : replaced tenant row.document_id row.id s2.manifest
        ≡ replaced tenant version.document_id version.id s.manifest =
      rw (ongoing.same_document, ongoing.same_id, prepared.kept) refl in
    let after =
      activate_replaces s2 s3 now job_id version.id generation_id tenant row prepared.generation
        ongoing.job ongoing.found prepared.found ongoing.job_found
        (rw (ongoing.same_tenant, prepared.tenants) t) ongoing.unfinished (rw k prepared.other)
        (λ _. rw k (prepared.manifest ∙ sym same)) h in
    record {
      row = after.row;
      tenant_found = rw ongoing.same_tenant at after.tenant_found;
      points = after.points ∙ ap some k;
      revised = after.revised;
      manifest = after.manifest ∙ same;
    }

-- A job that stores the content of its version, marks it ready and activates it, where each of the three
-- calls returns, its rows were there, the job had not succeeded and the generation is a fresh one: then
-- the active manifest of the tenant is the one from before the three calls with the document at this
-- version, and the revision of the tenant is one more.
pub publication_replaces :
    (s s1 s2 s3 : Store) (now1 now2 now3 new_id job_id page_count generation_id : ℕ)
    (collection_ids : List ℕ) (tenant : Tenant) (version : DocumentVersion) (job : IngestionJob)
    (sections : List BuiltSection) (chunks : List BuiltChunk)
    → tenant_row version.tenant_id s ≡ some tenant
    → version_row version.id s ≡ some version
    → job_row job_id s ≡ some job
    → has_succeeded job.status ≡ false
    → IsFresh s tenant version new_id
    → persist_staged_content s now1 new_id job_id version sections chunks page_count
      ≡ ok (s1, generation_id, collection_ids)
    → mark_ready s1 now2 job_id version.id ≡ ok s2
    → activate s2 now3 job_id version.id generation_id ≡ ok s3
    → IsReplaced s tenant version generation_id s3
publication_replaces s s1 s2 s3 now1 now2 now3 new_id job_id page_count generation_id collection_ids
      tenant version job sections chunks t v j unfinished fresh persisted marked activated =
    let (e, g) =
      persist_staged_content_lem s now1 new_id job_id tenant version version job sections chunks
        page_count s1 generation_id collection_ids t v j persisted in
    let k = get_row-key (λ r. r.id) version.tenant_id s.tenants tenant t in
    let staged =
      stage-IsPrepared s now1 job.id tenant version sections chunks page_count
        (prepared_for s new_id tenant version) (sym k)
        (prepared_for-IsOpened s tenant version new_id fresh) in
    let ongoing =
      stage-IsOngoing s now1 tenant version job job_id sections chunks page_count new_id v j
        unfinished in
    let (prepared, going) =
      mark_ready-IsPrepared s s1 s2 now2 job_id generation_id tenant version marked (rw e ongoing)
        (rw (g, e) staged) in
    activate_prepared s s2 s3 now3 job_id generation_id tenant version t prepared going activated
