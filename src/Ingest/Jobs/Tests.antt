-- ===== src/Ingest/Jobs/Tests.antt =====
-- The transactions of a job at concrete inputs.
use mathlib.Core.Option.{none-ne-some}
use etoeragcb.Base.{ℕ, refl, Option, none, some, List, [], ◌∷◌, arith}
use etoeragcb.Base.Table.{select_where, having, get_row, set_row}
use etoeragcb.Base.Result.{Result, ok, raise}
use etoeragcb.Ingest.Tables.{
  Tenant, Document, DocumentVersion, IndexGeneration, IngestionJob, Store,
}
use etoeragcb.Ingest.Jobs.{
  JobError, version_row, generation_row, job_row, start, persist_staged_content, prior_generation,
  latest,
}
use etoeragcb.Ingest.Jobs.Finish.{mark_ready, activate}
use etoeragcb.Ingest.Jobs.Manifest.{manifest_of}
use etoeragcb.Ingest.Jobs.Activation.{IsReplaced, activate_replaces}
use etoeragcb.Ingest.Jobs.Preparation.{IsFresh}
use etoeragcb.Ingest.Jobs.Publication.{publication_replaces}
use etoeragcb.Ingest.Jobs.Samples.{tenant, second, generation, job, store}

abbrev store_of : Result JobError Store → Store
store_of (ok s) = s
store_of (raise e) = store

abbrev stored_by : Result JobError (Store × ℕ × List ℕ) → Store
stored_by (ok (s, id, ids)) = s
stored_by (raise e) = store

abbrev started_by :
    Result JobError (Store × Option (IngestionJob × DocumentVersion × Document)) → Store
started_by (ok (s, a)) = s
started_by (raise e) = store

abbrev persisted : Store
unfolding persist_staged_content
persisted = stored_by (persist_staged_content store 100 11 7 second [] [] 1)

abbrev marked : Store
unfolding mark_ready
marked = store_of (mark_ready persisted 110 7 51)

abbrev activated : Store
unfolding activate
activated = store_of (activate marked 120 7 51 11)

fresh : IsFresh store tenant second 11
unfolding prior_generation latest get_row manifest_of select_where
fresh = record {
  unused = refl;
  empty = refl;
  new_one = λ e. ground arith;
  prior_one = λ g e. absurd (none-ne-some g e);
}

publication_replaces_example : IsReplaced store tenant second 11 activated
unfolding persist_staged_content mark_ready activate get_row select_where having set_row
publication_replaces_example =
    publication_replaces store persisted marked activated 100 110 120 11 7 1 11 (3 ∷ []) tenant
      second job [] [] refl refl refl refl fresh refl refl refl

abbrev started : Store
unfolding start
started = started_by (start store 60 100 7)

-- An activation that is late: another one has made generation 12 the active one in the meantime.
abbrev overtaken : Store
overtaken = record marked {
  tenants = record { id = 1; active_index_generation_id = some 12; retrieval_revision = 4 } ∷ [];
  manifest =
      record { generation_id = 12; document_id = 6; tenant_id = 1; document_version_id = 61 }
      ∷ marked.manifest;
}

abbrev refreshed : Store
unfolding activate
refreshed = store_of (activate overtaken 120 7 51 11)

abbrev later_tenant : Tenant
later_tenant = record { id = 1; active_index_generation_id = some 12; retrieval_revision = 4 }

abbrev or_first : {A : Type 0} → Option A → A → A
or_first none a = a
or_first (some b) a = b

abbrev staged_version : DocumentVersion
unfolding get_row
staged_version = or_first (version_row 51 overtaken) second

abbrev staged_generation : IndexGeneration
unfolding get_row
staged_generation = or_first (generation_row 11 overtaken) generation

abbrev staged_job : IngestionJob
unfolding get_row
staged_job = or_first (job_row 7 overtaken) job

activate_replaces_example : IsReplaced overtaken later_tenant staged_version 11 refreshed
unfolding activate get_row having persist_staged_content mark_ready select_where set_row
activate_replaces_example =
    activate_replaces overtaken refreshed 120 7 51 11 later_tenant staged_version staged_generation
      staged_job refl refl refl refl refl (λ e. ground arith) (λ e. cc) refl
