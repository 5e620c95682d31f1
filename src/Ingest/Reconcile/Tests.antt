-- ===== src/Ingest/Reconcile/Tests.antt =====
-- Deletions, reconciliation and collections at concrete inputs.
use etoeragcb.Base.{ℕ, ◌≡◌, refl, Option, none, some, List, [], ◌∷◌, ◌++◌, nat_keys, inl, arith}
use etoeragcb.Base.Sort.{sort_by}
use etoeragcb.Base.Counter.{contains}
use etoeragcb.Base.Table.{set_row, update_where, select_where, having, get_row}
use etoeragcb.Base.Result.{Result, ok, raise}
use etoeragcb.Ingest.Tables.{DocumentVersion, superseded, Store, IngestionJob}
use etoeragcb.Ingest.Jobs.{JobError, deleted, version_row, job_row}
use etoeragcb.Ingest.Jobs.Finish.{activate}
use etoeragcb.Ingest.Jobs.Manifest.{manifest_of}
use etoeragcb.Ingest.Jobs.Samples.{tenant, first, second, generation, job, store}
use etoeragcb.Ingest.Reconcile.{LookupError, tombstone_document}
use etoeragcb.Ingest.Reconcile.Tombstones.{IsBuried, tombstone_buries, tombstone_stays}
use etoeragcb.Ingest.Reconcile.Garbage.{Collected, garbage_collect_inactive_versions}
use etoeragcb.Ingest.Reconcile.Retention.{IsRetained, is_activated_after}
use etoeragcb.Ingest.Reconcile.Protection.{IsSpared, garbage_spares}

abbrev or_first : {A : Type 0} → Option A → A → A
or_first none a = a
or_first (some b) a = b

abbrev deleted_by : Result LookupError (Store × ℕ) → Store
deleted_by (ok (s, revision)) = s
deleted_by (raise e) = store

abbrev buried : Store
unfolding tombstone_document
buried = deleted_by (tombstone_document store 100 11 1 5)

tombstone_buries_example : IsBuried store 11 1 5 tenant buried 4
unfolding tombstone_document get_row having manifest_of select_where
tombstone_buries_example = tombstone_buries store buried 100 11 1 5 4 tenant refl refl refl

abbrev buried_version : DocumentVersion
unfolding get_row
buried_version = or_first (version_row 51 buried) second

abbrev buried_job : IngestionJob
unfolding get_row
buried_job = or_first (job_row 7 buried) job

tombstone_stays_example : activate buried 110 7 51 10 ≡ raise deleted
unfolding tombstone_document get_row having manifest_of select_where set_row update_where contains
tombstone_stays_example =
    tombstone_stays store buried 100 110 11 1 5 4 7 51 10 tenant buried_version generation
      buried_job refl refl refl refl refl refl refl refl

abbrev old : DocumentVersion
old = record first { id = 49; status = superseded }

abbrev grown : Store
grown = record store { versions = old ∷ store.versions }

abbrev deletes : List ℕ → ℕ → List ℕ → Result JobError (List ℕ)
deletes index tenant_id ids = ok (ids ++ index)

abbrev collected_by : Result JobError (Collected (List ℕ)) → Collected (List ℕ)
collected_by (ok c) = c
collected_by (raise e) = record {
  store = store;
  index = [];
  files = [];
  result = record { versions = 0; chunks = 0; files = 0 };
}

abbrev collected : Collected (List ℕ)
unfolding garbage_collect_inactive_versions
collected = collected_by (garbage_collect_inactive_versions deletes grown [] [] 200 1 2 none)

-- The active manifest holds the superseded version.
abbrev holding : Store
holding = record grown {
  manifest =
      record { generation_id = 10; document_id = 5; tenant_id = 1; document_version_id = 49 } ∷ [];
}

abbrev holding_collected : Collected (List ℕ)
unfolding garbage_collect_inactive_versions
holding_collected =
    collected_by (garbage_collect_inactive_versions deletes holding [] [] 200 1 1 none)

holding-IsRetained : IsRetained holding 1 1 49
unfolding is_activated_after
holding-IsRetained = record {
  generation = generation;
  stored = inl refl;
  own = refl;
  activated = refl;
  recent = omega arith;
  held = inl (refl, refl, refl);
}

garbage_spares_example : IsSpared 49 holding holding_collected.store
unfolding garbage_collect_inactive_versions select_where contains sort_by
garbage_spares_example =
    garbage_spares deletes holding [] [] 200 1 1 none holding_collected 49 (inl holding-IsRetained)
      refl
