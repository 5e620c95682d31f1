-- ===== src/Ingest/Reconcile/Garbage.antt =====
-- `garbage_collect_inactive_versions` of backend/app/ingest/reconcile.py. The index is a parameter: what
-- its `delete_versions` makes of it, or an error. The stored files are the list of their keys.
use etoeragcb.Base.{
  ℕ, Bool, true, false, not, ◌&&◌, Option, none, some, List, [], ◌∷◌, ◌++◌, map, length, take, ltb,
  leb, nat_eq, suc, nat_keys, text_keys, if◌then◌else◌,
}
use etoeragcb.Base.Text.{Text}
use etoeragcb.Base.Sort.{sort_by}
use etoeragcb.Base.Counter.{contains}
use etoeragcb.Base.Table.{select_where, update_where, delete_where}
use etoeragcb.Base.Result.{Result, ok, ◌>>=◌}
use etoeragcb.Ingest.Tables.{
  VersionStatus, active, failed, superseded, DocumentVersion, IndexGeneration, GenerationStatus,
  live, Store, is_null,
}
use etoeragcb.Ingest.Jobs.{JobError}
use etoeragcb.Ingest.Reconcile.{is_pending}

abbrev pub is_activated : GenerationStatus → Bool
is_activated live = true
is_activated s = false

abbrev pub is_spent : VersionStatus → Bool
is_spent failed = true
is_spent superseded = true
is_spent s = false

abbrev pub is_kept : VersionStatus → Bool
is_kept active = true
is_kept s = is_pending s

-- A time where there is one comes after none: descending order puts a missing one first.
unfoldable pub later_or_same : Option ℕ → Option ℕ → Bool
later_or_same none b = true
later_or_same (some a) none = false
later_or_same (some a) (some b) = leb b a

-- `order_by(activated_at.desc(), id.desc())`.
unfoldable pub is_later : IndexGeneration → IndexGeneration → Bool
unfolding later_or_same
is_later a b =
    if later_or_same a.activated_at b.activated_at && later_or_same b.activated_at a.activated_at
    then leb b.id a.id
    else later_or_same a.activated_at b.activated_at

unfoldable pub retained_ids : ℕ → ℕ → Store → List ℕ
unfolding is_later
retained_ids tenant_id retained s = take retained (
    map (λ g. g.id)
      (sort_by is_later
        (select_where (λ g. nat_eq g.tenant_id tenant_id && is_activated g.status) s.generations)))

-- The versions of the retained manifests, and those that are in work or active.
unfoldable pub protected_versions : ℕ → ℕ → Store → List ℕ
unfolding retained_ids
protected_versions tenant_id retained s =
    map (λ r. r.document_version_id)
      (select_where
        (λ r.
          nat_eq r.tenant_id tenant_id
          && contains r.generation_id (retained_ids tenant_id retained s))
        s.manifest)
    ++ map (λ v. v.id)
        (select_where (λ v. nat_eq v.tenant_id tenant_id && is_kept v.status) s.versions)

unfoldable pub is_older : Option ℕ → ℕ → Bool
is_older none created_at = true
is_older (some older_than) created_at = ltb created_at older_than

unfoldable pub is_collectable : ℕ → Option ℕ → List ℕ → DocumentVersion → Bool
unfolding is_older
is_collectable tenant_id older_than protected v =
    (nat_eq v.tenant_id tenant_id && (is_spent v.status && is_null v.garbage_collected_at))
    && (is_older older_than v.created_at && not (contains v.id protected))

unfoldable pub collectable : ℕ → ℕ → Option ℕ → Store → List DocumentVersion
unfolding protected_versions is_collectable
collectable tenant_id retained older_than s =
    select_where (is_collectable tenant_id older_than (protected_versions tenant_id retained s))
      s.versions

-- The files of the versions, where they exist: those that are left, and how many were deleted.
unfoldable pub delete_files : List DocumentVersion → List Text → List Text × ℕ
delete_files [] files = (files, 0)
delete_files (v ∷ vs) files =
    let there = contains v.storage_key files in
    let rest =
      delete_files vs
        (if there then delete_where (λ k. contains k (v.storage_key ∷ [])) files else files) in
    if there then (rest.0, suc rest.1) else rest

pub record GarbageCollectionResult : Type 0 where
  pub versions : ℕ
  pub chunks : ℕ
  pub files : ℕ

-- The last transaction.
unfoldable pub sweep : ℕ → List ℕ → Store → Store
sweep now ids s = record s {
  chunks = delete_where (λ r. contains r.document_version_id ids) s.chunks;
  sections = delete_where (λ r. contains r.document_version_id ids) s.sections;
  versions =
      update_where (λ v. contains v.id ids) (λ v. record v { garbage_collected_at = some now })
        s.versions;
}

-- The store, the index and the files after a collection.
pub record Collected (I : Type 0) : Type 0 where
  pub store : Store
  pub index : I
  pub files : List Text
  pub result : GarbageCollectionResult

module _ {I : Type 0} (delete_versions : I → ℕ → List ℕ → Result JobError I) where
  -- The part that follows once the versions are known.
  unfoldable pub collect :
      Store → I → List Text → ℕ → ℕ → List DocumentVersion → Result JobError (Collected I)
  unfolding delete_files sweep
  collect s index files now tenant_id [] = ok (record {
    store = s;
    index = index;
    files = files;
    result = record { versions = 0; chunks = 0; files = 0 };
  })
  collect s index files now tenant_id (v ∷ vs) =
      let ids = map (λ c. c.id) (v ∷ vs) in
      let deleted = delete_files (v ∷ vs) files in
      let chunk_count = length (select_where (λ r. contains r.document_version_id ids) s.chunks) in
      do
        after ← delete_versions index tenant_id ids
        ok (record {
          store = sweep now ids s;
          index = after;
          files = deleted.0;
          result = record { versions = length ids; chunks = chunk_count; files = deleted.1 };
        })

  -- `garbage_collect_inactive_versions`.
  unfoldable pub garbage_collect_inactive_versions :
      Store → I → List Text → ℕ → ℕ → ℕ → Option ℕ → Result JobError (Collected I)
  unfolding collectable collect
  garbage_collect_inactive_versions s index files now tenant_id retained older_than =
      collect s index files now tenant_id (collectable tenant_id retained older_than s)
