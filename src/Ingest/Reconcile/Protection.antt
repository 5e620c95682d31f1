-- ===== src/Ingest/Reconcile/Protection.antt =====
-- What a garbage collection keeps, and that a second one finds nothing.
use mathlib.Core.Bool.{true≢false}
use etoeragcb.Base.{
  ℕ, Bool, true, false, ◌≡◌, ◌⊎◌, refl, ap, sym, ◌∙◌, subst, Option, some, List, [], ◌∷◌, map,
  nat_eq, nat_keys, arith, Bool-cases, inl, inr,
}
use etoeragcb.Base.Text.{Text}
use etoeragcb.Base.Counter.{contains}
use etoeragcb.Base.Table.{
  select_where, delete_where, select_where-delete_where, get_row-key, get_row-update_where,
}
use etoeragcb.Base.Result.{Result, ok, bind-eq-ok, ok_injective}
use etoeragcb.Ingest.Tables.{DocumentVersion, Store, Stored}
use etoeragcb.Ingest.Jobs.{JobError, version_row}
use etoeragcb.Ingest.Reconcile.Retention.{IsRetained, IsInUse, protected_lem}
use etoeragcb.Ingest.Reconcile.Garbage.{
  protected_versions, is_collectable, collectable, sweep, Collected, collect,
  garbage_collect_inactive_versions,
}

abbrev pub ids_of : List DocumentVersion → List ℕ
ids_of vs = map (λ v. v.id) vs

unselected_id :
    (c : DocumentVersion → Bool) (id : ℕ) (vs : List DocumentVersion)
    → ((v : DocumentVersion) → v.id ≡ id → c v ≡ false)
    → contains id (ids_of (select_where c vs)) ≡ false
unfolding select_where contains
unselected_id c id [] h = refl
unselected_id c id (v ∷ vs) h = elim (Bool-cases (c v)) [
  | inr e ↦ rw e (unselected_id c id vs h)
  | inl e ↦ rw e (elim (Bool-cases (nat_eq v.id id)) [
    | inl same ↦ absurd (true≢false (sym e ∙ h v (ground arith)))
    | inr other ↦ rw other (unselected_id c id vs h)
  ])
]

-- The identifiers that are collected are not protected.
collected-unprotected :
    (tenant_id : ℕ) (older_than : Option ℕ) (protected : List ℕ) (id : ℕ)
    (vs : List DocumentVersion)
    → contains id protected ≡ true
    → contains id (ids_of (select_where (is_collectable tenant_id older_than protected) vs)) ≡ false
unfolding is_collectable
collected-unprotected tenant_id older_than protected id vs h = unselected_id _ id vs (λ v e.
    let there : contains v.id protected ≡ true = ap (λ i. contains i protected) e ∙ h in
    ground (arith, there))

-- A version as two stores have it: its row, chunks and sections, beside the tables that a collection
-- leaves alone.
pub record IsSpared (id : ℕ) (s s' : Store) : Type 0 where
  pub row : (v : DocumentVersion) → version_row id s ≡ some v → version_row id s' ≡ some v
  pub chunks :
      select_where (λ r. nat_eq r.document_version_id id) s'.chunks
      ≡ select_where (λ r. nat_eq r.document_version_id id) s.chunks
  pub sections :
      select_where (λ r. nat_eq r.document_version_id id) s'.sections
      ≡ select_where (λ r. nat_eq r.document_version_id id) s.sections
  pub manifest : s'.manifest ≡ s.manifest
  pub generations : s'.generations ≡ s.generations
  pub tenants : s'.tenants ≡ s.tenants

IsSpared-refl : (id : ℕ) (s : Store) → IsSpared id s s
IsSpared-refl id s = record {
  row = λ v h. h;
  chunks = refl;
  sections = refl;
  manifest = refl;
  generations = refl;
  tenants = refl;
}

stored_kept :
    {A : Type 0} (id : ℕ) (ids : List ℕ) (rows : List (Stored A))
    → contains id ids ≡ false
    → select_where
        (λ r. nat_eq r.document_version_id id)
        (delete_where (λ r. contains r.document_version_id ids) rows)
      ≡ select_where (λ r. nat_eq r.document_version_id id) rows
stored_kept id ids rows h = select_where-delete_where _ _ rows (λ r e.
    let same : r.document_version_id ≡ id = ground arith in ap (λ i. contains i ids) same ∙ h)

sweep-IsSpared :
    (now id : ℕ) (ids : List ℕ) (s : Store)
    → contains id ids ≡ false
    → IsSpared id s (sweep now ids s)
unfolding sweep
sweep-IsSpared now id ids s h = record {
  row = λ v found.
      get_row-update_where (λ r. r.id) id (λ r. contains r.id ids) _ s.versions v (λ x. refl) found
        (ap (λ i. contains i ids) (get_row-key (λ r. r.id) id s.versions v found) ∙ h);
  chunks = stored_kept id ids s.chunks h;
  sections = stored_kept id ids s.sections h;
  manifest = refl;
  generations = refl;
  tenants = refl;
}

module _ {I : Type 0} (delete_versions : I → ℕ → List ℕ → Result JobError I) where
  pub collect-eq-ok :
      (s : Store) (index : I) (files : List Text) (now tenant_id : ℕ) (vs : List DocumentVersion)
      (c : Collected I)
      → collect delete_versions s index files now tenant_id vs ≡ ok c
      → ((vs ≡ []) × (c.store ≡ s)) ⊎ (c.store ≡ sweep now (ids_of vs) s)
  unfolding collect
  collect-eq-ok s index files now tenant_id [] c h =
      inl (refl, ap (λ x. x.store) (sym (ok_injective _ c h)))
  collect-eq-ok s index files now tenant_id (v ∷ vs) c h =
      let (after, e, h1) = bind-eq-ok (delete_versions index tenant_id (ids_of (v ∷ vs))) _ h in
      inr (ap (λ x. x.store) (sym (ok_injective _ c h1)))

  -- A garbage collection that returns leaves a version alone that is staged, processing, ready or active,
  -- or that the manifest of an activated generation of the tenant holds, where fewer activated
  -- generations of the tenant are newer than are to be retained: its row, its chunks and its sections.
  -- Manifests, generations and tenants stay.
  pub garbage_spares :
      (s : Store) (index : I) (files : List Text) (now tenant_id retained : ℕ)
      (older_than : Option ℕ) (c : Collected I) (id : ℕ)
      → IsRetained s tenant_id retained id ⊎ IsInUse s tenant_id id
      → garbage_collect_inactive_versions delete_versions s index files now tenant_id retained
          older_than
        ≡ ok c
      → IsSpared id s c.store
  unfolding garbage_collect_inactive_versions collectable
  garbage_spares s index files now tenant_id retained older_than c id kept h =
      elim (collect-eq-ok s index files now tenant_id (collectable tenant_id retained older_than s)
        c h) [
          | inl (none_there, same) ↦ subst (λ z. IsSpared id s z) (sym same) (IsSpared-refl id s)
          | inr swept ↦
              subst (λ z. IsSpared id s z) (sym swept)
                (sweep-IsSpared now id _ s (
                  collected-unprotected tenant_id older_than
                    (protected_versions tenant_id retained s) id s.versions
                    (protected_lem s tenant_id retained id kept)))
        ]
