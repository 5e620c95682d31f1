-- ===== src/Ingest/Reconcile/Repetition.antt =====
-- A garbage collection that is run again finds nothing.
use mathlib.Core.Bool.{true≢false}
use etoeragcb.Base.{
  ℕ, Bool, true, false, ◌&&◌, ◌≡◌, refl, ap, sym, ◌∙◌, subst, Option, some, List, [], ◌∷◌, nat_eq,
  nat_keys, arith, Bool-cases, inl, inr, All,
}
use etoeragcb.Base.Text.{Text}
use etoeragcb.Base.Counter.{contains}
use etoeragcb.Base.Table.{select_where, update_where}
use etoeragcb.Base.Result.{Result, ok}
use etoeragcb.Ingest.Tables.{DocumentVersion, Store}
use etoeragcb.Ingest.Jobs.{JobError}
use etoeragcb.Ingest.Reconcile.Garbage.{
  is_kept, retained_ids, protected_versions, is_collectable, collectable, sweep, Collected, collect,
  garbage_collect_inactive_versions,
}
use etoeragcb.Ingest.Reconcile.Protection.{ids_of, collect-eq-ok}

abbrev collected_at : ℕ → DocumentVersion → DocumentVersion
collected_at now v = record v { garbage_collected_at = some now }

kept_same :
    (now tenant_id : ℕ) (ids : List ℕ) (vs : List DocumentVersion)
    → ids_of (
        select_where
          (λ v. nat_eq v.tenant_id tenant_id && is_kept v.status)
          (update_where (λ v. contains v.id ids) (collected_at now) vs))
      ≡ ids_of (select_where (λ v. nat_eq v.tenant_id tenant_id && is_kept v.status) vs)
unfolding select_where update_where
kept_same now tenant_id ids [] = refl
kept_same now tenant_id ids (v ∷ vs) = elim (Bool-cases (contains v.id ids)) [
  | inl e ↦ rw e (ground (arith, kept_same now tenant_id ids vs))
  | inr e ↦ rw e (ground (arith, kept_same now tenant_id ids vs))
]

-- A collection leaves the protected versions what they were.
protected_same :
    (now tenant_id retained : ℕ) (ids : List ℕ) (s : Store)
    → protected_versions tenant_id retained (sweep now ids s)
      ≡ protected_versions tenant_id retained s
unfolding protected_versions retained_ids sweep
protected_same now tenant_id retained ids s = rw (kept_same now tenant_id ids s.versions) refl

-- Each row that is collectable is among those that are swept.
Swept : (DocumentVersion → Bool) → List ℕ → List DocumentVersion → Type 0
Swept c ids = All (λ v. c v ≡ true → contains v.id ids ≡ true)

more_to_sweep :
    (c : DocumentVersion → Bool) (id : ℕ) (ids : List ℕ) (vs : List DocumentVersion)
    → Swept c ids vs
    → Swept c (id ∷ ids) vs
unfolding Swept contains
more_to_sweep c id ids [] h = tt
more_to_sweep c id ids (v ∷ vs) (first, more) =
    (λ e. let there = first e in ground (arith, there), more_to_sweep c id ids vs more)

all_to_sweep :
    (c : DocumentVersion → Bool) (vs : List DocumentVersion)
    → Swept c (ids_of (select_where c vs)) vs
unfolding Swept contains select_where
all_to_sweep c [] = tt
all_to_sweep c (v ∷ vs) = elim (Bool-cases (c v)) [
  | inl e ↦
      let chosen : select_where c (v ∷ vs) ≡ v ∷ select_where c vs = rw e refl in
      subst (λ z. Swept c (ids_of z) (v ∷ vs)) (sym chosen)
        ((λ _. ground arith), more_to_sweep c v.id _ vs (all_to_sweep c vs))
  | inr e ↦
      let skipped : select_where c (v ∷ vs) ≡ select_where c vs = rw e refl in
      subst (λ z. Swept c (ids_of z) (v ∷ vs)) (sym skipped)
        ((λ t. absurd (true≢false (sym t ∙ e))), all_to_sweep c vs)
]

none_left :
    (c : DocumentVersion → Bool) (now : ℕ) (ids : List ℕ) (vs : List DocumentVersion)
    → ((v : DocumentVersion) → c (collected_at now v) ≡ false)
    → Swept c ids vs
    → select_where c (update_where (λ v. contains v.id ids) (collected_at now) vs) ≡ []
unfolding Swept select_where update_where
none_left c now ids [] done h = refl
none_left c now ids (v ∷ vs) done (first, more) =
    let rest = none_left c now ids vs done more in
    elim (Bool-cases (contains v.id ids)) [
      | inl e ↦ rw (e, done v) rest
      | inr e ↦ elim (Bool-cases (c v)) [
        | inl t ↦ absurd (true≢false (sym (first t) ∙ e))
        | inr f ↦ rw (e, f) rest
      ]
    ]

collectable_collected :
    (tenant_id now : ℕ) (older_than : Option ℕ) (protected : List ℕ) (v : DocumentVersion)
    → is_collectable tenant_id older_than protected (collected_at now v) ≡ false
unfolding is_collectable
collectable_collected tenant_id now older_than protected v = ground arith

collectable_swept :
    (tenant_id now retained : ℕ) (older_than : Option ℕ) (s : Store)
    → collectable tenant_id retained older_than
        (sweep now (ids_of (collectable tenant_id retained older_than s)) s)
      ≡ []
unfolding collectable sweep
collectable_swept tenant_id now retained older_than s =
    let protected = protected_versions tenant_id retained s in
    let c = is_collectable tenant_id older_than protected in
    let ids = ids_of (select_where c s.versions) in
    ap
      (λ p.
        select_where (is_collectable tenant_id older_than p)
          (update_where (λ v. contains v.id ids) (collected_at now) s.versions))
      (unfold sweep in protected_same now tenant_id retained ids s)
    ∙ none_left c now ids s.versions (collectable_collected tenant_id now older_than protected)
        (all_to_sweep c s.versions)

module _ {I : Type 0} (delete_versions : I → ℕ → List ℕ → Result JobError I) where
  -- A garbage collection that returns, run again with the same arguments at any later time, finds no
  -- version and leaves the store, the index and the files as the first one left them.
  pub garbage_again :
      (s : Store) (index : I) (files : List Text) (now later tenant_id retained : ℕ)
      (older_than : Option ℕ) (c : Collected I)
      → garbage_collect_inactive_versions delete_versions s index files now tenant_id retained
          older_than
        ≡ ok c
      → garbage_collect_inactive_versions delete_versions c.store c.index c.files later tenant_id
          retained older_than
        ≡ ok (record {
          store = c.store;
          index = c.index;
          files = c.files;
          result = record { versions = 0; chunks = 0; files = 0 };
        })
  unfolding garbage_collect_inactive_versions collect
  garbage_again s index files now later tenant_id retained older_than c h =
      let left : collectable tenant_id retained older_than c.store ≡ [] =
        elim (collect-eq-ok delete_versions s index files now tenant_id
          (collectable tenant_id retained older_than s) c h) [
            | inl (nothing, same) ↦ rw same nothing
            | inr swept ↦ rw swept (collectable_swept tenant_id now retained older_than s)
          ] in
      rw left refl
