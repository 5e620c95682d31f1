-- ===== src/Ingest/Reconcile/Retention.antt =====
-- Which versions a garbage collection has to keep, said without the order of the query, and that
-- `protected_versions` holds them.
use etoeragcb.Base.{
  ℕ, zero, suc, ◌<◌, Bool, true, false, not, ◌&&◌, ◌||◌, ◌≡◌, ◌⊎◌, refl, ap, sym, ◌∙◌, Option, none,
  some, List, [], ◌∷◌, map, take, nat_eq, nat_keys, ltb, leb, arith, Bool-cases, inl, inr, Any,
  Any-map, occurrences, Any-with-All, subst, if◌then◌else◌,
}
use etoeragcb.Base.Counter.{contains, contains-append}
use etoeragcb.Base.Sort.{
  TotalOrder, IsSorted, sort_by, sort_by-IsSorted, Any-sort_by, occurrences-sort_by,
}
use etoeragcb.Base.Table.{select_where}
use etoeragcb.Ingest.Tables.{
  VersionStatus, staged, processing, ready, active, IndexGeneration, live, Store,
}
use etoeragcb.Ingest.Reconcile.Garbage.{
  is_activated, is_kept, later_or_same, is_later, retained_ids, protected_versions,
}

-- One generation was activated after another: at a later time, or at the same time with a greater
-- identifier; a missing time counts as the latest.
unfoldable pub is_activated_after : Option ℕ → ℕ → Option ℕ → ℕ → Bool
is_activated_after none i none j = ltb j i
is_activated_after none i (some u) j = true
is_activated_after (some t) i none j = false
is_activated_after (some t) i (some u) j = ltb u t || (nat_eq t u && ltb j i)

abbrev pub is_newer_than : IndexGeneration → IndexGeneration → Bool
is_newer_than g h = is_activated_after h.activated_at h.id g.activated_at g.id

-- A version that the manifest of an activated generation of the tenant holds, where fewer activated
-- generations of the tenant than are to be retained are newer.
pub record IsRetained (s : Store) (tenant_id retained id : ℕ) : Type 0 where
  pub generation : IndexGeneration
  pub stored : Any (λ g. g ≡ generation) s.generations
  pub own : generation.tenant_id ≡ tenant_id
  pub activated : generation.status ≡ live
  pub recent :
      occurrences
        (λ h. (nat_eq h.tenant_id tenant_id && is_activated h.status) && is_newer_than generation h)
        s.generations
      < retained
  pub held :
      Any
        (λ m.
          (m.tenant_id ≡ tenant_id)
          × (m.generation_id ≡ generation.id)
          × (m.document_version_id ≡ id))
        s.manifest

-- A version of the tenant in work or active.
abbrev pub IsInUse : Store → ℕ → ℕ → Type 0
IsInUse s tenant_id id =
    Any
      (λ v.
        (v.id ≡ id)
        × (v.tenant_id ≡ tenant_id)
        × ((v.status ≡ staged)
            ⊎ (v.status ≡ processing)
            ⊎ (v.status ≡ ready)
            ⊎ (v.status ≡ active)))
      s.versions

unfoldable later_pair : Option ℕ → ℕ → Option ℕ → ℕ → Bool
unfolding later_or_same
later_pair t i u j = if later_or_same t u && later_or_same u t then leb j i else later_or_same t u

later_pair_newer :
    (t : Option ℕ) (i : ℕ) (u : Option ℕ) (j : ℕ)
    → not (later_pair t i u j) ≡ is_activated_after u j t i
unfolding later_pair later_or_same is_activated_after
later_pair_newer none i none j = ground arith
later_pair_newer none i (some u) j = ground arith
later_pair_newer (some t) i none j = ground arith
later_pair_newer (some t) i (some u) j = ground arith

later_pair_total :
    (t : Option ℕ) (i : ℕ) (u : Option ℕ) (j : ℕ)
    → later_pair t i u j ≡ false
    → later_pair u j t i ≡ true
unfolding later_pair later_or_same
later_pair_total none i none j h = ground arith
later_pair_total none i (some u) j h = ground arith
later_pair_total (some t) i none j h = ground arith
later_pair_total (some t) i (some u) j h = ground arith

later_pair_trans :
    (t : Option ℕ) (i : ℕ) (u : Option ℕ) (j : ℕ) (v : Option ℕ) (k : ℕ)
    → later_pair t i u j ≡ true
    → later_pair u j v k ≡ true
    → later_pair t i v k ≡ true
unfolding later_pair later_or_same
later_pair_trans none i none j none k h g = ground arith
later_pair_trans none i none j (some v) k h g = ground arith
later_pair_trans none i (some u) j none k h g = ground arith
later_pair_trans none i (some u) j (some v) k h g = ground arith
later_pair_trans (some t) i none j v k h g = ground arith
later_pair_trans (some t) i (some u) j none k h g = ground arith
later_pair_trans (some t) i (some u) j (some v) k h g = ground arith

later_pair_both :
    (t : Option ℕ) (i : ℕ) (u : Option ℕ) (j : ℕ)
    → later_pair t i u j ≡ true
    → later_pair u j t i ≡ true
    → j ≡ i
unfolding later_pair later_or_same
later_pair_both none i none j h g = ground arith
later_pair_both none i (some u) j h g = ground arith
later_pair_both (some t) i none j h g = ground arith
later_pair_both (some t) i (some u) j h g = ground arith

is_later-TotalOrder : TotalOrder is_later
unfolding is_later later_pair
is_later-TotalOrder = record {
  total = λ a b. later_pair_total a.activated_at a.id b.activated_at b.id;
  trans = λ a b c. later_pair_trans a.activated_at a.id b.activated_at b.id c.activated_at c.id;
}

module _ {A : Type 0} where
  Any-selected :
      (p : A → Bool) (x : A) (xs : List A)
      → p x ≡ true
      → Any (λ y. y ≡ x) xs
      → Any (λ y. y ≡ x) (select_where p xs)
  unfolding select_where
  Any-selected p x [] e h = h
  Any-selected p x (y ∷ ys) e (inl same) = rw (ap p same ∙ e) (inl same)
  Any-selected p x (y ∷ ys) e (inr h) = elim (Bool-cases (p y)) [
    | inl kept ↦ rw kept (inr (Any-selected p x ys e h))
    | inr out ↦ rw out (Any-selected p x ys e h)
  ]

  occurrences-select_where :
      (p q : A → Bool) (xs : List A)
      → occurrences q (select_where p xs) ≡ occurrences (λ x. p x && q x) xs
  unfolding select_where
  occurrences-select_where p q [] = omega arith
  occurrences-select_where p q (x ∷ xs) = ground (arith, occurrences-select_where p q xs)

  occurrences_cong :
      (p q : A → Bool) (xs : List A) → ((x : A) → p x ≡ q x) → occurrences p xs ≡ occurrences q xs
  occurrences_cong p q [] h = refl
  occurrences_cong p q (x ∷ xs) h = ground (arith, h x, occurrences_cong p q xs h)

  contains-map-select_where :
      (f : A → ℕ) (p : A → Bool) (id : ℕ) (xs : List A)
      → Any (λ x. (f x ≡ id) × (p x ≡ true)) xs
      → contains id (map f (select_where p xs)) ≡ true
  unfolding select_where contains
  contains-map-select_where f p id [] h = elim h [ ]
  contains-map-select_where f p id (x ∷ xs) (inl (e, kept)) = ground (arith, e, kept)
  contains-map-select_where f p id (x ∷ xs) (inr h) =
      let rest = contains-map-select_where f p id xs h in ground (arith, rest)

  -- The key of an element with few elements before it is among the first of a sorted list.
  contains-take-sorted :
      (le : A → A → Bool) (key : A → ℕ)
      → ((x y : A) → le x y ≡ true → le y x ≡ true → key y ≡ key x)
      → (x : A) (n : ℕ) (ys : List A) → IsSorted le ys
      → Any (λ y. y ≡ x) ys
      → occurrences (λ y. not (le x y)) ys < n
      → contains (key x) (take n (map key ys)) ≡ true
  unfolding contains
  contains-take-sorted le key both x zero ys sorted h few = absurd (omega arith)
  contains-take-sorted le key both x (suc n) [] sorted h few = elim h [ ]
  contains-take-sorted le key both x (suc n) (y ∷ ys) sorted (inl e) few =
      let same : key y ≡ key x = ap key e in ground (arith, same)
  contains-take-sorted le key both x (suc n) (y ∷ ys) (least, sorted) (inr h) few =
      elim (Bool-cases (le x y)) [
        | inl e ↦
            let (z, is_x, after) = Any-with-All _ _ ys h least in
            let same : key y ≡ key x = both x y e (subst (λ w. le y w ≡ true) is_x after) in
            ground (arith, same)
        | inr e ↦
            let rest = contains-take-sorted le key both x n ys sorted h (ground (arith, e, few)) in
            ground (arith, rest)
      ]

in_use-is_kept :
    (v : VersionStatus)
    → (v ≡ staged) ⊎ (v ≡ processing) ⊎ (v ≡ ready) ⊎ (v ≡ active)
    → is_kept v ≡ true
in_use-is_kept v (inl e) = ap is_kept e
in_use-is_kept v (inr (inl e)) = ap is_kept e
in_use-is_kept v (inr (inr (inl e))) = ap is_kept e
in_use-is_kept v (inr (inr (inr e))) = ap is_kept e

retained-listed :
    (s : Store) (tenant_id retained id : ℕ)
    → (r : IsRetained s tenant_id retained id)
    → contains r.generation.id (retained_ids tenant_id retained s) ≡ true
unfolding retained_ids is_later later_pair
retained-listed s tenant_id retained id r =
    let own = (λ (g : IndexGeneration). nat_eq g.tenant_id tenant_id && is_activated g.status) in
    let live_ones = select_where own s.generations in
    let is_own : own r.generation ≡ true = ground (arith, r.own, ap is_activated r.activated) in
    let newer = (λ (h : IndexGeneration). not (is_later r.generation h)) in
    contains-take-sorted is_later (λ g. g.id)
      (λ x y. later_pair_both x.activated_at x.id y.activated_at y.id) r.generation retained
      (sort_by is_later live_ones) (sort_by-IsSorted is_later is_later-TotalOrder live_ones)
      (Any-sort_by is_later _ live_ones
        (Any-selected own r.generation s.generations is_own r.stored))
      (subst (λ n. n < retained)
        (sym (
          occurrences-sort_by is_later newer live_ones
          ∙ occurrences-select_where own newer s.generations
          ∙ occurrences_cong _ _ s.generations (λ h.
            ap (λ b. own h && b)
              (later_pair_newer r.generation.activated_at r.generation.id h.activated_at h.id))))
        r.recent)

or-true : (b : Bool) → b || true ≡ true
or-true b = ground arith

-- The code protects what is retained or in use.
pub protected_lem :
    (s : Store) (tenant_id retained id : ℕ)
    → IsRetained s tenant_id retained id ⊎ IsInUse s tenant_id id
    → contains id (protected_versions tenant_id retained s) ≡ true
unfolding protected_versions
protected_lem s tenant_id retained id (inl r) =
    let listed = retained-listed s tenant_id retained id r in
    let found =
      contains-map-select_where (λ m. m.document_version_id)
        (λ m.
          nat_eq m.tenant_id tenant_id
          && contains m.generation_id (retained_ids tenant_id retained s))
        id s.manifest
        (Any-map (λ m (own, listed_in, here). (here, rw (own, listed_in) (ground (arith, listed))))
          s.manifest r.held) in
    rw (contains-append id _ _, found) refl
protected_lem s tenant_id retained id (inr used) =
    let found =
      contains-map-select_where (λ v. v.id) (λ v. nat_eq v.tenant_id tenant_id && is_kept v.status)
        id s.versions
        (Any-map
          (λ v (here, own, used_so). (here, ground (arith, own, in_use-is_kept v.status used_so)))
          s.versions used) in
    rw (contains-append id _ _, found) (or-true _)
