-- ===== src/Base/Sort.antt =====
-- Python's `sorted`, a stable sort by a Boolean order: insertion into what follows.
use mathlib.Core.Path.{◌≡◌, refl}
use mathlib.Core.Bool.{Bool, true, false}
use mathlib.Core.List.{List, [], ◌∷◌, ◌++◌, Perm}
use mathlib.Core.List.Perm
use mathlib.Core.Logic.{inl, inr}
use native.Mathlib.Omega.{arith}
use etoeragcb.Base.Tests.{if◌then◌else◌, Bool-cases}
use etoeragcb.Base.Lists.{All, All-map, All-append, Any, occurrences}

pub record TotalOrder {ℓ} {A : Type ℓ} (le : A → A → Bool) : Type ℓ where
  pub total : (a b : A) → le a b ≡ false → le b a ≡ true
  pub trans : (a b c : A) → le a b ≡ true → le b c ≡ true → le a c ≡ true

module _ {ℓ} {A : Type ℓ} (le : A → A → Bool) where
  unfoldable pub insert_by : A → List A → List A
  insert_by x [] = x ∷ []
  insert_by x (y ∷ ys) = let rest = insert_by x ys in if le x y then x ∷ y ∷ ys else y ∷ rest

  unfoldable pub sort_by : List A → List A
  unfolding insert_by
  sort_by [] = []
  sort_by (x ∷ xs) = insert_by x (sort_by xs)

  abbrev pub IsSorted : List A → Type ℓ
  IsSorted [] = Unit
  IsSorted (x ∷ xs) = All (λ y. le x y ≡ true) xs × IsSorted xs

  insert_by-perm : (x : A) (ys : List A) → Perm (insert_by x ys) (x ∷ ys)
  unfolding insert_by
  insert_by-perm x [] = Perm.refl (x ∷ [])
  insert_by-perm x (y ∷ ys) = elim (Bool-cases (le x y)) [
    | inl p ↦ rw p (Perm.refl (x ∷ y ∷ ys))
    | inr p ↦ rw p (Perm.trans (Perm.cons y (insert_by-perm x ys)) (Perm.swap _ _ ys))
  ]

  pub sort_by-perm : (xs : List A) → Perm (sort_by xs) xs
  unfolding sort_by
  sort_by-perm [] = Perm.refl []
  sort_by-perm (x ∷ xs) = Perm.trans (insert_by-perm x (sort_by xs)) (Perm.cons x (sort_by-perm xs))

  All-insert_by {κ} :
      (P : A → Type κ) (x : A) (ys : List A) → P x → All P ys → All P (insert_by x ys)
  unfolding insert_by
  All-insert_by P x [] p h = (p, tt)
  All-insert_by P x (y ∷ ys) p h = elim (Bool-cases (le x y)) [
    | inl e ↦ rw e (p, h)
    | inr e ↦ rw e (h.0, All-insert_by P x ys p h.1)
  ]

  pub All-sort_by {κ} : (P : A → Type κ) (xs : List A) → All P xs → All P (sort_by xs)
  unfolding sort_by
  All-sort_by P [] h = tt
  All-sort_by P (x ∷ xs) h = All-insert_by P x (sort_by xs) h.0 (All-sort_by P xs h.1)

  occurrences-insert_by :
      (p : A → Bool) (x : A) (ys : List A) → occurrences p (insert_by x ys) ≡ occurrences p (x ∷ ys)
  unfolding insert_by
  occurrences-insert_by p x [] = refl
  occurrences-insert_by p x (y ∷ ys) = ground (arith, occurrences-insert_by p x ys)

  pub occurrences-sort_by :
      (p : A → Bool) (xs : List A) → occurrences p (sort_by xs) ≡ occurrences p xs
  unfolding sort_by
  occurrences-sort_by p [] = refl
  occurrences-sort_by p (x ∷ xs) =
      ground (arith, occurrences-insert_by p x (sort_by xs), occurrences-sort_by p xs)

  Any-insert_by_head : (P : A → Type 0) (x : A) (ys : List A) → P x → Any P (insert_by x ys)
  unfolding insert_by
  Any-insert_by_head P x [] p = inl p
  Any-insert_by_head P x (y ∷ ys) p = elim (Bool-cases (le x y)) [
    | inl e ↦ rw e (inl p)
    | inr e ↦ rw e (inr (Any-insert_by_head P x ys p))
  ]

  Any-insert_by_tail : (P : A → Type 0) (x : A) (ys : List A) → Any P ys → Any P (insert_by x ys)
  unfolding insert_by
  Any-insert_by_tail P x [] h = elim h [ ]
  Any-insert_by_tail P x (y ∷ ys) h = elim (Bool-cases (le x y)) [
    | inl e ↦ rw e (inr h)
    | inr e ↦ rw e (elim h [ inl q ↦ inl q | inr r ↦ inr (Any-insert_by_tail P x ys r) ])
  ]

  pub Any-sort_by : (P : A → Type 0) (xs : List A) → Any P xs → Any P (sort_by xs)
  unfolding sort_by
  Any-sort_by P [] h = h
  Any-sort_by P (x ∷ xs) (inl p) = Any-insert_by_head P x (sort_by xs) p
  Any-sort_by P (x ∷ xs) (inr h) = Any-insert_by_tail P x (sort_by xs) (Any-sort_by P xs h)

  module _ (o : TotalOrder le) where
    insert_by-IsSorted : (x : A) (ys : List A) → IsSorted ys → IsSorted (insert_by x ys)
    unfolding insert_by
    insert_by-IsSorted x [] s = (tt, tt)
    insert_by-IsSorted x (y ∷ ys) s = elim (Bool-cases (le x y)) [
      | inl e ↦ rw e ((e, All-map (λ z h. o.trans x y z e h) ys s.0), s)
      | inr e ↦
          rw e (
            All-insert_by (λ z. le y z ≡ true) x ys (o.total x y e) s.0,
            insert_by-IsSorted x ys s.1,
          )
    ]

    pub sort_by-IsSorted : (xs : List A) → IsSorted (sort_by xs)
    unfolding sort_by
    sort_by-IsSorted [] = tt
    sort_by-IsSorted (x ∷ xs) = insert_by-IsSorted x (sort_by xs) (sort_by-IsSorted xs)

module _ {ℓ} {A : Type ℓ} (le : A → A → Bool) where
  -- A sorted list stays sorted when what is put behind it is not smaller than its elements.
  pub IsSorted-append_one :
      (xs : List A) (y : A)
      → IsSorted le xs
      → All (λ x. le x y ≡ true) xs
      → IsSorted le (xs ++ y ∷ [])
  IsSorted-append_one [] y s h = (tt, tt)
  IsSorted-append_one (x ∷ xs) y s h =
      (All-append (λ z. le x z ≡ true) xs (y ∷ []) s.0 (h.0, tt), IsSorted-append_one xs y s.1 h.1)

-- A comparison by a key.
abbrev pub by_key {ℓ κ} : {A : Type ℓ} {K : Type κ} → (A → K) → (K → K → Bool) → A → A → Bool
by_key key le a b = le (key a) (key b)

pub by_key-TotalOrder {ℓ κ} :
    {A : Type ℓ} {K : Type κ} (key : A → K) (le : K → K → Bool)
    → TotalOrder le
    → TotalOrder (by_key key le)
by_key-TotalOrder key le o = record {
  total = λ a b. o.total (key a) (key b);
  trans = λ a b c. o.trans (key a) (key b) (key c);
}
