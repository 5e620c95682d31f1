-- ===== src/Base/Counter.antt =====
-- Python's `Counter`, and a `set` as the list of its members in the order of insertion.
use Prim.Native.Nat.{ℕ, suc}
use mathlib.Core.Path.{◌≡◌, refl}
use mathlib.Core.Logic.{inl, inr}
use mathlib.Core.Bool.{Bool, true, false, ◌||◌}
use mathlib.Core.List.{List, [], ◌∷◌, ◌++◌}
use native.Mathlib.Omega.{arith}
use etoeragcb.Base.Tests.{Keys, ◌==◌, if◌then◌else◌, Bool-cases}

module _ {ℓ} {K : Type ℓ} ⦃e : Keys K⦄ where
  -- `counter[k]`, 0 for a key that was never counted.
  unfoldable pub count_of : K → List (K × ℕ) → ℕ
  count_of k [] = 0
  count_of k ((j, n) ∷ c) = if j == k then n else count_of k c

  -- `counter[k] += 1`.
  unfoldable pub bump : K → List (K × ℕ) → List (K × ℕ)
  bump k [] = (k, 1) ∷ []
  bump k ((j, n) ∷ c) = if j == k then (j, suc n) ∷ c else (j, n) ∷ bump k c

  pub count_of-bump :
      (j k : K) (c : List (K × ℕ))
      → count_of j (bump k c) ≡ (if k == j then suc (count_of j c) else count_of j c)
  unfolding count_of bump
  count_of-bump j k [] = ground arith
  count_of-bump j k ((i, n) ∷ c) =
      ground (arith, e.same_iff i k, e.same_iff i j, e.same_iff k j, count_of-bump j k c)

  -- `k in xs`.
  unfoldable pub contains : K → List K → Bool
  contains k [] = false
  contains k (x ∷ xs) = x == k || contains k xs

  -- `s.add(k)`, which is also how `dict.fromkeys` keeps the first of equal keys.
  unfoldable pub add : K → List K → List K
  unfolding contains
  add k xs = if contains k xs then xs else xs ++ k ∷ []

  -- Every key of the second list added to the first.
  unfoldable pub add_all : List K → List K → List K
  unfolding add
  add_all xs [] = xs
  add_all xs (k ∷ ks) = add_all (add k xs) ks

  -- `left - right`, as a list.
  unfoldable pub difference : List K → List K → List K
  unfolding contains
  difference [] ys = []
  difference (x ∷ xs) ys = if contains x ys then difference xs ys else x ∷ difference xs ys

  -- `left & right`.
  unfoldable pub intersection : List K → List K → List K
  unfolding contains
  intersection [] ys = []
  intersection (x ∷ xs) ys = if contains x ys then x ∷ intersection xs ys else intersection xs ys

  pub contains-append :
      (k : K) (xs ys : List K) → contains k (xs ++ ys) ≡ (contains k xs || contains k ys)
  unfolding contains
  contains-append k [] ys = refl
  contains-append k (x ∷ xs) ys = ground (arith, contains-append k xs ys)

  pub contains-add : (j k : K) (xs : List K) → contains j (add k xs) ≡ (contains j xs || k == j)
  unfolding contains add
  contains-add j k xs =
      ground (arith, contains-append j xs (k ∷ []), e.same_iff k j, contains-eq j k xs)
    where
      contains-eq :
          (j k : K) (xs : List K) → (k == j) ≡ true → contains k xs ≡ true → contains j xs ≡ true
      contains-eq j k xs p h = rw (← (e.same_iff k j).0 p) h

  pub contains-add_all :
      (j : K) (xs ks : List K) → contains j (add_all xs ks) ≡ (contains j xs || contains j ks)
  unfolding contains add_all
  contains-add_all j xs [] = ground arith
  contains-add_all j xs (k ∷ ks) =
      ground (arith, contains-add_all j (add k xs) ks, contains-add j k xs)

  -- An empty difference means that every key of the left list is a key of the right one.
  pub difference-nil :
      (k : K) (xs ys : List K) → difference xs ys ≡ [] → contains k xs ≡ true → contains k ys ≡ true
  unfolding difference contains
  difference-nil k [] ys d h = cc
  difference-nil k (x ∷ xs) ys d h = elim (Bool-cases (contains x ys)) [
    | inl p ↦ elim (Bool-cases (x == k)) [
      | inl q ↦ rw (← (e.same_iff x k).0 q) p
      | inr q ↦ difference-nil k xs ys (ground arith) (ground arith)
    ]
    | inr p ↦ ground arith
  ]
