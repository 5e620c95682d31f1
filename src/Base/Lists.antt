-- ===== src/Base/Lists.antt =====
-- Lists measured by native numbers, and predicates on lists by recursion.
use etoeragcb.Base.Tests.{if◌then◌else◌}
use mathlib.Core.Bool.{Bool, true}
use Prim.Native.Nat.{ℕ, zero, suc, ◌+◌, min, ◌≤◌, ◌-◌}
use mathlib.Core.Path.{◌≡◌, refl, ap}
use mathlib.Core.List.{List, [], ◌∷◌, ◌++◌, map}
use mathlib.Core.Logic.{◌⊎◌, inl, inr}
use native.Mathlib.Omega.{arith}

module _ {ℓ} {A : Type ℓ} where
  abbrev pub length : List A → ℕ
  length [] = 0
  length (x ∷ xs) = suc (length xs)

  abbrev pub take : ℕ → List A → List A
  take zero xs = []
  take (suc n) [] = []
  take (suc n) (x ∷ xs) = x ∷ take n xs

  abbrev pub drop : ℕ → List A → List A
  drop zero xs = xs
  drop (suc n) [] = []
  drop (suc n) (x ∷ xs) = drop n xs

  pub length-append : (xs ys : List A) → length (xs ++ ys) ≡ length xs + length ys
  length-append [] ys = omega arith
  length-append (x ∷ xs) ys = omega (arith, length-append xs ys)

  pub length-take : (n : ℕ) (xs : List A) → length (take n xs) ≡ min n (length xs)
  length-take zero xs = omega arith
  length-take (suc n) [] = omega arith
  length-take (suc n) (x ∷ xs) = omega (arith, length-take n xs)

  abbrev pub All {κ} : (A → Type κ) → List A → Type κ
  All P [] = Unit
  All P (x ∷ xs) = P x × All P xs

  -- Some element has the property; the first witness's place is kept.
  abbrev pub Any : (A → Type 0) → List A → Type 0
  Any P [] = ⊥
  Any P (x ∷ xs) = P x ⊎ Any P xs

  pub All-append {κ} : (P : A → Type κ) (xs ys : List A) → All P xs → All P ys → All P (xs ++ ys)
  All-append P [] ys front back = back
  All-append P (x ∷ xs) ys (first, more) back = (first, All-append P xs ys more back)

  pub All-map {κ υ} :
      {P : A → Type κ} {Q : A → Type υ} (f : (a : A) → P a → Q a) (xs : List A)
      → All P xs
      → All Q xs
  All-map f [] h = tt
  All-map f (x ∷ xs) h = (f x h.0, All-map f xs h.1)

  pub Any-append_left : (P : A → Type 0) (xs ys : List A) → Any P xs → Any P (xs ++ ys)
  Any-append_left P [] ys h = elim h [ ]
  Any-append_left P (x ∷ xs) ys (inl p) = inl p
  Any-append_left P (x ∷ xs) ys (inr p) = inr (Any-append_left P xs ys p)

  pub Any-append_right : (P : A → Type 0) (xs ys : List A) → Any P ys → Any P (xs ++ ys)
  Any-append_right P [] ys h = h
  Any-append_right P (x ∷ xs) ys h = inr (Any-append_right P xs ys h)

  pub Any-append_split : (P : A → Type 0) (xs ys : List A) → Any P (xs ++ ys) → Any P xs ⊎ Any P ys
  Any-append_split P [] ys h = inr h
  Any-append_split P (x ∷ xs) ys (inl p) = inl (inl p)
  Any-append_split P (x ∷ xs) ys (inr h) = elim (Any-append_split P xs ys h) [
    | inl a ↦ inl (inr a)
    | inr b ↦ inr b
  ]

  pub Any-map : {P Q : A → Type 0} (f : (a : A) → P a → Q a) (xs : List A) → Any P xs → Any Q xs
  Any-map f [] h = elim h [ ]
  Any-map f (x ∷ xs) (inl p) = inl (f x p)
  Any-map f (x ∷ xs) (inr p) = inr (Any-map f xs p)

  -- How many elements pass a test; lists with the same number for every test hold the same
  -- elements, as often.
  abbrev pub occurrences : (A → Bool) → List A → ℕ
  occurrences p [] = 0
  occurrences p (x ∷ xs) = let n = occurrences p xs in if p x then suc n else n

  pub occurrences-append :
      (p : A → Bool) (xs ys : List A)
      → occurrences p (xs ++ ys) ≡ occurrences p xs + occurrences p ys
  occurrences-append p [] ys = omega arith
  occurrences-append p (x ∷ xs) ys = ground (arith, occurrences-append p xs ys)

  pub occurrences_all : (xs : List A) → occurrences (λ x. true) xs ≡ length xs
  occurrences_all [] = refl
  occurrences_all (x ∷ xs) = omega (arith, occurrences_all xs)

module _ {ℓ κ} {A : Type ℓ} {B : Type κ} (f : A → B) where
  pub occurrences-map :
      (p : B → Bool) (xs : List A) → occurrences p (map f xs) ≡ occurrences (λ x. p (f x)) xs
  occurrences-map p [] = omega arith
  occurrences-map p (x ∷ xs) = ground (arith, occurrences-map p xs)

  pub length-map : (xs : List A) → length (map f xs) ≡ length xs
  length-map [] = omega arith
  length-map (x ∷ xs) = omega (arith, length-map xs)

  pub map-append_one : (xs : List A) (y : A) → map f (xs ++ y ∷ []) ≡ map f xs ++ f y ∷ []
  map-append_one [] y = refl
  map-append_one (x ∷ xs) y = rw (map-append_one xs y)

module _ {ℓ} {A : Type ℓ} where
  pub take_all : (n : ℕ) (xs : List A) → length xs ≤ n → take n xs ≡ xs
  take_all zero [] h = refl
  take_all zero (x ∷ xs) h = absurd (omega arith)
  take_all (suc n) [] h = refl
  take_all (suc n) (x ∷ xs) h = ap (λ ys. x ∷ ys) (take_all n xs (omega arith))

  pub length-drop : (n : ℕ) (xs : List A) → length (drop n xs) ≡ length xs - n
  length-drop zero xs = omega arith
  length-drop (suc n) [] = omega arith
  length-drop (suc n) (x ∷ xs) = omega (arith, length-drop n xs)

-- `n` numbers, from the first one on.
abbrev pub numbers_from : ℕ → ℕ → List ℕ
numbers_from start zero = []
numbers_from start (suc n) = start ∷ numbers_from (suc start) n

-- Each element of a list is one of its elements.
pub each_is_element : {A : Type 0} (xs : List A) → All (λ x. Any (λ y. y ≡ x) xs) xs
each_is_element [] = tt
each_is_element (x ∷ xs) = (inl refl, All-map (λ y h. inr h) xs (each_is_element xs))

-- An element with one property where all have another.
pub Any-with-All :
    {A : Type 0} (P Q : A → Type 0) (xs : List A) → Any P xs → All Q xs → (x : A) × P x × Q x
Any-with-All P Q [] h all = elim h [ ]
Any-with-All P Q (x ∷ xs) (inl p) (first, more) = (x, p, first)
Any-with-All P Q (x ∷ xs) (inr h) (first, more) = Any-with-All P Q xs h more
