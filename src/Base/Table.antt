-- ===== src/Base/Table.antt =====
-- A table of a database as the list of its rows: the statements that read and change one, and rows by
-- their primary key.
use Prim.Native.Nat.{ℕ}
use mathlib.Core.Path.{◌≡◌, refl, ap, sym, ◌∙◌}
use mathlib.Core.Logic.{inl, inr}
use mathlib.Core.Bool.{Bool, true, false}
use mathlib.Core.Option.{Option, none, some, some-injective}
use mathlib.Core.List.{List, [], ◌∷◌, ◌++◌}
use native.Mathlib.Omega.{arith}
use etoeragcb.Base.Tests.{if◌then◌else◌, nat_eq, Bool-cases}

module _ {ℓ} {A : Type ℓ} where
  -- `select(...).where(...)`.
  unfoldable pub select_where : (A → Bool) → List A → List A
  select_where p [] = []
  select_where p (a ∷ rows) = let rest = select_where p rows in if p a then a ∷ rest else rest

  -- `update(...).where(...).values(...)`.
  unfoldable pub update_where : (A → Bool) → (A → A) → List A → List A
  update_where p f [] = []
  update_where p f (a ∷ rows) = (if p a then f a else a) ∷ update_where p f rows

  -- `delete(...).where(...)`.
  unfoldable pub delete_where : (A → Bool) → List A → List A
  delete_where p [] = []
  delete_where p (a ∷ rows) = let rest = delete_where p rows in if p a then rest else a ∷ rest

  -- A condition more on a row that was found.
  unfoldable pub having : (A → Bool) → Option A → Option A
  having p none = none
  having p (some a) = if p a then some a else none

  -- The first row, of a query whose rows are in order.
  unfoldable pub first_row : List A → Option A
  first_row [] = none
  first_row (a ∷ rows) = some a

  pub select_where-append :
      (p : A → Bool) (xs ys : List A)
      → select_where p (xs ++ ys) ≡ select_where p xs ++ select_where p ys
  unfolding select_where
  select_where-append p [] ys = refl
  select_where-append p (x ∷ xs) ys = elim (Bool-cases (p x)) [
    | inl e ↦ rw e (ap (λ zs. x ∷ zs) (select_where-append p xs ys))
    | inr e ↦ rw e (select_where-append p xs ys)
  ]

  -- Rows that a condition keeps out are not selected after they are gone either.
  pub select_where-delete_where :
      (p q : A → Bool) (rows : List A)
      → ((a : A) → p a ≡ true → q a ≡ false)
      → select_where p (delete_where q rows) ≡ select_where p rows
  unfolding select_where delete_where
  select_where-delete_where p q [] h = refl
  select_where-delete_where p q (a ∷ rows) h =
      ground (arith, h a, select_where-delete_where p q rows h)

  pub select_where_deleted :
      (p q : A → Bool) (rows : List A)
      → ((a : A) → p a ≡ true → q a ≡ true)
      → select_where p (delete_where q rows) ≡ []
  unfolding select_where delete_where
  select_where_deleted p q [] h = refl
  select_where_deleted p q (a ∷ rows) h = ground (arith, h a, select_where_deleted p q rows h)

  pub having-eq-some :
      (p : A → Bool) (o : Option A) (a : A) → having p o ≡ some a → (o ≡ some a) × (p a ≡ true)
  unfolding having
  having-eq-some p none a h = cc
  having-eq-some p (some x) a h = elim (Bool-cases (p x)) [
    | inl e ↦ let same : x ≡ a = ground arith in (ap some same, ap p (sym same) ∙ e)
    | inr e ↦ ground arith
  ]

module _ {ℓ} {A : Type ℓ} (key : A → ℕ) where
  -- `select(...).where(... .id == id)`.
  unfoldable pub get_row : ℕ → List A → Option A
  get_row id [] = none
  get_row id (a ∷ rows) = if nat_eq (key a) id then some a else get_row id rows

  -- The assignments to the row with an identifier.
  unfoldable pub set_row : ℕ → (A → A) → List A → List A
  set_row id f [] = []
  set_row id f (a ∷ rows) = (if nat_eq (key a) id then f a else a) ∷ set_row id f rows

  -- An assignment that keeps the key.
  pub get_row-set_row :
      (id : ℕ) (f : A → A) (rows : List A) (a : A)
      → ((x : A) → key (f x) ≡ key x)
      → get_row id rows ≡ some a
      → get_row id (set_row id f rows) ≡ some (f a)
  unfolding get_row set_row
  get_row-set_row id f [] a k h = cc
  get_row-set_row id f (x ∷ rows) a k h = elim (Bool-cases (nat_eq (key x) id)) [
    | inl e ↦ let same : x ≡ a = ground arith in rw (e, k x, e) (ap (λ z. some (f z)) same)
    | inr e ↦ rw (e, e) (get_row-set_row id f rows a k (rw e at h))
  ]

  -- The same, of an identifier that was read from the row.
  pub get_row-set_row_own :
      (id own : ℕ) (f : A → A) (rows : List A) (a : A)
      → ((x : A) → key (f x) ≡ key x)
      → own ≡ id
      → get_row id rows ≡ some a
      → get_row id (set_row own f rows) ≡ some (f a)
  get_row-set_row_own id own f rows a k e h =
      ap (λ i. get_row id (set_row i f rows)) e ∙ get_row-set_row id f rows a k h

  pub get_row-set_row_other :
      (id other : ℕ) (f : A → A) (rows : List A)
      → ((x : A) → key (f x) ≡ key x)
      → nat_eq id other ≡ false
      → get_row other (set_row id f rows) ≡ get_row other rows
  unfolding get_row set_row
  get_row-set_row_other id other f [] k h = refl
  get_row-set_row_other id other f (x ∷ rows) k h =
      ground (arith, k x, get_row-set_row_other id other f rows k h)

  -- An assignment that leaves the row with an identifier as it was.
  pub get_row-set_row_kept :
      (id own : ℕ) (f : A → A) (rows : List A) (a : A)
      → ((x : A) → key (f x) ≡ key x)
      → (own ≡ id → f a ≡ a)
      → get_row id rows ≡ some a
      → get_row id (set_row own f rows) ≡ some a
  get_row-set_row_kept id own f rows a k same h = elim (Bool-cases (nat_eq own id)) [
    | inl e ↦
        let equal : own ≡ id = ground arith in
        get_row-set_row_own id own f rows a k equal h ∙ ap some (same equal)
    | inr e ↦ get_row-set_row_other own id f rows k e ∙ h
  ]

  pub get_row-key : (id : ℕ) (rows : List A) (a : A) → get_row id rows ≡ some a → key a ≡ id
  unfolding get_row
  get_row-key id [] a h = cc
  get_row-key id (x ∷ rows) a h = ground (arith, get_row-key id rows a)

  -- Two rows that were found are one where the key of the first is the identifier of the second.
  pub get_row_same :
      (id other : ℕ) (rows : List A) (a b : A)
      → get_row id rows ≡ some a
      → get_row other rows ≡ some b
      → key a ≡ other
      → a ≡ b
  get_row_same id other rows a b g h e =
      some-injective a b (sym g ∙ ap (λ i. get_row i rows) (sym (get_row-key id rows a g) ∙ e) ∙ h)

  -- An update whose condition a row does not meet.
  pub get_row-update_where :
      (id : ℕ) (p : A → Bool) (f : A → A) (rows : List A) (a : A)
      → ((x : A) → key (f x) ≡ key x)
      → get_row id rows ≡ some a
      → p a ≡ false
      → get_row id (update_where p f rows) ≡ some a
  unfolding get_row update_where
  get_row-update_where id p f [] a k h e = cc
  get_row-update_where id p f (x ∷ rows) a k h e = elim (Bool-cases (nat_eq (key x) id)) [
    | inl here ↦
        let same : x ≡ a = some-injective x a (rw here at h) in
        let skipped : p x ≡ false = ap p same ∙ e in rw (skipped, here) (ap some same)
    | inr there ↦ elim (Bool-cases (p x)) [
      | inl met ↦ rw (met, k x, there) (get_row-update_where id p f rows a k (rw there at h) e)
      | inr unmet ↦ rw (unmet, there) (get_row-update_where id p f rows a k (rw there at h) e)
    ]
  ]

  pub get_row-append :
      (id : ℕ) (xs ys : List A) (a : A) → get_row id xs ≡ some a → get_row id (xs ++ ys) ≡ some a
  unfolding get_row
  get_row-append id [] ys a h = cc
  get_row-append id (x ∷ xs) ys a h = ground (arith, get_row-append id xs ys a)

  -- A new row under an identifier that was not used.
  pub get_row_new :
      (id : ℕ) (xs : List A) (a : A)
      → get_row id xs ≡ none
      → key a ≡ id
      → get_row id (xs ++ a ∷ []) ≡ some a
  unfolding get_row
  get_row_new id [] a h e = ground arith
  get_row_new id (x ∷ xs) a h e = ground (arith, get_row_new id xs a)

  -- A row that was selected is found by its key.
  pub get_row_found :
      (p : A → Bool) (id : ℕ) (rows : List A) (a : A)
      → get_row id (select_where p rows) ≡ some a
      → (row : A) × (get_row id rows ≡ some row)
  unfolding get_row select_where
  get_row_found p id [] a h = cc
  get_row_found p id (x ∷ rows) a h = elim (Bool-cases (nat_eq (key x) id)) [
    | inl e ↦ (x, rw e refl)
    | inr e ↦
        let kept : get_row id (select_where p rows) ≡ some a = ground (arith, h) in
        let (row, found) = get_row_found p id rows a kept in (row, rw e found)
  ]
