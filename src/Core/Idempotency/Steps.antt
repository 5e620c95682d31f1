-- ===== src/Core/Idempotency/Steps.antt =====
-- The table under any sequence of calls: which of its rows can change, and how.
use etoeragcb.Base.{
  ℕ, ◌≡◌, refl, sym, ap, subst, ◌∙◌, Option, none, some, arith, Bool-cases, inl, inr, ◌==◌,
  text_keys, ltb,
}
use etoeragcb.Base.Text.{Text}
use etoeragcb.Base.Dict.{get, set, get-set}
use etoeragcb.Base.Result.{ok, bind-eq-ok, ok_injective}
use etoeragcb.Core.Idempotency.{
  renewed, RowKey, row_keys, row_key_eq_iff, with_key, Row, Table, Status, in_progress, completed,
  failed, ClaimResult, validate_idempotency_key, claim_same, claim_row, write, claim_idempotency,
  lock, locked_record, finished, complete_row, complete_idempotency, fail_row, fail_idempotency,
}

module _ {J : Type 0} where
  -- One call that returned.
  pub data Step : Table J → Table J → Type 0 where
    claiming :
        (t t' : Table J) (k : RowKey) (h : Text) (ttl now : ℕ) (c : ClaimResult J)
        → claim_idempotency t k h ttl now ≡ ok (t', c)
        → Step t t'
    completing :
        (t t' : Table J) (k : RowKey) (response : J) (resource_id : Option ℕ) (now : ℕ)
        → complete_idempotency t k response resource_id now ≡ ok t'
        → Step t t'
    failing : (t t' : Table J) (k : RowKey) (now : ℕ) → fail_idempotency t k now ≡ ok t' → Step t t'

  -- Any number of calls.
  pub data Steps : Table J → Table J → Type 0 where
    done : (t : Table J) → Steps t t
    more : (t t' t'' : Table J) → Step t t' → Steps t' t'' → Steps t t''

  -- What may become of a row.
  pub record IsLater (r r' : Row J) : Type 0 where
    pub same_hash : r'.request_hash ≡ r.request_hash
    pub same_creation : r'.created_at ≡ r.created_at
    pub permanent : r.status ≡ completed → r' ≡ r

  IsLater-refl : (r : Row J) → IsLater r r
  IsLater-refl r = record { same_hash = refl; same_creation = refl; permanent = λ h. refl }

  IsLater-trans : (r r' r'' : Row J) → IsLater r r' → IsLater r' r'' → IsLater r r''
  IsLater-trans r r' r'' a b = record {
    same_hash = b.same_hash ∙ a.same_hash;
    same_creation = b.same_creation ∙ a.same_creation;
    permanent = λ h. b.permanent (ap (λ x. x.status) (a.permanent h) ∙ h) ∙ a.permanent h;
  }

  renewed-IsLater :
      (r : Row J) (ttl now : ℕ) → ¬ (r.status ≡ completed) → IsLater r (renewed r ttl now)
  renewed-IsLater r ttl now h = record {
    same_hash = refl;
    same_creation = refl;
    permanent = λ e. absurd (h e);
  }

  claim_same-IsLater :
      (r r' : Row J) (ttl now : ℕ) (s : Status)
      → r.status ≡ s
      → (claim_same r ttl now s).0 ≡ some r'
      → IsLater r r'
  unfolding claim_same
  claim_same-IsLater r r' ttl now completed q e = cc
  claim_same-IsLater r r' ttl now failed q e =
      subst (IsLater r) (cc) (renewed-IsLater r ttl now (λ h. cc))
  claim_same-IsLater r r' ttl now in_progress q e = elim (Bool-cases (ltb now r.expires_at)) [
    | inl live ↦ ground arith
    | inr over ↦
        let same : renewed r ttl now ≡ r' = ground arith in
        subst (IsLater r) same (renewed-IsLater r ttl now (λ h. cc))
  ]

  claim_row-IsLater :
      (r r' : Row J) (h : Text) (ttl now : ℕ)
      → (claim_row (some r) h ttl now).0 ≡ some r'
      → IsLater r r'
  unfolding claim_row
  claim_row-IsLater r r' h ttl now e = elim (Bool-cases (r.request_hash == h)) [
    | inr other ↦ cc
    | inl same ↦ claim_same-IsLater r r' ttl now r.status refl (rw same at e)
  ]

  -- A write under a key keeps every row, where what it writes there is a later row.
  write-keeps :
      (k j : RowKey) (w : Option (Row J)) (t : Table J) (r : Row J)
      → ((r' : Row J) → get k t ≡ some r → w ≡ some r' → IsLater r r')
      → get j t ≡ some r
      → (r' : Row J) × (get j (write k w t) ≡ some r') × IsLater r r'
  unfolding write
  write-keeps k j none t r h found = (r, found, IsLater-refl r)
  write-keeps k j (some v) t r h found = elim (Bool-cases (k == j)) [
    | inl same ↦ (
      v,
      get-set k j v t ∙ rw same refl,
      h v (ap (λ x. get x t) ((row_key_eq_iff k j).0 same) ∙ found) refl,
    )
    | inr other ↦ (r, get-set k j v t ∙ rw other found, IsLater-refl r)
  ]

  -- How a call that returned changes the table: a write of a later row under one key.
  pub record IsWrite (t t' : Table J) : Type 0 where
    pub target : RowKey
    pub written : Option (Row J)
    pub effect : t' ≡ write target written t
    pub later : (r r' : Row J) → get target t ≡ some r → written ≡ some r' → IsLater r r'

  -- A change of a row that is found under a key and is not completed.
  change-IsWrite :
      (k : RowKey) (r v : Row J) (t t' : Table J)
      → get k t ≡ some r
      → IsLater r v
      → t' ≡ set k v t
      → IsWrite t t'
  unfolding write
  change-IsWrite k r v t t' found is_later e = record {
    target = k;
    written = some v;
    effect = e;
    later = λ a b at_a at_b.
        let a_is : r ≡ a = cc in
        let b_is : v ≡ b = cc in subst (λ x. IsLater x b) a_is (subst (IsLater r) b_is is_later);
  }

  none-IsWrite : (k : RowKey) (t t' : Table J) → t' ≡ t → IsWrite t t'
  unfolding write
  none-IsWrite k t t' e = record {
    target = k;
    written = none;
    effect = e;
    later = λ a b at_a at_b. cc;
  }

  unfinished-IsLater :
      (r v : Row J)
      → v.request_hash ≡ r.request_hash
      → v.created_at ≡ r.created_at
      → ¬ (r.status ≡ completed)
      → IsLater r v
  unfinished-IsLater r v hash created h = record {
    same_hash = hash;
    same_creation = created;
    permanent = λ e. absurd (h e);
  }

  fail_row-IsWrite :
      (k : RowKey) (r : Row J) (now : ℕ) (s : Status) (t : Table J)
      → r.status ≡ s
      → get k t ≡ some r
      → IsWrite t (fail_row k r now s t)
  unfolding fail_row
  fail_row-IsWrite k r now completed t q found = none-IsWrite k t t refl
  fail_row-IsWrite k r now in_progress t q found =
      change-IsWrite k r (record r { status = failed; updated_at = now }) t _ found
        (unfinished-IsLater r _ refl refl (λ h. cc)) refl
  fail_row-IsWrite k r now failed t q found =
      change-IsWrite k r (record r { status = failed; updated_at = now }) t _ found
        (unfinished-IsLater r _ refl refl (λ h. cc)) refl

  complete_row-IsWrite :
      (k : RowKey) (r : Row J) (response : J) (resource_id : Option ℕ) (now : ℕ) (s : Status)
      (t t' : Table J)
      → r.status ≡ s
      → get k t ≡ some r
      → complete_row k r response resource_id now s t ≡ ok t'
      → IsWrite t t'
  unfolding complete_row
  complete_row-IsWrite k r response resource_id now completed t t' q found e = cc
  complete_row-IsWrite k r response resource_id now failed t t' q found e = cc
  complete_row-IsWrite k r response resource_id now in_progress t t' q found e =
      change-IsWrite k r (finished r response resource_id now) t t' found
        (unfinished-IsLater r _ refl refl (λ h. cc)) cc

  lock-found :
      (k k' : RowKey) (o : Option (Row J)) (r : Row J)
      → lock k o ≡ ok (k', r)
      → (k' ≡ k) × (o ≡ some r)
  unfolding lock
  lock-found k k' none r e = cc
  lock-found k k' (some x) r e = (cc, cc)

  locked_record-found :
      (t : Table J) (k k' : RowKey) (r : Row J) → locked_record t k ≡ ok (k', r) → get k' t ≡ some r
  unfolding locked_record
  locked_record-found t k k' r e =
      let (key, valid, rest) = bind-eq-ok (validate_idempotency_key k.key) _ e in
      let (same, found) = lock-found (with_key k key) k' (get (with_key k key) t) r rest in
      rw same found

  Step-IsWrite : (t t' : Table J) → Step t t' → IsWrite t t'
  unfolding claim_idempotency complete_idempotency fail_idempotency locked_record
  Step-IsWrite t t' (claiming _ _ k h ttl now c e) =
      let (key, valid, rest) = bind-eq-ok (validate_idempotency_key k.key) _ e in
      record {
        target = with_key k key;
        written = (claim_row (get (with_key k key) t) h ttl now).0;
        effect = sym (ap (λ p. p.0) (ok_injective _ _ rest));
        later = λ a b at_a at_b.
            claim_row-IsLater a b h ttl now (sym (ap (λ o. (claim_row o h ttl now).0) at_a) ∙ at_b);
      }
  Step-IsWrite t t' (completing _ _ k response resource_id now e) =
      let ((k', r), locked, rest) = bind-eq-ok (locked_record t k) _ e in
      complete_row-IsWrite k' r response resource_id now r.status t t' refl
        (locked_record-found t k k' r locked) rest
  Step-IsWrite t t' (failing _ _ k now e) =
      let ((k', r), locked, rest) = bind-eq-ok (locked_record t k) _ e in
      subst (IsWrite t) (ok_injective _ _ rest)
        (fail_row-IsWrite k' r now r.status t refl (locked_record-found t k k' r locked))

  -- Whatever calls are made, a row stays in the table, keeps the hash of its request and the time of
  -- its creation, and once it is completed it never changes again.
  pub rows_permanent :
      (t t' : Table J)
      → Steps t t'
      → (k : RowKey) (r : Row J) → get k t ≡ some r
      → (r' : Row J) × (get k t' ≡ some r') × IsLater r r'
  rows_permanent t t' (done _) k r found = (r, found, IsLater-refl r)
  rows_permanent t t' (more _ middle _ step steps) k r found =
      let w = Step-IsWrite t middle step in
      let (r1, found1, later1) = write-keeps w.target k w.written t r (λ x. w.later r x) found in
      let (r2, found2, later2) =
        rows_permanent middle t' steps k r1 (ap (get k) w.effect ∙ found1) in
      (r2, found2, IsLater-trans r r1 r2 later1 later2)
