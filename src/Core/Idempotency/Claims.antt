-- ===== src/Core/Idempotency/Claims.antt =====
-- What a claim means for the claims that follow it under the same key.
use etoeragcb.Base.{
  ℕ, ◌+◌, ◌<◌, ◌≡◌, refl, ap, sym, ◌∙◌, ◌⊎◌, inl, inr, true, Option, none, some, arith, ◌==◌,
  text_keys, Bool-cases, ltb, lt→ltb, if◌then◌else◌, same_self, subst,
}
use etoeragcb.Base.Text.{Text}
use etoeragcb.Core.Idempotency.{
  row_keys, Row, Status, in_progress, completed, failed, ClaimState, claimed, recovered, running,
  replay, conflict, microseconds, bare, fresh, renewed, claim_same, claim_row, Table,
  claim_idempotency, RowKey, write, validate_idempotency_key, ClaimResult, with_key,
  complete_idempotency, locked_record, complete_row, finished,
}
use etoeragcb.Base.Dict.{get, set, get-set}
use etoeragcb.Base.Result.{ok, bind-eq-ok}

-- A claim that lets the request run.
abbrev pub IsGranted : ClaimState → Type 0
IsGranted state = (state ≡ claimed) ⊎ (state ≡ recovered)

module _ {J : Type 0} where
  -- The row that a granted claim leaves.
  pub record IsClaimOf (request_hash : Text) (expires_at : ℕ) (r : Row J) : Type 0 where
    pub same_hash : r.request_hash ≡ request_hash
    pub open_status : r.status ≡ in_progress
    pub expiry : r.expires_at ≡ expires_at

  granted_same :
      (r : Row J) (h : Text) (ttl now : ℕ) (s : Status)
      → r.request_hash ≡ h
      → IsGranted (claim_same r ttl now s).1.state
      → (r' : Row J) × ((claim_same r ttl now s).0 ≡ some r')
        × IsClaimOf h (now + microseconds ttl) r'
  unfolding claim_same
  granted_same r h ttl now completed e (inl g) = cc
  granted_same r h ttl now completed e (inr g) = cc
  granted_same r h ttl now failed e g =
      (renewed r ttl now, refl, record { same_hash = e; open_status = refl; expiry = refl })
  granted_same r h ttl now in_progress e g = elim (Bool-cases (ltb now r.expires_at)) [
    | inl live ↦ elim g [ inl x ↦ ground arith | inr x ↦ ground arith ]
    | inr over ↦ (
      renewed r ttl now,
      rw over refl,
      record { same_hash = e; open_status = refl; expiry = refl },
    )
  ]

  granted_row :
      (o : Option (Row J)) (h : Text) (ttl now : ℕ)
      → IsGranted (claim_row o h ttl now).1.state
      → (r' : Row J) × ((claim_row o h ttl now).0 ≡ some r')
        × IsClaimOf h (now + microseconds ttl) r'
  unfolding claim_row
  granted_row none h ttl now g =
      (fresh h ttl now, refl, record { same_hash = refl; open_status = refl; expiry = refl })
  granted_row (some r) h ttl now g = elim (Bool-cases (r.request_hash == h)) [
    | inl e ↦
        rw e (
          granted_same r h ttl now r.status ((text_keys.same_iff r.request_hash h).0 e) (rw e at g))
    | inr e ↦ elim g [ inl x ↦ ground arith | inr x ↦ ground arith ]
  ]

  -- What a call finds under a key that it accepts.
  pub IsUnder : Table J → RowKey → Text → Row J → Type 0
  IsUnder t k key r = (validate_idempotency_key k.key ≡ ok key) × (get (with_key k key) t ≡ some r)

  granted_claim :
      (t t' : Table J) (k : RowKey) (h : Text) (ttl now : ℕ) (c : ClaimResult J)
      → claim_idempotency t k h ttl now ≡ ok (t', c)
      → IsGranted c.state
      → (key : Text) × (r : Row J) × IsUnder t' k key r × IsClaimOf h (now + microseconds ttl) r
  unfolding claim_idempotency write IsUnder
  granted_claim t t' k h ttl now c e g =
      let (key, valid, rest) = bind-eq-ok (validate_idempotency_key k.key) _ e in
      let same : ◌≡◌ {A = Table J × ClaimResult J}
          (
            write (with_key k key) (claim_row (get (with_key k key) t) h ttl now).0 t,
            (claim_row (get (with_key k key) t) h ttl now).1,
          )
          (t', c) =
        cc in
      let (r, wrote, claim) =
        granted_row (get (with_key k key) t) h ttl now
          (subst (λ p. IsGranted p.1.state) (sym same) g) in
      (
        key,
        r,
        (
          valid,
          sym (ap (λ p. get (with_key k key) p.0) same)
              ∙ ap (λ w. get (with_key k key) (write (with_key k key) w t)) wrote
              ∙ get-set (with_key k key) (with_key k key) r t
              ∙ rw (same_self (with_key k key)) refl,
        ),
        claim,
      )

  claim_over :
      (t : Table J) (k : RowKey) (key : Text) (r : Row J) (h : Text) (ttl now : ℕ)
      → IsUnder t k key r
      → claim_idempotency t k h ttl now
        ≡ ok (
          write (with_key k key) (claim_row (some r) h ttl now).0 t,
          (claim_row (some r) h ttl now).1,
        )
  unfolding claim_idempotency IsUnder
  claim_over t k key r h ttl now (valid, found) = rw (valid, found) refl

  claim_row_running :
      (r : Row J) (h h' : Text) (ttl' now' end : ℕ)
      → IsClaimOf h end r
      → now' < end
      → claim_row (some r) h' ttl' now' ≡ (none, bare (if h == h' then running else conflict))
  unfolding claim_row claim_same
  claim_row_running r h h' ttl' now' end claim early =
      let live : ltb now' r.expires_at ≡ true = rw claim.expiry (lt→ltb now' end early) in
      elim (Bool-cases (h == h')) [
        | inl e ↦ rw (claim.same_hash, e, claim.open_status, live) refl
        | inr e ↦ rw (claim.same_hash, e) refl
      ]

  claim_row_completed :
      (r : Row J) (h' : Text) (ttl' now' : ℕ)
      → r.status ≡ completed
      → claim_row (some r) h' ttl' now' ≡ (
        none,
        if r.request_hash == h'
            then record { state = replay; response = r.response; resource_id = r.resource_id }
            else bare conflict,
      )
  unfolding claim_row claim_same
  claim_row_completed r h' ttl' now' done = elim (Bool-cases (r.request_hash == h')) [
    | inl e ↦ rw (e, done) refl
    | inr e ↦ rw e refl
  ]

  -- After a claim that let a request run, and until its time is over, each claim under the same key
  -- changes nothing: it answers that the request is in progress where the hash of the request is the
  -- same, and a conflict where it is another.
  pub claim_excludes :
      (t t' : Table J) (k : RowKey) (h : Text) (ttl now : ℕ) (c : ClaimResult J)
      → claim_idempotency t k h ttl now ≡ ok (t', c)
      → IsGranted c.state
      → (h' : Text) (ttl' now' : ℕ) → now' < now + microseconds ttl
      → claim_idempotency t' k h' ttl' now' ≡ ok (t', bare (if h == h' then running else conflict))
  unfolding write
  claim_excludes t t' k h ttl now c e g h' ttl' now' early =
      let (key, r, under, claim) = granted_claim t t' k h ttl now c e g in
      claim_over t' k key r h' ttl' now' under
      ∙ ap (λ p. ok (write (with_key k key) p.0 t', p.1))
          (claim_row_running r h h' ttl' now' (now + microseconds ttl) claim early)

  locked_over :
      (t : Table J) (k : RowKey) (key : Text) (r : Row J)
      → IsUnder t k key r
      → locked_record t k ≡ ok (with_key k key, r)
  unfolding locked_record IsUnder
  locked_over t k key r (valid, found) = rw (valid, found) refl

  complete_over :
      (t : Table J) (k : RowKey) (key : Text) (r : Row J) (response : J) (resource_id : Option ℕ)
      (done : ℕ)
      → IsUnder t k key r
      → r.status ≡ in_progress
      → complete_idempotency t k response resource_id done
        ≡ ok (set (with_key k key) (finished r response resource_id done) t)
  unfolding complete_idempotency complete_row
  complete_over t k key r response resource_id done under begun =
      rw (locked_over t k key r under, begun) refl

  -- A request that was let run can be completed, and then each claim under the same key changes
  -- nothing, at any time: it answers with the response and the resource of the completion where the
  -- hash of the request is the same, and a conflict where it is another.
  pub complete_replays :
      (t t' : Table J) (k : RowKey) (h : Text) (ttl now : ℕ) (c : ClaimResult J)
      → claim_idempotency t k h ttl now ≡ ok (t', c)
      → IsGranted c.state
      → (response : J) (resource_id : Option ℕ) (done : ℕ)
      → (t'' : Table J) × (complete_idempotency t' k response resource_id done ≡ ok t'')
        × ((h' : Text) (ttl' now' : ℕ)
            → claim_idempotency t'' k h' ttl' now'
              ≡ ok (
                t'',
                if h == h'
                    then record {
                      state = replay;
                      response = some response;
                      resource_id = resource_id;
                    }
                    else bare conflict,
              ))
  unfolding write IsUnder
  complete_replays t t' k h ttl now c e g response resource_id done =
      let (key, r, under, claim) = granted_claim t t' k h ttl now c e g in
      let r' = finished r response resource_id done in
      let t'' = set (with_key k key) r' t' in
      let found : get (with_key k key) t'' ≡ some r' =
        get-set (with_key k key) (with_key k key) r' t' ∙ rw (same_self (with_key k key)) refl in
      (
        t'',
        complete_over t' k key r response resource_id done under claim.open_status,
        λ h' ttl' now'.
            claim_over t'' k key r' h' ttl' now' (under.0, found)
            ∙ ap (λ p. ok (write (with_key k key) p.0 t'', p.1))
                (claim_row_completed r' h' ttl' now' refl)
            ∙ rw claim.same_hash refl,
      )
