-- ===== src/Core/Idempotency.antt =====
-- backend/app/core/idempotency.py: a client's repeated request is run once. The table is a dictionary
-- from the columns of its unique index to the others; a time is a number of microseconds.
pub mod Claims
pub mod Steps
mod Tests
use etoeragcb.Base.{
  ℕ, ◌+◌, ◌*◌, Bool, true, false, not, ◌&&◌, ◌||◌, ◌≡◌, ◌↔◌, Option, none, some, List, [], ◌∷◌,
  length, leb, ltb, nat_eq, nat_keys, ◌==◌, Keys, arith, and_iff, ap, if◌then◌else◌, text_keys,
  subst,
}
use etoeragcb.Base.Text.{Text, strip, text_eq_iff}
use etoeragcb.Base.Dict.{get, set}
use etoeragcb.Base.Result.{Result, ok, raise, ◌>>=◌, ◌>>◌, raise_if}

-- The columns of the unique index.
pub record RowKey : Type 0 where
  pub tenant_id : ℕ
  pub user_id : ℕ
  pub operation : Text
  pub key : Text

abbrev row_key_eq : RowKey → RowKey → Bool
row_key_eq j k =
    nat_eq j.tenant_id k.tenant_id
    && (nat_eq j.user_id k.user_id && (j.operation == k.operation && j.key == k.key))

row_key_eq_self : (k : RowKey) → row_key_eq k k ≡ true
row_key_eq_self k = ground (arith, text_eq_iff k.operation k.operation, text_eq_iff k.key k.key)

pub row_key_eq_iff : (j k : RowKey) → (row_key_eq j k ≡ true) ↔ (j ≡ k)
row_key_eq_iff j k = (
  λ h.
      let tenant : j.tenant_id ≡ k.tenant_id = ground arith in
      let user : j.user_id ≡ k.user_id = ground arith in
      let operation : j.operation ≡ k.operation =
        ground (arith, text_eq_iff j.operation k.operation) in
      let key : j.key ≡ k.key =
        ground (arith, text_eq_iff j.operation k.operation, text_eq_iff j.key k.key) in
      λ i. record { tenant_id = tenant i; user_id = user i; operation = operation i; key = key i },
  λ e. subst (λ x. row_key_eq j x ≡ true) e (row_key_eq_self j),
)

instance abbrev pub row_keys : Keys RowKey
row_keys = record { same = row_key_eq; same_iff = row_key_eq_iff }

pub data Status : Type 0 where
  in_progress completed failed : Status

-- The other columns of `IdempotencyRequest`; `J` stands for JSON objects.
pub record Row (J : Type 0) : Type 0 where
  pub request_hash : Text
  pub status : Status
  pub response : Option J
  pub resource_id : Option ℕ
  pub expires_at : ℕ
  pub created_at : ℕ
  pub updated_at : ℕ

abbrev pub Table : Type 0 → Type 0
Table J = List (RowKey × Row J)

pub data ClaimState : Type 0 where
  claimed recovered running replay conflict : ClaimState

pub record ClaimResult (J : Type 0) : Type 0 where
  pub state : ClaimState
  pub response : Option J
  pub resource_id : Option ℕ

pub data IdempotencyError : Type 0 where
  unsafe_key missing_claim not_in_progress : IdempotencyError

is_alphanumeric : ℕ → Bool
is_alphanumeric c =
    (leb b'A' c && leb c b'Z') || ((leb b'a' c && leb c b'z') || (leb b'0' c && leb c b'9'))

is_safe : ℕ → Bool
unfolding is_alphanumeric
is_safe c =
    is_alphanumeric c || (nat_eq c b'.' || (nat_eq c b'_' || (nat_eq c b':' || nat_eq c b'-')))

unfoldable pub all_safe : Text → Bool
unfolding is_safe
all_safe [] = true
all_safe (c ∷ s) = is_safe c && all_safe s

-- `IDEMPOTENCY_KEY_RE`, matched from the start to the end.
unfoldable pub is_key : Text → Bool
unfolding is_alphanumeric all_safe
is_key [] = false
is_key (c ∷ s) = is_alphanumeric c && (all_safe s && (leb 7 (length s) && leb (length s) 127))

unfoldable pub validate_idempotency_key : Text → Result IdempotencyError Text
validate_idempotency_key key = do
  let candidate = strip key
  raise_if (not (is_key candidate)) unsafe_key
  ok candidate

unfoldable pub microseconds : ℕ → ℕ
microseconds seconds = seconds * 1000000

-- The arguments that name a request, with the key as the client sent it.
abbrev pub with_key : RowKey → Text → RowKey
with_key k key = record k { key = key }

module _ {J : Type 0} where
  abbrev pub bare : ClaimState → ClaimResult J
  bare state = record { state = state; response = none; resource_id = none }

  -- The row that a first claim inserts.
  abbrev pub fresh : Text → ℕ → ℕ → Row J
  fresh request_hash ttl_seconds now = record {
    request_hash = request_hash;
    status = in_progress;
    response = none;
    resource_id = none;
    expires_at = now + microseconds ttl_seconds;
    created_at = now;
    updated_at = now;
  }

  -- The row that a recovery leaves.
  abbrev pub renewed : Row J → ℕ → ℕ → Row J
  renewed r ttl_seconds now = record r {
    status = in_progress;
    response = none;
    resource_id = none;
    expires_at = now + microseconds ttl_seconds;
    updated_at = now;
  }

  -- What becomes of a row whose hash is that of the request: the row to write, if any.
  unfoldable pub claim_same : Row J → ℕ → ℕ → Status → Option (Row J) × ClaimResult J
  claim_same r ttl_seconds now completed =
      (none, record { state = replay; response = r.response; resource_id = r.resource_id })
  claim_same r ttl_seconds now in_progress =
      if ltb now r.expires_at
      then (none, bare running)
      else (some (renewed r ttl_seconds now), bare recovered)
  claim_same r ttl_seconds now failed = (some (renewed r ttl_seconds now), bare recovered)

  -- The insert, which does nothing on a conflict, and the tests on the row that is there.
  unfoldable pub claim_row : Option (Row J) → Text → ℕ → ℕ → Option (Row J) × ClaimResult J
  unfolding claim_same
  claim_row none request_hash ttl_seconds now =
      (some (fresh request_hash ttl_seconds now), bare claimed)
  claim_row (some r) request_hash ttl_seconds now =
      if not (r.request_hash == request_hash)
      then (none, bare conflict)
      else claim_same r ttl_seconds now r.status

  unfoldable pub write : RowKey → Option (Row J) → Table J → Table J
  write k none t = t
  write k (some r) t = set k r t

  unfoldable pub claim_idempotency :
      Table J → RowKey → Text → ℕ → ℕ → Result IdempotencyError (Table J × ClaimResult J)
  unfolding claim_row write
  claim_idempotency t k request_hash ttl_seconds now = do
    normalized_key ← validate_idempotency_key k.key
    let k' = with_key k normalized_key
    let decided = claim_row (get k' t) request_hash ttl_seconds now
    ok (write k' decided.0 t, decided.1)

  unfoldable pub lock : RowKey → Option (Row J) → Result IdempotencyError (RowKey × Row J)
  lock k none = raise missing_claim
  lock k (some r) = ok (k, r)

  -- `_locked_record`: the key it stands under, and the row.
  unfoldable pub locked_record : Table J → RowKey → Result IdempotencyError (RowKey × Row J)
  unfolding lock
  locked_record t k = do
    normalized_key ← validate_idempotency_key k.key
    let k' = with_key k normalized_key
    lock k' (get k' t)

  abbrev pub finished : Row J → J → Option ℕ → ℕ → Row J
  finished r response resource_id now = record r {
    status = completed;
    response = some response;
    resource_id = resource_id;
    updated_at = now;
  }

  unfoldable pub complete_row :
      RowKey → Row J → J → Option ℕ → ℕ → Status → Table J → Result IdempotencyError (Table J)
  complete_row k r response resource_id now in_progress t =
      ok (set k (finished r response resource_id now) t)
  complete_row k r response resource_id now completed t = raise not_in_progress
  complete_row k r response resource_id now failed t = raise not_in_progress

  unfoldable pub complete_idempotency :
      Table J → RowKey → J → Option ℕ → ℕ → Result IdempotencyError (Table J)
  unfolding locked_record complete_row
  complete_idempotency t k response resource_id now = do
    (k', r) ← locked_record t k
    complete_row k' r response resource_id now r.status t

  unfoldable pub fail_row : RowKey → Row J → ℕ → Status → Table J → Table J
  fail_row k r now completed t = t
  fail_row k r now in_progress t = set k (record r { status = failed; updated_at = now }) t
  fail_row k r now failed t = set k (record r { status = failed; updated_at = now }) t

  unfoldable pub fail_idempotency : Table J → RowKey → ℕ → Result IdempotencyError (Table J)
  unfolding locked_record fail_row
  fail_idempotency t k now = do (k', r) ← locked_record t k; ok (fail_row k' r now r.status t)
