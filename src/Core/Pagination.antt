-- ===== src/Core/Pagination.antt =====
-- backend/app/core/pagination.py: signed cursors. JSON, HMAC, Base64, dates and UUIDs are parameters; a
-- date with a time zone is given by its instant in UTC, and bytes are the list of their values.
mod Base64
pub mod Laws
mod Tests
use etoeragcb.Base.{
  ℕ, suc, ◌+◌, ◌-◌, ◌%◌, Bool, true, false, not, Option, none, some, List, [], ◌∷◌, ◌++◌, reverse,
  length, nat_eq, if◌then◌else◌,
}
use etoeragcb.Base.Text.{Text, codes, text_eq}
use etoeragcb.Base.Result.{Result, ok, raise, ◌>>=◌, ◌>>◌, raise_if}

-- `AttributeError` is what `uuid.UUID` raises of a value that is neither a text nor null: it is not caught.
pub data CursorError : Type 0 where
  invalid_cursor attribute_error : CursorError

pub record CursorPosition : Type 0 where
  pub occurred_at : ℕ
  pub resource_id : ℕ

-- What a dictionary of JSON holds under a key.
pub data JsonField : Type 0 where
  absent null other : JsonField
  text : Text → JsonField

pub data Payload : Type 0 where
  not_a_dict : Payload
  dict : JsonField → JsonField → JsonField → Payload

-- `orjson.dumps` and `loads` of the fields kind, at and id; `isoformat` in UTC, and `fromisoformat`, which
-- gives the instant if there is a time zone; `str` of a UUID and `uuid.UUID`; `hmac`; and
-- `urlsafe_b64encode` and `urlsafe_b64decode`. `none` is a `ValueError`.
pub record CursorCalls : Type 0 where
  pub dumps : Text → Text → Text → Text
  pub loads : Text → Option Payload
  pub isoformat : ℕ → Text
  pub fromisoformat : Text → Option (Option ℕ)
  pub uuid_str : ℕ → Text
  pub parse_uuid : Text → Option ℕ
  pub hmac : Text → Text → Text
  pub b64encode : Text → Text
  pub b64decode : Text → Option Text

lstrip_equals : Text → Text
lstrip_equals [] = []
lstrip_equals (c ∷ s) = let rest = lstrip_equals s in if nat_eq c 61 then rest else c ∷ s

-- `value.rstrip(b"=")`.
unfoldable pub rstrip_equals : Text → Text
unfolding lstrip_equals
rstrip_equals s = reverse (lstrip_equals (reverse s))

-- `"=" * n`.
unfoldable pub equals_signs : ℕ → Text
equals_signs ℕ.zero = []
equals_signs (suc n) = 61 ∷ equals_signs n

-- `value + "=" * (-len(value) % 4)`.
unfoldable pub with_padding : Text → Text
unfolding equals_signs
with_padding value = value ++ equals_signs ((4 - length value % 4) % 4)

-- `token.split(".", maxsplit=1)` into two names.
unfoldable pub split_dot : Text → Option (Text × Text)
split_dot [] = none
split_dot (c ∷ s) =
    if nat_eq c 46
    then some ([], s)
    else elim (split_dot s) [ none ↦ none | some (front, back) ↦ some (c ∷ front, back) ]

-- A value, or the `InvalidCursorError` that a `ValueError` becomes.
unfoldable pub or_invalid : {A : Type 0} → Option A → Result CursorError A
or_invalid none = raise invalid_cursor
or_invalid (some a) = ok a

-- `payload["at"]` where a text is wanted.
unfoldable pub text_field : JsonField → Result CursorError Text
text_field (text t) = ok t
text_field f = raise invalid_cursor

-- The argument of `uuid.UUID`.
unfoldable pub uuid_field : JsonField → Result CursorError Text
uuid_field (text t) = ok t
uuid_field other = raise attribute_error
uuid_field f = raise invalid_cursor

-- `payload.get("kind") == expected_kind`.
unfoldable pub is_kind : Text → JsonField → Bool
unfolding text_eq
is_kind expected_kind (text t) = text_eq t expected_kind
is_kind expected_kind f = false

module _ (calls : CursorCalls) where
  -- `_decode`.
  unfoldable pub decode_part : Text → Result CursorError Text
  unfolding with_padding or_invalid
  decode_part value = or_invalid (calls.b64decode (with_padding value))

  unfoldable pub position_of : Text → Payload → Result CursorError CursorPosition
  unfolding is_kind text_field uuid_field or_invalid
  position_of expected_kind not_a_dict = raise invalid_cursor
  position_of expected_kind (dict kind at id) =
      raise_if (not (is_kind expected_kind kind)) invalid_cursor
      >> (text_field at >>= λ at_text. or_invalid (calls.fromisoformat at_text) >>= λ date.
          or_invalid date >>= λ occurred_at. uuid_field id >>= λ id_text.
          or_invalid (calls.parse_uuid id_text) >>= λ resource_id.
          ok (record { occurred_at = occurred_at; resource_id = resource_id }))

module _ (calls : CursorCalls) (secret : Text) where
  -- `CursorCodec.encode`.
  unfoldable pub encode : Text → ℕ → ℕ → Text
  unfolding rstrip_equals
  encode kind occurred_at resource_id =
      let body = calls.dumps kind (calls.isoformat occurred_at) (calls.uuid_str resource_id) in
      rstrip_equals (calls.b64encode body)
      ++ (codes "." ++ rstrip_equals (calls.b64encode (calls.hmac secret body)))

  -- The two parts of a token.
  unfoldable pub decode_parts : Text → Text × Text → Result CursorError CursorPosition
  unfolding decode_part text_eq position_of or_invalid
  decode_parts expected_kind (encoded_body, encoded_signature) =
      decode_part calls encoded_body >>= λ body.
      decode_part calls encoded_signature >>= λ signature.
      raise_if (not (text_eq signature (calls.hmac secret body))) invalid_cursor
      >> (or_invalid (calls.loads body) >>= λ payload. position_of calls expected_kind payload)

  -- `CursorCodec.decode`.
  unfoldable pub decode : Text → Text → Result CursorError CursorPosition
  unfolding split_dot decode_parts or_invalid
  decode token expected_kind =
      or_invalid (split_dot token) >>= λ parts. decode_parts expected_kind parts
