-- ===== src/Core/Pagination/Laws.antt =====
-- A cursor comes back as it was, and nothing but a signed cursor is taken.
use etoeragcb.Base.{ℕ, ◌≡◌, refl, ◌∙◌, some, Bool-cases, inl, inr}
use etoeragcb.Base.Text.{Text, text_eq, text_eq_iff}
use etoeragcb.Base.Result.{ok, raise}
use etoeragcb.Core.Pagination.{
  invalid_cursor, JsonField, dict, CursorCalls, rstrip_equals, or_invalid, text_field, uuid_field,
  is_kind, encode, decode_part, position_of, decode_parts, decode,
}
use etoeragcb.Core.Pagination.Base64.{IsPadded, with_padding-rstrip, split_dot-rstrip}

-- What the formats promise: each is read back, and Base64 pads to a multiple of four.
pub record IsCodec (calls : CursorCalls) : Type 0 where
  pub padded : (b : Text) → IsPadded (calls.b64encode b)
  pub b64_back : (b : Text) → calls.b64decode (calls.b64encode b) ≡ some b
  pub json_back :
      (kind at id : Text)
      → calls.loads (calls.dumps kind at id)
        ≡ some (dict (JsonField.text kind) (JsonField.text at) (JsonField.text id))
  pub date_back : (t : ℕ) → calls.fromisoformat (calls.isoformat t) ≡ some (some t)
  pub uuid_back : (id : ℕ) → calls.parse_uuid (calls.uuid_str id) ≡ some id

module _ (calls : CursorCalls) (c : IsCodec calls) (secret : Text) where
  decode_part_lem : (b : Text) → decode_part calls (rstrip_equals (calls.b64encode b)) ≡ ok b
  unfolding decode_part or_invalid
  decode_part_lem b = rw (with_padding-rstrip (calls.b64encode b) (c.padded b), c.b64_back b) refl

  -- What `decode` makes of an encoded cursor: the fields are read under the kind that is expected.
  decode-encode :
      (kind expected : Text) (occurred_at resource_id : ℕ)
      → decode calls secret (encode calls secret kind occurred_at resource_id) expected
        ≡ position_of calls expected (
            dict
              (JsonField.text kind)
              (JsonField.text (calls.isoformat occurred_at))
              (JsonField.text (calls.uuid_str resource_id)))
  unfolding decode encode decode_parts or_invalid
  decode-encode kind expected occurred_at resource_id =
      let body = calls.dumps kind (calls.isoformat occurred_at) (calls.uuid_str resource_id) in
      let signature = calls.hmac secret body in
      rw
        (
          split_dot-rstrip (calls.b64encode body) (rstrip_equals (calls.b64encode signature))
              (c.padded body),
          decode_part_lem body,
          decode_part_lem signature,
          (text_eq_iff signature signature).1 refl,
          c.json_back kind (calls.isoformat occurred_at) (calls.uuid_str resource_id),
        )
        refl

  -- A cursor is decoded to the position that was encoded, under the kind that it was encoded for; under
  -- any other kind it is invalid. The formats are assumed to be read back as they were written.
  pub decode_back :
      (kind : Text) (occurred_at resource_id : ℕ)
      → (decode calls secret (encode calls secret kind occurred_at resource_id) kind
          ≡ ok (record { occurred_at = occurred_at; resource_id = resource_id }))
        × ((expected : Text)
            → ¬ (kind ≡ expected)
            → decode calls secret (encode calls secret kind occurred_at resource_id) expected
              ≡ raise invalid_cursor)
  unfolding position_of is_kind text_field uuid_field or_invalid
  decode_back kind occurred_at resource_id = (
    decode-encode kind kind occurred_at resource_id
        ∙ rw ((text_eq_iff kind kind).1 refl, c.date_back occurred_at, c.uuid_back resource_id)
            refl,
    λ expected differs.
        decode-encode kind expected occurred_at resource_id
        ∙ elim (Bool-cases (text_eq kind expected)) [
          | inl same ↦ absurd (differs ((text_eq_iff kind expected).0 same))
          | inr differ ↦ rw differ refl
        ],
  )
