-- ===== src/Core/Pagination/Tests.antt =====
-- Cursors at concrete inputs, with formats that are read back as they were written.
use etoeragcb.Base.{
  ℕ, zero, suc, ◌+◌, ◌-◌, ◌%◌, ◌≡◌, refl, ap, Option, none, some, [], ◌∷◌, ◌++◌, map, length, ltb,
  if◌then◌else◌, arith, All,
}
use etoeragcb.Base.Text.{Text, codes}
use etoeragcb.Base.Result.{ok, raise}
use etoeragcb.Core.Pagination.{
  invalid_cursor, JsonField, Payload, dict, CursorCalls, equals_signs, encode, decode,
}
use etoeragcb.Core.Pagination.Base64.{IsPlain}
use etoeragcb.Core.Pagination.Laws.{IsCodec, decode_back}

abbrev split_zero : Text → Text × Text
split_zero [] = ([], [])
split_zero (zero ∷ s) = ([], s)
split_zero (suc c ∷ s) = let rest = split_zero s in (c ∷ rest.0, rest.1)

abbrev read_fields : Text → Option Payload
read_fields s =
    let kind = split_zero s in
    let at = split_zero kind.1 in
    let id = split_zero at.1 in
    some (dict (JsonField.text kind.0) (JsonField.text at.0) (JsonField.text id.0))

abbrev one_number : Text → Option ℕ
one_number [] = none
one_number (n ∷ []) = some n
one_number (n ∷ m ∷ s) = none

abbrev read_date : Text → Option (Option ℕ)
read_date s = elim (one_number s) [ none ↦ none | some n ↦ some (some n) ]

abbrev unshift : Text → Text
unshift [] = []
unshift (c ∷ s) = let rest = unshift s in if ltb c 100 then rest else (c - 100) ∷ rest

-- Each value shifted out of the way of padding and separators.
abbrev shift : Text → Text
shift b = map (λ c. c + 100) b

abbrev padding_of : Text → ℕ
padding_of b = (4 - length (shift b) % 4) % 4

abbrev formats : CursorCalls
formats = record {
  dumps = λ kind at id. map suc kind ++ 0 ∷ (map suc at ++ 0 ∷ map suc id);
  loads = read_fields;
  isoformat = λ t. t ∷ [];
  fromisoformat = read_date;
  uuid_str = λ id. id ∷ [];
  parse_uuid = one_number;
  hmac = λ secret body. secret ++ body;
  b64encode = λ b. shift b ++ equals_signs (padding_of b);
  b64decode = λ s. some (unshift s);
}

split_zero-append : (k r : Text) → split_zero (map suc k ++ 0 ∷ r) ≡ (k, r)
split_zero-append [] r = refl
split_zero-append (c ∷ k) r = rw (split_zero-append k r) refl

split_zero_last : (k : Text) → split_zero (map suc k) ≡ (k, [])
split_zero_last [] = refl
split_zero_last (c ∷ k) = rw (split_zero_last k) refl

fields_back :
    (kind at id : Text)
    → read_fields (map suc kind ++ 0 ∷ (map suc at ++ 0 ∷ map suc id))
      ≡ some (dict (JsonField.text kind) (JsonField.text at) (JsonField.text id))
fields_back kind at id =
    rw
      (
        split_zero-append kind (map suc at ++ 0 ∷ map suc id),
        split_zero-append at (map suc id),
        split_zero_last id,
      )
      refl

shift-IsPlain : (b : Text) → All IsPlain (shift b)
shift-IsPlain [] = tt
shift-IsPlain (c ∷ b) = ((ground arith, ground arith), shift-IsPlain b)

unshift_signs : (n : ℕ) → unshift (equals_signs n) ≡ []
unfolding equals_signs
unshift_signs zero = refl
unshift_signs (suc n) = unshift_signs n

unshift-shift : (b : Text) (n : ℕ) → unshift (shift b ++ equals_signs n) ≡ b
unshift-shift [] n = unshift_signs n
unshift-shift (c ∷ b) n = ground (arith, unshift-shift b n)

formats-IsCodec : IsCodec formats
formats-IsCodec = record {
  padded = λ b. record {
    plain = shift b;
    count = padding_of b;
    parts = refl;
    plain_all = shift-IsPlain b;
    few = omega arith;
    whole = omega arith;
  };
  b64_back = λ b. ap some (unshift-shift b (padding_of b));
  json_back = fields_back;
  date_back = λ t. refl;
  uuid_back = λ id. refl;
}

abbrev secret : Text
secret = codes "key"

abbrev token : Text
unfolding encode
token = encode formats secret (codes "sessions") 12 34

-- The first character of a token is part of what is signed.
changed_refused : decode formats secret (200 ∷ token) (codes "sessions") ≡ raise invalid_cursor
unfolding encode decode
changed_refused = refl

decode_back_example :
    (decode formats secret (encode formats secret (codes "sessions") 12 34) (codes "sessions")
      ≡ ok (record { occurred_at = 12; resource_id = 34 }))
    × ((expected : Text)
        → ¬ (codes "sessions" ≡ expected)
        → decode formats secret (encode formats secret (codes "sessions") 12 34) expected
          ≡ raise invalid_cursor)
decode_back_example = decode_back formats formats-IsCodec secret (codes "sessions") 12 34
