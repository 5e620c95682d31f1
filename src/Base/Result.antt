-- ===== src/Base/Result.antt =====
-- A computation that returns or raises.
use mathlib.Core.Path.{◌≡◌, refl, ap}
use mathlib.Core.Bool.{Bool, true, false}

pub data Result {ℓ} (E A : Type ℓ) : Type ℓ where
  raise : E → Result E A
  ok : A → Result E A

infixl 5 ◌>>=◌ ◌>>◌
-- The rest of a body runs on the value of a call that returned.
abbrev pub ◌>>=◌ {ℓ} : {E S T : Type ℓ} → Result E S → (S → Result E T) → Result E T
raise e >>= rest = raise e
ok s >>= rest = rest s

-- The rest of a body runs where a check did not raise.
abbrev pub ◌>>◌ {ℓ} : {E T : Type ℓ} → Result E (Unit {ℓ}) → Result E T → Result E T
raise e >> rest = raise e
ok s >> rest = rest

-- `if b: raise e`.
abbrev pub raise_if {ℓ} : {E : Type ℓ} → Bool → E → Result E (Unit {ℓ})
raise_if true e = raise e
raise_if false e = ok tt

-- The rest of a body that returned ran on a value.
pub bind-eq-ok {ℓ} :
    {E S T : Type ℓ} (m : Result E S) (rest : S → Result E T) {t : T}
    → (m >>= rest) ≡ ok t
    → (s : S) × (m ≡ ok s) × (rest s ≡ ok t)
bind-eq-ok (raise e) rest returned = cc
bind-eq-ok (ok s) rest returned = (s, refl, returned)

-- The rest of a body that returned ran since its check did not raise.
pub raise_if-ok {ℓ} :
    {E T : Type ℓ} (b : Bool) (e : E) (rest : Result E T) {t : T}
    → (raise_if b e >> rest) ≡ ok t
    → (b ≡ false) × (rest ≡ ok t)
raise_if-ok true e rest returned = cc
raise_if-ok false e rest returned = (refl, returned)

value_or {ℓ} : {E S : Type ℓ} → S → Result E S → S
value_or s (ok x) = x
value_or s (raise e) = s

pub ok_injective {ℓ} : {E S : Type ℓ} (s t : S) → ◌≡◌ {A = Result E S} (ok s) (ok t) → s ≡ t
unfolding value_or
ok_injective s t e = ap (value_or s) e
