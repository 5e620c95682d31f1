-- ===== src/Core/Pagination/Base64.antt =====
-- The padding of Base64 in backend/app/core/pagination.py: it is taken off and put back.
use etoeragcb.Base.{
  ℕ, zero, suc, ◌+◌, ◌-◌, ◌%◌, ◌<◌, ◌≡◌, refl, sym, ap, ◌∙◌, true, false, some, [], ◌∷◌, ◌++◌,
  reverse, length, nat_eq, arith, All, All-append,
}
use mathlib.Core.List.{reverse-append, reverse-reverse}
use etoeragcb.Base.Text.{Text, codes}
use etoeragcb.Core.Pagination.{lstrip_equals, rstrip_equals, equals_signs, with_padding, split_dot}

-- A character of Base64 that is neither padding nor the separator of a token.
abbrev pub IsPlain : ℕ → Type 0
IsPlain c = (nat_eq c 61 ≡ false) × (nat_eq c 46 ≡ false)

-- What Base64 gives: plain characters and padding, together a multiple of four.
pub record IsPadded (s : Text) : Type 0 where
  pub plain : Text
  pub count : ℕ
  pub parts : s ≡ plain ++ equals_signs count
  pub plain_all : All IsPlain plain
  pub few : count < 4
  pub whole : (length plain + count) % 4 ≡ 0

All-reverse : (P : ℕ → Type 0) (s : Text) → All P s → All P (reverse s)
All-reverse P [] h = tt
All-reverse P (c ∷ s) (first, more) =
    rw (reverse-append (c ∷ []) s)
      (All-append P (reverse s) (c ∷ []) (All-reverse P s more) (first, tt))

equals_signs-All : (n : ℕ) → All (λ c. nat_eq c 61 ≡ true) (equals_signs n)
unfolding equals_signs
equals_signs-All zero = tt
equals_signs-All (suc n) = (refl, equals_signs-All n)

lstrip-append :
    (e s : Text) → All (λ c. nat_eq c 61 ≡ true) e → lstrip_equals (e ++ s) ≡ lstrip_equals s
unfolding lstrip_equals
lstrip-append [] s h = refl
lstrip-append (c ∷ e) s (first, more) = rw first (lstrip-append e s more)

lstrip_plain : (s : Text) → All IsPlain s → lstrip_equals s ≡ s
unfolding lstrip_equals
lstrip_plain [] h = refl
lstrip_plain (c ∷ s) h = rw h.0.0 refl

rstrip_padded : (t : Text) (k : ℕ) → All IsPlain t → rstrip_equals (t ++ equals_signs k) ≡ t
unfolding rstrip_equals
rstrip_padded t k h =
    let swapped = reverse-append t (equals_signs k) in
    let stripped =
      lstrip-append (reverse (equals_signs k)) (reverse t)
        (All-reverse _ (equals_signs k) (equals_signs-All k)) in
    ap reverse
      (ap lstrip_equals swapped ∙ stripped ∙ lstrip_plain (reverse t) (All-reverse IsPlain t h))
    ∙ reverse-reverse t

-- What is left after the padding is taken off, and that it comes back.
pub with_padding-rstrip : (s : Text) → IsPadded s → with_padding (rstrip_equals s) ≡ s
unfolding with_padding
with_padding-rstrip s p =
    let stripped = ap rstrip_equals p.parts ∙ rstrip_padded p.plain p.count p.plain_all in
    let count : (4 - length p.plain % 4) % 4 ≡ p.count = omega (arith, p.few, p.whole) in
    ap (λ t. t ++ equals_signs ((4 - length t % 4) % 4)) stripped
    ∙ ap (λ n. p.plain ++ equals_signs n) count
    ∙ sym p.parts

split_plain : (t s : Text) → All IsPlain t → split_dot (t ++ 46 ∷ s) ≡ some (t, s)
unfolding split_dot
split_plain [] s h = refl
split_plain (c ∷ t) s h = rw (h.0.1, split_plain t s h.1) refl

-- A token is split at the dot that `encode` writes.
pub split_dot-rstrip :
    (s rest : Text)
    → IsPadded s
    → split_dot (rstrip_equals s ++ (codes "." ++ rest)) ≡ some (rstrip_equals s, rest)
split_dot-rstrip s rest p =
    let stripped = ap rstrip_equals p.parts ∙ rstrip_padded p.plain p.count p.plain_all in
    rw stripped (split_plain p.plain rest p.plain_all)
