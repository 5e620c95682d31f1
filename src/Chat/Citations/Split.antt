-- ===== src/Chat/Citations/Split.antt =====
-- How a scan of a text relates to a scan of its beginning: what was decided stays decided, and what
-- stayed pending is scanned again with what follows.
use etoeragcb.Base.{
  ℕ, suc, ◌+◌, ◌≤◌, Bool, true, false, ◌&&◌, ◌≡◌, refl, ap, Option, none, some, [], ◌∷◌, ◌++◌,
  arith, length, nat_eq, Bool-cases, inl, inr, text_keys, if◌then◌else◌,
}
use etoeragcb.Base.Text.{Text}
use etoeragcb.Chat.Citations.{
  span_digits, close_marker, any_marker, all_digits, incomplete_marker, is_open_bracket,
  may_become_marker, is_digit,
}

span_digits-open : (s : Text) → all_digits s ≡ true → span_digits s ≡ (s, [])
unfolding span_digits all_digits
span_digits-open [] h = refl
span_digits-open (x ∷ s) h = ground (arith, span_digits-open s)

span_digits-closed :
    (s : Text)
    → all_digits s ≡ false
    → (c : ℕ) × (rest : Text) × (span_digits s ≡ ((span_digits s).0, c ∷ rest))
unfolding span_digits all_digits
span_digits-closed [] h = cc
span_digits-closed (x ∷ s) h = elim (Bool-cases (is_digit x)) [
  | inl p ↦
      let (c, rest, e) = span_digits-closed s (ground arith) in
      (c, rest, rw p (ap (λ q. (x ∷ q.0, q.1)) e))
  | inr p ↦ (x, s, rw p)
]

span_digits-append :
    (s b : Text)
    → all_digits s ≡ false
    → span_digits (s ++ b) ≡ ((span_digits s).0, (span_digits s).1 ++ b)
unfolding span_digits all_digits
span_digits-append [] b h = cc
span_digits-append (x ∷ s) b h = ground (arith, span_digits-append s b)

length-span : (s : Text) → length (span_digits s).0 + length (span_digits s).1 ≡ length s
unfolding span_digits
length-span [] = omega arith
length-span (x ∷ s) = ground (arith, length-span s)

-- What was found at the start of a text, when more text follows.
abbrev pub extend : Text → Option (Text × Text) → Option (Text × Text)
extend b none = none
extend b (some (digits, rest)) = some (digits, rest ++ b)

close_marker-append :
    (digits : Text) (c : ℕ) (rest b : Text)
    → close_marker (digits, c ∷ (rest ++ b)) ≡ extend b (close_marker (digits, c ∷ rest))
unfolding close_marker
close_marker-append [] c rest b = refl
close_marker-append (d ∷ digits) c rest b = ground arith

-- A text that may become a marker is none yet.
pub any_marker-partial : (s : Text) → may_become_marker s ≡ true → any_marker s ≡ none
unfolding any_marker close_marker may_become_marker incomplete_marker is_open_bracket
any_marker-partial [] h = refl
any_marker-partial (x ∷ []) h = refl
any_marker-partial (x ∷ y ∷ s) h = elim (Bool-cases (all_digits s)) [
  | inl p ↦ rw (span_digits-open s p) (close_none s (nat_eq x b'[' && nat_eq y b'S'))
  | inr p ↦ ground arith
]
  where
    close_none : (s : Text) (t : Bool) → (if t then close_marker (s, []) else none) ≡ none
    close_none [] t = ground arith
    close_none (d ∷ s) t = ground arith

-- A text that begins with a bracket, and cannot become a marker, is or is not one whatever follows.
pub any_marker-append :
    (x : ℕ) (s b : Text)
    → nat_eq x b'[' ≡ true
    → may_become_marker (x ∷ s) ≡ false
    → any_marker (x ∷ (s ++ b)) ≡ extend b (any_marker (x ∷ s))
unfolding any_marker may_become_marker incomplete_marker is_open_bracket
any_marker-append x [] b opens h = ground arith
any_marker-append x (y ∷ s) b opens h = elim (Bool-cases (nat_eq y b'S')) [
  | inr p ↦ ground arith
  | inl p ↦
      let wide : all_digits s ≡ false = ground arith in
      let (c, rest, e) = span_digits-closed s wide in
      rw (opens, p, span_digits-append s b wide, e) (close_marker-append (span_digits s).0 c rest b)
]

pub may_become-append :
    (x : ℕ) (s b : Text)
    → nat_eq x b'[' ≡ true
    → may_become_marker (x ∷ s) ≡ false
    → may_become_marker (x ∷ (s ++ b)) ≡ false
unfolding may_become_marker incomplete_marker is_open_bracket
may_become-append x [] b opens h = ground arith
may_become-append x (y ∷ s) b opens h = ground (arith, all_digits-append s b)
  where
    all_digits-append : (s b : Text) → all_digits s ≡ false → all_digits (s ++ b) ≡ false
    all_digits-append [] b h = cc
    all_digits-append (x ∷ s) b h = ground (arith, all_digits-append s b)

length-close_marker :
    (q : Text × Text) (digits rest : Text)
    → close_marker q ≡ some (digits, rest)
    → (length digits ≡ length q.0) × (length q.1 ≡ suc (length rest))
unfolding close_marker
length-close_marker ([], r) digits rest h = cc
length-close_marker (d ∷ ds, []) digits rest h = cc
length-close_marker (d ∷ ds, c ∷ r) digits rest h = elim (Bool-cases (nat_eq c b']')) [
  | inl p ↦ (ground arith, ground arith)
  | inr p ↦ ground arith
]

-- A marker fits in the text.
pub length-any_marker :
    (c : ℕ) (s digits rest : Text)
    → any_marker (c ∷ s) ≡ some (digits, rest)
    → suc (suc (length digits)) ≤ length s
unfolding any_marker
length-any_marker c [] digits rest h = cc
length-any_marker c (y ∷ s) digits rest h = elim (Bool-cases (nat_eq c b'[' && nat_eq y b'S')) [
  | inl p ↦
      omega (arith, length-close_marker (span_digits s) digits rest (rw p at h), length-span s)
  | inr p ↦ ground arith
]
