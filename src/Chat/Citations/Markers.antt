-- ===== src/Chat/Citations/Markers.antt =====
-- The markers of backend/app/chat/citations.py, `[S12]`, and the regular expressions that find them
-- at the start of a text.
use etoeragcb.Base.{
  ℕ, Bool, true, false, ◌&&◌, Option, none, some, [], ◌∷◌, ◌++◌, leb, nat_eq, if◌then◌else◌,
}
use etoeragcb.Base.Text.{Text}

abbrev pub is_digit : ℕ → Bool
is_digit c = leb b'0' c && leb c b'9'

-- The longest prefix of digits, and the rest.
unfoldable pub span_digits : Text → Text × Text
span_digits [] = ([], [])
span_digits (c ∷ s) =
    let (digits, rest) = span_digits s in if is_digit c then (c ∷ digits, rest) else ([], c ∷ s)

-- `[0-9]+\]`: the digits, and what follows the bracket.
unfoldable pub close_marker : Text × Text → Option (Text × Text)
close_marker ([], rest) = none
close_marker (d ∷ digits, []) = none
close_marker (d ∷ digits, c ∷ rest) = if nat_eq c b']' then some (d ∷ digits, rest) else none

-- `\[S([0-9]+)\]`, matched at the start.
unfoldable pub any_marker : Text → Option (Text × Text)
unfolding span_digits close_marker
any_marker (a ∷ b ∷ s) =
    if nat_eq a b'[' && nat_eq b b'S' then close_marker (span_digits s) else none
any_marker s = none

-- The text of a marker.
abbrev pub marker : Text → Text
marker digits = b'[' ∷ b'S' ∷ (digits ++ b']' ∷ [])

unfoldable pub all_digits : Text → Bool
all_digits [] = true
all_digits (c ∷ s) = is_digit c && all_digits s

-- `\[S[0-9]*`, matched from the start to the end.
unfoldable pub incomplete_marker : Text → Bool
unfolding all_digits
incomplete_marker (a ∷ b ∷ s) = nat_eq a b'[' && nat_eq b b'S' && all_digits s
incomplete_marker s = false

-- `suffix == "["`.
unfoldable pub is_open_bracket : Text → Bool
is_open_bracket (c ∷ []) = nat_eq c b'['
is_open_bracket s = false
