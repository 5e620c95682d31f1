-- ===== src/Chat/Citations/Repair.antt =====
-- `_repair_complete_answer` and `_ordered_source_ids` of backend/app/chat/citations.py: the whole
-- answer is cleaned, and its citations are read off.
use etoeragcb.Base.{
  ℕ, zero, suc, ◌+◌, Bool, true, false, not, ◌&&◌, ◌||◌, Option, none, some, List, [], ◌∷◌, ◌++◌,
  if◌then◌else◌, length, drop, nat_eq, text_keys,
}
use etoeragcb.Base.Text.{Text, is_space, starts_with, strip}
use etoeragcb.Base.Counter.{contains, add}
use etoeragcb.Chat.Citations.Markers.{any_marker, marker, span_digits}

-- `ANY_MARKER_RE.sub(...)`: markers that are not allowed are removed.
unfoldable pub remove_markers : List Text → ℕ → Text → Text
remove_markers allowed skip [] = []
remove_markers allowed (suc skip) (c ∷ s) = remove_markers allowed skip s
remove_markers allowed zero (c ∷ s) =
    let next = remove_markers allowed zero s in
    elim (any_marker (c ∷ s)) [
      | some (digits, rest) ↦
          let after = remove_markers allowed (suc (suc (length digits))) s in
          if contains (b'S' ∷ digits) allowed then marker digits ++ after else after
      | none ↦ c ∷ next
    ]

-- What follows an unfinished marker that `$` accepts: the end, or a last line break.
at_end : Text → Bool
at_end [] = true
at_end (c ∷ []) = nat_eq c 10
at_end s = false

-- `INCOMPLETE_MARKER_RE`, matched at the start: what is left behind the match.
incomplete_at_end : Text → Option Text
unfolding span_digits at_end
incomplete_at_end (a ∷ b ∷ s) =
    let rest = (span_digits s).1 in
    if nat_eq a b'[' && nat_eq b b'S' && at_end rest then some rest else none
incomplete_at_end s = none

-- `INCOMPLETE_MARKER_RE.sub("", ...)`.
unfoldable pub remove_incomplete : Text → Text
unfolding incomplete_at_end
remove_incomplete [] = []
remove_incomplete (c ∷ s) =
    let next = remove_incomplete s in
    elim (incomplete_at_end (c ∷ s)) [ some rest ↦ rest | none ↦ c ∷ next ]

-- `[1-9][0-9]*`.
starts_positive : Text → Bool
starts_positive [] = false
starts_positive (d ∷ digits) = not (nat_eq d b'0')

-- `\[S([1-9][0-9]*)\]`, matched at the start: its digits, and what follows.
unfoldable pub positive_marker : Text → Option (Text × Text)
unfolding any_marker starts_positive
positive_marker s = elim (any_marker s) [
  | none ↦ none
  | some (digits, rest) ↦ if starts_positive digits then some (digits, rest) else none
]

lead_space : Text → ℕ
lead_space [] = 0
lead_space (c ∷ s) = let n = lead_space s in if is_space c then suc n else 0

-- `(?:\s*\1)*`: how many characters the repetitions of a token take. Each takes one at least, so the
-- length of the text is fuel enough.
repeats : ℕ → Text → Text → ℕ
unfolding lead_space
repeats zero token s = 0
repeats (suc fuel) token s =
    let gap = lead_space s in
    let more = repeats fuel token (drop (gap + length token) s) in
    if starts_with (drop gap s) token then gap + length token + more else 0

-- `ADJACENT_DUPLICATE_RE.sub(r"\1", ...)`.
unfoldable pub merge_repeats : ℕ → Text → Text
unfolding repeats positive_marker
merge_repeats skip [] = []
merge_repeats (suc skip) (c ∷ s) = merge_repeats skip s
merge_repeats zero (c ∷ s) =
    let next = merge_repeats zero s in
    elim (positive_marker (c ∷ s)) [
      | none ↦ c ∷ next
      | some (digits, rest) ↦
          marker digits
          ++ merge_repeats (2 + length digits + repeats (length rest) (marker digits) rest) s
    ]

is_blank : ℕ → Bool
is_blank c = nat_eq c 32 || nat_eq c 9

is_punctuation : ℕ → Bool
is_punctuation c =
    nat_eq c b','
    || nat_eq c b'.'
    || nat_eq c b';'
    || nat_eq c b':'
    || nat_eq c b'!'
    || nat_eq c b'?'

-- The first character behind the blanks is a punctuation mark.
punctuation_next : Text → Bool
unfolding is_blank is_punctuation
punctuation_next [] = false
punctuation_next (c ∷ s) =
    let later = punctuation_next s in if is_blank c then later else is_punctuation c

-- `re.sub(r"[ \t]+([,.;:!?])", r"\1", ...)`.
unfoldable pub tighten : Text → Text
unfolding is_blank punctuation_next
tighten [] = []
tighten (c ∷ s) =
    let next = tighten s in if is_blank c && punctuation_next s then next else c ∷ next

starts_blank : Text → Bool
unfolding is_blank
starts_blank [] = false
starts_blank (c ∷ s) = is_blank c

-- `re.sub(r"[ \t]{2,}", " ", ...)`; `inside` says that the run of blanks is already replaced.
unfoldable pub squeeze : Bool → Text → Text
unfolding is_blank starts_blank
squeeze inside [] = []
squeeze inside (c ∷ s) =
    let within = squeeze true s in
    let beyond = squeeze false s in
    if not (is_blank c)
    then c ∷ beyond
    else if inside
    then within
    else if starts_blank s
    then 32 ∷ within
    else c ∷ beyond

unfoldable pub repair_complete_answer : List Text → Text → Text
unfolding remove_markers remove_incomplete merge_repeats tighten squeeze
repair_complete_answer allowed value = strip (
    squeeze false
      (tighten (merge_repeats zero (remove_incomplete (remove_markers allowed zero value)))))

found_with : Option (Text × Text) → List Text → List Text
found_with none found = found
found_with (some (digits, rest)) found = add (b'S' ∷ digits) found

-- The identifiers of the markers, each at its first place. A marker holds no second bracket, so the
-- scan goes on behind the bracket.
unfoldable pub source_ids_from : List Text → Text → List Text
unfolding positive_marker found_with
source_ids_from found [] = found
source_ids_from found (c ∷ s) = source_ids_from (found_with (positive_marker (c ∷ s)) found) s

unfoldable pub ordered_source_ids : Text → List Text
unfolding source_ids_from
ordered_source_ids value = source_ids_from [] value
