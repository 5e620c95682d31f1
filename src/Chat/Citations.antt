-- ===== src/Chat/Citations.antt =====
-- `CitationStreamSanitizer` of backend/app/chat/citations.py: a model's answer is streamed with only
-- those citation markers that were allowed. The regular expressions are scanners over code points.
mod Markers
pub mod Repair
pub mod Split
pub mod Stream
pub mod Clean
pub mod Nested
pub mod Forged
mod Tests
unfoldable pub use Markers.*
use etoeragcb.Base.{
  ℕ, zero, suc, ◌+◌, Bool, true, false, not, ◌&&◌, ◌||◌, Option, none, some, List, [], ◌∷◌, ◌++◌,
  if◌then◌else◌, length, nat_eq, ◌==◌, text_keys,
}
use etoeragcb.Base.Text.{Text}
use etoeragcb.Base.Counter.{contains}
use etoeragcb.Chat.Citations.Repair.{repair_complete_answer, ordered_source_ids}

-- What one call of `_drain` yields: the text to emit, the text that stays pending, and whether
-- something was dropped.
pub record Drained : Type 0 where
  pub output : Text
  pub pending : Text
  pub repaired : Bool

abbrev pub nothing : Drained
nothing = record { output = []; pending = []; repaired = false }

abbrev pub emit : Text → Drained → Drained
emit out d = record d { output = out ++ d.output }

abbrev pub drop_marker : Drained → Drained
drop_marker d = record d { repaired = true }

-- A suffix that may still become a marker when more text arrives.
unfoldable pub may_become_marker : Text → Bool
may_become_marker suffix = is_open_bracket suffix || incomplete_marker suffix

-- The scan of `_drain`, over the characters from the cursor on; `skip` counts those of a marker that
-- were already dealt with.
unfoldable pub drain : Bool → List Text → ℕ → Text → Drained
drain final allowed skip [] = nothing
drain final allowed (suc skip) (c ∷ s) = drain final allowed skip s
drain final allowed zero (c ∷ s) =
    let next = drain final allowed zero s in
    elim (nat_eq c b'[') [
      | false ↦ emit (c ∷ []) next
      | true ↦ elim (any_marker (c ∷ s)) [
        | some (digits, rest) ↦
            let after = drain final allowed (suc (suc (length digits))) s in
            if contains (b'S' ∷ digits) allowed
            then emit (marker digits) after
            else drop_marker after
        | none ↦
            if not final && may_become_marker (c ∷ s)
            then record { output = []; pending = c ∷ s; repaired = false }
            else if final && incomplete_marker (c ∷ s)
            then record { output = []; pending = []; repaired = true }
            else emit (c ∷ []) next
      ]
    ]

-- The fields of the sanitizer; lists of parts are kept joined.
pub record Sanitizer : Type 0 where
  pub allowed : List Text
  pub pending : Text
  pub raw : Text
  pub emitted : Text
  pub repaired : Bool

pub record SanitizedAnswer : Type 0 where
  pub text : Text
  pub cited_source_ids : List Text
  pub repaired : Bool

-- `__init__`.
abbrev pub start : List Text → Sanitizer
start allowed = record { allowed = allowed; pending = []; raw = []; emitted = []; repaired = false }

-- The effect of a drain on the fields.
abbrev pub absorb : Sanitizer → Drained → Sanitizer
absorb s d = record s {
  pending = d.pending;
  emitted = s.emitted ++ d.output;
  repaired = s.repaired || d.repaired;
}

-- `feed`: the new state, and the text that may be streamed.
unfoldable pub feed : Sanitizer → Text → Sanitizer × Text
feed s [] = (s, [])
feed s (c ∷ fragment) =
    let d = drain false s.allowed zero (s.pending ++ c ∷ fragment) in
    (absorb (record s { raw = s.raw ++ c ∷ fragment }) d, d.output)

-- The fragments of a stream, one after another.
unfoldable pub feed_all : Sanitizer → List Text → Sanitizer
unfolding feed
feed_all s [] = s
feed_all s (fragment ∷ rest) = feed_all (feed s fragment).0 rest

-- The last drain of `finish`.
unfoldable pub flush : Sanitizer → Sanitizer
flush s = absorb s (drain true s.allowed zero s.pending)

-- `finish`: the answer that replaces what was streamed, where the two differ.
unfoldable pub finish : Sanitizer → Sanitizer × SanitizedAnswer
unfolding flush
finish s =
    let s' = flush s in
    let authoritative = repair_complete_answer s'.allowed s'.raw in
    (
      s',
      record {
        text = authoritative;
        cited_source_ids = ordered_source_ids authoritative;
        repaired = s'.repaired || not (authoritative == s'.emitted);
      },
    )
