-- ===== src/Chat/Citations/Stream.antt =====
-- What is streamed does not depend on how the answer was cut into fragments.
use etoeragcb.Base.{
  ℕ, ◌++◌, Bool, List, ◌||◌, nat_eq, ◌≤◌, ◌≡◌, length, true, false, ◌∷◌, ◌⊎◌, zero, some, none, [],
  suc, arith, Bool-cases, inl, inr, ap, Option-cases, ◌∙◌, if◌then◌else◌, refl, append-nil,
  text_keys, sym, append_assoc, not, ◌==◌,
}
use etoeragcb.Base.Text.{Text}
use etoeragcb.Base.Counter.{contains}
use etoeragcb.Chat.Citations.{
  any_marker, marker, may_become_marker, Drained, emit, drop_marker, drain, Sanitizer, feed,
  feed_all, start, SanitizedAnswer, flush, finish,
}
use etoeragcb.Chat.Citations.Split.{
  extend, any_marker-partial, any_marker-append, may_become-append, length-any_marker,
}
use etoeragcb.Chat.Citations.Repair.{repair_complete_answer, ordered_source_ids}

-- One drain after another.
abbrev pub then_drain : Drained → Drained → Drained
then_drain d e = record e { output = d.output ++ e.output; repaired = d.repaired || e.repaired }

-- The branches of `drain` at a bracket.
pub drain-marker :
    (final : Bool) (allowed : List Text) (c : ℕ) (s digits rest : Text)
    → nat_eq c b'[' ≡ true
    → any_marker (c ∷ s) ≡ some (digits, rest)
    → drain final allowed zero (c ∷ s) ≡ (
        let after = drain final allowed (suc (suc (length digits))) s in
        if contains (b'S' ∷ digits) allowed then emit (marker digits) after else drop_marker after)
unfolding drain
drain-marker final allowed c s digits rest opens found = rw (opens, found, drain)

drain_plain :
    (final : Bool) (allowed : List Text) (c : ℕ) (s : Text)
    → (nat_eq c b'[' ≡ false)
      ⊎ ((nat_eq c b'[' ≡ true) × (any_marker (c ∷ s) ≡ none) × (may_become_marker (c ∷ s) ≡ false))
    → drain final allowed zero (c ∷ s) ≡ emit (c ∷ []) (drain final allowed zero s)
unfolding drain may_become_marker
drain_plain final allowed c s (inl plain) = rw (plain, drain)
drain_plain final allowed c s (inr (opens, missing, never)) =
    rw (opens, missing, drain) (ground arith)

drain_partial :
    (allowed : List Text) (c : ℕ) (s : Text)
    → nat_eq c b'[' ≡ true
    → may_become_marker (c ∷ s) ≡ true
    → drain false allowed zero (c ∷ s) ≡ record { output = []; pending = c ∷ s; repaired = false }
unfolding drain
drain_partial allowed c s opens may = rw (opens, any_marker-partial (c ∷ s) may, may, drain)

emit_then : (out : Text) (d y : Drained) → emit out (then_drain d y) ≡ then_drain (emit out d) y
emit_then out d y =
    ap (λ t. record (then_drain d y) { output = t }) (sym (append_assoc out d.output y.output))

drain_skip :
    (final : Bool) (allowed : List Text) (skip c : ℕ) (s : Text)
    → drain final allowed (suc skip) (c ∷ s) ≡ drain final allowed skip s
unfolding drain
drain_skip final allowed skip c s = refl

drain-append :
    (final : Bool) (allowed : List Text) (skip : ℕ) (a b : Text)
    → skip ≤ length a
    → drain final allowed skip (a ++ b)
      ≡ then_drain
          (drain false allowed skip a)
          (drain final allowed zero ((drain false allowed skip a).pending ++ b))
drain-append final allowed zero [] b h = unfold drain in refl
drain-append final allowed (suc skip) [] b h = absurd (omega arith)
drain-append final allowed (suc skip) (c ∷ s) b h =
    rw (drain_skip final allowed skip c (s ++ b), drain_skip false allowed skip c s)
      (drain-append final allowed skip s b (omega arith))
drain-append final allowed zero (c ∷ s) b h = elim (Bool-cases (nat_eq c b'[')) [
  | inr plain ↦
      rw
        (
          drain_plain final allowed c (s ++ b) (inl plain),
          drain_plain false allowed c s (inl plain),
        )
        (ap (emit (c ∷ [])) (drain-append final allowed zero s b (omega arith)))
  | inl opens ↦ elim (Bool-cases (may_become_marker (c ∷ s))) [
    | inl may ↦ rw (drain_partial allowed c s opens may) refl
    | inr never ↦ elim (Option-cases (any_marker (c ∷ s))) [
      | inl missing ↦
          let missing' : any_marker (c ∷ (s ++ b)) ≡ none =
            any_marker-append c s b opens never ∙ ap (extend b) missing in
          rw
            (
              drain_plain final allowed c (s ++ b)
                  (inr (opens, missing', may_become-append c s b opens never)),
              drain_plain false allowed c s (inr (opens, missing, never)),
            )
            (ap (emit (c ∷ [])) (drain-append final allowed zero s b (omega arith)))
      | inr ((digits, rest), found) ↦
          let found' : any_marker (c ∷ (s ++ b)) ≡ some (digits, rest ++ b) =
            any_marker-append c s b opens never ∙ ap (extend b) found in
          let ih =
            drain-append final allowed (suc (suc (length digits))) s b
              (length-any_marker c s digits rest found) in
          elim (Bool-cases (contains (b'S' ∷ digits) allowed)) [
            | inl known ↦
                rw
                  (
                    drain-marker final allowed c (s ++ b) digits (rest ++ b) opens found',
                    drain-marker false allowed c s digits rest opens found,
                    known,
                  )
                  (ap (emit (marker digits)) ih
                    ∙ emit_then (marker digits) (drain false allowed (suc (suc (length digits))) s)
                        _)
            | inr unknown ↦
                rw
                  (
                    drain-marker final allowed c (s ++ b) digits (rest ++ b) opens found',
                    drain-marker false allowed c s digits rest opens found,
                    unknown,
                  )
                  (ap drop_marker ih)
          ]
    ]
  ]
]

-- The state of a sanitizer that was fed a text.
pub IsFed : List Text → Text → Sanitizer → Type 0
IsFed allowed text s =
    (s.allowed ≡ allowed)
    × (s.raw ≡ text)
    × (s.pending ≡ (drain false allowed zero text).pending)
    × (s.emitted ≡ (drain false allowed zero text).output)
    × (s.repaired ≡ (drain false allowed zero text).repaired)

drain_more :
    (final : Bool) (allowed : List Text) (a b : Text)
    → drain final allowed zero (a ++ b)
      ≡ then_drain
          (drain false allowed zero a)
          (drain final allowed zero ((drain false allowed zero a).pending ++ b))
drain_more final allowed a b = drain-append final allowed zero a b (omega arith)

pub feed-IsFed :
    (allowed : List Text) (text fragment : Text) (s : Sanitizer)
    → IsFed allowed text s
    → IsFed allowed (text ++ fragment) (feed s fragment).0
unfolding feed IsFed
feed-IsFed allowed text [] s h = rw (append-nil text) h
feed-IsFed allowed text (c ∷ fragment) s (known, raw, pending, emitted, repaired) =
    let more = drain_more false allowed text (c ∷ fragment) in
    (
      known,
      ap (λ t. t ++ c ∷ fragment) raw,
      rw (known, pending, more) refl,
      rw (known, pending, emitted, more) refl,
      rw (known, pending, repaired, more) refl,
    )

-- The text that fragments add up to.
unfoldable pub joined : List Text → Text
joined [] = []
joined (fragment ∷ rest) = fragment ++ joined rest

feed_all-IsFed :
    (allowed : List Text) (text : Text) (fragments : List Text) (s : Sanitizer)
    → IsFed allowed text s
    → IsFed allowed (text ++ joined fragments) (feed_all s fragments)
unfolding joined feed_all
feed_all-IsFed allowed text [] s h = rw (append-nil text) h
feed_all-IsFed allowed text (fragment ∷ rest) s h =
    rw (sym (append_assoc text fragment (joined rest))) (
      feed_all-IsFed allowed (text ++ fragment) rest (feed s fragment).0
        (feed-IsFed allowed text fragment s h))

start-IsFed : (allowed : List Text) → IsFed allowed [] (start allowed)
unfolding IsFed drain
start-IsFed allowed = (refl, refl, refl, refl, refl)

-- The answer, read off the text that was fed.
abbrev pub answer_of : List Text → Text → SanitizedAnswer
answer_of allowed text = record {
  text = repair_complete_answer allowed text;
  cited_source_ids = ordered_source_ids (repair_complete_answer allowed text);
  repaired =
      (drain true allowed zero text).repaired
      || not (repair_complete_answer allowed text == (drain true allowed zero text).output);
}

flush-IsFed :
    (allowed : List Text) (text : Text) (s : Sanitizer)
    → IsFed allowed text s
    → ((flush s).emitted ≡ (drain true allowed zero text).output)
      × ((finish s).1 ≡ answer_of allowed text)
unfolding flush finish IsFed
flush-IsFed allowed text s (known, raw, pending, emitted, repaired) =
    let more = drain_more true allowed text [] in
    let last : drain true allowed zero text
        ≡ then_drain (drain false allowed zero text)
            (drain true allowed zero (drain false allowed zero text).pending) =
      sym (ap (drain true allowed zero) (append-nil text))
      ∙ more
      ∙ ap (λ t. then_drain (drain false allowed zero text) (drain true allowed zero t))
          (append-nil (drain false allowed zero text).pending) in
    (
      rw (known, pending, emitted, last) refl,
      rw (known, raw, pending, emitted, repaired, last) refl,
    )

-- However an answer is cut into fragments, what `feed` and `finish` stream adds up to one last drain
-- of the whole text, and the answer `finish` returns is the repaired text with the identifiers cited
-- in it, flagged as repaired when the drain dropped something or the streamed text differs from it.
pub stream_any_fragments :
    (allowed : List Text) (fragments : List Text)
    → ((flush (feed_all (start allowed) fragments)).emitted
        ≡ (drain true allowed zero (joined fragments)).output)
      × ((finish (feed_all (start allowed) fragments)).1 ≡ answer_of allowed (joined fragments))
stream_any_fragments allowed fragments =
    flush-IsFed allowed (joined fragments) (feed_all (start allowed) fragments)
      (feed_all-IsFed allowed [] fragments (start allowed) (start-IsFed allowed))
