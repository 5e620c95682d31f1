-- ===== src/Chat/Citations/Forged.antt =====
-- What the removal of markers leaves behind: `_drain` and `_repair_complete_answer` do not look again
-- at the text that a removed marker brings together.
use etoeragcb.Base.{
  ℕ, zero, suc, true, false, ◌≡◌, refl, ap, sym, some, List, [], ◌∷◌, ◌++◌, arith, length,
  append_assoc, text_keys, subst,
}
use etoeragcb.Base.Text.{Text}
use etoeragcb.Base.Counter.{contains}
use etoeragcb.Chat.Citations.{
  span_digits, close_marker, any_marker, marker, all_digits, incomplete_marker, emit, drop_marker,
  drain,
}
use etoeragcb.Chat.Citations.Repair.{remove_markers}
use etoeragcb.Chat.Citations.Stream.{drain-marker}

pub span_digits-marker :
    (ds rest : Text) → all_digits ds ≡ true → span_digits (ds ++ b']' ∷ rest) ≡ (ds, b']' ∷ rest)
unfolding span_digits all_digits
span_digits-marker [] rest h = refl
span_digits-marker (d ∷ ds) rest h = ground (arith, span_digits-marker ds rest)

-- A marker's own text is a marker.
pub any_marker-marker :
    (d : ℕ) (ds rest : Text)
    → all_digits (d ∷ ds) ≡ true
    → any_marker (b'[' ∷ b'S' ∷ (d ∷ ds ++ b']' ∷ rest)) ≡ some (d ∷ ds, rest)
unfolding any_marker close_marker
any_marker-marker d ds rest h = rw (span_digits-marker (d ∷ ds) rest h) refl

drain_over :
    (allowed : List Text) (ds rest : Text)
    → drain true allowed (suc (length ds)) (ds ++ b']' ∷ rest) ≡ drain true allowed zero rest
unfolding drain
drain_over allowed [] rest = refl
drain_over allowed (d ∷ ds) rest = drain_over allowed ds rest

remove_over :
    (allowed : List Text) (ds rest : Text)
    → remove_markers allowed (suc (length ds)) (ds ++ b']' ∷ rest)
      ≡ remove_markers allowed zero rest
unfolding remove_markers
remove_over allowed [] rest = refl
remove_over allowed (d ∷ ds) rest = remove_over allowed ds rest

drain_digits :
    (allowed : List Text) (es : Text)
    → all_digits es ≡ true
    → drain true allowed zero (es ++ b']' ∷ [])
      ≡ record { output = es ++ b']' ∷ []; pending = []; repaired = false }
unfolding drain all_digits
drain_digits allowed [] h = refl
drain_digits allowed (e ∷ es) h = ground (arith, drain_digits allowed es)

remove_digits :
    (allowed : List Text) (es : Text)
    → all_digits es ≡ true
    → remove_markers allowed zero (es ++ b']' ∷ []) ≡ es ++ b']' ∷ []
unfolding remove_markers all_digits any_marker
remove_digits allowed [] h = refl
remove_digits allowed (e ∷ []) h = ground arith
remove_digits allowed (e ∷ f ∷ es) h = ground (arith, remove_digits allowed (f ∷ es))

drain_opening :
    (allowed : List Text) (s : Text)
    → drain true allowed zero (b'[' ∷ b'S' ∷ b'[' ∷ s)
      ≡ emit (b'[' ∷ b'S' ∷ []) (drain true allowed zero (b'[' ∷ s))
unfolding drain incomplete_marker any_marker span_digits close_marker all_digits
drain_opening allowed s = refl

remove_opening :
    (allowed : List Text) (s : Text)
    → remove_markers allowed zero (b'[' ∷ b'S' ∷ b'[' ∷ s)
      ≡ b'[' ∷ b'S' ∷ remove_markers allowed zero (b'[' ∷ s)
unfolding remove_markers any_marker span_digits close_marker
remove_opening allowed s = refl

drain_unknown :
    (allowed : List Text) (d : ℕ) (ds rest : Text)
    → all_digits (d ∷ ds) ≡ true
    → contains (b'S' ∷ d ∷ ds) allowed ≡ false
    → drain true allowed zero (b'[' ∷ b'S' ∷ (d ∷ ds ++ b']' ∷ rest))
      ≡ drop_marker (drain true allowed zero rest)
unfolding drain
drain_unknown allowed d ds rest h unknown =
    rw
      (drain-marker true allowed b'[' _ (d ∷ ds) rest refl (any_marker-marker d ds rest h), unknown)
      (ap drop_marker (drain_over allowed ds rest))

remove_unknown :
    (allowed : List Text) (d : ℕ) (ds rest : Text)
    → all_digits (d ∷ ds) ≡ true
    → contains (b'S' ∷ d ∷ ds) allowed ≡ false
    → remove_markers allowed zero (b'[' ∷ b'S' ∷ (d ∷ ds ++ b']' ∷ rest))
      ≡ remove_markers allowed zero rest
unfolding remove_markers
remove_unknown allowed d ds rest h unknown =
    rw (any_marker-marker d ds rest h, unknown, remove_markers) (remove_over allowed ds rest)

-- The bare answer through the last drain and through `ANY_MARKER_RE.sub`.
pub nested_removed :
    (allowed : List Text) (d e : ℕ) (ds es : Text)
    → all_digits (d ∷ ds) ≡ true
    → all_digits (e ∷ es) ≡ true
    → contains (b'S' ∷ d ∷ ds) allowed ≡ false
    → let answer = b'[' ∷ b'S' ∷ (marker (d ∷ ds) ++ (e ∷ es ++ b']' ∷ [])) in
      ((drain true allowed zero answer).output ≡ marker (e ∷ es))
      × (remove_markers allowed zero answer ≡ marker (e ∷ es))
nested_removed allowed d e ds es inner outer unknown =
    let tail = e ∷ es ++ b']' ∷ [] in
    let flat : (ds ++ b']' ∷ []) ++ tail ≡ ds ++ b']' ∷ tail = append_assoc ds (b']' ∷ []) tail in
    let drained : drain true allowed zero (b'[' ∷ b'S' ∷ b'[' ∷ b'S' ∷ d ∷ (ds ++ b']' ∷ tail))
        ≡ record { output = marker (e ∷ es); pending = []; repaired = true } =
      rw
        (
          drain_opening allowed (b'S' ∷ d ∷ (ds ++ b']' ∷ tail)),
          drain_unknown allowed d ds tail inner unknown,
          drain_digits allowed (e ∷ es) outer,
        )
        refl in
    let removed : remove_markers allowed zero (b'[' ∷ b'S' ∷ b'[' ∷ b'S' ∷ d ∷ (ds ++ b']' ∷ tail))
        ≡ marker (e ∷ es) =
      rw
        (
          remove_opening allowed (b'S' ∷ d ∷ (ds ++ b']' ∷ tail)),
          remove_unknown allowed d ds tail inner unknown,
          remove_digits allowed (e ∷ es) outer,
        )
        refl in
    (
      subst
          (λ t.
            (drain true allowed zero (b'[' ∷ b'S' ∷ b'[' ∷ b'S' ∷ d ∷ t)).output ≡ marker (e ∷ es))
          (sym flat) (ap (λ d. d.output) drained),
      subst (λ t. remove_markers allowed zero (b'[' ∷ b'S' ∷ b'[' ∷ b'S' ∷ d ∷ t) ≡ marker (e ∷ es))
          (sym flat) removed,
    )
