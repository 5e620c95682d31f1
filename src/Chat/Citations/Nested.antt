-- ===== src/Chat/Citations/Nested.antt =====
-- The whole run of the sanitizer of backend/app/chat/citations.py on a marker inside another one.
use etoeragcb.Base.{ℕ, zero, true, false, ◌≡◌, ap, ◌∙◌, List, [], ◌∷◌, ◌++◌, nat_eq, text_keys}
use etoeragcb.Base.Text.{Text, strip}
use etoeragcb.Base.Counter.{contains}
use etoeragcb.Chat.Citations.{
  marker, all_digits, drain, start, feed_all, flush, finish, SanitizedAnswer,
}
use etoeragcb.Chat.Citations.Repair.{
  remove_markers, remove_incomplete, merge_repeats, tighten, squeeze, repair_complete_answer,
  ordered_source_ids,
}
use etoeragcb.Chat.Citations.Stream.{joined, stream_any_fragments}
use etoeragcb.Chat.Citations.Forged.{nested_removed}
use etoeragcb.Chat.Citations.Clean.{
  remove_incomplete-marker, merge_repeats-marker, tighten-marker, squeeze-marker, strip-marker,
  ordered_source_ids-marker,
}

-- An answer from which the removal of markers leaves a marker is repaired to that marker.
repair_to_marker :
    (allowed : List Text) (answer : Text) (e : ℕ) (es : Text)
    → all_digits (e ∷ es) ≡ true
    → nat_eq e b'0' ≡ false
    → remove_markers allowed zero answer ≡ marker (e ∷ es)
    → repair_complete_answer allowed answer ≡ marker (e ∷ es)
unfolding repair_complete_answer
repair_to_marker allowed answer e es digits positive left =
    ap (λ t. strip (squeeze false (tighten (merge_repeats zero (remove_incomplete t))))) left
    ∙ ap (λ t. strip (squeeze false (tighten (merge_repeats zero t))))
        (remove_incomplete-marker e es digits positive)
    ∙ ap (λ t. strip (squeeze false (tighten t))) (merge_repeats-marker e es digits positive)
    ∙ ap (λ t. strip (squeeze false t)) (tighten-marker e es digits positive)
    ∙ ap strip (squeeze-marker e es digits positive)
    ∙ strip-marker e es digits positive

-- An answer that is a marker that is not allowed, with the two ends of another marker around it, whose
-- number does not start with a zero, however it is cut into fragments: the streamed text is the outer
-- marker, so is the repaired text that is returned, and this cites the source of the outer marker,
-- whether or not that is allowed.
pub nested_marker_forged :
    (allowed fragments : List Text) (d e : ℕ) (ds es : Text)
    → all_digits (d ∷ ds) ≡ true
    → all_digits (e ∷ es) ≡ true
    → nat_eq e b'0' ≡ false
    → contains (b'S' ∷ d ∷ ds) allowed ≡ false
    → joined fragments ≡ b'[' ∷ b'S' ∷ (marker (d ∷ ds) ++ (e ∷ es ++ b']' ∷ []))
    → let s = feed_all (start allowed) fragments in
      ((flush s).emitted ≡ marker (e ∷ es))
      × ((finish s).1.text ≡ marker (e ∷ es))
      × ((finish s).1.cited_source_ids ≡ (b'S' ∷ e ∷ es) ∷ [])
nested_marker_forged allowed fragments d e ds es inner outer positive unknown whole =
    let (streamed, answered) = stream_any_fragments allowed fragments in
    let (drained, removed) = nested_removed allowed d e ds es inner outer unknown in
    let repaired : repair_complete_answer allowed (joined fragments) ≡ marker (e ∷ es) =
      ap (repair_complete_answer allowed) whole
      ∙ repair_to_marker allowed _ e es outer positive removed in
    (
      streamed ∙ ap (λ t. (drain true allowed zero t).output) whole ∙ drained,
      ap (λ (a : SanitizedAnswer). a.text) answered ∙ repaired,
      ap (λ (a : SanitizedAnswer). a.cited_source_ids) answered
          ∙ ap ordered_source_ids repaired
          ∙ ordered_source_ids-marker e es outer positive,
    )
