-- ===== src/Chat/Citations/Clean.antt =====
-- The last steps of `_repair_complete_answer` leave a lone marker as it is.
use etoeragcb.Base.{
  ℕ, zero, suc, ◌+◌, true, false, ◌≡◌, refl, ap, ◌∙◌, some, List, [], ◌∷◌, ◌++◌, arith, length,
}
use mathlib.Core.List.{reverse, reverse-append, reverse-reverse, append-nil}
use etoeragcb.Base.{nat_eq, text_keys}
use etoeragcb.Base.Counter.{add, contains}
use etoeragcb.Chat.Citations.Forged.{any_marker-marker, span_digits-marker}
use etoeragcb.Base.Text.{Text, is_space, lstrip, strip}
use etoeragcb.Chat.Citations.Markers.{any_marker, is_digit, all_digits, marker}
use etoeragcb.Chat.Citations.Repair.{
  remove_incomplete, merge_repeats, positive_marker, tighten, squeeze, source_ids_from,
  ordered_source_ids,
}

remove_incomplete-digits :
    (es : Text) → all_digits es ≡ true → remove_incomplete (es ++ b']' ∷ []) ≡ es ++ b']' ∷ []
unfolding remove_incomplete all_digits
remove_incomplete-digits [] h = refl
remove_incomplete-digits (e ∷ []) h = ground arith
remove_incomplete-digits (e ∷ f ∷ es) h = ground (arith, remove_incomplete-digits (f ∷ es))

merge_repeats-digits :
    (es : Text) → all_digits es ≡ true → merge_repeats zero (es ++ b']' ∷ []) ≡ es ++ b']' ∷ []
unfolding merge_repeats positive_marker any_marker all_digits
merge_repeats-digits [] h = refl
merge_repeats-digits (e ∷ []) h = ground arith
merge_repeats-digits (e ∷ f ∷ es) h = ground (arith, merge_repeats-digits (f ∷ es))

tighten-digits : (es : Text) → all_digits es ≡ true → tighten (es ++ b']' ∷ []) ≡ es ++ b']' ∷ []
unfolding tighten all_digits
tighten-digits [] h = refl
tighten-digits (e ∷ es) h = ground (arith, tighten-digits es)

squeeze-digits :
    (es : Text) → all_digits es ≡ true → squeeze false (es ++ b']' ∷ []) ≡ es ++ b']' ∷ []
unfolding squeeze all_digits
squeeze-digits [] h = refl
squeeze-digits (e ∷ es) h = ground (arith, squeeze-digits es)

merge_over : (ds : Text) → merge_repeats (suc (length ds)) (ds ++ b']' ∷ []) ≡ []
unfolding merge_repeats
merge_over [] = refl
merge_over (d ∷ ds) = merge_over ds

and_parts :
    (e : ℕ) (es : Text) → all_digits (e ∷ es) ≡ true → (is_digit e ≡ true) × (all_digits es ≡ true)
unfolding all_digits
and_parts e es h = (ground (arith, h), ground (arith, h))

-- A marker whose number does not start with a zero.
module _ (e : ℕ) (es : Text) (digits : all_digits (e ∷ es) ≡ true)
    (positive : nat_eq e b'0' ≡ false) where
  is_positive : positive_marker (b'[' ∷ b'S' ∷ e ∷ (es ++ b']' ∷ [])) ≡ some (e ∷ es, [])
  unfolding positive_marker
  is_positive = rw (any_marker-marker e es [] digits, positive, positive_marker) refl

  pub remove_incomplete-marker :
      remove_incomplete (b'[' ∷ b'S' ∷ e ∷ (es ++ b']' ∷ [])) ≡ b'[' ∷ b'S' ∷ e ∷ (es ++ b']' ∷ [])
  unfolding remove_incomplete
  remove_incomplete-marker =
      rw
        (
          span_digits-marker (e ∷ es) [] digits,
          remove_incomplete-digits (e ∷ es) digits,
          remove_incomplete,
        )
        refl

  pub merge_repeats-marker :
      merge_repeats zero (b'[' ∷ b'S' ∷ e ∷ (es ++ b']' ∷ [])) ≡ b'[' ∷ b'S' ∷ e ∷ (es ++ b']' ∷ [])
  unfolding merge_repeats
  merge_repeats-marker =
      let skip : 2 + length (e ∷ es) + 0 ≡ suc (suc (suc (length es))) = omega arith in
      rw (is_positive, merge_repeats)
        (ap (λ t. marker (e ∷ es) ++ t)
            (ap (λ n. merge_repeats n (b'S' ∷ e ∷ (es ++ b']' ∷ []))) skip ∙ merge_over es)
          ∙ append-nil (marker (e ∷ es)))

  pub tighten-marker :
      tighten (b'[' ∷ b'S' ∷ e ∷ (es ++ b']' ∷ [])) ≡ b'[' ∷ b'S' ∷ e ∷ (es ++ b']' ∷ [])
  unfolding tighten
  tighten-marker = ap (λ t. b'[' ∷ b'S' ∷ t) (tighten-digits (e ∷ es) digits)

  pub squeeze-marker :
      squeeze false (b'[' ∷ b'S' ∷ e ∷ (es ++ b']' ∷ [])) ≡ b'[' ∷ b'S' ∷ e ∷ (es ++ b']' ∷ [])
  unfolding squeeze
  squeeze-marker = ap (λ t. b'[' ∷ b'S' ∷ t) (squeeze-digits (e ∷ es) digits)

  pub strip-marker :
      strip (b'[' ∷ b'S' ∷ e ∷ (es ++ b']' ∷ [])) ≡ b'[' ∷ b'S' ∷ e ∷ (es ++ b']' ∷ [])
  unfolding strip is_space
  strip-marker =
      ap (λ t. reverse (lstrip t)) (reverse-append (b'[' ∷ b'S' ∷ e ∷ es) (b']' ∷ []))
      ∙ reverse-append (b']' ∷ []) (reverse (b'[' ∷ b'S' ∷ e ∷ es))
      ∙ ap (λ t. t ++ b']' ∷ []) (reverse-reverse (b'[' ∷ b'S' ∷ e ∷ es))

ids-digits :
    (fs : Text) (found : List Text)
    → all_digits fs ≡ true
    → source_ids_from found (fs ++ b']' ∷ []) ≡ found
unfolding source_ids_from positive_marker any_marker all_digits
ids-digits [] found h = refl
ids-digits (f ∷ []) found h = ground arith
ids-digits (f ∷ g ∷ fs) found h = ground (arith, ids-digits (g ∷ fs) found)

module _ (e : ℕ) (es : Text) (digits : all_digits (e ∷ es) ≡ true)
    (positive : nat_eq e b'0' ≡ false) where
  pub ordered_source_ids-marker :
      ordered_source_ids (b'[' ∷ b'S' ∷ e ∷ (es ++ b']' ∷ [])) ≡ (b'S' ∷ e ∷ es) ∷ []
  unfolding ordered_source_ids source_ids_from add contains
  ordered_source_ids-marker =
      rw (is_positive e es digits positive, ordered_source_ids, source_ids_from)
        (ids-digits (e ∷ es) ((b'S' ∷ e ∷ es) ∷ []) digits)
