-- ===== src/Chat/Citations/Tests.antt =====
-- Tests of the citation sanitizer, and its theorems at a concrete input.
use etoeragcb.Base.{zero, true, ◌≡◌, refl, List, [], ◌∷◌}
use etoeragcb.Base.Text.{Text, codes, is_space, text_eq, starts_with, strip}
use etoeragcb.Base.Counter.{contains, add}
use etoeragcb.Chat.Citations.{
  span_digits, close_marker, any_marker, all_digits, incomplete_marker, is_open_bracket,
  may_become_marker, drain, start, feed, feed_all, flush, finish,
}
use etoeragcb.Chat.Citations.Repair.{
  remove_markers, remove_incomplete, positive_marker, merge_repeats, tighten, squeeze,
  repair_complete_answer, ordered_source_ids,
}
use etoeragcb.Chat.Citations.Stream.{joined, answer_of, stream_any_fragments}
use etoeragcb.Chat.Citations.Nested.{nested_marker_forged}

program : Unit {0}
unfolding span_digits close_marker any_marker all_digits incomplete_marker is_open_bracket
    may_become_marker drain feed feed_all flush finish remove_markers remove_incomplete
    positive_marker merge_repeats tighten squeeze repair_complete_answer ordered_source_ids joined
    is_space text_eq starts_with strip contains add
program = tt

abbrev s1_only : List Text
s1_only = codes "S1" ∷ []

abbrev fragments : List Text
fragments = codes "Yes [S" ∷ codes "1][S1" ∷ codes "] and [S7] no  [S" ∷ []

answered : (finish (feed_all (start s1_only) fragments)).1.text ≡ codes "Yes [S1] and no"
unfolding program
answered = refl

cited : (finish (feed_all (start s1_only) fragments)).1.cited_source_ids ≡ codes "S1" ∷ []
unfolding program
cited = refl

streamed : (flush (feed_all (start s1_only) fragments)).emitted ≡ codes "Yes [S1][S1] and  no  "
unfolding program
streamed = refl

forged_citation :
    (finish (feed (start s1_only) (codes "[S[S7]9]")).0).1.cited_source_ids ≡ codes "S9" ∷ []
unfolding program
forged_citation = refl

stream_any_fragments_example :
    ((flush (feed_all (start s1_only) fragments)).emitted
      ≡ (drain true s1_only zero (joined fragments)).output)
    × ((finish (feed_all (start s1_only) fragments)).1 ≡ answer_of s1_only (joined fragments))
stream_any_fragments_example = stream_any_fragments s1_only fragments

abbrev nested : List Text
nested = codes "[S[S" ∷ codes "7]9]" ∷ []

nested_marker_forged_example :
    ((flush (feed_all (start s1_only) nested)).emitted ≡ codes "[S9]")
    × ((finish (feed_all (start s1_only) nested)).1.text ≡ codes "[S9]")
    × ((finish (feed_all (start s1_only) nested)).1.cited_source_ids ≡ codes "S9" ∷ [])
unfolding program
nested_marker_forged_example =
    nested_marker_forged s1_only nested b'7' b'9' [] [] refl refl refl refl refl
