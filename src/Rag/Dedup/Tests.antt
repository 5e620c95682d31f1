-- ===== src/Rag/Dedup/Tests.antt =====
-- Tests of `deduplicate`, and its theorems at a concrete input.
use etoeragcb.Base.{◌+◌, Bool, true, ◌≡◌, refl, [], ◌∷◌, map, arith, All, Any, occurrences}
use etoeragcb.Base.Text.{Text, codes, text_keys, text_eq, split, text_leb}
use etoeragcb.Base.Float.{one, eight_tenths, eighty_five_hundredths}
use etoeragcb.Base.Counter.{contains, add_all, difference, intersection}
use etoeragcb.Base.Dict.{get, set}
use etoeragcb.Base.Result.{ok}
use etoeragcb.Base.Sort.{IsSorted, sort_by}
use etoeragcb.Rag.Records.{id_of}
use etoeragcb.Rag.Samples.{exact_ops, shuffled}
use etoeragcb.Rag.Candidates.Order.{stable_reranked_key, key_leb, ranked}
use etoeragcb.Rag.Dedup.{
  DeduplicationResult, duplicate_reason, span_overlap, merge_exact_provenance, absorb, settle,
  collapse, deduplicate, nothing_kept,
}
use etoeragcb.Rag.Dedup.Shingles.{shingle_similarity}
use etoeragcb.Rag.Dedup.Absorb.{HasTerm}
use etoeragcb.Rag.Dedup.Laws.{AllApart, digests, keys, dropped_ids}
use etoeragcb.Rag.Dedup.Correct.{
  deduplicate_partition, deduplicate_keeps_terms, deduplicate_distinct,
}

program : Unit {0}
unfolding text_eq text_leb split contains add_all difference intersection get set sort_by
    stable_reranked_key key_leb ranked duplicate_reason span_overlap merge_exact_provenance absorb
    settle collapse shingle_similarity
program = tt

copy_collapsed :
    map id_of (collapse exact_ops 3 3 (ranked shuffled) nothing_kept).candidates
    ≡ codes "a" ∷ codes "c" ∷ []
unfolding program
copy_collapsed = refl

copy_dropped :
    dropped_ids (collapse exact_ops 3 3 (ranked shuffled) nothing_kept).decisions ≡ codes "b" ∷ []
unfolding program
copy_dropped = refl

deduplicate_partition_example :
    (r : DeduplicationResult) × (deduplicate exact_ops eight_tenths eighty_five_hundredths shuffled
      ≡ ok r)
    × ((p : Text → Bool)
        → occurrences p (map id_of r.candidates) + occurrences p (dropped_ids r.decisions)
          ≡ occurrences p (map id_of shuffled))
    × All (λ d. contains d.kept_candidate_id (map id_of r.candidates) ≡ true) r.decisions
unfolding one eight_tenths eighty_five_hundredths
deduplicate_partition_example =
    deduplicate_partition exact_ops eight_tenths eighty_five_hundredths shuffled (omega arith)
      (omega arith)

deduplicate_keeps_terms_example :
    (r : DeduplicationResult) × (deduplicate exact_ops eight_tenths eighty_five_hundredths shuffled
      ≡ ok r)
    × ((t : Text) → Any (HasTerm t) shuffled → Any (HasTerm t) r.candidates)
unfolding one eight_tenths eighty_five_hundredths
deduplicate_keeps_terms_example =
    deduplicate_keeps_terms exact_ops eight_tenths eighty_five_hundredths shuffled (omega arith)
      (omega arith)

deduplicate_distinct_example :
    (r : DeduplicationResult) × (deduplicate exact_ops eight_tenths eighty_five_hundredths shuffled
      ≡ ok r)
    × AllApart (digests r.candidates)
    × IsSorted key_leb (keys r.candidates)
unfolding one eight_tenths eighty_five_hundredths
deduplicate_distinct_example =
    deduplicate_distinct exact_ops eight_tenths eighty_five_hundredths shuffled (omega arith)
      (omega arith)
