-- ===== src/Rag/Context/Tests.antt =====
-- Tests of the packer, and its theorem at a concrete input.
use etoeragcb.Base.{ℕ, none, map, length, Bool, ◌≡◌, refl, occurrences, ◌+◌, ◌≤◌}
use etoeragcb.Base.Text.{Text}
use etoeragcb.Base.Result.{Result, ok}
use etoeragcb.Rag.Records.{id_of}
use etoeragcb.Rag.Samples.{shuffled}
use etoeragcb.Rag.Context.{ContextPacker, PackedContext, PackError, pack, evidence_order}
use etoeragcb.Rag.Context.Laws.{IsWithinCaps}
use etoeragcb.Rag.Context.Total.{IsContextOf, skipped_ids, pack_within_limits}

-- A tokenizer that counts every character.
abbrev every_character : Text → Result PackError ℕ
every_character t = ok (length t)

abbrev small : ContextPacker
small = record {
  token_budget = 400;
  max_candidates = 2;
  section_limit = 2;
  source_limit = 1;
  domain_limit = 2;
  web_limit = none;
}

pack_within_limits_example :
    (r : PackedContext) × (pack every_character small shuffled ≡ ok r)
    × IsWithinCaps small (map (λ s. s.evidence) r.sources)
    × IsContextOf every_character (map (λ s. s.evidence) r.sources) r.text r.token_count
    × (r.token_count ≤ small.token_budget)
    × ((q : Text → Bool)
        → occurrences q (map (λ s. id_of s.evidence) r.sources)
            + occurrences q (skipped_ids r.skipped)
          ≡ occurrences q (map id_of (evidence_order shuffled)))
pack_within_limits_example =
    pack_within_limits every_character small shuffled (λ t. (length t, refl))
