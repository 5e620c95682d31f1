-- ===== src/Rag/Context.antt =====
-- backend/app/rag/context.py: the evidence for a prompt is ordered, capped and packed into a token
-- budget. The serving tokenizer is a parameter: `count text` is its answer, or its failure.
mod Order
mod Format
pub mod Counts
pub mod Laws
pub mod Total
mod Tests
unfoldable pub use Order.*
unfoldable pub use Format.*
use etoeragcb.Base.{
  ℕ, suc, Bool, true, false, not, ◌&&◌, ◌||◌, Option, none, some, List, [], ◌∷◌, ◌++◌, ltb, leb,
  if◌then◌else◌, length, ◌==◌, text_keys,
}
use etoeragcb.Base.Text.{Text, codes, decimal}
use etoeragcb.Base.Counter.{count_of, bump}
use etoeragcb.Base.Result.{Result, ok, raise, ◌>>=◌, ◌>>◌, raise_if}
use etoeragcb.Rag.Records.{RerankedEvidence, SourceType, document, web, id_of}

pub data SkipReason : Type 0 where
  section_cap source_cap domain_cap source_type_cap candidate_cap token_budget : SkipReason

pub record ContextSkip : Type 0 where
  pub candidate_id : Text
  pub reason : SkipReason

pub record PackedSource : Type 0 where
  pub source_id : Text
  pub evidence : RerankedEvidence

pub record PackedContext : Type 0 where
  pub text : Text
  pub token_count : ℕ
  pub token_budget : ℕ
  pub sources : List PackedSource
  pub skipped : List ContextSkip

pub data PackError : Type 0 where
  limits_not_positive web_limit_range tokenizer_failed : PackError

pub record ContextPacker : Type 0 where
  pub token_budget : ℕ
  pub max_candidates : ℕ
  pub section_limit : ℕ
  pub source_limit : ℕ
  pub domain_limit : ℕ
  pub web_limit : Option ℕ

any_below_one : List ℕ → Bool
any_below_one [] = false
any_below_one (n ∷ ns) = ltb n 1 || any_below_one ns

web_limit_wrong : Option ℕ → ℕ → Bool
web_limit_wrong none max_candidates = false
web_limit_wrong (some n) max_candidates = ltb n 1 || ltb max_candidates n

-- `__init__`: the limits are checked.
unfoldable pub init : ContextPacker → Result PackError ContextPacker
unfolding any_below_one web_limit_wrong
init p = do
  raise_if
      (any_below_one (
        p.token_budget ∷ p.max_candidates ∷ p.section_limit ∷ p.source_limit ∷ p.domain_limit ∷ []))
      limits_not_positive
  raise_if (web_limit_wrong p.web_limit p.max_candidates) web_limit_range
  ok p

-- The variables of the loop of `pack`.
pub record PackState : Type 0 where
  pub selected : List RerankedEvidence
  pub skipped : List ContextSkip
  pub section_counts : List (Text × ℕ)
  pub source_counts : List (Text × ℕ)
  pub domain_counts : List (Text × ℕ)
  pub source_type_counts : List (Text × ℕ)
  pub context : Text
  pub token_count : ℕ

abbrev pub empty_pack : PackState
empty_pack = record {
  selected = [];
  skipped = [];
  section_counts = [];
  source_counts = [];
  domain_counts = [];
  source_type_counts = [];
  context = [];
  token_count = 0;
}

-- `domain is not None and domain_counts[domain] >= domain_limit`.
unfoldable pub domain_full : Option Text → List (Text × ℕ) → ℕ → Bool
domain_full none counts limit = false
domain_full (some d) counts limit = leb limit (count_of d counts)

-- `source_type == "web"` and a web limit that is reached.
unfoldable pub web_full : SourceType → Option ℕ → List (Text × ℕ) → Bool
web_full document limit counts = false
web_full web none counts = false
web_full web (some limit) counts = leb limit (count_of (codes "web") counts)

unfoldable pub bump_domain : Option Text → List (Text × ℕ) → List (Text × ℕ)
bump_domain none counts = counts
bump_domain (some d) counts = bump d counts

-- The cap that keeps a candidate out, by the first test that holds.
unfoldable pub cap_of : ContextPacker → PackState → RerankedEvidence → Option SkipReason
unfolding domain_full web_full
cap_of p s item =
    let c = item.candidate in
    if leb p.max_candidates (length s.selected)
    then some candidate_cap
    else if leb p.section_limit (count_of c.section_key s.section_counts)
    then some section_cap
    else if leb p.source_limit (count_of c.source_key s.source_counts)
    then some source_cap
    else if domain_full c.domain s.domain_counts p.domain_limit
    then some domain_cap
    else if web_full c.source_type p.web_limit s.source_type_counts
    then some source_type_cap
    else none

abbrev pub skip : PackState → RerankedEvidence → SkipReason → PackState
skip s item reason = record s {
  skipped = s.skipped ++ record { candidate_id = id_of item; reason = reason } ∷ [];
}

-- A candidate that fits: it is selected, and the counts, the context and its size follow.
unfoldable pub select : PackState → RerankedEvidence → Text → ℕ → PackState
unfolding bump_domain source_type_text
select s item tentative tentative_count =
    let c = item.candidate in
    record {
      selected = s.selected ++ item ∷ [];
      skipped = s.skipped;
      section_counts = bump c.section_key s.section_counts;
      source_counts = bump c.source_key s.source_counts;
      domain_counts = bump_domain c.domain s.domain_counts;
      source_type_counts = bump (source_type_text c.source_type) s.source_type_counts;
      context = tentative;
      token_count = tentative_count;
    }

-- `enumerate(selected, start=1)`, as sources S1, S2 and so on.
unfoldable pub number_from : ℕ → List RerankedEvidence → List PackedSource
number_from index [] = []
number_from index (item ∷ rest) =
    record { source_id = codes "S" ++ decimal index; evidence = item }
    ∷ number_from (suc index) rest

module _ (count : Text → Result PackError ℕ) (p : ContextPacker) where
  -- `if tentative_count > self._token_budget`.
  unfoldable pub settle_weight : PackState → RerankedEvidence → Text → ℕ → PackState
  settle_weight s item tentative tentative_count =
      if ltb p.token_budget tentative_count
      then skip s item token_budget
      else select s item tentative tentative_count

  -- The end of a round, when no cap holds: the tentative context is counted.
  unfoldable pub weigh : PackState → RerankedEvidence → Result PackError PackState
  unfolding settle_weight
  weigh s item = do
    let tentative = format_context (s.selected ++ item ∷ [])
    tentative_count ← count tentative
    ok (settle_weight s item tentative tentative_count)

  unfoldable pub pack_step : PackState → RerankedEvidence → Result PackError PackState
  pack_step s item = elim (cap_of p s item) [
    | some reason ↦ ok (skip s item reason)
    | none ↦ weigh s item
  ]

  unfoldable pub pack_loop : List RerankedEvidence → PackState → Result PackError PackState
  pack_loop [] s = ok s
  pack_loop (item ∷ rest) s = pack_step s item >>= pack_loop rest

  unfoldable pub pack : List RerankedEvidence → Result PackError PackedContext
  pack candidates = do
    s ← pack_loop (evidence_order candidates) empty_pack
    ok (record {
      text = s.context;
      token_count = s.token_count;
      token_budget = p.token_budget;
      sources = number_from 1 s.selected;
      skipped = s.skipped;
    })
