-- ===== src/Rag/Context/Counts.antt =====
-- The counters of the loop of `pack` count the selected evidence.
use etoeragcb.Base.{
  ℕ, Bool, false, ◌≡◌, Option, none, some, List, [], ◌∷◌, ◌++◌, arith, occurrences,
  occurrences-append, ◌==◌, text_keys,
}
use etoeragcb.Base.Text.{Text}
use etoeragcb.Base.Counter.{count_of, bump, count_of-bump}
use etoeragcb.Rag.Records.{RerankedEvidence}
use etoeragcb.Rag.Context.{bump_domain, source_type_text}

-- How many of the items have the key.
abbrev pub with_section : Text → RerankedEvidence → Bool
with_section k item = item.candidate.section_key == k

abbrev pub with_source : Text → RerankedEvidence → Bool
with_source k item = item.candidate.source_key == k

abbrev pub is_domain : Option Text → Text → Bool
is_domain none k = false
is_domain (some d) k = d == k

abbrev pub with_domain : Text → RerankedEvidence → Bool
with_domain k item = is_domain item.candidate.domain k

abbrev pub of_type : Text → RerankedEvidence → Bool
of_type k item = source_type_text item.candidate.source_type == k

-- A counter is right about a test on keys.
abbrev pub Counts :
    (Text → RerankedEvidence → Bool) → List RerankedEvidence → List (Text × ℕ) → Type 0
Counts test selected counts = (k : Text) → count_of k counts ≡ occurrences (test k) selected

pub Counts-bump :
    (key : RerankedEvidence → Text) (selected : List RerankedEvidence) (counts : List (Text × ℕ))
    (item : RerankedEvidence)
    → Counts (λ k e. key e == k) selected counts
    → Counts (λ k e. key e == k) (selected ++ item ∷ []) (bump (key item) counts)
Counts-bump key selected counts item h k = ground (
  arith,
  count_of-bump k (key item) counts,
  h k,
  occurrences-append (λ e. key e == k) selected (item ∷ []),
)

pub Counts-bump_domain :
    (selected : List RerankedEvidence) (counts : List (Text × ℕ)) (item : RerankedEvidence)
    → Counts with_domain selected counts
    → (d : Option Text) → item.candidate.domain ≡ d
    → Counts with_domain (selected ++ item ∷ []) (bump_domain d counts)
unfolding bump_domain
Counts-bump_domain selected counts item h none e k =
    ground (arith, h k, occurrences-append (with_domain k) selected (item ∷ []))
Counts-bump_domain selected counts item h (some d) e k =
    ground (
      arith,
      count_of-bump k d counts,
      h k,
      occurrences-append (with_domain k) selected (item ∷ []),
    )
