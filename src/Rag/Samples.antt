-- ===== src/Rag/Samples.antt =====
-- Evidence for the tests of backend/app/rag.
use etoeragcb.Base.{ℕ, ◌-◌, ◌/◌, none, some, List, [], ◌∷◌}
use etoeragcb.Base.Text.{Text, codes}
use etoeragcb.Base.Float.{FloatOps, nonneg}
use etoeragcb.Rag.Records.{EvidenceCandidate, RerankedEvidence, document}

-- An arithmetic on whole numbers that can stand for the rounded one.
abbrev pub exact_ops : FloatOps
exact_ops = record { sub = λ a b. a - b; div = λ i j. i / j }

abbrev pub chunk : Text → Text → Text → List Text → EvidenceCandidate
chunk id content body terms = record {
  candidate_id = id;
  source_type = document;
  source_key = codes "doc";
  section_key = codes "sec";
  domain = none;
  title = codes "Title";
  source_filename = none;
  uri = none;
  page_start = some 1;
  page_end = some 1;
  char_start = none;
  char_end = none;
  text_original = body;
  text_lexical = body;
  content_sha256 = content;
  lexical_sha256 = content;
  retrieval_rank = 1;
  retrieval_score = nonneg 0;
  matched_exact_terms = terms;
  matched_hints = [];
  provenance = [];
}

abbrev pub scored : EvidenceCandidate → ℕ → ℕ → RerankedEvidence
scored c score rank = record { candidate = c; rerank_score = score; rerank_rank = rank }

abbrev pub first : RerankedEvidence
first = scored (chunk (codes "a") (codes "h1") (codes "alpha beta gamma") []) 900 1

abbrev pub copy : RerankedEvidence
copy = scored (chunk (codes "b") (codes "h1") (codes "alpha beta gamma") (codes "X-1" ∷ [])) 700 2

abbrev pub other : RerankedEvidence
other = scored (chunk (codes "c") (codes "h2") (codes "one two three") (codes "Y-2" ∷ [])) 500 3

-- In no order: the third is ranked first.
abbrev pub shuffled : List RerankedEvidence
shuffled = other ∷ copy ∷ first ∷ []
