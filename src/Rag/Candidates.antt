-- ===== src/Rag/Candidates.antt =====
-- backend/app/rag/candidates.py: the checks of an evidence record, how a retrieved chunk becomes
-- evidence, and the keys by which evidence is sorted.
pub mod Order
use etoeragcb.Base.{
  ℕ, Bool, true, false, not, ◌&&◌, ◌||◌, Option, none, some, List, [], ◌∷◌, ltb, leb, nat_eq,
  if◌then◌else◌, length,
}
use etoeragcb.Base.Text.{Text, codes, uuid_text}
use etoeragcb.Base.Float.{Signed, nonneg}
use etoeragcb.Base.Result.{Result, ok, raise, ◌>>=◌, ◌>>◌, raise_if}
use etoeragcb.Rag.Records.{
  Meta, null, flag, whole, float, text, texts, RetrievalCandidate, SourceType, document, web,
  EvidenceCandidate, RerankedEvidence,
}

-- The checks that can fail when a record is built.
pub data Invalid : Type 0 where
  field web_requires_domain_and_uri pages_together page_order chars_together char_order : Invalid

is_some : {A : Type 0} → Option A → Bool
is_some none = false
is_some (some a) = true

fits : ℕ → ℕ → Text → Bool
fits low high s = leb low (length s) && leb (length s) high

optional_fits : ℕ → Option Text → Bool
optional_fits high none = true
optional_fits high (some s) = leb (length s) high

optional_at_least : ℕ → Option ℕ → Bool
optional_at_least low none = true
optional_at_least low (some n) = leb low n

all_hex : Text → Bool
all_hex [] = true
all_hex (c ∷ s) = ((leb b'0' c && leb c b'9') || (leb b'a' c && leb c b'f')) && all_hex s

-- `^[0-9a-f]{64}$`.
is_sha256 : Text → Bool
unfolding all_hex
is_sha256 s = nat_eq (length s) 64 && all_hex s

-- The `Field` bounds of the class.
unfoldable pub fields_fit : EvidenceCandidate → Bool
unfolding fits optional_fits optional_at_least is_sha256
fields_fit c =
    fits 1 512 c.candidate_id
    && fits 1 2048 c.source_key
    && fits 1 2048 c.section_key
    && optional_fits 253 c.domain
    && fits 1 1024 c.title
    && optional_fits 1024 c.source_filename
    && optional_fits 4096 c.uri
    && optional_at_least 1 c.page_start
    && optional_at_least 1 c.page_end
    && leb 1 (length c.text_original)
    && leb 1 (length c.text_lexical)
    && is_sha256 c.content_sha256
    && is_sha256 c.lexical_sha256
    && leb 1 c.retrieval_rank

is_web : SourceType → Bool
is_web web = true
is_web document = false

same_presence : Option ℕ → Option ℕ → Bool
same_presence none none = true
same_presence (some a) (some b) = true
same_presence a b = false

-- `end < start`, where both are given.
precedes : Option ℕ → Option ℕ → Bool
precedes (some end) (some start) = ltb end start
precedes end start = false

-- `end <= start`, where both are given.
does_not_follow : Option ℕ → Option ℕ → Bool
does_not_follow (some end) (some start) = leb end start
does_not_follow end start = false

unfoldable pub validate_source_fields : EvidenceCandidate → Result Invalid EvidenceCandidate
unfolding is_web is_some same_presence precedes does_not_follow
validate_source_fields c = do
  raise_if (is_web c.source_type && not (is_some c.domain && is_some c.uri))
      web_requires_domain_and_uri
  raise_if (not (same_presence c.page_start c.page_end)) pages_together
  raise_if (precedes c.page_end c.page_start) page_order
  raise_if (not (same_presence c.char_start c.char_end)) chars_together
  raise_if (does_not_follow c.char_end c.char_start) char_order
  ok c

-- `EvidenceCandidate(...)`: the fields are checked, then the validator runs.
unfoldable pub build : EvidenceCandidate → Result Invalid EvidenceCandidate
unfolding validate_source_fields
build c = do raise_if (not (fields_fit c)) field; validate_source_fields c

optional_whole : Option ℕ → Meta
optional_whole none = null
optional_whole (some n) = whole n

optional_float : Option Signed → Meta
optional_float none = null
optional_float (some x) = float x

optional_uuid : Option ℕ → Meta
optional_uuid none = null
optional_uuid (some u) = text (uuid_text u)

retrieval_provenance : RetrievalCandidate → List (Text × Meta)
unfolding optional_whole optional_float optional_uuid
retrieval_provenance c =
    (codes "tenant_id", text (uuid_text c.tenant_id))
    ∷ (codes "document_id", text (uuid_text c.document_id))
    ∷ (codes "document_version_id", text (uuid_text c.document_version_id))
    ∷ (codes "section_id", text (uuid_text c.section_id))
    ∷ (codes "section_path_original", text c.section_path_original)
    ∷ (codes "chunk_index", whole c.chunk_index)
    ∷ (codes "dense_rank", optional_whole c.dense_rank)
    ∷ (codes "dense_score", optional_float c.dense_score)
    ∷ (codes "sparse_rank", optional_whole c.sparse_rank)
    ∷ (codes "sparse_score", optional_float c.sparse_score)
    ∷ (codes "exact_rank", optional_whole c.exact_rank)
    ∷ (codes "hint_rank", optional_whole c.hint_rank)
    ∷ (codes "is_neighbor", flag c.is_neighbor)
    ∷ (codes "neighbor_of", optional_uuid c.neighbor_of)
    ∷ []

unfoldable pub from_retrieval : RetrievalCandidate → Result Invalid EvidenceCandidate
unfolding build retrieval_provenance
from_retrieval c = build (record {
  candidate_id = uuid_text c.chunk_id;
  source_type = document;
  source_key = uuid_text c.document_id;
  section_key = uuid_text c.section_id;
  domain = none;
  title = c.document_title;
  source_filename = some c.source_filename;
  uri = none;
  page_start = some c.page_start;
  page_end = some c.page_end;
  char_start = some c.char_start;
  char_end = some c.char_end;
  text_original = c.text_original;
  text_lexical = c.text_lexical;
  content_sha256 = c.content_sha256;
  lexical_sha256 = c.lexical_sha256;
  retrieval_rank = c.rank;
  retrieval_score = nonneg c.fusion_score;
  matched_exact_terms = c.matched_exact_terms;
  matched_hints = c.matched_hints;
  provenance = retrieval_provenance c;
})

-- The first record that cannot be built raises.
unfoldable pub document_evidence : List RetrievalCandidate → Result Invalid (List EvidenceCandidate)
unfolding from_retrieval
document_evidence [] = ok []
document_evidence (c ∷ cs) = do ok ((← from_retrieval c) ∷ (← document_evidence cs))
