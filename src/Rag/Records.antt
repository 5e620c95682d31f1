-- ===== src/Rag/Records.antt =====
-- The records that the retrieval stages hand on: `RetrievalCandidate` of backend/app/rag/retriever.py,
-- `EvidenceCandidate` and `RerankedEvidence` of backend/app/rag/candidates.py.
-- A UUID is its 128-bit integer; a digest is its text; a score in [0, 1] is a multiple of 2^-1074.
use etoeragcb.Base.{ℕ, Bool, Option, List}
use etoeragcb.Base.Text.{Text}
use etoeragcb.Base.Float.{Signed}

-- What the code stores as a value of a `provenance` dictionary.
pub data Meta : Type 0 where
  null : Meta
  flag : Bool → Meta
  whole : ℕ → Meta
  float : Signed → Meta
  text : Text → Meta
  texts : List Text → Meta

pub record RetrievalCandidate : Type 0 where
  pub chunk_id : ℕ
  pub tenant_id : ℕ
  pub document_id : ℕ
  pub document_version_id : ℕ
  pub section_id : ℕ
  pub document_title : Text
  pub source_filename : Text
  pub section_path_original : Text
  pub page_start : ℕ
  pub page_end : ℕ
  pub char_start : ℕ
  pub char_end : ℕ
  pub chunk_index : ℕ
  pub content_sha256 : Text
  pub lexical_sha256 : Text
  pub token_count : ℕ
  pub text_original : Text
  pub text_lexical : Text
  pub rank : ℕ
  pub fusion_score : ℕ
  pub dense_rank : Option ℕ
  pub dense_score : Option Signed
  pub sparse_rank : Option ℕ
  pub sparse_score : Option Signed
  pub exact_rank : Option ℕ
  pub hint_rank : Option ℕ
  pub matched_exact_terms : List Text
  pub matched_hints : List Text
  pub is_neighbor : Bool
  pub neighbor_of : Option ℕ

pub data SourceType : Type 0 where
  document web : SourceType

pub record EvidenceCandidate : Type 0 where
  pub candidate_id : Text
  pub source_type : SourceType
  pub source_key : Text
  pub section_key : Text
  pub domain : Option Text
  pub title : Text
  pub source_filename : Option Text
  pub uri : Option Text
  pub page_start : Option ℕ
  pub page_end : Option ℕ
  pub char_start : Option ℕ
  pub char_end : Option ℕ
  pub text_original : Text
  pub text_lexical : Text
  pub content_sha256 : Text
  pub lexical_sha256 : Text
  pub retrieval_rank : ℕ
  pub retrieval_score : Signed
  pub matched_exact_terms : List Text
  pub matched_hints : List Text
  pub provenance : List (Text × Meta)

pub record RerankedEvidence : Type 0 where
  pub candidate : EvidenceCandidate
  pub rerank_score : ℕ
  pub rerank_rank : ℕ

abbrev pub id_of : RerankedEvidence → Text
id_of item = item.candidate.candidate_id
