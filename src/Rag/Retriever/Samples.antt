-- ===== src/Rag/Retriever/Samples.antt =====
-- A store with three chunks of a section, and a search in it.
use etoeragcb.Base.{ℕ, ◌+◌, ◌/◌, none, [], ◌∷◌, some}
use etoeragcb.Base.Text.{codes}
use etoeragcb.Base.Float.{nonneg}
use etoeragcb.Ingest.Chunker.{BuiltChunk}
use etoeragcb.Ingest.Tables.{Store, Stored, BuiltSection}
use etoeragcb.Ingest.Jobs.Samples.{store}
use etoeragcb.Rag.Retriever.{BranchResults, FusionOps}
use etoeragcb.Rag.Retriever.Selection.{Limits}
use etoeragcb.Rag.Scope.{ResolvedScope}

abbrev pub ops : FusionOps
ops = record {
  add = λ a b. a + b;
  rrf = λ k rank. 1000000 / (k + rank);
  normalize_lexical = λ t. t;
}

abbrev pub chunk_of : ℕ → ℕ → Stored BuiltChunk
chunk_of id index = record {
  tenant_id = 1;
  document_id = 5;
  document_version_id = 50;
  row = record {
    id = id;
    section_id = 70;
    occurrence_index = 0;
    chunk_index = index;
    page_start = 1;
    page_end = 1;
    char_start = 0;
    char_end = 3;
    content_sha256 = [];
    lexical_sha256 = [];
    token_count = 1;
    text_original = codes "one";
    text_lexical = codes "one";
  };
}

abbrev pub section : Stored BuiltSection
section = record {
  tenant_id = 1;
  document_id = 5;
  document_version_id = 50;
  row = record {
    id = 70;
    parent_id = none;
    ordinal = 0;
    level = 1;
    heading_original = codes "A";
    heading_lexical = codes "a";
    page_start = 1;
    page_end = 1;
    path_original = codes "A";
    path_lexical = codes "a";
  };
}

abbrev pub searched : Store
searched = record store {
  sections = section ∷ [];
  chunks = chunk_of 90 0 ∷ chunk_of 91 1 ∷ chunk_of 92 2 ∷ [];
}

abbrev pub limits : Limits
limits = record { pool_limit = 8; section_chunk_limit = 2; neighbor_radius = 1; rrf_k = 60 }

abbrev pub scope : ResolvedScope
scope = record {
  tenant_id = 1;
  generation_id = some 10;
  retrieval_revision = 3;
  document_ids = 5 ∷ [];
  version_ids = 50 ∷ [];
  section_ids = none;
  decisions = [];
  boosts = [];
}

abbrev pub branches : BranchResults
branches = record {
  dense =
      record { chunk_id = 91; score = nonneg 4 } ∷ record { chunk_id = 99; score = nonneg 2 } ∷ [];
  sparse = record { chunk_id = 91; score = nonneg 1 } ∷ [];
}
