-- ===== src/Rag/Retriever/Hydration.antt =====
-- backend/app/rag/retriever.py: the chunks of the database that were found, their ranking, and the
-- neighbours of those that were chosen. A join is on primary keys: it takes the row that matches.
use etoeragcb.Base.{
  ℕ, zero, suc, Bool, true, false, ◌&&◌, ◌||◌, Option, none, some, List, [], ◌∷◌, map, length,
  nat_eq, nat_keys, if◌then◌else◌,
}
use etoeragcb.Base.Text.{Text}
use etoeragcb.Base.Sort.{sort_by}
use etoeragcb.Base.Dict.{get, set}
use etoeragcb.Base.Counter.{contains}
use etoeragcb.Base.Table.{select_where, first_row}
use etoeragcb.Ingest.Chunker.{BuiltChunk}
use etoeragcb.Ingest.Tables.{Stored, BuiltSection, Document, Store, is_null}
use etoeragcb.Rag.Records.{RetrievalCandidate}
use etoeragcb.Rag.Retriever.{
  Evidence, HydratedChunk, FusionOps, Match, evidence_of, scored_before, terms_in, first_position,
  hints_on, matched_before, normalized_terms, rank_exact, rank_hints,
}
use etoeragcb.Rag.Scope.{HintBoost}

unfoldable pub section_of : Stored BuiltChunk → Store → Option (Stored BuiltSection)
section_of c s = first_row (
    select_where
      (λ r.
        nat_eq r.row.id c.row.section_id
        && (nat_eq r.tenant_id c.tenant_id && nat_eq r.document_version_id c.document_version_id))
      s.sections)

unfoldable pub is_document_of : Stored BuiltChunk → Document → Bool
is_document_of c d =
    (nat_eq d.id c.document_id && nat_eq d.tenant_id c.tenant_id) && is_null d.deleted_at

unfoldable pub document_of : Stored BuiltChunk → Store → Option Document
unfolding is_document_of
document_of c s = first_row (select_where (is_document_of c) s.documents)

unfoldable pub with_both :
    Stored BuiltChunk
    → Option (Stored BuiltSection)
    → Option Document
    → List HydratedChunk
    → List HydratedChunk
with_both c (some section) (some document) rest =
    record { chunk = c; section = section; document = document } ∷ rest
with_both c section document rest = rest

-- `select(Chunk, Section, Document).join(...).join(...).where(...)`.
unfoldable pub joined :
    (Stored BuiltChunk → Bool) → Store → List (Stored BuiltChunk) → List HydratedChunk
unfolding section_of document_of with_both
joined keep s [] = []
joined keep s (c ∷ cs) =
    let rest = joined keep s cs in
    if keep c then with_both c (section_of c s) (document_of c s) rest else rest

-- The chunks of the tenant in the versions of the scope.
unfoldable pub is_in_scope : ℕ → List ℕ → Stored BuiltChunk → Bool
is_in_scope tenant_id version_ids c =
    nat_eq c.tenant_id tenant_id && contains c.document_version_id version_ids

unfoldable pub by_chunk_id :
    List HydratedChunk → List (ℕ × HydratedChunk) → List (ℕ × HydratedChunk)
by_chunk_id [] hydrated = hydrated
by_chunk_id (r ∷ rs) hydrated = by_chunk_id rs (set r.chunk.row.id r hydrated)

abbrev pub is_empty : List ℕ → Bool
is_empty [] = true
is_empty (x ∷ xs) = false

-- `_hydrate_chunks`.
unfoldable pub hydrate_chunks : Store → ℕ → List ℕ → List ℕ → List (ℕ × HydratedChunk)
unfolding joined is_in_scope by_chunk_id
hydrate_chunks s tenant_id version_ids chunk_ids =
    if is_empty chunk_ids || is_empty version_ids
    then []
    else by_chunk_id
        (joined (λ c. contains c.row.id chunk_ids && is_in_scope tenant_id version_ids c) s
          s.chunks)
        []

-- `_candidate_from_record`.
unfoldable pub candidate_from_record :
    HydratedChunk → Evidence → ℕ → Bool → Option ℕ → RetrievalCandidate
candidate_from_record r evidence rank is_neighbor neighbor_of = record {
  chunk_id = r.chunk.row.id;
  tenant_id = r.chunk.tenant_id;
  document_id = r.chunk.document_id;
  document_version_id = r.chunk.document_version_id;
  section_id = r.section.row.id;
  document_title = r.document.title;
  source_filename = r.document.source_filename;
  section_path_original = r.section.row.path_original;
  page_start = r.chunk.row.page_start;
  page_end = r.chunk.row.page_end;
  char_start = r.chunk.row.char_start;
  char_end = r.chunk.row.char_end;
  chunk_index = r.chunk.row.chunk_index;
  content_sha256 = r.chunk.row.content_sha256;
  lexical_sha256 = r.chunk.row.lexical_sha256;
  token_count = r.chunk.row.token_count;
  text_original = r.chunk.row.text_original;
  text_lexical = r.chunk.row.text_lexical;
  rank = rank;
  fusion_score = evidence.fusion_score;
  dense_rank = evidence.dense_rank;
  dense_score = evidence.dense_score;
  sparse_rank = evidence.sparse_rank;
  sparse_score = evidence.sparse_score;
  exact_rank = evidence.exact_rank;
  hint_rank = evidence.hint_rank;
  matched_exact_terms = evidence.matched_exact_terms;
  matched_hints = evidence.matched_hints;
  is_neighbor = is_neighbor;
  neighbor_of = neighbor_of;
}

-- What the loop over `base_order` notes of a chunk, finds of terms and finds of hints.
unfoldable pub note :
    List (Text × Text)
    → List HintBoost
    → List (ℕ × HydratedChunk)
    → List ℕ
    → List (ℕ × Evidence)
    → List (ℕ × Evidence)
unfolding terms_in hints_on
note terms boosts hydrated [] evidence = evidence
note terms boosts hydrated (id ∷ ids) evidence =
    let rest = note terms boosts hydrated ids in
    elim (get id hydrated) [
      | none ↦ rest evidence
      | some r ↦ rest (
          set id
            (record (evidence_of id evidence) {
              matched_exact_terms = terms_in terms r.chunk.row.text_lexical;
              matched_hints = hints_on boosts r.chunk;
            })
            evidence)
    ]

abbrev count_if : ℕ → ℕ → Option ℕ → List Match → List Match
count_if id zero position rest = rest
count_if id (suc n) none rest = record { chunk_id = id; count = suc n; position = 0 } ∷ rest
count_if id (suc n) (some at) rest = record { chunk_id = id; count = suc n; position = at } ∷ rest

unfoldable pub exact_matches : List (Text × Text) → List (ℕ × HydratedChunk) → List ℕ → List Match
unfolding terms_in first_position
exact_matches terms hydrated [] = []
exact_matches terms hydrated (id ∷ ids) =
    let rest = exact_matches terms hydrated ids in
    elim (get id hydrated) [
      | none ↦ rest
      | some r ↦
          let text = r.chunk.row.text_lexical in
          count_if id (length (terms_in terms text)) (first_position terms text) rest
    ]

unfoldable pub hint_matches : List HintBoost → List (ℕ × HydratedChunk) → List ℕ → List Match
unfolding hints_on
hint_matches boosts hydrated [] = []
hint_matches boosts hydrated (id ∷ ids) =
    let rest = hint_matches boosts hydrated ids in
    elim (get id hydrated) [
      | none ↦ rest
      | some r ↦ count_if id (length (hints_on boosts r.chunk)) none rest
    ]

unfoldable pub candidate_or_none :
    Option HydratedChunk → Evidence → ℕ → List RetrievalCandidate → List RetrievalCandidate
unfolding candidate_from_record
candidate_or_none none evidence rank rest = rest
candidate_or_none (some r) evidence rank rest =
    candidate_from_record r evidence rank false none ∷ rest

unfoldable pub candidates_from :
    ℕ → List (ℕ × HydratedChunk) → List (ℕ × Evidence) → List ℕ → List RetrievalCandidate
unfolding candidate_or_none
candidates_from rank hydrated evidence [] = []
candidates_from rank hydrated evidence (id ∷ ids) =
    candidate_or_none (get id hydrated) (evidence_of id evidence) rank
      (candidates_from (suc rank) hydrated evidence ids)

abbrev pub keys_of : {V : Type 0} → List (ℕ × V) → List ℕ
keys_of d = map (λ p. p.0) d

-- The evidence after the matches have been ranked.
unfoldable pub boosted_evidence :
    FusionOps
    → List (ℕ × Evidence)
    → List (ℕ × HydratedChunk)
    → List Text
    → List HintBoost
    → ℕ
    → List (ℕ × Evidence)
unfolding note exact_matches hint_matches normalized_terms rank_exact rank_hints matched_before
    scored_before
boosted_evidence ops evidence hydrated exact_terms boosts k =
    let terms = normalized_terms ops exact_terms in
    let base_order = sort_by (scored_before evidence) (keys_of hydrated) in
    rank_hints ops k 1
      (sort_by (matched_before base_order) (hint_matches boosts hydrated base_order))
      (rank_exact ops k 1
        (sort_by (matched_before base_order) (exact_matches terms hydrated base_order))
        (note terms boosts hydrated base_order evidence))

-- `_rank_hydrated`.
unfoldable pub rank_hydrated :
    FusionOps
    → List (ℕ × Evidence)
    → List (ℕ × HydratedChunk)
    → List Text
    → List HintBoost
    → ℕ
    → List RetrievalCandidate
unfolding candidates_from boosted_evidence
rank_hydrated ops evidence hydrated exact_terms boosts k =
    let after = boosted_evidence ops evidence hydrated exact_terms boosts k in
    candidates_from 1 hydrated after (sort_by (scored_before after) (keys_of hydrated))
