-- ===== src/Ingest/Process.antt =====
-- backend/app/ingest/jobs.py: `IngestionPipeline.process`. The parser, the tokenizer, the embedder, the
-- index, the sparse vectors and the failure injector are parameters. The state is the database and the
-- index; a transaction is written where it returns. The heartbeat task beside it is left out.
pub mod Pipeline
pub mod Laws
pub mod Failure
pub mod Batches
mod Tests
use etoeragcb.Base.{
  ℕ, zero, suc, Bool, true, false, not, Option, none, some, List, [], ◌∷◌, ◌++◌, map, length, take,
  drop, nat_eq, nat_keys, if◌then◌else◌,
}
use etoeragcb.Base.Text.{Text, codes, uuid_text}
use etoeragcb.Base.Counter.{add_all}
use etoeragcb.Base.Dict.{get, set}
use etoeragcb.Base.Result.{Result, ok, raise}
use etoeragcb.Ingest.Tables.{Document, DocumentVersion, BuiltSection, IngestionJob, Store}
use etoeragcb.Ingest.Chunker.{
  BuiltChunk, ChunkingError, overlap_too_large, no_offsets, no_chunks, tokenizer_failed, Calls,
  chunk_blocks,
}
use etoeragcb.Ingest.Sections.{ParsedBlock, SectionCalls, build_sections}
use etoeragcb.Ingest.Jobs.{JobError, service, start, persist_staged_content, heartbeat}
use etoeragcb.Ingest.Jobs.Finish.{mark_ready, activate, mark_failed}

pub record SparseVector : Type 0 where
  pub indices : List ℕ
  pub values : List ℕ

pub record IndexPayload : Type 0 where
  pub tenant_id : ℕ
  pub created_generation_id : ℕ
  pub document_id : ℕ
  pub document_version_id : ℕ
  pub collection_ids : List ℕ
  pub section_id : ℕ
  pub section_path_original : Text
  pub section_path_lexical : Text
  pub page_start : ℕ
  pub page_end : ℕ
  pub char_start : ℕ
  pub char_end : ℕ
  pub occurrence_index : ℕ
  pub content_sha256 : Text
  pub lexical_sha256 : Text
  pub text_original : Text
  pub text_lexical : Text

pub record IndexPoint (V : Type 0) : Type 0 where
  pub id : ℕ
  pub dense : V
  pub sparse : SparseVector
  pub payload : IndexPayload

-- The arguments of `__init__` that are numbers, and the clock at each transaction.
pub record Settings : Type 0 where
  pub chunk_tokens : ℕ
  pub chunk_overlap : ℕ
  pub batch_size : ℕ
  pub heartbeat_timeout : ℕ

pub record Clock : Type 0 where
  pub started : ℕ
  pub persisted : ℕ
  pub beat : ℕ
  pub validated : ℕ
  pub activated : ℕ
  pub stopped : ℕ

-- The services of `__init__`, with dense vectors in `V` and an index in `I`.
pub record Services (I V : Type 0) : Type 0 where
  pub parse_document : DocumentVersion → Document → Result JobError (List ParsedBlock)
  pub section_calls : SectionCalls
  pub chunk_calls : ℕ → Calls
  pub tokenizer_error : JobError
  pub embed : List Text → Result JobError (List V)
  pub sparse_lexical_vector : Text → SparseVector
  pub inject : Text → Result JobError (Unit {0})
  pub prepare : I → I × Result JobError (Unit {0})
  pub delete_versions : ℕ → List ℕ → I → I × Result JobError (Unit {0})
  pub upsert : List (IndexPoint V) → I → I × Result JobError (Unit {0})
  pub validate_version : ℕ → ℕ → ℕ → ℕ → I → I × Result JobError (Unit {0})

pub record World (I : Type 0) : Type 0 where
  pub store : Store
  pub index : I

abbrev pub Run : Type 0 → Type 0 → Type 0
Run I A = World I → World I × Result JobError A

abbrev pub continue_with :
    {I A B : Type 0} → World I × Result JobError A → (A → Run I B) → World I × Result JobError B
continue_with (w, raise e) f = (w, raise e)
continue_with (w, ok a) f = f a w

infixl 5 ◌>>=◌ ◌>>◌
unfoldable pub ◌>>=◌ : {I A B : Type 0} → Run I A → (A → Run I B) → Run I B
◌>>=◌ m f w = continue_with (m w) f

unfoldable pub ◌>>◌ : {I B : Type 0} → Run I (Unit {0}) → Run I B → Run I B
◌>>◌ m n w = continue_with (m w) (λ u. n)

unfoldable pub done : {I A : Type 0} → A → Run I A
done a w = (w, ok a)

-- A call that changes nothing.
unfoldable pub call : {I A : Type 0} → Result JobError A → Run I A
call r w = (w, r)

abbrev pub commit :
    {I A : Type 0} → World I → Result JobError (Store × A) → World I × Result JobError A
commit w (raise e) = (w, raise e)
commit w (ok (s, a)) = (record w { store = s }, ok a)

-- A transaction: `async with self._factory() as session`.
unfoldable pub transact : {I A : Type 0} → (Store → Result JobError (Store × A)) → Run I A
transact f w = commit w (f w.store)

abbrev pub with_unit : Result JobError Store → Result JobError (Store × Unit {0})
with_unit (raise e) = raise e
with_unit (ok s) = ok (s, tt)

abbrev pub as_pair : Result JobError (Store × ℕ × List ℕ) → Result JobError (Store × (ℕ × List ℕ))
as_pair (raise e) = raise e
as_pair (ok (s, generation_id, collection_ids)) = ok (s, (generation_id, collection_ids))

-- A call of the index.
unfoldable pub on_index : {I A : Type 0} → (I → I × Result JobError A) → Run I A
on_index f w = (record w { index = (f w.index).0 }, (f w.index).1)

-- `for start in range(0, len(xs), size)`: the slices `xs[start : start + size]`. A round takes a chunk at
-- least, so the number of chunks is fuel enough.
unfoldable pub slices {ℓ} : {A : Type ℓ} → ℕ → ℕ → List A → List (List A)
slices zero size xs = []
slices (suc fuel) size [] = []
slices (suc fuel) size (x ∷ xs) = take size (x ∷ xs) ∷ slices fuel size (drop size (x ∷ xs))

-- `range` refuses a step of 0.
unfoldable pub batches_of : {A : Type 0} → ℕ → List A → Result JobError (List (List A))
unfolding slices
batches_of size xs =
    if nat_eq size 0
    then raise (service (codes "ValueError") (codes "range() arg 3 must not be zero"))
    else ok (slices (length xs) size xs)

unfoldable pub chunking_error : JobError → ChunkingError → JobError
chunking_error e overlap_too_large =
    service (codes "ChunkingError") (codes "overlap must be smaller than the chunk size")
chunking_error e no_offsets =
    service (codes "ChunkingError") (codes "serving tokenizer returned no source token offsets")
chunking_error e no_chunks = service (codes "ChunkingError") (codes "document produced no chunks")
chunking_error e tokenizer_failed = e

unfoldable pub or_chunking_error :
    {A : Type 0} → JobError → Result ChunkingError A → Result JobError A
unfolding chunking_error
or_chunking_error e (ok a) = ok a
or_chunking_error e (raise c) = raise (chunking_error e c)

-- `section_by_id`.
unfoldable pub section_by_id : List BuiltSection → List (ℕ × BuiltSection) → List (ℕ × BuiltSection)
unfolding set
section_by_id [] d = d
section_by_id (section ∷ sections) d = section_by_id sections (set section.id section d)

-- `section_by_id[chunk.section_id]`, whose `KeyError` names the identifier.
unfoldable pub section_or_key_error : ℕ → Option BuiltSection → Result JobError BuiltSection
unfolding uuid_text
section_or_key_error id none =
    raise (service (codes "KeyError") (codes "UUID('" ++ (uuid_text id ++ codes "')")))
section_or_key_error id (some section) = ok section

-- `built_chunks[0].id`, of chunks that `chunk_blocks` gives, so there is one.
unfoldable pub first_id : List BuiltChunk → ℕ
first_id [] = 0
first_id (c ∷ cs) = c.id
