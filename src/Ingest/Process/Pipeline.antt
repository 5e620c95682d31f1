-- ===== src/Ingest/Process/Pipeline.antt =====
-- backend/app/ingest/jobs.py: the loop over the batches and `IngestionPipeline.process`.
use etoeragcb.Base.{
  ℕ, Option, none, some, List, [], ◌∷◌, map, length, nat_eq, nat_keys, if◌then◌else◌,
}
use etoeragcb.Base.Text.{codes}
use etoeragcb.Base.Counter.{add_all}
use etoeragcb.Base.Dict.{get}
use etoeragcb.Base.Result.{Result, ok, raise}
use etoeragcb.Ingest.Tables.{Document, DocumentVersion, BuiltSection, IngestionJob}
use etoeragcb.Ingest.Chunker.{BuiltChunk, chunk_blocks}
use etoeragcb.Ingest.Sections.{build_sections}
use etoeragcb.Ingest.Jobs.{JobError, service, start, persist_staged_content, heartbeat}
use etoeragcb.Ingest.Jobs.Finish.{mark_ready, activate, mark_failed}
use etoeragcb.Ingest.Process.{
  IndexPoint, Settings, Clock, Services, World, Run, ◌>>=◌, ◌>>◌, done, call, transact, with_unit,
  as_pair, on_index, batches_of, or_chunking_error, section_by_id, section_or_key_error, first_id,
}

module _ {I V : Type 0} (services : Services I V) where
  unfoldable pub point_of :
      DocumentVersion → ℕ → List ℕ → BuiltSection → BuiltChunk → V → IndexPoint V
  point_of version generation_id collection_ids section chunk dense = record {
    id = chunk.id;
    dense = dense;
    sparse = services.sparse_lexical_vector chunk.text_lexical;
    payload = record {
      tenant_id = version.tenant_id;
      created_generation_id = generation_id;
      document_id = version.document_id;
      document_version_id = version.id;
      collection_ids = collection_ids;
      section_id = section.id;
      section_path_original = section.path_original;
      section_path_lexical = section.path_lexical;
      page_start = chunk.page_start;
      page_end = chunk.page_end;
      char_start = chunk.char_start;
      char_end = chunk.char_end;
      occurrence_index = chunk.occurrence_index;
      content_sha256 = chunk.content_sha256;
      lexical_sha256 = chunk.lexical_sha256;
      text_original = chunk.text_original;
      text_lexical = chunk.text_lexical;
    };
  }

  abbrev pub cons_point :
      IndexPoint V → Result JobError (List (IndexPoint V)) → Result JobError (List (IndexPoint V))
  cons_point p (raise e) = raise e
  cons_point p (ok ps) = ok (p ∷ ps)

  abbrev pub with_section :
      Result JobError BuiltSection
      → (BuiltSection → Result JobError (List (IndexPoint V)))
      → Result JobError (List (IndexPoint V))
  with_section (raise e) f = raise e
  with_section (ok section) f = f section

  -- `zip(batch, embeddings, strict=True)`, of lists that are as long as each other.
  unfoldable pub points_of :
      DocumentVersion
      → ℕ
      → List ℕ
      → List (ℕ × BuiltSection)
      → List BuiltChunk
      → List V
      → Result JobError (List (IndexPoint V))
  unfolding point_of section_or_key_error get
  points_of version generation_id collection_ids sections [] dense = ok []
  points_of version generation_id collection_ids sections (chunk ∷ chunks) [] = ok []
  points_of version generation_id collection_ids sections (chunk ∷ chunks) (d ∷ dense) =
      let rest = points_of version generation_id collection_ids sections chunks dense in
      with_section (section_or_key_error chunk.section_id (get chunk.section_id sections))
        λ section. cons_point (point_of version generation_id collection_ids section chunk d) rest

  unfoldable pub count_checked : ℕ → List V → Result JobError (List V)
  count_checked n embeddings =
      if nat_eq (length embeddings) n
      then ok embeddings
      else raise (service (codes "RuntimeError") (codes "embedding count mismatch"))

  -- A round of the loop over the batches.
  unfoldable pub index_batch :
      Clock
      → ℕ
      → DocumentVersion
      → ℕ
      → List ℕ
      → List (ℕ × BuiltSection)
      → List BuiltChunk
      → Run I (Unit {0})
  unfolding points_of count_checked heartbeat
  index_batch clock job_id version generation_id collection_ids sections batch = do
    answered ← call (services.embed (map (λ c. c.text_original) batch))
    embeddings ← call (count_checked (length batch) answered)
    points ← call (points_of version generation_id collection_ids sections batch embeddings)
    on_index (services.upsert points)
    transact (λ s. ok (heartbeat s clock.beat job_id, tt))

  unfoldable pub index_batches :
      Clock
      → ℕ
      → DocumentVersion
      → ℕ
      → List ℕ
      → List (ℕ × BuiltSection)
      → List (List BuiltChunk)
      → Run I (Unit {0})
  unfolding index_batch
  index_batches clock job_id version generation_id collection_ids sections [] = done tt
  index_batches clock job_id version generation_id collection_ids sections (batch ∷ batches) = do
    index_batch clock job_id version generation_id collection_ids sections batch
    index_batches clock job_id version generation_id collection_ids sections batches

  -- What stands before the activation of a job that was started; gives the generation.
  unfoldable pub prepare_content :
      Settings → Clock → ℕ → IngestionJob → DocumentVersion → Document → Run I ℕ
  unfolding or_chunking_error section_by_id batches_of index_batches first_id add_all build_sections
      chunk_blocks persist_staged_content mark_ready
  prepare_content settings clock new_id job version document = do
    blocks ← call (services.parse_document version document)
    let built = build_sections services.section_calls version.id blocks
    chunks ← call (
        or_chunking_error services.tokenizer_error (
          chunk_blocks (services.chunk_calls version.id) settings.chunk_tokens
            settings.chunk_overlap built.1))
    staged ← transact (λ s. as_pair (
        persist_staged_content s clock.persisted new_id job.id version built.0 chunks
          (length (add_all [] (map (λ b. b.page_number) blocks)))))
    call (services.inject (codes "after_parse"))
    on_index services.prepare
    on_index (services.delete_versions version.tenant_id (version.id ∷ []))
    batches ← call (batches_of settings.batch_size chunks)
    index_batches clock job.id version staged.0 staged.1 (section_by_id built.0 []) batches
    on_index
        (services.validate_version version.tenant_id version.id (length chunks) (first_id chunks))
    transact (λ s. with_unit (mark_ready s clock.validated job.id version.id))
    call (services.inject (codes "before_activation"))
    done staged.0

  -- The body of the `try`, for the job that was started or was not.
  unfoldable pub run_started :
      Settings → Clock → ℕ → Option (IngestionJob × DocumentVersion × Document) → Run I (Unit {0})
  unfolding prepare_content activate
  run_started settings clock new_id none = done tt
  run_started settings clock new_id (some (job, version, document)) = do
    generation_id ← prepare_content settings clock new_id job version document
    transact (λ s. with_unit (activate s clock.activated job.id version.id generation_id))

  unfoldable pub attempt : Settings → Clock → ℕ → ℕ → Run I (Unit {0})
  unfolding run_started start
  attempt settings clock new_id job_id = do
    started ← transact (λ s. start s settings.heartbeat_timeout clock.started job_id)
    run_started settings clock new_id started

  -- `except Exception`: the job is marked and the exception raised again.
  unfoldable pub or_marked :
      Clock → ℕ → World I × Result JobError (Unit {0}) → World I × Result JobError (Unit {0})
  unfolding mark_failed
  or_marked clock job_id (w, ok u) = (w, ok u)
  or_marked clock job_id (w, raise e) =
      (record w { store = mark_failed w.store clock.stopped job_id e }, raise e)

  -- `process`.
  unfoldable pub process : Settings → Clock → ℕ → ℕ → Run I (Unit {0})
  unfolding attempt or_marked
  process settings clock new_id job_id w =
      or_marked clock job_id (attempt settings clock new_id job_id w)
