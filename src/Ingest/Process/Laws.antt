-- ===== src/Ingest/Process/Laws.antt =====
-- What a run of `process` that fails has changed.
use etoeragcb.Base.{ℕ, ◌≡◌, refl, ◌∙◌, Option, List, arith, ◌∷◌, [], ◌∷◌}
use etoeragcb.Base.Result.{Result, ok, raise}
use etoeragcb.Ingest.Tables.{Document, DocumentVersion, BuiltSection, IngestionJob, Store}
use etoeragcb.Ingest.Chunker.{BuiltChunk}
use etoeragcb.Ingest.Jobs.{
  JobError, need, begin, start, stage, persist_staged_content, heartbeat, start_after,
}
use etoeragcb.Ingest.Jobs.Finish.{mark_ready, mark_failed}
use etoeragcb.Ingest.Process.{
  World, Run, continue_with, ◌>>=◌, commit, with_unit, as_pair, Services, Clock, Settings, call,
  done, on_index, transact, ◌>>◌,
}
use etoeragcb.Ingest.Process.Pipeline.{index_batch, index_batches, prepare_content}

-- The tenants, with their active generations, and the documents, with their active versions, are as
-- they were.
abbrev pub IsKept : Store → Store → Type 0
IsKept s s' = (s'.tenants ≡ s.tenants) × (s'.documents ≡ s.documents)

-- A run does so wherever it starts.
pub record KeepsAlways {I A : Type 0} (m : Run I A) : Type 0 where
  pub kept : (w : World I) → IsKept w.store (m w).0.store

continue_with-IsKept :
    {I A B : Type 0} (s : Store) (p : World I × Result JobError A) (f : A → Run I B)
    → IsKept s p.0.store
    → ((a : A) → KeepsAlways (f a))
    → IsKept s (continue_with p f).0.store
continue_with-IsKept s (w, raise e) f h k = h
continue_with-IsKept s (w, ok a) f h k =
    let (tenants, documents) = (k a).kept w in (tenants ∙ h.0, documents ∙ h.1)

bind-KeepsAlways :
    {I A B : Type 0} {m : Run I A} {f : A → Run I B}
    → KeepsAlways m
    → ((a : A) → KeepsAlways (f a))
    → KeepsAlways (m >>= f)
unfolding ◌>>=◌
bind-KeepsAlways {m = m} {f = f} h k = record {
  kept = λ w. continue_with-IsKept w.store (m w) f (h.kept w) k;
}

then-KeepsAlways :
    {I B : Type 0} {m : Run I (Unit {0})} {n : Run I B}
    → KeepsAlways m
    → KeepsAlways n
    → KeepsAlways (m >> n)
unfolding ◌>>◌
then-KeepsAlways {m = m} {n = n} h k = record {
  kept = λ w. continue_with-IsKept w.store (m w) (λ u. n) (h.kept w) (λ u. k);
}

call-KeepsAlways : {I A : Type 0} (r : Result JobError A) → KeepsAlways {I = I} (call r)
unfolding call
call-KeepsAlways r = record { kept = λ w. (refl, refl) }

done-KeepsAlways : {I A : Type 0} (a : A) → KeepsAlways {I = I} (done a)
unfolding done
done-KeepsAlways a = record { kept = λ w. (refl, refl) }

on_index-KeepsAlways : {I A : Type 0} (f : I → I × Result JobError A) → KeepsAlways (on_index f)
unfolding on_index
on_index-KeepsAlways f = record { kept = λ w. (refl, refl) }

commit-IsKept :
    {I A : Type 0} (w : World I) (r : Result JobError (Store × A))
    → ((s : Store) (a : A) → r ≡ ok (s, a) → IsKept w.store s)
    → IsKept w.store (commit w r).0.store
commit-IsKept w (raise e) h = (refl, refl)
commit-IsKept w (ok (s, a)) h = h s a refl

pub transact-KeepsAlways :
    {I A : Type 0} (f : Store → Result JobError (Store × A))
    → ((s s' : Store) (a : A) → f s ≡ ok (s', a) → IsKept s s')
    → KeepsAlways {I = I} (transact f)
unfolding transact
transact-KeepsAlways f h = record { kept = λ w. commit-IsKept w (f w.store) (h w.store) }

pub start_kept :
    (s s' : Store) (timeout now job_id : ℕ) (o : Option (IngestionJob × DocumentVersion × Document))
    → start s timeout now job_id ≡ ok (s', o)
    → IsKept s s'
unfolding start start_after need begin
start_kept s s' timeout now job_id o h = ground (arith, h)

persist_kept :
    (s s' : Store) (now new_id job_id page_count : ℕ) (version : DocumentVersion)
    (sections : List BuiltSection) (chunks : List BuiltChunk) (r : ℕ × List ℕ)
    → as_pair (persist_staged_content s now new_id job_id version sections chunks page_count)
      ≡ ok (s', r)
    → IsKept s s'
unfolding persist_staged_content need stage
persist_kept s s' now new_id job_id page_count version sections chunks r h = ground (arith, h)

mark_ready_kept :
    (s s' : Store) (now job_id version_id : ℕ) (u : Unit {0})
    → with_unit (mark_ready s now job_id version_id) ≡ ok (s', u)
    → IsKept s s'
unfolding mark_ready need
mark_ready_kept s s' now job_id version_id u h = ground (arith, h)

pub mark_failed_kept :
    (s : Store) (now job_id : ℕ) (e : JobError) → IsKept s (mark_failed s now job_id e)
unfolding mark_failed
mark_failed_kept s now job_id e = ground arith

heartbeat_kept :
    (s s' : Store) (now job_id : ℕ) (u : Unit {0})
    → ◌≡◌ {A = Result JobError (Store × Unit {0})} (ok (heartbeat s now job_id, tt)) (ok (s', u))
    → IsKept s s'
unfolding heartbeat
heartbeat_kept s s' now job_id u h = ground (arith, h)

heartbeat-KeepsAlways :
    {I : Type 0} (now job_id : ℕ)
    → KeepsAlways {I = I} (transact (λ s. ok (heartbeat s now job_id, tt)))
heartbeat-KeepsAlways now job_id =
    transact-KeepsAlways _ (λ s s' u. heartbeat_kept s s' now job_id u)

persist-KeepsAlways :
    {I : Type 0} (now new_id job_id page_count : ℕ) (version : DocumentVersion)
    (sections : List BuiltSection) (chunks : List BuiltChunk)
    → KeepsAlways {I = I} (
        transact (λ s.
          as_pair (persist_staged_content s now new_id job_id version sections chunks page_count)))
persist-KeepsAlways now new_id job_id page_count version sections chunks =
    transact-KeepsAlways _
      (λ s s' r. persist_kept s s' now new_id job_id page_count version sections chunks r)

mark_ready-KeepsAlways :
    {I : Type 0} (now job_id version_id : ℕ)
    → KeepsAlways {I = I} (transact (λ s. with_unit (mark_ready s now job_id version_id)))
mark_ready-KeepsAlways now job_id version_id =
    transact-KeepsAlways _ (λ s s' u. mark_ready_kept s s' now job_id version_id u)

-- The rules for each step of a run.
ruleset keeps_rules = (
  bind-KeepsAlways, then-KeepsAlways, call-KeepsAlways, done-KeepsAlways, on_index-KeepsAlways,
  heartbeat-KeepsAlways, persist-KeepsAlways, mark_ready-KeepsAlways,
)

module _ {I V : Type 0} (services : Services I V) where
  index_batch_kept :
      (clock : Clock) (job_id : ℕ) (version : DocumentVersion) (generation_id : ℕ)
      (collection_ids : List ℕ) (sections : List (ℕ × BuiltSection)) (batch : List BuiltChunk)
      → KeepsAlways
          (index_batch services clock job_id version generation_id collection_ids sections batch)
  unfolding index_batch
  index_batch_kept clock job_id version generation_id collection_ids sections batch =
      search keeps_rules

  index_batches_kept :
      (clock : Clock) (job_id : ℕ) (version : DocumentVersion) (generation_id : ℕ)
      (collection_ids : List ℕ) (sections : List (ℕ × BuiltSection))
      (batches : List (List BuiltChunk))
      → KeepsAlways (
          index_batches services clock job_id version generation_id collection_ids sections batches)
  unfolding index_batches
  index_batches_kept clock job_id version generation_id collection_ids sections [] =
      done-KeepsAlways tt
  index_batches_kept clock job_id version generation_id collection_ids sections (batch ∷ batches) =
      then-KeepsAlways
        (index_batch_kept clock job_id version generation_id collection_ids sections batch)
        (index_batches_kept clock job_id version generation_id collection_ids sections batches)

  pub prepare_content_kept :
      (settings : Settings) (clock : Clock) (new_id : ℕ) (job : IngestionJob)
      (version : DocumentVersion) (document : Document)
      → KeepsAlways (prepare_content services settings clock new_id job version document)
  unfolding prepare_content
  prepare_content_kept settings clock new_id job version document =
      search (keeps_rules, index_batches_kept) depth 14
