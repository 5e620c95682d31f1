-- ===== src/Ingest/Process/Failure.antt =====
-- What a run of `process` that raises leaves behind.
use etoeragcb.Base.{
  ℕ, ◌≡◌, ◌⊎◌, refl, sym, ap, ◌∙◌, true, Bool-cases, inl, inr, Option, none, some, arith, subst,
}
use mathlib.Core.Option.{some-injective}
use etoeragcb.Base.Table.{get_row-set_row_own, get_row-key}
use etoeragcb.Base.Result.{Result, ok, raise}
use etoeragcb.Ingest.Tables.{DocumentVersion, IngestionJob, stopped, Store, has_succeeded, Document}
use etoeragcb.Ingest.Jobs.{JobError, job_row}
use etoeragcb.Ingest.Jobs.Finish.{detail_of, fail_version, stop_job, mark_failed}
use etoeragcb.Ingest.Process.{
  World, Run, continue_with, ◌>>=◌, commit, transact, done, Services, Settings, Clock,
}
use etoeragcb.Ingest.Process.Laws.{
  IsKept, KeepsAlways, transact-KeepsAlways, mark_failed_kept, prepare_content_kept, start_kept,
}
use etoeragcb.Base.Text.{Text}
use etoeragcb.Ingest.Process.Pipeline.{run_started, attempt, or_marked, process}

pub record KeepsOnRaise {I A : Type 0} (m : Run I A) : Type 0 where
  pub kept : (w : World I) (e : JobError) → (m w).1 ≡ raise e → IsKept w.store (m w).0.store

continue_with-raised :
    {I A B : Type 0} (s : Store) (p : World I × Result JobError A) (f : A → Run I B) (e : JobError)
    → IsKept s p.0.store
    → ((a : A) → KeepsOnRaise (f a))
    → (continue_with p f).1 ≡ raise e
    → IsKept s (continue_with p f).0.store
continue_with-raised s (w, raise e') f e h k r = h
continue_with-raised s (w, ok a) f e h k r =
    let (tenants, documents) = (k a).kept w e r in (tenants ∙ h.0, documents ∙ h.1)

bind-KeepsOnRaise :
    {I A B : Type 0} {m : Run I A} {f : A → Run I B}
    → KeepsAlways m
    → ((a : A) → KeepsOnRaise (f a))
    → KeepsOnRaise (m >>= f)
unfolding ◌>>=◌
bind-KeepsOnRaise {m = m} {f = f} h k = record {
  kept = λ w e r. continue_with-raised w.store (m w) f e (h.kept w) k r;
}

commit-raised :
    {I A : Type 0} (w : World I) (r : Result JobError (Store × A)) (e : JobError)
    → (commit w r).1 ≡ raise e
    → IsKept w.store (commit w r).0.store
commit-raised w (raise e') e h = (refl, refl)
commit-raised w (ok (s, a)) e h = cc

transact-KeepsOnRaise :
    {I A : Type 0} (f : Store → Result JobError (Store × A)) → KeepsOnRaise {I = I} (transact f)
unfolding transact
transact-KeepsOnRaise f = record { kept = λ w e r. commit-raised w (f w.store) e r }

done-KeepsOnRaise : {I A : Type 0} (a : A) → KeepsOnRaise {I = I} (done a)
unfolding done
done-KeepsOnRaise a = record { kept = λ w e r. (refl, refl) }

-- The job of a run that raised has succeeded before, or it is marked with the error.
abbrev pub IsMarked : JobError → IngestionJob → Type 0
IsMarked e job =
    (has_succeeded job.status ≡ true) ⊎ ((job.status ≡ stopped) × (job.error ≡ some (detail_of e)))

fail_version-jobs :
    (detail : Text) (o : Option DocumentVersion) (s : Store)
    → (fail_version detail o s).jobs ≡ s.jobs
unfolding fail_version
fail_version-jobs detail none s = refl
fail_version-jobs detail (some version) s = ground arith

stop_job-IsMarked :
    (s : Store) (now job_id : ℕ) (e : JobError) (o : Option IngestionJob) (job : IngestionJob)
    → job_row job_id s ≡ o
    → job_row job_id (stop_job now e o s) ≡ some job
    → IsMarked e job
unfolding stop_job
stop_job-IsMarked s now job_id e none job found h = cc (sym found ∙ h)
stop_job-IsMarked s now job_id e (some old) job found h =
    elim (Bool-cases (has_succeeded old.status)) [
      | inl over ↦
          let same : old ≡ job = some-injective old job (sym found ∙ (rw over at h)) in
          inl (ap (λ j. has_succeeded j.status) (sym same) ∙ over)
      | inr unfinished ↦
          let marked = record old {
            status = stopped;
            error = some (detail_of e);
            heartbeat_at = some now;
          } in
          let key = get_row-key (λ r. r.id) job_id s.jobs old found in
          let written =
            get_row-set_row_own (λ r. r.id) job_id old.id
              (λ r. record r {
                status = stopped;
                error = some (detail_of e);
                heartbeat_at = some now;
              })
              s.jobs old (λ x. refl) key found in
          let same : marked ≡ job =
            some-injective marked job (sym written ∙ (rw (unfinished, fail_version-jobs) at h)) in
          inr (ap (λ j. j.status) (sym same), ap (λ j. j.error) (sym same))
    ]

mark_failed-IsMarked :
    (s : Store) (now job_id : ℕ) (e : JobError) (job : IngestionJob)
    → job_row job_id (mark_failed s now job_id e) ≡ some job
    → IsMarked e job
unfolding mark_failed
mark_failed-IsMarked s now job_id e job h =
    stop_job-IsMarked s now job_id e (job_row job_id s) job refl h

error_of : {A : Type 0} → JobError → Result JobError A → JobError
error_of d (raise e) = e
error_of d (ok a) = d

raised_same :
    {A : Type 0} (a b : JobError) → ◌≡◌ {A = Result JobError A} (raise a) (raise b) → a ≡ b
unfolding error_of
raised_same a b h = ap (error_of a) h

module _ {I V : Type 0} (services : Services I V) where
  run_started_kept :
      (settings : Settings) (clock : Clock) (new_id : ℕ)
      (o : Option (IngestionJob × DocumentVersion × Document))
      → KeepsOnRaise (run_started services settings clock new_id o)
  unfolding run_started
  run_started_kept settings clock new_id none = done-KeepsOnRaise tt
  run_started_kept settings clock new_id (some (job, version, document)) =
      bind-KeepsOnRaise (prepare_content_kept services settings clock new_id job version document)
        λ generation_id. transact-KeepsOnRaise _

  attempt_kept :
      (settings : Settings) (clock : Clock) (new_id job_id : ℕ)
      → KeepsOnRaise (attempt services settings clock new_id job_id)
  unfolding attempt
  attempt_kept settings clock new_id job_id =
      bind-KeepsOnRaise
        (transact-KeepsAlways _
          (λ s s' o. start_kept s s' settings.heartbeat_timeout clock.started job_id o))
        λ started. run_started_kept settings clock new_id started

  or_marked_kept :
      (clock : Clock) (job_id : ℕ) (s : Store) (p : World I × Result JobError (Unit {0}))
      (e : JobError)
      → (p.1 ≡ raise e → IsKept s p.0.store)
      → (or_marked services clock job_id p).1 ≡ raise e
      → IsKept s (or_marked services clock job_id p).0.store
        × ((job : IngestionJob)
            → job_row job_id (or_marked services clock job_id p).0.store ≡ some job
            → IsMarked e job)
  unfolding or_marked
  or_marked_kept clock job_id s (w, ok u) e h r = cc
  or_marked_kept clock job_id s (w, raise e') e h r =
      let (tenants, documents) = h r in
      let (tenants_after, documents_after) = mark_failed_kept w.store clock.stopped job_id e' in
      (
        (tenants_after ∙ tenants, documents_after ∙ documents),
        λ job found.
            subst (λ x. IsMarked x job) (raised_same e' e r)
              (mark_failed-IsMarked w.store clock.stopped job_id e' job found),
      )

  -- A run that raises, whichever service or transaction failed, leaves the tenants with their active
  -- generations and the documents with their active versions as they were, and the job, if it is there,
  -- has succeeded before or is stopped with the text of the error.
  pub process_fails :
      (settings : Settings) (clock : Clock) (new_id job_id : ℕ) (w : World I) (e : JobError)
      → (process services settings clock new_id job_id w).1 ≡ raise e
      → IsKept w.store (process services settings clock new_id job_id w).0.store
        × ((job : IngestionJob)
            → job_row job_id (process services settings clock new_id job_id w).0.store ≡ some job
            → IsMarked e job)
  unfolding process
  process_fails settings clock new_id job_id w e r =
      or_marked_kept clock job_id w.store (attempt services settings clock new_id job_id w) e
        ((attempt_kept settings clock new_id job_id).kept w e) r
