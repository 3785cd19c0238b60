-- ===== src/Documents/Attempts.antt =====
-- What holds of every stored parse job (documents/application/services.py): its progress and the
-- number of its attempts stay in their bounds.
use biaice.Common.{
  ℕ, ◌≤◌, ◌≡◌, refl, ap, ◌∙◌, Bool, true, false, not, Option, none, some, Text, arith,
  if◌then◌else◌,
}
use biaice.Common.Dict.{lookup, Each, Each-insert}
use biaice.Core.Errors.{Result, ok, err, ◌>>=◌, >>=-eq-ok, raise_if, or_raise-eq-ok}
use biaice.Core.Scope.{TenantScope, IdentityContext}
use biaice.Documents.Model.{SourceDocument, ParseJob, retry_yes}
use biaice.Documents.Store.{Store, get_blob, put_blob, upsert_replica, write_audit, emit_event}
use biaice.Documents.Completion.{find_document}
use biaice.Documents.Parse.{
  Extraction, ParseOutcome, extraction_failed, extracted, JobDraws, job_shown, get_parse_job,
  find_job, upsert_parse_job, upsert_derived_asset, runnable, started, extracting, failed_job,
  succeeded_job, finish_job, run_job, check_execute, executed, execute_parse_job, worked,
  worker_identity, execute_parse_job_for_worker,
}
use biaice.Core.Errors.{ok_inj}

abbrev pub SoundJob : ℕ → ParseJob → Type 0
SoundJob k j =
    (j.job_id ≡ k) × (j.progress_percent ≤ 100) × (1 ≤ j.attempt) × (j.attempt ≤ j.max_attempts)

abbrev pub SoundJobs : Store → Type 0
SoundJobs s = Each SoundJob s.parse_jobs

pub SoundJobs-upsert :
    (j : ParseJob) (s : Store)
    → SoundJob j.job_id j
    → SoundJobs s
    → SoundJobs (upsert_parse_job j s)
unfolding upsert_parse_job
SoundJobs-upsert j s here sound = Each-insert SoundJob j.job_id j s.parse_jobs here sound

-- The two stores agree on the sessions, the chunks and the documents.
abbrev pub SameIntake : Store → Store → Type 0
SameIntake s t = (s.sessions ≡ t.sessions) × (s.chunks ≡ t.chunks) × (s.documents ≡ t.documents)

job_shown-eq-some :
    (scope : TenantScope) (o : Option ParseJob) {j : ParseJob}
    → job_shown scope o ≡ some j
    → o ≡ some j
job_shown-eq-some scope none h = cc
job_shown-eq-some scope (some i) h = ground arith

pub find_job-eq-ok :
    (identity : IdentityContext) (id : ℕ) (s : Store) {j : ParseJob}
    → find_job identity id s ≡ ok j
    → lookup id s.parse_jobs ≡ some j
unfolding find_job get_parse_job
find_job-eq-ok identity id s h =
    job_shown-eq-some identity.scope (lookup id s.parse_jobs) (or_raise-eq-ok _ _ h)

check_execute-eq-ok :
    (extraction : Extraction) (identity : IdentityContext) (id : ℕ) (s : Store)
    {x : ParseJob × Option SourceDocument}
    → check_execute extraction identity id s ≡ ok x
    → lookup id s.parse_jobs ≡ some x.0
unfolding check_execute
check_execute-eq-ok extraction identity id s {x} h =
    let a = >>=-eq-ok (raise_if (not s.audit_available) _) _ h in
    let (j, found, checked) = >>=-eq-ok (find_job identity id s) _ (a.2) in
    find_job-eq-ok identity id s found ∙ ap some (same j (runnable j.status) checked)
  where
    same :
        (j : ParseJob) (b : Bool)
        → (if b
            then (find_document identity j.document_id s >>= λ d. ok (j, some d))
            else ok (j, none))
          ≡ ok x
        → j ≡ x.0
    same j true e =
        let c = >>=-eq-ok (find_document identity j.document_id s) _ e in ap (λ y. y.0) (ok_inj c.2)
    same j false e = ap (λ y. y.0) (ok_inj e)

module _ (extraction : Extraction) (identity : IdentityContext) (draws : JobDraws) where
  finish_job-SoundJobs :
      (d : SourceDocument) (j : ParseJob) (o : ParseOutcome) (s : Store)
      → SoundJob j.job_id j
      → SoundJobs s
      → SoundJobs (finish_job extraction identity d j draws o s).1
  unfolding finish_job upsert_derived_asset upsert_replica put_blob write_audit emit_event
      upsert_parse_job
  finish_job-SoundJobs d j (extraction_failed why) s job sound =
      SoundJobs-upsert (failed_job why draws.later j) s (refl, omega arith, job.2, job.3) sound
  finish_job-SoundJobs d j (extracted text) s job sound =
      SoundJobs-upsert (succeeded_job draws.new_asset_id draws.later j) s
        (refl, omega arith, job.2, job.3) sound

  run_job-SoundJobs :
      (d : SourceDocument) (j : ParseJob) (o : Option Text) (s : Store)
      → SoundJob j.job_id j
      → SoundJobs s
      → SoundJobs (run_job extraction identity d j draws o s).1
  unfolding run_job emit_event
  run_job-SoundJobs d j none s job sound =
      SoundJobs-upsert (failed_job retry_yes draws.later (started draws.now j))
        (upsert_parse_job (started draws.now j) s) (refl, omega arith, job.2, job.3)
        (SoundJobs-upsert (started draws.now j) s (refl, omega arith, job.2, job.3) sound)
  run_job-SoundJobs d j (some payload) s job sound =
      finish_job-SoundJobs d (extracting (started draws.now j))
        (extraction.parse_document payload d.mime_category)
        (upsert_parse_job (extracting (started draws.now j))
          (upsert_parse_job (started draws.now j) s))
        (refl, omega arith, job.2, job.3)
        (SoundJobs-upsert (extracting (started draws.now j))
          (upsert_parse_job (started draws.now j) s) (refl, omega arith, job.2, job.3)
          (SoundJobs-upsert (started draws.now j) s (refl, omega arith, job.2, job.3) sound))

  finish_job-SameIntake :
      (d : SourceDocument) (j : ParseJob) (o : ParseOutcome) (s : Store)
      → SameIntake s (finish_job extraction identity d j draws o s).1
  unfolding finish_job upsert_derived_asset upsert_replica put_blob write_audit emit_event
      upsert_parse_job
  finish_job-SameIntake d j (extraction_failed why) s = (refl, refl, refl)
  finish_job-SameIntake d j (extracted text) s = (refl, refl, refl)

  run_job-SameIntake :
      (d : SourceDocument) (j : ParseJob) (o : Option Text) (s : Store)
      → SameIntake s (run_job extraction identity d j draws o s).1
  unfolding run_job upsert_parse_job emit_event
  run_job-SameIntake d j none s = (refl, refl, refl)
  run_job-SameIntake d j (some payload) s =
      finish_job-SameIntake d (extracting (started draws.now j))
        (extraction.parse_document payload d.mime_category)
        (upsert_parse_job (extracting (started draws.now j))
          (upsert_parse_job (started draws.now j) s))

-- An execution runs a stored job, or changes nothing.
execute_keeps {ℓ} :
    (P : Store → Type ℓ) (extraction : Extraction) (identity : IdentityContext) (id : ℕ)
    (draws : JobDraws) (s : Store)
    → P s
    → ((d : SourceDocument) (j : ParseJob) (o : Option Text)
        → lookup id s.parse_jobs ≡ some j
        → P (run_job extraction identity d j draws o s).1)
    → P (execute_parse_job extraction identity id draws s).1
unfolding execute_parse_job
execute_keeps P extraction identity id draws s kept ran =
    by_check (check_execute extraction identity id s)
      (λ x h. check_execute-eq-ok extraction identity id s h)
  where
    by_check :
        (r : Result (ParseJob × Option SourceDocument))
        → ((x : ParseJob × Option SourceDocument) → r ≡ ok x → lookup id s.parse_jobs ≡ some x.0)
        → P (executed extraction identity draws s r).1
    by_check (err f) h = kept
    by_check (ok (j, none)) h = kept
    by_check (ok (j, some d)) h = ran d j (get_blob d.storage_key s) (h (j, some d) refl)

pub execute-SoundJobs :
    (extraction : Extraction) (identity : IdentityContext) (id : ℕ) (draws : JobDraws) (s : Store)
    → SoundJobs s
    → SoundJobs (execute_parse_job extraction identity id draws s).1
execute-SoundJobs extraction identity id draws s sound =
    execute_keeps SoundJobs extraction identity id draws s sound (λ d j o at.
      let (_, progress, low, high) = sound id j at in
      run_job-SoundJobs extraction identity draws d j o s (refl, progress, low, high) sound)

pub execute-SameIntake :
    (extraction : Extraction) (identity : IdentityContext) (id : ℕ) (draws : JobDraws) (s : Store)
    → SameIntake s (execute_parse_job extraction identity id draws s).1
execute-SameIntake extraction identity id draws s =
    execute_keeps (SameIntake s) extraction identity id draws s (refl, refl, refl)
      (λ d j o at. run_job-SameIntake extraction identity draws d j o s)

pub worker-SoundJobs :
    (extraction : Extraction) (id : ℕ) (draws : JobDraws) (s : Store)
    → SoundJobs s
    → SoundJobs (execute_parse_job_for_worker extraction id draws s).1
unfolding execute_parse_job_for_worker
worker-SoundJobs extraction id draws s sound = by_lookup (lookup id s.parse_jobs)
  where
    by_lookup : (o : Option ParseJob) → SoundJobs (worked extraction id draws s o).1
    by_lookup none = sound
    by_lookup (some j) =
        execute-SoundJobs extraction (worker_identity extraction j) id draws s sound

pub worker-SameIntake :
    (extraction : Extraction) (id : ℕ) (draws : JobDraws) (s : Store)
    → SameIntake s (execute_parse_job_for_worker extraction id draws s).1
unfolding execute_parse_job_for_worker
worker-SameIntake extraction id draws s = by_lookup (lookup id s.parse_jobs)
  where
    by_lookup : (o : Option ParseJob) → SameIntake s (worked extraction id draws s o).1
    by_lookup none = (refl, refl, refl)
    by_lookup (some j) = execute-SameIntake extraction (worker_identity extraction j) id draws s
