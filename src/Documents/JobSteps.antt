-- ===== src/Documents/JobSteps.antt =====
-- Creating, retrying and cancelling parse jobs (documents/application/services.py) keeps them sound.
use biaice.Common.{ℕ, ◌≡◌, refl, subst, Bool, true, false, not, ◌&&◌, ◌||◌, some, leb, arith}
use biaice.Core.Errors.{Result, ok, err, >>=-eq-ok, raise_if, raise_if-eq-ok}
use biaice.Core.Scope.{IdentityContext, assert_allows}
use biaice.Documents.Model.{
  ParseJob, ParseStatus, queued, running, succeeded, failed, parse_cancelled, is_downloadable,
}
use biaice.Documents.Store.{Store, settle-keeps, write_audit}
use biaice.Documents.Completion.{find_document}
use biaice.Documents.Parse.{
  Extraction, JobDraws, find_job, upsert_parse_job, is_failed, retryable_now, check_retry, retried,
  retry_parse_job,
}
use biaice.Documents.Jobs.{
  JobRequest, elsewhere, linked_to, check_create_job, created_job, job_saved, create_parse_job,
  cancellable_job, check_cancel_job, cancel_saved, cancel_parse_job,
}
use biaice.Core.Errors.{ok_inj}
use biaice.Documents.Attempts.{
  SoundJob, SoundJobs, SameIntake, SoundJobs-upsert, find_job-eq-ok, execute-SoundJobs,
  execute-SameIntake,
}

-- A retry counts one attempt more, and only below the limit.
check_retry-SoundJob :
    (extraction : Extraction) (identity : IdentityContext) (id : ℕ) (s : Store) {j : ParseJob}
    → SoundJobs s
    → check_retry extraction identity id s ≡ ok j
    → SoundJob j.job_id j
unfolding check_retry
check_retry-SoundJob extraction identity id s {j} sound h =
    let (i, found, checked) = >>=-eq-ok (find_job identity id s) _ h in
    let a =
      >>=-eq-ok
        (raise_if
          (not (is_failed extraction i.status) || not (retryable_now extraction i.retryable)) _)
        _ checked in
    let b = >>=-eq-ok (raise_if (leb i.max_attempts i.attempt) _) _ (a.2) in
    let below = raise_if-eq-ok (leb i.max_attempts i.attempt) _ b.1 in
    let (_, _, low, _) = sound id i (find_job-eq-ok identity id s found) in
    subst (λ x. SoundJob x.job_id x) (ok_inj b.2)
      (refl, omega arith, omega (arith, low), ground (arith, below))

pub retry-SoundJobs :
    (extraction : Extraction) (identity : IdentityContext) (id : ℕ) (draws : JobDraws) (s : Store)
    → SoundJobs s
    → SoundJobs (retry_parse_job extraction identity id draws s).1
unfolding retry_parse_job
retry-SoundJobs extraction identity id draws s sound =
    by_check (check_retry extraction identity id s)
      (λ j h. check_retry-SoundJob extraction identity id s sound h)
  where
    by_check :
        (r : Result ParseJob)
        → ((j : ParseJob) → r ≡ ok j → SoundJob j.job_id j)
        → SoundJobs (retried extraction identity draws s r).1
    by_check (err f) h = sound
    by_check (ok j) h =
        execute-SoundJobs extraction identity j.job_id draws (upsert_parse_job j s)
          (SoundJobs-upsert j s (h j refl) sound)

pub retry-SameIntake :
    (extraction : Extraction) (identity : IdentityContext) (id : ℕ) (draws : JobDraws) (s : Store)
    → SameIntake s (retry_parse_job extraction identity id draws s).1
unfolding retry_parse_job upsert_parse_job
retry-SameIntake extraction identity id draws s = by_check (check_retry extraction identity id s)
  where
    by_check : (r : Result ParseJob) → SameIntake s (retried extraction identity draws s r).1
    by_check (err f) = (refl, refl, refl)
    by_check (ok j) = execute-SameIntake extraction identity j.job_id draws (upsert_parse_job j s)

check_create_job-SoundJob :
    (identity : IdentityContext) (q : JobRequest) (s : Store) {j : ParseJob}
    → check_create_job identity q s ≡ ok j
    → SoundJob j.job_id j
unfolding check_create_job
check_create_job-SoundJob identity q s h =
    let a = >>=-eq-ok (raise_if (not s.audit_available) _) _ h in
    let b =
      >>=-eq-ok
        (assert_allows identity.scope identity.scope.tenant_id identity.scope.data_domain_id
          q.project_id q.decision_unit_id)
        _ (a.2) in
    let (d, _, checked) = >>=-eq-ok (find_document identity q.document_id s) _ (b.2) in
    let c = >>=-eq-ok (raise_if (elsewhere q.project_id d.project_id) _) _ checked in
    let e =
      >>=-eq-ok
        (raise_if
          (elsewhere q.decision_unit_id d.decision_unit_id
            && not (linked_to identity q.document_id q.decision_unit_id s))
          _)
        _ (c.2) in
    let f = >>=-eq-ok (raise_if (not (is_downloadable d.status)) _) _ (e.2) in
    subst (λ x. SoundJob x.job_id x) (ok_inj f.2) (refl, omega arith, omega arith, omega arith)

pub create_job-SoundJobs :
    (extraction : Extraction) (identity : IdentityContext) (q : JobRequest) (draws : JobDraws)
    (s : Store)
    → SoundJobs s
    → SoundJobs (create_parse_job extraction identity q draws s).1
unfolding create_parse_job write_audit
create_job-SoundJobs extraction identity q draws s sound =
    by_check (check_create_job identity q s) q.execute
      (λ j h. check_create_job-SoundJob identity q s h)
  where
    by_check :
        (r : Result ParseJob) (execute : Bool)
        → ((j : ParseJob) → r ≡ ok j → SoundJob j.job_id j)
        → SoundJobs (created_job extraction identity execute draws s r).1
    by_check (err f) execute h = sound
    by_check (ok j) true h =
        execute-SoundJobs extraction identity j.job_id draws (job_saved identity j s)
          (SoundJobs-upsert j s (h j refl) sound)
    by_check (ok j) false h = SoundJobs-upsert j s (h j refl) sound

pub create_job-SameIntake :
    (extraction : Extraction) (identity : IdentityContext) (q : JobRequest) (draws : JobDraws)
    (s : Store)
    → SameIntake s (create_parse_job extraction identity q draws s).1
unfolding create_parse_job write_audit upsert_parse_job
create_job-SameIntake extraction identity q draws s =
    by_check (check_create_job identity q s) q.execute
  where
    by_check :
        (r : Result ParseJob) (execute : Bool)
        → SameIntake s (created_job extraction identity execute draws s r).1
    by_check (err f) execute = (refl, refl, refl)
    by_check (ok j) true =
        execute-SameIntake extraction identity j.job_id draws (job_saved identity j s)
    by_check (ok j) false = (refl, refl, refl)

cancellable_job-keeps :
    (identity : IdentityContext) (j : ParseJob) (t : ParseStatus) (now : ℕ) (s : Store)
    {x : ParseJob × Bool}
    → SoundJob j.job_id j
    → cancellable_job j t now ≡ ok x
    → SoundJobs s
    → SoundJobs (cancel_saved identity x s)
unfolding write_audit
cancellable_job-keeps identity j parse_cancelled now s job h sound =
    subst (λ y. SoundJobs (cancel_saved identity y s)) (ok_inj h) sound
cancellable_job-keeps identity j queued now s job h sound =
    subst (λ y. SoundJobs (cancel_saved identity y s)) (ok_inj h)
      (SoundJobs-upsert
        (record j { status = parse_cancelled; cancelled_at = some now; completed_at = some now }) s
        (refl, job.1, job.2, job.3) sound)
cancellable_job-keeps identity j running now s job h sound = cc
cancellable_job-keeps identity j succeeded now s job h sound = cc
cancellable_job-keeps identity j failed now s job h sound = cc

pub cancel_job-SoundJobs :
    (identity : IdentityContext) (id now : ℕ) (s : Store)
    → SoundJobs s
    → SoundJobs (cancel_parse_job identity id now s).1
unfolding cancel_parse_job check_cancel_job
cancel_job-SoundJobs identity id now s sound =
    settle-keeps SoundJobs (λ (x : ParseJob × Bool). x.0) (cancel_saved identity) s
      (check_cancel_job identity id now s) saved sound
  where
    saved :
        (x : ParseJob × Bool)
        → check_cancel_job identity id now s ≡ ok x
        → SoundJobs (cancel_saved identity x s)
    saved x h =
        let a = >>=-eq-ok (raise_if (not s.audit_available) _) _ h in
        let (j, found, checked) = >>=-eq-ok (find_job identity id s) _ (a.2) in
        let (_, progress, low, high) = sound id j (find_job-eq-ok identity id s found) in
        cancellable_job-keeps identity j j.status now s (refl, progress, low, high) checked sound

cancel_saved-SameIntake :
    (identity : IdentityContext) (x : ParseJob × Bool) (s : Store)
    → SameIntake s (cancel_saved identity x s)
unfolding write_audit upsert_parse_job
cancel_saved-SameIntake identity (j, true) s = (refl, refl, refl)
cancel_saved-SameIntake identity (j, false) s = (refl, refl, refl)

pub cancel_job-SameIntake :
    (identity : IdentityContext) (id now : ℕ) (s : Store)
    → SameIntake s (cancel_parse_job identity id now s).1
unfolding cancel_parse_job
cancel_job-SameIntake identity id now s =
    settle-keeps (SameIntake s) (λ (x : ParseJob × Bool). x.0) (cancel_saved identity) s
      (check_cancel_job identity id now s) (λ x _. cancel_saved-SameIntake identity x s)
      (refl, refl, refl)
