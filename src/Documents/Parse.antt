-- ===== src/Documents/Parse.antt =====
-- The parse jobs of a document (documents/application/services.py). The extraction of the text
-- (`parse_document`) is an argument.
use biaice.Common.{
  ℕ, ◌+◌, Bool, true, false, not, ◌||◌, Option, none, some, [], ◌∷◌, ◌++◌, Text, codes, leb,
  if◌then◌else◌,
}
use biaice.Common.Dict.{lookup, insert}
use biaice.Core.Errors.{stable, Result, ok, err, ◌>>=◌, ◌>>◌, raise_if, or_raise}
use biaice.Core.Errors.Code.{audit_unavailable, job_not_found, job_not_retryable}
use biaice.Core.Scope.{TenantScope, IdentityContext}
use biaice.Documents.Model.{
  SourceDocument, DocumentMimeCategory, ParseJob, ParseStatus, queued, running, succeeded, failed,
  ParseRetryable, retry_yes, DerivedAsset,
}
use biaice.Documents.Completion.{find_document}
use biaice.Documents.Store.{
  Store, Replica, tenant_scoped, get_blob, put_blob, upsert_replica, write_audit, emit_event,
  parse_completed, parse_failed, asset_registered,
}

abbrev pub job_shown : TenantScope → Option ParseJob → Option ParseJob
job_shown scope none = none
job_shown scope (some j) = if tenant_scoped j.tenant_id j.data_domain_id scope then some j else none

unfoldable pub get_parse_job : TenantScope → ℕ → Store → Option ParseJob
get_parse_job scope id s = job_shown scope (lookup id s.parse_jobs)

unfoldable pub upsert_parse_job : ParseJob → Store → Store
upsert_parse_job j s = record s { parse_jobs = insert j.job_id j s.parse_jobs }

unfoldable pub upsert_derived_asset : DerivedAsset → Store → Store
upsert_derived_asset a s = record s { assets = insert a.asset_id a s.assets }

-- What the extraction says: why it failed, or the text.
pub data ParseOutcome : Type 0 where
  extraction_failed : ParseRetryable → ParseOutcome
  extracted : Text → ParseOutcome

pub record Extraction : Type 0 where
  pub parse_document : Text → DocumentMimeCategory → ParseOutcome
  pub sha256 : Text → Text
  pub uuid_text : ℕ → Text

-- What an execution draws: two instants, and identifiers.
pub record JobDraws : Type 0 where
  pub now : ℕ
  pub later : ℕ
  pub new_asset_id : ℕ
  pub new_replica_id : ℕ

-- `get_parse_job` of the service
unfoldable pub find_job : IdentityContext → ℕ → Store → Result ParseJob
find_job identity id s = or_raise (get_parse_job identity.scope id s) job_not_found

-- QUEUED and FAILED jobs run.
abbrev pub runnable : ParseStatus → Bool
runnable queued = true
runnable failed = true
runnable _ = false

abbrev pub started : ℕ → ParseJob → ParseJob
started now j = record j {
  status = running;
  progress_percent = 40;
  started_at = some now;
  retryable = none;
}

abbrev pub extracting : ParseJob → ParseJob
extracting j = record j { progress_percent = 70 }

abbrev pub failed_job : ParseRetryable → ℕ → ParseJob → ParseJob
failed_job why at j = record j {
  status = failed;
  progress_percent = 100;
  completed_at = some at;
  retryable = some why;
}

abbrev pub succeeded_job : ℕ → ℕ → ParseJob → ParseJob
succeeded_job asset at j = record j {
  status = succeeded;
  progress_percent = 100;
  completed_at = some at;
  derived_asset_ids = asset ∷ [];
}

abbrev emit_parse_failed : IdentityContext → ParseJob → Store → Store
emit_parse_failed identity j s = emit_event parse_failed identity.subject_id j.job_id s

module _ (extraction : Extraction) where
  abbrev asset_key : SourceDocument → ℕ → Text
  asset_key d asset =
      codes "derived/"
      ++ extraction.uuid_text d.tenant_id
      ++ codes "/"
      ++ extraction.uuid_text d.document_id
      ++ codes "/"
      ++ extraction.uuid_text asset
      ++ codes ".txt"

  abbrev asset_of : SourceDocument → ParseJob → JobDraws → DerivedAsset
  asset_of d j draws = record {
    asset_id = draws.new_asset_id;
    tenant_id = d.tenant_id;
    data_domain_id = d.data_domain_id;
    source_document_id = d.document_id;
    parse_job_id = some j.job_id;
    storage_key = asset_key d draws.new_asset_id;
    created_at = draws.later;
  }

  abbrev asset_replica : DerivedAsset → JobDraws → Replica
  asset_replica a draws = record {
    replica_id = draws.new_replica_id;
    tenant_id = a.tenant_id;
    data_domain_id = a.data_domain_id;
    object_id = a.asset_id;
    locator_hash = extraction.sha256 a.storage_key;
  }

  -- The job in the end, and what it has written on top of the extraction.
  unfoldable pub finish_job :
      IdentityContext
      → SourceDocument
      → ParseJob
      → JobDraws
      → ParseOutcome
      → Store
      → ParseJob × Store
  finish_job identity d j draws (extraction_failed why) s = (
    failed_job why draws.later j,
    emit_parse_failed identity j (upsert_parse_job (failed_job why draws.later j) s),
  )
  finish_job identity d j draws (extracted text) s = (
    succeeded_job draws.new_asset_id draws.later j,
    emit_event asset_registered identity.subject_id draws.new_asset_id (
        emit_event parse_completed identity.subject_id j.job_id (
          write_audit parse_completed identity.subject_id j.job_id (
            upsert_parse_job (succeeded_job draws.new_asset_id draws.later j) (
              upsert_replica (asset_replica (asset_of d j draws) draws) (
                upsert_derived_asset (asset_of d j draws)
                  (put_blob (asset_key d draws.new_asset_id) text s)))))),
  )

  -- The run of a job on the bytes of its document, or on none.
  unfoldable pub run_job :
      IdentityContext
      → SourceDocument
      → ParseJob
      → JobDraws
      → Option Text
      → Store
      → ParseJob × Store
  run_job identity d j draws none s =
      let r : ParseJob = started draws.now j in
      (
        failed_job retry_yes draws.later r,
        emit_parse_failed identity r
            (upsert_parse_job (failed_job retry_yes draws.later r) (upsert_parse_job r s)),
      )
  run_job identity d j draws (some payload) s =
      let r : ParseJob = started draws.now j in
      finish_job identity d (extracting r) draws (extraction.parse_document payload d.mime_category)
        (upsert_parse_job (extracting r) (upsert_parse_job r s))

  -- The job that is to run with its document, or one that is returned as it is.
  unfoldable pub check_execute :
      IdentityContext → ℕ → Store → Result (ParseJob × Option SourceDocument)
  check_execute identity id s = do
    raise_if (not s.audit_available) audit_unavailable
    j ← find_job identity id s
    if runnable j.status
        then (find_document identity j.document_id s >>= λ d. ok (j, some d))
        else ok (j, none)

  abbrev pub executed :
      IdentityContext
      → JobDraws
      → Store
      → Result (ParseJob × Option SourceDocument)
      → Result ParseJob × Store
  executed identity draws s (err f) = (err f, s)
  executed identity draws s (ok (j, none)) = (ok j, s)
  executed identity draws s (ok (j, some d)) =
      let done : ParseJob × Store = run_job identity d j draws (get_blob d.storage_key s) s in
      (ok (done.0), done.1)

  unfoldable pub execute_parse_job :
      IdentityContext → ℕ → JobDraws → Store → Result ParseJob × Store
  execute_parse_job identity id draws s = executed identity draws s (check_execute identity id s)

  -- The worker runs a job under the name of who created it, with all of the tenant in scope.
  abbrev pub worker_identity : ParseJob → IdentityContext
  worker_identity j = record {
    subject_id = j.created_by;
    scope = record {
      tenant_id = j.tenant_id;
      data_domain_id = j.data_domain_id;
      project_ids = [];
      decision_unit_ids = [];
      all_projects = true;
      all_decision_units = true;
    };
  }

  abbrev pub worked : ℕ → JobDraws → Store → Option ParseJob → Result ParseJob × Store
  worked id draws s none = (err (stable job_not_found), s)
  worked id draws s (some j) = execute_parse_job (worker_identity j) id draws s

  unfoldable pub execute_parse_job_for_worker : ℕ → JobDraws → Store → Result ParseJob × Store
  execute_parse_job_for_worker id draws s = worked id draws s (lookup id s.parse_jobs)

  abbrev pub retryable_now : Option ParseRetryable → Bool
  retryable_now (some retry_yes) = true
  retryable_now _ = false

  abbrev pub is_failed : ParseStatus → Bool
  is_failed failed = true
  is_failed _ = false

  unfoldable pub check_retry : IdentityContext → ℕ → Store → Result ParseJob
  check_retry identity id s = do
    j ← find_job identity id s
    raise_if (not (is_failed j.status) || not (retryable_now j.retryable)) job_not_retryable
    raise_if (leb j.max_attempts j.attempt) job_not_retryable
    ok (record j {
      status = queued;
      progress_percent = 0;
      attempt = j.attempt + 1;
      completed_at = none;
      started_at = none;
    })

  abbrev pub retried :
      IdentityContext → JobDraws → Store → Result ParseJob → Result ParseJob × Store
  retried identity draws s (err f) = (err f, s)
  retried identity draws s (ok j) = execute_parse_job identity j.job_id draws (upsert_parse_job j s)

  unfoldable pub retry_parse_job : IdentityContext → ℕ → JobDraws → Store → Result ParseJob × Store
  retry_parse_job identity id draws s = retried identity draws s (check_retry identity id s)
