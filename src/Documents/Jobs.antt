-- ===== src/Documents/Jobs.antt =====
-- Creating and cancelling parse jobs (documents/application/services.py).
use biaice.Common.{ℕ, Bool, true, false, not, ◌&&◌, Option, none, some, [], opt_eq, is_some}
use biaice.Core.Errors.{stable, Result, ok, err, ◌>>=◌, ◌>>◌, raise_if}
use biaice.Core.Errors.Code.{
  audit_unavailable, resource_not_found, job_not_cancellable, document_not_parsable,
}
use biaice.Core.Scope.{IdentityContext, assert_allows}
use biaice.Documents.Model.{
  SourceDocument, ParseJob, ParseStatus, queued, parse_cancelled, is_downloadable,
}
use biaice.Documents.Completion.{find_document}
use biaice.Documents.Links.{document_linked_to_unit}
use biaice.Documents.Store.{Store, write_audit, settle, parse_created, parse_job_cancelled}
use biaice.Documents.Parse.{Extraction, JobDraws, find_job, upsert_parse_job, execute_parse_job}

-- The arguments of `create_parse_job`, with what it draws.
pub record JobRequest : Type 0 where
  pub document_id : ℕ
  pub project_id : Option ℕ
  pub decision_unit_id : Option ℕ
  pub execute : Bool
  pub created_at : ℕ
  pub new_job_id : ℕ

abbrev or_else : Option ℕ → Option ℕ → Option ℕ
or_else none b = b
or_else (some a) b = some a

-- `wanted is not None and held not in {wanted, None}`
abbrev pub elsewhere : Option ℕ → Option ℕ → Bool
elsewhere none held = false
elsewhere (some w) held = is_some held && not (opt_eq held (some w))

abbrev pub linked_to : IdentityContext → ℕ → Option ℕ → Store → Bool
linked_to identity id none s = false
linked_to identity id (some unit) s = document_linked_to_unit identity id unit s

abbrev pub new_job : IdentityContext → JobRequest → SourceDocument → ParseJob
new_job identity q d = record {
  job_id = q.new_job_id;
  tenant_id = identity.scope.tenant_id;
  data_domain_id = identity.scope.data_domain_id;
  project_id = or_else q.project_id d.project_id;
  decision_unit_id = or_else q.decision_unit_id d.decision_unit_id;
  document_id = d.document_id;
  status = queued;
  progress_percent = 0;
  retryable = none;
  created_at = q.created_at;
  started_at = none;
  completed_at = none;
  cancelled_at = none;
  attempt = 1;
  max_attempts = 3;
  derived_asset_ids = [];
  created_by = identity.subject_id;
}

unfoldable pub check_create_job : IdentityContext → JobRequest → Store → Result ParseJob
check_create_job identity q s = do
  raise_if (not s.audit_available) audit_unavailable
  assert_allows identity.scope identity.scope.tenant_id identity.scope.data_domain_id q.project_id
      q.decision_unit_id
  d ← find_document identity q.document_id s
  raise_if (elsewhere q.project_id d.project_id) resource_not_found
  raise_if
      (elsewhere q.decision_unit_id d.decision_unit_id
        && not (linked_to identity q.document_id q.decision_unit_id s))
      resource_not_found
  raise_if (not (is_downloadable d.status)) document_not_parsable
  ok (new_job identity q d)

abbrev pub job_saved : IdentityContext → ParseJob → Store → Store
job_saved identity j s =
    write_audit parse_created identity.subject_id j.job_id (upsert_parse_job j s)

abbrev pub created_job :
    Extraction
    → IdentityContext
    → Bool
    → JobDraws
    → Store
    → Result ParseJob
    → Result ParseJob × Store
created_job extraction identity execute draws s (err f) = (err f, s)
created_job extraction identity true draws s (ok j) =
    execute_parse_job extraction identity j.job_id draws (job_saved identity j s)
created_job extraction identity false draws s (ok j) = (ok j, job_saved identity j s)

unfoldable pub create_parse_job :
    Extraction → IdentityContext → JobRequest → JobDraws → Store → Result ParseJob × Store
create_parse_job extraction identity q draws s =
    created_job extraction identity q.execute draws s (check_create_job identity q s)

-- Only a queued job is cancelled; a cancelled one is returned as it is.
abbrev pub cancellable_job : ParseJob → ParseStatus → ℕ → Result (ParseJob × Bool)
cancellable_job j parse_cancelled now = ok (j, false)
cancellable_job j queued now =
    ok (
      record j { status = parse_cancelled; cancelled_at = some now; completed_at = some now },
      true,
    )
cancellable_job j _ now = err (stable job_not_cancellable)

unfoldable pub check_cancel_job : IdentityContext → ℕ → ℕ → Store → Result (ParseJob × Bool)
check_cancel_job identity id now s = do
  raise_if (not s.audit_available) audit_unavailable
  j ← find_job identity id s
  cancellable_job j j.status now

abbrev pub cancel_saved : IdentityContext → ParseJob × Bool → Store → Store
cancel_saved identity (j, false) s = s
cancel_saved identity (j, true) s =
    write_audit parse_job_cancelled identity.subject_id j.job_id (upsert_parse_job j s)

unfoldable pub cancel_parse_job : IdentityContext → ℕ → ℕ → Store → Result ParseJob × Store
cancel_parse_job identity id now s =
    settle (λ (x : ParseJob × Bool). x.0) (cancel_saved identity) s
      (check_cancel_job identity id now s)
