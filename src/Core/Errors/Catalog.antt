-- ===== src/Core/Errors/Catalog.antt =====
-- The definition that the catalogue of core/errors.py gives for each code.
use biaice.Common.{ℕ, Bool, true, false, Text, codes}
use biaice.Core.Errors.Code.{
  ErrorCode, auth_required, auth_not_configured, token_invalid, mfa_required, permission_denied,
  tenant_scope_violation, scope_override_forbidden, resource_not_found, request_validation_failed,
  idempotency_key_required, invalid_idempotency_key, idempotency_conflict, invalid_state_transition,
  if_match_required, etag_mismatch, invalid_cursor, cursor_scope_mismatch, job_not_found,
  job_not_cancellable, job_not_retryable, job_store_unavailable, audit_unavailable,
  audit_integrity_failed, database_unavailable, gate_assessment_not_found,
  gate_evidence_verifier_unavailable, egress_authorization_unavailable, gate_not_current,
  real_data_mode_required, byok_secret_gate_required, secret_store_unavailable,
  provider_catalog_not_current, provider_real_data_mode_required, provider_config_not_active,
  provider_credential_missing, provider_credential_unverified, provider_credential_invalid,
  provider_credential_revoked, provider_credential_usage_not_allowed,
  provider_credential_rotation_requires_successor, provider_rotation_conflict,
  provider_policy_not_current, provider_call_not_authorized, provider_egress_blocked,
  provider_rate_limited, provider_timeout, provider_upstream_error, provider_response_invalid,
  provider_budget_exceeded, waiver_prohibited, maker_checker_required,
  evidence_document_not_released, evidence_satisfied_without_proof, evidence_review_required,
  published_version_immutable, requirement_not_published, response_profile_evidence_not_current,
  condition_not_open, cost_already_approved, cost_not_approved, risk_acceptance_invalid_period,
  risk_acceptance_expired, risk_acceptance_already_revoked, document_type_blocked,
  upload_session_not_active, upload_session_expired, upload_chunk_hash_mismatch, upload_incomplete,
  upload_hash_mismatch, document_not_reviewable, document_not_releasable, document_scan_failed,
  document_already_released, document_not_downloadable, document_not_parsable,
  document_link_conflict, document_link_not_resolvable, governance_store_unavailable,
  deletion_blocked_by_legal_hold, deletion_receipts_incomplete, deletion_receipt_invalid,
  retention_expired, not_implemented, baseline_incomplete, stale_baseline, scenario_set_invalid,
  batch_infrastructure_failure, candidate_error_not_recoverable, coverage_below_threshold,
  denominator_below_threshold, eligibility_input_unknown, snapshot_payload_hash_mismatch,
  plan_merge_blocked, stress_axis_violated, infrastructure_retryable, internal_error,
}

pub record ErrorDefinition : Type 0 where
  pub status : ℕ
  pub title : Text
  pub recoverable : Bool
  pub remediation : Text

define : ℕ → Text → Bool → Text → ErrorDefinition
define s t r m = record { status = s; title = t; recoverable = r; remediation = m }

unfoldable pub definition : ErrorCode → ErrorDefinition
unfolding define
definition auth_required =
    define 401 (codes "Authentication required") true (codes "Sign in and retry.")
definition auth_not_configured =
    define 503 (codes "Authentication unavailable") true
      (codes "Configure the approved OIDC verifier.")
definition token_invalid = define 401 (codes "Invalid access token") true (codes "Sign in again.")
definition mfa_required =
    define 403 (codes "Multi-factor authentication required") true (codes "Complete MFA and retry.")
definition permission_denied =
    define 403 (codes "Permission denied") false
      (codes "Ask a tenant administrator for the required role.")
definition tenant_scope_violation =
    define 404 (codes "Resource not found") false
      (codes "Use a resource in the authenticated scope.")
definition scope_override_forbidden =
    define 400 (codes "Client scope override is forbidden") false
      (codes "Remove tenant/data-domain scope fields and headers.")
definition resource_not_found =
    define 404 (codes "Resource not found") false (codes "Check the resource identifier.")
definition request_validation_failed =
    define 422 (codes "Request validation failed") true (codes "Correct the listed fields.")
definition idempotency_key_required =
    define 400 (codes "Idempotency key required") true
      (codes "Send a unique Idempotency-Key header.")
definition invalid_idempotency_key =
    define 400 (codes "Invalid idempotency key") true
      (codes "Use 16-128 URL-safe ASCII characters.")
definition idempotency_conflict =
    define 409 (codes "Idempotency key conflict") false
      (codes "Use the same payload or a new idempotency key.")
definition invalid_state_transition =
    define 409 (codes "Invalid state transition") false
      (codes "Refresh the resource and use an action allowed from its current state.")
definition if_match_required =
    define 428 (codes "If-Match required") true
      (codes "Refresh the draft and send its current ETag.")
definition etag_mismatch =
    define 412 (codes "ETag mismatch") true (codes "Refresh the draft before retrying.")
definition invalid_cursor =
    define 400 (codes "Invalid pagination cursor") true
      (codes "Restart pagination without the cursor.")
definition cursor_scope_mismatch =
    define 400 (codes "Pagination cursor scope mismatch") false
      (codes "Do not reuse cursors across scopes.")
definition job_not_found =
    define 404 (codes "Job not found") false (codes "Check the job identifier.")
definition job_not_cancellable =
    define 409 (codes "Job cannot be cancelled") false (codes "Refresh the job state.")
definition job_not_retryable =
    define 409 (codes "Job cannot be retried") false
      (codes "Resolve the terminal failure or create a new command.")
definition job_store_unavailable =
    define 503 (codes "Job store unavailable") true (codes "Retry after PostgreSQL recovers.")
definition audit_unavailable =
    define 503 (codes "Audit writer unavailable") true
      (codes "Retry after audit integrity is restored.")
definition audit_integrity_failed =
    define 503 (codes "Audit integrity check failed") false
      (codes "Keep sensitive operations blocked and restore from the independent anchor.")
definition database_unavailable =
    define 503 (codes "Database unavailable") true (codes "Retry after PostgreSQL recovers.")
definition gate_assessment_not_found =
    define 404 (codes "Gate assessment not found") false
      (codes "Run the approved machine assessment.")
definition gate_evidence_verifier_unavailable =
    define 503 (codes "Gate verifier unavailable") true
      (codes "Restore the machine evidence verifier.")
definition egress_authorization_unavailable =
    define 503 (codes "Provider egress authorization unavailable") true
      (codes "Keep Provider egress disabled until the atomic single-use grant store is bound.")
definition gate_not_current =
    define 503 (codes "Required gate is not current") true
      (codes "Refresh and pass all gate evidence.")
definition real_data_mode_required =
    define 503 (codes "Real-data gate required") true
      (codes "Use synthetic data or pass REAL_DATA_MODE.")
definition byok_secret_gate_required =
    define 503 (codes "BYOK secret gate required") true
      (codes "Pass BYOK_SECRET_GATE before submitting a credential.")
definition secret_store_unavailable =
    define 503 (codes "Secret store unavailable") true
      (codes "Keep credential operations blocked until the approved write-only store recovers.")
definition provider_catalog_not_current =
    define 409 (codes "Provider catalog is not current") true
      (codes "Refresh the published Provider catalog and use its exact version and hash.")
definition provider_real_data_mode_required =
    define 503 (codes "Provider real-data gate required") true
      (codes "Use verified synthetic data or pass REAL_DATA_MODE before Provider processing.")
definition provider_config_not_active =
    define 409 (codes "Provider configuration is not active") true
      (codes "Activate a current configuration.")
definition provider_credential_missing =
    define 409 (codes "Provider credential is missing") true
      (codes "Write a credential to a draft configuration.")
definition provider_credential_unverified =
    define 409 (codes "Provider credential is unverified") true
      (codes "Run the fixed connection test.")
definition provider_credential_invalid =
    define 409 (codes "Provider credential is invalid") true
      (codes "Rotate the credential and test it again.")
definition provider_credential_revoked =
    define 409 (codes "Provider credential is revoked") false
      (codes "Create a successor with a new credential.")
definition provider_credential_usage_not_allowed =
    define 409 (codes "Provider credential usage is not allowed") false
      (codes "Use the credential only within its TEST, BUSINESS or DELETION scope.")
definition provider_credential_rotation_requires_successor =
    define 409 (codes "Provider credential rotation requires a successor") true
      (codes "Create and verify a draft successor instead of changing the active configuration.")
definition provider_rotation_conflict =
    define 409 (codes "Provider rotation conflict") true
      (codes "Finish or revoke the existing successor before starting another rotation.")
definition provider_policy_not_current =
    define 409 (codes "Provider policy is not current") true
      (codes "Refresh Provider policy, legal basis, PIA and cross-border evidence.")
definition provider_call_not_authorized =
    define 403 (codes "Provider call is not authorized") false
      (codes "Use an approved purpose and data scope.")
definition provider_egress_blocked =
    define 503 (codes "Provider egress is blocked") true
      (codes "Synchronize the approved catalog hash and restore the restricted egress adapter.")
definition provider_rate_limited =
    define 429 (codes "Provider rate limit reached") true
      (codes "Retry after the approved backoff interval.")
definition provider_timeout =
    define 504 (codes "Provider request timed out") true
      (codes "Retry or use the documented manual path.")
definition provider_upstream_error =
    define 502 (codes "Provider upstream error") true (codes "Retry after the Provider recovers.")
definition provider_response_invalid =
    define 502 (codes "Provider response is invalid") false
      (codes "Keep the response blocked and inspect the adapter.")
definition provider_budget_exceeded =
    define 409 (codes "Provider budget exceeded") true
      (codes "Wait for budget reset or obtain an approved budget change.")
definition waiver_prohibited =
    define 409 (codes "Waiver prohibited") false (codes "Resolve the mandatory gate evidence.")
definition maker_checker_required =
    define 409 (codes "Independent checker required") true
      (codes "Choose a checker different from the maker.")
definition evidence_document_not_released =
    define 409 (codes "Evidence document is not released") true
      (codes "Release the referenced document before using it as evidence.")
definition evidence_satisfied_without_proof =
    define 409 (codes "Evidence proof is required") false
      (codes "Attach current reviewed evidence before marking the requirement satisfied.")
definition evidence_review_required =
    define 409 (codes "Independent evidence review is required") true
      (codes "Have an authorized reviewer assess the evidence match.")
definition published_version_immutable =
    define 409 (codes "Published version is immutable") false
      (codes "Create a successor version instead of editing the published version.")
definition requirement_not_published =
    define 409 (codes "Requirement is not published") true
      (codes "Publish the requirement before using it in a formal match.")
definition response_profile_evidence_not_current =
    define 409 (codes "Response profile evidence is not current") true
      (codes "Refresh or replace expired, revoked or invalidated evidence.")
definition condition_not_open =
    define 409 (codes "Condition is not open") false
      (codes "Refresh the condition and act only while it remains open.")
definition cost_already_approved =
    define 409 (codes "Cost baseline is already approved") false
      (codes "Create a successor baseline for further changes.")
definition cost_not_approved =
    define 409 (codes "Cost baseline is not approved") true
      (codes "Obtain independent cost approval before publication.")
definition risk_acceptance_invalid_period =
    define 422 (codes "Risk acceptance period is invalid") false
      (codes "valid_until must be later than valid_from.")
definition risk_acceptance_expired =
    define 410 (codes "Risk acceptance has expired") false
      (codes "Create a new risk acceptance for the current period.")
definition risk_acceptance_already_revoked =
    define 409 (codes "Risk acceptance is already revoked") false
      (codes "Keep the append-only history; create a new acceptance if needed.")
definition document_type_blocked =
    define 422 (codes "Document type is blocked") false
      (codes "Upload an allowed PDF, DOCX, XLSX, image or controlled archive.")
definition upload_session_not_active =
    define 409 (codes "Upload session is not active") false (codes "Create a new upload session.")
definition upload_session_expired =
    define 410 (codes "Upload session has expired") true
      (codes "Create a new upload session and resume with a new file transfer.")
definition upload_chunk_hash_mismatch =
    define 422 (codes "Upload chunk hash mismatch") true
      (codes "Resend the chunk with a matching SHA-256.")
definition upload_incomplete =
    define 409 (codes "Upload is incomplete") true
      (codes "Upload the missing parts before completing the session.")
definition upload_hash_mismatch =
    define 422 (codes "Assembled file hash mismatch") true
      (codes "Re-upload the file so the assembled SHA-256 matches the declared hash.")
definition document_not_reviewable =
    define 409 (codes "Document is not reviewable") false
      (codes "Wait until the document has passed scan.")
definition document_not_releasable =
    define 409 (codes "Document is not releasable") false
      (codes "Complete review after a clean scan before release.")
definition document_scan_failed =
    define 409 (codes "Document scan failed") false
      (codes "Keep the file quarantined; do not release or parse it.")
definition document_already_released =
    define 409 (codes "Document is already released") false
      (codes "Use the current released document or quarantine it first.")
definition document_not_downloadable =
    define 409 (codes "Document body is not downloadable") false
      (codes "Scan-failed and quarantined documents cannot be viewed.")
definition document_not_parsable =
    define 409 (codes "Document cannot be parsed") false
      (codes "Parse only after a clean scan; infected files stay isolated.")
definition document_link_conflict =
    define 409 (codes "Document link conflict requires confirmation") true
      (codes "Resolve the inherited/override conflict with an explicit reason.")
definition document_link_not_resolvable =
    define 409 (codes "Document link cannot be resolved") false
      (codes "Choose an open conflicting link and confirm the surviving document.")
definition governance_store_unavailable =
    define 503 (codes "Governance store unavailable") true
      (codes "Retry after the governance repository recovers.")
definition deletion_blocked_by_legal_hold =
    define 409 (codes "Deletion blocked by legal hold") true
      (codes "Release the hold through dual control.")
definition deletion_receipts_incomplete =
    define 409 (codes "Deletion receipts incomplete") true
      (codes "Retry or escalate missing required replicas.")
definition deletion_receipt_invalid =
    define 409 (codes "Deletion receipt invalid") false
      (codes "Obtain a verified receipt from the registered adapter.")
definition retention_expired =
    define 410 (codes "Retention period expired") false
      (codes "The object is no longer available for formal use.")
definition not_implemented =
    define 501 (codes "Operation not implemented") false
      (codes "Wait for the owning module implementation.")
definition baseline_incomplete =
    define 409 (codes "Decision baseline is incomplete") false
      (codes "Complete the missing upstream references and retry.")
definition stale_baseline =
    define 409 (codes "Decision baseline is no longer current") false
      (codes "Freeze a new baseline version and retry.")
definition scenario_set_invalid = define 409 (codes "Scenario set is invalid") false (
    codes "Probability and stress scenarios must be mutually exclusive and weights must be finite.")
definition batch_infrastructure_failure =
    define 503 (codes "Simulation batch infrastructure failure") true
      (codes "Retry the batch; permanent failure isolates the batch.")
definition candidate_error_not_recoverable =
    define 422 (codes "Candidate-level error blocks the batch") false
      (codes "Mark the batch as INDETERMINATE; do not delete scenarios to inflate metrics.")
definition coverage_below_threshold =
    define 422 (codes "Coverage is below the policy threshold") false
      (codes "Increase n_scenarios or relax infra exclusions, then rerun.")
definition denominator_below_threshold =
    define 422 (codes "Coverage denominator is below the policy threshold") false
      (codes "Result is UNDEFINED; do not submit for review.")
definition eligibility_input_unknown =
    define 409 (codes "Eligibility input is UNKNOWN, EXPIRED or INVALIDATED") false
      (codes "Resolve all upstream inputs to CURRENT before requesting a recommendation.")
definition snapshot_payload_hash_mismatch =
    define 409 (codes "Snapshot payload hash does not match committed version") false
      (codes "Recompute the snapshot payload and retry.")
definition plan_merge_blocked =
    define 422 (codes "Plan merge was blocked by linkage rules") false
      (codes "Use complete-linkage; do not chain adjacent candidates across tau_b or tau_m.")
definition stress_axis_violated =
    define 422 (codes "Hard stress-axis constraint violated") false
      (codes "Do not enter the probability denominator with stress weights.")
definition infrastructure_retryable =
    define 503 (codes "Transient infrastructure failure") true
      (codes "Retry with backoff; if persistent, isolate the batch.")
definition internal_error =
    define 500 (codes "Internal server error") true
      (codes "Retry with the request_id or contact an administrator.")
