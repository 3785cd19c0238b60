-- ===== src/Core/Errors/Code.antt =====
-- The codes of the error catalogue (core/errors.py).

pub data ErrorCode : Type 0 where
  auth_required auth_not_configured token_invalid mfa_required permission_denied : ErrorCode
  tenant_scope_violation scope_override_forbidden resource_not_found : ErrorCode
  request_validation_failed idempotency_key_required invalid_idempotency_key : ErrorCode
  idempotency_conflict invalid_state_transition if_match_required etag_mismatch : ErrorCode
  invalid_cursor cursor_scope_mismatch job_not_found job_not_cancellable : ErrorCode
  job_not_retryable job_store_unavailable audit_unavailable audit_integrity_failed : ErrorCode
  database_unavailable gate_assessment_not_found gate_evidence_verifier_unavailable : ErrorCode
  egress_authorization_unavailable gate_not_current real_data_mode_required : ErrorCode
  byok_secret_gate_required secret_store_unavailable provider_catalog_not_current : ErrorCode
  provider_real_data_mode_required provider_config_not_active : ErrorCode
  provider_credential_missing provider_credential_unverified : ErrorCode
  provider_credential_invalid provider_credential_revoked : ErrorCode
  provider_credential_usage_not_allowed : ErrorCode
  provider_credential_rotation_requires_successor provider_rotation_conflict : ErrorCode
  provider_policy_not_current provider_call_not_authorized provider_egress_blocked : ErrorCode
  provider_rate_limited provider_timeout provider_upstream_error : ErrorCode
  provider_response_invalid provider_budget_exceeded waiver_prohibited : ErrorCode
  maker_checker_required evidence_document_not_released : ErrorCode
  evidence_satisfied_without_proof evidence_review_required : ErrorCode
  published_version_immutable requirement_not_published : ErrorCode
  response_profile_evidence_not_current condition_not_open cost_already_approved : ErrorCode
  cost_not_approved risk_acceptance_invalid_period risk_acceptance_expired : ErrorCode
  risk_acceptance_already_revoked document_type_blocked upload_session_not_active : ErrorCode
  upload_session_expired upload_chunk_hash_mismatch upload_incomplete : ErrorCode
  upload_hash_mismatch document_not_reviewable document_not_releasable : ErrorCode
  document_scan_failed document_already_released document_not_downloadable : ErrorCode
  document_not_parsable document_link_conflict document_link_not_resolvable : ErrorCode
  governance_store_unavailable deletion_blocked_by_legal_hold : ErrorCode
  deletion_receipts_incomplete deletion_receipt_invalid retention_expired : ErrorCode
  not_implemented baseline_incomplete stale_baseline scenario_set_invalid : ErrorCode
  batch_infrastructure_failure candidate_error_not_recoverable : ErrorCode
  coverage_below_threshold denominator_below_threshold eligibility_input_unknown : ErrorCode
  snapshot_payload_hash_mismatch plan_merge_blocked stress_axis_violated : ErrorCode
  infrastructure_retryable internal_error : ErrorCode
