-- ===== src/Governance/Retention.antt =====
-- Retention expiry (governance/application/retention.py).
pub mod Laws
use biaice.Common.{ℕ, Bool, true, false, not, Option, none, some, ltb, ◌==◌, is_some, if◌then◌else◌}

pub data RetentionJobState : Type 0 where
  scheduled formal_use_blocked waiting_for_hold_release disposition_running completed :
      RetentionJobState
  failed_retryable escalated : RetentionJobState

pub record RetentionDispositionJob : Type 0 where
  pub retention_job_id : ℕ
  pub retention_expires_at : ℕ
  pub state : RetentionJobState
  pub formal_use_blocked_at : Option ℕ
  pub legal_hold_count : ℕ
  pub attempt : ℕ

pub record RetentionTransition : Type 0 where
  pub job : RetentionDispositionJob
  pub emit_retention_expired : Bool
  pub request_physical_disposition : Bool

abbrev or_now : Option ℕ → ℕ → ℕ
or_now none now = now
or_now (some t) now = t

unfoldable pub evaluate_retention_expiry : RetentionDispositionJob → ℕ → ℕ → RetentionTransition
evaluate_retention_expiry job now holds =
    if ltb now job.retention_expires_at
    then record { job = job; emit_retention_expired = false; request_physical_disposition = false }
    else record {
      job = record job {
        state = if ltb 0 holds then waiting_for_hold_release else disposition_running;
        formal_use_blocked_at = some (or_now job.formal_use_blocked_at now);
        legal_hold_count = holds;
      };
      emit_retention_expired = not (is_some job.formal_use_blocked_at);
      request_physical_disposition = holds == 0;
    }
