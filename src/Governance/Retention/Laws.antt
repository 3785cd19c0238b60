-- ===== src/Governance/Retention/Laws.antt =====
-- Retention expiry over repeated evaluations.
use biaice.Common.{
  ℕ, ◌+◌, ◌≤◌, ◌≡◌, refl, ◌↔◌, true, some, List, [], ◌∷◌, is_some, if◌then◌else◌, arith,
}
use biaice.Governance.Retention.{
  RetentionDispositionJob, evaluate_retention_expiry, disposition_running,
}

-- The times and the counts of active holds of one job's evaluations, and how many of them emit the
-- expiry event.
unfoldable pub emissions : RetentionDispositionJob → List (ℕ × ℕ) → ℕ
emissions job [] = 0
emissions job ((now, holds) ∷ rest) =
    let t = evaluate_retention_expiry job now holds in
    (if t.emit_retention_expired then 1 else 0) + emissions t.job rest

-- The job after a sequence of evaluations.
unfoldable pub evaluated : RetentionDispositionJob → List (ℕ × ℕ) → RetentionDispositionJob
evaluated job [] = job
evaluated job ((now, holds) ∷ rest) = evaluated (evaluate_retention_expiry job now holds).job rest

blocked_emissions :
    (job : RetentionDispositionJob) (es : List (ℕ × ℕ))
    → is_some job.formal_use_blocked_at ≡ true
    → emissions job es ≡ 0
unfolding emissions evaluate_retention_expiry
blocked_emissions job [] h = refl
blocked_emissions job ((now, holds) ∷ rest) h =
    ground (arith, blocked_emissions (evaluate_retention_expiry job now holds).job rest)

-- However often a job is evaluated, at whatever times, the expiry event is emitted once at most.
pub emissions_once : (job : RetentionDispositionJob) (es : List (ℕ × ℕ)) → emissions job es ≤ 1
unfolding emissions evaluate_retention_expiry
emissions_once job [] = omega arith
emissions_once job ((now, holds) ∷ rest) = ground (
  arith,
  emissions_once (evaluate_retention_expiry job now holds).job rest,
  blocked_emissions (evaluate_retention_expiry job now holds).job rest,
)

-- The time at which formal use was blocked, once set, is not changed by any evaluations.
pub evaluated_keeps_block :
    (job : RetentionDispositionJob) (es : List (ℕ × ℕ)) {t : ℕ}
    → job.formal_use_blocked_at ≡ some t
    → (evaluated job es).formal_use_blocked_at ≡ some t
unfolding evaluated evaluate_retention_expiry
evaluated_keeps_block job [] h = h
evaluated_keeps_block job ((now, holds) ∷ rest) h =
    evaluated_keeps_block (evaluate_retention_expiry job now holds).job rest (ground arith)

-- After an evaluation at its expiry or later a job's formal use is blocked, and physical disposition
-- is requested exactly if the job has expired and no hold is active.
pub disposition_iff :
    (job : RetentionDispositionJob) (now holds : ℕ)
    → let t = evaluate_retention_expiry job now holds in
      (job.retention_expires_at ≤ now → is_some t.job.formal_use_blocked_at ≡ true)
      × ((t.request_physical_disposition ≡ true) ↔ ((job.retention_expires_at ≤ now) × (holds ≡ 0)))
unfolding evaluate_retention_expiry
disposition_iff job now holds = ((λ h. ground arith), ground arith)

-- An expired job without holds goes to DISPOSITION_RUNNING and is disposed of again, whatever
-- state it is in: COMPLETED and ESCALATED too.
pub expired_reruns :
    (job : RetentionDispositionJob) (now : ℕ)
    → job.retention_expires_at ≤ now
    → let t = evaluate_retention_expiry job now 0 in
      (t.job.state ≡ disposition_running) × (t.request_physical_disposition ≡ true)
unfolding evaluate_retention_expiry
expired_reruns job now h = ground arith
