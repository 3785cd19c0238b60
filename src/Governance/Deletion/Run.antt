-- ===== src/Governance/Deletion/Run.antt =====
-- `DeletionCoordinator.run_once`: the result and the writes to the repository, in order.
use biaice.Common.{
  ℕ, ◌+◌, Bool, true, false, not, Option, none, some, List, [], ◌∷◌, ◌++◌, map, ◌==◌, all, any,
  is_some, is_empty, if◌then◌else◌,
}
use biaice.Core.Errors.{stable, runtime_error, validation_error, Result, ok, err}
use biaice.Core.Errors.Code.{resource_not_found}
use biaice.Core.Scope.{TenantScope, assert_allows}
use biaice.Governance.Deletion.Job.{
  DeletionJob, DeletionReceipt, ReceiptOutcome, failed_terminal, unsupported, ReplicaLocation,
  completion_is_evidence_bound, is_completed, waiting_for_hold_release, escalated, dispatching,
  partially_failed, completed,
}
use biaice.Governance.Deletion.Receipts.{Ports, Appended, collect, latest, is_satisfied}

pub data Effect : Type 0 where
  save_deletion_job : DeletionJob → Effect
  append_receipt : DeletionReceipt → Effect
  complete_deletion_atomically : DeletionJob → ℕ → Effect  -- the job and the tombstone's identifier

-- What the call reads of the repository and the clock: the number of active holds, the replicas,
-- the time of completion and the identifier of a new tombstone.
pub record Reads : Type 0 where
  pub active_holds : ℕ
  pub replicas : List ReplicaLocation
  pub now : ℕ
  pub new_tombstone_id : ℕ

unfoldable pub required_ids : List ReplicaLocation → List ℕ
required_ids [] = []
required_ids (r ∷ rs) =
    let rest = required_ids rs in if r.required_for_completion then r.replica_id ∷ rest else rest

-- `latest_by_replica.values()`: the last receipt of each replica, where the replica first came.
unfoldable pub put_latest : DeletionReceipt → List DeletionReceipt → List DeletionReceipt
put_latest r [] = r ∷ []
put_latest r (x ∷ xs) = if x.replica_id == r.replica_id then r ∷ xs else x ∷ put_latest r xs

unfoldable pub latest_values_from :
    List DeletionReceipt → List DeletionReceipt → List DeletionReceipt
latest_values_from acc [] = acc
latest_values_from acc (r ∷ rs) = latest_values_from (put_latest r acc) rs

unfoldable pub latest_values : List DeletionReceipt → List DeletionReceipt
unfolding latest_values_from put_latest
latest_values rs = latest_values_from [] rs

abbrev is_fatal : ReceiptOutcome → Bool
is_fatal failed_terminal = true
is_fatal unsupported = true
is_fatal _ = false

abbrev pub Outcome : Type 0
Outcome = Result DeletionJob × List Effect

unfoldable pub attempted_job : DeletionJob → List ℕ → DeletionJob
attempted_job job required = record job {
  state = dispatching;
  required_replica_ids = required;
  legal_hold_count = 0;
  attempt = job.attempt + 1;
}

unfoldable pub completed_job : Reads → DeletionJob → List DeletionReceipt → DeletionJob
completed_job reads attempted receipts = record attempted {
  state = completed;
  receipts = receipts;
  completed_at = some reads.now;
  tombstone_id = some reads.new_tombstone_id;
}

-- After the loop: complete with the evidence, or wait for the rest. `before` are the writes so far.
unfoldable pub conclude : Reads → DeletionJob → List DeletionReceipt → List Effect → Outcome
conclude reads attempted all_receipts before =
    let values = latest_values all_receipts in
    if all (λ i. is_satisfied (latest all_receipts i)) attempted.required_replica_ids
    then (let done = completed_job reads attempted values in
        if completion_is_evidence_bound done
        then (ok done, before ++ complete_deletion_atomically done reads.new_tombstone_id ∷ [])
        else (err validation_error, before))
    else (let waiting = record attempted {
      state = if any (λ r. is_fatal r.outcome) values then escalated else partially_failed;
      receipts = values;
    } in
        (ok waiting, before ++ save_deletion_job waiting ∷ []))

unfoldable pub conclude_or_raise : Reads → DeletionJob → DeletionJob → Appended → Outcome
conclude_or_raise reads job attempted (appended, some f) =
    (err f, save_deletion_job attempted ∷ map append_receipt appended)
conclude_or_raise reads job attempted (appended, none) =
    conclude reads attempted (job.receipts ++ appended)
      (save_deletion_job attempted ∷ map append_receipt appended)

-- The part that runs once access is blocked and no hold is active.
unfoldable pub dispatch_all : Ports → TenantScope → Reads → DeletionJob → Outcome
dispatch_all ports scope reads job =
    let required = required_ids reads.replicas in
    if is_empty required
    then (let stuck = record job {
      state = escalated;
      legal_hold_count = 0;
      attempt = job.attempt + 1;
    } in
        (ok stuck, save_deletion_job stuck ∷ []))
    else conclude_or_raise reads job (attempted_job job required)
        (collect ports scope job (job.attempt + 1) reads.replicas)

unfoldable pub run_allowed : Ports → TenantScope → Reads → DeletionJob → Outcome
run_allowed ports scope reads job =
    if is_completed job.state
    then (ok job, [])
    else if not (is_some job.logical_access_blocked_at)
    then (err runtime_error, [])
    else if not (reads.active_holds == 0)
    then (let blocked = record job {
      state = waiting_for_hold_release;
      legal_hold_count = reads.active_holds;
    } in
        (ok blocked, save_deletion_job blocked ∷ []))
    else dispatch_all ports scope reads job

unfoldable pub allowed_or_raise :
    Ports → TenantScope → Reads → DeletionJob → Result (Unit {0}) → Outcome
allowed_or_raise ports scope reads job (err f) = (err f, [])
allowed_or_raise ports scope reads job (ok _) = run_allowed ports scope reads job

unfoldable pub run_once : Ports → TenantScope → Reads → Option DeletionJob → Outcome
unfolding allowed_or_raise
run_once ports scope reads none = (err (stable resource_not_found), [])
run_once ports scope reads (some job) = allowed_or_raise ports scope reads job (
    assert_allows scope job.target.tenant_id job.target.data_domain_id job.target.project_id
      job.target.decision_unit_id)
