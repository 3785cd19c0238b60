-- ===== src/Governance/Deletion/Job.antt =====
-- The models of a deletion (governance/domain/models.py), as far as the coordinator reads them.
use biaice.Common.{ℕ, Bool, true, false, not, ◌&&◌, ◌||◌, Option, List, ◌==◌, all, any, is_some}

pub record ScopedObjectRef : Type 0 where
  pub tenant_id : ℕ
  pub data_domain_id : ℕ
  pub project_id : Option ℕ
  pub decision_unit_id : Option ℕ
  pub object_id : ℕ

pub data DeletionJobState : Type 0 where
  requested logical_access_blocked waiting_for_hold_release dispatching : DeletionJobState
  waiting_for_receipts partially_failed escalated completed : DeletionJobState

pub data ReceiptOutcome : Type 0 where
  succeeded failed_retryable failed_terminal unsupported : ReceiptOutcome

pub record DeletionReceipt : Type 0 where
  pub deletion_job_id : ℕ
  pub replica_id : ℕ
  pub tenant_id : ℕ
  pub data_domain_id : ℕ
  pub adapter_name : ℕ
  pub outcome : ReceiptOutcome
  pub completed_at : Option ℕ
  pub verified : Bool

abbrev is_succeeded : ReceiptOutcome → Bool
is_succeeded succeeded = true
is_succeeded _ = false

unfoldable pub satisfies_completion : DeletionReceipt → Bool
satisfies_completion r = is_succeeded r.outcome && (r.verified && is_some r.completed_at)

pub record ReplicaLocation : Type 0 where
  pub replica_id : ℕ
  pub kind : ℕ
  pub adapter_name : ℕ
  pub required_for_completion : Bool

pub record DeletionJob : Type 0 where
  pub deletion_job_id : ℕ
  pub target : ScopedObjectRef
  pub state : DeletionJobState
  pub logical_access_blocked_at : Option ℕ
  pub required_replica_ids : List ℕ
  pub receipts : List DeletionReceipt
  pub legal_hold_count : ℕ
  pub attempt : ℕ
  pub completed_at : Option ℕ
  pub tombstone_id : Option ℕ

abbrev pub is_completed : DeletionJobState → Bool
is_completed completed = true
is_completed _ = false

-- Some receipt of the list is for the replica and satisfies completion.
unfoldable pub has_success : List DeletionReceipt → ℕ → Bool
has_success rs i = any (λ r. r.replica_id == i && satisfies_completion r) rs

-- `completion_is_evidence_bound`
unfoldable pub completion_is_evidence_bound : DeletionJob → Bool
completion_is_evidence_bound j =
    not (is_completed j.state)
    || (is_some j.logical_access_blocked_at
        && (j.legal_hold_count == 0
            && (all (has_success j.receipts) j.required_replica_ids
                && (is_some j.completed_at && is_some j.tombstone_id))))
