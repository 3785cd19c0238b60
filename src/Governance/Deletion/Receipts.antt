-- ===== src/Governance/Deletion/Receipts.antt =====
-- The loop of `run_once` over the replicas.
use biaice.Common.{
  ℕ, Bool, false, not, ◌&&◌, Option, none, some, List, [], ◌∷◌, ◌==◌, if◌then◌else◌,
}
use biaice.Core.Errors.{Failure, Result, ok, err, ◌>>=◌, ◌>>◌, raise_if}
use biaice.Core.Errors.Code.{deletion_receipt_invalid}
use biaice.Core.Scope.{TenantScope}
use biaice.Governance.Deletion.Job.{
  DeletionJob, DeletionReceipt, ReplicaLocation, unsupported, satisfies_completion,
}

pub record DeletionReplicaCommand : Type 0 where
  pub deletion_job_id : ℕ
  pub replica : ReplicaLocation
  pub attempt : ℕ

-- An adapter is found by its name; what it deletes and signs is its own. It may raise.
pub record ReplicaDeletionAdapter : Type 0 where
  pub supports : ℕ → Bool
  pub delete : DeletionReplicaCommand → Result DeletionReceipt

-- The adapters by name, and the verifier of receipts, which may raise too.
pub record Ports : Type 0 where
  pub adapter : ℕ → Option ReplicaDeletionAdapter
  pub verify : DeletionReplicaCommand → DeletionReceipt → Result DeletionReceipt

-- The last receipt for a replica: `{r.replica_id: r for r in receipts}.get(id)`.
unfoldable pub latest_from :
    Option DeletionReceipt → List DeletionReceipt → ℕ → Option DeletionReceipt
latest_from found [] i = found
latest_from found (r ∷ rs) i = latest_from (if r.replica_id == i then some r else found) rs i

unfoldable pub latest : List DeletionReceipt → ℕ → Option DeletionReceipt
unfolding latest_from
latest rs i = latest_from none rs i

abbrev pub is_satisfied : Option DeletionReceipt → Bool
is_satisfied none = false
is_satisfied (some r) = satisfies_completion r

unfoldable pub is_bound : TenantScope → DeletionJob → ReplicaLocation → DeletionReceipt → Bool
is_bound scope job replica r =
    r.deletion_job_id == job.deletion_job_id
    && (r.replica_id == replica.replica_id
        && (r.tenant_id == scope.tenant_id
            && (r.data_domain_id == scope.data_domain_id
                && r.adapter_name == replica.adapter_name)))

-- `_assert_receipt_binding`
unfoldable pub assert_receipt_binding :
    TenantScope → DeletionJob → ReplicaLocation → DeletionReceipt → Result (Unit {0})
assert_receipt_binding scope job replica r =
    raise_if (not (is_bound scope job replica r)) deletion_receipt_invalid

unfoldable pub unsupported_receipt : TenantScope → DeletionJob → ReplicaLocation → DeletionReceipt
unsupported_receipt scope job replica = record {
  deletion_job_id = job.deletion_job_id;
  replica_id = replica.replica_id;
  tenant_id = scope.tenant_id;
  data_domain_id = scope.data_domain_id;
  adapter_name = replica.adapter_name;
  outcome = unsupported;
  completed_at = none;
  verified = false;
}

abbrev pub command_for : DeletionJob → ℕ → ReplicaLocation → DeletionReplicaCommand
command_for job attempt replica = record {
  deletion_job_id = job.deletion_job_id;
  replica = replica;
  attempt = attempt;
}

module _ (ports : Ports) (scope : TenantScope) (job : DeletionJob) (attempt : ℕ) where
  -- A replica whose adapter is there: delete, then check the receipt before and after verification.
  unfoldable pub dispatch : ReplicaLocation → ReplicaDeletionAdapter → Result DeletionReceipt
  dispatch replica adapter = do
    let command = command_for job attempt replica
    raw ← adapter.delete command
    assert_receipt_binding scope job replica raw
    receipt ← ports.verify command raw
    assert_receipt_binding scope job replica receipt
    ok receipt

  unfoldable pub with_adapter :
      ReplicaLocation → Option ReplicaDeletionAdapter → Result DeletionReceipt
  with_adapter replica none = ok (unsupported_receipt scope job replica)
  with_adapter replica (some a) =
      if a.supports replica.kind
      then dispatch replica a
      else ok (unsupported_receipt scope job replica)

  -- The receipt that the body of the loop appends for a replica without a satisfying one.
  unfoldable pub receipt_for : ReplicaLocation → Result DeletionReceipt
  unfolding with_adapter
  receipt_for replica = with_adapter replica (ports.adapter replica.adapter_name)

-- The receipts appended to the repository, and the exception that ended the loop, if one did.
abbrev pub Appended : Type 0
Appended = List DeletionReceipt × Option Failure

module _ (ports : Ports) (scope : TenantScope) (job : DeletionJob) (attempt : ℕ) where
  abbrev pub prepended : Result DeletionReceipt → Appended → Appended
  prepended (ok r) (rs, f) = (r ∷ rs, f)
  prepended (err f) _ = ([], some f)

  unfoldable pub collect : List ReplicaLocation → Appended
  collect [] = ([], none)
  collect (replica ∷ replicas) =
      let rest = collect replicas in
      if is_satisfied (latest job.receipts replica.replica_id)
      then rest
      else prepended (receipt_for ports scope job attempt replica) rest
