-- ===== src/Governance/Deletion/Tests.antt =====
-- A deletion at fixed inputs, and the theorems about it.
use biaice.Common.{◌≡◌, refl, sym, ap, some_inj, ==_refl, true, none, some, List, [], ◌∷◌, All}
use biaice.Core.Errors.{ok, is_ok}
use biaice.Core.Scope.{TenantScope, assert_allows}
use biaice.Governance.Deletion.Job.{
  DeletionJob, DeletionReceipt, ReplicaLocation, succeeded, logical_access_blocked, completed,
  has_success, satisfies_completion, completion_is_evidence_bound,
}
use biaice.Governance.Deletion.Receipts.{
  Ports, ReplicaDeletionAdapter, command_for, latest_from, latest, is_bound, assert_receipt_binding,
  dispatch, with_adapter, receipt_for, collect,
}
use biaice.Governance.Deletion.Run.{
  Effect, save_deletion_job, append_receipt, complete_deletion_atomically, attempted_job, Reads,
  required_ids, put_latest, latest_values_from, latest_values, attempted_job, completed_job,
  conclude, conclude_or_raise, dispatch_all, run_allowed, allowed_or_raise, run_once,
}
use biaice.Governance.Deletion.Completion.{
  IsEvidenced, allowed, Delivers, completed_needs_receipts, run_once_returns, rerun_completed,
}
use biaice.Governance.Deletion.Effects.{IsOwn, run_once-IsOwn}

abbrev scope : TenantScope
scope = record {
  tenant_id = 1;
  data_domain_id = 2;
  project_ids = [];
  decision_unit_ids = [];
  all_projects = true;
  all_decision_units = true;
}

abbrev job : DeletionJob
job = record {
  deletion_job_id = 20;
  target = record {
    tenant_id = 1;
    data_domain_id = 2;
    project_id = none;
    decision_unit_id = none;
    object_id = 30;
  };
  state = logical_access_blocked;
  logical_access_blocked_at = some 3;
  required_replica_ids = [];
  receipts = [];
  legal_hold_count = 0;
  attempt = 0;
  completed_at = none;
  tombstone_id = none;
}

abbrev replica : ReplicaLocation
replica = record { replica_id = 40; kind = 1; adapter_name = 50; required_for_completion = true }

abbrev receipt : DeletionReceipt
receipt = record {
  deletion_job_id = 20;
  replica_id = 40;
  tenant_id = 1;
  data_domain_id = 2;
  adapter_name = 50;
  outcome = succeeded;
  completed_at = some 60;
  verified = true;
}

-- One adapter, which deletes and signs; the verifier accepts.
abbrev ports : Ports
ports = record {
  adapter = λ name. some (record { supports = λ kind. true; delete = λ command. ok receipt });
  verify = λ command r. ok r;
}

abbrev reads : Reads
reads = record { active_holds = 0; replicas = replica ∷ []; now = 70; new_tombstone_id = 80 }

abbrev done : DeletionJob
done = record job {
  state = completed;
  required_replica_ids = 40 ∷ [];
  receipts = receipt ∷ [];
  attempt = 1;
  completed_at = some 70;
  tombstone_id = some 80;
}

abbrev writes : List Effect
writes =
    save_deletion_job (unfold attempted_job in attempted_job job (40 ∷ []))
    ∷ append_receipt receipt
    ∷ complete_deletion_atomically done 80
    ∷ []

job_runs : run_once ports scope reads (some job) ≡ (ok done, writes)
unfolding has_success satisfies_completion completion_is_evidence_bound latest_from latest is_bound
    assert_receipt_binding dispatch with_adapter receipt_for collect required_ids put_latest
    latest_values_from latest_values attempted_job completed_job conclude conclude_or_raise
    dispatch_all run_allowed allowed_or_raise run_once assert_allows
job_runs = refl

completed_needs_receipts_example : IsEvidenced reads job done
completed_needs_receipts_example =
    completed_needs_receipts ports scope reads job done writes job_runs refl refl

job_allowed : allowed scope job ≡ ok tt
unfolding assert_allows
job_allowed = refl

-- An adapter for every name, whose receipts answer the command, and a verifier that accepts them.
abbrev honest : Ports
honest = record {
  adapter = λ name. some (record {
    supports = λ kind. true;
    delete = λ command. ok (record receipt {
      deletion_job_id = command.deletion_job_id;
      replica_id = command.replica.replica_id;
      adapter_name = command.replica.adapter_name;
    });
  });
  verify = λ command r. ok r;
}

abbrev receipt_of : ReplicaLocation → DeletionReceipt
receipt_of r = record receipt { replica_id = r.replica_id; adapter_name = r.adapter_name }

receipt_of_bound : (r : ReplicaLocation) → is_bound scope job r (receipt_of r) ≡ true
unfolding is_bound
receipt_of_bound r = rw (==_refl r.replica_id, ==_refl r.adapter_name) refl

honest-Delivers : Delivers honest scope reads job
honest-Delivers r a e supported = (
  receipt_of r,
  receipt_of r,
  sym (ap (λ (b : ReplicaDeletionAdapter). b.delete (command_for job 1 r)) (some_inj _ _ e)),
  receipt_of_bound r,
  refl,
  receipt_of_bound r,
)

run_once_returns_example : is_ok (run_once honest scope reads (some job)).0 ≡ true
run_once_returns_example = run_once_returns honest scope reads job job_allowed refl honest-Delivers

rerun_completed_example : run_once ports scope reads (some done) ≡ (ok done, [])
rerun_completed_example =
    rerun_completed ports scope reads job done writes ports reads job_runs refl refl

run_once-IsOwn_example : All (IsOwn ports scope reads job) (run_once ports scope reads (some job)).1
run_once-IsOwn_example = run_once-IsOwn ports scope reads job
