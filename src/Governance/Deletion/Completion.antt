-- ===== src/Governance/Deletion/Completion.antt =====
-- The job that a run of the deletion coordinator returns (run_once).
use biaice.Common.{
  ◌+◌, ◌≡◌, refl, Option, Bool-cases, inl, inr, ap, true, false, none, some, List, [], ◌∷◌, ◌++◌,
  all, is_some, is_empty, arith,
}
use biaice.Core.Errors.{Result, ok, is_ok}
use biaice.Core.Scope.{TenantScope, assert_allows}
use biaice.Governance.Deletion.Job.{
  DeletionJob, DeletionReceipt, ReplicaLocation, ScopedObjectRef, has_success, is_completed,
  completion_is_evidence_bound,
}
use biaice.Governance.Deletion.Receipts.{
  Ports, ReplicaDeletionAdapter, Appended, command_for, is_bound, unsupported_receipt,
  assert_receipt_binding, dispatch, with_adapter, receipt_for, collect,
}
use biaice.Governance.Deletion.Run.{
  Effect, Reads, required_ids, attempted_job, completed_job, conclude, conclude_or_raise,
  dispatch_all, run_allowed, allowed_or_raise, run_once,
}
use biaice.Governance.Deletion.Laws.{all-has_success}

-- The scope check of a run.
abbrev pub allowed : TenantScope → DeletionJob → Result (Unit {0})
allowed scope job =
    assert_allows scope job.target.tenant_id job.target.data_domain_id job.target.project_id
      job.target.decision_unit_id

-- What justifies the state COMPLETED: no active hold, blocked access, and for each of the required
-- replicas, of which there is one at least, a receipt that satisfies completion.
pub record IsEvidenced (reads : Reads) (job done : DeletionJob) : Type 0 where
  pub no_hold : reads.active_holds ≡ 0
  pub blocked : is_some job.logical_access_blocked_at ≡ true
  pub some_required : is_empty (required_ids reads.replicas) ≡ false
  pub all_deleted : all (has_success done.receipts) (required_ids reads.replicas) ≡ true
  pub same_target : done.target ≡ job.target

module _ (ports : Ports) (scope : TenantScope) (reads : Reads) (job : DeletionJob) where
  conclude-IsEvidenced :
      (rs : List DeletionReceipt) (before effects : List Effect) (done : DeletionJob)
      → conclude reads (attempted_job job (required_ids reads.replicas)) rs before
        ≡ (ok done, effects)
      → is_completed done.state ≡ true
      → (all (has_success done.receipts) (required_ids reads.replicas) ≡ true)
        × (done.target ≡ job.target)
  unfolding conclude attempted_job completed_job completion_is_evidence_bound
  conclude-IsEvidenced rs before effects done h c =
      ground (arith, all-has_success rs (required_ids reads.replicas))

  conclude_or_raise-IsEvidenced :
      (a : Appended) (effects : List Effect) (done : DeletionJob)
      → conclude_or_raise reads job (attempted_job job (required_ids reads.replicas)) a
        ≡ (ok done, effects)
      → is_completed done.state ≡ true
      → (all (has_success done.receipts) (required_ids reads.replicas) ≡ true)
        × (done.target ≡ job.target)
  unfolding conclude_or_raise
  conclude_or_raise-IsEvidenced (rs, some f) effects done h c = cc
  conclude_or_raise-IsEvidenced (rs, none) effects done h c =
      conclude-IsEvidenced (job.receipts ++ rs) _ effects done h c

  dispatch_all-IsEvidenced :
      (effects : List Effect) (done : DeletionJob)
      → dispatch_all ports scope reads job ≡ (ok done, effects)
      → is_completed done.state ≡ true
      → (is_empty (required_ids reads.replicas) ≡ false)
        × (all (has_success done.receipts) (required_ids reads.replicas) ≡ true)
        × (done.target ≡ job.target)
  unfolding dispatch_all
  dispatch_all-IsEvidenced effects done h c = ground (
    arith,
    conclude_or_raise-IsEvidenced (collect ports scope job (job.attempt + 1) reads.replicas) effects
        done,
  )

  run_allowed-IsEvidenced :
      (effects : List Effect) (done : DeletionJob)
      → run_allowed ports scope reads job ≡ (ok done, effects)
      → is_completed job.state ≡ false
      → is_completed done.state ≡ true
      → IsEvidenced reads job done
  unfolding run_allowed
  run_allowed-IsEvidenced effects done h n c =
      let dispatched = dispatch_all-IsEvidenced effects done in
      record {
        no_hold = ground (arith, dispatched);
        blocked = ground (arith, dispatched);
        some_required = ground (arith, dispatched);
        all_deleted = ground (arith, dispatched);
        same_target = ground (arith, dispatched);
      }

-- A run that takes a job to COMPLETED found no active hold, found logical access blocked, and
-- returns, for each of the required replicas, of which there is one at least, a verified receipt
-- of success.
pub completed_needs_receipts :
    (ports : Ports) (scope : TenantScope) (reads : Reads) (job done : DeletionJob)
    (effects : List Effect)
    → run_once ports scope reads (some job) ≡ (ok done, effects)
    → is_completed job.state ≡ false
    → is_completed done.state ≡ true
    → IsEvidenced reads job done
unfolding run_once allowed_or_raise
completed_needs_receipts ports scope reads job done effects h n c =
    run_allowed-IsEvidenced ports scope reads job effects done (ground arith) n c

module _ (ports : Ports) (scope : TenantScope) (reads : Reads) (job : DeletionJob) where
  conclude_returns :
      (rs : List DeletionReceipt) (before : List Effect)
      → is_some job.logical_access_blocked_at ≡ true
      → is_ok (conclude reads (attempted_job job (required_ids reads.replicas)) rs before).0 ≡ true
  unfolding conclude attempted_job completed_job completion_is_evidence_bound
  conclude_returns rs before b = ground (arith, all-has_success rs (required_ids reads.replicas))

  conclude_or_raise_returns :
      (a : Appended)
      → a.1 ≡ none
      → is_some job.logical_access_blocked_at ≡ true
      → is_ok (conclude_or_raise reads job (attempted_job job (required_ids reads.replicas)) a).0
        ≡ true
  unfolding conclude_or_raise
  conclude_or_raise_returns (rs, some f) quiet b = cc
  conclude_or_raise_returns (rs, none) quiet b = conclude_returns (job.receipts ++ rs) _ b

  -- Under the adapters and the verifier every replica with an adapter for its kind ends in a receipt: the adapter's
  -- and the verifier's answers are bound to the job, the scope and the replica.
  abbrev pub Delivers : Type 0
  Delivers =
      (replica : ReplicaLocation) (a : ReplicaDeletionAdapter)
      → ports.adapter replica.adapter_name ≡ some a
      → a.supports replica.kind ≡ true
      → (raw receipt : DeletionReceipt) × (a.delete (command_for job (job.attempt + 1) replica)
          ≡ ok raw)
        × (is_bound scope job replica raw ≡ true)
        × (ports.verify (command_for job (job.attempt + 1) replica) raw ≡ ok receipt)
        × (is_bound scope job replica receipt ≡ true)

  receipt_for_ok :
      Delivers
      → (replica : ReplicaLocation)
      → (r : DeletionReceipt) × (receipt_for ports scope job (job.attempt + 1) replica ≡ ok r)
  unfolding receipt_for with_adapter dispatch assert_receipt_binding
  receipt_for_ok delivers replica = by_adapter (ports.adapter replica.adapter_name) refl
    where
      by_adapter :
          (o : Option ReplicaDeletionAdapter)
          → ports.adapter replica.adapter_name ≡ o
          → (r : DeletionReceipt) × (with_adapter ports scope job (job.attempt + 1) replica o
              ≡ ok r)
      by_adapter none e = (unsupported_receipt scope job replica, refl)
      by_adapter (some a) e = elim (Bool-cases (a.supports replica.kind)) [
        | inl supported ↦
            let (raw, receipt, deleted, raw_bound, verified, bound) =
              delivers replica a e supported in
            (receipt, rw (supported, deleted, raw_bound, verified, bound) refl)
        | inr other ↦ (unsupported_receipt scope job replica, rw other refl)
      ]

  collect_quiet :
      Delivers
      → (rs : List ReplicaLocation) → (collect ports scope job (job.attempt + 1) rs).1 ≡ none
  unfolding collect
  collect_quiet delivers [] = refl
  collect_quiet delivers (replica ∷ rs) =
      let (r, made) = receipt_for_ok delivers replica in
      rw made (ground (arith, collect_quiet delivers rs))

  -- Where the scope allows the job, its access is blocked, and no adapter or verifier raises or returns
  -- a receipt that is not bound to the job, the scope and the replica, a run returns.
  pub run_once_returns :
      allowed scope job ≡ ok tt
      → is_some job.logical_access_blocked_at ≡ true
      → Delivers
      → is_ok (run_once ports scope reads (some job)).0 ≡ true
  unfolding run_once allowed_or_raise run_allowed dispatch_all
  run_once_returns a b delivers = rw a (
      ground (
        arith,
        conclude_or_raise_returns (collect ports scope job (job.attempt + 1) reads.replicas),
        collect_quiet delivers reads.replicas,
      ))

  -- A job that a run took to COMPLETED is returned as it is by every later run in the same scope,
  -- which writes nothing.
  pub rerun_completed :
      (done : DeletionJob) (effects : List Effect) (later_ports : Ports) (later : Reads)
      → run_once ports scope reads (some job) ≡ (ok done, effects)
      → is_completed job.state ≡ false
      → is_completed done.state ≡ true
      → run_once later_ports scope later (some done) ≡ (ok done, [])
  unfolding run_once allowed_or_raise run_allowed
  rerun_completed done effects later_ports later h n c =
      let evidence = completed_needs_receipts ports scope reads job done effects h n c in
      let a : allowed scope done ≡ allowed scope job =
        ap
          (λ (t : ScopedObjectRef).
            assert_allows scope t.tenant_id t.data_domain_id t.project_id t.decision_unit_id)
          evidence.same_target in
      rw a (ground arith)
