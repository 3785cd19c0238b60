-- ===== src/Governance/Deletion/Laws.antt =====
-- The receipts that a run appends, and the last receipt of each replica.
use biaice.Common.{
  ℕ, ◌≡◌, refl, ap, ◌∙◌, ◌⊎◌, inl, inr, true, false, Option, none, some, List, [], ◌∷◌, ◌==◌,
  ==_refl, all, All, if◌then◌else◌, arith, Bool-cases, Option-cases, &&_split,
}
use biaice.Core.Errors.{Result, ok, err, ◌>>=◌, ◌>>◌, >>=-eq-ok}
use biaice.Core.Scope.{TenantScope}
use biaice.Governance.Deletion.Job.{
  DeletionJob, DeletionReceipt, ReplicaLocation, satisfies_completion, has_success,
}
use biaice.Governance.Deletion.Receipts.{
  Ports, ReplicaDeletionAdapter, DeletionReplicaCommand, Appended, latest, latest_from,
  is_satisfied, is_bound, assert_receipt_binding, unsupported_receipt, dispatch, with_adapter,
  receipt_for, collect, prepended,
}
use biaice.Governance.Deletion.Run.{latest_values, latest_values_from, put_latest}

-- The first receipt for a replica.
first_for : List DeletionReceipt → ℕ → Option DeletionReceipt
first_for [] i = none
first_for (r ∷ rs) i = if r.replica_id == i then some r else first_for rs i

first_for-put_latest :
    (r : DeletionReceipt) (acc : List DeletionReceipt) (i : ℕ)
    → first_for (put_latest r acc) i ≡ (if r.replica_id == i then some r else first_for acc i)
unfolding first_for put_latest
first_for-put_latest r [] i = refl
first_for-put_latest r (x ∷ acc) i = ground (arith, first_for-put_latest r acc i)

first_for-latest_values :
    (acc rs : List DeletionReceipt) (i : ℕ)
    → first_for (latest_values_from acc rs) i ≡ latest_from (first_for acc i) rs i
unfolding latest_values_from latest_from
first_for-latest_values acc [] i = refl
first_for-latest_values acc (r ∷ rs) i =
    first_for-latest_values (put_latest r acc) rs i
    ∙ ap (λ o. latest_from o rs i) (first_for-put_latest r acc i)

satisfied_first :
    (rs : List DeletionReceipt) (i : ℕ)
    → is_satisfied (first_for rs i) ≡ true
    → has_success rs i ≡ true
unfolding first_for has_success
satisfied_first [] i h = cc
satisfied_first (r ∷ rs) i h = ground (arith, satisfied_first rs i)

-- A replica whose last receipt satisfies completion has such a receipt among the last ones.
pub has_success-latest_values :
    (rs : List DeletionReceipt) (i : ℕ)
    → is_satisfied (latest rs i) ≡ true
    → has_success (latest_values rs) i ≡ true
unfolding latest latest_values first_for
has_success-latest_values rs i h =
    satisfied_first (latest_values_from [] rs) i (rw (first_for-latest_values [] rs i) h)

pub all-has_success :
    (rs : List DeletionReceipt) (is : List ℕ)
    → all (λ i. is_satisfied (latest rs i)) is ≡ true
    → all (has_success (latest_values rs)) is ≡ true
all-has_success rs [] h = refl
all-has_success rs (i ∷ is) h =
    let (a, b) =
      &&_split (is_satisfied (latest rs i)) (all (λ k. is_satisfied (latest rs k)) is) h in
    rw (has_success-latest_values rs i a) (all-has_success rs is b)

module _ (ports : Ports) (scope : TenantScope) (job : DeletionJob) (attempt : ℕ) where
  -- A receipt is for the job and the scope of the run and for a replica that lacked a satisfying
  -- receipt, and one that satisfies completion is what the verifier returned.
  pub record IsFitting (r : DeletionReceipt) : Type 0 where
    pub job_id : r.deletion_job_id ≡ job.deletion_job_id
    pub tenant : r.tenant_id ≡ scope.tenant_id
    pub domain : r.data_domain_id ≡ scope.data_domain_id
    pub needed : is_satisfied (latest job.receipts r.replica_id) ≡ false
    pub verified_by :
        satisfies_completion r ≡ true
        → (c : DeletionReplicaCommand) × (raw : DeletionReceipt) × (ports.verify c raw ≡ ok r)

  dispatch_bound :
      (replica : ReplicaLocation) (a : ReplicaDeletionAdapter) {r : DeletionReceipt}
      → dispatch ports scope job attempt replica a ≡ ok r
      → is_bound scope job replica r ≡ true
  unfolding dispatch assert_receipt_binding
  dispatch_bound replica a h = ground arith

  dispatch_verified :
      (replica : ReplicaLocation) (a : ReplicaDeletionAdapter) {r : DeletionReceipt}
      → dispatch ports scope job attempt replica a ≡ ok r
      → (c : DeletionReplicaCommand) × (raw : DeletionReceipt) × (ports.verify c raw ≡ ok r)
  unfolding dispatch assert_receipt_binding
  dispatch_verified replica a {r} h =
      let c : DeletionReplicaCommand = record {
        deletion_job_id = job.deletion_job_id;
        replica = replica;
        attempt = attempt;
      } in
      let after_raw : DeletionReceipt → Result DeletionReceipt =
        (λ receipt. assert_receipt_binding scope job replica receipt >> ok receipt) in
      let (raw, deleted, rest) =
        >>=-eq-ok (a.delete c)
          (λ raw.
            assert_receipt_binding scope job replica raw >> (ports.verify c raw >>= after_raw))
          h in
      let (u, bound, more) =
        >>=-eq-ok (assert_receipt_binding scope job replica raw)
          (λ _. ports.verify c raw >>= after_raw) rest in
      let (receipt, checked, last_check) = >>=-eq-ok (ports.verify c raw) after_raw more in
      let same : receipt ≡ r = ground arith in (c, raw, checked ∙ ap ok same)

  bound_fits :
      (replica : ReplicaLocation) (r : DeletionReceipt)
      → is_satisfied (latest job.receipts replica.replica_id) ≡ false
      → is_bound scope job replica r ≡ true
      → (satisfies_completion r ≡ true
          → (c : DeletionReplicaCommand) × (raw : DeletionReceipt) × (ports.verify c raw ≡ ok r))
      → IsFitting r
  unfolding is_bound
  bound_fits replica r missing bound checked = record {
    job_id = ground arith;
    tenant = ground arith;
    domain = ground arith;
    needed = (let same : r.replica_id ≡ replica.replica_id = ground arith in rw same missing);
    verified_by = checked;
  }

  unsupported_fits :
      (replica : ReplicaLocation) (r : DeletionReceipt)
      → is_satisfied (latest job.receipts replica.replica_id) ≡ false
      → ok (unsupported_receipt scope job replica) ≡ ok r
      → IsFitting r
  unfolding unsupported_receipt is_bound satisfies_completion
  unsupported_fits replica r missing h =
      bound_fits replica r missing
        (ground (
          arith,
          ==_refl job.deletion_job_id,
          ==_refl replica.replica_id,
          ==_refl scope.tenant_id,
          ==_refl scope.data_domain_id,
          ==_refl replica.adapter_name,
        ))
        (λ s. ground arith)

  adapter_fits :
      (replica : ReplicaLocation) (a : ReplicaDeletionAdapter) (r : DeletionReceipt)
      → is_satisfied (latest job.receipts replica.replica_id) ≡ false
      → ports.adapter replica.adapter_name ≡ some a
      → receipt_for ports scope job attempt replica ≡ ok r
      → (a.supports replica.kind ≡ true) ⊎ (a.supports replica.kind ≡ false)
      → IsFitting r
  unfolding receipt_for with_adapter
  adapter_fits replica a r missing there h (inl y) =
      let sent : dispatch ports scope job attempt replica a ≡ ok r = ground arith in
      bound_fits replica r missing (dispatch_bound replica a sent)
        (λ _. dispatch_verified replica a sent)
  adapter_fits replica a r missing there h (inr n) =
      unsupported_fits replica r missing (ground arith)

  receipt_for_fits :
      (replica : ReplicaLocation) (r : DeletionReceipt)
      → is_satisfied (latest job.receipts replica.replica_id) ≡ false
      → receipt_for ports scope job attempt replica ≡ ok r
      → IsFitting r
  unfolding receipt_for with_adapter
  receipt_for_fits replica r missing h = elim (Option-cases (ports.adapter replica.adapter_name)) [
    | inl gone ↦ unsupported_fits replica r missing (ground arith)
    | inr there ↦
        adapter_fits replica there.0 r missing there.1 h
          (Bool-cases (there.0.supports replica.kind))
  ]

  prepended_fits :
      (replica : ReplicaLocation) (m : Result DeletionReceipt) (rest : Appended)
      → is_satisfied (latest job.receipts replica.replica_id) ≡ false
      → receipt_for ports scope job attempt replica ≡ m
      → All IsFitting rest.0
      → All IsFitting (prepended ports scope job attempt m rest).0
  prepended_fits replica (ok r) rest missing h fits = (receipt_for_fits replica r missing h, fits)
  prepended_fits replica (err f) rest missing h fits = tt

  -- Every receipt that the loop appends fits.
  pub collect_fits :
      (replicas : List ReplicaLocation) → All IsFitting (collect ports scope job attempt replicas).0
  unfolding collect
  collect_fits [] = tt
  collect_fits (replica ∷ replicas) =
      elim (Bool-cases (is_satisfied (latest job.receipts replica.replica_id))) [
        | inl y ↦ rw y (collect_fits replicas)
        | inr n ↦ rw n (
            prepended_fits replica (receipt_for ports scope job attempt replica)
              (collect ports scope job attempt replicas) n refl (collect_fits replicas))
      ]
