-- ===== src/Governance/Deletion/Effects.antt =====
-- The writes of a run of the deletion coordinator (run_once), whether it returns or raises.
use biaice.Common.{
  ℕ, ◌+◌, ◌≡◌, refl, true, false, none, some, List, [], ◌∷◌, ◌++◌, map, ◌==◌, all, All, All-append,
  is_some, is_empty, if◌then◌else◌, Bool-cases, ==→≡, ◌⊎◌, inl, inr,
}
use biaice.Core.Errors.{Failure, validation_error, Result, ok, err}
use biaice.Core.Scope.{TenantScope}
use biaice.Governance.Deletion.Job.{
  DeletionJob, DeletionReceipt, is_completed, completion_is_evidence_bound,
}
use biaice.Governance.Deletion.Receipts.{Ports, Appended, collect, latest, is_satisfied}
use biaice.Governance.Deletion.Run.{
  Effect, save_deletion_job, append_receipt, complete_deletion_atomically, Reads, Outcome,
  required_ids, latest_values, attempted_job, completed_job, conclude, conclude_or_raise,
  dispatch_all, run_allowed, allowed_or_raise, run_once,
}
use biaice.Governance.Deletion.Laws.{IsFitting, collect_fits}
use biaice.Governance.Deletion.Completion.{allowed}

ok_or_err : (m : Result (Unit {0})) → (m ≡ ok tt) ⊎ ((f : Failure) × (m ≡ err f))
ok_or_err (ok tt) = inl refl
ok_or_err (err f) = inr (f, refl)

-- A job that is the given one in all but its progress.
pub record IsSameJob (job j : DeletionJob) : Type 0 where
  pub id : j.deletion_job_id ≡ job.deletion_job_id
  pub target : j.target ≡ job.target
  pub blocked : j.logical_access_blocked_at ≡ job.logical_access_blocked_at

module _ (ports : Ports) (scope : TenantScope) (reads : Reads) (job : DeletionJob) where
  -- Deletion has been let through: the scope allows it, it is not complete, access is blocked, and
  -- no hold is active.
  pub record IsReleased : Type 0 where
    pub in_scope : allowed scope job ≡ ok tt
    pub incomplete : is_completed job.state ≡ false
    pub blocked : is_some job.logical_access_blocked_at ≡ true
    pub no_hold : reads.active_holds ≡ 0

  -- A write is the run's own: a save is of the same job, a receipt is appended and a completion is
  -- made only of a released job, and the receipt fits.
  abbrev pub IsOwn : Effect → Type 0
  IsOwn (save_deletion_job j) = IsSameJob job j
  IsOwn (append_receipt r) = IsReleased × IsFitting ports scope job (job.attempt + 1) r
  IsOwn (complete_deletion_atomically j t) =
      IsReleased
      × IsSameJob job j
      × (is_completed j.state ≡ true)
      × (completion_is_evidence_bound j ≡ true)

  appended-IsOwn :
      (rs : List DeletionReceipt)
      → IsReleased
      → All (IsFitting ports scope job (job.attempt + 1)) rs
      → All IsOwn (map append_receipt rs)
  appended-IsOwn [] released h = tt
  appended-IsOwn (r ∷ rs) released h = ((released, h.0), appended-IsOwn rs released h.1)

  abbrev completing : DeletionJob → List Effect → ℕ → Outcome
  completing j before t =
      if completion_is_evidence_bound j
      then (ok j, before ++ complete_deletion_atomically j t ∷ [])
      else (err validation_error, before)

  completing-IsOwn :
      (j : DeletionJob) (before : List Effect) (t : ℕ)
      → IsReleased
      → IsSameJob job j
      → is_completed j.state ≡ true
      → All IsOwn before
      → All IsOwn (completing j before t).1
  completing-IsOwn j before t released same c h =
      elim (Bool-cases (completion_is_evidence_bound j)) [
        | inl y ↦ rw y (All-append IsOwn before _ h ((released, same, c, y), tt))
        | inr n ↦ rw n h
      ]

  conclude-IsOwn :
      (rs : List DeletionReceipt) (before : List Effect)
      → IsReleased
      → All IsOwn before
      → All IsOwn (conclude reads (attempted_job job (required_ids reads.replicas)) rs before).1
  unfolding conclude attempted_job completed_job
  conclude-IsOwn rs before released h =
      let is = required_ids reads.replicas in
      elim (Bool-cases (all (λ i. is_satisfied (latest rs i)) is)) [
        | inl y ↦ rw y (
            completing-IsOwn (completed_job reads (attempted_job job is) (latest_values rs)) before
              reads.new_tombstone_id released (record { id = refl; target = refl; blocked = refl })
              refl h)
        | inr n ↦
            rw n (
              All-append IsOwn before _ h (record { id = refl; target = refl; blocked = refl }, tt))
      ]

  conclude_or_raise-IsOwn :
      (a : Appended)
      → IsReleased
      → All (IsFitting ports scope job (job.attempt + 1)) a.0
      → All IsOwn
          (conclude_or_raise reads job (attempted_job job (required_ids reads.replicas)) a).1
  unfolding conclude_or_raise attempted_job
  conclude_or_raise-IsOwn (rs, some f) released h =
      (record { id = refl; target = refl; blocked = refl }, appended-IsOwn rs released h)
  conclude_or_raise-IsOwn (rs, none) released h =
      conclude-IsOwn (job.receipts ++ rs) _ released
        (record { id = refl; target = refl; blocked = refl }, appended-IsOwn rs released h)

  dispatch_all-IsOwn : IsReleased → All IsOwn (dispatch_all ports scope reads job).1
  unfolding dispatch_all
  dispatch_all-IsOwn released = elim (Bool-cases (is_empty (required_ids reads.replicas))) [
    | inl e ↦ rw e (record { id = refl; target = refl; blocked = refl }, tt)
    | inr n ↦ rw n (
        conclude_or_raise-IsOwn (collect ports scope job (job.attempt + 1) reads.replicas) released
          (collect_fits ports scope job (job.attempt + 1) reads.replicas))
  ]

  run_allowed-IsOwn : allowed scope job ≡ ok tt → All IsOwn (run_allowed ports scope reads job).1
  unfolding run_allowed
  run_allowed-IsOwn a = elim (Bool-cases (is_completed job.state)) [
    | inl y ↦ rw y tt
    | inr open_job ↦ rw open_job (elim (Bool-cases (is_some job.logical_access_blocked_at)) [
      | inr n ↦ rw n tt
      | inl b ↦ rw b (elim (Bool-cases (reads.active_holds == 0)) [
        | inr n ↦ rw n (record { id = refl; target = refl; blocked = refl }, tt)
        | inl z ↦ rw z (
            dispatch_all-IsOwn (record {
              in_scope = a;
              incomplete = open_job;
              blocked = b;
              no_hold = ==→≡ reads.active_holds 0 z;
            }))
      ])
    ])
  ]

-- Every write of a run is its own. Receipts are appended and a deletion is completed only if the
-- scope allows the job, the job is not complete, its access is blocked and no hold is active; each
-- appended receipt names the job and the scope of the run and a replica that lacked a receipt of
-- success, and it comes from the verifier if it claims success; a completed job carries its evidence.
pub run_once-IsOwn :
    (ports : Ports) (scope : TenantScope) (reads : Reads) (job : DeletionJob)
    → All (IsOwn ports scope reads job) (run_once ports scope reads (some job)).1
unfolding run_once allowed_or_raise
run_once-IsOwn ports scope reads job = elim (ok_or_err (allowed scope job)) [
  | inl a ↦ rw a (run_allowed-IsOwn ports scope reads job a)
  | inr refused ↦ rw refused.1 tt
]
