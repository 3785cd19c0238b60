-- ===== src/Commercial/Baselines.antt =====
-- What holds of every stored cost baseline after any calls to the commercial service
-- (modules/commercial/application/services.py).
use biaice.Common.{
  ℕ, ◌≡◌, refl, subst, Bool, true, false, not, ◌&&◌, Option, none, some, List, [], ◌∷◌, ◌==◌,
  is_some, if◌then◌else◌, arith,
}
use biaice.Common.Dict.{lookup, Each, Each-insert}
use biaice.Core.Errors.{
  Failure, ok, err, >>=-eq-ok, raise_if, raise_if-eq-ok, or_raise-eq-ok, ok_inj,
}
use biaice.Core.Scope.{TenantScope, IdentityContext}
use biaice.Commercial.Model.{approved, CostBaseline, cost_valid, currencies_align, is_published}
use biaice.Commercial.Store.{
  Store, upsert_cost, upsert_policy, upsert_readiness, cost_shown, get_cost, emit_event,
  write_audit, commit-keeps,
}
use biaice.Commercial.Costs.{
  assert_unit, CostRequest, new_cost, check_cost, cost_reported, create_cost_baseline,
  get_cost_baseline, check_approval, approval_reported, approve_cost_baseline, is_approved,
  is_draft, check_publication, publication_reported, publish_cost_baseline, PolicyRequest,
  check_policy, policy_reported, create_policy, check_policy_publication,
  policy_publication_reported, publish_policy,
}
use biaice.Commercial.Readiness.{
  ReadinessReads, check_readiness, readiness_reported, create_readiness,
}

-- The model's validators accept the baseline; it is for exploration only while it is a draft; someone
-- has approved it exactly if its review says so; and it is published only if so.
abbrev pub GoodCost : CostBaseline → Type 0
GoodCost i =
    (cost_valid i ≡ true)
    × (i.exploration_only ≡ is_draft i.lifecycle_state)
    × (is_some i.approved_by ≡ is_approved i.review_state)
    × (is_published i.lifecycle_state ≡ true → is_some i.approved_by ≡ true)

abbrev pub SoundCosts : Store → Type 0
SoundCosts s = Each (λ k i. (i.cost_baseline_id ≡ k) × GoodCost i) s.costs

SoundCosts-upsert :
    (i : CostBaseline) (s : Store) → GoodCost i → SoundCosts s → SoundCosts (upsert_cost i s)
unfolding upsert_cost
SoundCosts-upsert i s good sound =
    Each-insert (λ k i. (i.cost_baseline_id ≡ k) × GoodCost i) i.cost_baseline_id i s.costs
      (refl, good) sound

cost_shown-eq-some :
    (scope : TenantScope) (o : Option CostBaseline) {i : CostBaseline}
    → cost_shown scope o ≡ some i
    → o ≡ some i
cost_shown-eq-some scope none h = cc
cost_shown-eq-some scope (some j) h = ground arith

read_cost :
    (identity : IdentityContext) (id : ℕ) (s : Store) {i : CostBaseline}
    → SoundCosts s
    → get_cost_baseline identity id s ≡ ok i
    → GoodCost i
unfolding get_cost_baseline get_cost
read_cost identity id s {i} sound h =
    (sound id i (cost_shown-eq-some identity.scope (lookup id s.costs) (or_raise-eq-ok _ _ h))).1

ok_if :
    {A : Type 0} (b : Bool) (f : Failure) (x : A) {y : A}
    → (if b then ok x else err f) ≡ ok y
    → (b ≡ true) × (x ≡ y)
ok_if true f x h = (refl, cc)
ok_if false f x h = cc

check_cost-GoodCost :
    (identity : IdentityContext) (q : CostRequest) {i : CostBaseline}
    → check_cost identity q ≡ ok i
    → GoodCost i
unfolding check_cost new_cost
check_cost-GoodCost identity q h =
    let a = >>=-eq-ok (assert_unit identity q.decision_unit_id) _ h in
    let (valid, e) = ok_if (cost_valid (new_cost identity q)) _ _ (a.2) in
    subst GoodCost e (valid, refl, refl, λ p. cc)

approved_by_other :
    (i : CostBaseline) (who now : ℕ)
    → cost_valid i ≡ true
    → (who == i.created_by) ≡ false
    → cost_valid
        (record i { review_state = approved; approved_at = some now; approved_by = some who })
      ≡ true
unfolding cost_valid currencies_align
approved_by_other i who now valid other = ground arith

check_approval-GoodCost :
    (identity : IdentityContext) (id now : ℕ) (s : Store) {i : CostBaseline}
    → SoundCosts s
    → check_approval identity id now s ≡ ok i
    → GoodCost i
unfolding check_approval
check_approval-GoodCost identity id now s sound h =
    let (i, found, checked) = >>=-eq-ok (get_cost_baseline identity id s) _ h in
    let a = >>=-eq-ok (raise_if (identity.subject_id == i.created_by) _) _ checked in
    let b = >>=-eq-ok (raise_if (is_some i.approved_by) _) _ (a.2) in
    let other = raise_if-eq-ok (identity.subject_id == i.created_by) _ a.1 in
    let (valid, exploring, _, _) = read_cost identity id s sound found in
    subst GoodCost (ok_inj b.2)
      (approved_by_other i identity.subject_id now valid other, exploring, refl, λ _. refl)

check_publication-GoodCost :
    (identity : IdentityContext) (id now : ℕ) (s : Store) {i : CostBaseline}
    → SoundCosts s
    → check_publication identity id now s ≡ ok i
    → GoodCost i
unfolding check_publication cost_valid currencies_align
check_publication-GoodCost identity id now s sound h =
    let (i, found, checked) = >>=-eq-ok (get_cost_baseline identity id s) _ h in
    let a =
      >>=-eq-ok (raise_if (not (is_approved i.review_state && is_some i.approved_by)) _) _
        checked in
    let b = >>=-eq-ok (raise_if (not (is_draft i.lifecycle_state)) _) _ (a.2) in
    let approved_now =
      raise_if-eq-ok (not (is_approved i.review_state && is_some i.approved_by)) _ a.1 in
    let (valid, exploring, agreed, _) = read_cost identity id s sound found in
    subst GoodCost (ok_inj b.2) (
      valid,
      refl,
      agreed,
      λ _. by_other (is_approved i.review_state) (is_some i.approved_by) approved_now,
    )
  where
    by_other : (x y : Bool) → not (x && y) ≡ false → y ≡ true
    by_other x y h = ground arith

-- The calls that change the store.
pub data Command : Type 0 where
  add_cost : CostRequest → Command
  approve_cost : (id now : ℕ) → Command
  publish_cost : (id now : ℕ) → Command
  add_policy : PolicyRequest → Command
  publish_terms : (id now : ℕ) → Command
  assess : ℕ → ReadinessReads → Command

abbrev pub after : IdentityContext → Command → Store → Store
after identity (add_cost q) s = (create_cost_baseline identity q s).1
after identity (approve_cost id now) s = (approve_cost_baseline identity id now s).1
after identity (publish_cost id now) s = (publish_cost_baseline identity id now s).1
after identity (add_policy q) s = (create_policy identity q s).1
after identity (publish_terms id now) s = (publish_policy identity id now s).1
after identity (assess unit reads) s = (create_readiness identity unit reads s).1

after-SoundCosts :
    (identity : IdentityContext) (c : Command) (s : Store)
    → SoundCosts s
    → SoundCosts (after identity c s)
unfolding create_cost_baseline approve_cost_baseline publish_cost_baseline create_policy
    publish_policy create_readiness upsert_policy upsert_readiness write_audit emit_event
after-SoundCosts identity (add_cost q) s sound =
    commit-keeps upsert_cost (cost_reported identity) SoundCosts s (check_cost identity q)
      (λ i h.
        let kept = SoundCosts-upsert i s (check_cost-GoodCost identity q h) sound in (kept, kept))
      sound
after-SoundCosts identity (approve_cost id now) s sound =
    commit-keeps upsert_cost (approval_reported identity) SoundCosts s
      (check_approval identity id now s)
      (λ i h.
        let kept =
          SoundCosts-upsert i s (check_approval-GoodCost identity id now s sound h) sound in
        (kept, kept))
      sound
after-SoundCosts identity (publish_cost id now) s sound =
    commit-keeps upsert_cost (publication_reported identity) SoundCosts s
      (check_publication identity id now s)
      (λ i h.
        let kept =
          SoundCosts-upsert i s (check_publication-GoodCost identity id now s sound h) sound in
        (kept, kept))
      sound
after-SoundCosts identity (add_policy q) s sound =
    commit-keeps upsert_policy (policy_reported identity) SoundCosts s (check_policy identity q)
      (λ i _. (sound, sound)) sound
after-SoundCosts identity (publish_terms id now) s sound =
    commit-keeps upsert_policy (policy_publication_reported identity) SoundCosts s
      (check_policy_publication identity id now s) (λ i _. (sound, sound)) sound
after-SoundCosts identity (assess unit reads) s sound =
    commit-keeps upsert_readiness (readiness_reported identity) SoundCosts s
      (check_readiness identity unit reads s) (λ i _. (sound, sound)) sound

abbrev pub empty_store : Bool → Bool → Store
empty_store audit outbox = record {
  costs = [];
  policies = [];
  readiness = [];
  audit = [];
  outbox = [];
  audit_available = audit;
  outbox_configured = outbox;
}

-- The commands one after the other, each by the identity that comes with it.
unfoldable pub run : List (IdentityContext × Command) → Store → Store
run [] s = s
run ((identity, c) ∷ cs) s = run cs (after identity c s)

run-SoundCosts :
    (cs : List (IdentityContext × Command)) (s : Store) → SoundCosts s → SoundCosts (run cs s)
unfolding run
run-SoundCosts [] s sound = sound
run-SoundCosts ((identity, c) ∷ cs) s sound =
    run-SoundCosts cs _ (after-SoundCosts identity c s sound)

-- After any calls, every stored cost baseline passes its model's validators, so nobody has approved a
-- baseline of their own; it is for exploration only exactly while it is a draft; and it is published
-- only if someone has approved it.
pub run-GoodCost :
    (cs : List (IdentityContext × Command)) (audit outbox : Bool) (k : ℕ) (i : CostBaseline)
    → lookup k (run cs (empty_store audit outbox)).costs ≡ some i
    → GoodCost i
unfolding lookup
run-GoodCost cs audit outbox k i at =
    (run-SoundCosts cs (empty_store audit outbox) (λ j w h. cc) k i at).1
