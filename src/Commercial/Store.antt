-- ===== src/Commercial/Store.antt =====
-- The in-memory repository of the commercial module (modules/commercial/application/repository.py), and
-- the audit log and the outbox that its service writes to. The locks are left out: a call is one step.
use biaice.Common.{
  ℕ, ◌≡◌, refl, Bool, true, false, ◌&&◌, ◌||◌, Option, none, some, List, [], ◌∷◌, ◌++◌, ◌==◌, ltb,
  keep, if◌then◌else◌,
}
use biaice.Common.Dict.{Dict, lookup, insert}
use biaice.Core.Errors.{Result, ok, err, stable}
use biaice.Core.Errors.Code.{audit_unavailable}
use biaice.Core.Scope.{TenantScope, scope_matches}
use biaice.Commercial.Model.{CostBaseline, CommercialPolicy, StrategyReadinessAssessment}

pub data Action : Type 0 where
  cost_created cost_approved cost_released policy_created policy_released readiness_assessed :
      Action

-- An audit entry or an outbox event: what happened to which object.
pub record Notice : Type 0 where
  pub action : Action
  pub actor_id : ℕ
  pub object_id : ℕ

pub record Store : Type 0 where
  pub costs : Dict CostBaseline
  pub policies : Dict CommercialPolicy
  pub readiness : Dict StrategyReadinessAssessment
  pub audit : List Notice
  pub outbox : List Notice
  pub audit_available : Bool
  pub outbox_configured : Bool

unfoldable pub upsert_cost : CostBaseline → Store → Store
upsert_cost i s = record s { costs = insert i.cost_baseline_id i s.costs }

unfoldable pub upsert_policy : CommercialPolicy → Store → Store
upsert_policy i s = record s { policies = insert i.policy_id i s.policies }

unfoldable pub upsert_readiness : StrategyReadinessAssessment → Store → Store
upsert_readiness i s = record s { readiness = insert i.readiness_id i s.readiness }

abbrev pub cost_shown : TenantScope → Option CostBaseline → Option CostBaseline
cost_shown scope none = none
cost_shown scope (some i) =
    if scope_matches scope i.tenant_id i.data_domain_id i.project_id i.decision_unit_id
    then some i
    else none

unfoldable pub get_cost : TenantScope → ℕ → Store → Option CostBaseline
get_cost scope id s = cost_shown scope (lookup id s.costs)

abbrev pub policy_shown : TenantScope → Option CommercialPolicy → Option CommercialPolicy
policy_shown scope none = none
policy_shown scope (some i) =
    if scope_matches scope i.tenant_id i.data_domain_id i.project_id i.decision_unit_id
    then some i
    else none

unfoldable pub get_policy : TenantScope → ℕ → Store → Option CommercialPolicy
get_policy scope id s = policy_shown scope (lookup id s.policies)

module _ {V : Type 0} (created_at : V → ℕ) where
  -- The order of `(created_at, str(id))`: the texts of UUIDs are ordered as their numbers are.
  abbrev earlier : ℕ × V → ℕ × V → Bool
  earlier (k, v) (j, w) =
      ltb (created_at v) (created_at w) || (created_at v == created_at w && ltb k j)

  unfoldable pub insert_entry : ℕ × V → Dict V → Dict V
  insert_entry e [] = e ∷ []
  insert_entry e (f ∷ es) =
      let rest = insert_entry e es in if earlier e f then e ∷ f ∷ es else f ∷ rest

  unfoldable pub sort_entries : Dict V → Dict V
  unfolding insert_entry
  sort_entries [] = []
  sort_entries (e ∷ es) = insert_entry e (sort_entries es)

abbrev cost_of_unit : TenantScope → ℕ → ℕ × CostBaseline → Bool
cost_of_unit scope unit (k, i) =
    scope_matches scope i.tenant_id i.data_domain_id i.project_id i.decision_unit_id
    && i.decision_unit_id == unit

unfoldable pub list_costs : TenantScope → ℕ → Store → Dict CostBaseline
unfolding sort_entries
list_costs scope unit s = sort_entries (λ i. i.created_at) (keep (cost_of_unit scope unit) s.costs)

abbrev policy_of_unit : TenantScope → ℕ → ℕ × CommercialPolicy → Bool
policy_of_unit scope unit (k, i) =
    scope_matches scope i.tenant_id i.data_domain_id i.project_id i.decision_unit_id
    && i.decision_unit_id == unit

unfoldable pub list_policies : TenantScope → ℕ → Store → Dict CommercialPolicy
unfolding sort_entries
list_policies scope unit s =
    sort_entries (λ i. i.created_at) (keep (policy_of_unit scope unit) s.policies)

abbrev notice : Action → ℕ → ℕ → Notice
notice action actor object = record { action = action; actor_id = actor; object_id = object }

-- The outbox port is taken to accept what it is told.
unfoldable pub emit_event : Action → ℕ → ℕ → Store → Store
emit_event action actor object s = record s {
  outbox = if s.outbox_configured then s.outbox ++ notice action actor object ∷ [] else s.outbox;
}

unfoldable pub write_audit : Action → ℕ → ℕ → Store → Store
write_audit action actor object s = record s { audit = s.audit ++ notice action actor object ∷ [] }

-- A call stores its item, then writes to the audit log, or raises where there is none, and then does
-- what is left. What it has stored stays.
module _ {A : Type 0} (save : A → Store → Store) (report : A → Store → Store) where
  abbrev audited : Bool → A → Store → Result A × Store
  audited true a t = (ok a, report a t)
  audited false a t = (err (stable audit_unavailable), t)

  abbrev pub commit : Store → Result A → Result A × Store
  commit s (err f) = (err f, s)
  commit s (ok a) = audited (save a s).audit_available a (save a s)

  pub commit-keeps {ℓ} :
      (P : Store → Type ℓ) (s : Store) (r : Result A)
      → ((a : A) → r ≡ ok a → P (save a s) × P (report a (save a s)))
      → P s
      → P (commit s r).1
  commit-keeps P s (err f) saved kept = kept
  commit-keeps P s (ok a) saved kept = by_audit (save a s).audit_available
    where
      by_audit : (b : Bool) → P (audited b a (save a s)).1
      by_audit true = (saved a refl).1
      by_audit false = (saved a refl).0
