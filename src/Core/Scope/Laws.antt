-- ===== src/Core/Scope/Laws.antt =====
-- How the scope tests of the repositories compare with `assert_allows`.
use biaice.Common.{ℕ, ◌≡◌, true, false, not, Option, none, some, [], elem, is_empty, ◌||◌, arith}
use biaice.Core.Errors.{is_ok, err, stable}
use biaice.Core.Errors.Code.{tenant_scope_violation}
use biaice.Core.Scope.{TenantScope, assert_allows, scope_ok, scope_matches}

-- The approvals repository shows an item exactly to the scopes that `assert_allows` lets pass.
pub scope_matches-eq-assert_allows :
    (scope : TenantScope) (tenant domain : ℕ) (project : Option ℕ) (unit : ℕ)
    → scope_matches scope tenant domain project unit
      ≡ is_ok (assert_allows scope tenant domain project (some unit))
unfolding scope_matches assert_allows
scope_matches-eq-assert_allows scope tenant domain project unit = ground arith

-- A scope that says of projects and of units either "all" or a list with a member.
abbrev pub IsExplicit : TenantScope → Type 0
IsExplicit s =
    ((s.all_projects || not (is_empty s.project_ids)) ≡ true)
    × ((s.all_decision_units || not (is_empty s.decision_unit_ids)) ≡ true)

-- For an explicit scope the project repository shows an item exactly if `assert_allows` passes.
pub scope_ok-eq-assert_allows :
    (scope : TenantScope) (tenant domain : ℕ) (project unit : Option ℕ)
    → IsExplicit scope
    → scope_ok scope tenant domain project unit
      ≡ is_ok (assert_allows scope tenant domain project unit)
unfolding scope_ok assert_allows
scope_ok-eq-assert_allows scope tenant domain project unit h = ground arith

-- A scope that lists no project and is not for all projects is denied every project by
-- `assert_allows`, and sees every project of its tenant and domain through the repository.
pub scope_ok-without_projects :
    (scope : TenantScope) (project : ℕ)
    → scope.all_projects ≡ false
    → scope.project_ids ≡ []
    → (scope_ok scope scope.tenant_id scope.data_domain_id (some project) none ≡ true)
      × (assert_allows scope scope.tenant_id scope.data_domain_id (some project) none
          ≡ err (stable tenant_scope_violation))
unfolding scope_ok assert_allows elem
scope_ok-without_projects scope project a e = ground arith
