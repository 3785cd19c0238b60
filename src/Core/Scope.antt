-- ===== src/Core/Scope.antt =====
-- The tenant scope of an identity (core/auth.py) and the two ways in which the in-memory
-- repositories test it.
pub mod Laws
use biaice.Common.{
  ℕ, Bool, true, false, not, ◌&&◌, ◌||◌, Option, none, some, List, [], ◌∷◌, ◌==◌, elem, is_empty,
  if◌then◌else◌,
}
use biaice.Core.Errors.{Result, ok, err, ◌>>=◌, ◌>>◌, raise_if}
use biaice.Core.Errors.Code.{tenant_scope_violation}

pub record TenantScope : Type 0 where
  pub tenant_id : ℕ
  pub data_domain_id : ℕ
  pub project_ids : List ℕ
  pub decision_unit_ids : List ℕ
  pub all_projects : Bool
  pub all_decision_units : Bool

-- An identity, as far as the modelled services read it.
pub record IdentityContext : Type 0 where
  pub subject_id : ℕ
  pub scope : TenantScope

-- `id is not None and not everything and id not in ids`
abbrev pub outside : Option ℕ → Bool → List ℕ → Bool
outside none everything ids = false
outside (some i) everything ids = not everything && not (elem i ids)

unfoldable pub assert_allows : TenantScope → ℕ → ℕ → Option ℕ → Option ℕ → Result (Unit {0})
assert_allows scope tenant domain project unit = do
  raise_if (not (tenant == scope.tenant_id) || not (domain == scope.data_domain_id))
      tenant_scope_violation
  raise_if (outside project scope.all_projects scope.project_ids) tenant_scope_violation
  raise_if (outside unit scope.all_decision_units scope.decision_unit_ids) tenant_scope_violation

-- `id is not None and not everything and ids and id not in ids`
abbrev pub outside_nonempty : Option ℕ → Bool → List ℕ → Bool
outside_nonempty none everything ids = false
outside_nonempty (some i) everything ids =
    not everything && (not (is_empty ids) && not (elem i ids))

-- `_scope_ok` of projects/application/repository.py
unfoldable pub scope_ok : TenantScope → ℕ → ℕ → Option ℕ → Option ℕ → Bool
scope_ok scope tenant domain project unit =
    if not (tenant == scope.tenant_id) || not (domain == scope.data_domain_id)
    then false
    else if outside_nonempty project scope.all_projects scope.project_ids
    then false
    else not (outside_nonempty unit scope.all_decision_units scope.decision_unit_ids)

-- `_scope_matches` of approvals_reports/application/repository.py
unfoldable pub scope_matches : TenantScope → ℕ → ℕ → Option ℕ → ℕ → Bool
scope_matches scope tenant domain project unit =
    if not (tenant == scope.tenant_id) || not (domain == scope.data_domain_id)
    then false
    else if outside project scope.all_projects scope.project_ids
    then false
    else if not scope.all_decision_units && not (elem unit scope.decision_unit_ids)
    then false
    else true
