-- ===== src/Approvals/Creating.antt =====
-- When the creation of a risk acceptance succeeds (RiskAcceptanceService.create).
use biaice.Common.{◌<◌, ◌≡◌, ◌↔◌, true, false, not, ◌&&◌, none, some, ltb, ◌==◌, ==_refl, arith}
use biaice.Core.Errors.{ok, is_ok}
use biaice.Core.Scope.{IdentityContext, assert_allows}
use biaice.Approvals.Risk.{
  independent, period_ordered, agree, state_agrees, lengths_fit, model_valid,
}
use biaice.Approvals.Service.{Store, Creation, new_acceptance, check_creation, written, create}

-- Audit is available, the scope allows the unit, the checker is another person, the period is
-- ordered, and the texts have the lengths that the model allows.
pub record IsCreatable (identity : IdentityContext) (q : Creation) (s : Store) : Type 0 where
  pub audited : s.audit_available ≡ true
  pub allowed :
      assert_allows identity.scope identity.scope.tenant_id identity.scope.data_domain_id none
        (some q.decision_unit_id)
      ≡ ok tt
  pub checked_by_another : (identity.subject_id == q.independent_approver_id) ≡ false
  pub ordered : q.valid_from < q.valid_until
  pub fitting : lengths_fit (new_acceptance identity q) ≡ true

created_model_valid :
    (identity : IdentityContext) (q : Creation)
    → model_valid (new_acceptance identity q) ≡ (
        lengths_fit (new_acceptance identity q)
        && (not (identity.subject_id == q.independent_approver_id)
            && ltb q.valid_from q.valid_until))
unfolding model_valid independent period_ordered state_agrees agree new_acceptance
created_model_valid identity q = ground (arith, ==_refl q.independent_approver_id)

is_ok-written :
    (identity : IdentityContext) (q : Creation) (s : Store)
    → is_ok (create identity q s).0 ≡ is_ok (check_creation identity q s)
unfolding create written
is_ok-written identity q s = ground arith

-- With an audit writer and an outbox port that accept what they are told, `create` returns exactly if
-- the acceptance is creatable; otherwise it raises.
pub create_iff :
    (identity : IdentityContext) (q : Creation) (s : Store)
    → (is_ok (create identity q s).0 ≡ true) ↔ IsCreatable identity q s
unfolding check_creation
create_iff identity q s =
    let valid = created_model_valid identity q in
    let same = is_ok-written identity q s in
    (
      (λ h. record {
        audited = ground arith;
        allowed = ground arith;
        checked_by_another = ground arith;
        ordered = ground arith;
        fitting = ground arith;
      }),
      λ c. ground (arith, c.audited, c.allowed, c.checked_by_another, c.ordered, c.fitting),
    )
