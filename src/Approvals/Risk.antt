-- ===== src/Approvals/Risk.antt =====
-- The risk acceptance, its validators and its projection at read time
-- (approvals_reports/domain/models.py). Instants are numbers.
use biaice.Common.{
  ℕ, Bool, true, false, not, ◌&&◌, Option, none, some, Text, ltb, leb, length, is_empty, ◌==◌,
  if◌then◌else◌, is_some,
}

pub data RiskState : Type 0 where
  active revoked expired : RiskState

pub data RiskValidity : Type 0 where
  current stale expired invalidated : RiskValidity

pub record RiskAcceptance : Type 0 where
  pub risk_acceptance_id : ℕ
  pub version_id : ℕ
  pub tenant_id : ℕ
  pub data_domain_id : ℕ
  pub project_id : Option ℕ
  pub decision_unit_id : ℕ
  pub state : RiskState
  pub validity : RiskValidity
  pub risk : Text
  pub metric : Text
  pub acceptance_scope : Text
  pub rationale : Text
  pub independent_approver_id : ℕ
  pub valid_from : ℕ
  pub valid_until : ℕ
  pub created_at : ℕ
  pub created_by : ℕ
  pub accepted_at : ℕ
  pub accepted_by : ℕ
  pub revoked_at : Option ℕ
  pub revoked_by : Option ℕ
  pub revocation_reason : Option Text

-- `maker_and_checker_must_be_independent`
unfoldable pub independent : RiskAcceptance → Bool
independent i =
    not (i.created_by == i.independent_approver_id) && i.accepted_by == i.independent_approver_id

-- `validity_period_must_be_ordered`
unfoldable pub period_ordered : RiskAcceptance → Bool
period_ordered i = ltb i.valid_from i.valid_until

-- A text that is neither None nor empty.
abbrev pub truthy : Option Text → Bool
truthy none = false
truthy (some t) = not (is_empty t)

unfoldable pub agree : RiskState → RiskValidity → RiskAcceptance → Bool
agree active current i = true
agree active _ i = false
agree revoked invalidated i =
    is_some i.revoked_at && (is_some i.revoked_by && truthy i.revocation_reason)
agree revoked _ i = false
agree RiskState.expired RiskValidity.expired i = true
agree RiskState.expired _ i = false

-- `state_and_validity_must_agree`
unfoldable pub state_agrees : RiskAcceptance → Bool
unfolding agree
state_agrees i = agree i.state i.validity i

abbrev pub within : ℕ → Text → Bool
within hi t = leb 1 (length t) && leb (length t) hi

abbrev pub reason_fits : Option Text → Bool
reason_fits none = true
reason_fits (some t) = leb (length t) 1000

-- The lengths that the fields allow.
unfoldable pub lengths_fit : RiskAcceptance → Bool
lengths_fit i =
    within 200 i.risk
    && (within 200 i.metric
        && (within 400 i.acceptance_scope
            && (within 2000 i.rationale && reason_fits i.revocation_reason)))

-- Whether pydantic accepts the model.
unfoldable pub model_valid : RiskAcceptance → Bool
model_valid i = lengths_fit i && (independent i && (period_ordered i && state_agrees i))

expire : RiskState → ℕ → RiskAcceptance → RiskAcceptance
expire active now i =
    if leb i.valid_until now
    then record i { state = RiskState.expired; validity = RiskValidity.expired }
    else i
expire revoked now i = i
expire RiskState.expired now i = i

unfoldable pub effective_risk_acceptance : RiskAcceptance → ℕ → RiskAcceptance
unfolding expire
effective_risk_acceptance i now = expire i.state now i
