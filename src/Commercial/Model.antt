-- ===== src/Commercial/Model.antt =====
-- The models of costs, policies and readiness (modules/commercial/domain/models.py), with the states
-- of modules/evidence/domain/models.py that they carry, and core/money.py.
use biaice.Common.{
  ℕ, ℤ, Bool, true, false, not, ◌&&◌, Option, none, some, List, Text, text_eq, leb, ltb, ◌==◌, all,
  length, is_some,
}

pub data LifecycleState : Type 0 where
  draft published archived deleted : LifecycleState

pub data ReviewState : Type 0 where
  pending approved not_required rejected quarantined : ReviewState

pub data ValidityState : Type 0 where
  current stale invalidated : ValidityState

pub data RetentionState : Type 0 where
  retain disposition_due disposition_running disposed : RetentionState

pub data PrecheckDecision : Type 0 where
  pass conditional blocked unknown : PrecheckDecision

pub record Money : Type 0 where
  pub amount : ℤ
  pub currency : Text

pub data TaxMode : Type 0 where
  inclusive exclusive : TaxMode

pub data ReadinessDecision : Type 0 where
  ready conditionally_ready not_ready undecided : ReadinessDecision

pub record CostBaseline : Type 0 where
  pub cost_baseline_id : ℕ
  pub version_id : ℕ
  pub tenant_id : ℕ
  pub data_domain_id : ℕ
  pub project_id : Option ℕ
  pub decision_unit_id : ℕ
  pub currency : Text
  pub tax_mode : TaxMode
  pub input_vat : Money
  pub cycle : Text
  pub delivery_cost : Money
  pub post_award_cost : Money
  pub bid_preparation_cost : Money
  pub cashflow_in : Money
  pub cashflow_out : Money
  pub lifecycle_state : LifecycleState
  pub review_state : ReviewState
  pub validity_state : ValidityState
  pub retention_state : RetentionState
  pub effective_from : Option ℕ
  pub effective_to : Option ℕ
  pub superseded_by_id : Option ℕ
  pub created_at : ℕ
  pub created_by : ℕ
  pub approved_at : Option ℕ
  pub approved_by : Option ℕ
  pub published_at : Option ℕ
  pub published_by : Option ℕ
  pub exploration_only : Bool

-- What a policy says, apart from its states.
pub record PolicyTerms : Type 0 where
  pub profit_floor : Text
  pub cashflow_constraint : Text
  pub capacity_constraint : Text
  pub risk_threshold : Text
  pub coverage_ratio : Text
  pub min_award_quality : Text
  pub objective_weights : List (Text × Text)
  pub merge_tolerance : Text
  pub exception_authority : Text

pub record CommercialPolicy : Type 0 where
  pub policy_id : ℕ
  pub version_id : ℕ
  pub tenant_id : ℕ
  pub data_domain_id : ℕ
  pub project_id : Option ℕ
  pub decision_unit_id : ℕ
  pub terms : PolicyTerms
  pub lifecycle_state : LifecycleState
  pub review_state : ReviewState
  pub validity_state : ValidityState
  pub retention_state : RetentionState
  pub effective_from : Option ℕ
  pub effective_to : Option ℕ
  pub superseded_by_id : Option ℕ
  pub created_at : ℕ
  pub created_by : ℕ
  pub published_at : Option ℕ
  pub published_by : Option ℕ

pub data ItemCode : Type 0 where
  rules precheck response cost policy market data_use model scenario_protocol : ItemCode

pub data ReasonCode : Type 0 where
  precheck_missing precheck_pass precheck_conditional precheck_blocked precheck_unknown : ReasonCode
  response_current response_missing cost_published cost_exploration_only cost_missing : ReasonCode
  policy_published policy_missing market_port_unavailable pressure_only market_prior_current :
      ReasonCode
  data_use_ok data_use_blocked model_protocol_current model_protocol_missing : ReasonCode
  scenario_port_member_6 : ReasonCode

pub record ReadinessItem : Type 0 where
  pub code : ItemCode
  pub decision : ReadinessDecision
  pub reason_code : ReasonCode
  pub commercial_not_procurement : Bool

pub record StrategyReadinessAssessment : Type 0 where
  pub readiness_id : ℕ
  pub version_id : ℕ
  pub tenant_id : ℕ
  pub data_domain_id : ℕ
  pub project_id : Option ℕ
  pub decision_unit_id : ℕ
  pub decision : ReadinessDecision
  pub validity_state : ValidityState
  pub items : List ReadinessItem
  pub created_at : ℕ
  pub created_by : ℕ
  pub exploration_watermark : Bool

abbrev is_upper : ℕ → Bool
is_upper c = leb b'A' c && leb c b'Z'

abbrev same_as : Option ℕ → ℕ → Bool
same_as none k = false
same_as (some a) k = a == k

-- `currencies_align`
unfoldable pub currencies_align : CostBaseline → Bool
currencies_align i =
    text_eq i.input_vat.currency i.currency
    && (text_eq i.delivery_cost.currency i.currency
        && (text_eq i.post_award_cost.currency i.currency
            && (text_eq i.bid_preparation_cost.currency i.currency
                && (text_eq i.cashflow_in.currency i.currency
                    && text_eq i.cashflow_out.currency i.currency))))

-- Whether pydantic accepts the baseline.
unfoldable pub cost_valid : CostBaseline → Bool
cost_valid i =
    (all is_upper i.currency && length i.currency == 3)
    && ((leb 1 (length i.cycle) && leb (length i.cycle) 40)
        && (currencies_align i && not (same_as i.approved_by i.created_by)))

abbrev fits : Text → ℕ → Bool
fits t n = leb 1 (length t) && leb (length t) n

-- Whether pydantic accepts the terms.
unfoldable pub terms_valid : PolicyTerms → Bool
terms_valid t =
    fits t.profit_floor 40
    && (fits t.cashflow_constraint 200
        && (fits t.capacity_constraint 200
            && (fits t.risk_threshold 200
                && (fits t.coverage_ratio 40
                    && (fits t.min_award_quality 80
                        && (fits t.merge_tolerance 40 && fits t.exception_authority 200))))))

-- The states that `formal_input_allowed` reads.
pub record OrthogonalState : Type 0 where
  pub lifecycle_state : LifecycleState
  pub review_state : ReviewState
  pub validity_state : ValidityState
  pub retention_state : RetentionState
  pub effective_from : Option ℕ
  pub effective_to : Option ℕ
  pub superseded_by_id : Option ℕ

abbrev pub is_published : LifecycleState → Bool
is_published published = true
is_published _ = false

abbrev is_reviewed : ReviewState → Bool
is_reviewed approved = true
is_reviewed not_required = true
is_reviewed _ = false

abbrev is_current : ValidityState → Bool
is_current current = true
is_current _ = false

abbrev is_retained : RetentionState → Bool
is_retained retain = true
is_retained _ = false

-- `effective_from is not None and now < effective_from`
abbrev not_yet : Option ℕ → ℕ → Bool
not_yet none now = false
not_yet (some t) now = ltb now t

-- `effective_to is not None and now >= effective_to`
abbrev ended : Option ℕ → ℕ → Bool
ended none now = false
ended (some t) now = leb t now

-- `formal_input_allowed`, as far as whether it allows.
unfoldable pub formal_input_allowed : OrthogonalState → ℕ → Bool
formal_input_allowed i now =
    is_published i.lifecycle_state
    && (is_reviewed i.review_state
        && (is_current i.validity_state
            && (is_retained i.retention_state
                && (not (not_yet i.effective_from now)
                    && (not (ended i.effective_to now) && not (is_some i.superseded_by_id))))))
