-- ===== src/Governance/Invalidation.antt =====
-- The event and dependency matrix (governance/domain/invalidation.py) with the models it uses.
pub mod Laws
use biaice.Common.{
  ℕ, Bool, true, false, not, ◌&&◌, Option, none, some, List, [], ◌∷◌, ◌++◌, Text, codes, text_eq,
  is_empty, if◌then◌else◌,
}

pub data DependencyType : Type 0 where
  computational evidential policy authorization presentational : DependencyType

pub data UpstreamChangeType : Type 0 where
  draft_created snapshot_frozen publish_effective revoke delete retention_expired :
      UpstreamChangeType
  authorization_withdrawn purpose_ended provider_policy_expired model_policy_effective :
      UpstreamChangeType

pub data InvalidationEffect : Type 0 where
  stale invalidated : InvalidationEffect

-- `INVALIDATION_MATRIX[change].get(dependency)`
unfoldable pub effect_of : UpstreamChangeType → DependencyType → Option InvalidationEffect
effect_of draft_created d = none
effect_of snapshot_frozen d = none
effect_of publish_effective d = some stale
effect_of revoke d = some invalidated
effect_of delete d = some invalidated
effect_of retention_expired d = some invalidated
effect_of authorization_withdrawn authorization = some invalidated
effect_of purpose_ended authorization = some invalidated
effect_of provider_policy_expired policy = some invalidated
effect_of provider_policy_expired authorization = some invalidated
effect_of model_policy_effective policy = some stale
effect_of model_policy_effective computational = some stale
effect_of _ _ = none

pub record DataLineageEdge : Type 0 where
  pub edge_id : ℕ
  pub tenant_id : ℕ
  pub data_domain_id : ℕ
  pub downstream_type : Text
  pub downstream_id : ℕ
  pub downstream_version_id : Option ℕ
  pub dependency_type : DependencyType
  pub affected_fields : List Text

pub record InvalidationEvent : Type 0 where
  pub invalidation_id : ℕ
  pub tenant_id : ℕ
  pub data_domain_id : ℕ
  pub source_event_id : ℕ
  pub lineage_edge_id : ℕ
  pub downstream_type : Text
  pub downstream_id : ℕ
  pub downstream_version_id : Option ℕ
  pub effect : InvalidationEffect
  pub change_type : UpstreamChangeType  -- `reason_code` is UPSTREAM_ and its value
  pub occurred_at : ℕ
  pub idempotency_fingerprint : Text

abbrev pub effect_value : InvalidationEffect → Text
effect_value stale = codes "STALE"
effect_value invalidated = codes "INVALIDATED"

unfoldable pub contains_text : List Text → Text → Bool
contains_text [] t = false
contains_text (x ∷ xs) t = if text_eq x t then true else contains_text xs t

unfoldable pub is_disjoint : List Text → List Text → Bool
unfolding contains_text
is_disjoint [] ys = true
is_disjoint (x ∷ xs) ys = if contains_text ys x then false else is_disjoint xs ys

-- `changed_fields and edge.affected_fields.isdisjoint(changed_fields)`
unfoldable pub irrelevant : List Text → DataLineageEdge → Bool
irrelevant changed e = not (is_empty changed) && is_disjoint e.affected_fields changed

-- The hash and the text of an identifier are Python's; the identifiers of new events are drawn in
-- the order of the edges.
module _ (sha256 : Text → Text) (uuid_text : ℕ → Text) where
  unfoldable pub fingerprint : ℕ → ℕ → InvalidationEffect → Text
  fingerprint source edge effect =
      sha256
        (uuid_text source ++ (codes ":" ++ (uuid_text edge ++ (codes ":" ++ effect_value effect))))

  unfoldable pub invalidation_of :
      ℕ → UpstreamChangeType → ℕ → ℕ → DataLineageEdge → InvalidationEffect → InvalidationEvent
  invalidation_of source change now new_id e effect = record {
    invalidation_id = new_id;
    tenant_id = e.tenant_id;
    data_domain_id = e.data_domain_id;
    source_event_id = source;
    lineage_edge_id = e.edge_id;
    downstream_type = e.downstream_type;
    downstream_id = e.downstream_id;
    downstream_version_id = e.downstream_version_id;
    effect = effect;
    change_type = change;
    occurred_at = now;
    idempotency_fingerprint = fingerprint source e.edge_id effect;
  }

  -- The body of the loop for one edge, before the events of the later edges.
  unfoldable pub propagate_edge :
      ℕ
      → UpstreamChangeType
      → List Text
      → ℕ
      → ℕ
      → DataLineageEdge
      → Option InvalidationEffect
      → List InvalidationEvent
      → List InvalidationEvent
  propagate_edge source change changed now new_id e none later = later
  propagate_edge source change changed now new_id e (some effect) later =
      if irrelevant changed e
      then later
      else invalidation_of source change now new_id e effect ∷ later

  unfoldable pub propagate_change :
      ℕ
      → UpstreamChangeType
      → List DataLineageEdge
      → List Text
      → ℕ
      → (ℕ → ℕ)
      → List InvalidationEvent
  unfolding propagate_edge
  propagate_change source change [] changed now new_id = []
  propagate_change source change (e ∷ es) changed now new_id =
      propagate_edge source change changed now (new_id e.edge_id) e
        (effect_of change e.dependency_type) (propagate_change source change es changed now new_id)

-- The columns of the unique key of the table of events (governance/infrastructure/models.py).
abbrev pub unique_key : InvalidationEvent → ℕ × ℕ × Text
unique_key e = (e.tenant_id, e.data_domain_id, e.idempotency_fingerprint)
