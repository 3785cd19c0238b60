-- ===== src/Governance/Tests.antt =====
-- Invalidation and retention at fixed inputs, and the theorems about them.
use mathlib.Core.List.{Memᴰ}
use biaice.Common.{
  ℕ, ◌≤◌, ◌≡◌, refl, inr, none, some, List, [], ◌∷◌, map, Text, text_eq, codes, ◌+◌,
}
use biaice.Governance.Invalidation.{
  DataLineageEdge, InvalidationEffect, InvalidationEvent, computational, publish_effective, stale,
  effect_of, invalidation_of, propagate_change, unique_key, contains_text, is_disjoint, irrelevant,
  propagate_edge,
}
use biaice.Governance.Invalidation.Laws.{
  IsHit, IsEventOf, propagate_change_complete, propagate_change_sound, unique_key-redelivered,
}
use biaice.Governance.Retention.{RetentionDispositionJob, scheduled, escalated}
use biaice.Governance.Retention.Laws.{emissions, emissions_once}

abbrev edge : DataLineageEdge
edge = record {
  edge_id = 5;
  tenant_id = 1;
  data_domain_id = 2;
  downstream_type = codes "forecast";
  downstream_id = 6;
  downstream_version_id = none;
  dependency_type = computational;
  affected_fields = codes "price" ∷ [];
}

abbrev changed : List Text
changed = codes "price" ∷ []

abbrev same_text : Text → Text
same_text t = t

abbrev letters : ℕ → Text
letters n = n ∷ []

abbrev next_id : ℕ → ℕ
next_id n = n + 100

abbrev ids_again : ℕ → ℕ
ids_again n = n + 200

edge-IsHit : IsHit publish_effective changed edge stale
unfolding effect_of
edge-IsHit = (refl, inr (codes "price", Memᴰ.head refl, Memᴰ.head refl))

propagate_change_complete_example :
    (v : InvalidationEvent) × Memᴰ v
      (propagate_change same_text letters 7 publish_effective (edge ∷ []) changed 50 next_id)
    × IsEventOf 7 publish_effective 50 edge stale v
propagate_change_complete_example =
    propagate_change_complete same_text letters 7 publish_effective changed (edge ∷ []) 50 next_id
      edge stale (Memᴰ.head refl) edge-IsHit

edge_event :
    Memᴰ
      (invalidation_of same_text letters 7 publish_effective 50 105 edge stale)
      (propagate_change same_text letters 7 publish_effective (edge ∷ []) changed 50 next_id)
unfolding propagate_change propagate_edge effect_of irrelevant is_disjoint contains_text text_eq
edge_event = Memᴰ.head refl

propagate_change_sound_example :
    (e : DataLineageEdge) × (effect : InvalidationEffect) × Memᴰ e (edge ∷ [])
    × IsHit publish_effective changed e effect
    × (invalidation_of same_text letters 7 publish_effective 50 105 edge stale
        ≡ invalidation_of same_text letters 7 publish_effective 50 (next_id e.edge_id) e effect)
propagate_change_sound_example =
    propagate_change_sound same_text letters 7 publish_effective changed (edge ∷ []) 50 next_id
      edge_event

unique_key-redelivered_example :
    map unique_key
      (propagate_change same_text letters 7 publish_effective (edge ∷ []) changed 50 next_id)
    ≡ map unique_key
        (propagate_change same_text letters 7 publish_effective (edge ∷ []) changed 90 ids_again)
unique_key-redelivered_example =
    unique_key-redelivered same_text letters 7 publish_effective changed (edge ∷ []) 50 90 next_id
      ids_again

abbrev retention_job : RetentionDispositionJob
retention_job = record {
  retention_job_id = 1;
  retention_expires_at = 10;
  state = scheduled;
  formal_use_blocked_at = none;
  legal_hold_count = 0;
  attempt = 0;
}

abbrev evaluations : List (ℕ × ℕ)
evaluations = (9, 0) ∷ (12, 1) ∷ (15, 0) ∷ []

emissions_once_example : emissions retention_job evaluations ≤ 1
emissions_once_example = emissions_once retention_job evaluations

abbrev blocked_job : RetentionDispositionJob
blocked_job = record retention_job { formal_use_blocked_at = some 11; state = escalated }
