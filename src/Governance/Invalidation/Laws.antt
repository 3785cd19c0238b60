-- ===== src/Governance/Invalidation/Laws.antt =====
-- The events of a change and the edges that it hits (governance/domain/invalidation.py).
use mathlib.Core.List.{Memᴰ}
use biaice.Common.{
  subst, ℕ, ◌≡◌, refl, sym, ◌⊎◌, inl, inr, true, false, none, some, List, [], ◌∷◌, map, Text,
  text_eq, text_eq→≡, text_eq_refl, arith, Bool-cases, Option-cases,
}
use biaice.Governance.Invalidation.{
  DependencyType, UpstreamChangeType, InvalidationEffect, DataLineageEdge, InvalidationEvent,
  draft_created, snapshot_frozen, effect_of, contains_text, is_disjoint, irrelevant,
  invalidation_of, propagate_edge, propagate_change, unique_key,
}

-- No field is named as changed, or one that is affects the edge.
abbrev pub IsRelevant : List Text → DataLineageEdge → Type 0
IsRelevant changed e = (changed ≡ []) ⊎ ((f : Text) × Memᴰ f e.affected_fields × Memᴰ f changed)

contains_text-mem : (xs : List Text) (t : Text) → contains_text xs t ≡ true → Memᴰ t xs
unfolding contains_text
contains_text-mem [] t h = cc
contains_text-mem (x ∷ xs) t h = elim (Bool-cases (text_eq x t)) [
  | inl e ↦ Memᴰ.head (sym (text_eq→≡ x t e))
  | inr e ↦ Memᴰ.tail (contains_text-mem xs t (rw e at h))
]

mem-contains_text : (xs : List Text) (t : Text) → Memᴰ t xs → contains_text xs t ≡ true
unfolding contains_text
mem-contains_text [] t m = elim m [ ]
mem-contains_text (x ∷ xs) t (Memᴰ.head e) = rw e (rw (text_eq_refl x) refl)
mem-contains_text (x ∷ xs) t (Memᴰ.tail m) = ground (arith, mem-contains_text xs t m)

shared_field : (xs ys : List Text) → is_disjoint xs ys ≡ false → (f : Text) × Memᴰ f xs × Memᴰ f ys
unfolding is_disjoint
shared_field [] ys h = cc
shared_field (x ∷ xs) ys h = elim (Bool-cases (contains_text ys x)) [
  | inl e ↦ (x, Memᴰ.head refl, contains_text-mem ys x e)
  | inr e ↦ let (f, m, k) = shared_field xs ys (rw e at h) in (f, Memᴰ.tail m, k)
]

not_disjoint : (xs ys : List Text) (f : Text) → Memᴰ f xs → Memᴰ f ys → is_disjoint xs ys ≡ false
unfolding is_disjoint
not_disjoint [] ys f m k = elim m [ ]
not_disjoint (x ∷ xs) ys f (Memᴰ.head e) k =
    rw (mem-contains_text ys x (subst (λ y. Memᴰ y ys) e k)) refl
not_disjoint (x ∷ xs) ys f (Memᴰ.tail m) k = ground (arith, not_disjoint xs ys f m k)

IsRelevant-of :
    (changed : List Text) (e : DataLineageEdge)
    → irrelevant changed e ≡ false
    → IsRelevant changed e
unfolding irrelevant
IsRelevant-of [] e h = inl refl
IsRelevant-of (c ∷ cs) e h = inr (shared_field e.affected_fields (c ∷ cs) h)

of_relevant :
    (changed : List Text) (e : DataLineageEdge)
    → IsRelevant changed e
    → irrelevant changed e ≡ false
unfolding irrelevant
of_relevant [] e h = refl
of_relevant (c ∷ cs) e (inl n) = cc
of_relevant (c ∷ cs) e (inr (f, m, k)) = not_disjoint e.affected_fields (c ∷ cs) f m k

-- The matrix has the effect for the change and the edge's dependency, and the edge is relevant.
abbrev pub IsHit : UpstreamChangeType → List Text → DataLineageEdge → InvalidationEffect → Type 0
IsHit change changed e effect =
    (effect_of change e.dependency_type ≡ some effect) × IsRelevant changed e

-- The event reports the change to the edge's downstream object, with the given effect.
pub record IsEventOf (source : ℕ) (change : UpstreamChangeType) (now : ℕ) (e : DataLineageEdge)
    (effect : InvalidationEffect) (v : InvalidationEvent) : Type 0 where
  pub tenant : v.tenant_id ≡ e.tenant_id
  pub domain : v.data_domain_id ≡ e.data_domain_id
  pub source_event : v.source_event_id ≡ source
  pub edge : v.lineage_edge_id ≡ e.edge_id
  pub object_type : v.downstream_type ≡ e.downstream_type
  pub object : v.downstream_id ≡ e.downstream_id
  pub object_version : v.downstream_version_id ≡ e.downstream_version_id
  pub effected : v.effect ≡ effect
  pub change_kind : v.change_type ≡ change
  pub time : v.occurred_at ≡ now

module _ (sha256 : Text → Text) (uuid_text : ℕ → Text) (source : ℕ) (change : UpstreamChangeType)
    (changed : List Text) where
  abbrev event_of : ℕ → (ℕ → ℕ) → DataLineageEdge → InvalidationEffect → InvalidationEvent
  event_of now ids e effect =
      invalidation_of sha256 uuid_text source change now (ids e.edge_id) e effect

  abbrev step : ℕ → (ℕ → ℕ) → DataLineageEdge → List InvalidationEvent → List InvalidationEvent
  step now ids e later =
      propagate_edge sha256 uuid_text source change changed now (ids e.edge_id) e
        (effect_of change e.dependency_type) later

  -- The body of the loop adds the event of an edge that is hit, or nothing.
  step_hit :
      (now : ℕ) (ids : ℕ → ℕ) (e : DataLineageEdge) (later : List InvalidationEvent)
      (effect : InvalidationEffect)
      → IsHit change changed e effect
      → step now ids e later ≡ event_of now ids e effect ∷ later
  unfolding propagate_edge
  step_hit now ids e later effect h = rw (h.0, of_relevant changed e h.1)

  step_cases :
      (now : ℕ) (ids : ℕ → ℕ) (e : DataLineageEdge) (later : List InvalidationEvent)
      → (step now ids e later ≡ later)
        ⊎ ((effect : InvalidationEffect) × IsHit change changed e effect
            × (step now ids e later ≡ event_of now ids e effect ∷ later))
  unfolding propagate_edge
  step_cases now ids e later = elim (Option-cases (effect_of change e.dependency_type)) [
    | inl n ↦ inl (rw n)
    | inr (effect, h) ↦ elim (Bool-cases (irrelevant changed e)) [
      | inl i ↦ inl (rw (h, i))
      | inr i ↦ inr (effect, (h, IsRelevant-of changed e i), rw (h, i))
    ]
  ]

  later_mem :
      (now : ℕ) (ids : ℕ → ℕ) (e : DataLineageEdge) (later : List InvalidationEvent)
      {v : InvalidationEvent}
      → Memᴰ v later
      → Memᴰ v (step now ids e later)
  later_mem now ids e later {v} m = elim (step_cases now ids e later) [
    | inl same ↦ subst (Memᴰ v) (sym same) m
    | inr (effect, h, same) ↦ subst (Memᴰ v) (sym same) (Memᴰ.tail m)
  ]

  event_of_mem :
      (es : List DataLineageEdge) (now : ℕ) (ids : ℕ → ℕ) (e : DataLineageEdge)
      (effect : InvalidationEffect)
      → Memᴰ e es
      → IsHit change changed e effect
      → Memᴰ
          (event_of now ids e effect)
          (propagate_change sha256 uuid_text source change es changed now ids)
  unfolding propagate_change
  event_of_mem [] now ids e effect m h = elim m [ ]
  event_of_mem (x ∷ es) now ids e effect (Memᴰ.head eq) h =
      let later = propagate_change sha256 uuid_text source change es changed now ids in
      subst (λ y. Memᴰ (event_of now ids e effect) (step now ids y later)) eq
        (subst (Memᴰ (event_of now ids e effect)) (sym (step_hit now ids e later effect h))
          (Memᴰ.head refl))
  event_of_mem (x ∷ es) now ids e effect (Memᴰ.tail m) h =
      later_mem now ids x _ (event_of_mem es now ids e effect m h)

  -- Every edge that is hit has an event in the edge's tenant and domain, which names the change's source
  -- and the edge, the edge's downstream object and version, the effect of the matrix, the kind of the
  -- change and its time.
  pub propagate_change_complete :
      (es : List DataLineageEdge) (now : ℕ) (ids : ℕ → ℕ) (e : DataLineageEdge)
      (effect : InvalidationEffect)
      → Memᴰ e es
      → IsHit change changed e effect
      → (v : InvalidationEvent) × Memᴰ v
          (propagate_change sha256 uuid_text source change es changed now ids)
        × IsEventOf source change now e effect v
  unfolding invalidation_of
  propagate_change_complete es now ids e effect m h = (
    event_of now ids e effect,
    event_of_mem es now ids e effect m h,
    record {
      tenant = refl;
      domain = refl;
      source_event = refl;
      edge = refl;
      object_type = refl;
      object = refl;
      object_version = refl;
      effected = refl;
      change_kind = refl;
      time = refl;
    },
  )

  -- Every event is that of an edge of the list that is hit.
  pub propagate_change_sound :
      (es : List DataLineageEdge) (now : ℕ) (ids : ℕ → ℕ) {v : InvalidationEvent}
      → Memᴰ v (propagate_change sha256 uuid_text source change es changed now ids)
      → (e : DataLineageEdge) × (effect : InvalidationEffect) × Memᴰ e es
        × IsHit change changed e effect
        × (v ≡ event_of now ids e effect)
  unfolding propagate_change
  propagate_change_sound [] now ids m = elim m [ ]
  propagate_change_sound (x ∷ es) now ids {v} m =
      elim (step_cases now ids x
        (propagate_change sha256 uuid_text source change es changed now ids)) [
          | inl same ↦ from_later (propagate_change_sound es now ids (subst (Memᴰ v) same m))
          | inr (effect, h, same) ↦
              of_step effect h (subst (Memᴰ v) same m) (propagate_change_sound es now ids)
        ]
    where
      from_later :
          (e : DataLineageEdge) × (effect : InvalidationEffect) × Memᴰ e es
            × IsHit change changed e effect
            × (v ≡ event_of now ids e effect)
          → (e : DataLineageEdge) × (effect : InvalidationEffect) × Memᴰ e (x ∷ es)
            × IsHit change changed e effect
            × (v ≡ event_of now ids e effect)
      from_later (e, effect, k, h, eq) = (e, effect, Memᴰ.tail k, h, eq)

      of_step :
          (effect : InvalidationEffect)
          → IsHit change changed x effect
          → Memᴰ v (
              event_of now ids x effect
              ∷ propagate_change sha256 uuid_text source change es changed now ids)
          → (Memᴰ v (propagate_change sha256 uuid_text source change es changed now ids)
              → (e : DataLineageEdge) × (effect : InvalidationEffect) × Memᴰ e es
                × IsHit change changed e effect
                × (v ≡ event_of now ids e effect))
          → (e : DataLineageEdge) × (effect : InvalidationEffect) × Memᴰ e (x ∷ es)
            × IsHit change changed e effect
            × (v ≡ event_of now ids e effect)
      of_step effect h (Memᴰ.head eq) rec = (x, effect, Memᴰ.head refl, h, eq)
      of_step effect h (Memᴰ.tail k) rec = from_later (rec k)

  -- A change that is delivered again, at another time and with other new identifiers, has events
  -- with the same unique keys in the same order.
  pub unique_key-redelivered :
      (es : List DataLineageEdge) (now now' : ℕ) (ids ids' : ℕ → ℕ)
      → map unique_key (propagate_change sha256 uuid_text source change es changed now ids)
        ≡ map unique_key (propagate_change sha256 uuid_text source change es changed now' ids')
  unfolding propagate_change propagate_edge invalidation_of
  unique_key-redelivered [] now now' ids ids' = refl
  unique_key-redelivered (e ∷ es) now now' ids ids' =
      ground (arith, unique_key-redelivered es now now' ids ids')

pub effect_of-quiet :
    (d : DependencyType) → (effect_of draft_created d ≡ none) × (effect_of snapshot_frozen d ≡ none)
unfolding effect_of
effect_of-quiet d = (refl, refl)
