-- ===== src/Common/Dict.antt =====
-- A Python `dict` with number keys (identifiers), in insertion order.
use biaice.Common.Tests.{◌==◌, if◌then◌else◌}
use mathlib.Core.Logic.{◌⊎◌, inl, inr}
use Prim.Native.Nat.{ℕ}
use mathlib.Core.Path.{◌≡◌, refl, subst}
use mathlib.Core.Bool.{false}
use mathlib.Core.Option.{Option, none, some}
use mathlib.Core.List.{List, [], ◌∷◌}
use native.Mathlib.Omega.{arith}

abbrev pub Dict {ℓ} : Type ℓ → Type ℓ
Dict V = List (ℕ × V)

module _ {ℓ} {V : Type ℓ} where
  unfoldable pub lookup : ℕ → Dict V → Option V
  lookup k [] = none
  lookup k ((j, v) ∷ d) = if j == k then some v else lookup k d

  unfoldable pub insert : ℕ → V → Dict V → Dict V
  insert k v [] = (k, v) ∷ []
  insert k v ((j, w) ∷ d) = if j == k then (k, v) ∷ d else (j, w) ∷ insert k v d

  pub lookup-insert :
      (k j : ℕ) (v : V) (d : Dict V)
      → lookup j (insert k v d) ≡ (if k == j then some v else lookup j d)
  unfolding lookup insert
  lookup-insert k j v [] = refl
  lookup-insert k j v (e ∷ d) = ground (arith, lookup-insert k j v d)

  -- What a key holds after an insertion.
  pub lookup-insert-cases :
      (k j : ℕ) (v : V) (d : Dict V) {w : V}
      → lookup j (insert k v d) ≡ some w
      → ((k ≡ j) × (v ≡ w)) ⊎ (((k == j) ≡ false) × (lookup j d ≡ some w))
  lookup-insert-cases k j v d h = ground (arith, lookup-insert k j v d)

-- Every entry, with its key, has the property.
module _ {ℓ} {V : Type 0} (P : ℕ → V → Type ℓ) where
  abbrev pub Each : Dict V → Type ℓ
  Each d = (k : ℕ) (v : V) → lookup k d ≡ some v → P k v

  -- An entry takes the place of what the key held.
  pub Each-replace :
      (k : ℕ) (v : V) (d : Dict V)
      → P k v
      → ((j : ℕ) (w : V) → (k == j) ≡ false → lookup j d ≡ some w → P j w)
      → Each (insert k v d)
  Each-replace k v d here others j w h = elim (lookup-insert-cases k j v d h) [
    | inl e ↦ subst (λ x. P x w) e.0 (subst (P k) e.1 here)
    | inr r ↦ others j w r.0 r.1
  ]

  pub Each-insert : (k : ℕ) (v : V) (d : Dict V) → P k v → Each d → Each (insert k v d)
  Each-insert k v d here there = Each-replace k v d here (λ j w _. there j w)
