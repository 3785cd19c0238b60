-- ===== src/Approvals/Invariant.antt =====
-- The store of risk acceptances and the validators (approvals_reports/application/services.py).
use biaice.Common.{
  ℕ, ◌≤◌, ◌≡◌, refl, sym, ap, ◌∙◌, subst, true, false, none, some, Text, length, is_empty, ◌==◌,
  ==→≡, arith, if◌then◌else◌, Bool-cases, inl, inr, some_inj,
}
use biaice.Common.Dict.{lookup, insert, lookup-insert}
use biaice.Core.Errors.{Result, ok, err}
use biaice.Core.Scope.{IdentityContext, assert_allows, scope_matches}
use biaice.Approvals.Risk.{
  RiskAcceptance, active, model_valid, lengths_fit, independent, period_ordered, state_agrees,
  effective_risk_acceptance,
}
use biaice.Approvals.Service.{
  Store, Creation, Written, get_risk_acceptance, new_acceptance, check_creation, check_revocation,
  revocation, write, written, create, revoke,
}

pub record IsStored (k : ℕ) (i : RiskAcceptance) : Type 0 where
  pub id : i.risk_acceptance_id ≡ k
  pub valid : model_valid i ≡ true

pub record IsValidStore (s : Store) : Type 0 where
  pub at : (k : ℕ) (i : RiskAcceptance) → lookup k s.risk_acceptances ≡ some i → IsStored k i

pub risk_acceptances-write :
    (kind : Written) (identity : IdentityContext) (i : RiskAcceptance) (s : Store)
    → (write kind identity i s).risk_acceptances ≡ insert i.risk_acceptance_id i s.risk_acceptances
unfolding write
risk_acceptances-write kind identity i s = refl

write-IsValidStore :
    (kind : Written) (identity : IdentityContext) (i : RiskAcceptance) (s : Store)
    → model_valid i ≡ true
    → IsValidStore s
    → IsValidStore (write kind identity i s)
write-IsValidStore kind identity i s v h = record { at = at' }
  where
    at' :
        (k : ℕ) (j : RiskAcceptance)
        → lookup k (write kind identity i s).risk_acceptances ≡ some j
        → IsStored k j
    at' k j e =
        let e' : (if i.risk_acceptance_id == k then some i else lookup k s.risk_acceptances)
            ≡ some j =
          sym (lookup-insert i.risk_acceptance_id k i s.risk_acceptances)
          ∙ (ap (lookup k) (sym (risk_acceptances-write kind identity i s)) ∙ e) in
        elim (Bool-cases (i.risk_acceptance_id == k)) [
          | inl m ↦
              subst (IsStored k) (some_inj i j (rw m at e'))
                (record { id = ==→≡ i.risk_acceptance_id k m; valid = v })
          | inr d ↦ h.at k j (rw d at e')
        ]

pub check_creation_inv :
    (identity : IdentityContext) (q : Creation) (s : Store) {i : RiskAcceptance}
    → check_creation identity q s ≡ ok i
    → (assert_allows identity.scope identity.scope.tenant_id identity.scope.data_domain_id none
          (some q.decision_unit_id)
        ≡ ok tt)
      × (new_acceptance identity q ≡ i)
      × (model_valid i ≡ true)
unfolding check_creation
check_creation_inv identity q s h = ground arith

pub check_revocation_inv :
    (identity : IdentityContext) (id : ℕ) (reason : Text) (now now' : ℕ) (s : Store)
    {j : RiskAcceptance}
    → check_revocation identity id reason now now' s ≡ ok j
    → (i : RiskAcceptance) × (get_risk_acceptance identity.scope id s ≡ some i)
      × ((effective_risk_acceptance i now).state ≡ active)
      × (revocation identity reason now' i ≡ j)
unfolding check_revocation
check_revocation_inv identity id reason now now' s h = ground arith

pub get_risk_acceptance_inv :
    (identity : IdentityContext) (id : ℕ) (s : Store) {i : RiskAcceptance}
    → get_risk_acceptance identity.scope id s ≡ some i
    → (lookup id s.risk_acceptances ≡ some i)
      × (scope_matches identity.scope i.tenant_id i.data_domain_id i.project_id i.decision_unit_id
          ≡ true)
unfolding get_risk_acceptance
get_risk_acceptance_inv identity id s h = ground arith

revocation-model_valid :
    (identity : IdentityContext) (reason : Text) (now : ℕ) (i : RiskAcceptance)
    → is_empty reason ≡ false
    → length reason ≤ 1000
    → model_valid i ≡ true
    → model_valid (revocation identity reason now i) ≡ true
unfolding revocation model_valid lengths_fit independent period_ordered state_agrees
revocation-model_valid identity reason now i ne le v = ground arith

module _ (identity : IdentityContext) (s : Store) (valid : IsValidStore s) where
  created-IsValidStore :
      (q : Creation) (r : Result RiskAcceptance)
      → check_creation identity q s ≡ r
      → IsValidStore (written Written.risk_accepted identity s r).1
  unfolding written
  created-IsValidStore q (ok i) h =
      write-IsValidStore Written.risk_accepted identity i s (check_creation_inv identity q s h).2
        valid
  created-IsValidStore q (err f) h = valid

  revoked-IsValidStore :
      (id : ℕ) (reason : Text) (now now' : ℕ) (r : Result RiskAcceptance)
      → is_empty reason ≡ false
      → length reason ≤ 1000
      → check_revocation identity id reason now now' s ≡ r
      → IsValidStore (written Written.risk_revoked identity s r).1
  unfolding written
  revoked-IsValidStore id reason now now' (ok j) ne le h =
      let (i, found, _, made) = check_revocation_inv identity id reason now now' s h in
      write-IsValidStore Written.risk_revoked identity j s
        (subst (λ x. model_valid x ≡ true) made
          (revocation-model_valid identity reason now' i ne le
            (valid.at id i (get_risk_acceptance_inv identity id s found).0).valid))
        valid
  revoked-IsValidStore id reason now now' (err f) ne le h = valid

  -- If every stored risk acceptance passes its model's validators, then they all do after `create`,
  -- whether it returns or raises.
  pub create-IsValidStore : (q : Creation) → IsValidStore (create identity q s).1
  unfolding create
  create-IsValidStore q = created-IsValidStore q (check_creation identity q s) refl

  -- If every stored risk acceptance passes its model's validators, then they all do after `revoke`,
  -- whether it returns or raises, with a reason that is not empty and has at most 1000 characters.
  pub revoke-IsValidStore :
      (id : ℕ) (reason : Text) (now now' : ℕ)
      → is_empty reason ≡ false
      → length reason ≤ 1000
      → IsValidStore (revoke identity id reason now now' s).1
  unfolding revoke
  revoke-IsValidStore id reason now now' ne le =
      revoked-IsValidStore id reason now now' (check_revocation identity id reason now now' s) ne le
        refl
