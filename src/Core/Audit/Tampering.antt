-- ===== src/Core/Audit/Tampering.antt =====
-- Chains that `verify_hash_chain` accepts with the same last hash (core/audit.py).
use biaice.Common.{
  ℕ, subst, ◌≡◌, refl, sym, ap, ◌∙◌, ◌≢◌, ◌⊎◌, inl, inr, Bool, true, false, ◌&&◌, Option, none,
  some, List, [], ◌∷◌, Text, text_eq, text_eq_refl, text_eq→≡, opt_eq, ◌==◌, ==_refl, ==→≡, length,
  arith, Bool-cases,
}
use biaice.Core.Errors.{ok}
use biaice.Core.Audit.{Unsigned, AuditEvent, genesis_hash, verify_from, verify_hash_chain}

-- Two different contents with the same digest.
pub Collision : (Unsigned → Text) → Type 0
Collision digest = (u : Unsigned) × (v : Unsigned) × (u ≢ v) × (digest u ≡ digest v)

texts_eq : List Text → List Text → Bool
texts_eq [] [] = true
texts_eq [] (_ ∷ _) = false
texts_eq (_ ∷ _) [] = false
texts_eq (s ∷ ss) (t ∷ ts) = text_eq s t && texts_eq ss ts

texts_eq_refl : (ss : List Text) → texts_eq ss ss ≡ true
unfolding texts_eq
texts_eq_refl [] = refl
texts_eq_refl (s ∷ ss) = ground (arith, text_eq_refl s, texts_eq_refl ss)

texts_eq→≡ : (ss ts : List Text) → texts_eq ss ts ≡ true → ss ≡ ts
unfolding texts_eq
texts_eq→≡ [] [] h = refl
texts_eq→≡ [] (_ ∷ _) h = cc
texts_eq→≡ (_ ∷ _) [] h = cc
texts_eq→≡ (s ∷ ss) (t ∷ ts) h = ground (arith, text_eq→≡ s t, texts_eq→≡ ss ts)

opt_eq_refl : (o : Option ℕ) → opt_eq o o ≡ true
opt_eq_refl none = refl
opt_eq_refl (some a) = ==_refl a

opt_eq→≡ : (o p : Option ℕ) → opt_eq o p ≡ true → o ≡ p
opt_eq→≡ none none h = refl
opt_eq→≡ none (some b) h = cc
opt_eq→≡ (some a) none h = cc
opt_eq→≡ (some a) (some b) h = ap some (==→≡ a b h)

unsigned_eq : Unsigned → Unsigned → Bool
unsigned_eq u v =
    u.audit_id == v.audit_id
    && (u.tenant_id == v.tenant_id
        && (u.data_domain_id == v.data_domain_id
            && (u.actor_id == v.actor_id
                && (texts_eq u.actor_roles v.actor_roles
                    && (text_eq u.action v.action
                        && (text_eq u.object_type v.object_type
                            && (u.object_id == v.object_id
                                && (opt_eq u.object_version_id v.object_version_id
                                    && (text_eq u.request_id v.request_id
                                        && (text_eq u.reason_code v.reason_code
                                            && (text_eq u.outcome v.outcome
                                                && (u.trusted_at == v.trusted_at
                                                    && text_eq u.previous_hash
                                                        v.previous_hash))))))))))))

unsigned_eq_refl : (u : Unsigned) → unsigned_eq u u ≡ true
unfolding unsigned_eq
unsigned_eq_refl u =
    rw
      (
        ==_refl u.audit_id,
        ==_refl u.tenant_id,
        ==_refl u.data_domain_id,
        ==_refl u.actor_id,
        texts_eq_refl u.actor_roles,
        text_eq_refl u.action,
        text_eq_refl u.object_type,
        ==_refl u.object_id,
        opt_eq_refl u.object_version_id,
        text_eq_refl u.request_id,
        text_eq_refl u.reason_code,
        text_eq_refl u.outcome,
        ==_refl u.trusted_at,
        text_eq_refl u.previous_hash,
      )
      refl

unsigned_eq→≡ : (u v : Unsigned) → unsigned_eq u v ≡ true → u ≡ v
unfolding unsigned_eq
unsigned_eq→≡ u v h = ground (
  arith,
  texts_eq→≡ u.actor_roles v.actor_roles,
  text_eq→≡ u.action v.action,
  text_eq→≡ u.object_type v.object_type,
  opt_eq→≡ u.object_version_id v.object_version_id,
  text_eq→≡ u.request_id v.request_id,
  text_eq→≡ u.reason_code v.reason_code,
  text_eq→≡ u.outcome v.outcome,
  text_eq→≡ u.previous_hash v.previous_hash,
)

unsigned-cases : (u v : Unsigned) → (u ≡ v) ⊎ (u ≢ v)
unsigned-cases u v = elim (Bool-cases (unsigned_eq u v)) [
  | inl y ↦ inl (unsigned_eq→≡ u v y)
  | inr n ↦ inr (λ same.
      let t : unsigned_eq u v ≡ true =
        subst (λ w. unsigned_eq u w ≡ true) same (unsigned_eq_refl u) in
      cc)
]

event_eq : (e f : AuditEvent) → e.unsigned ≡ f.unsigned → e.event_hash ≡ f.event_hash → e ≡ f
event_eq e f u h = ground arith

ap-cons : {e f : AuditEvent} {es fs : List AuditEvent} → e ≡ f → es ≡ fs → e ∷ es ≡ f ∷ fs
ap-cons {e} {f} {es} {fs} h k = ap (λ x. x ∷ es) h ∙ ap (λ xs. f ∷ xs) k

module _ (digest : Unsigned → Text) where
  verify_from_head :
      (e : AuditEvent) (es : List AuditEvent) (start : Text) (expected : Option (ℕ × ℕ)) (h : Text)
      → verify_from digest start expected (e ∷ es) ≡ ok h
      → (e.unsigned.previous_hash ≡ start)
        × (digest e.unsigned ≡ e.event_hash)
        × (verify_from digest e.event_hash
              (some (e.unsigned.tenant_id, e.unsigned.data_domain_id))
              es
            ≡ ok h)
  unfolding verify_from
  verify_from_head e es start expected h v = (
    ground (arith, text_eq→≡ e.unsigned.previous_hash start),
    ground (arith, text_eq→≡ (digest e.unsigned) e.event_hash),
    ground arith,
  )

  chains_agree :
      (es fs : List AuditEvent) (start start' : Text) (expected expected' : Option (ℕ × ℕ))
      (h : Text)
      → verify_from digest start expected es ≡ ok h
      → verify_from digest start' expected' fs ≡ ok h
      → length es ≡ length fs
      → ((start ≡ start') × (es ≡ fs)) ⊎ Collision digest
  unfolding verify_from Collision
  chains_agree [] [] start start' x x' h v w l = inl (ground arith, refl)
  chains_agree [] (f ∷ fs) start start' x x' h v w l = ground arith
  chains_agree (e ∷ es) [] start start' x x' h v w l = ground arith
  chains_agree (e ∷ es) (f ∷ fs) start start' x x' h v w l =
      let (linked, hashed, rest) = verify_from_head e es start x h v in
      let (linked', hashed', rest') = verify_from_head f fs start' x' h w in
      elim (chains_agree es fs e.event_hash f.event_hash _ _ h rest rest' (omega arith)) [
        | inr c ↦ inr c
        | inl agree ↦ elim (unsigned-cases e.unsigned f.unsigned) [
          | inr differ ↦ inr (e.unsigned, f.unsigned, differ, hashed ∙ agree.0 ∙ sym hashed')
          | inl same ↦ inl (
            sym linked ∙ ap (λ (u : Unsigned). u.previous_hash) same ∙ linked',
            ap-cons (event_eq e f same agree.0) agree.1,
          )
        ]
      ]

  -- Two chains of the same length that verify to the same last hash are equal event for event, or
  -- there is a collision of the digest.
  pub verified_chain_unique :
      (es fs : List AuditEvent) (h : Text)
      → verify_hash_chain digest es ≡ ok h
      → verify_hash_chain digest fs ≡ ok h
      → length es ≡ length fs
      → (es ≡ fs) ⊎ Collision digest
  unfolding verify_hash_chain
  verified_chain_unique es fs h v w l =
      elim (chains_agree es fs genesis_hash genesis_hash none none h v w l) [
        | inl agree ↦ inl agree.1
        | inr c ↦ inr c
      ]
