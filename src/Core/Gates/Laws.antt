-- ===== src/Core/Gates/Laws.antt =====
-- The gates and the evidence behind them (core/security/gates.py).
use mathlib.Core.List.{Memᴰ}
use biaice.Common.{
  ℕ, ◌<◌, ◌≡◌, refl, ◌↔◌, inl, inr, Bool, true, false, Option, none, some, List, [], ◌∷◌, Text,
  keep, is_empty, arith, Option-cases,
}
use biaice.Core.Errors.{ok, >>=-eq-ok}
use biaice.Core.Gates.{
  GateName, GateAssessment, GateEvidence, real_data_mode, byok_secret_gate, pass, current,
  evidence_pass, required_evidence, supplied, is_missing, is_failed, is_undecided, is_expired,
  status_of, build_machine_assessment, is_pass_current, current_or_missing, current_assessment,
  missing_assessment, require, require_if, assert_startup_allowed,
}

-- The evidence supplied last for the key passed, and it is valid beyond the assessment.
abbrev pub IsProven : List GateEvidence → ℕ → Text → Type 0
IsProven evidence assessed_at key =
    (e : GateEvidence) × (supplied evidence key ≡ some e)
    × (e.status ≡ evidence_pass)
    × (assessed_at < e.expires_at)

keep_none :
    (p : Text → Bool) (xs : List Text) (x : Text)
    → is_empty (keep p xs) ≡ true
    → Memᴰ x xs
    → p x ≡ false
keep_none p [] x h m = elim m [ ]
keep_none p (y ∷ ys) x h (Memᴰ.head e) = rw e (ground arith)
keep_none p (y ∷ ys) x h (Memᴰ.tail m) = keep_none p ys x (ground arith) m

keep_all_false :
    (p : Text → Bool) (xs : List Text)
    → ((x : Text) → Memᴰ x xs → p x ≡ false)
    → is_empty (keep p xs) ≡ true
keep_all_false p [] h = refl
keep_all_false p (x ∷ xs) h =
    rw (h x (Memᴰ.head refl)) (keep_all_false p xs (λ y m. h y (Memᴰ.tail m)))

pass_of_status :
    (a b c d : List Text)
    → (status_of a b c d ≡ pass)
      ↔ ((is_empty a ≡ true) × (is_empty b ≡ true) × (is_empty c ≡ true) × (is_empty d ≡ true))
unfolding status_of
pass_of_status a b c d = ground arith

module _ (assessed_at : ℕ) where
  proven_of :
      (o : Option GateEvidence)
      → is_missing o ≡ false
      → is_failed o ≡ false
      → is_undecided o ≡ false
      → is_expired assessed_at o ≡ false
      → (e : GateEvidence) × (o ≡ some e)
        × (e.status ≡ evidence_pass)
        × (assessed_at < e.expires_at)
  proven_of none m f u x = cc
  proven_of (some e) m f u x = (e, refl, ground arith, ground arith)

  of_proven :
      (o : Option GateEvidence) (e : GateEvidence)
      → o ≡ some e
      → e.status ≡ evidence_pass
      → assessed_at < e.expires_at
      → (is_missing o ≡ false)
        × (is_failed o ≡ false)
        × (is_undecided o ≡ false)
        × (is_expired assessed_at o ≡ false)
  of_proven o e same passed valid = rw same (refl, ground arith, ground arith, ground arith)

module _ (sha256 : Text → Text) (canonical : List GateEvidence → Text) where
  -- An assessment passes exactly if each item of evidence that the gate requires is proven: the
  -- last one supplied under its key has the status PASS and expires after the assessment.
  pub build_machine_assessment_pass :
      (gate : GateName) (evidence : List GateEvidence) (responsible : Text)
      (assessed_at expires_at new_id : ℕ)
      → ((build_machine_assessment sha256 canonical gate evidence responsible assessed_at expires_at
            new_id).status
          ≡ pass)
        ↔ ((key : Text) → Memᴰ key (required_evidence gate) → IsProven evidence assessed_at key)
  unfolding build_machine_assessment
  build_machine_assessment_pass gate evidence responsible assessed_at expires_at new_id =
      let required = required_evidence gate in
      let gone : Text → Bool = (λ k. is_missing (supplied evidence k)) in
      let failed : Text → Bool = (λ k. is_failed (supplied evidence k)) in
      let undecided : Text → Bool = (λ k. is_undecided (supplied evidence k)) in
      let expired : Text → Bool = (λ k. is_expired assessed_at (supplied evidence k)) in
      let cases =
        pass_of_status (keep gone required) (keep failed required) (keep undecided required)
          (keep expired required) in
      (
        (λ p key m.
            let (a, b, c, d) = cases.0 p in
            proven_of assessed_at (supplied evidence key) (keep_none gone required key a m)
              (keep_none failed required key b m) (keep_none undecided required key c m)
              (keep_none expired required key d m)),
        λ all_proven.
            let at : (key : Text)
                → Memᴰ key required
                → (gone key ≡ false)
                  × (failed key ≡ false)
                  × (undecided key ≡ false)
                  × (expired key ≡ false) =
              (λ key m.
                let (e, same, passed, valid) = all_proven key m in
                of_proven assessed_at (supplied evidence key) e same passed valid) in
            cases.1 (
              keep_all_false gone required (λ key m. (at key m).0),
              keep_all_false failed required (λ key m. (at key m).1),
              keep_all_false undecided required (λ key m. (at key m).2),
              keep_all_false expired required (λ key m. (at key m).3),
            ),
      )

module _ (empty_hash : Text) (provider : GateName → Option GateAssessment) where
  -- The provider's assessment of the gate, which passed, is current, and expires after both times.
  abbrev pub IsOpen : ℕ → ℕ → GateName → GateAssessment → Type 0
  IsOpen now later gate a =
      (provider gate ≡ some a)
      × (a.status ≡ pass)
      × (a.validity ≡ current)
      × (now < a.expires_at)
      × (later < a.expires_at)

  -- A gate lets a call through exactly with a passed and current assessment of the provider, that
  -- has not expired at either reading of the clock; a missing assessment never does.
  pub require_iff :
      (now later : ℕ) (gate : GateName) (a : GateAssessment)
      → (require empty_hash provider now later gate ≡ ok a) ↔ IsOpen now later gate a
  unfolding require current_assessment current_or_missing missing_assessment is_pass_current
  require_iff now later gate a = elim (Option-cases (provider gate)) [
    | inl n ↦ (λ h. ground arith, λ h. ground arith)
    | inr (b, same) ↦ (
      λ h. (ground arith, ground arith, ground arith, ground arith, ground arith),
      λ h. ground arith,
    )
  ]

  require_if-eq-ok :
      (b : Bool) (now later : ℕ) (gate : GateName) {u : Unit {0}}
      → require_if empty_hash provider b now later gate ≡ ok u
      → b ≡ true
      → (a : GateAssessment) × IsOpen now later gate a
  unfolding require_if
  require_if-eq-ok false now later gate h b = cc
  require_if-eq-ok true now later gate h b =
      let (a, required, rest) =
        >>=-eq-ok (require empty_hash provider now later gate) (λ a. ok tt) h in
      (a, (require_iff now later gate a).0 required)

  -- A deployment starts with real data, or with customers' keys, only if the gate of that name is
  -- open.
  pub assert_startup_allowed_needs_gates :
      (real_data byok : Bool) (now later : ℕ) {u : Unit {0}}
      → assert_startup_allowed empty_hash provider real_data byok now later ≡ ok u
      → (real_data ≡ true → (a : GateAssessment) × IsOpen now later real_data_mode a)
        × (byok ≡ true → (a : GateAssessment) × IsOpen now later byok_secret_gate a)
  unfolding assert_startup_allowed
  assert_startup_allowed_needs_gates real_data byok now later h =
      let (u, first, rest) =
        >>=-eq-ok (require_if empty_hash provider real_data now later real_data_mode)
          (λ _. require_if empty_hash provider byok now later byok_secret_gate) h in
      (
        require_if-eq-ok real_data now later real_data_mode first,
        require_if-eq-ok byok now later byok_secret_gate rest,
      )
