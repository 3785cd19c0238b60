-- ===== src/Simulation/Selection/Laws.antt =====
-- What the selection of candidates awards.
use biaice.Common.{
  ℕ, zero, suc, ◌+◌, ◌≡◌, refl, sym, ap, ◌∙◌, true, false, not, List, [], ◌∷◌, ◌++◌, map, keep,
  length, length-append, leb, ℤ, pos, ◌+ℤ◌, ltℤ, arith, Bool-cases, inl, inr,
}
use biaice.Simulation.Selection.{
  AwardMode, single, multi, no_award, SimulationCandidate, RankedCandidate, Tally, empty_tally,
  taken, stops, select_loop, plan_of, select_objective_candidates,
}

-- The specification: the first of the candidates that clear the threshold, as many as the mode
-- awards, with the sums of their costs and margins.
abbrev pub clearing : ℤ → List RankedCandidate → List SimulationCandidate
clearing threshold ranked =
    map (λ (r : RankedCandidate). r.candidate)
      (keep (λ r. not (ltℤ r.candidate.expected_margin threshold)) ranked)

abbrev pub first : ℕ → List SimulationCandidate → List SimulationCandidate
first zero cs = []
first (suc k) [] = []
first (suc k) (c ∷ cs) = c ∷ first k cs

abbrev pub awarded : AwardMode → List SimulationCandidate → List SimulationCandidate
awarded single cs = first 1 cs
awarded multi cs = first 4 cs
awarded no_award cs = cs

abbrev pub total : (SimulationCandidate → ℤ) → ℤ → List SimulationCandidate → ℤ
total f sum [] = sum
total f sum (c ∷ cs) = total f (sum +ℤ f c) cs

total-append :
    (f : SimulationCandidate → ℤ) (sum : ℤ) (cs : List SimulationCandidate)
    (c : SimulationCandidate)
    → total f sum (cs ++ c ∷ []) ≡ total f sum cs +ℤ f c
total-append f sum [] c = refl
total-append f sum (x ∷ cs) c = total-append f (sum +ℤ f x) cs c

append_assoc :
    (xs : List SimulationCandidate) (c : SimulationCandidate) (ys : List SimulationCandidate)
    → (xs ++ c ∷ []) ++ ys ≡ xs ++ c ∷ ys
append_assoc [] c ys = refl
append_assoc (x ∷ xs) c ys = ap (λ zs. x ∷ zs) (append_assoc xs c ys)

append_nil : (xs : List SimulationCandidate) → xs ++ [] ≡ xs
append_nil [] = refl
append_nil (x ∷ xs) = ap (λ zs. x ∷ zs) (append_nil xs)

-- The sums of the loop are those of the selected candidates.
record IsTallied (t : Tally) : Type 0 where
  cost : t.total_cost ≡ total (λ c. c.expected_cost) (pos 0) t.selected
  margin : t.total_margin ≡ total (λ c. c.expected_margin) (pos 0) t.selected

taken-IsTallied : (c : SimulationCandidate) (t : Tally) → IsTallied t → IsTallied (taken c t)
taken-IsTallied c t h = record {
  cost =
      ap (λ s. s +ℤ c.expected_cost) h.cost
      ∙ sym (total-append (λ x. x.expected_cost) (pos 0) t.selected c);
  margin =
      ap (λ s. s +ℤ c.expected_margin) h.margin
      ∙ sym (total-append (λ x. x.expected_margin) (pos 0) t.selected c);
}

select_loop-IsTallied :
    (mode : AwardMode) (threshold : ℤ) (rs : List RankedCandidate) (t : Tally)
    → IsTallied t
    → IsTallied (select_loop mode threshold rs t)
unfolding select_loop
select_loop-IsTallied mode threshold [] t h = h
select_loop-IsTallied mode threshold (r ∷ rs) t h =
    elim (Bool-cases (ltℤ r.candidate.expected_margin threshold)) [
      | inl y ↦ rw y (select_loop-IsTallied mode threshold rs t h)
      | inr n ↦ rw n (elim (Bool-cases (stops mode (taken r.candidate t))) [
        | inl s ↦ rw s (taken-IsTallied r.candidate t h)
        | inr g ↦ rw g (
            select_loop-IsTallied mode threshold rs (taken r.candidate t)
              (taken-IsTallied r.candidate t h))
      ])
    ]

select_unlimited :
    (threshold : ℤ) (rs : List RankedCandidate) (t : Tally)
    → (select_loop no_award threshold rs t).selected ≡ t.selected ++ clearing threshold rs
unfolding select_loop
select_unlimited threshold [] t = sym (append_nil t.selected)
select_unlimited threshold (r ∷ rs) t =
    elim (Bool-cases (ltℤ r.candidate.expected_margin threshold)) [
      | inl y ↦ rw y (select_unlimited threshold rs t)
      | inr n ↦ rw n (
          select_unlimited threshold rs (taken r.candidate t)
          ∙ append_assoc t.selected r.candidate (clearing threshold rs))
    ]

select_single :
    (threshold : ℤ) (rs : List RankedCandidate) (t : Tally)
    → (select_loop single threshold rs t).selected ≡ t.selected ++ first 1 (clearing threshold rs)
unfolding select_loop
select_single threshold [] t = sym (append_nil t.selected)
select_single threshold (r ∷ rs) t = elim (Bool-cases (ltℤ r.candidate.expected_margin threshold)) [
  | inl y ↦ rw y (select_single threshold rs t)
  | inr n ↦ rw n refl
]

select_multi :
    (threshold : ℤ) (rs : List RankedCandidate) (k : ℕ) (t : Tally)
    → length t.selected + suc k ≡ 4
    → (select_loop multi threshold rs t).selected
      ≡ t.selected ++ first (suc k) (clearing threshold rs)
unfolding select_loop
select_multi threshold [] k t room = sym (append_nil t.selected)
select_multi threshold (r ∷ rs) zero t room =
    elim (Bool-cases (ltℤ r.candidate.expected_margin threshold)) [
      | inl y ↦ rw y (select_multi threshold rs zero t room)
      | inr n ↦
          let full : leb 4 (length (t.selected ++ r.candidate ∷ [])) ≡ true =
            ground (arith, length-append t.selected (r.candidate ∷ [])) in
          rw (n, full) refl
    ]
select_multi threshold (r ∷ rs) (suc k) t room =
    elim (Bool-cases (ltℤ r.candidate.expected_margin threshold)) [
      | inl y ↦ rw y (select_multi threshold rs (suc k) t room)
      | inr n ↦
          let longer : length (t.selected ++ r.candidate ∷ []) + suc k ≡ 4 =
            omega (arith, length-append t.selected (r.candidate ∷ [])) in
          let space : leb 4 (length (t.selected ++ r.candidate ∷ [])) ≡ false = ground arith in
          rw (n, space)
            (select_multi threshold rs k (taken r.candidate t) longer
              ∙ append_assoc t.selected r.candidate (first (suc k) (clearing threshold rs)))
    ]

loop-awarded :
    (mode : AwardMode) (threshold : ℤ) (rs : List RankedCandidate)
    → (select_loop mode threshold rs empty_tally).selected ≡ awarded mode (clearing threshold rs)
loop-awarded single threshold rs = select_single threshold rs empty_tally
loop-awarded multi threshold rs = select_multi threshold rs 3 empty_tally refl
loop-awarded no_award threshold rs = select_unlimited threshold rs empty_tally

plan_of-parts :
    (mode : AwardMode) (xs : List SimulationCandidate) (a b : ℤ)
    → a ≡ total (λ c. c.expected_cost) (pos 0) xs
    → b ≡ total (λ c. c.expected_margin) (pos 0) xs
    → let p = plan_of mode (record { selected = xs; total_cost = a; total_margin = b }) in
      (p.selected ≡ xs)
      × (p.total_expected_cost ≡ total (λ c. c.expected_cost) (pos 0) xs)
      × (p.total_expected_margin ≡ total (λ c. c.expected_margin) (pos 0) xs)
plan_of-parts mode [] a b h k = (refl, refl, refl)
plan_of-parts mode (x ∷ xs) a b h k = (refl, h, k)

-- The plan holds the first candidates of the ranking whose margin clears the threshold, one for
-- SINGLE, four at most for MULTI and all of them for NONE, with the sums of their costs and margins.
pub select_objective_candidates_awards :
    (ranked : List RankedCandidate) (threshold : ℤ) (mode : AwardMode)
    → let p = select_objective_candidates ranked threshold mode in
      let cs = awarded mode (clearing threshold ranked) in
      (p.selected ≡ cs)
      × (p.total_expected_cost ≡ total (λ c. c.expected_cost) (pos 0) cs)
      × (p.total_expected_margin ≡ total (λ c. c.expected_margin) (pos 0) cs)
unfolding select_objective_candidates
select_objective_candidates_awards ranked threshold mode =
    let tally = select_loop mode threshold ranked empty_tally in
    let tallied =
      select_loop-IsTallied mode threshold ranked empty_tally
        (record { cost = refl; margin = refl }) in
    rw⁻¹ (loop-awarded mode threshold ranked) (
      plan_of-parts mode tally.selected tally.total_cost tally.total_margin tallied.cost
        tallied.margin)
