-- ===== src/Fact/Claims.antt =====
-- libEA/fact.cpp and fact.hpp: what a fact claims after any run of cycles, and since when.
use zandr_ea.Prelude.{
  ℕ, suc, ◌≤◌, ◌<◌, ◌≡◌, refl, ap, ◌∙◌, Bool, true, false, ◌||◌, ◌&&◌, not, List, [], ◌∷◌, some,
  none, if◌then◌else◌, differ, arith, all, All, ◌⊎◌, max,
}
use zandr_ea.Fact.{
  Fact, and_all, pull_validity, calc_own_trigger_group, max_group, cycle_from_facts,
  cycle_from_chart,
}

-- One cycle's inputs: its time, the validity of the input and what it says.
pub record Sample : Type 0 where
  pub time : ℕ
  pub valid : Bool
  pub says : Bool

abbrev pub run_chart : List Sample → Fact → Fact
run_chart [] f = f
run_chart (s ∷ ss) f = run_chart ss (cycle_from_chart s.time s.valid s.says f)

-- What the last valid sample says, if there is one.
abbrev pub last_valid : Bool → List Sample → Bool
last_valid claim [] = claim
last_valid claim (s ∷ ss) = last_valid (if s.valid then s.says else claim) ss

chart_claim :
    (s : Sample) (f : Fact)
    → (cycle_from_chart s.time s.valid s.says f).claim_now
      ≡ (if s.valid then s.says else f.claim_now)
unfolding cycle_from_chart
chart_claim s f = ground arith

-- Over any cycles, a fact on a chart claims what the chart said on the last cycle on which it was
-- valid, and until there is one what it claimed before.
run_chart-claim :
    (ss : List Sample) (f : Fact) → (run_chart ss f).claim_now ≡ last_valid f.claim_now ss
run_chart-claim [] f = refl
run_chart-claim (s ∷ ss) f =
    run_chart-claim ss (cycle_from_chart s.time s.valid s.says f)
    ∙ ap (λ c. last_valid c ss) (chart_claim s f)

-- A sample that is valid and says a given claim.
abbrev pub Says : Bool → Sample → Type 0
Says c s = (s.valid ≡ true) × (s.says ≡ c)

chart_steady :
    (c : Bool) (s : Sample) (f : Fact)
    → Says c s
    → f.first_cycle ≡ false
    → f.valid_now ≡ true
    → f.claim_now ≡ c
    → let f' = cycle_from_chart s.time s.valid s.says f in
      (f'.time_of_claim_now ≡ f.time_of_claim_now)
      × (f'.first_cycle ≡ false)
      × (f'.valid_now ≡ true)
      × (f'.claim_now ≡ c)
unfolding cycle_from_chart
chart_steady c s f (v, w) first valid claim = ground arith

chart_onset :
    (c : Bool) (s : Sample) (f : Fact)
    → Says c s
    → (f.first_cycle || not f.valid_now || differ f.claim_now c) ≡ true
    → let f' = cycle_from_chart s.time s.valid s.says f in
      (f'.time_of_claim_now ≡ s.time)
      × (f'.first_cycle ≡ false)
      × (f'.valid_now ≡ true)
      × (f'.claim_now ≡ c)
unfolding cycle_from_chart
chart_onset c s f (v, w) new = ground arith

chart_rest :
    (c : Bool) (ss : List Sample) (f : Fact)
    → All (Says c) ss
    → f.first_cycle ≡ false
    → f.valid_now ≡ true
    → f.claim_now ≡ c
    → (run_chart ss f).time_of_claim_now ≡ f.time_of_claim_now
chart_rest c [] f h first valid claim = refl
chart_rest c (s ∷ ss) f (h, hs) first valid claim =
    let (same, first', valid', claim') = chart_steady c s f h first valid claim in
    chart_rest c ss (cycle_from_chart s.time s.valid s.says f) hs first' valid' claim' ∙ same

-- The time of the claim of a fact on a chart is that of the cycle on which the claim began: the first cycle
-- of a run of valid cycles that all claim the same, after a cycle that was not valid or claimed otherwise,
-- or at the start.
pub run_chart-onset :
    (c : Bool) (s : Sample) (ss : List Sample) (f : Fact)
    → All (Says c) (s ∷ ss)
    → (f.first_cycle || not f.valid_now || differ f.claim_now c) ≡ true
    → (run_chart (s ∷ ss) f).time_of_claim_now ≡ s.time
run_chart-onset c s ss f (h, hs) new =
    let (at, first, valid, claim) = chart_onset c s f h new in
    chart_rest c ss (cycle_from_chart s.time s.valid s.says f) hs first valid claim ∙ at

and_all-lem : (v : Bool) (vs : List Bool) → and_all v vs ≡ (v && all (λ b. b) vs)
and_all-lem true [] = refl
and_all-lem false [] = refl
and_all-lem true (w ∷ vs) = and_all-lem w vs
and_all-lem false (w ∷ vs) = and_all-lem false vs

-- A fact on facts does on each cycle what a fact on a chart does whose chart is valid just when all
-- the operands are; without operands there is no cycle.
cycle_from_facts-chart :
    (now : ℕ) (operands : List Bool) (statement : Bool) (f : Fact)
    → cycle_from_facts now operands statement f ≡ elim operands [
      | [] ↦ none
      | v ∷ vs ↦ some (cycle_from_chart now (v && all (λ b. b) vs) statement f)
    ]
unfolding cycle_from_facts cycle_from_chart pull_validity
cycle_from_facts-chart now [] statement f = refl
cycle_from_facts-chart now (v ∷ vs) statement f = rw (and_all-lem v vs)

max_group-above : (g : ℕ) (gs : List ℕ) → (g ≤ max_group g gs) × All (λ h. h ≤ max_group g gs) gs
max_group-above g [] = (omega arith, tt)
max_group-above g (h ∷ hs) =
    let (le, all_le) = max_group-above (max g h) hs in (omega arith, (omega arith, all_le))

before :
    (base own top : ℕ) (gs : List ℕ)
    → All (λ h. h ≤ top) gs
    → ((own ≡ base) × (top < base)) ⊎ ((own ≡ suc top) × (base ≤ top))
    → All (λ h. (h < own) ⊎ (h < base)) gs
before base own top [] h c = tt
before base own top (g ∷ gs) (h, hs) c = (ground arith, before base own top gs hs c)

-- A fact on facts gets a group that is not below its base, and above that of each of its operands
-- that is not below the base itself.
calc_own_trigger_group-after :
    (base own : ℕ) (gs : List ℕ)
    → calc_own_trigger_group base gs ≡ some own
    → (base ≤ own) × All (λ h. (h < own) ⊎ (h < base)) gs
unfolding calc_own_trigger_group
calc_own_trigger_group-after base own [] e = ground arith
calc_own_trigger_group-after base own (g ∷ gs) e =
    let (first, others) = max_group-above g gs in
    let cases : ((own ≡ base) × (max_group g gs < base))
        ⊎ ((own ≡ suc (max_group g gs)) × (base ≤ max_group g gs)) =
      ground arith in
    (omega arith, (ground arith, before base own (max_group g gs) gs others cases))
