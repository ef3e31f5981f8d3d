-- ===== src/Fact.antt =====
-- libEA/fact.cpp and fact.hpp: the facts, which make a claim from their inputs on each cycle. What
-- a fact reads of other objects, its inputs' validity and their values, are arguments. The call of
-- the fact's rain that ends each `Cycle` is in RainFact; the spillage, a float, is left out.
pub mod Claims
pub mod Sustained
mod Tests
use zandr_ea.Prelude.{
  ℕ, suc, ◌+◌, Bool, true, false, ◌||◌, ◌&&◌, List, [], ◌∷◌, Option, some, none, leb, ltb,
  if◌then◌else◌, differ, min, max,
}

-- The fields of `AFact` and of `ISeqElement` that a cycle reads and writes.
pub record Fact : Type 0 where
  pub valid_now : Bool
  pub valid_was : Bool
  pub claim_now : Bool
  pub claim_was : Bool
  pub claim_has_flipped : Bool
  pub time_of_claim_now : ℕ
  pub first_cycle : Bool

-- `AFact::AFact`. `NaNBOOL` is `false`, since `bool` has no NaN.
abbrev pub new_fact : Fact
new_fact = record {
  valid_now = true;
  valid_was = true;
  claim_now = false;
  claim_was = false;
  claim_has_flipped = false;
  time_of_claim_now = 0;
  first_cycle = true;
}

-- `CFactFromFacts::PullValidity`; `none` is the exception of `at( 0 )`.
abbrev pub and_all : Bool → List Bool → Bool
and_all reply [] = reply
and_all reply (v ∷ vs) = and_all (reply && v) vs

unfoldable pub pull_validity : List Bool → Option Bool
pull_validity [] = none
pull_validity (v ∷ vs) = some (and_all v vs)

-- `CFactFromFacts::CalcOwnTriggerGroup`; `none` where `max_element` has nothing to point to.
abbrev pub max_group : ℕ → List ℕ → ℕ
max_group g [] = g
max_group g (h ∷ hs) = max_group (max g h) hs

unfoldable pub calc_own_trigger_group : ℕ → List ℕ → Option ℕ
calc_own_trigger_group base [] = none
calc_own_trigger_group base (g ∷ gs) =
    some (if ltb (max_group g gs) base then base else max_group g gs + 1)

-- What a cycle does once the fact's validity is known: a valid fact makes its claim, and notes the
-- time when the claim or the validity is a new one.
abbrev pub make_claim : ℕ → Bool → Fact → Fact
make_claim now claim f = record f {
  claim_was = f.claim_now;
  claim_now = claim;
  claim_has_flipped = differ claim f.claim_now;
  time_of_claim_now =
      if differ claim f.claim_now || differ f.valid_was f.valid_now || f.first_cycle
      then now
      else f.time_of_claim_now;
}

-- `CFactFromFacts::Cycle`, on the operands' validity and the statement's value.
unfoldable pub cycle_from_facts : ℕ → List Bool → Bool → Fact → Option Fact
cycle_from_facts now operands statement f = elim (pull_validity operands) [
  | none ↦ none
  | some valid ↦
      let f' = record f { valid_was = f.valid_now; valid_now = valid } in
      some (record (if valid then make_claim now statement f' else f') { first_cycle = false })
]

-- `CFactFromChart::Cycle`, on the chart's validity and what its getter says.
unfoldable pub cycle_from_chart : ℕ → Bool → Bool → Fact → Fact
cycle_from_chart now chart_valid chart_says f =
    let f' = record f { valid_was = f.valid_now; valid_now = chart_valid } in
    record (if chart_valid then make_claim now chart_says f' else f') { first_cycle = false }

-- `CFactRelatingLeftToRight::Cycle`, on the validity of both sides and the result of the relation.
unfoldable pub cycle_relating_left_to_right : ℕ → Bool → Bool → Bool → Fact → Fact
cycle_relating_left_to_right now left_valid right_valid related f =
    let f' = record f { valid_was = f.valid_now; valid_now = left_valid && right_valid } in
    record (if left_valid && right_valid then make_claim now related f' else f') {
      first_cycle = false;
    }

-- `CFactFromClock::Cycle`, on the condition's value: it has no validity.
unfoldable pub cycle_from_clock : ℕ → Bool → Fact → Fact
cycle_from_clock now condition f = record f {
  claim_was = f.claim_now;
  claim_now = condition;
  claim_has_flipped = differ condition f.claim_now;
  time_of_claim_now =
      if differ condition f.claim_now || f.first_cycle then now else f.time_of_claim_now;
  first_cycle = false;
}

-- `CFactFromAntecedentSubject::Cycle`, on whether the subject's unit output is okay.
unfoldable pub cycle_from_antecedent_subject : ℕ → Bool → Fact → Fact
unfolding cycle_from_clock
cycle_from_antecedent_subject now okay f = cycle_from_clock now okay f

-- `CFactFromPoint::Cycle`, on the point's validity and the binary that it has posted.
unfoldable pub cycle_from_point : ℕ → Bool → Bool → Fact → Fact
cycle_from_point now point_valid posted f = record f {
  valid_was = f.valid_now;
  claim_was = f.claim_now;
  valid_now = point_valid;
  claim_now = claim;
  claim_has_flipped = differ claim f.claim_now;
  time_of_claim_now =
      if differ claim f.claim_now || differ f.valid_now point_valid || f.first_cycle
      then now
      else f.time_of_claim_now;
  first_cycle = false;
}
  where
    claim : Bool
    claim = if point_valid then posted else f.claim_now

-- `CFactFromProcess::Cycle`, on the process' validity and the Boolean that it has posted.
unfoldable pub cycle_from_process : ℕ → Bool → Bool → Fact → Fact
unfolding cycle_from_point
cycle_from_process now process_valid posted f = cycle_from_point now process_valid posted f

-- `ESustainedAs` and `CFactSustained`.
pub data SustainedAs : Type 0 where
  sustained_true sustained_false true_xor_false : SustainedAs

pub record FactSustained : Type 0 where
  pub fact : Fact
  pub watch_mode : SustainedAs
  pub min_cycles_to_sustain : ℕ
  pub cycles_sustained : ℕ
  pub claim_to_watch : Bool

unfoldable pub first_watch : SustainedAs → Bool → Bool
first_watch true_xor_false watched = watched
first_watch sustained_true watched = true
first_watch sustained_false watched = false

abbrev pub is_xor : SustainedAs → Bool
is_xor true_xor_false = true
is_xor sustained_true = false
is_xor sustained_false = false

-- The part of `CFactSustained::Cycle` for the first cycle.
unfoldable pub start_watch : Bool → FactSustained → FactSustained
unfolding first_watch
start_watch watched s =
    if s.fact.first_cycle
    then record s {
      claim_to_watch = first_watch s.watch_mode watched;
      fact = record s.fact { first_cycle = false };
    }
    else s

-- The rest of it for a fact to watch that is valid. `cyclesSustained > minCyclesToSustain - 1` is on
-- `int`, so it holds at a minimum of 0.
unfoldable pub sustain : ℕ → Bool → FactSustained → FactSustained
sustain now watched s = record s {
  cycles_sustained = cycles;
  claim_to_watch =
      if differ claim s.fact.claim_was && is_xor s.watch_mode then watched else s.claim_to_watch;
  fact = record s.fact {
    claim_now = claim;
    claim_has_flipped = differ claim s.fact.claim_was;
    time_of_claim_now =
        if differ claim s.fact.claim_was
          || differ s.fact.valid_was s.fact.valid_now
          || s.fact.first_cycle
        then now
        else s.fact.time_of_claim_now;
  };
}
  where
    cycles : ℕ
    cycles =
        if differ s.claim_to_watch watched
        then 0
        else min s.min_cycles_to_sustain (s.cycles_sustained + 1)

    claim : Bool
    claim = leb s.min_cycles_to_sustain cycles

-- `CFactSustained::Cycle`, on the validity and the claim of the fact to watch.
unfoldable pub cycle_sustained : ℕ → Bool → Bool → FactSustained → FactSustained
unfolding start_watch sustain
cycle_sustained now watched_valid watched s =
    let s' = start_watch watched s in
    let f = s'.fact in
    let s'' = record s' {
      fact = record f {
        valid_was = f.valid_now;
        valid_now = watched_valid;
        claim_was = f.claim_now;
      };
    } in
    if watched_valid then sustain now watched s'' else s''
