-- ===== src/RuleKit.antt =====
-- libEA/rainfall.cpp: `CRainRuleKit`, the rainfall of a rule kit: the logs of its rules' results and
-- the trap that finds the rule to open a case on. The rule table and the log table have the same keys
-- and iterate alike, so they are one list of rows.
pub mod Sums
pub mod Trap
pub mod Cycle
mod Tests
use zandr_ea.Prelude.{
  ℕ, suc, zero, ◌+◌, ◌-◌, Bool, true, false, ◌&&◌, List, [], ◌∷◌, ◌++◌, map, Option, some, none,
  ◌==◌, ltb, leb, if◌then◌else◌, length, get_or, init, replicate, sum, to_int, emplace, overwrite,
  erase,
}
use zandr_ea.Types.{
  ApiReply, okay_tally_one, okay_tally_zero, bindex_rule_auto_mode_fail, krono_snapshot_size,
  rule_rain_fails_in_empty_trap_max,
}
use zandr_ea.Rule.{
  Rule, RuleInput, cycle_and_say_bindex, is_in_auto_mode, has_snapshot_set,
  save_antecedent_snapshots, destroy_snapshot_set,
}
use zandr_ea.TimeAxis.{TimeAxis, create_snapshot, destroy_snapshot}

-- A rule of the kit, and the log of its results from the newest to the oldest.
pub record Row : Type 0 where
  pub rule : Rule
  pub log : List ℕ

-- The first entries of a log; `none` where the code steps past its end.
abbrev pub take_exact : ℕ → List ℕ → Option (List ℕ)
take_exact zero xs = some []
take_exact (suc n) [] = none
take_exact (suc n) (x ∷ xs) = elim (take_exact n xs) [ none ↦ none | some ys ↦ some (x ∷ ys) ]

-- A column of the rainfall register, from the newest cycle to the oldest of the trap.
unfoldable pub fail_column : ℕ → Row → Option (List Bool)
fail_column span r = elim (take_exact span r.log) [
  | none ↦ none
  | some xs ↦ some (map (λ x. (x == bindex_rule_auto_mode_fail) && is_in_auto_mode r.rule) xs)
]

-- The column of a rule is written to the right of those before it.
unfoldable pub write_column : List Bool → List (List Bool) → List (List Bool)
write_column [] rows = rows
write_column (b ∷ bs) [] = []
write_column (b ∷ bs) (row ∷ rows) = (row ++ b ∷ []) ∷ write_column bs rows

-- `CRainRuleKit::WriteFailsOnRulesToRainfall`: the rows of the register that the trap spans.
unfoldable pub write_fails : ℕ → List Row → List (List Bool) → Option (List (List Bool))
write_fails span [] reg = some reg
write_fails span (r ∷ rs) reg = elim (fail_column span r) [
  | none ↦ none
  | some column ↦ write_fails span rs (write_column column reg)
]

abbrev pub add_fails : List Bool → List ℕ → List ℕ
add_fails [] sums = sums
add_fails (b ∷ bs) [] = []
add_fails (b ∷ bs) (s ∷ sums) = (if b then s + 1 else s) ∷ add_fails bs sums

-- The two loops that sum the fails by rule.
abbrev pub sum_fails : List (List Bool) → List ℕ → List ℕ
sum_fails [] sums = sums
sum_fails (row ∷ rows) sums = sum_fails rows (add_fails row sums)

-- `std::max_element` and `std::min_element`, as the distance from the begin: `at` is the place and
-- `v` the value of the best one up to place `i`.
abbrev pub max_from : ℕ → ℕ → ℕ → List ℕ → ℕ
max_from at v i [] = at
max_from at v i (x ∷ xs) = if ltb v x then max_from i x (suc i) xs else max_from at v (suc i) xs

abbrev pub min_from : ℕ → ℕ → ℕ → List ℕ → ℕ
min_from at v i [] = at
min_from at v i (x ∷ xs) = if ltb x v then min_from i x (suc i) xs else min_from at v (suc i) xs

abbrev pub max_element : List ℕ → ℕ
max_element [] = 0
max_element (x ∷ xs) = max_from 0 x 1 xs

abbrev pub min_element : List ℕ → ℕ
min_element [] = 0
min_element (x ∷ xs) = min_from 0 x 1 xs

-- 1 for each rule that holds no snapshot.
abbrev pub no_snapshot : Row → ℕ
no_snapshot r = to_int (r.rule.snapshot_set_sgi == 0)

abbrev pub add_each : List ℕ → List ℕ → List ℕ
add_each [] sums = sums
add_each (x ∷ xs) [] = []
add_each (x ∷ xs) (s ∷ sums) = (x + s) ∷ add_each xs sums

abbrev pub uai_of : Row → ℕ
uai_of r = r.rule.rule_uai

-- `SRuleTrapResult`.
pub record RuleTrapResult : Type 0 where
  pub uai_of_rule_trapped_for_new_case : ℕ
  pub uai_of_rule_to_wipe_of_snapshots : ℕ

-- The part of `EnableTrapAndSayResult` after the fails are summed.
unfoldable pub spring_trap : List Row → List ℕ → RuleTrapResult
spring_trap rs sums =
    if ltb rule_rain_fails_in_empty_trap_max (sum sums)
    then record {
      uai_of_rule_trapped_for_new_case = most;
      uai_of_rule_to_wipe_of_snapshots = if least == most then 0 else least;
    }
    else record { uai_of_rule_trapped_for_new_case = 0; uai_of_rule_to_wipe_of_snapshots = 0 }
  where
    most : ℕ
    most = get_or (map uai_of rs) (max_element sums) 0

    least : ℕ
    least = get_or (map uai_of rs) (min_element (add_each (map no_snapshot rs) sums)) 0

-- `CRainRuleKit::EnableTrapAndSayResult`; `none` where a log is shorter than the trap.
unfoldable pub enable_trap : ℕ → List Row → Option RuleTrapResult
unfolding spring_trap
enable_trap span rs = elim (write_fails span rs (replicate span [])) [
  | none ↦ none
  | some reg ↦ some (spring_trap rs (sum_fails reg (replicate (length rs) 0)))
]
