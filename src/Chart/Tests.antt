-- ===== src/Chart/Tests.antt =====
-- libEA/chart.cpp: charts on numbers, with a score that trips above 5 and registers that add up.
use zandr_ea.Prelude.{ℕ, ◌+◌, ◌≤◌, ◌≡◌, refl, Bool, true, false, List, [], ◌∷◌, ◌==◌, ltb, arith}
use zandr_ea.Chart.{
  ChartInput, ChartTracking, new_shewhart, cycle_shewhart, apply_shewhart, pull_input,
  cycle_tracking, apply_tracking,
}
use zandr_ea.Chart.Steady.{run_shewhart, run_shewhart-steady}
use zandr_ea.Chart.Tracking.{verdicts, run_invalid, run_invalid-reverts}

abbrev above_five : ℕ → ℕ → ℕ → Bool
above_five x mean deviation = ltb 5 x

abbrev reading : ℕ → Bool × ChartInput ℕ
reading x = (true, record { x_now = x; x_mean = 2; x_std_dev = 1 })

-- An invalid cycle, a quiet one and a trip.
abbrev readings : List (Bool × ChartInput ℕ)
readings = (false, (reading 1).1) ∷ reading 2 ∷ reading 9 ∷ []

run_shewhart-steady_example :
    ((run_shewhart above_five readings (new_shewhart 0 3)).trip_free_count ≤ 3)
    × ((run_shewhart above_five readings (new_shewhart 0 3)).is_steady_now
        ≡ ((run_shewhart above_five readings (new_shewhart 0 3)).trip_free_count == 3))
unfolding cycle_shewhart apply_shewhart pull_input
run_shewhart-steady_example = run_shewhart-steady above_five 0 3 readings (omega arith) refl

-- A single trip, and a single quiet cycle after it.
one_trip : (run_shewhart above_five readings (new_shewhart 0 3)).is_steady_now ≡ false
unfolding cycle_shewhart apply_shewhart pull_input
one_trip = refl

one_quiet :
    (run_shewhart above_five
      (reading 2 ∷ reading 9 ∷ reading 2 ∷ [])
      (new_shewhart 0 3)).is_steady_now
    ≡ true
unfolding cycle_shewhart apply_shewhart pull_input
one_quiet = refl

abbrev quiet_chart : ChartTracking ℕ
quiet_chart = record {
  valid_now = true;
  tracker_on = true;
  registers = 3;
  apps_since_reset = 0;
  apps_btwn_resets = 4;
  is_falling_now = false;
  is_hunting_now = false;
  is_rising_now = false;
  was_falling_on_last_valid = false;
  was_hunting_on_last_valid = false;
  was_rising_on_last_valid = false;
}

abbrev reaches_four : ℕ → Bool
reaches_four n = ltb 3 n

abbrev never : ℕ → Bool
never n = false

-- The chart rises on the valid cycle.
rises_first :
    (cycle_tracking 0 (λ n. n + 1) never never reaches_four true true quiet_chart).is_rising_now
    ≡ true
unfolding cycle_tracking apply_tracking
rises_first = refl

run_invalid-reverts_example :
    (verdicts (
        run_invalid 0
          (λ n. n + 1)
          never
          never
          reaches_four
          (true ∷ false ∷ [])
          (cycle_tracking 0 (λ n. n + 1) never never reaches_four true true quiet_chart))
      ≡ (false, (false, false)))
    × ((run_invalid 0
          (λ n. n + 1)
          never
          never
          reaches_four
          (true ∷ false ∷ [])
          (cycle_tracking 0 (λ n. n + 1) never never reaches_four true true quiet_chart)).registers
        ≡ (cycle_tracking 0 (λ n. n + 1) never never reaches_four true true quiet_chart).registers)
    × ((run_invalid 0
          (λ n. n + 1)
          never
          never
          reaches_four
          (true ∷ false ∷ [])
          (cycle_tracking 0
            (λ n. n + 1)
            never
            never
            reaches_four
            true
            true
            quiet_chart)).apps_since_reset
        ≡ (cycle_tracking 0
            (λ n. n + 1)
            never
            never
            reaches_four
            true
            true
            quiet_chart).apps_since_reset)
run_invalid-reverts_example =
    run_invalid-reverts 0 (λ n. n + 1) never never reaches_four true true (false ∷ []) quiet_chart
