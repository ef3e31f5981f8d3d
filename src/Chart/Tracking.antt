-- ===== src/Chart/Tracking.antt =====
-- libEA/chart.cpp, `CChartTracking`: what the chart shows while its inputs are not valid.
use zandr_ea.Prelude.{◌≡◌, refl, Bool, true, false, List, [], ◌∷◌}
use zandr_ea.Chart.{ChartTracking, apply_tracking, cycle_tracking}

abbrev pub verdicts : {R : Type 0} → ChartTracking R → Bool × (Bool × Bool)
verdicts c = (c.is_falling_now, (c.is_hunting_now, c.is_rising_now))

module _ {R : Type 0} (cleared : R) (advance : R → R) (falls hunts rises : R → Bool) where
  -- Cycles on invalid inputs, each with whether the inputs are steady.
  abbrev pub run_invalid : List Bool → ChartTracking R → ChartTracking R
  run_invalid [] c = c
  run_invalid (steady ∷ cycles) c =
      run_invalid cycles (cycle_tracking cleared advance falls hunts rises false steady c)

  shows_last :
      (cycles : List Bool) (c : ChartTracking R) (v : Bool × (Bool × Bool))
      → (c.was_falling_on_last_valid, (c.was_hunting_on_last_valid, c.was_rising_on_last_valid)) ≡ v
      → verdicts c ≡ v
      → (verdicts (run_invalid cycles c) ≡ v)
        × ((run_invalid cycles c).registers ≡ c.registers)
        × ((run_invalid cycles c).apps_since_reset ≡ c.apps_since_reset)
  unfolding cycle_tracking
  shows_last [] c v was now = (now, refl, refl)
  shows_last (steady ∷ cycles) c v was now =
      shows_last cycles (cycle_tracking cleared advance falls hunts rises false steady c) v was was

  -- When the inputs of a tracking chart become invalid after a valid cycle, the registers and the count of
  -- applications stay as that cycle left them, but the chart shows, for as long as they are invalid, what
  -- it showed before that cycle.
  pub run_invalid-reverts :
      (steady first : Bool) (cycles : List Bool) (c : ChartTracking R)
      → (verdicts (
            run_invalid
              (first ∷ cycles)
              (cycle_tracking cleared advance falls hunts rises true steady c))
          ≡ verdicts c)
        × ((run_invalid
              (first ∷ cycles)
              (cycle_tracking cleared advance falls hunts rises true steady c)).registers
            ≡ (cycle_tracking cleared advance falls hunts rises true steady c).registers)
        × ((run_invalid
              (first ∷ cycles)
              (cycle_tracking cleared advance falls hunts rises true steady c)).apps_since_reset
            ≡ (cycle_tracking cleared advance falls hunts rises true steady c).apps_since_reset)
  unfolding cycle_tracking apply_tracking
  run_invalid-reverts steady first cycles c =
      shows_last cycles
        (cycle_tracking cleared advance falls hunts rises false first
          (cycle_tracking cleared advance falls hunts rises true steady c))
        (verdicts c) refl refl
