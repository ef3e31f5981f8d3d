-- ===== src/Chart.antt =====
-- libEA/chart.hpp and chart.cpp: the charts that find out whether a variable is steady (`CChartShewhart`)
-- and whether it drifts or hunts (`CChartTracking`). Values are of any type: the tests on floats (a score
-- outside the passband, a register at its limit) are parameters. A count that is an int is a number.
pub mod Steady
pub mod Tracking
mod Tests
use zandr_ea.Prelude.{
  ℕ, ◌+◌, ◌-◌, min, Bool, true, false, not, ◌&&◌, ◌||◌, ◌==◌, ltb, if◌then◌else◌,
}

-- `CChartShewhart`.
pub record ChartShewhart (F : Type 0) : Type 0 where
  pub valid_now : Bool
  pub chart_running : Bool
  pub reset_pending : Bool
  pub std_dev_ref : F
  pub std_dev_ref_new : F
  pub trip_free_count : ℕ
  pub trip_free_margin : ℕ
  pub chart_trip : Bool
  pub flip_state : Bool
  pub is_steady_now : Bool
  pub was_steady_on_last_valid : Bool

-- What `PullInput` reads of the rain.
pub record ChartInput (F : Type 0) : Type 0 where
  pub x_now : F
  pub x_mean : F
  pub x_std_dev : F

-- `CChartTracking`, whose registers are of type R.
pub record ChartTracking (R : Type 0) : Type 0 where
  pub valid_now : Bool
  pub tracker_on : Bool
  pub registers : R
  pub apps_since_reset : ℕ
  pub apps_btwn_resets : ℕ
  pub is_falling_now : Bool
  pub is_hunting_now : Bool
  pub is_rising_now : Bool
  pub was_falling_on_last_valid : Bool
  pub was_hunting_on_last_valid : Bool
  pub was_rising_on_last_valid : Bool

module _ {F : Type 0} where
  -- `CChartShewhart::CChartShewhart`, with NaN for the reference and the margin from the settings.
  abbrev pub new_shewhart : F → ℕ → ChartShewhart F
  new_shewhart nan margin = record {
    valid_now = false;
    chart_running = false;
    reset_pending = true;
    std_dev_ref = nan;
    std_dev_ref_new = nan;
    trip_free_count = 0;
    trip_free_margin = margin;
    chart_trip = false;
    flip_state = false;
    is_steady_now = false;
    was_steady_on_last_valid = false;
  }

  -- `CChartShewhart::PullInput`.
  unfoldable pub pull_input : ChartInput F → ChartShewhart F → ChartShewhart F
  pull_input x c =
      if not c.chart_running
      then record c { std_dev_ref_new = x.x_std_dev; chart_running = true }
      else c

  -- `CChartShewhart::ApplyChart`; `trips x mean ref` is whether the score is above or below the passband.
  unfoldable pub apply_shewhart :
      (F → F → F → Bool) → ChartInput F → ChartShewhart F → ChartShewhart F
  apply_shewhart trips x c =
      let trip = trips x.x_now x.x_mean c.std_dev_ref_new in
      let free : ℕ =
        if trip then c.trip_free_count - 1 else min (c.trip_free_count + 1) c.trip_free_margin in
      let flip =
        (not trip && (not c.was_steady_on_last_valid && (free == c.trip_free_margin)))
        || (trip && c.was_steady_on_last_valid) in
      let steady = if flip then not c.was_steady_on_last_valid else c.was_steady_on_last_valid in
      record c {
        std_dev_ref = c.std_dev_ref_new;
        chart_trip = trip;
        trip_free_count = free;
        flip_state = flip;
        is_steady_now = steady;
        std_dev_ref_new = if steady then x.x_std_dev else c.std_dev_ref_new;
      }

  abbrev pub reset_shewhart : ChartShewhart F → ChartShewhart F
  reset_shewhart c =
      if c.reset_pending
      then record c {
        is_steady_now = true;
        was_steady_on_last_valid = true;
        trip_free_count = c.trip_free_margin;
        reset_pending = false;
      }
      else c

  -- `CChartShewhart::Cycle`, on whether the rain is valid over the cycles used.
  unfoldable pub cycle_shewhart :
      (F → F → F → Bool) → Bool → ChartInput F → ChartShewhart F → ChartShewhart F
  unfolding pull_input apply_shewhart
  cycle_shewhart trips valid x c =
      let given : ChartShewhart F = record c {
        valid_now = valid;
        is_steady_now = if valid then c.is_steady_now else c.was_steady_on_last_valid;
      } in
      let applied : ChartShewhart F =
        apply_shewhart trips x (pull_input x (reset_shewhart given)) in
      if valid then record applied { was_steady_on_last_valid = applied.is_steady_now } else given

module _ {R : Type 0} where
  -- `CChartTracking::ApplyChart`: the registers cleared after the applications between resets, what the
  -- cycle makes of them, and the three tests on them.
  unfoldable pub apply_tracking :
      R → (R → R) → (R → Bool) → (R → Bool) → (R → Bool) → ChartTracking R → ChartTracking R
  apply_tracking cleared advance falls hunts rises c =
      let due = ltb c.apps_btwn_resets (c.apps_since_reset + 1) in
      let registers = advance (if due then cleared else c.registers) in
      record c {
        apps_since_reset = if due then 0 else c.apps_since_reset + 1;
        registers = registers;
        is_falling_now = falls registers;
        is_hunting_now = hunts registers;
        is_rising_now = rises registers;
      }

  -- `CChartTracking::Cycle`, on whether the charts of the inputs are valid and steady.
  unfoldable pub cycle_tracking :
      R
      → (R → R)
      → (R → Bool)
      → (R → Bool)
      → (R → Bool)
      → Bool
      → Bool
      → ChartTracking R
      → ChartTracking R
  unfolding apply_tracking
  cycle_tracking cleared advance falls hunts rises valid steady c =
      if not valid
      then record c {
        valid_now = false;
        is_falling_now = c.was_falling_on_last_valid;
        is_hunting_now = c.was_hunting_on_last_valid;
        is_rising_now = c.was_rising_on_last_valid;
      }
      else apply_tracking cleared advance falls hunts rises (record c {
        valid_now = true;
        was_falling_on_last_valid = c.is_falling_now;
        was_hunting_on_last_valid = c.is_hunting_now;
        was_rising_on_last_valid = c.is_rising_now;
        is_falling_now = false;
        is_hunting_now = false;
        is_rising_now = false;
        tracker_on = steady;
      })
