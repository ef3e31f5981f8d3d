-- ===== src/Rain.antt =====
-- libEA/rainfall.hpp, rainfall.cpp, viewParts.hpp and viewParts.cpp: `CRainFact`, the log of what a fact
-- claims, and `CHistogramFact`, the counts of its states over the moving hour, the past 24 clock hours and
-- the past 7 days. Logs are lists, newest first. A count is an int, held as its 32-bit pattern.
pub mod Bins
pub mod Hour
pub mod Reached
pub mod Analog
mod Tests
use zandr_ea.Prelude.{
  ℕ, zero, suc, ◌+◌, ◌-◌, ◌*◌, ◌/◌, ◌^◌, Bool, true, false, ◌||◌, List, [], ◌∷◌, Option, some, none,
  ◌==◌, ltb, if◌then◌else◌, replicate, init, reverse, get_elem?, get_or, has_key, erase, emplace,
  length,
}
use zandr_ea.Types.{
  GuiReply, okay_all_done, fail_set_given_data_logging_size_not_within_bounds, rainfall_size,
  krono_snapshot_size, one_fewer,
}
use zandr_ea.TimeAxis.{resize, start_datalog_secs_logging}
use zandr_ea.RuleKit.Cycle.{paste_snapshot}

abbrev pub bindex_fact_unavail : ℕ
bindex_fact_unavail = 3

-- `SHistoSliceFact`.
pub record HistoSlice : Type 0 where
  pub bin_sums : List ℕ
  pub num_cycles_in_span : ℕ
  pub time_of_front_edge : ℕ

-- `SHistoSliceFact::SHistoSliceFact`, of a span in cycles, for a sum or all unavailable.
abbrev pub new_slice : ℕ → Bool → HistoSlice
new_slice cycles for_sum = record {
  bin_sums = 0 ∷ 0 ∷ 0 ∷ (if for_sum then 0 else cycles) ∷ [];
  num_cycles_in_span = cycles;
  time_of_front_edge = 0;
}

-- `CHistogramFact`.
pub record Histogram : Type 0 where
  pub past_24_clock_hrs : List HistoSlice
  pub past_7_calendar_days : List HistoSlice
  pub realtime_moving_hour : HistoSlice
  pub moving_hour_span : ℕ
  pub first_cycle : Bool

abbrev pub new_histogram : ℕ → Histogram
new_histogram span = record {
  past_24_clock_hrs = replicate 24 (new_slice span false);
  past_7_calendar_days = replicate 7 (new_slice (span * 24) false);
  realtime_moving_hour = new_slice span false;
  moving_hour_span = span;
  first_cycle = true;
}

-- The sums of two slices, bin by bin, as long as the first.
abbrev pub add_bins : List ℕ → List ℕ → List ℕ
add_bins [] ys = []
add_bins (x ∷ xs) [] = x ∷ xs
add_bins (x ∷ xs) (y ∷ ys) = (x + y) ∷ add_bins xs ys

abbrev pub sum_slices : List HistoSlice → List ℕ → List ℕ
sum_slices [] sums = sums
sum_slices (s ∷ ss) sums = sum_slices ss (add_bins s.bin_sums sums)

-- `timeOfFrontEdge` of the front of a log.
abbrev pub front_time : List HistoSlice → ℕ
front_time [] = 0
front_time (s ∷ ss) = s.time_of_front_edge

-- `CHistogramFact::GenerateSliceSummedOnPast24hrs`.
unfoldable pub generate_slice_summed_on_past_24hrs : Histogram → HistoSlice
generate_slice_summed_on_past_24hrs h =
    let empty = new_slice (h.moving_hour_span * 24) true in
    record empty {
      bin_sums = sum_slices h.past_24_clock_hrs empty.bin_sums;
      time_of_front_edge = front_time h.past_24_clock_hrs;
    }

-- `CHistogramFact::GenerateSliceSummedOnPast7days`.
unfoldable pub generate_slice_summed_on_past_7days : Histogram → HistoSlice
generate_slice_summed_on_past_7days h =
    let empty = new_slice (h.moving_hour_span * 168) true in
    record empty {
      bin_sums = sum_slices h.past_7_calendar_days empty.bin_sums;
      time_of_front_edge = front_time h.past_24_clock_hrs;
    }

abbrev pub change_bin : ℕ → (ℕ → ℕ) → List ℕ → List ℕ
change_bin i f [] = []
change_bin zero f (x ∷ xs) = f x ∷ xs
change_bin (suc i) f (x ∷ xs) = x ∷ change_bin i f xs

-- `++` and `--` on an int.
abbrev pub one_up : ℕ → ℕ
one_up n = if n == 2 ^ 32 - 1 then 0 else n + 1

abbrev pub one_down : ℕ → ℕ
one_down n = if n == 0 then 2 ^ 32 - 1 else n - 1

abbrev pub time_front : ℕ → List HistoSlice → List HistoSlice
time_front t [] = []
time_front t (s ∷ ss) = record s { time_of_front_edge = t } ∷ ss

-- `CHistogramFact::Cycle`.
unfoldable pub cycle_histogram : ℕ → Bool → Bool → ℕ → ℕ → Histogram → Histogram
cycle_histogram t begin_hour begin_day entering leaving h =
    let started : Histogram =
      if h.first_cycle
      then record h {
        past_24_clock_hrs = time_front t h.past_24_clock_hrs;
        past_7_calendar_days = time_front t h.past_7_calendar_days;
        first_cycle = false;
      }
      else h in
    let hour : Histogram =
      if begin_hour
      then record started {
        past_24_clock_hrs = started.realtime_moving_hour ∷ init started.past_24_clock_hrs;
      }
      else started in
    let day : Histogram =
      if begin_day
      then record hour {
        past_7_calendar_days =
            generate_slice_summed_on_past_24hrs hour ∷ init hour.past_7_calendar_days;
      }
      else hour in
    record day {
      realtime_moving_hour = record h.realtime_moving_hour {
        bin_sums =
            change_bin leaving one_down
              (change_bin entering one_up h.realtime_moving_hour.bin_sums);
        time_of_front_edge = t;
      };
    }

-- `CRainFact`, with the fields of `ARainfall` that it uses.
pub record RainFact : Type 0 where
  pub states_logged_as_bindex : List ℕ
  pub snapshots_by_set_sgi : List (ℕ × List ℕ)
  pub moving_hour_span_in_cycles : ℕ
  pub num_pastes_each_cycle : ℕ
  pub secs_per_cycle : ℕ
  pub secs_logging : ℕ
  pub bindex_now : ℕ
  pub last_valid_claim : Bool
  pub histogram : Histogram

-- `CRainFact::CRainFact`, of a fact with these seconds per cycle and per trigger.
abbrev pub new_rain_fact : ℕ → ℕ → RainFact
new_rain_fact secs_per_cycle secs_per_trigger = record {
  states_logged_as_bindex =
      replicate (start_datalog_secs_logging / secs_per_cycle) bindex_fact_unavail;
  snapshots_by_set_sgi = [];
  moving_hour_span_in_cycles = 3600 / secs_per_cycle;
  num_pastes_each_cycle = secs_per_cycle / secs_per_trigger;
  secs_per_cycle = secs_per_cycle;
  secs_logging = start_datalog_secs_logging;
  bindex_now = 0;
  last_valid_claim = false;
  histogram = new_histogram (3600 / secs_per_cycle);
}

-- `CRainFact::Cycle`; `none` where the log does not reach back an hour.
unfoldable pub cycle_rain_fact : ℕ → Bool → Bool → Bool → Bool → RainFact → Option RainFact
cycle_rain_fact t begin_hour begin_day claim valid r =
    let bindex = if valid then (if claim then 1 else 0) else 2 in
    elim (get_elem? r.states_logged_as_bindex (one_fewer r.moving_hour_span_in_cycles)) [
      | none ↦ none
      | some leaving ↦ some (record r {
        last_valid_claim = if valid then claim else r.last_valid_claim;
        bindex_now = bindex;
        histogram = cycle_histogram t begin_hour begin_day bindex leaving r.histogram;
        states_logged_as_bindex = bindex ∷ init r.states_logged_as_bindex;
      })
    ]

-- `CRainFact::CaptureSnapshotForSetSgi`.
unfoldable pub capture_snapshot : ℕ → RainFact → Option RainFact
capture_snapshot sgi r =
    elim (paste_snapshot r.num_pastes_each_cycle krono_snapshot_size r.states_logged_as_bindex) [
      | none ↦ none
      | some snapshot ↦
          some (record r { snapshots_by_set_sgi = emplace sgi snapshot r.snapshots_by_set_sgi })
    ]

-- `ARainfall::DestroySnapshotForSetSgi`, `IsSnapshotSgiValid`.
unfoldable pub destroy_snapshot_for_set_sgi : ℕ → RainFact → RainFact
destroy_snapshot_for_set_sgi sgi r = record r {
  snapshots_by_set_sgi = erase sgi r.snapshots_by_set_sgi;
}

abbrev pub is_snapshot_sgi_valid : ℕ → RainFact → Bool
is_snapshot_sgi_valid sgi r = has_key sgi r.snapshots_by_set_sgi

-- `CRainFact::BindexWas_atCycles`, with NaNBINDEX, which is 0, beyond the log.
abbrev pub bindex_was_at_cycles : ℕ → RainFact → ℕ
bindex_was_at_cycles lag r = get_or r.states_logged_as_bindex lag 0

-- `ARainfall::ResizeLoggingToAtLeastSecsAgo` of a fact's rain. Its `numCyclesLogging` is always 0, so that
-- the log shrinks too.
unfoldable pub resize_rain_logging : ℕ → RainFact → RainFact × GuiReply
resize_rain_logging secs_wanted r =
    let proposed = (secs_wanted + r.secs_per_cycle - 1) / r.secs_per_cycle in
    if ltb proposed krono_snapshot_size || ltb rainfall_size proposed
    then (r, fail_set_given_data_logging_size_not_within_bounds)
    else (
      record r {
        states_logged_as_bindex = resize proposed bindex_fact_unavail r.states_logged_as_bindex;
        secs_logging = proposed * r.secs_per_cycle;
      },
      okay_all_done,
    )
