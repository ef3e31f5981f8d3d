-- ===== src/Rain/Analog/Tests.antt =====
-- libEA/rainfall.cpp, `CRainAnalog`: the rain of a point that cycles each minute.
use zandr_ea.Prelude.{
  find, ◌^◌, ℕ, ◌-◌, ◌<◌, ◌≡◌, refl, true, List, [], ◌∷◌, Option, none, some, arith, length, get_or,
  take, replicate, map, length-replicate,
}
use zandr_ea.Types.{rainfall_size}
use zandr_ea.Rain.Analog.{
  RainAnalog, new_rain_analog, cycle_rain_analog, add_new_statistics_user_spanning_cycles,
  shift_span_of_statistics_for_one_user, is_valid_over_cycles, drop_bin, bin_sums_of,
}
use zandr_ea.Rain.Analog.Sums.{counted_in}
use zandr_ea.Rain.Analog.Reached.{
  AnalogReaches, started, cycle_rain_analog-counts, shift_span_of_statistics-adds,
}

-- Rows that another rain has left.
abbrev stale : List (Option ℕ)
stale = replicate 360 (some 7)

-- The value is in bin 9.
cycle_rain_analog-counts_example :
    (r' : RainAnalog) × (rows : List (Option ℕ)) × (stats : List (ℕ × List ℕ)) × (cycle_rain_analog
        9 true stale
        (new_rain_analog 60 60)
      ≡ some (r', (rows, stats)))
    × AnalogReaches r'
    × (length rows ≡ rainfall_size)
    × ((b : ℕ)
        → b < 256
        → map {B = ℕ × ℕ} (λ s. (s.0, get_or s.1 b 0)) stats
          ≡ map {B = ℕ × ℕ}
              (λ span. (span.0 - 1, counted_in b (take (span.0 - 1) r'.values_logged_as_bindex)))
              r'.spans_in_use)
cycle_rain_analog-counts_example =
    cycle_rain_analog-counts (new_rain_analog 60 60) 9 true stale
      (started 60 60 (omega arith) (omega arith)) (length-replicate {A = Option ℕ} 360 (some 7))

hour_in_use : find 60 (new_rain_analog 60 60).spans_in_use ≡ some 1
unfolding find
hour_in_use = refl

-- A user of the hour goes over to two hours.
shift_span_of_statistics-adds_example :
    shift_span_of_statistics_for_one_user 60 120 (new_rain_analog 60 60)
    ≡ some (add_new_statistics_user_spanning_cycles 120 (new_rain_analog 60 60))
shift_span_of_statistics-adds_example =
    shift_span_of_statistics-adds (new_rain_analog 60 60) 60 120 1
      (started 60 60 (omega arith) (omega arith)) hour_in_use

-- Below the bins and above them.
below_bins : drop_bin (2 ^ 32 - 3) ≡ 0
below_bins = refl

above_bins : drop_bin 300 ≡ 255
above_bins = refl

-- A span of one cycle has sums over none.
one_cycle : bin_sums_of 0 (some 9 ∷ []) (0 ∷ 0 ∷ []) ≡ some (0 ∷ 0 ∷ [])
one_cycle = refl

-- The log of states does not grow with the log of values.
past_states :
    is_valid_over_cycles 61
      (add_new_statistics_user_spanning_cycles 61 (new_rain_analog 60 60)).0.states_logged_as_bindex
    ≡ none
unfolding add_new_statistics_user_spanning_cycles
past_states = refl
