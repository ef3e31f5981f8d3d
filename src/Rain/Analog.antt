-- ===== src/Rain/Analog.antt =====
-- libEA/rainfall.hpp and rainfall.cpp, `CRainAnalog`: the logs of a measured value as numbers of bins, the
-- spans that statistics are kept on, and the counts of bins that they are calculated from. The floats are
-- left out: a value comes as the int that the code floors it to, its place in widths of a bin, as a 32-bit
-- pattern. The rainfall register, which all rains share, is a list of the bin set in each row, if one is.
pub mod Sums
pub mod Spans
pub mod Stats
pub mod Reached
mod Tests
use zandr_ea.Prelude.{
  ℕ, zero, suc, ◌+◌, ◌-◌, ◌/◌, max, Bool, true, false, not, ◌||◌, ◌&&◌, List, [], ◌∷◌, Option, some,
  none, ◌==◌, leb, ltb, if◌then◌else◌, replicate, init, take, get_elem?, has_key, find, erase,
  emplace, length, sum, map,
}
use zandr_ea.Types.{
  GuiReply, okay_all_done, fail_set_asked_statistic_beyond_depth_limit, rainfall_size,
  krono_snapshot_size, one_fewer,
}
use zandr_ea.TimeAxis.{resize, last_or, int_negative, start_datalog_secs_logging}
use zandr_ea.RuleKit.Cycle.{paste_snapshot}
use zandr_ea.Rain.{change_bin}

abbrev pub rain_analog_value_num_bins : ℕ
rain_analog_value_num_bins = 256

abbrev pub bindex_analog_state_unavail : ℕ
bindex_analog_state_unavail = 2

abbrev pub bindex_analog_value_unavail : ℕ
bindex_analog_value_unavail = 127

abbrev pub bindex_analog_state_invalid : ℕ
bindex_analog_state_invalid = 0

-- `CRainAnalog`, with the fields of `ARainfall` that it uses.
pub record RainAnalog : Type 0 where
  pub values_logged_as_bindex : List ℕ
  pub states_logged_as_bindex : List ℕ
  pub snapshots_value_by_set_sgi : List (ℕ × List ℕ)
  pub snapshots_state_by_set_sgi : List (ℕ × List ℕ)
  pub spans_in_use : List (ℕ × ℕ)
  pub last_index_in_moving_hour : ℕ
  pub num_pastes_each_cycle : ℕ
  pub drop_now : ℕ
  pub bin_over_under_seen : Bool
  pub first_cycle : Bool
  pub valid_at_source : Bool

-- `CRainAnalog::CRainAnalog`, of a source with these seconds per cycle and per trigger.
abbrev pub new_rain_analog : ℕ → ℕ → RainAnalog
new_rain_analog secs_per_cycle secs_per_trigger =
    let size = start_datalog_secs_logging / secs_per_cycle in
    record {
      values_logged_as_bindex = replicate size bindex_analog_value_unavail;
      states_logged_as_bindex = replicate size bindex_analog_state_unavail;
      snapshots_value_by_set_sgi = [];
      snapshots_state_by_set_sgi = [];
      spans_in_use = (3600 / secs_per_cycle, 1) ∷ [];
      last_index_in_moving_hour = one_fewer (3600 / secs_per_cycle);
      num_pastes_each_cycle = secs_per_cycle / secs_per_trigger;
      drop_now = 0;
      bin_over_under_seen = false;
      first_cycle = true;
      valid_at_source = false;
    }

abbrev pub bin_over_under : ℕ → Bool
bin_over_under drop = int_negative drop || ltb 255 drop

-- The bin of a value, with one out of range put into the first bin or the last.
abbrev pub drop_bin : ℕ → ℕ
drop_bin drop = if bin_over_under drop then (if int_negative drop then 0 else 255) else drop

-- `CRainAnalog::UpdateLogging_Analog`; `none` where the logs do not reach back an hour.
unfoldable pub update_logging_analog : RainAnalog → Option RainAnalog
update_logging_analog r =
    let value = drop_bin r.drop_now in
    let state =
      if r.valid_at_source && not (bin_over_under r.drop_now)
      then 1
      else bindex_analog_state_invalid in
    let values =
      if r.first_cycle
      then replicate (length r.values_logged_as_bindex) value
      else r.values_logged_as_bindex in
    elim (get_elem? r.states_logged_as_bindex r.last_index_in_moving_hour) [
      | none ↦ none
      | some leaving_state ↦ elim (get_elem? values r.last_index_in_moving_hour) [
        | none ↦ none
        | some leaving_value ↦ some (record r {
          bin_over_under_seen = if bin_over_under r.drop_now then true else r.bin_over_under_seen;
          first_cycle = false;
          values_logged_as_bindex = value ∷ init values;
          states_logged_as_bindex = state ∷ init r.states_logged_as_bindex;
        })
      ]
    ]

-- One row of the register, from an entry of a log: NaNBINDEX is 0 and leaves the row without a bin.
abbrev pub row_of : ℕ → Option ℕ
row_of bindex = if bindex == 0 then none else some bindex

-- `ARainfall::ReadBindexLogIntoRainfall`, over what the rain before has left in the register; `none` where
-- it writes past the register's end.
abbrev pub read_bindex_log_into_rainfall : List ℕ → List (Option ℕ) → Option (List (Option ℕ))
read_bindex_log_into_rainfall [] register = some register
read_bindex_log_into_rainfall (v ∷ vs) [] = none
read_bindex_log_into_rainfall (v ∷ vs) (row ∷ register) =
    elim (read_bindex_log_into_rainfall vs register) [
      | none ↦ none
      | some rows ↦ some (row_of v ∷ rows)
    ]

abbrev pub add_row : Option ℕ → List ℕ → List ℕ
add_row none sums = sums
add_row (some bin) sums = change_bin bin suc sums

-- The sums of the bins over so many rows of the register; `none` past its end.
abbrev pub bin_sums_of : ℕ → List (Option ℕ) → List ℕ → Option (List ℕ)
bin_sums_of zero register sums = some sums
bin_sums_of (suc depth) [] sums = none
bin_sums_of (suc depth) (row ∷ register) sums = bin_sums_of depth register (add_row row sums)

unfoldable pub no_sums : List ℕ
no_sums = replicate rain_analog_value_num_bins 0

-- The depth and the sums of the bins for each span in use.
abbrev pub sums_of_spans : List (ℕ × ℕ) → List (Option ℕ) → Option (List (ℕ × List ℕ))
sums_of_spans [] register = some []
sums_of_spans ((span, users) ∷ spans) register =
    elim (bin_sums_of (one_fewer span) register no_sums) [
      | none ↦ none
      | some sums ↦ elim (sums_of_spans spans register) [
        | none ↦ none
        | some stats ↦ some ((one_fewer span, sums) ∷ stats)
      ]
    ]

-- The divisor of the fractions of the bins.
abbrev pub sum_bin_sums : List ℕ → ℕ
sum_bin_sums sums = max (sum sums) 1

-- `CRainAnalog::UpdateStatistics_Analog`, up to the sums that each mean and variance is calculated from.
unfoldable pub update_statistics_analog :
    List (Option ℕ) → RainAnalog → Option (List (Option ℕ) × List (ℕ × List ℕ))
update_statistics_analog register r =
    elim (read_bindex_log_into_rainfall r.values_logged_as_bindex register) [
      | none ↦ none
      | some rows ↦ elim (sums_of_spans r.spans_in_use rows) [
        | none ↦ none
        | some stats ↦ some (rows, stats)
      ]
    ]

-- `CRainAnalog::Cycle`.
unfoldable pub cycle_rain_analog :
    ℕ
    → Bool
    → List (Option ℕ)
    → RainAnalog
    → Option (RainAnalog × (List (Option ℕ) × List (ℕ × List ℕ)))
cycle_rain_analog drop valid register r =
    let given : RainAnalog = record r {
      valid_at_source = valid;
      drop_now = if valid then drop else r.drop_now;
    } in
    elim (update_logging_analog given) [
      | none ↦ none
      | some logged ↦ elim (update_statistics_analog register logged) [
        | none ↦ none
        | some out ↦ some (record logged { first_cycle = false }, out)
      ]
    ]

abbrev pub span_refused : ℕ → Bool
span_refused span = ltb rainfall_size span || ltb span 1

-- The log of values once it reaches over a span, filled with its oldest value.
abbrev pub log_to_span : ℕ → List ℕ → List ℕ
log_to_span span values =
    if ltb (length values) span then resize span (last_or 0 values) values else values

-- `CRainAnalog::AddNewStatisticsUserSpanningCycles`. `users = users++` leaves the users of a span alone.
unfoldable pub add_new_statistics_user_spanning_cycles : ℕ → RainAnalog → RainAnalog × GuiReply
add_new_statistics_user_spanning_cycles span r =
    if span_refused span then (r, fail_set_asked_statistic_beyond_depth_limit) else (
      record r {
        values_logged_as_bindex = log_to_span span r.values_logged_as_bindex;
        spans_in_use = emplace span 1 r.spans_in_use;
      },
      okay_all_done,
    )

-- `CRainAnalog::ShiftSpanOfStatisticsForOneUserFromTo`; `none` where the old span is not in use.
unfoldable pub shift_span_of_statistics_for_one_user :
    ℕ → ℕ → RainAnalog → Option (RainAnalog × GuiReply)
shift_span_of_statistics_for_one_user old new r =
    let spans = emplace new 1 r.spans_in_use in
    if span_refused new
    then some (r, fail_set_asked_statistic_beyond_depth_limit)
    else elim (find old spans) [
      | none ↦ none
      | some users ↦ some (
        record r {
          values_logged_as_bindex = log_to_span new r.values_logged_as_bindex;
          spans_in_use = if ltb users 1 then erase old spans else spans;
        },
        okay_all_done,
      )
    ]

-- `CRainAnalog::CaptureSnapshotForSetSgi`.
unfoldable pub capture_analog_snapshot : ℕ → RainAnalog → Option RainAnalog
capture_analog_snapshot sgi r =
    elim (paste_snapshot r.num_pastes_each_cycle krono_snapshot_size r.values_logged_as_bindex) [
      | none ↦ none
      | some values ↦
          elim (paste_snapshot r.num_pastes_each_cycle krono_snapshot_size
            r.states_logged_as_bindex) [
              | none ↦ none
              | some states ↦ some (record r {
                snapshots_value_by_set_sgi = emplace sgi values r.snapshots_value_by_set_sgi;
                snapshots_state_by_set_sgi = emplace sgi states r.snapshots_state_by_set_sgi;
              })
            ]
    ]

-- `CRainAnalog::IsValidOverCycles`; `none` where it reads past the log of states.
abbrev pub is_valid_over_cycles : ℕ → List ℕ → Option Bool
is_valid_over_cycles zero states = some true
is_valid_over_cycles (suc span) [] = none
is_valid_over_cycles (suc span) (s ∷ states) =
    if s == bindex_analog_state_invalid then some false else is_valid_over_cycles span states
