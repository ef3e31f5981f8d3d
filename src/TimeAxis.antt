-- ===== src/TimeAxis.antt =====
-- libEA/sequence.cpp: `CSeqTimeAxis`, the log of the times of the triggers and its snapshots. A
-- `time_t` is held as its 64-bit pattern, an `int` as its 32-bit pattern. Where the code reads past
-- the end of a log the result is `none`.
pub mod Logs
pub mod Resize
mod Tests
use zandr_ea.Prelude.{
  ℕ, suc, zero, ◌+◌, ◌-◌, ◌*◌, ◌/◌, ◌%◌, ◌^◌, Bool, true, false, ◌||◌, not, List, [], ◌∷◌, ◌++◌,
  Option, some, none, ltb, leb, if◌then◌else◌, length, take, init, replicate, reverse, find, erase,
  emplace,
}
use zandr_ea.Types.{
  GuiReply, okay_all_done, fail_set_given_data_logging_size_not_within_bounds,
  datalog_size_cycles_max, krono_snapshot_size,
}

pub record TimeAxis : Type 0 where
  pub snapshots_by_set_sgi : List (ℕ × List ℕ)
  pub times_held_newest_to_oldest : List ℕ
  pub secs_per_cycle : ℕ
  pub secs_logging : ℕ
  pub first_call : Bool

abbrev pub start_datalog_secs_logging : ℕ
start_datalog_secs_logging = 3600

-- `CSeqTimeAxis::CSeqTimeAxis`.
unfoldable pub new_axis : ℕ → ℕ → TimeAxis
new_axis trigger_period_secs tpc = record {
  snapshots_by_set_sgi = [];
  times_held_newest_to_oldest =
      replicate (start_datalog_secs_logging / (trigger_period_secs * tpc)) 0;
  secs_per_cycle = trigger_period_secs * tpc;
  secs_logging = start_datalog_secs_logging;
  first_call = true;
}

abbrev pub before : ℕ → ℕ → ℕ
before t secs = (t + (2 ^ 64 - secs)) % 2 ^ 64

-- The loop of the first call, which overwrites the log with times that fall by one cycle each.
unfoldable pub backfill : ℕ → ℕ → List ℕ → List ℕ
backfill t secs [] = []
backfill t secs (_ ∷ ts) = t ∷ backfill (before t secs) secs ts

-- `CSeqTimeAxis::Trigger`.
unfoldable pub trigger_axis : ℕ → TimeAxis → TimeAxis
unfolding backfill
trigger_axis now a =
    if a.first_call
    then record a {
      times_held_newest_to_oldest = backfill now a.secs_per_cycle a.times_held_newest_to_oldest;
      first_call = false;
    }
    else record a { times_held_newest_to_oldest = now ∷ init a.times_held_newest_to_oldest }

abbrev pub drop : ℕ → List ℕ → List ℕ
drop zero xs = xs
drop (suc n) [] = []
drop (suc n) (x ∷ xs) = drop n xs

-- `CSeqTimeAxis::DisplayAxisInRealtime`: the last entries of the log read backwards.
unfoldable pub display_axis_in_realtime : TimeAxis → Option (List ℕ)
display_axis_in_realtime a =
    if leb krono_snapshot_size (length a.times_held_newest_to_oldest)
    then some (
        drop (length a.times_held_newest_to_oldest - krono_snapshot_size)
          (reverse a.times_held_newest_to_oldest))
    else none

-- `CSeqTimeAxis::CreateSnapshotForSetSgi`.
unfoldable pub create_snapshot : ℕ → TimeAxis → Option TimeAxis
create_snapshot sgi a =
    if leb krono_snapshot_size (length a.times_held_newest_to_oldest)
    then some (record a {
      snapshots_by_set_sgi =
          emplace sgi (take krono_snapshot_size a.times_held_newest_to_oldest)
            a.snapshots_by_set_sgi;
    })
    else none

-- `CSeqTimeAxis::DestroySnapshotForSetSgi`.
unfoldable pub destroy_snapshot : ℕ → TimeAxis → TimeAxis
destroy_snapshot sgi a = record a { snapshots_by_set_sgi = erase sgi a.snapshots_by_set_sgi }

-- `CSeqTimeAxis::DisplayAxisFromSnapshotSet`; `none` is the exception of `at`.
unfoldable pub display_axis_from_snapshot_set : ℕ → TimeAxis → Option (List ℕ)
display_axis_from_snapshot_set sgi a = elim (find sgi a.snapshots_by_set_sgi) [
  | none ↦ none
  | some times ↦ some (reverse times)
]

-- `back`, and `resize` with the value that fills the new places.
abbrev pub last_or : ℕ → List ℕ → ℕ
last_or d [] = d
last_or d (x ∷ xs) = last_or x xs

unfoldable pub resize : ℕ → ℕ → List ℕ → List ℕ
resize n v xs = if leb n (length xs) then take n xs else xs ++ replicate (n - length xs) v

abbrev pub int_negative : ℕ → Bool
int_negative n = leb (2 ^ 31) n

-- `CSeqTimeAxis::ResizeLoggingToAtLeastSecsAgo`.
unfoldable pub resize_logging : ℕ → TimeAxis → TimeAxis × GuiReply
unfolding resize
resize_logging secs_needed a =
    if int_negative secs_needed || ltb (datalog_size_cycles_max * a.secs_per_cycle) secs_needed
    then (a, fail_set_given_data_logging_size_not_within_bounds)
    else (if not (ltb a.secs_logging secs_needed) then (a, okay_all_done) else (
      record a {
        times_held_newest_to_oldest = held;
        secs_logging = length held * a.secs_per_cycle;
      },
      okay_all_done,
    ))
  where
    held : List ℕ
    held =
        resize ((secs_needed + a.secs_per_cycle - 1) / a.secs_per_cycle)
          (last_or 0 a.times_held_newest_to_oldest) a.times_held_newest_to_oldest
