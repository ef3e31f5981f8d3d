-- ===== src/Clock.antt =====
-- libEA/taskClock.cpp: the clock that a client sets through the port, and that reads out to the agent.
-- `std::mktime` is a parameter, since it depends on the host's time zone: it gives the time and the fields as
-- it leaves them, normalized in place. A `time_t` is a number of seconds from the epoch on.
pub mod Laws
mod Tests
use zandr_ea.Prelude.{ℕ, ◌+◌, ◌*◌, Bool, false, not, List, [], ◌∷◌, ◌==◌, if◌then◌else◌}
use zandr_ea.Types.{
  GuiReply, okay_all_done, fail_set_given_timestamp_same_as_previous, clock_trigger_counter_reset,
}

-- `std::tm`.
pub record Tm : Type 0 where
  pub tm_sec : ℕ
  pub tm_min : ℕ
  pub tm_hour : ℕ
  pub tm_mday : ℕ
  pub tm_mon : ℕ
  pub tm_year : ℕ
  pub tm_wday : ℕ

-- `SClockRead`.
pub record ClockRead : Type 0 where
  pub timestamp : ℕ
  pub trigger_count : ℕ
  pub minutes_after_midnight : ℕ
  pub new_hour : Bool
  pub new_day : Bool

-- `CClockPerPort`, with the fields of `AClock` that its methods touch.
pub record ClockPerPort : Type 0 where
  pub bell_period_secs : ℕ
  pub time_struct_now : Tm
  pub time_struct_was : Tm
  pub clock_read_at_bell : ClockRead

abbrev pub zero_tm : Tm
zero_tm = record {
  tm_sec = 0;
  tm_min = 0;
  tm_hour = 0;
  tm_mday = 0;
  tm_mon = 0;
  tm_year = 0;
  tm_wday = 0;
}

-- `AClock::AClock`. `NaNBOOL` is `false`, since `bool` has no NaN.
unfoldable pub new_clock : ℕ → ClockPerPort
new_clock period = record {
  bell_period_secs = period;
  time_struct_now = zero_tm;
  time_struct_was = zero_tm;
  clock_read_at_bell = record {
    timestamp = 0;
    trigger_count = 0;
    minutes_after_midnight = 0;
    new_hour = false;
    new_day = false;
  };
}

-- `CClockPerPort::SetTimeFromPort`.
unfoldable pub set_time_from_port : (Tm → ℕ × Tm) → Tm → ClockPerPort → ClockPerPort × GuiReply
set_time_from_port mktime tm_given c =
    if translated == read.timestamp then (c, fail_set_given_timestamp_same_as_previous) else (
      record c {
        time_struct_now = normalized;
        time_struct_was = normalized;
        clock_read_at_bell = record {
          timestamp = translated;
          trigger_count =
              if read.trigger_count == clock_trigger_counter_reset
              then 0
              else read.trigger_count + 1;
          minutes_after_midnight = normalized.tm_hour * 60 + normalized.tm_min;
          new_hour = not (normalized.tm_hour == c.time_struct_was.tm_hour);
          new_day = not (normalized.tm_wday == c.time_struct_was.tm_wday);
        };
      },
      okay_all_done,
    )
  where
    read : ClockRead
    read = c.clock_read_at_bell

    translated : ℕ
    translated = (mktime tm_given).0

    normalized : Tm
    normalized = (mktime tm_given).1

-- A client that sets one time after another.
unfoldable pub set_times : (Tm → ℕ × Tm) → List Tm → ClockPerPort → ClockPerPort
set_times mktime [] c = c
set_times mktime (t ∷ ts) c = set_times mktime ts (set_time_from_port mktime t c).0
