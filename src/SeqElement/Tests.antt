-- ===== src/SeqElement/Tests.antt =====
-- Runs of an element that counts its cycles.
use zandr_ea.Prelude.{ℕ, suc, ◌+◌, ◌*◌, ◌%◌, ◌≡◌, refl, true, false, replicate, arith}
use zandr_ea.Clock.{Tm, ClockRead, zero_tm, new_clock, set_time_from_port}
use zandr_ea.SeqElement.{SeqElement}
use zandr_ea.SeqElement.Pacing.{CountsCycles, run_targeted, cycles-run_targeted, trigger-misses_day}

abbrev count_cycle : ℕ → SeqElement × ℕ → SeqElement × ℕ
count_cycle now (e, n) = (e, suc n)

abbrev counting : CountsCycles count_cycle
counting = record {
  cycles = λ n. n;
  counts = λ now e n. refl;
  keeps_until = λ now e n. refl;
  keeps_per = λ now e n. refl;
  keeps_rate = λ now e n. refl;
  keeps_group = λ now e n. refl;
}

abbrev slow_element : SeqElement
slow_element = record {
  trigger_count = 0;
  triggers_per_cycle = 3;
  triggers_until_cycle = 1;
  secs_per_cycle = 180;
  base_trigger_group = 3;
  own_trigger_group = 3;
  cycling_at_max_rate = false;
  cycle_begins_new_calendar_day = false;
  cycle_begins_new_clock_hour = false;
  valid_now = true;
  valid_was = true;
}

abbrev quiet_read : ClockRead
quiet_read = record {
  timestamp = 60;
  trigger_count = 1;
  minutes_after_midnight = 1;
  new_hour = false;
  new_day = false;
}

cycles-run_targeted_example :
    (run_targeted count_cycle counting (replicate 8 quiet_read) (slow_element, 0)).1 ≡ 3
cycles-run_targeted_example =
    cycles-run_targeted count_cycle counting (replicate 8 quiet_read) slow_element 0
      (record { positive = omega arith; within = omega arith; small = omega arith; rate = refl })

-- The day of the week follows from the day of the month, whatever the client has put there.
abbrev normalize : Tm → ℕ × Tm
normalize t = (t.tm_mday * 86400 + t.tm_hour * 3600, record t { tm_wday = t.tm_mday % 7 })

abbrev next_day : Tm
next_day = record zero_tm { tm_mday = 8 }

trigger-misses_day_example :
    (set_time_from_port normalize next_day (new_clock 60)).0.clock_read_at_bell.new_day ≡ true
unfolding new_clock
trigger-misses_day_example =
    (trigger-misses_day count_cycle normalize next_day (new_clock 60) 3 (slow_element, 0)
      (omega arith) refl (omega arith)).0
