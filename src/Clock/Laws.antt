-- ===== src/Clock/Laws.antt =====
-- libEA/taskClock.cpp, `CClockPerPort`: the trigger counter of the clock over any history of times set.
use zandr_ea.Prelude.{ℕ, ◌+◌, ◌%◌, ◌≤◌, ◌≡◌, List, [], ◌∷◌, ◌==◌, if◌then◌else◌, arith}
use zandr_ea.Types.{clock_trigger_counter_reset}
use zandr_ea.Clock.{Tm, ClockPerPort, set_time_from_port, set_times}

-- How often the time differs from the one before it.
abbrev pub changes : (Tm → ℕ × Tm) → ℕ → List Tm → ℕ
changes mktime last [] = 0
changes mktime last (t ∷ ts) =
    (if (mktime t).0 == last then 0 else 1) + changes mktime (mktime t).0 ts

set_time_count :
    (mktime : Tm → ℕ × Tm) (t : Tm) (c : ClockPerPort)
    → c.clock_read_at_bell.trigger_count ≤ clock_trigger_counter_reset
    → let r = (set_time_from_port mktime t c).0.clock_read_at_bell in
      (r.trigger_count ≤ clock_trigger_counter_reset)
      × (r.timestamp ≡ (mktime t).0)
      × (r.trigger_count
          ≡ (c.clock_read_at_bell.trigger_count
              + (if (mktime t).0 == c.clock_read_at_bell.timestamp then 0 else 1))
            % 14401)
unfolding set_time_from_port
set_time_count mktime t c h = ground arith

-- After any times set, the trigger counter has gone up by one for each time that differs from the
-- one before it, modulo 14401, provided that it was within its limit before.
pub set_times-count :
    (mktime : Tm → ℕ × Tm) (ts : List Tm) (c : ClockPerPort)
    → c.clock_read_at_bell.trigger_count ≤ clock_trigger_counter_reset
    → (set_times mktime ts c).clock_read_at_bell.trigger_count
      ≡ (c.clock_read_at_bell.trigger_count + changes mktime c.clock_read_at_bell.timestamp ts)
        % 14401
unfolding set_times
set_times-count mktime [] c h = omega arith
set_times-count mktime (t ∷ ts) c h =
    let (bound, stamp, step) = set_time_count mktime t c h in
    let rest = set_times-count mktime ts (set_time_from_port mktime t c).0 bound in
    let moved = ap_changes stamp in omega arith
  where
    ap_changes :
        (set_time_from_port mktime t c).0.clock_read_at_bell.timestamp ≡ (mktime t).0
        → changes mktime (set_time_from_port mktime t c).0.clock_read_at_bell.timestamp ts
          ≡ changes mktime (mktime t).0 ts
    ap_changes e = rw e
