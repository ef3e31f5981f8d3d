-- ===== src/Clock/Tests.antt =====
-- Runs of the clock.
use zandr_ea.Prelude.{ℕ, ◌+◌, ◌*◌, ◌≡◌, List, [], ◌∷◌, arith}
use zandr_ea.Clock.{Tm, zero_tm, new_clock, set_times}
use zandr_ea.Clock.Laws.{set_times-count}

abbrev seconds_of_month : Tm → ℕ × Tm
seconds_of_month t = (t.tm_mday * 86400 + t.tm_hour * 3600 + t.tm_min * 60 + t.tm_sec, t)

abbrev stamps : List Tm
stamps =
    record zero_tm { tm_min = 1 }
    ∷ record zero_tm { tm_min = 1 }
    ∷ record zero_tm { tm_hour = 1 }
    ∷ []

set_times-count_example :
    (set_times seconds_of_month stamps (new_clock 60)).clock_read_at_bell.trigger_count ≡ 2
unfolding new_clock
set_times-count_example = set_times-count seconds_of_month stamps (new_clock 60) (omega arith)
