-- ===== src/Rain/Tests.antt =====
-- libEA/rainfall.cpp and viewParts.cpp: the rain of a fact that cycles each minute.
use zandr_ea.Prelude.{ℕ, ◌<◌, ◌≡◌, refl, true, false, [], ◌∷◌, some, arith, get_or, take, count}
use zandr_ea.Rain.{
  RainFact, new_rain_fact, cycle_rain_fact, cycle_histogram, resize_rain_logging, new_histogram,
  generate_slice_summed_on_past_24hrs, generate_slice_summed_on_past_7days,
}
use zandr_ea.Rain.Reached.{RainReaches, started, cycle_rain_fact-counts}

-- A valid claim enters, and an unavailable state leaves.
cycle_rain_fact-counts_example :
    (r' : RainFact) × (cycle_rain_fact 60 false false true true (new_rain_fact 60 60) ≡ some r')
    × RainReaches r'
    × ((b : ℕ)
        → b < 4
        → get_or r'.histogram.realtime_moving_hour.bin_sums b 0
          ≡ count b (take r'.moving_hour_span_in_cycles r'.states_logged_as_bindex))
cycle_rain_fact-counts_example =
    cycle_rain_fact-counts (new_rain_fact 60 60) 60 false false true true
      (started 60 60 (omega arith) (omega arith))

hour_bins :
    (cycle_histogram 60 false false 1 3 (new_histogram 60)).realtime_moving_hour.bin_sums
    ≡ 0 ∷ 1 ∷ 0 ∷ 59 ∷ []
unfolding cycle_histogram
hour_bins = refl

day_bins :
    (generate_slice_summed_on_past_24hrs
      (cycle_histogram 60 true false 1 3 (new_histogram 60))).bin_sums
    ≡ 0 ∷ 0 ∷ 0 ∷ 1440 ∷ []
unfolding cycle_histogram generate_slice_summed_on_past_24hrs
day_bins = refl

-- The front of the 7 days has the time of the front of the 24 hours.
week_time :
    (generate_slice_summed_on_past_7days (
      cycle_histogram 7200 true false 1 3
        (cycle_histogram 3600 false false 1 3 (new_histogram 60)))).time_of_front_edge
    ≡ 3600
unfolding cycle_histogram generate_slice_summed_on_past_7days
week_time = refl

-- A resize to fewer cycles shrinks the log.
shrunk : (resize_rain_logging 1800 (new_rain_fact 60 60)).0.secs_logging ≡ 1800
unfolding resize_rain_logging
shrunk = refl
