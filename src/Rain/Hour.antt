-- ===== src/Rain/Hour.antt =====
-- libEA/rainfall.cpp and viewParts.cpp, `CRainFact` and `CHistogramFact`: the moving hour.
use mathlib.Core.Path.{subst}
use native.Mathlib.Nat.{le-div_iff_mul-le, div-mul-le_self, div-le_self}
use zandr_ea.Prelude.{
  ℕ, suc, ◌+◌, ◌-◌, ◌*◌, ◌/◌, ◌<◌, ◌≤◌, ◌≡◌, refl, sym, ◌∙◌, Bool, List, ◌∷◌, some, ◌==◌,
  if◌then◌else◌, arith, length, get_or, take, count, init, count-slide, count-take-replicate,
  length-replicate, length-init, length-take,
}
use zandr_ea.Types.{one_fewer}
use zandr_ea.Rain.{
  RainFact, new_rain_fact, cycle_rain_fact, cycle_histogram, change_bin, one_up, one_down,
  bindex_fact_unavail,
}
use zandr_ea.Rain.Bins.{length-change_bin, get_or-change_bin, get_elem?-or, count-length, new_bins}

-- The bins of the moving hour count its states in the log.
pub record CountsHour (r : RainFact) : Type 0 where
  pub some_span : 0 < r.moving_hour_span_in_cycles
  pub of_an_hour : r.moving_hour_span_in_cycles * r.secs_per_cycle ≤ 3600
  pub span_limit : r.moving_hour_span_in_cycles ≤ 3600
  pub some_secs : 0 < r.secs_per_cycle
  pub covered : r.moving_hour_span_in_cycles ≤ length r.states_logged_as_bindex
  pub four_bins : length r.histogram.realtime_moving_hour.bin_sums ≡ 4
  pub counted :
      (b : ℕ)
      → b < 4
      → get_or r.histogram.realtime_moving_hour.bin_sums b 0
        ≡ count b (take r.moving_hour_span_in_cycles r.states_logged_as_bindex)

moved :
    (leaves enters : Bool) (bin before after : ℕ) {up down : ℕ}
    → bin ≡ before
    → before ≤ 3601
    → after + (if leaves then 1 else 0) ≡ (if enters then 1 else 0) + before
    → up ≡ (if enters then one_up bin else bin)
    → down ≡ (if leaves then one_down up else up)
    → down ≡ after
moved leaves enters bin before after {up} {down} same small slide u d = ground arith

-- The bins once a state enters the hour and another leaves it.
moved_bin :
    (n e b : ℕ) (log bins : List ℕ)
    → n < length log
    → n ≤ 3600
    → b < length bins
    → get_or bins b 0 ≡ count b (take (suc n) log)
    → get_or (change_bin (get_or log n 0) one_down (change_bin e one_up bins)) b 0
      ≡ count b (take (suc n) (e ∷ init log))
moved_bin n e b log bins h limit inside counted =
    let slide = count-slide b e n 0 log h in
    let up = get_or-change_bin e b one_up bins inside in
    let down =
      get_or-change_bin (get_or log n 0) b one_down (change_bin e one_up bins)
        (subst (λ m. b < m) (sym (length-change_bin e one_up bins)) inside) in
    let few = count-length b (take (suc n) log) in
    let window = length-take (suc n) log in
    moved (get_or log n 0 == b) (e == b) (get_or bins b 0) (count b (take (suc n) log))
      (count b (take (suc n) (e ∷ init log))) counted (omega (arith, few, window, limit)) slide up
      down

pub cycled-CountsHour :
    (t : ℕ) (begin_hour begin_day claim valid : Bool) (r : RainFact)
    → CountsHour r
    → (r' : RainFact) × (cycle_rain_fact t begin_hour begin_day claim valid r ≡ some r')
      × CountsHour r'
unfolding cycle_rain_fact cycle_histogram
cycled-CountsHour t begin_hour begin_day claim valid r c =
    let state : ℕ = if valid then (if claim then 1 else 0) else 2 in
    let log = r.states_logged_as_bindex in
    let n = r.moving_hour_span_in_cycles - 1 in
    let bins = r.histogram.realtime_moving_hour.bin_sums in
    let some_span = c.some_span in
    let covered = c.covered in
    let limit = c.span_limit in
    let span : suc n ≡ r.moving_hour_span_in_cycles = omega arith in
    let last : one_fewer r.moving_hour_span_in_cycles ≡ n = ground arith in
    let inside : n < length log = omega arith in
    let found = get_elem?-or log n 0 inside in
    let leaving = get_or log n 0 in
    (
      record r {
        last_valid_claim = if valid then claim else r.last_valid_claim;
        bindex_now = state;
        histogram = cycle_histogram t begin_hour begin_day state leaving r.histogram;
        states_logged_as_bindex = state ∷ init log;
      },
      rw (cycle_rain_fact, last, found) refl,
      record {
        some_span = c.some_span;
        of_an_hour = c.of_an_hour;
        span_limit = c.span_limit;
        some_secs = c.some_secs;
        covered = omega (arith, length-init log);
        four_bins =
            length-change_bin leaving one_down (change_bin state one_up bins)
            ∙ length-change_bin state one_up bins
            ∙ c.four_bins;
        counted = λ b low.
            subst
              (λ m.
                get_or (change_bin leaving one_down (change_bin state one_up bins)) b 0
                ≡ count b (take m (state ∷ init log)))
              span
              (moved_bin n state b log bins inside (omega arith)
                (subst (λ m. b < m) (sym c.four_bins) low)
                (subst (λ m. get_or bins b 0 ≡ count b (take m log)) (sym span) (c.counted b low)));
      },
    )

pub started-CountsHour :
    (secs_per_cycle secs_per_trigger : ℕ)
    → 0 < secs_per_cycle
    → secs_per_cycle ≤ 3600
    → CountsHour (new_rain_fact secs_per_cycle secs_per_trigger)
started-CountsHour secs trigger pos most =
    let span = 3600 / secs in
    record {
      some_span = (le-div_iff_mul-le {k = secs} {x = 1} {y = 3600} pos).1 (omega (arith, most));
      of_an_hour = div-mul-le_self 3600 secs;
      span_limit = div-le_self 3600 secs;
      some_secs = pos;
      covered = omega (arith, length-replicate span bindex_fact_unavail);
      four_bins = refl;
      counted = λ b low.
          new_bins span b low
          ∙ sym (count-take-replicate b bindex_fact_unavail span span (omega arith));
    }
