-- ===== src/Rain/Reached.antt =====
-- libEA/rainfall.cpp and viewParts.cpp, `CRainFact` and `CHistogramFact`: what a fact's rain can become, and its moving hour.
use mathlib.Core.Path.{subst}
use native.Mathlib.Nat.{le-div_iff_mul-le}
use zandr_ea.Prelude.{
  Option-cases, emplace, ℕ, ◌+◌, ◌-◌, ◌/◌, ◌<◌, ◌≤◌, ◌≡◌, refl, sym, ap, ◌∙◌, Bool, ◌||◌, some,
  none, ltb, arith, get_or, take, count, Bool-cases, inl, inr,
}
use mathlib.Core.Option.{some-injective, none-ne-some}
use zandr_ea.Types.{krono_snapshot_size, rainfall_size}
use zandr_ea.RuleKit.Cycle.{paste_snapshot}
use zandr_ea.Rain.{
  RainFact, new_rain_fact, cycle_rain_fact, capture_snapshot, destroy_snapshot_for_set_sgi,
  resize_rain_logging, bindex_fact_unavail,
}
use zandr_ea.Rain.Bins.{take-resize}
use zandr_ea.Rain.Hour.{CountsHour, cycled-CountsHour, started-CountsHour}

-- The rains that a fact's can become: no resize asks for less than an hour.
pub data RainReaches : RainFact → Type 0 where
  started :
      (secs_per_cycle secs_per_trigger : ℕ)
      → 0 < secs_per_cycle
      → secs_per_cycle ≤ 3600
      → RainReaches (new_rain_fact secs_per_cycle secs_per_trigger)
  cycled :
      {r r' : RainFact} (t : ℕ) (begin_hour begin_day claim valid : Bool)
      → RainReaches r
      → cycle_rain_fact t begin_hour begin_day claim valid r ≡ some r'
      → RainReaches r'
  captured :
      {r r' : RainFact} (sgi : ℕ)
      → RainReaches r
      → capture_snapshot sgi r ≡ some r'
      → RainReaches r'
  snapshot_destroyed :
      {r : RainFact} (sgi : ℕ) → RainReaches r → RainReaches (destroy_snapshot_for_set_sgi sgi r)
  resized :
      {r : RainFact} (secs_wanted : ℕ)
      → RainReaches r
      → 3600 ≤ secs_wanted
      → RainReaches (resize_rain_logging secs_wanted r).0

captured-CountsHour :
    (sgi : ℕ) (r r' : RainFact) → CountsHour r → capture_snapshot sgi r ≡ some r' → CountsHour r'
unfolding capture_snapshot
captured-CountsHour sgi r r' c done =
    let log = r.states_logged_as_bindex in
    elim (Option-cases (paste_snapshot r.num_pastes_each_cycle krono_snapshot_size log)) [
      | inl missing ↦
          let refused : capture_snapshot sgi r ≡ none = rw (capture_snapshot, missing) refl in
          absurd (none-ne-some r' (sym refused ∙ done))
      | inr (snapshot, pasted) ↦
          let kept : RainFact = record r {
            snapshots_by_set_sgi = emplace sgi snapshot r.snapshots_by_set_sgi;
          } in
          let taken : capture_snapshot sgi r ≡ some kept = rw (capture_snapshot, pasted) refl in
          subst CountsHour (some-injective kept r' (sym taken ∙ done)) (record {
            some_span = c.some_span;
            of_an_hour = c.of_an_hour;
            span_limit = c.span_limit;
            some_secs = c.some_secs;
            covered = c.covered;
            four_bins = c.four_bins;
            counted = c.counted;
          })
    ]

resized-CountsHour :
    (secs_wanted : ℕ) (r : RainFact)
    → CountsHour r
    → 3600 ≤ secs_wanted
    → CountsHour (resize_rain_logging secs_wanted r).0
unfolding resize_rain_logging
resized-CountsHour secs_wanted r c hour =
    let secs = r.secs_per_cycle in
    let span = r.moving_hour_span_in_cycles in
    let proposed = (secs_wanted + secs - 1) / secs in
    let within = c.of_an_hour in
    let pos = c.some_secs in
    let far : span ≤ proposed =
      (le-div_iff_mul-le {k = secs} {x = span} {y = secs_wanted + secs - 1} pos).1 (omega arith) in
    let (same, covered) =
      take-resize span proposed bindex_fact_unavail r.states_logged_as_bindex far c.covered in
    elim (Bool-cases (ltb proposed krono_snapshot_size || ltb rainfall_size proposed)) [
      | inl outside ↦ rw outside c
      | inr inside ↦ rw inside (record {
        some_span = c.some_span;
        of_an_hour = c.of_an_hour;
        span_limit = c.span_limit;
        some_secs = c.some_secs;
        covered = covered;
        four_bins = c.four_bins;
        counted = λ b low. c.counted b low ∙ ap (count b) (sym same);
      })
    ]

RainReaches-CountsHour : {r : RainFact} → RainReaches r → CountsHour r
unfolding destroy_snapshot_for_set_sgi
RainReaches-CountsHour (started secs trigger pos most) = started-CountsHour secs trigger pos most
RainReaches-CountsHour (cycled {r} {r'} t begin_hour begin_day claim valid before done) =
    let (next, cycles, counts) =
      cycled-CountsHour t begin_hour begin_day claim valid r (RainReaches-CountsHour before) in
    subst CountsHour (some-injective next r' (sym cycles ∙ done)) counts
RainReaches-CountsHour (captured {r} {r'} sgi before done) =
    captured-CountsHour sgi r r' (RainReaches-CountsHour before) done
RainReaches-CountsHour (snapshot_destroyed {r} sgi before) =
    let c = RainReaches-CountsHour before in
    record {
      some_span = c.some_span;
      of_an_hour = c.of_an_hour;
      span_limit = c.span_limit;
      some_secs = c.some_secs;
      covered = c.covered;
      four_bins = c.four_bins;
      counted = c.counted;
    }
RainReaches-CountsHour (resized {r} secs_wanted before hour) =
    resized-CountsHour secs_wanted r (RainReaches-CountsHour before) hour

-- Whatever cycles, snapshots and resizes to an hour or more the rain of a fact with a cycle of an hour at
-- most has seen, its next cycle finds the state that leaves the moving hour in the log. Afterwards the bin
-- of each of the four states holds how often that state stands in the hour of the log, so that no count is
-- taken below zero.
pub cycle_rain_fact-counts :
    (r : RainFact) (t : ℕ) (begin_hour begin_day claim valid : Bool)
    → RainReaches r
    → (r' : RainFact) × (cycle_rain_fact t begin_hour begin_day claim valid r ≡ some r')
      × RainReaches r'
      × ((b : ℕ)
          → b < 4
          → get_or r'.histogram.realtime_moving_hour.bin_sums b 0
            ≡ count b (take r'.moving_hour_span_in_cycles r'.states_logged_as_bindex))
cycle_rain_fact-counts r t begin_hour begin_day claim valid before =
    let (r', cycles, counts) =
      cycled-CountsHour t begin_hour begin_day claim valid r (RainReaches-CountsHour before) in
    (r', cycles, cycled t begin_hour begin_day claim valid before cycles, counts.counted)
