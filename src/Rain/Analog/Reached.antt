-- ===== src/Rain/Analog/Reached.antt =====
-- libEA/rainfall.cpp, `CRainAnalog`: what a rain can become.
use mathlib.Core.Path.{subst}
use mathlib.Core.Option.{some-injective, none-ne-some}
use zandr_ea.Prelude.{
  ℕ, ◌-◌, ◌<◌, ◌≤◌, ◌≡◌, refl, sym, ap, ◌∙◌, Bool, List, Option, some, none, ◌==◌, length, get_or,
  take, map, Option-cases, Bool-cases, inl, inr, emplace, find, has_key,
}
use zandr_ea.Types.{
  GuiReply, fail_set_asked_statistic_beyond_depth_limit, rainfall_size, krono_snapshot_size,
}
use zandr_ea.RuleKit.Cycle.{paste_snapshot}
use zandr_ea.Rain.Analog.{
  span_refused, RainAnalog, new_rain_analog, cycle_rain_analog,
  add_new_statistics_user_spanning_cycles, shift_span_of_statistics_for_one_user,
  capture_analog_snapshot,
}
use zandr_ea.Rain.Analog.Sums.{counted_in}
use zandr_ea.Rain.Analog.Spans.{Covers, started-Covers, added-Covers, shifted-added}
use zandr_ea.Rain.Analog.Stats.{cycled-counts}

-- The rains that one of a source with a cycle of at least 10 seconds can become.
pub data AnalogReaches : RainAnalog → Type 0 where
  started :
      (secs_per_cycle secs_per_trigger : ℕ)
      → 10 ≤ secs_per_cycle
      → secs_per_cycle ≤ 3600
      → AnalogReaches (new_rain_analog secs_per_cycle secs_per_trigger)
  cycled :
      {r r' : RainAnalog} (drop : ℕ) (valid : Bool) (register : List (Option ℕ))
      (out : List (Option ℕ) × List (ℕ × List ℕ))
      → AnalogReaches r
      → length register ≡ rainfall_size
      → cycle_rain_analog drop valid register r ≡ some (r', out)
      → AnalogReaches r'
  user_added :
      {r : RainAnalog} (span : ℕ)
      → AnalogReaches r
      → AnalogReaches (add_new_statistics_user_spanning_cycles span r).0
  user_shifted :
      {r r' : RainAnalog} (old new : ℕ) (reply : GuiReply)
      → AnalogReaches r
      → shift_span_of_statistics_for_one_user old new r ≡ some (r', reply)
      → AnalogReaches r'
  captured :
      {r r' : RainAnalog} (sgi : ℕ)
      → AnalogReaches r
      → capture_analog_snapshot sgi r ≡ some r'
      → AnalogReaches r'

captured-Covers :
    (sgi : ℕ) (r r' : RainAnalog) → Covers r → capture_analog_snapshot sgi r ≡ some r' → Covers r'
unfolding capture_analog_snapshot
captured-Covers sgi r r' c done =
    elim (Option-cases
      (paste_snapshot r.num_pastes_each_cycle krono_snapshot_size r.values_logged_as_bindex)) [
        | inl missing ↦
            let refused : capture_analog_snapshot sgi r ≡ none =
              rw (capture_analog_snapshot, missing) refl in
            absurd (none-ne-some r' (sym refused ∙ done))
        | inr (values, pasted) ↦
            elim (Option-cases (
              paste_snapshot r.num_pastes_each_cycle krono_snapshot_size
                r.states_logged_as_bindex)) [
                  | inl missing ↦
                      let refused : capture_analog_snapshot sgi r ≡ none =
                        rw (capture_analog_snapshot, pasted, missing) refl in
                      absurd (none-ne-some r' (sym refused ∙ done))
                  | inr (states, pasted_too) ↦
                      let kept : RainAnalog = record r {
                        snapshots_value_by_set_sgi =
                            emplace sgi values r.snapshots_value_by_set_sgi;
                        snapshots_state_by_set_sgi =
                            emplace sgi states r.snapshots_state_by_set_sgi;
                      } in
                      let taken : capture_analog_snapshot sgi r ≡ some kept =
                        rw (capture_analog_snapshot, pasted, pasted_too) refl in
                      subst Covers (some-injective kept r' (sym taken ∙ done)) (record {
                        held = c.held;
                        fits = c.fits;
                        hour_of_values = c.hour_of_values;
                        hour_of_states = c.hour_of_states;
                      })
                ]
      ]

shifted-Covers :
    (old new : ℕ) (r r' : RainAnalog) (reply : GuiReply)
    → Covers r
    → shift_span_of_statistics_for_one_user old new r ≡ some (r', reply)
    → Covers r'
unfolding shift_span_of_statistics_for_one_user
shifted-Covers old new r r' reply c done =
    elim (Option-cases (find old (emplace new 1 r.spans_in_use))) [
      | inl missing ↦ elim (Bool-cases (span_refused new)) [
        | inl refused ↦
            let stays : shift_span_of_statistics_for_one_user old new r
                ≡ some (r, fail_set_asked_statistic_beyond_depth_limit) =
              rw (shift_span_of_statistics_for_one_user, refused) refl in
            let same =
              some-injective (r, fail_set_asked_statistic_beyond_depth_limit) (r', reply)
                (sym stays ∙ done) in
            subst Covers (ap (λ p. p.0) same) c
        | inr allowed ↦
            let stops : shift_span_of_statistics_for_one_user old new r ≡ none =
              rw (shift_span_of_statistics_for_one_user, allowed, missing) refl in
            absurd (none-ne-some (r', reply) (sym stops ∙ done))
      ]
      | inr (users, found) ↦
          let same =
            some-injective (add_new_statistics_user_spanning_cycles new r) (r', reply)
              (sym (shifted-added old new users r c found) ∙ done) in
          subst Covers (ap (λ p. p.0) same) (added-Covers new r c)
    ]

AnalogReaches-Covers : {r : RainAnalog} → AnalogReaches r → Covers r
AnalogReaches-Covers (started secs trigger least most) = started-Covers secs trigger least most
AnalogReaches-Covers (cycled {r} {r'} drop valid register out before wide done) =
    let (next, rows, stats, cycles, covers, same, counts) =
      cycled-counts drop valid register r (AnalogReaches-Covers before) wide in
    subst Covers
      (ap (λ p. p.0) (some-injective (next, (rows, stats)) (r', out) (sym cycles ∙ done))) covers
AnalogReaches-Covers (user_added {r} span before) =
    added-Covers span r (AnalogReaches-Covers before)
AnalogReaches-Covers (user_shifted {r} {r'} old new reply before done) =
    shifted-Covers old new r r' reply (AnalogReaches-Covers before) done
AnalogReaches-Covers (captured {r} {r'} sgi before done) =
    captured-Covers sgi r r' (AnalogReaches-Covers before) done

-- Whatever cycles, snapshots and users of spans the rain of an analog with a cycle of 10 seconds to an hour
-- has seen, and whatever the rains before it have left in the register of 360 rows that they share, a cycle
-- succeeds: the hour lies within both logs, and the log of values within the register. The sums for each
-- span in use count, for each bin but the first, its entries in the log over one cycle fewer than the span;
-- the sum of the first bin is 0.
pub cycle_rain_analog-counts :
    (r : RainAnalog) (drop : ℕ) (valid : Bool) (register : List (Option ℕ))
    → AnalogReaches r
    → length register ≡ rainfall_size
    → (r' : RainAnalog) × (rows : List (Option ℕ)) × (stats : List (ℕ × List ℕ))
      × (cycle_rain_analog drop valid register r ≡ some (r', (rows, stats)))
      × AnalogReaches r'
      × (length rows ≡ rainfall_size)
      × ((b : ℕ)
          → b < 256
          → map {B = ℕ × ℕ} (λ s. (s.0, get_or s.1 b 0)) stats
            ≡ map {B = ℕ × ℕ}
                (λ span. (span.0 - 1, counted_in b (take (span.0 - 1) r'.values_logged_as_bindex)))
                r'.spans_in_use)
cycle_rain_analog-counts r drop valid register before wide =
    let (r', rows, stats, cycles, covers, same, counts) =
      cycled-counts drop valid register r (AnalogReaches-Covers before) wide in
    (
      r',
      rows,
      stats,
      cycles,
      cycled drop valid register (rows, stats) before wide cycles,
      same,
      counts,
    )

find-emplaced :
    (old new users : ℕ) (spans : List (ℕ × ℕ))
    → find old spans ≡ some users
    → (its : ℕ) × (find old (emplace new 1 spans) ≡ some its)
unfolding emplace find has_key
find-emplaced old new users spans used = elim (Bool-cases (has_key new spans)) [
  | inl there ↦ (users, rw there used)
  | inr absent ↦ elim (Bool-cases (new == old)) [
    | inl same ↦ (1, rw (absent, same) refl)
    | inr differs ↦ (users, rw (absent, differs) used)
  ]
]

-- In the rain of an analog with a cycle of 10 seconds to an hour, a shift of a user from a span in use to
-- another does the same as the arrival of a new user of the other, refusals included: the old span stays
-- in use.
pub shift_span_of_statistics-adds :
    (r : RainAnalog) (old new users : ℕ)
    → AnalogReaches r
    → find old r.spans_in_use ≡ some users
    → shift_span_of_statistics_for_one_user old new r
      ≡ some (add_new_statistics_user_spanning_cycles new r)
shift_span_of_statistics-adds r old new users before used =
    let (its, found) = find-emplaced old new users r.spans_in_use used in
    shifted-added old new its r (AnalogReaches-Covers before) found
