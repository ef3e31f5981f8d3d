-- ===== src/Rain/Analog/Spans.antt =====
-- libEA/rainfall.cpp, `CRainAnalog`: the spans in use and what the logs cover.
use mathlib.Core.Path.{subst}
use mathlib.Core.Option.{some-injective, none-ne-some}
use native.Mathlib.Nat.{le-div_iff_mul-le, div-le_of_le-mul}
use zandr_ea.Prelude.{
  ℕ, ◌-◌, ◌/◌, ◌<◌, ◌≤◌, ◌≡◌, refl, sym, ◌∙◌, true, false, ◌&&◌, not, List, [], ◌∷◌, some, ◌==◌,
  ltb, if◌then◌else◌, arith, length, replicate, init, Bool-cases, inl, inr, length-replicate,
  length-init, length-append, length-take, All, emplace, find, has_key, get_elem?-lt,
}
use zandr_ea.Types.{one_fewer, rainfall_size}
use zandr_ea.TimeAxis.{resize, last_or}
use zandr_ea.Rain.Analog.{
  RainAnalog, new_rain_analog, update_logging_analog, span_refused, log_to_span,
  add_new_statistics_user_spanning_cycles, shift_span_of_statistics_for_one_user, drop_bin,
  bin_over_under, bindex_analog_state_unavail, bindex_analog_value_unavail,
  bindex_analog_state_invalid,
}

-- A span in use has a user, and is no longer than the log.
abbrev pub IsHeld : ℕ → ℕ × ℕ → Type 0
IsHeld size span = (0 < span.0) × (span.0 ≤ size) × (0 < span.1)

-- The log of values covers each span in use and fits the register, and both logs cover the hour.
pub record Covers (r : RainAnalog) : Type 0 where
  pub held : All (IsHeld (length r.values_logged_as_bindex)) r.spans_in_use
  pub fits : length r.values_logged_as_bindex ≤ rainfall_size
  pub hour_of_values : r.last_index_in_moving_hour < length r.values_logged_as_bindex
  pub hour_of_states : r.last_index_in_moving_hour < length r.states_logged_as_bindex

IsHeld-longer :
    (n m : ℕ) (spans : List (ℕ × ℕ)) → n ≤ m → All (IsHeld n) spans → All (IsHeld m) spans
IsHeld-longer n m [] h all = tt
IsHeld-longer n m ((span, users) ∷ spans) h ((some_span, covered, used), rest) =
    ((some_span, omega arith, used), IsHeld-longer n m spans h rest)

IsHeld-emplace :
    (n span : ℕ) (spans : List (ℕ × ℕ))
    → 0 < span
    → span ≤ n
    → All (IsHeld n) spans
    → All (IsHeld n) (emplace span 1 spans)
unfolding emplace
IsHeld-emplace n span spans pos h all = elim (Bool-cases (has_key span spans)) [
  | inl there ↦ rw there all
  | inr absent ↦ rw absent ((pos, h, omega arith), all)
]

held_users :
    (n span users : ℕ) (spans : List (ℕ × ℕ))
    → All (IsHeld n) spans
    → find span spans ≡ some users
    → 0 < users
unfolding find
held_users n span users [] all found = absurd (none-ne-some users found)
held_users n span users ((other, its) ∷ spans) ((some_span, covered, used), rest) found =
    elim (Bool-cases (other == span)) [
      | inl same ↦
          let is : find span ((other, its) ∷ spans) ≡ some its = rw same refl in
          subst (λ m. 0 < m) (some-injective its users (sym is ∙ found)) used
      | inr differs ↦
          let is : find span ((other, its) ∷ spans) ≡ find span spans = rw differs refl in
          held_users n span users spans rest (sym is ∙ found)
    ]

log_to_span-covers :
    (span : ℕ) (values : List ℕ)
    → span ≤ rainfall_size
    → length values ≤ rainfall_size
    → (span ≤ length (log_to_span span values))
      × (length values ≤ length (log_to_span span values))
      × (length (log_to_span span values) ≤ rainfall_size)
unfolding resize
log_to_span-covers span values h fits =
    let filler = replicate (span - length values) (last_or 0 values) in
    ground (
      arith,
      length-append values filler,
      length-replicate (span - length values) (last_or 0 values),
      length-take span values,
    )

pub started-Covers :
    (secs_per_cycle secs_per_trigger : ℕ)
    → 10 ≤ secs_per_cycle
    → secs_per_cycle ≤ 3600
    → Covers (new_rain_analog secs_per_cycle secs_per_trigger)
started-Covers secs trigger least most =
    let span = 3600 / secs in
    let pos : 1 ≤ span =
      (le-div_iff_mul-le {k = secs} {x = 1} {y = 3600} (omega arith)).1 (omega (arith, most)) in
    let values = length-replicate span bindex_analog_value_unavail in
    let states = length-replicate span bindex_analog_state_unavail in
    let last : one_fewer span ≡ span - 1 = ground arith in
    record {
      held = ((pos, omega arith, omega arith), tt);
      fits =
          omega (arith, div-le_of_le-mul secs {m = 3600} {n = 360} (omega (arith, least)), values);
      hour_of_values = omega arith;
      hour_of_states = omega arith;
    }

pub logged-Covers :
    (r : RainAnalog)
    → Covers r
    → (r' : RainAnalog) × (update_logging_analog r ≡ some r')
      × Covers r'
      × (r'.spans_in_use ≡ r.spans_in_use)
unfolding update_logging_analog
logged-Covers r c =
    let value : ℕ = drop_bin r.drop_now in
    let values : List ℕ =
      if r.first_cycle
      then replicate (length r.values_logged_as_bindex) value
      else r.values_logged_as_bindex in
    let fresh : length values ≡ length r.values_logged_as_bindex =
      ground (arith, length-replicate (length r.values_logged_as_bindex) value) in
    let hour = c.hour_of_values in
    let (leaving_state, state_there) =
      get_elem?-lt r.states_logged_as_bindex r.last_index_in_moving_hour c.hour_of_states in
    let (leaving_value, value_there) =
      get_elem?-lt values r.last_index_in_moving_hour (omega arith) in
    let state : ℕ =
      if r.valid_at_source && not (bin_over_under r.drop_now)
      then 1
      else bindex_analog_state_invalid in
    let log_length : length (value ∷ init values) ≡ length r.values_logged_as_bindex =
      omega (arith, length-init values, fresh, hour) in
    let hour_of_states = c.hour_of_states in
    (
      record r {
        bin_over_under_seen = if bin_over_under r.drop_now then true else r.bin_over_under_seen;
        first_cycle = false;
        values_logged_as_bindex = value ∷ init values;
        states_logged_as_bindex = state ∷ init r.states_logged_as_bindex;
      },
      rw (update_logging_analog, state_there, value_there) refl,
      record {
        held = subst (λ m. All (IsHeld m) r.spans_in_use) (sym log_length) c.held;
        fits = subst (λ m. m ≤ rainfall_size) (sym log_length) c.fits;
        hour_of_values = subst (λ m. r.last_index_in_moving_hour < m) (sym log_length) hour;
        hour_of_states = omega (arith, length-init r.states_logged_as_bindex);
      },
      refl,
    )

pub added-Covers :
    (span : ℕ) (r : RainAnalog)
    → Covers r
    → Covers (add_new_statistics_user_spanning_cycles span r).0
unfolding add_new_statistics_user_spanning_cycles
added-Covers span r c = elim (Bool-cases (span_refused span)) [
  | inl refused ↦ rw refused c
  | inr allowed ↦
      let small : span ≤ rainfall_size = ground arith in
      let some_span : 0 < span = ground arith in
      let (reached, longer, fits) =
        log_to_span-covers span r.values_logged_as_bindex small c.fits in
      let hour = c.hour_of_values in
      rw allowed (record {
        held =
            IsHeld-emplace (length (log_to_span span r.values_logged_as_bindex)) span r.spans_in_use
              some_span reached
              (IsHeld-longer (length r.values_logged_as_bindex)
                (length (log_to_span span r.values_logged_as_bindex)) r.spans_in_use longer c.held);
        fits = fits;
        hour_of_values = omega (arith, hour, longer);
        hour_of_states = c.hour_of_states;
      })
]

-- A shift does what a new user does: the old span keeps its users, of which there is one at least.
pub shifted-added :
    (old new users : ℕ) (r : RainAnalog)
    → Covers r
    → find old (emplace new 1 r.spans_in_use) ≡ some users
    → shift_span_of_statistics_for_one_user old new r
      ≡ some (add_new_statistics_user_spanning_cycles new r)
unfolding add_new_statistics_user_spanning_cycles shift_span_of_statistics_for_one_user
shifted-added old new users r c found = elim (Bool-cases (span_refused new)) [
  | inl refused ↦ rw (shift_span_of_statistics_for_one_user, refused) refl
  | inr allowed ↦
      let small : new ≤ rainfall_size = ground arith in
      let some_span : 0 < new = ground arith in
      let (reached, longer, fits) = log_to_span-covers new r.values_logged_as_bindex small c.fits in
      let held =
        IsHeld-emplace (length (log_to_span new r.values_logged_as_bindex)) new r.spans_in_use
          some_span reached
          (IsHeld-longer (length r.values_logged_as_bindex)
            (length (log_to_span new r.values_logged_as_bindex)) r.spans_in_use longer c.held) in
      let used =
        held_users (length (log_to_span new r.values_logged_as_bindex)) old users
          (emplace new 1 r.spans_in_use) held found in
      let many : ltb users 1 ≡ false = ground (arith, used) in
      rw (shift_span_of_statistics_for_one_user, allowed, found, many) refl
]
