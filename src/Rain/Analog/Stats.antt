-- ===== src/Rain/Analog/Stats.antt =====
-- libEA/rainfall.cpp, `CRainAnalog`: the statistics of a cycle.
use mathlib.Core.Path.{subst}
use zandr_ea.Prelude.{
  ap, ℕ, zero, suc, ◌-◌, ◌<◌, ◌≡◌, refl, sym, ◌∙◌, Bool, false, List, [], ◌∷◌, ◌++◌, Option, some,
  if◌then◌else◌, arith, length, get_or, take, map, replicate, length-replicate, All,
}
use zandr_ea.Types.{one_fewer, rainfall_size}
use zandr_ea.Rain.Analog.{
  RainAnalog, update_statistics_analog, cycle_rain_analog, sums_of_spans, bin_sums_of, row_of,
  no_sums,
}
use zandr_ea.Rain.Analog.Sums.{read-rows, left_over, counted_in, bin_sums_of-counts}
use zandr_ea.Rain.Analog.Spans.{IsHeld, Covers, logged-Covers}

get_or-replicate : (i n d : ℕ) → get_or (replicate n d) i d ≡ d
get_or-replicate i zero d = refl
get_or-replicate zero (suc n) d = refl
get_or-replicate (suc i) (suc n) d = get_or-replicate i n d

no_sums_lem : (b : ℕ) → b < 256 → (b < length no_sums) × (get_or no_sums b 0 ≡ 0)
unfolding no_sums
no_sums_lem b low =
    (subst (λ m. b < m) (sym (length-replicate {A = ℕ} 256 0)) low, get_or-replicate b 256 0)

one_span :
    (depth span users : ℕ) (spans : List (ℕ × ℕ)) (register : List (Option ℕ)) (sums : List ℕ)
    (stats : List (ℕ × List ℕ))
    → one_fewer span ≡ depth
    → bin_sums_of depth register no_sums ≡ some sums
    → sums_of_spans spans register ≡ some stats
    → sums_of_spans ((span, users) ∷ spans) register ≡ some ((depth, sums) ∷ stats)
one_span depth span users spans register sums stats same summed found =
    rw (sums_of_spans, same, summed, found) (ap (λ m. some ((m, sums) ∷ stats)) same)

sums_of_spans-counts :
    (spans : List (ℕ × ℕ)) (log : List ℕ) (rest : List (Option ℕ))
    → All (IsHeld (length log)) spans
    → (stats : List (ℕ × List ℕ)) × (sums_of_spans spans (map row_of log ++ rest) ≡ some stats)
      × ((b : ℕ)
          → b < 256
          → map {B = ℕ × ℕ} (λ s. (s.0, get_or s.1 b 0)) stats
            ≡ map {B = ℕ × ℕ} (λ span. (span.0 - 1, counted_in b (take (span.0 - 1) log))) spans)
sums_of_spans-counts [] log rest all = ([], refl, λ b low. refl)
sums_of_spans-counts ((span, users) ∷ spans) log rest ((some_span, covered, used), others) =
    let depth : one_fewer span ≡ span - 1 = ground arith in
    let (sums, summed, counts) = bin_sums_of-counts (span - 1) log no_sums rest (omega arith) in
    let (stats, found, same) = sums_of_spans-counts spans log rest others in
    (
      (span - 1, sums) ∷ stats,
      one_span (span - 1) span users spans (map row_of log ++ rest) sums stats depth summed found,
      λ b low.
          let (wide, at_zero) = no_sums_lem b low in
          let bin : get_or sums b 0 ≡ counted_in b (take (span - 1) log) =
            omega (arith, counts b wide, at_zero) in
          rw (bin, same b low) refl,
    )

pub cycled-counts :
    (drop : ℕ) (valid : Bool) (register : List (Option ℕ)) (r : RainAnalog)
    → Covers r
    → length register ≡ rainfall_size
    → (r' : RainAnalog) × (rows : List (Option ℕ)) × (stats : List (ℕ × List ℕ))
      × (cycle_rain_analog drop valid register r ≡ some (r', (rows, stats)))
      × Covers r'
      × (length rows ≡ rainfall_size)
      × ((b : ℕ)
          → b < 256
          → map {B = ℕ × ℕ} (λ s. (s.0, get_or s.1 b 0)) stats
            ≡ map {B = ℕ × ℕ}
                (λ span. (span.0 - 1, counted_in b (take (span.0 - 1) r'.values_logged_as_bindex)))
                r'.spans_in_use)
unfolding cycle_rain_analog update_statistics_analog
cycled-counts drop valid register r c wide =
    let given : RainAnalog = record r {
      valid_at_source = valid;
      drop_now = if valid then drop else r.drop_now;
    } in
    let given_Covers : Covers given = record {
      held = c.held;
      fits = c.fits;
      hour_of_values = c.hour_of_values;
      hour_of_states = c.hour_of_states;
    } in
    let (logged, logs, covers, spans) = logged-Covers given given_Covers in
    let log = logged.values_logged_as_bindex in
    let rest = left_over log register in
    let fits = covers.fits in
    let (reads, same) = read-rows log register (omega arith) in
    let (stats, summed, counts) = sums_of_spans-counts logged.spans_in_use log rest covers.held in
    let updated : update_statistics_analog register logged ≡ some (map row_of log ++ rest, stats) =
      rw (update_statistics_analog, reads, summed) refl in
    (
      record logged { first_cycle = false },
      map row_of log ++ rest,
      stats,
      rw (cycle_rain_analog, logs, updated) refl,
      record {
        held = covers.held;
        fits = covers.fits;
        hour_of_values = covers.hour_of_values;
        hour_of_states = covers.hour_of_states;
      },
      same ∙ wide,
      counts,
    )
