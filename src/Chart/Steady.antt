-- ===== src/Chart/Steady.antt =====
-- libEA/chart.cpp, `CChartShewhart`: when the chart calls its variable steady.
use zandr_ea.Prelude.{
  ℕ, ◌+◌, ◌-◌, ◌<◌, ◌≤◌, min, ◌≡◌, refl, ◌∙◌, Bool, true, false, not, ◌&&◌, ◌||◌, ◌==◌,
  if◌then◌else◌, arith, List, [], ◌∷◌, Bool-cases, inl, inr,
}
use zandr_ea.Chart.{
  ChartShewhart, ChartInput, new_shewhart, cycle_shewhart, apply_shewhart, pull_input,
  reset_shewhart,
}

-- The step of the count and of the verdict.
full_step :
    (trip was : Bool) (n m : ℕ) {free : ℕ} {flip : Bool}
    → 0 < m
    → n ≤ m
    → was ≡ (n == m)
    → free ≡ (if trip then n - 1 else min (n + 1) m)
    → flip ≡ ((not trip && (not was && (free == m))) || (trip && was))
    → (free ≤ m) × ((if flip then not was else was) ≡ (free == m))
full_step trip was n m pos fits full f g = ground arith

module _ {F : Type 0} where
  -- The count is no more than its margin, and once the reset is done, the chart was steady on the last
  -- valid cycle just if it was full.
  abbrev IsCounted : ℕ → ChartShewhart F → Type 0
  IsCounted m c =
      (c.trip_free_margin ≡ m)
      × (c.trip_free_count ≤ m)
      × (c.reset_pending ≡ false → c.was_steady_on_last_valid ≡ (c.trip_free_count == m))

  reset_shewhart-IsCounted :
      (m : ℕ) (c : ChartShewhart F)
      → IsCounted m c
      → IsCounted m (reset_shewhart c) × ((reset_shewhart c).reset_pending ≡ false)
  reset_shewhart-IsCounted m c (margin, fits, full) = elim (Bool-cases c.reset_pending) [
    | inl pending ↦ rw pending ((margin, omega arith, λ done. ground arith), refl)
    | inr done ↦ rw done ((margin, fits, λ e. full done), refl)
  ]

  pull_input-IsCounted :
      (m : ℕ) (x : ChartInput F) (c : ChartShewhart F)
      → IsCounted m c
      → IsCounted m (pull_input x c) × ((pull_input x c).reset_pending ≡ c.reset_pending)
  unfolding pull_input
  pull_input-IsCounted m x c counted = elim (Bool-cases c.chart_running) [
    | inl running ↦ rw running (counted, refl)
    | inr waits ↦ rw waits (counted, refl)
  ]

module _ {F : Type 0} (trips : F → F → F → Bool) where
  apply_shewhart-full :
      (m : ℕ) (x : ChartInput F) (c : ChartShewhart F)
      → 0 < m
      → IsCounted m c
      → c.reset_pending ≡ false
      → ((apply_shewhart trips x c).trip_free_count ≤ m)
        × ((apply_shewhart trips x c).is_steady_now
            ≡ ((apply_shewhart trips x c).trip_free_count == m))
        × ((apply_shewhart trips x c).trip_free_margin ≡ m)
        × ((apply_shewhart trips x c).reset_pending ≡ false)
  unfolding apply_shewhart
  apply_shewhart-full m x c pos (margin, fits, full) done =
      let (f, s) =
        full_step (trips x.x_now x.x_mean c.std_dev_ref_new) c.was_steady_on_last_valid
          c.trip_free_count m pos fits (full done) refl refl in
      rw margin (f, s, refl, done)

  cycle_shewhart-full :
      (m : ℕ) (valid : Bool) (x : ChartInput F) (c : ChartShewhart F)
      → 0 < m
      → IsCounted m c
      → IsCounted m (cycle_shewhart trips valid x c)
        × ((cycle_shewhart trips valid x c).is_steady_now
            ≡ (cycle_shewhart trips valid x c).was_steady_on_last_valid)
  unfolding cycle_shewhart
  cycle_shewhart-full m false x c pos counted = (counted, refl)
  cycle_shewhart-full m true x c pos counted =
      let given : ChartShewhart F = record c {
        valid_now = true;
        is_steady_now = c.is_steady_now;
      } in
      let (reset, done) = reset_shewhart-IsCounted m given counted in
      let (pulled, same) = pull_input-IsCounted m x (reset_shewhart given) reset in
      let (fits, full, margin, still) =
        apply_shewhart-full m x (pull_input x (reset_shewhart given)) pos pulled (same ∙ done) in
      ((margin, fits, λ e. full), refl)

  abbrev pub run_shewhart : List (Bool × ChartInput F) → ChartShewhart F → ChartShewhart F
  run_shewhart [] c = c
  run_shewhart ((valid, x) ∷ xs) c = run_shewhart xs (cycle_shewhart trips valid x c)

  run_shewhart-full :
      (m : ℕ) (xs : List (Bool × ChartInput F)) (c : ChartShewhart F)
      → 0 < m
      → IsCounted m c
      → c.is_steady_now ≡ c.was_steady_on_last_valid
      → IsCounted m (run_shewhart xs c)
        × ((run_shewhart xs c).is_steady_now ≡ (run_shewhart xs c).was_steady_on_last_valid)
  run_shewhart-full m [] c pos counted same = (counted, same)
  run_shewhart-full m ((valid, x) ∷ xs) c pos counted same =
      let (next, agrees) = cycle_shewhart-full m valid x c pos counted in
      run_shewhart-full m xs (cycle_shewhart trips valid x c) pos next agrees

  -- From its construction on, whatever a Shewhart chart reads, and whichever cycles are valid: once a valid
  -- cycle has reset it, it is steady just while its count of cycles without a trip is full, at a margin of
  -- at least one. So one trip makes a steady chart unsteady.
  pub run_shewhart-steady :
      (nan : F) (m : ℕ) (xs : List (Bool × ChartInput F))
      → 0 < m
      → (run_shewhart xs (new_shewhart nan m)).reset_pending ≡ false
      → ((run_shewhart xs (new_shewhart nan m)).trip_free_count ≤ m)
        × ((run_shewhart xs (new_shewhart nan m)).is_steady_now
            ≡ ((run_shewhart xs (new_shewhart nan m)).trip_free_count == m))
  run_shewhart-steady nan m xs pos done =
      let ((margin, fits, full), same) =
        run_shewhart-full m xs (new_shewhart nan m) pos (refl, omega arith, λ e. ground arith)
          refl in
      (fits, same ∙ full done)
