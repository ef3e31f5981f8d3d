-- ===== src/SeqElement/Pacing.antt =====
-- libEA/seqElement.cpp, `ISeqElement`: how often an element cycles, and what becomes of the marks of a new hour and day.
use zandr_ea.Prelude.{
  ℕ, suc, ◌+◌, ◌-◌, ◌*◌, ◌/◌, ◌≤◌, ◌<◌, ◌≡◌, ◌≢◌, ◌⊎◌, ◌∙◌, refl, sym, ap, true, false, List, [],
  ◌∷◌, ◌==◌, arith, length,
}
use native.Mathlib.Nat.{add-mul-div_left, div-eq_of_lt}
use zandr_ea.Types.{krono_snapshot_size}
use zandr_ea.Clock.{ClockRead, ClockPerPort, Tm, set_time_from_port}
use zandr_ea.SeqElement.{SeqElement, trigger}

-- The counter of triggers is in step with the rate.
pub record IsPaced (e : SeqElement) : Type 0 where
  pub positive : 1 ≤ e.triggers_until_cycle
  pub within : e.triggers_until_cycle ≤ e.triggers_per_cycle
  pub small : e.triggers_per_cycle ≤ krono_snapshot_size
  pub rate : e.cycling_at_max_rate ≡ (e.triggers_per_cycle == 1)

-- What a subclass' `Cycle` leaves alone, and a count of its calls.
pub record CountsCycles {ℓ} {S : Type ℓ} (cycle : ℕ → SeqElement × S → SeqElement × S)
    : Type ℓ where
  pub cycles : S → ℕ
  pub counts : (now : ℕ) (e : SeqElement) (s : S) → cycles (cycle now (e, s)).1 ≡ suc (cycles s)
  pub keeps_until :
      (now : ℕ) (e : SeqElement) (s : S)
      → (cycle now (e, s)).0.triggers_until_cycle ≡ e.triggers_until_cycle
  pub keeps_per :
      (now : ℕ) (e : SeqElement) (s : S)
      → (cycle now (e, s)).0.triggers_per_cycle ≡ e.triggers_per_cycle
  pub keeps_rate :
      (now : ℕ) (e : SeqElement) (s : S)
      → (cycle now (e, s)).0.cycling_at_max_rate ≡ e.cycling_at_max_rate
  pub keeps_group :
      (now : ℕ) (e : SeqElement) (s : S)
      → (cycle now (e, s)).0.own_trigger_group ≡ e.own_trigger_group

-- The quotient is the one number of rounds that leaves less than a round.
rounds_unique : (t m m' r r' : ℕ) → r' < t → t * m' + r' ≡ t * m + r → m' ≡ m + r / t
rounds_unique t m m' r r' h e =
    let positive : 0 < t = omega arith in
    let same : (r' + t * m') / t ≡ (r + t * m) / t = ap (λ k. k / t) (omega arith) in
    let left : (r' + t * m') / t ≡ m' =
      add-mul-div_left r' m' positive ∙ ap (λ k. k + m') (div-eq_of_lt h) ∙ omega arith in
    sym left ∙ same ∙ add-mul-div_left r m positive ∙ omega arith

record Advance (e e' : SeqElement) (m m' : ℕ) : Type 0 where
  paced : IsPaced e'
  per : e'.triggers_per_cycle ≡ e.triggers_per_cycle
  phase :
      ((e.triggers_until_cycle ≡ 1)
        × (e'.triggers_until_cycle ≡ e.triggers_per_cycle)
        × (m' ≡ suc m))
      ⊎ ((suc e'.triggers_until_cycle ≡ e.triggers_until_cycle) × (m' ≡ m))

module _ {ℓ} {S : Type ℓ} (cycle : ℕ → SeqElement × S → SeqElement × S)
    (c : CountsCycles cycle) where
  -- The triggers of a list of clock reads that target the element's own group.
  pub run_targeted : List ClockRead → SeqElement × S → SeqElement × S
  run_targeted [] es = es
  run_targeted (r ∷ rs) es = run_targeted rs (trigger cycle es.0.own_trigger_group r es).0

  advance :
      (r : ClockRead) (e : SeqElement) (s : S)
      → IsPaced e
      → let t = (trigger cycle e.own_trigger_group r (e, s)).0 in
        Advance e t.0 (c.cycles s) (c.cycles t.1)
  unfolding trigger
  advance r e s p = grind (arith, c.counts, c.keeps_until, c.keeps_per, c.keeps_rate)

  -- Triggers used up so far, in whole cycles and in the phase within a cycle.
  phase-run_targeted :
      (rs : List ClockRead) (e : SeqElement) (s : S)
      → IsPaced e
      → let t = run_targeted rs (e, s) in
        (e.triggers_per_cycle * c.cycles t.1 + (e.triggers_per_cycle - t.0.triggers_until_cycle)
          ≡ e.triggers_per_cycle * c.cycles s
            + (e.triggers_per_cycle - e.triggers_until_cycle)
            + length rs)
        × IsPaced t.0
        × (t.0.triggers_per_cycle ≡ e.triggers_per_cycle)
  unfolding run_targeted
  phase-run_targeted [] e s p = (omega arith, p, refl)
  phase-run_targeted (r ∷ rs) e s p =
      let a = advance r e s p in
      let t = (trigger cycle e.own_trigger_group r (e, s)).0 in
      let (eq, paced, per) = phase-run_targeted rs t.0 t.1 a.paced in
      (grind arith, paced, per ∙ a.per)

  -- An element in step cycles at each of the triggers of its group that its rate tells: after n of
  -- them it has run its `Cycle` once for each full round of its triggers per cycle, counted from the
  -- phase that it started in.
  pub cycles-run_targeted :
      (rs : List ClockRead) (e : SeqElement) (s : S)
      → IsPaced e
      → c.cycles (run_targeted rs (e, s)).1
        ≡ c.cycles s
          + (length rs + (e.triggers_per_cycle - e.triggers_until_cycle)) / e.triggers_per_cycle
  cycles-run_targeted rs e s p =
      let (used, paced, per) = phase-run_targeted rs e s p in
      let t = run_targeted rs (e, s) in
      let bound : e.triggers_per_cycle - t.0.triggers_until_cycle < e.triggers_per_cycle =
        omega arith in
      rounds_unique e.triggers_per_cycle (c.cycles s) (c.cycles t.1) _ _ bound (omega arith)

-- When a time is set that `std::mktime` normalizes to another day of the week than that of the time before
-- it, at the same hour, the clock marks a new day and no new hour, and then an element does just what it
-- would do if the day were not new.
pub trigger-misses_day :
    {S : Type 0} (cycle : ℕ → SeqElement × S → SeqElement × S) (mktime : Tm → ℕ × Tm) (t : Tm)
    (k : ClockPerPort) (group : ℕ) (es : SeqElement × S)
    → (mktime t).0 ≢ k.clock_read_at_bell.timestamp
    → (mktime t).1.tm_hour ≡ k.time_struct_was.tm_hour
    → (mktime t).1.tm_wday ≢ k.time_struct_was.tm_wday
    → let r = (set_time_from_port mktime t k).0.clock_read_at_bell in
      (r.new_day ≡ true)
      × (r.new_hour ≡ false)
      × (trigger cycle group r es ≡ trigger cycle group (record r { new_day = false }) es)
unfolding set_time_from_port trigger
trigger-misses_day cycle mktime t k group (e, s) moved hour day = ground arith
