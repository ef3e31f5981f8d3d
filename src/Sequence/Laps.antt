-- ===== src/Sequence/Laps.antt =====
-- The laps of `CSequence::Trigger` in libEA/sequence.cpp, taken together.
use zandr_ea.Prelude.{
  ℕ, suc, zero, ◌+◌, ◌≤◌, ◌<◌, ◌≡◌, refl, sym, ◌∙◌, true, false, List, [], ◌∷◌, map, some, ◌==◌,
  arith, All, inl, inr, Bool-cases, ==_iff,
}
use mathlib.Core.Bool.{true≢false}
use native.Mathlib.Nat.{mod-eq_of_lt}
use mathlib.Core.List.{append-nil}
use mathlib.Core.Path.{ap₂, subst}
use zandr_ea.Types.{word_mod, incr_word}
use zandr_ea.Clock.{ClockRead}
use zandr_ea.Sequence.{ClassRun, one_class, one_lap, reset_class, sum_triggered, sum_objects, laps}
use zandr_ea.Sequence.Schedule.{
  TriggersObjects, ClassAt, Fires, Fires-then, class_step, lap_schedule, schedule, count_below,
  count_below_le,
}

-- The last lap may still be numbered in a machine word.
abbrev pub FitsWord : ℕ → ClassRun → Type 0
FitsWord last r = r.base_trigger_grp + last < word_mod

-- Whether the laps before one have targeted the group of each object of a class.
abbrev pub Reached : (ℕ → ℕ) → ℕ → ClassRun → Type 0
Reached group lap r = count_below group (r.base_trigger_grp + lap) r.members ≡ r.num_objects

module _ {W : Type 0} (trig : ℕ → ClockRead → ℕ → W → W × ℕ) (t : TriggersObjects trig) where
  record LapStep (lap : ℕ) (rs rs' : List ClassRun) (w w' : W) : Type 0 where
    same : map reset_class rs' ≡ map reset_class rs
    next : All (ClassAt t.group (suc lap)) rs'
    fires : Fires trig t w w' (lap_schedule t.group lap (map reset_class rs))

  lap_step :
      (lap : ℕ) (k : ClockRead) (rs : List ClassRun) (w : W)
      → t.Ok w
      → All (ClassAt t.group lap) rs
      → All (FitsWord (suc lap)) (map reset_class rs)
      → LapStep lap rs (one_lap trig lap k (rs, w)).0 w (one_lap trig lap k (rs, w)).1
  unfolding one_lap reset_class
  lap_step lap k [] w ok c fits = record {
    same = refl;
    next = tt;
    fires = record { ok = ok; log = sym (append-nil (t.fired w)) };
  }
  lap_step lap k (r ∷ rs) w ok (c, cs) (f, fs) =
      let head = class_step trig t lap k r w ok c f in
      let (r', w') = one_class trig lap k (r, w) in
      let rest = lap_step lap k rs w' head.fires.ok cs fs in
      record {
        same = ap₂ (◌∷◌) head.same rest.same;
        next = (head.next, rest.next);
        fires = Fires-then trig t w w' _ _ _ head.fires rest.fires;
      }

  all_counted :
      (lap : ℕ) (rs : List ClassRun)
      → All (ClassAt t.group lap) rs
      → (sum_triggered rs ≤ sum_objects (map reset_class rs))
        × (sum_triggered rs ≡ sum_objects (map reset_class rs)
            → All (Reached t.group lap) (map reset_class rs))
        × (All (Reached t.group lap) (map reset_class rs)
            → sum_triggered rs ≡ sum_objects (map reset_class rs))
  unfolding sum_triggered sum_objects reset_class
  all_counted lap [] c = (omega arith, λ _. tt, λ _. refl)
  all_counted lap (r ∷ rs) (c, cs) =
      let (le, to, from) = all_counted lap rs cs in
      let most = count_below_le t.group (r.base_trigger_grp + lap) r.members in
      (
        omega (arith, c.tally, c.number),
        λ e. (omega (arith, c.tally, c.number), to (omega (arith, c.tally, c.number))),
        λ (h, hs). omega (arith, c.tally, from hs),
      )

  -- The classes without their counts stay as they are, `base`.
  record BaseStep (lap : ℕ) (base rs' : List ClassRun) (w w' : W) : Type 0 where
    same : map reset_class rs' ≡ base
    next : All (ClassAt t.group (suc lap)) rs'
    fires : Fires trig t w w' (lap_schedule t.group lap base)

  base_step :
      (lap : ℕ) (k : ClockRead) (base rs : List ClassRun) (w : W)
      → map reset_class rs ≡ base
      → t.Ok w
      → All (ClassAt t.group lap) rs
      → All (FitsWord (suc lap)) base
      → BaseStep lap base (one_lap trig lap k (rs, w)).0 w (one_lap trig lap k (rs, w)).1
  base_step lap k base rs w e ok c fits =
      let s = lap_step lap k rs w ok c (subst (All (FitsWord (suc lap))) (sym e) fits) in
      record {
        same = s.same ∙ e;
        next = s.next;
        fires =
            subst (λ b. Fires trig t w (one_lap trig lap k (rs, w)).1 (lap_schedule t.group lap b))
              e s.fires;
      }

  base_counted :
      (lap : ℕ) (base rs : List ClassRun)
      → map reset_class rs ≡ base
      → All (ClassAt t.group lap) rs
      → (sum_triggered rs ≡ sum_objects base → All (Reached t.group lap) base)
        × (All (Reached t.group lap) base → sum_triggered rs ≡ sum_objects base)
  base_counted lap base rs e c =
      let (_, to, from) = all_counted lap rs c in
      subst
        (λ b.
          (sum_triggered rs ≡ sum_objects b → All (Reached t.group lap) b)
          × (All (Reached t.group lap) b → sum_triggered rs ≡ sum_objects b))
        e (to, from)

  fits_mono : (l m : ℕ) (rs : List ClassRun) → l ≤ m → All (FitsWord m) rs → All (FitsWord l) rs
  fits_mono l m [] h f = tt
  fits_mono l m (r ∷ rs) h (f, fs) = (omega arith, fits_mono l m rs h fs)

  -- What the laps from one on do, `n` more after the first of them.
  pub record LapsDone (lap n : ℕ) (base rs' : List ClassRun) (w w' : W) : Type 0 where
    pub same : map reset_class rs' ≡ base
    pub reached : All (Reached t.group (suc (n + lap))) base
    pub fires : Fires trig t w w' (schedule t.group (suc n) lap base)

  -- That the loop ends on that fuel.
  abbrev pub LapsEnd :
      (fuel lap total : ℕ) (k : ClockRead) (base rs : List ClassRun) (w : W) → Type 0
  LapsEnd fuel lap total k base rs w =
      (n : ℕ) × (rs' : List ClassRun) × (w' : W) × (n < fuel)
      × (laps trig fuel lap total k (rs, w) ≡ some ((rs', w'), true))
      × LapsDone lap n base rs' w w'

  laps-stop :
      (fuel lap total : ℕ) (k : ClockRead) (rw : List ClassRun × W)
      → (sum_triggered (one_lap trig lap k rw).0 == total) ≡ true
      → laps trig (suc fuel) lap total k rw ≡ some (one_lap trig lap k rw, true)
  unfolding laps
  laps-stop fuel lap total k rw' h = rw h

  laps-more :
      (fuel lap total : ℕ) (k : ClockRead) (rw : List ClassRun × W)
      → (sum_triggered (one_lap trig lap k rw).0 == total) ≡ false
      → suc lap < word_mod
      → laps trig (suc fuel) lap total k rw
        ≡ laps trig fuel (suc lap) total k (one_lap trig lap k rw)
  unfolding laps
  laps-more fuel lap total k rw' h word = rw (h, next)
    where
      next : incr_word lap ≡ suc lap
      next = mod-eq_of_lt (omega arith) ∙ omega arith

  end_here :
      (fuel lap total : ℕ) (k : ClockRead) (base rs : List ClassRun) (w : W)
      → total ≡ sum_objects base
      → BaseStep lap base (one_lap trig lap k (rs, w)).0 w (one_lap trig lap k (rs, w)).1
      → (sum_triggered (one_lap trig lap k (rs, w)).0 == total) ≡ true
      → LapsEnd (suc fuel) lap total k base rs w
  end_here fuel lap total k base rs w tot s h =
      let (rs', w') = one_lap trig lap k (rs, w) in
      let same_sum = (==_iff (sum_triggered rs') total).0 h ∙ tot in
      let first : suc lap ≡ suc (0 + lap) = omega arith in
      (
        0,
        rs',
        w',
        omega arith,
        laps-stop fuel lap total k (rs, w) h,
        record {
          same = s.same;
          reached =
              subst (λ l. All (Reached t.group l) base) first
                ((base_counted (suc lap) base rs' s.same s.next).0 same_sum);
          fires =
              subst (Fires trig t w w') (sym (append-nil (lap_schedule t.group lap base))) s.fires;
        },
      )

  -- The loop does not end on a lap only while an object is still out of reach.
  not-Reached :
      (lap total : ℕ) (base rs' : List ClassRun)
      → total ≡ sum_objects base
      → map reset_class rs' ≡ base
      → All (ClassAt t.group lap) rs'
      → (sum_triggered rs' == total) ≡ false
      → ¬ All (Reached t.group lap) base
  not-Reached lap total base rs' tot same next left reach =
      let full = (base_counted lap base rs' same next).1 reach in
      true≢false (sym ((==_iff (sum_triggered rs') total).1 (full ∙ sym tot)) ∙ left)

  pub laps-done :
      (fuel lap last total : ℕ) (k : ClockRead) (base rs : List ClassRun) (w : W)
      → last ≡ lap + suc fuel
      → last < word_mod
      → total ≡ sum_objects base
      → map reset_class rs ≡ base
      → t.Ok w
      → All (ClassAt t.group lap) rs
      → All (FitsWord last) base
      → All (Reached t.group last) base
      → LapsEnd (suc fuel) lap total k base rs w
  laps-done zero lap last total k base rs w end word tot e ok c fits reach =
      let now : last ≡ suc lap = omega arith in
      let s = base_step lap k base rs w e ok c (subst (λ l. All (FitsWord l) base) now fits) in
      elim (Bool-cases (sum_triggered (one_lap trig lap k (rs, w)).0 == total)) [
        | inl all_triggered ↦ end_here zero lap total k base rs w tot s all_triggered
        | inr left ↦ absurd (
            not-Reached (suc lap) total base _ tot s.same s.next left
              (subst (λ l. All (Reached t.group l) base) now reach))
      ]
  laps-done (suc f) lap last total k base rs w end word tot e ok c fits reach =
      let (rs', w') = one_lap trig lap k (rs, w) in
      let s = base_step lap k base rs w e ok c (fits_mono (suc lap) last base (omega arith) fits) in
      elim (Bool-cases (sum_triggered rs' == total)) [
        | inl all_triggered ↦ end_here (suc f) lap total k base rs w tot s all_triggered
        | inr left ↦
            let (n, rs'', w'', le, run, d) =
              laps-done f (suc lap) last total k base rs' w' (omega arith) word tot s.same
                s.fires.ok s.next fits reach in
            let moved : suc (n + suc lap) ≡ suc (suc n + lap) = omega arith in
            (
              suc n,
              rs'',
              w'',
              omega arith,
              laps-more (suc f) lap total k (rs, w) left (omega arith) ∙ run,
              record {
                same = d.same;
                reached = subst (λ l. All (Reached t.group l) base) moved d.reached;
                fires =
                    Fires-then trig t w w' w'' (lap_schedule t.group lap base)
                      (schedule t.group (suc n) (suc lap) base) s.fires d.fires;
              },
            )
      ]
