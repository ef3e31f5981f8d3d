-- ===== src/Sequence/Schedule.antt =====
-- The objects that a lap of `CSequence::Trigger` in libEA/sequence.cpp targets.
use zandr_ea.Prelude.{
  ℕ, suc, zero, ◌+◌, ◌≤◌, ◌<◌, ◌≡◌, refl, sym, ap, ◌∙◌, true, false, List, [], ◌∷◌, ◌++◌, ◌==◌,
  if◌then◌else◌, length, arith, to_int, ==_iff, ltb, Bool-cases, inl, inr,
}
use mathlib.Core.List.{append_assoc, append-nil}
use native.Mathlib.Nat.{mod-eq_of_lt}
use zandr_ea.Types.{word_mod}
use zandr_ea.Clock.{ClockRead}
use zandr_ea.Sequence.{ClassRun, trigger_each, one_class, reset_class}

-- What the sequence relies on in the objects: that each has a fixed group, and that its `Trigger`
-- replies 1 and fires just when its group is the one targeted.
pub record TriggersObjects {W : Type 0} (trig : ℕ → ClockRead → ℕ → W → W × ℕ) : Type 1 where
  pub Ok : W → Type 0
  pub group : ℕ → ℕ
  pub fired : W → List ℕ
  pub keeps : (g : ℕ) (k : ClockRead) (o : ℕ) (w : W) → Ok w → Ok (trig g k o w).0
  pub reply :
      (g : ℕ) (k : ClockRead) (o : ℕ) (w : W) → Ok w → (trig g k o w).1 ≡ to_int (group o == g)
  pub logs :
      (g : ℕ) (k : ClockRead) (o : ℕ) (w : W)
      → Ok w
      → fired (trig g k o w).0 ≡ fired w ++ (if group o == g then o ∷ [] else [])

module _ (group : ℕ → ℕ) where
  -- The objects of a group, in order.
  abbrev pub matching : ℕ → List ℕ → List ℕ
  matching g [] = []
  matching g (o ∷ os) = (if group o == g then o ∷ [] else []) ++ matching g os

  -- How many objects have a group below a bound.
  abbrev pub count_below : ℕ → List ℕ → ℕ
  count_below b [] = 0
  count_below b (o ∷ os) = to_int (ltb (group o) b) + count_below b os

  count_below-suc :
      (b : ℕ) (os : List ℕ) → count_below (suc b) os ≡ count_below b os + length (matching b os)
  count_below-suc b [] = refl
  count_below-suc b (o ∷ os) = ground (arith, count_below-suc b os)

  pub count_below_le : (b : ℕ) (os : List ℕ) → count_below b os ≤ length os
  count_below_le b [] = omega arith
  count_below_le b (o ∷ os) = ground (arith, count_below_le b os)

  pub count_below_mono : (b c : ℕ) (os : List ℕ) → b ≤ c → count_below b os ≤ count_below c os
  count_below_mono b c [] h = omega arith
  count_below_mono b c (o ∷ os) h = ground (arith, count_below_mono b c os h)

  -- When all are below a bound, none is left at the bound.
  matching_none : (b : ℕ) (os : List ℕ) → count_below b os ≡ length os → matching b os ≡ []
  matching_none b [] h = refl
  matching_none b (o ∷ os) h = ground (arith, count_below_le b os, matching_none b os)

  -- A class as it is before a lap: it has counted what earlier laps fired.
  pub record ClassAt (lap : ℕ) (r : ClassRun) : Type 0 where
    pub tally : r.objects_triggered ≡ count_below (r.base_trigger_grp + lap) r.members
    pub number : r.num_objects ≡ length r.members
    pub fits : r.base_trigger_grp + lap < word_mod
    pub done :
        r.all_triggered ≡ true → count_below (r.base_trigger_grp + lap) r.members ≡ length r.members

  -- What one lap fires.
  abbrev pub lap_schedule : ℕ → List ClassRun → List ℕ
  lap_schedule lap [] = []
  lap_schedule lap (r ∷ rs) = matching (r.base_trigger_grp + lap) r.members ++ lap_schedule lap rs

  -- What a number of laps fire, from a lap on.
  abbrev pub schedule : ℕ → ℕ → List ClassRun → List ℕ
  schedule zero lap rs = []
  schedule (suc n) lap rs = lap_schedule lap rs ++ schedule n (suc lap) rs

module _ {W : Type 0} (trig : ℕ → ClockRead → ℕ → W → W × ℕ) (t : TriggersObjects trig) where
  -- A step of the loop from a state to a state that has fired more.
  pub record Fires (w w' : W) (os : List ℕ) : Type 0 where
    pub ok : t.Ok w'
    pub log : t.fired w' ≡ t.fired w ++ os

  pub Fires-then :
      (w w' w'' : W) (os ps : List ℕ) → Fires w w' os → Fires w' w'' ps → Fires w w'' (os ++ ps)
  Fires-then w w' w'' os ps f g = record {
    ok = g.ok;
    log = g.log ∙ ap (λ l. l ++ ps) f.log ∙ append_assoc (t.fired w) os ps;
  }

  each-lem :
      (g : ℕ) (k : ClockRead) (os : List ℕ) (n : ℕ) (w : W)
      → t.Ok w
      → ((trigger_each trig g k os (n, w)).0 ≡ n + length (matching t.group g os))
        × Fires w (trigger_each trig g k os (n, w)).1 (matching t.group g os)
  unfolding trigger_each
  each-lem g k [] n w ok = (omega arith, record { ok = ok; log = sym (append-nil (t.fired w)) })
  each-lem g k (o ∷ os) n w ok =
      let w' = (trig g k o w).0 in
      let (tally, rest) = each-lem g k os (n + (trig g k o w).1) w' (t.keeps g k o w ok) in
      (
        ground (arith, tally, t.reply g k o w ok),
        Fires-then w w' _ (if t.group o == g then o ∷ [] else []) (matching t.group g os)
            (record { ok = t.keeps g k o w ok; log = t.logs g k o w ok }) rest,
      )

  -- A class before and after its part of a lap.
  pub record ClassStep (lap : ℕ) (r r' : ClassRun) (w w' : W) : Type 0 where
    pub same : reset_class r' ≡ reset_class r
    pub next : ClassAt t.group (suc lap) r'
    pub fires : Fires w w' (matching t.group (r.base_trigger_grp + lap) r.members)

  next_lap : (b lap : ℕ) → b + suc lap ≡ suc (b + lap)
  next_lap b lap = omega arith

  one_class-done :
      (lap : ℕ) (k : ClockRead) (r : ClassRun) (w : W)
      → r.all_triggered ≡ true
      → one_class trig lap k (r, w) ≡ (r, w)
  unfolding one_class
  one_class-done lap k r w h = rw h

  one_class-left :
      (lap : ℕ) (k : ClockRead) (r : ClassRun) (w : W)
      → r.all_triggered ≡ false
      → r.base_trigger_grp + lap < word_mod
      → let (n, w') =
          trigger_each trig (r.base_trigger_grp + lap) k r.members (r.objects_triggered, w) in
        one_class trig lap k (r, w)
        ≡ (record r { objects_triggered = n; all_triggered = n == r.num_objects }, w')
  unfolding one_class
  one_class-left lap k r w h fits = rw (h, mod-eq_of_lt fits)

  step_done :
      (lap : ℕ) (r : ClassRun) (w : W)
      → t.Ok w
      → ClassAt t.group lap r
      → r.base_trigger_grp + suc lap < word_mod
      → r.all_triggered ≡ true
      → ClassStep lap r r w w
  step_done lap r w ok c fits h =
      let b = r.base_trigger_grp + lap in
      let none_left = matching_none t.group b r.members (c.done h) in
      let mono = count_below_mono t.group b (suc b) r.members (omega arith) in
      let most = count_below_le t.group (suc b) r.members in
      let all_below : count_below t.group (r.base_trigger_grp + suc lap) r.members
          ≡ length r.members =
        ap (λ x. count_below t.group x r.members) (next_lap r.base_trigger_grp lap)
        ∙ omega (arith, c.done h) in
      record {
        same = refl;
        next = record {
          tally = c.tally ∙ c.done h ∙ sym all_below;
          number = c.number;
          fits = fits;
          done = λ _. all_below;
        };
        fires = record { ok = ok; log = rw none_left (sym (append-nil (t.fired w))) };
      }

  step_left :
      (lap : ℕ) (k : ClockRead) (r : ClassRun) (w : W)
      → t.Ok w
      → ClassAt t.group lap r
      → r.base_trigger_grp + suc lap < word_mod
      → let (n, w') =
          trigger_each trig (r.base_trigger_grp + lap) k r.members (r.objects_triggered, w) in
        ClassStep lap r
          (record r { objects_triggered = n; all_triggered = n == r.num_objects })
          w
          w'
  unfolding reset_class
  step_left lap k r w ok c fits =
      let b = r.base_trigger_grp + lap in
      let (counted, fires) = each-lem b k r.members r.objects_triggered w ok in
      let below : count_below t.group (r.base_trigger_grp + suc lap) r.members
          ≡ (trigger_each trig b k r.members (r.objects_triggered, w)).0 =
        ap (λ x. count_below t.group x r.members) (next_lap r.base_trigger_grp lap)
        ∙ count_below-suc t.group b r.members
        ∙ omega (arith, c.tally, counted) in
      record {
        same = refl;
        next = record {
          tally = sym below;
          number = c.number;
          fits = fits;
          done = λ h. below ∙ ((==_iff _ r.num_objects).0 h) ∙ c.number;
        };
        fires = fires;
      }

  pub class_step :
      (lap : ℕ) (k : ClockRead) (r : ClassRun) (w : W)
      → t.Ok w
      → ClassAt t.group lap r
      → r.base_trigger_grp + suc lap < word_mod
      → ClassStep lap r (one_class trig lap k (r, w)).0 w (one_class trig lap k (r, w)).1
  class_step lap k r w ok c fits = elim (Bool-cases r.all_triggered) [
    | inl all_done ↦ rw (one_class-done lap k r w all_done) (step_done lap r w ok c fits all_done)
    | inr some_left ↦ rw (one_class-left lap k r w some_left c.fits) (step_left lap k r w ok c fits)
  ]
