-- ===== src/Sequence/Once.antt =====
-- Counting the objects that the laps of `CSequence::Trigger` in libEA/sequence.cpp fire.
use mathlib.Core.Path.{subst}
use mathlib.Core.Bool.{true≢false}
use zandr_ea.Prelude.{
  ℕ, suc, zero, ◌+◌, ◌≤◌, ◌<◌, ◌≡◌, refl, sym, ap, ◌∙◌, List, [], ◌∷◌, ◌++◌, map, ◌==◌, ltb, leb,
  ◌&&◌, if◌then◌else◌, length, arith, All, count, count-append,
}
use zandr_ea.Types.{word_mod}
use zandr_ea.Sequence.{CSequence, ClassRun, reset_class, sum_objects}
use zandr_ea.Sequence.Schedule.{
  ClassAt, lap_schedule, schedule, matching, count_below, count_below_le,
}
use zandr_ea.Sequence.Laps.{FitsWord, Reached}

-- All objects registered to the classes.
abbrev pub registered : List ClassRun → List ℕ
registered [] = []
registered (r ∷ rs) = r.members ++ registered rs

module _ (group : ℕ → ℕ) where
  -- A class ready for its laps: it is counted, and the groups of its objects lie from its base on,
  -- within a number of laps.
  pub record ClassReady (fuel : ℕ) (r : ClassRun) : Type 0 where
    pub number : r.num_objects ≡ length r.members
    pub fits : r.base_trigger_grp + fuel < word_mod
    pub above : All (λ o. r.base_trigger_grp ≤ group o) r.members
    pub below : All (λ o. group o < r.base_trigger_grp + fuel) r.members

  pub record IsReady (fuel : ℕ) (q : CSequence) : Type 0 where
    pub word : fuel < word_mod
    pub total : q.total_objects ≡ sum_objects q.classes
    pub classes : All (ClassReady fuel) q.classes

  -- How often a class fires an object in `n` laps.
  abbrev pub hits : ℕ → ℕ → ℕ → ClassRun → ℕ
  hits o n lap r =
      if leb (r.base_trigger_grp + lap) (group o) && ltb (group o) (r.base_trigger_grp + lap + n)
      then count o r.members
      else 0

  abbrev pub all_hits : ℕ → ℕ → ℕ → List ClassRun → ℕ
  all_hits o n lap [] = 0
  all_hits o n lap (r ∷ rs) = hits o n lap r + all_hits o n lap rs

  count-matching :
      (o g : ℕ) (os : List ℕ)
      → count o (matching group g os) ≡ (if group o == g then count o os else 0)
  count-matching o g [] = ground arith
  count-matching o g (p ∷ os) =
      let same : p ≡ o → group p ≡ group o = ap group in
      grind (arith, count-matching o g os, count-append)

  no_hits : (o lap : ℕ) (rs : List ClassRun) → all_hits o 0 lap rs ≡ 0
  no_hits o lap [] = refl
  no_hits o lap (r ∷ rs) = ground (arith, no_hits o lap rs)

  hits-suc :
      (o n lap : ℕ) (r : ClassRun)
      → count o (matching group (r.base_trigger_grp + lap) r.members) + hits o n (suc lap) r
        ≡ hits o (suc n) lap r
  hits-suc o n lap r = ground (arith, count-matching o (r.base_trigger_grp + lap) r.members)

  all_hits-suc :
      (o n lap : ℕ) (rs : List ClassRun)
      → count o (lap_schedule group lap rs) + all_hits o n (suc lap) rs ≡ all_hits o (suc n) lap rs
  all_hits-suc o n lap [] = omega arith
  all_hits-suc o n lap (r ∷ rs) =
      let split =
        count-append o (matching group (r.base_trigger_grp + lap) r.members)
          (lap_schedule group lap rs) in
      omega (arith, split, hits-suc o n lap r, all_hits-suc o n lap rs)

  pub count-schedule :
      (o n lap : ℕ) (rs : List ClassRun) → count o (schedule group n lap rs) ≡ all_hits o n lap rs
  count-schedule o zero lap rs = sym (no_hits o lap rs)
  count-schedule o (suc n) lap rs =
      count-append o (lap_schedule group lap rs) (schedule group n (suc lap) rs)
      ∙ omega (arith, count-schedule o n (suc lap) rs, all_hits-suc o n lap rs)

  count_above : (o b : ℕ) (os : List ℕ) → All (λ p. b ≤ group p) os → group o < b → count o os ≡ 0
  count_above o b [] h lt = refl
  count_above o b (p ∷ os) (h, hs) lt =
      let same : p ≡ o → group p ≡ group o = ap group in grind (arith, count_above o b os hs lt)

  count_reached :
      (o b : ℕ) (os : List ℕ) → count_below group b os ≡ length os → b ≤ group o → count o os ≡ 0
  count_reached o b [] h le = refl
  count_reached o b (p ∷ os) h le =
      let same : p ≡ o → group p ≡ group o = ap group in
      grind (arith, count_below_le group b os, count_reached o b os)

  pub all_hits-registered :
      (o n : ℕ) (rs : List ClassRun) (fuel : ℕ)
      → All (ClassReady fuel) rs
      → All (Reached group n) rs
      → all_hits o n 0 rs ≡ count o (registered rs)
  all_hits-registered o n [] fuel c h = refl
  all_hits-registered o n (r ∷ rs) fuel (c, cs) (h, hs) =
      let b = r.base_trigger_grp in
      let low = count_above o b r.members c.above in
      let high = count_reached o (b + n) r.members (h ∙ c.number) in
      let one : hits o n 0 r ≡ count o r.members = ground arith in
      let split = count-append o r.members (registered rs) in
      omega (arith, all_hits-registered o n rs fuel cs hs)

  pub start_at :
      (fuel : ℕ) (cs : List ClassRun)
      → All (ClassReady fuel) cs
      → All (ClassAt group 0) (map reset_class cs)
  unfolding reset_class
  start_at fuel [] c = tt
  start_at fuel (r ∷ rs) (c, cs) =
      let b = r.base_trigger_grp in
      (
        record {
          tally = sym (
              none_below (b + 0) r.members
                (subst (λ x. All (λ o. x ≤ group o) r.members) (omega arith) c.above));
          number = c.number;
          fits = omega (arith, c.fits);
          done = λ h. absurd (true≢false (sym h));
        },
        start_at fuel rs cs,
      )
    where
      none_below : (b : ℕ) (os : List ℕ) → All (λ o. b ≤ group o) os → count_below group b os ≡ 0
      none_below b [] h = refl
      none_below b (o ∷ os) (h, hs) = ground (arith, none_below b os hs)

  pub all-Reached :
      (fuel : ℕ) (cs : List ClassRun)
      → All (ClassReady fuel) cs
      → All (Reached group fuel) cs × All (FitsWord fuel) cs
  all-Reached fuel [] c = (tt, tt)
  all-Reached fuel (r ∷ rs) (c, cs) =
      let (rest, fits) = all-Reached fuel rs cs in
      ((all_below _ r.members c.below ∙ sym c.number, rest), (c.fits, fits))
    where
      all_below :
          (b : ℕ) (os : List ℕ) → All (λ o. group o < b) os → count_below group b os ≡ length os
      all_below b [] h = refl
      all_below b (o ∷ os) (h, hs) = ground (arith, all_below b os hs)

  -- The counts of the last trigger do not matter.
  pub ready-reset :
      (fuel : ℕ) (rs cs : List ClassRun)
      → map reset_class rs ≡ cs
      → (All (ClassReady fuel) rs → All (ClassReady fuel) cs)
        × (All (ClassReady fuel) cs → All (ClassReady fuel) rs)
  unfolding reset_class
  ready-reset fuel rs cs e =
      subst
        (λ x.
          (All (ClassReady fuel) rs → All (ClassReady fuel) x)
          × (All (ClassReady fuel) x → All (ClassReady fuel) rs))
        e (to rs, from rs)
    where
      to :
          (xs : List ClassRun)
          → All (ClassReady fuel) xs
          → All (ClassReady fuel) (map reset_class xs)
      to [] c = tt
      to (x ∷ xs) (c, cs') =
          (record { number = c.number; fits = c.fits; above = c.above; below = c.below }, to xs cs')

      from :
          (xs : List ClassRun)
          → All (ClassReady fuel) (map reset_class xs)
          → All (ClassReady fuel) xs
      from [] c = tt
      from (x ∷ xs) (c, cs') = (
        record { number = c.number; fits = c.fits; above = c.above; below = c.below },
        from xs cs',
      )

  pub sum_objects-reset : (rs : List ClassRun) → sum_objects (map reset_class rs) ≡ sum_objects rs
  unfolding sum_objects reset_class
  sum_objects-reset [] = refl
  sum_objects-reset (r ∷ rs) = ap (λ n. r.num_objects + n) (sum_objects-reset rs)

  pub registered-reset : (rs : List ClassRun) → registered (map reset_class rs) ≡ registered rs
  unfolding reset_class
  registered-reset [] = refl
  registered-reset (r ∷ rs) = ap (λ l. r.members ++ l) (registered-reset rs)
