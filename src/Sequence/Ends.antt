-- ===== src/Sequence/Ends.antt =====
-- `CSequence::Trigger` as a whole: it ends, and what it has fired by then, in which order.
use mathlib.Core.Path.{subst}
use mathlib.Core.List.{append-nil}
use zandr_ea.Prelude.{
  ℕ, suc, ◌≡◌, refl, sym, ap, ◌∙◌, true, List, [], ◌∷◌, ◌++◌, map, some, ◌==◌, if◌then◌else◌, arith,
  All, count,
}
use zandr_ea.Types.{okay_all_done, base_trig_grp_rule_kit}
use zandr_ea.Clock.{ClockRead}
use zandr_ea.Sequence.{
  CSequence, ClassRun, reset_class, prepared, configure, sum_objects, laps, start_sequence,
  trigger_rule_kits, trigger_sequence,
}
use zandr_ea.Sequence.Schedule.{TriggersObjects, Fires, Fires-then, schedule, matching}
use zandr_ea.Sequence.Laps.{Reached, LapsEnd, laps-done}
use zandr_ea.Sequence.Once.{
  registered, IsReady, count-schedule, all_hits-registered, start_at, all-Reached, ready-reset,
  sum_objects-reset, registered-reset,
}

reset_twice : (rs : List ClassRun) → map reset_class (map reset_class rs) ≡ map reset_class rs
unfolding reset_class
reset_twice [] = refl
reset_twice (r ∷ rs) = ap (◌∷◌ (reset_class r)) (reset_twice rs)

prepared_configured : (q : CSequence) → (prepared q).configured ≡ true
unfolding prepared configure
prepared_configured q = ground arith

prepared_again : (q : CSequence) → q.configured ≡ true → prepared q ≡ q
unfolding prepared
prepared_again q h = rw h

prepared_kits : (q : CSequence) → (prepared q).rule_kits ≡ q.rule_kits
unfolding prepared configure
prepared_kits q = ground arith

module _ {W : Type 0} (trig : ℕ → ClockRead → ℕ → W → W × ℕ) (t : TriggersObjects trig) where
  rule_kits-lem :
      (k : ClockRead) (os : List ℕ) (w : W)
      → t.Ok w
      → Fires trig t w (trigger_rule_kits trig k os w) (matching t.group base_trig_grp_rule_kit os)
  unfolding trigger_rule_kits
  rule_kits-lem k [] w ok = record { ok = ok; log = sym (append-nil (t.fired w)) }
  rule_kits-lem k (o ∷ os) w ok =
      let g = base_trig_grp_rule_kit in
      let w' = (trig g k o w).0 in
      Fires-then trig t w w' (trigger_rule_kits trig k os w')
        (if t.group o == g then o ∷ [] else []) (matching t.group g os)
        (record { ok = t.keeps g k o w ok; log = t.logs g k o w ok })
        (rule_kits-lem k os w' (t.keeps g k o w ok))

  -- A trigger that ended, the objects fired by its laps, and those by the rule kits.
  pub record EndsWith (fuel n : ℕ) (k : ClockRead) (q q' : CSequence) (w w' : W) : Type 0 where
    pub ends : trigger_sequence trig (suc fuel) k (q, w) ≡ some ((q', w'), okay_all_done)
    pub fires : Fires trig t w w' (
        schedule t.group (suc n) 0 (start_sequence k q).classes
        ++ matching t.group base_trig_grp_rule_kit q.rule_kits)
    pub reached : All (Reached t.group (suc n)) (start_sequence k q).classes
    pub ready : IsReady t.group (suc fuel) (prepared q')

  laps-start :
      (fuel : ℕ) (k : ClockRead) (q : CSequence) (w : W)
      → t.Ok w
      → IsReady t.group (suc fuel) (prepared q)
      → LapsEnd trig t
          (suc fuel)
          0
          (start_sequence k q).total_objects
          k
          (start_sequence k q).classes
          (start_sequence k q).classes
          w
  unfolding start_sequence
  laps-start fuel k q w ok ready =
      let cs = (prepared q).classes in
      let fresh = (ready-reset t.group (suc fuel) cs (map reset_class cs) refl).0 ready.classes in
      let (reached, fits) = all-Reached t.group (suc fuel) (map reset_class cs) fresh in
      laps-done trig t fuel 0 (suc fuel) (prepared q).total_objects k (map reset_class cs)
        (map reset_class cs) w (omega arith) ready.word
        (ready.total ∙ sym (sum_objects-reset t.group cs)) (reset_twice cs) ok
        (start_at t.group (suc fuel) cs ready.classes) fits reached

  trigger_sequence-runs :
      (fuel : ℕ) (k : ClockRead) (q : CSequence) (w : W) (rs' : List ClassRun) (w' : W)
      → laps trig fuel 0 (start_sequence k q).total_objects k ((start_sequence k q).classes, w)
        ≡ some ((rs', w'), true)
      → trigger_sequence trig fuel k (q, w)
        ≡ some (
          (
            record (start_sequence k q) { classes = rs' },
            trigger_rule_kits trig k (start_sequence k q).rule_kits w',
          ),
          okay_all_done,
        )
  unfolding trigger_sequence
  trigger_sequence-runs fuel k q w rs' w' run = rw (trigger_sequence, run)

  IsReady-after :
      (fuel : ℕ) (k : ClockRead) (q : CSequence) (rs' : List ClassRun)
      → IsReady t.group fuel (prepared q)
      → map reset_class rs' ≡ (start_sequence k q).classes
      → IsReady t.group fuel (prepared (record (start_sequence k q) { classes = rs' }))
  unfolding start_sequence
  IsReady-after fuel k q rs' ready same =
      let cs = (prepared q).classes in
      let back = (ready-reset t.group fuel rs' (map reset_class cs) same).1 in
      let there = (ready-reset t.group fuel cs (map reset_class cs) refl).0 in
      subst (IsReady t.group fuel)
        (sym
          (prepared_again (record (start_sequence k q) { classes = rs' }) (prepared_configured q)))
        (record {
          word = ready.word;
          total =
              ready.total
              ∙ sym (sum_objects-reset t.group cs)
              ∙ ap sum_objects (sym same)
              ∙ sum_objects-reset t.group rs';
          classes = back (there ready.classes);
        })

  pub ends_with :
      (fuel : ℕ) (k : ClockRead) (q : CSequence) (w : W)
      → t.Ok w
      → IsReady t.group (suc fuel) (prepared q)
      → (n : ℕ) × (q' : CSequence) × (w' : W) × EndsWith fuel n k q q' w w'
  unfolding start_sequence
  ends_with fuel k q w ok ready =
      let (n, rs', w', le, run, d) = laps-start fuel k q w ok ready in
      let s = start_sequence k q in
      let w'' = trigger_rule_kits trig k s.rule_kits w' in
      (
        n,
        record s { classes = rs' },
        w'',
        record {
          ends = trigger_sequence-runs (suc fuel) k q w rs' w' run;
          fires =
              subst
                (λ os. Fires trig t w w'' (
                  schedule t.group (suc n) 0 s.classes
                  ++ matching t.group base_trig_grp_rule_kit os))
                (prepared_kits q)
                (Fires-then trig t w w' w'' (schedule t.group (suc n) 0 s.classes)
                  (matching t.group base_trig_grp_rule_kit s.rule_kits) d.fires
                  (rule_kits-lem k s.rule_kits w' d.fires.ok));
          reached = subst (λ l. All (Reached t.group l) s.classes) (omega arith) d.reached;
          ready = IsReady-after (suc fuel) k q rs' ready d.same;
        },
      )

  -- A trigger of a sequence that is ready ends well, within the laps that its groups need, and by
  -- then each object registered to the five classes has fired once, then the rule kits of their
  -- group in order; the sequence is then ready for its next trigger.
  pub trigger_sequence-once :
      (fuel : ℕ) (k : ClockRead) (q : CSequence) (w : W)
      → t.Ok w
      → IsReady t.group (suc fuel) (prepared q)
      → (q' : CSequence) × (w' : W) × (os : List ℕ) × (trigger_sequence trig (suc fuel) k (q, w)
          ≡ some ((q', w'), okay_all_done))
        × (t.fired w' ≡ t.fired w ++ (os ++ matching t.group base_trig_grp_rule_kit q.rule_kits))
        × ((o : ℕ) → count o os ≡ count o (registered (prepared q).classes))
        × IsReady t.group (suc fuel) (prepared q')
        × t.Ok w'
  unfolding start_sequence
  trigger_sequence-once fuel k q w ok ready =
      let (n, q', w', e) = ends_with fuel k q w ok ready in
      (
        q',
        w',
        schedule t.group (suc n) 0 (start_sequence k q).classes,
        e.ends,
        e.fires.log,
        λ o. count_all o n e.reached,
        e.ready,
        e.fires.ok,
      )
    where
      count_all :
          (o n : ℕ)
          → All (Reached t.group (suc n)) (start_sequence k q).classes
          → count o (schedule t.group (suc n) 0 (start_sequence k q).classes)
            ≡ count o (registered (prepared q).classes)
      count_all o n reached =
          let cs = (prepared q).classes in
          let fresh =
            (ready-reset t.group (suc fuel) cs (map reset_class cs) refl).0 ready.classes in
          count-schedule t.group o (suc n) 0 (map reset_class cs)
          ∙ all_hits-registered t.group o (suc n) (map reset_class cs) (suc fuel) fresh reached
          ∙ ap (count o) (registered-reset t.group cs)
