-- ===== src/Sequence.antt =====
-- libEA/sequence.cpp and agentTask.hpp: `CSequence`, which triggers each registered object once per
-- trigger, lap by lap in the order of trigger groups, and then the rule kits. The objects are numbers
-- that stand for the pointers; what a call of `Trigger` on one does to the state `W` of all of them
-- is a parameter. The five vectors by class are one list of records.
pub mod Schedule
pub mod Laps
pub mod Once
pub mod Ends
pub mod Ready
pub mod Order
pub mod Elements
mod Tests
use zandr_ea.Prelude.{
  ℕ, suc, zero, ◌+◌, ◌%◌, Bool, true, false, List, [], ◌∷◌, ◌++◌, map, Option, some, none, ◌==◌,
  if◌then◌else◌, length,
}
use zandr_ea.Types.{
  GuiReply, okay_all_done, warn_ran_seq_to_exit_with_objects_yet_to_cycle_fix_api,
  base_trig_grp_point, base_trig_grp_formula, base_trig_grp_chart, base_trig_grp_process,
  base_trig_grp_fact, base_trig_grp_rule_kit, word_mod, incr_word,
}
use zandr_ea.Clock.{ClockRead}
use zandr_ea.TimeAxis.{TimeAxis, new_axis, trigger_axis}

-- A class of objects: those registered, and its entries of the vectors.
pub record ClassRun : Type 0 where
  pub members : List ℕ
  pub base_trigger_grp : ℕ
  pub num_objects : ℕ
  pub objects_triggered : ℕ
  pub all_triggered : Bool

pub record CSequence : Type 0 where
  pub time_axis : TimeAxis
  pub classes : List ClassRun
  pub total_objects : ℕ
  pub configured : Bool
  pub rule_kits : List ℕ

pub data ObjectClass : Type 0 where
  points formulas charts processes facts : ObjectClass

abbrev pub class_index : ObjectClass → ℕ
class_index points = 0
class_index formulas = 1
class_index charts = 2
class_index processes = 3
class_index facts = 4

abbrev empty_class : ClassRun
empty_class = record {
  members = [];
  base_trigger_grp = 0;
  num_objects = 0;
  objects_triggered = 0;
  all_triggered = false;
}

-- `CSequence::CSequence`, on the period of the clock's bell.
unfoldable pub new_sequence : ℕ → CSequence
new_sequence period = record {
  time_axis = new_axis period 1;
  classes = empty_class ∷ empty_class ∷ empty_class ∷ empty_class ∷ empty_class ∷ [];
  total_objects = 0;
  configured = false;
  rule_kits = [];
}

unfoldable pub add_member : ℕ → ℕ → List ClassRun → List ClassRun
add_member i o [] = []
add_member zero o (r ∷ rs) = record r { members = r.members ++ o ∷ [] } ∷ rs
add_member (suc i) o (r ∷ rs) = r ∷ add_member i o rs

-- The five `Register` methods of the triggered loop, and that of rule kits.
unfoldable pub register : ObjectClass → ℕ → CSequence → CSequence
register c o q = record q { classes = add_member (class_index c) o q.classes }

unfoldable pub register_rule_kit : ℕ → CSequence → CSequence
register_rule_kit o q = record q { rule_kits = q.rule_kits ++ o ∷ [] }

abbrev pub base_groups : List ℕ
base_groups =
    base_trig_grp_point ∷ base_trig_grp_formula ∷ base_trig_grp_chart ∷ base_trig_grp_process
    ∷ base_trig_grp_fact ∷ []

unfoldable pub configure_classes : List ℕ → List ClassRun → List ClassRun
configure_classes (b ∷ bs) (r ∷ rs) =
    record r { num_objects = length r.members; base_trigger_grp = b } ∷ configure_classes bs rs
configure_classes [] rs = rs
configure_classes bs [] = []

unfoldable pub sum_objects : List ClassRun → ℕ
sum_objects [] = 0
sum_objects (r ∷ rs) = r.num_objects + sum_objects rs

unfoldable pub sum_triggered : List ClassRun → ℕ
sum_triggered [] = 0
sum_triggered (r ∷ rs) = r.objects_triggered + sum_triggered rs

-- `CSequence::Configure`.
unfoldable pub configure : CSequence → CSequence
configure q =
    let cs = configure_classes base_groups q.classes in
    record q { classes = cs; total_objects = sum_objects cs; configured = true }

unfoldable pub reset_class : ClassRun → ClassRun
reset_class r = record r { objects_triggered = 0; all_triggered = false }

unfoldable pub prepared : CSequence → CSequence
prepared q = if q.configured then q else configure q

-- The sequence as it enters the `while` of `Trigger`.
unfoldable pub start_sequence : ClockRead → CSequence → CSequence
start_sequence clock q = record (prepared q) {
  time_axis = trigger_axis clock.timestamp (prepared q).time_axis;
  classes = map reset_class (prepared q).classes;
}

module _ {W : Type 0} (trig : ℕ → ClockRead → ℕ → W → W × ℕ) where
  -- The `for` over the objects of a class.
  unfoldable pub trigger_each : ℕ → ClockRead → List ℕ → ℕ × W → ℕ × W
  trigger_each g clock [] (n, w) = (n, w)
  trigger_each g clock (o ∷ os) (n, w) =
      trigger_each g clock os (n + (trig g clock o w).1, (trig g clock o w).0)

  -- The part of a lap for one class.
  unfoldable pub one_class : ℕ → ClockRead → ClassRun × W → ClassRun × W
  one_class lap clock (r, w) =
      if r.all_triggered
      then (r, w)
      else (let (n, w') =
            trigger_each ((r.base_trigger_grp + lap) % word_mod) clock r.members
              (r.objects_triggered, w) in
          (record r { objects_triggered = n; all_triggered = n == r.num_objects }, w'))

  unfoldable pub one_lap : ℕ → ClockRead → List ClassRun × W → List ClassRun × W
  one_lap lap clock ([], w) = ([], w)
  one_lap lap clock (r ∷ rs, w) =
      let (r', w') = one_class lap clock (r, w) in
      let (rs', w'') = one_lap lap clock (rs, w') in (r' ∷ rs', w'')

  -- The `while`, on fuel, with `allObjectsUpdated` as it stands after it; `none` when the fuel runs
  -- out.
  unfoldable pub laps :
      ℕ → ℕ → ℕ → ClockRead → List ClassRun × W → Option ((List ClassRun × W) × Bool)
  laps zero lap total clock rw = none
  laps (suc fuel) lap total clock rw =
      let rw' = one_lap lap clock rw in
      let rest = laps fuel (incr_word lap) total clock rw' in
      if sum_triggered rw'.0 == total then some (rw', true) else rest

  unfoldable pub trigger_rule_kits : ClockRead → List ℕ → W → W
  trigger_rule_kits clock [] w = w
  trigger_rule_kits clock (o ∷ os) w =
      trigger_rule_kits clock os (trig base_trig_grp_rule_kit clock o w).0

  -- `CSequence::Trigger`.
  unfoldable pub trigger_sequence :
      ℕ → ClockRead → CSequence × W → Option ((CSequence × W) × GuiReply)
  trigger_sequence fuel clock (q, w) =
      let q' = start_sequence clock q in
      elim (laps fuel 0 q'.total_objects clock (q'.classes, w)) [
        | none ↦ none
        | some ((cs, w'), all_objects_updated) ↦ some (
          (record q' { classes = cs }, trigger_rule_kits clock q'.rule_kits w'),
          (if all_objects_updated
              then okay_all_done
              else warn_ran_seq_to_exit_with_objects_yet_to_cycle_fix_api),
        )
      ]
