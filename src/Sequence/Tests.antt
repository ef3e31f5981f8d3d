-- ===== src/Sequence/Tests.antt =====
-- A sequence of a point, two facts and a rule kit, the first fact registered being one lap later.
use zandr_ea.Prelude.{
  ℕ, ◌≡◌, refl, true, false, List, [], ◌∷◌, ◌++◌, ◌==◌, if◌then◌else◌, arith, some, count,
}
use zandr_ea.Types.{base_trig_grp_rule_kit, okay_all_done}
use zandr_ea.Clock.{ClockRead}
use zandr_ea.SeqElement.{SeqElement}
use zandr_ea.Sequence.{
  CSequence, ObjectClass, new_sequence, register, register_rule_kit, points, facts, prepared,
  configure, sum_objects, configure_classes, add_member, trigger_sequence,
}
use zandr_ea.Sequence.Schedule.{matching}
use zandr_ea.Sequence.Once.{IsReady, registered}
use zandr_ea.Sequence.Ends.{trigger_sequence-once}
use zandr_ea.Sequence.Order.{BasesRise, Chain, slot, trigger_sequence-in_order}
use zandr_ea.Sequence.Ready.{register_all, register_all-IsReady}
use zandr_ea.Sequence.Elements.{Store, trigger_object, KeepsGroup, elements}

abbrev group_of : ℕ → ℕ
group_of o = if o == 10 then 1 else if o == 20 then 6 else if o == 21 then 5 else 99

abbrev base_of : ℕ → ℕ
base_of o = if o == 10 then 1 else 5

abbrev still : ℕ → ℕ → SeqElement × Unit {0} → SeqElement × Unit {0}
still o now es = es

abbrev element_of_group : ℕ → SeqElement
element_of_group g = record {
  trigger_count = 0;
  triggers_per_cycle = 1;
  triggers_until_cycle = 1;
  secs_per_cycle = 60;
  base_trigger_group = g;
  own_trigger_group = g;
  cycling_at_max_rate = true;
  cycle_begins_new_calendar_day = false;
  cycle_begins_new_clock_hour = false;
  valid_now = true;
  valid_was = true;
}

abbrev small_store : Store (Unit {0})
small_store = record { element = λ o. element_of_group (group_of o); rest = tt; log = [] }

abbrev small_sequence : CSequence
small_sequence =
    register_rule_kit 30
      (register facts 21 (register facts 20 (register points 10 (new_sequence 60))))

abbrev noon : ClockRead
noon = record {
  timestamp = 43200;
  trigger_count = 1;
  minutes_after_midnight = 720;
  new_hour = true;
  new_day = false;
}

still-KeepsGroup : KeepsGroup still
still-KeepsGroup o now e s = refl

small_sequence-IsReady : IsReady group_of 2 (prepared small_sequence)
unfolding prepared register_rule_kit register new_sequence configure sum_objects configure_classes
    add_member
small_sequence-IsReady = record {
  word = omega arith;
  total = refl;
  classes = (
    record {
      number = refl;
      fits = omega arith;
      above = (omega arith, tt);
      below = (omega arith, tt);
    },
    (
      record { number = refl; fits = omega arith; above = tt; below = tt },
      (
        record { number = refl; fits = omega arith; above = tt; below = tt },
        (
          record { number = refl; fits = omega arith; above = tt; below = tt },
          (
            record {
              number = refl;
              fits = omega arith;
              above = (omega arith, (omega arith, tt));
              below = (omega arith, (omega arith, tt));
            },
            tt,
          ),
        ),
      ),
    ),
  );
}

trigger_sequence-once_example :
    (q' : CSequence) × (w' : Store (Unit {0})) × (os : List ℕ) × (trigger_sequence
        (trigger_object still)
        2
        noon
        (small_sequence, small_store)
      ≡ some ((q', w'), okay_all_done))
    × (w'.log ≡ [] ++ (os ++ matching group_of base_trig_grp_rule_kit small_sequence.rule_kits))
    × ((o : ℕ) → count o os ≡ count o (registered (prepared small_sequence).classes))
    × IsReady group_of 2 (prepared q')
    × ((o : ℕ) → (w'.element o).own_trigger_group ≡ group_of o)
unfolding elements
trigger_sequence-once_example =
    trigger_sequence-once (trigger_object still) (elements still group_of still-KeepsGroup) 1 noon
      small_sequence small_store (λ o. refl) small_sequence-IsReady

trigger_sequence-in_order_example :
    (q' : CSequence) × (w' : Store (Unit {0})) × (os : List ℕ) × (trigger_sequence
        (trigger_object still)
        2
        noon
        (small_sequence, small_store)
      ≡ some ((q', w'), okay_all_done))
    × (w'.log ≡ [] ++ (os ++ matching group_of base_trig_grp_rule_kit small_sequence.rule_kits))
    × (top : ℕ) × Chain (slot group_of base_of) 0 os top
unfolding prepared register_rule_kit register new_sequence configure configure_classes add_member
    elements
trigger_sequence-in_order_example =
    trigger_sequence-in_order (trigger_object still) (elements still group_of still-KeepsGroup)
      base_of 1 noon small_sequence small_store (λ o. refl) small_sequence-IsReady
      (omega arith, (omega arith, (omega arith, (omega arith, (omega arith, omega arith)))))
      ((refl, tt), (tt, (tt, (tt, ((refl, (refl, tt)), tt)))))

abbrev registrations : List (ObjectClass × ℕ)
registrations = (points, 10) ∷ (facts, 20) ∷ (facts, 21) ∷ []

register_all-IsReady_example :
    IsReady group_of 2 (prepared (register_all registrations (new_sequence 60)))
    × BasesRise 0 (prepared (register_all registrations (new_sequence 60))).classes
register_all-IsReady_example =
    register_all-IsReady group_of 2 60 registrations (omega arith)
      ((omega arith, omega arith), ((omega arith, omega arith), ((omega arith, omega arith), tt)))
