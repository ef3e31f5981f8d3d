-- ===== src/Rule/Tests.antt =====
-- Runs of a rule.
use zandr_ea.Prelude.{◌≡◌, refl, true, false, [], ◌∷◌, some, get_elem?}
use zandr_ea.Rule.{
  Rule, RuleInput, new_rule, set_idle_mode_to, pull_validity, is_in_auto_mode, cycle_and_say_bindex,
}
use zandr_ea.Rule.Modes.{
  IsInOneMode, here, later, sets_idle, Reaches-IsInOneMode, states, fails, idle_mode,
  states-cycle_and_say_bindex,
}

abbrev idle_rule : Rule
idle_rule = set_idle_mode_to true (new_rule 7 true)

abbrev failing : RuleInput
failing = record {
  operands_if = true ∷ [];
  operands_then = true ∷ true ∷ [];
  test_if = true;
  test_then = false;
}

Reaches-IsInOneMode_example : IsInOneMode idle_rule
Reaches-IsInOneMode_example =
    Reaches-IsInOneMode 7 true idle_rule
      (later (new_rule 7 true) idle_rule here (sets_idle true (new_rule 7 true)))

states-cycle_and_say_bindex_example : get_elem? states 7 ≡ some (fails idle_mode)
unfolding set_idle_mode_to cycle_and_say_bindex pull_validity is_in_auto_mode
states-cycle_and_say_bindex_example =
    (states-cycle_and_say_bindex failing idle_rule
      (record idle_rule { valid = true; bindex_now = 7 }) 7
      (Reaches-IsInOneMode 7 true idle_rule
        (later (new_rule 7 true) idle_rule here (sets_idle true (new_rule 7 true))))
      refl).0
