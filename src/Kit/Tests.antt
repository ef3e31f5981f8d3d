-- ===== src/Kit/Tests.antt =====
-- Runs of a kit of rules with its kit of cases.
use zandr_ea.Prelude.{
  ℕ, ◌≡◌, refl, Bool, true, false, [], ◌∷◌, some, none, arith, replicate, emplace, has_key,
  overwrite, All, inl,
}
use zandr_ea.Rule.{
  RuleInput, new_rule, is_in_auto_mode, cycle_and_say_bindex, pull_validity, has_snapshot_set,
  save_antecedent_snapshots, destroy_snapshot_set, set_case_mode_to,
}
use zandr_ea.Rule.Modes.{IsInOneMode}
use zandr_ea.TimeAxis.{new_axis, create_snapshot}
use zandr_ea.RuleKit.{enable_trap, spring_trap, write_fails, write_column, fail_column}
use zandr_ea.RuleKit.Cycle.{
  cycle_row, cycle_rows, pair_up, rows_of, log_result, snap_fail, save_rule_snapshot, sum_pinned,
  count_to_trap, cycle_rules_in_kit, find_row,
}
use zandr_ea.Dialogue.{Beliefs, Case, new_case}
use zandr_ea.CaseKit.{
  CaseKit, HeldCase, new_case_kit, create_and_own_case, regen_case_rankings, set_rule,
}
use zandr_ea.Kit.{RuleKit, cycle_kit, open_case, idle_all_rules_not_in_case_mode}
use zandr_ea.Kit.Steps.{in_case}
use zandr_ea.CaseKit.Held.{cases_on}
use zandr_ea.Kit.Cases.{IsOneCaseEach}
use zandr_ea.Kit.Invariant.{cycles, here, later, KitReaches-IsOneCaseEach}
use zandr_ea.Kit.Idle.{IdlesAs, case_modes, idle_all-modes}

abbrev failing : RuleInput
failing = record {
  operands_if = true ∷ [];
  operands_then = true ∷ [];
  test_if = true;
  test_then = false;
}

-- A kit of one rule that has failed for long, a cycle before its trap.
abbrev kit : RuleKit
kit = record {
  rain = record {
    rows = record { rule = new_rule 7 true; log = replicate 20 0 } ∷ [];
    trap_span_in_cycles = 5;
    cycles_per_trap_enable = 4;
    cycles_until_trap_enable = 1;
    num_pastes_each_cycle = 1;
    rule_pinned_indexed_as_logs_iterate = true ∷ [];
    snapshots_by_set_sgi = [];
    snapshot_set_sgis_by_rule_uai = [];
    time_axis = new_axis 60 1;
    sgi_for_next_snapshot_set = 5;
  };
  rule_uais_gui_top_to_bottom = 7 ∷ [];
  are_all_rules_not_in_case_mode_put_to_idle = false;
  kit_finalized = true;
  submitted = [];
  alerts = [];
}

abbrev case_on : ℕ → Case
case_on uai =
    new_case (11 ∷ []) (31 ∷ [])
      (record { num_hypos_alive = 1; uai_mapp_hypo = 11; mapp_at_100pct = false }) true

abbrev learn : ℕ → ℕ → Beliefs → Beliefs
learn evid value b = b

abbrev keep : Beliefs → Beliefs
keep b = b

abbrev never : HeldCase → HeldCase → Bool
never a b = false

-- The kit after a cycle that traps the rule.
abbrev trapped : RuleKit × CaseKit
trapped = elim (cycle_kit never 41 1000 case_on (failing ∷ []) (kit, new_case_kit)) [
  | none ↦ (kit, new_case_kit)
  | some s ↦ s
]

cycle_kit_opens :
    (cycle_kit never 41 1000 case_on (failing ∷ []) (kit, new_case_kit) ≡ some trapped)
    × (cases_on 7 trapped.1.cases_by_key ≡ 1)
unfolding cycle_kit open_case create_and_own_case regen_case_rankings set_rule find_row
    cycle_rules_in_kit count_to_trap sum_pinned cycle_rows pair_up rows_of cycle_row log_result
    snap_fail save_rule_snapshot save_antecedent_snapshots cycle_and_say_bindex pull_validity
    has_snapshot_set create_snapshot new_axis emplace has_key overwrite enable_trap spring_trap
    write_fails write_column fail_column is_in_auto_mode set_case_mode_to destroy_snapshot_set
cycle_kit_opens = (refl, refl)

none_in_case : (u : ℕ) → in_case u kit.rain.rows ≡ 0
none_in_case u = ground arith

KitReaches-IsOneCaseEach_example : IsOneCaseEach trapped.0.rain.rows trapped.1
unfolding has_key
KitReaches-IsOneCaseEach_example =
    KitReaches-IsOneCaseEach learn keep never kit trapped none_in_case (
      later (kit, new_case_kit) trapped here
        (cycles 41 1000 case_on (failing ∷ []) kit new_case_kit trapped refl refl
          cycle_kit_opens.0))

new_modes : IsInOneMode (new_rule 7 true)
unfolding IsInOneMode
new_modes = inl (refl, refl, refl)

idle_all-modes_example :
    All (IdlesAs true) (idle_all_rules_not_in_case_mode true kit).0.rain.rows
    × (case_modes (idle_all_rules_not_in_case_mode true kit).0.rain.rows ≡ case_modes kit.rain.rows)
idle_all-modes_example = idle_all-modes true kit (new_modes, tt)
