-- ===== src/RuleKit/Tests.antt =====
-- Runs of the trap and of a kit's cycle.
use zandr_ea.Prelude.{
  emplace, has_key, overwrite, ◌≡◌, ◌==◌, not, refl, true, false, List, [], ◌∷◌, some, arith,
  replicate,
}
use zandr_ea.Types.{incr_word}
use zandr_ea.Rule.{
  RuleInput, new_rule, is_in_auto_mode, cycle_and_say_bindex, pull_validity, has_snapshot_set,
  save_antecedent_snapshots,
}
use zandr_ea.TimeAxis.{new_axis, create_snapshot}
use zandr_ea.RuleKit.{
  Row, RuleTrapResult, enable_trap, spring_trap, write_fails, write_column, fail_column,
}
use zandr_ea.RuleKit.Trap.{TrapsMost, enable_trap-most}
use zandr_ea.RuleKit.Cycle.{
  RainRuleKit, cycle_row, log_result, snap_fail, save_rule_snapshot, sum_pinned,
}
use zandr_ea.RuleKit.Cycle.Laws.{cycle_row-snaps_again, sum_pinned-failed, pinned_failed}

-- Two rules, the second with more fails.
abbrev rows : List Row
rows =
    record { rule = new_rule 7 true; log = 0 ∷ 1 ∷ 1 ∷ 0 ∷ 1 ∷ [] }
    ∷ record { rule = new_rule 9 false; log = 0 ∷ 0 ∷ 1 ∷ 0 ∷ 1 ∷ [] }
    ∷ []

enable_trap-most_example :
    (result : RuleTrapResult) × (enable_trap 4 rows ≡ some result) × TrapsMost 4 rows result
enable_trap-most_example = enable_trap-most 4 rows (omega arith, (omega arith, tt))

abbrev trapped : RuleTrapResult
trapped = record { uai_of_rule_trapped_for_new_case = 9; uai_of_rule_to_wipe_of_snapshots = 7 }

trapped_second : enable_trap 4 rows ≡ some trapped
unfolding enable_trap spring_trap write_fails write_column fail_column is_in_auto_mode
trapped_second = refl

abbrev failing : RuleInput
failing = record {
  operands_if = true ∷ [];
  operands_then = true ∷ [];
  test_if = true;
  test_then = false;
}

abbrev quiet_row : Row
quiet_row = record { rule = new_rule 7 true; log = replicate 20 1 }

abbrev kit : RainRuleKit
kit = record {
  rows = quiet_row ∷ [];
  trap_span_in_cycles = 4;
  cycles_per_trap_enable = 4;
  cycles_until_trap_enable = 4;
  num_pastes_each_cycle = 1;
  rule_pinned_indexed_as_logs_iterate = true ∷ [];
  snapshots_by_set_sgi = [];
  snapshot_set_sgis_by_rule_uai = [];
  time_axis = new_axis 60 1;
  sgi_for_next_snapshot_set = 5;
}

-- The row and the kit after a fail.
abbrev failed_row : Row
failed_row = record {
  rule = record (new_rule 7 true) {
    valid = true;
    snapshot_set_sgi = 5;
    trace_snapshots = (5, tt) ∷ [];
  };
  log = 0 ∷ replicate 19 1;
}

abbrev failed_kit : RainRuleKit
failed_kit = record kit {
  time_axis = record (new_axis 60 1) { snapshots_by_set_sgi = (5, replicate 15 0) ∷ [] };
  snapshots_by_set_sgi = (5, 0 ∷ replicate 14 1) ∷ [];
  snapshot_set_sgis_by_rule_uai = (7, 5) ∷ [];
  sgi_for_next_snapshot_set = 6;
}

cycle_row-snaps_again_example : 6 ≡ incr_word 5
unfolding cycle_row log_result snap_fail save_rule_snapshot save_antecedent_snapshots
    cycle_and_say_bindex pull_validity has_snapshot_set create_snapshot new_axis emplace has_key
    overwrite
cycle_row-snaps_again_example =
    (cycle_row-snaps_again failing quiet_row failed_row kit failed_kit refl refl).2

abbrev loose_row : Row
loose_row = record { rule = new_rule 9 false; log = replicate 20 1 }

-- The marks in another order than the rules: the fail of the rule that is pinned is not counted.
unlike_order : sum_pinned ((quiet_row, 4) ∷ (loose_row, 1) ∷ []) (false ∷ true ∷ []) ≡ some 0
unfolding sum_pinned
unlike_order = refl

pinned_counted : not (1 == 0) ≡ pinned_failed ((quiet_row, 4) ∷ [])
unfolding sum_pinned
pinned_counted = sum_pinned-failed ((quiet_row, 4) ∷ []) (true ∷ []) 1 refl refl
