-- ===== src/RuleKit/Cycle.antt =====
-- libEA/rainfall.cpp: `CRainRuleKit::CycleRulesInKitAndSayResults`, the cycle of all rules of a kit:
-- their logs, the snapshots of new fails, the report on the rules pinned to the unit's output, and the
-- trap. The histograms, which only show what is logged, are left out.
pub mod Laws
use zandr_ea.Prelude.{
  ℕ, suc, zero, ◌+◌, ◌-◌, ◌*◌, Bool, true, false, ◌&&◌, not, List, [], ◌∷◌, ◌++◌, map, Option, some,
  none, ◌==◌, ltb, if◌then◌else◌, init, replicate, get_elem?, to_int, emplace, overwrite, sum,
}
use zandr_ea.Types.{
  okay_tally_one, okay_tally_zero, undefined, fail, ApiReply, bindex_rule_auto_mode_fail,
  krono_snapshot_size,
}
use zandr_ea.Rule.{
  Rule, RuleInput, cycle_and_say_bindex, has_snapshot_set, save_antecedent_snapshots,
  destroy_snapshot_set,
}
use zandr_ea.TimeAxis.{TimeAxis, create_snapshot, destroy_snapshot}
use zandr_ea.RuleKit.{Row, RuleTrapResult, enable_trap, uai_of}

-- The fields of `CRainRuleKit` that a cycle changes, with the time axis and the number of the next
-- snapshot set, which it shares with others.
pub record RainRuleKit : Type 0 where
  pub rows : List Row
  pub trap_span_in_cycles : ℕ
  pub cycles_per_trap_enable : ℕ
  pub cycles_until_trap_enable : ℕ
  pub num_pastes_each_cycle : ℕ
  pub rule_pinned_indexed_as_logs_iterate : List Bool
  pub snapshots_by_set_sgi : List (ℕ × List ℕ)
  pub snapshot_set_sgis_by_rule_uai : List (ℕ × ℕ)
  pub time_axis : TimeAxis
  pub sgi_for_next_snapshot_set : ℕ

-- The snapshot of a log: each entry is pasted as often as its cycle spans snapshot cycles. `none`
-- where the loops read past the log's end or write past the snapshot's.
abbrev pub paste_snapshot : ℕ → ℕ → List ℕ → Option (List ℕ)
paste_snapshot pastes zero log = some []
paste_snapshot pastes (suc room) [] = none
paste_snapshot pastes (suc room) (x ∷ log) =
    let rest = paste_snapshot pastes (suc room - pastes) log in
    if ltb (suc room) pastes
    then none
    else elim rest [ none ↦ none | some xs ↦ some (replicate pastes x ++ xs) ]

-- `CRainRuleKit::SaveRuleSnapshotUnderSetSgi`.
unfoldable pub save_rule_snapshot : ℕ → ℕ → List ℕ → RainRuleKit → Option RainRuleKit
save_rule_snapshot uai sgi log k =
    elim (paste_snapshot k.num_pastes_each_cycle krono_snapshot_size log) [
      | none ↦ none
      | some snapshot ↦ some (record k {
        snapshot_set_sgis_by_rule_uai = overwrite uai sgi k.snapshot_set_sgis_by_rule_uai;
        snapshots_by_set_sgi = emplace sgi snapshot k.snapshots_by_set_sgi;
      })
    ]

-- The snapshots that a fail in auto mode takes, of the antecedents, the time axis and the rule.
unfoldable pub snap_fail : List ℕ → Rule → RainRuleKit → Option (Rule × RainRuleKit)
unfolding save_rule_snapshot
snap_fail log r k =
    let ((r', next), sgi) = save_antecedent_snapshots k.sgi_for_next_snapshot_set r in
    elim (create_snapshot sgi k.time_axis) [
      | none ↦ none
      | some axis ↦
          let k' = record k { time_axis = axis; sgi_for_next_snapshot_set = next } in
          elim (save_rule_snapshot r.rule_uai sgi log k') [
            | none ↦ none
            | some k'' ↦ some (r', k'')
          ]
    ]

-- A rule's new result goes into its log, with a snapshot where it is a fail in auto mode.
unfoldable pub log_result : ℕ → Rule → List ℕ → RainRuleKit → Option ((Row × ℕ) × RainRuleKit)
log_result result r old k =
    let log = result ∷ init old in
    if (result == bindex_rule_auto_mode_fail) && not (has_snapshot_set r)
    then elim (snap_fail log r k) [
      | none ↦ none
      | some (r', k') ↦ some ((record { rule = r'; log = log }, result), k')
    ]
    else some ((record { rule = r; log = log }, result), k)

-- The turn of one rule in the loop, with its result.
unfoldable pub cycle_row : RuleInput → Row → RainRuleKit → Option ((Row × ℕ) × RainRuleKit)
cycle_row i row k = elim (cycle_and_say_bindex i row.rule) [
  | none ↦ none
  | some (r, result) ↦ log_result result r row.log k
]

unfoldable pub pair_up : List RuleInput → List Row → List (RuleInput × Row)
pair_up [] rows = []
pair_up (i ∷ is) [] = []
pair_up (i ∷ is) (row ∷ rows) = (i, row) ∷ pair_up is rows

-- The loop over the rule table; each row takes the inputs that its rule has on this cycle.
unfoldable pub cycle_rows :
    List (RuleInput × Row) → RainRuleKit → Option (List (Row × ℕ) × RainRuleKit)
cycle_rows [] k = some ([], k)
cycle_rows ((i, row) ∷ more) k = elim (cycle_row i row k) [
  | none ↦ none
  | some (row', k') ↦ elim (cycle_rows more k') [
    | none ↦ none
    | some (rest, k'') ↦ some (row' ∷ rest, k'')
  ]
]

-- `FAILEDINANYMODE_RULEBINS`.
abbrev pub failed_in_any_mode : List Bool
failed_in_any_mode =
    true ∷ false ∷ false ∷ false ∷ true ∷ false ∷ false ∷ true ∷ false ∷ false ∷ false ∷ []

-- The products of the fails with the marks of the rules pinned to the unit's output, summed. The fails come
-- in the order of the table of rules, the marks in that of the table of logs, which is another
-- `std::unordered_map`; they are multiplied place by place. `none` past the end of the marks.
unfoldable pub sum_pinned : List (Row × ℕ) → List Bool → Option ℕ
sum_pinned [] marks = some 0
sum_pinned ((row, result) ∷ more) [] = none
sum_pinned ((row, result) ∷ more) (mark ∷ marks) = elim (get_elem? failed_in_any_mode result) [
  | none ↦ none
  | some failed ↦ elim (sum_pinned more marks) [
    | none ↦ none
    | some n ↦ some (to_int failed * to_int mark + n)
  ]
]

unfoldable pub rows_of : List (Row × ℕ) → List Row
rows_of [] = []
rows_of ((row, result) ∷ more) = row ∷ rows_of more

-- The snapshots of the rule that the trap wipes; its rows are found by the rule's number.
unfoldable pub wipe_rows : ℕ → List Row → List Row
wipe_rows uai [] = []
wipe_rows uai (row ∷ rows) =
    if uai_of row == uai
    then record row { rule = (destroy_snapshot_set row.rule).0 } ∷ rows
    else row ∷ wipe_rows uai rows

unfoldable pub find_row : ℕ → List Row → Option Row
find_row uai [] = none
find_row uai (row ∷ rows) = if uai_of row == uai then some row else find_row uai rows

unfoldable pub replied_one : ApiReply → Bool
replied_one okay_tally_one = true
replied_one okay_tally_zero = false
replied_one undefined = false
replied_one fail = false

unfoldable pub wipe_snapshots : ℕ → RainRuleKit → RainRuleKit
wipe_snapshots uai k = elim (find_row uai k.rows) [
  | none ↦ k
  | some row ↦ record k {
    rows = wipe_rows uai k.rows;
    time_axis =
        if replied_one (destroy_snapshot_set row.rule).1
        then destroy_snapshot row.rule.snapshot_set_sgi k.time_axis
        else k.time_axis;
  }
]

-- The part of the cycle that counts down to the trap, with the rule trapped or 0.
unfoldable pub count_to_trap : RainRuleKit → Option (RainRuleKit × ℕ)
count_to_trap k =
    let left = k.cycles_until_trap_enable - 1 in
    if ltb left 1
    then elim (enable_trap k.trap_span_in_cycles k.rows) [
      | none ↦ none
      | some result ↦
          let wipe = result.uai_of_rule_to_wipe_of_snapshots in
          some (
            record (if wipe == 0 then k else wipe_snapshots wipe k) {
              cycles_until_trap_enable = k.cycles_per_trap_enable;
            },
            result.uai_of_rule_trapped_for_new_case,
          )
    ]
    else some (record k { cycles_until_trap_enable = left }, 0)

-- `CRainRuleKit::CycleRulesInKitAndSayResults`, on the inputs of each rule: the rule trapped or 0,
-- and whether a fail met the mark of a rule pinned to the unit's output.
unfoldable pub cycle_rules_in_kit : List RuleInput → RainRuleKit → Option (RainRuleKit × (ℕ × Bool))
cycle_rules_in_kit inputs k = elim (cycle_rows (pair_up inputs k.rows) k) [
  | none ↦ none
  | some (results, k') ↦ elim (sum_pinned results k.rule_pinned_indexed_as_logs_iterate) [
    | none ↦ none
    | some pinned ↦ elim (count_to_trap (record k' { rows = rows_of results })) [
      | none ↦ none
      | some (k'', trapped) ↦ some (k'', (trapped, not (pinned == 0)))
    ]
  ]
]
