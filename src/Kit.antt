-- ===== src/Kit.antt =====
-- libEA/rule.cpp: `CRuleKit`, a kit of rules with its rainfall (RuleKit), which opens cases in its kit
-- of cases (CaseKit). The panes and traces that it shows, its knobs and the knowledge base are left
-- out. What the code's `std::logic_error` ends is `none`.
pub mod Steps
pub mod Cases
pub mod Invariant
pub mod Idle
mod Tests
use zandr_ea.Prelude.{
  ℕ, ◌+◌, Bool, true, false, not, ◌&&◌, List, [], ◌∷◌, ◌++◌, map, Option, some, none, ◌==◌, ltb,
  if◌then◌else◌, length,
}
use zandr_ea.Types.{GuiReply, okay_all_done}
use zandr_ea.Rule.{Rule, RuleInput, is_in_auto_mode, set_idle_mode_to}
use zandr_ea.RuleKit.{Row, uai_of}
use zandr_ea.RuleKit.Cycle.{RainRuleKit, cycle_rules_in_kit, find_row}
use zandr_ea.Dialogue.{Case}
use zandr_ea.CaseKit.{CaseKit, HeldCase, create_and_own_case}

-- `FIXED_RAIN_NUMRULESINKIT_MAX`.
abbrev pub rain_num_rules_in_kit_max : ℕ
rain_num_rules_in_kit_max = 256

-- The fields of `CRuleKit` that its methods change, and what it has told its subject: on each cycle
-- whether a pinned rule failed, and the alerts posted, by the rule trapped. The table of rules is the
-- rows of the rainfall.
pub record RuleKit : Type 0 where
  pub rain : RainRuleKit
  pub rule_uais_gui_top_to_bottom : List ℕ
  pub are_all_rules_not_in_case_mode_put_to_idle : Bool
  pub kit_finalized : Bool
  pub submitted : List Bool
  pub alerts : List ℕ

abbrev pub with_rows : List Row → RuleKit → RuleKit
with_rows rows kit = record kit { rain = record kit.rain { rows = rows } }

abbrev pub holds_rule : ℕ → List Row → Bool
holds_rule uai [] = false
holds_rule uai (row ∷ rows) = if uai_of row == uai then true else holds_rule uai rows

-- `CRuleKit::CheckRuleUaiFreeThenKeep`.
unfoldable pub check_rule_uai_free_then_keep : ℕ → RuleKit → Option ℕ
check_rule_uai_free_then_keep uai kit =
    if ltb 0 uai && not (holds_rule uai kit.rain.rows) then some uai else none

-- `CRuleKit::AddRuleToKit`; the log of a rule is empty until the kit is finalized.
unfoldable pub add_rule_to_kit : Rule → RuleKit → Option RuleKit
add_rule_to_kit rule kit =
    if kit.kit_finalized
    then none
    else if ltb (length kit.rain.rows) rain_num_rules_in_kit_max
    then some
        (record (with_rows
          (if holds_rule rule.rule_uai kit.rain.rows
            then kit.rain.rows
            else kit.rain.rows ++ record { rule = rule; log = [] } ∷ [])
          kit) {
            rule_uais_gui_top_to_bottom = kit.rule_uais_gui_top_to_bottom ++ rule.rule_uai ∷ [];
          })
    else none

abbrev pub idle_rows : Bool → List Row → List Row
idle_rows wanted [] = []
idle_rows wanted (row ∷ rows) =
    record row { rule = set_idle_mode_to wanted row.rule } ∷ idle_rows wanted rows

-- `CRuleKit::IdleAllRulesNotInCaseMode`.
unfoldable pub idle_all_rules_not_in_case_mode : Bool → RuleKit → RuleKit × GuiReply
idle_all_rules_not_in_case_mode wanted kit = (
  record (with_rows (idle_rows wanted kit.rain.rows) kit) {
    are_all_rules_not_in_case_mode_put_to_idle = wanted;
  },
  okay_all_done,
)

module _ (costs_more : HeldCase → HeldCase → Bool) where
  -- The part of `CRuleKit::Cycle` for a rule trapped, on the case as it would be constructed and the
  -- key it would get.
  unfoldable pub open_case : ℕ → ℕ → Case → ℕ → RuleKit × CaseKit → Option (RuleKit × CaseKit)
  open_case key now c trapped (kit, cases) = elim (find_row trapped kit.rain.rows) [
    | none ↦ none
    | some row ↦
        let told = record kit { alerts = kit.alerts ++ trapped ∷ [] } in
        let ((cases', rows), reply) =
          create_and_own_case costs_more key now c trapped (cases, kit.rain.rows) in
        some (
          if is_in_auto_mode row.rule
          then (
            record (with_rows rows told) { are_all_rules_not_in_case_mode_put_to_idle = false },
            cases',
          )
          else (told, cases))
  ]

  -- `CRuleKit::Cycle`, on the inputs of the rules.
  unfoldable pub cycle_kit :
      ℕ → ℕ → (ℕ → Case) → List RuleInput → RuleKit × CaseKit → Option (RuleKit × CaseKit)
  cycle_kit key now case_of inputs (kit, cases) =
      if not kit.kit_finalized then none else elim (cycle_rules_in_kit inputs kit.rain) [
        | none ↦ none
        | some (rain, (trapped, pinned)) ↦
            let kit' = record kit { rain = rain; submitted = kit.submitted ++ pinned ∷ [] } in
            let opened = open_case key now (case_of trapped) trapped (kit', cases) in
            if trapped == 0 then some (kit', cases) else opened
      ]
