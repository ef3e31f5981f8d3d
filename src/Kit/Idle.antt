-- ===== src/Kit/Idle.antt =====
-- libEA/rule.cpp, `CRuleKit::IdleAllRulesNotInCaseMode`: the rules after the knob.
use zandr_ea.Prelude.{ℕ, ◌≡◌, Bool, List, [], ◌∷◌, ◌==◌, ◌&&◌, arith, All, map, refl}
use zandr_ea.Rule.{set_idle_mode_to}
use zandr_ea.Rule.Modes.{IsInOneMode}
use zandr_ea.RuleKit.{Row}
use zandr_ea.Kit.{RuleKit, idle_rows, idle_all_rules_not_in_case_mode}

abbrev pub HasOneMode : Row → Type 0
HasOneMode row = IsInOneMode row.rule

-- A rule that is idle just when that is wanted and it has no case.
abbrev pub IdlesAs : Bool → Row → Type 0
IdlesAs wanted row =
    IsInOneMode row.rule
    × ((row.rule.idle_mode_offset == 7) ≡ (wanted && (row.rule.case_mode_offset == 0)))

abbrev pub case_modes : List Row → List ℕ
case_modes rows = map (λ (row : Row). row.rule.case_mode_offset) rows

idles_as :
    (wanted : Bool) (row : Row)
    → HasOneMode row
    → IdlesAs wanted (record row { rule = set_idle_mode_to wanted row.rule })
unfolding set_idle_mode_to IsInOneMode
idles_as wanted row m = ground arith

all_idle :
    (wanted : Bool) (rows : List Row)
    → All HasOneMode rows
    → All (IdlesAs wanted) (idle_rows wanted rows)
      × (case_modes (idle_rows wanted rows) ≡ case_modes rows)
unfolding set_idle_mode_to
all_idle wanted [] h = (tt, refl)
all_idle wanted (row ∷ rows) (m, h) =
    let (idle, kept) = all_idle wanted rows h in ((idles_as wanted row m, idle), rw kept refl)

-- After the knob that idles all rules, where each rule was in one mode, each still is, a rule is idle
-- just when that is wanted and it has no case, and those with a case are the ones that had one.
pub idle_all-modes :
    (wanted : Bool) (kit : RuleKit)
    → All HasOneMode kit.rain.rows
    → let kit' = (idle_all_rules_not_in_case_mode wanted kit).0 in
      All (IdlesAs wanted) kit'.rain.rows × (case_modes kit'.rain.rows ≡ case_modes kit.rain.rows)
unfolding idle_all_rules_not_in_case_mode
idle_all-modes wanted kit h = all_idle wanted kit.rain.rows h
