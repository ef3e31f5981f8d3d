-- ===== src/Rule.antt =====
-- libEA/rule.cpp: `CRule`, one rule of a kit, its modes, its cycle and its snapshots. What the rule
-- reads of the facts that are its operands, and what its two tests say, are arguments.
pub mod Modes
mod Tests
use zandr_ea.Prelude.{
  ℕ, ◌+◌, ◌%◌, Bool, true, false, ◌&&◌, not, List, [], ◌∷◌, Option, some, none, ◌==◌, if◌then◌else◌,
  erase, emplace,
}
use zandr_ea.Types.{ApiReply, okay_tally_zero, okay_tally_one, incr_word}

-- The fields of `CRule` that its methods change. The snapshots are those that the traces of its
-- antecedents have captured, by the number of the set.
pub record Rule : Type 0 where
  pub rule_uai : ℕ
  pub case_mode_offset : ℕ
  pub idle_mode_offset : ℕ
  pub is_rule_at_idle : Bool
  pub is_rule_pinned_to_unit_output : Bool
  pub holding_snapshots : Bool
  pub snapshot_set_sgi : ℕ
  pub trace_snapshots : List (ℕ × Unit {0})
  pub bindex_now : ℕ
  pub valid : Bool

-- `CRule::CRule`. `NaNBINDEX` is 0 and `NaNBOOL` `false`, since the types have no NaN.
abbrev pub new_rule : ℕ → Bool → Rule
new_rule uai pinned = record {
  rule_uai = uai;
  case_mode_offset = 0;
  idle_mode_offset = 0;
  is_rule_at_idle = false;
  is_rule_pinned_to_unit_output = pinned;
  holding_snapshots = false;
  snapshot_set_sgi = 0;
  trace_snapshots = [];
  bindex_now = 0;
  valid = false;
}

-- The validity of the operands and the values of the tests on a cycle.
pub record RuleInput : Type 0 where
  pub operands_if : List Bool
  pub operands_then : List Bool
  pub test_if : Bool
  pub test_then : Bool

abbrev pub and_rest : Bool → List Bool → Bool
and_rest update [] = update
and_rest update (v ∷ vs) = and_rest (update && v) vs

-- All operands, where there is one of each kind.
abbrev pub both : List Bool → List Bool → Option Bool
both [] thens = none
both (a ∷ more) [] = none
both (a ∷ more) (b ∷ bs) = some (and_rest (and_rest (a && b) more) bs)

-- `CRule::PullValidity`; `none` is the exception of `at( 0 )`.
unfoldable pub pull_validity : RuleInput → Rule → Option (Rule × Bool)
pull_validity i r = elim (both i.operands_if i.operands_then) [
  | none ↦ none
  | some update ↦ some (record r { valid = update }, update)
]

abbrev pub mode_offset : Rule → ℕ
mode_offset r = r.idle_mode_offset + r.case_mode_offset

-- `CRule::CycleAndSayBindex`.
unfoldable pub cycle_and_say_bindex : RuleInput → Rule → Option (Rule × ℕ)
cycle_and_say_bindex i r = elim (pull_validity i r) [
  | none ↦ none
  | some (r', valid) ↦ some (record r' { bindex_now = bindex valid r' }, bindex valid r')
]
  where
    bindex : Bool → Rule → ℕ
    bindex valid r' =
        if valid
        then (if i.test_if
            then (if i.test_then then 1 + mode_offset r' else 0 + mode_offset r')
            else 2 + mode_offset r')
        else 3

unfoldable pub is_in_auto_mode : Rule → Bool
is_in_auto_mode r = (r.case_mode_offset + r.idle_mode_offset) == 0

unfoldable pub has_snapshot_set : Rule → Bool
has_snapshot_set r = r.holding_snapshots

-- `CRule::SetCaseModeTo`.
unfoldable pub set_case_mode_to : Bool → Rule → Rule
set_case_mode_to wanted r = record r { case_mode_offset = if wanted then 4 else 0 }

-- `CRule::SetIdleModeTo`.
unfoldable pub set_idle_mode_to : Bool → Rule → Rule
set_idle_mode_to wanted r = record r { idle_mode_offset = offset; is_rule_at_idle = offset == 7 }
  where
    offset : ℕ
    offset = if wanted then (if not (r.case_mode_offset == 0) then 0 else 7) else 0

-- `CRule::SaveAntecedentSnapshotsAndSaySetSgi`, on the number that the class holds for the next set.
unfoldable pub save_antecedent_snapshots : ℕ → Rule → (Rule × ℕ) × ℕ
save_antecedent_snapshots sgi r = (
  (
    record r { snapshot_set_sgi = sgi; trace_snapshots = emplace sgi tt r.trace_snapshots },
    incr_word sgi,
  ),
  sgi,
)

-- `CRule::DestroySnapshotSet`.
unfoldable pub destroy_snapshot_set : Rule → Rule × ApiReply
destroy_snapshot_set r =
    if r.case_mode_offset == 0
    then (record r { trace_snapshots = erase r.snapshot_set_sgi r.trace_snapshots }, okay_tally_one)
    else (r, okay_tally_zero)
