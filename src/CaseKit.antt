-- ===== src/CaseKit.antt =====
-- libEA/case.cpp: `CCaseKit`, which owns the cases that are out and ranks them. A case refers to its
-- rule, so the operations also change the rules, the rows of RuleKit. The order in which the code's
-- hash table iterates is that of the association list; what a case costs is a float, and the
-- comparison of two costs a parameter. The table of the view, by which it finds the kit of a case, is
-- left out.
pub mod Held
pub mod Ranks
mod Tests
use zandr_ea.Prelude.{
  ℕ, ◌+◌, Bool, true, false, List, [], ◌∷◌, ◌++◌, map, reverse, Option, some, none, ◌==◌, ltb,
  if◌then◌else◌, length, find, has_key, erase, emplace, overwrite,
}
use zandr_ea.Types.{
  GuiReply, okay_all_done, okay_done_case_destroyed_by_user_discard_key,
  fail_any_given_key_not_valid_for_function_called, fail_set_given_dialogue_answer_not_allowed,
  ApiReply, okay_tally_one, okay_tally_zero,
}
use zandr_ea.Rule.{Rule, set_case_mode_to}
use zandr_ea.RuleKit.{Row, uai_of}
use zandr_ea.Dialogue.{
  Case, Beliefs, AoaReply, check_answer_valid_then_set,
  action_kit_case_dropped_destroy_and_tell_gui,
  action_kit_case_verified_and_learned_fault_fixed_destroy_and_tell_gui,
  action_kit_answer_not_allowed_tell_gui,
}

-- `FIXED_CASEKIT_NUMCASESOUT_MAX`.
abbrev pub casekit_num_cases_out_max : ℕ
casekit_num_cases_out_max = 10

-- A case that is out, with its rule and the time at which the rule was trapped.
pub record HeldCase : Type 0 where
  pub dialogue : Case
  pub case_rule_uai : ℕ
  pub when_trapped : ℕ

pub record CaseKit : Type 0 where
  pub cases_by_key : List (ℕ × HeldCase)
  pub case_keys_by_decr_rank : List ℕ
  pub ranking_cases_by_cost_not_age : Bool

-- `CCaseKit::CCaseKit`.
abbrev pub new_case_kit : CaseKit
new_case_kit = record {
  cases_by_key = [];
  case_keys_by_decr_rank = [];
  ranking_cases_by_cost_not_age = false;
}

-- The rule that a case refers to, changed in the table of rules.
unfoldable pub set_rule : ℕ → (Rule → Rule) → List Row → List Row
set_rule uai f [] = []
set_rule uai f (row ∷ rows) =
    if uai_of row == uai then record row { rule = f row.rule } ∷ rows else row ∷ set_rule uai f rows

-- `std::forward_list::remove`.
abbrev pub remove : ℕ → List ℕ → List ℕ
remove k [] = []
remove k (j ∷ js) = (if j == k then [] else j ∷ []) ++ remove k js

-- `CCaseKit::RankCasesOnCostNotAge`.
unfoldable pub rank_cases_on_cost_not_age : Bool → CaseKit → CaseKit × GuiReply
rank_cases_on_cost_not_age input k =
    (record k { ranking_cases_by_cost_not_age = input }, okay_all_done)

-- `CCaseKit::DestroyCase`, with `CCase::~CCase`.
unfoldable pub destroy_case : ℕ → CaseKit × List Row → (CaseKit × List Row) × GuiReply
destroy_case key (k, rows) = elim (find key k.cases_by_key) [
  | none ↦ ((k, rows), fail_any_given_key_not_valid_for_function_called)
  | some held ↦ (
    (
      record k {
        cases_by_key = erase key k.cases_by_key;
        case_keys_by_decr_rank = remove key k.case_keys_by_decr_rank;
      },
      set_rule held.case_rule_uai (set_case_mode_to false) rows,
    ),
    okay_done_case_destroyed_by_user_discard_key,
  )
]

abbrev pub destroys_case : AoaReply → Bool
destroys_case action_kit_case_dropped_destroy_and_tell_gui = true
destroys_case action_kit_case_verified_and_learned_fault_fixed_destroy_and_tell_gui = true
destroys_case other = false

abbrev pub reply_to_answer : AoaReply → GuiReply
reply_to_answer action_kit_answer_not_allowed_tell_gui = fail_set_given_dialogue_answer_not_allowed
reply_to_answer other = okay_all_done

module _ (evaluate : ℕ → ℕ → Beliefs → Beliefs) (refresh : Beliefs → Beliefs) where
  -- `CCaseKit::AnswerCasePromptUsingOptionIndex`; `none` where the case itself fails.
  unfoldable pub answer_case_prompt :
      ℕ → ℕ → CaseKit × List Row → Option ((CaseKit × List Row) × GuiReply)
  answer_case_prompt key option (k, rows) = elim (find key k.cases_by_key) [
    | none ↦ some ((k, rows), okay_all_done)
    | some held ↦ elim (check_answer_valid_then_set evaluate refresh option held.dialogue) [
      | none ↦ none
      | some (c, reply) ↦
          let held' = record held { dialogue = c } in
          let k' = record k { cases_by_key = overwrite key held' k.cases_by_key } in
          some (
            if destroys_case reply
            then destroy_case key (k', rows)
            else ((k', rows), reply_to_answer reply))
    ]
  ]

module _ (costs_more : HeldCase → HeldCase → Bool) where
  -- `RankCasesMostCostToLeast` and `RankCasesOldestToNewest`: whether one is ahead of another.
  abbrev pub ranks_ahead : Bool → HeldCase → HeldCase → Bool
  ranks_ahead by_cost a b = if by_cost then costs_more a b else ltb a.when_trapped b.when_trapped

  abbrev pub rank_in : Bool → ℕ × HeldCase → List (ℕ × HeldCase) → List (ℕ × HeldCase)
  rank_in by_cost x [] = x ∷ []
  rank_in by_cost x (y ∷ ys) =
      if ranks_ahead by_cost x.1 y.1 then x ∷ y ∷ ys else y ∷ rank_in by_cost x ys

  -- `std::forward_list::sort`, which is stable: each in turn behind those that it is not ahead of.
  abbrev pub rank_all : Bool → List (ℕ × HeldCase) → List (ℕ × HeldCase) → List (ℕ × HeldCase)
  rank_all by_cost sorted [] = sorted
  rank_all by_cost sorted (x ∷ xs) = rank_all by_cost (rank_in by_cost x sorted) xs

  -- `CCaseKit::RegenCaseRankings`.
  unfoldable pub regen_case_rankings : CaseKit → CaseKit
  regen_case_rankings k =
      let pushed = reverse k.cases_by_key in
      record k {
        case_keys_by_decr_rank =
            map (λ x. x.0)
              (if ltb 1 (length k.cases_by_key)
                then rank_all k.ranking_cases_by_cost_not_age [] pushed
                else pushed);
      }

  -- `CCaseKit::CreateAndOwnCase` of a case on a rule, under the key that the new case gets.
  unfoldable pub create_and_own_case :
      ℕ → ℕ → Case → ℕ → CaseKit × List Row → (CaseKit × List Row) × ApiReply
  create_and_own_case key now c uai (k, rows) =
      if ltb (length k.cases_by_key) casekit_num_cases_out_max
      then (let held : HeldCase = record {
        dialogue = c;
        case_rule_uai = uai;
        when_trapped = now;
      } in
          (
            (
              regen_case_rankings (record k { cases_by_key = emplace key held k.cases_by_key }),
              set_rule uai (set_case_mode_to true) rows,
            ),
            okay_tally_one,
          ))
      else ((k, rows), okay_tally_zero)
