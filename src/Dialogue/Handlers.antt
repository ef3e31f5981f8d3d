-- ===== src/Dialogue/Handlers.antt =====
-- libEA/case.cpp: the state of a `CCase` in its dialogue, and the handlers of answers that need no
-- beliefs.
use zandr_ea.Prelude.{
  ℕ, ◌-◌, Bool, true, false, ◌&&◌, not, List, [], ◌∷◌, Option, some, none, ◌==◌, ltb, if◌then◌else◌,
  length, get_elem?,
}

-- `AoaReply_t`.
pub data AoaReply : Type 0 where
  action_none : AoaReply
  action_case_all_evids_spent_none : AoaReply
  action_case_evid_skipped_roll_queue : AoaReply
  action_case_idled_by_user_regen_gui : AoaReply
  action_case_soln_verified_unmask_rule : AoaReply
  action_kit_case_dropped_destroy_and_tell_gui : AoaReply
  action_kit_case_verified_and_learned_fault_fixed_destroy_and_tell_gui : AoaReply
  action_kit_answer_not_allowed_tell_gui : AoaReply
  action_kit_case_user_access_clash : AoaReply

-- What `p_ActOnAnswer` points to.
pub data Handler : Type 0 where
  should_this_case_be_deleted : Handler
  evaluate_prompted_evidence_query : Handler
  case_spent_out : Handler
  top_menu_case_in_process : Handler
  mapp_at_100_percent : Handler
  case_verified_and_learned : Handler
  is_any_case_hypo_correct : Handler
  is_mapp_hypo_correct : Handler
  is_fault_fixed : Handler
  user_verify_correct_hypo_by_choosing : Handler

-- What the Bayes part of the case tells the dialogue.
pub record Beliefs : Type 0 where
  pub num_hypos_alive : ℕ
  pub uai_mapp_hypo : ℕ
  pub mapp_at_100pct : Bool

-- The fields of `CCase` that its dialogue reads and writes, the hypotheses by their numbers.
pub record Case : Type 0 where
  pub handler : Handler
  pub num_options : ℕ
  pub answer_min : ℕ
  pub answer_max : ℕ
  pub answer : ℕ
  pub waiting_on_user_to_answer : Bool
  pub hypos : List ℕ
  pub evids_unevaluated : List ℕ
  pub uai_evid_up : ℕ
  pub uai_true_hypo : ℕ
  pub beliefs : Beliefs
  pub case_spent_kbase : Bool
  pub case_busts_kbase : Bool
  pub case_verified_and_learned : Bool
  pub rule_has_diagnostics : Bool

abbrev pub choice_no_yes : ℕ
choice_no_yes = 2

abbrev pub choice_no_yes_dnk : ℕ
choice_no_yes_dnk = 3

abbrev pub choice_top_menu_case_in_process : ℕ
choice_top_menu_case_in_process = 4

abbrev pub choice_for_mapp_at_100_percent : ℕ
choice_for_mapp_at_100_percent = 3

abbrev pub choice_for_case_verified_and_learned : ℕ
choice_for_case_verified_and_learned = 3

abbrev pub choice_for_case_spent_out : ℕ
choice_for_case_spent_out = 3

-- `CCase::SetAnswerMinMax`, with the option set that it is called on.
unfoldable pub set_options : ℕ → Case → Case
set_options n c = record c {
  num_options = n;
  answer_min = 0;
  answer_max = if ltb 0 n then n - 1 else 0;
}

-- A prompt with a handler for its answer, on which the case waits.
unfoldable pub ask : Handler → ℕ → Case → Case
unfolding set_options
ask h n c = record (set_options n c) { handler = h; waiting_on_user_to_answer = true }

-- `CCase::CCase`, on the tallies that the knowledge base gives and what is believed at first.
unfoldable pub new_case : List ℕ → List ℕ → Beliefs → Bool → Case
unfolding set_options
new_case hypos evids beliefs diagnostics = set_options choice_top_menu_case_in_process (record {
  handler = top_menu_case_in_process;
  num_options = choice_top_menu_case_in_process;
  answer_min = 0;
  answer_max = 0;
  answer = 0;
  waiting_on_user_to_answer = true;
  hypos = hypos;
  evids_unevaluated = evids;
  uai_evid_up = 0;
  uai_true_hypo = 0;
  beliefs = beliefs;
  case_spent_kbase = false;
  case_busts_kbase = false;
  case_verified_and_learned = false;
  rule_has_diagnostics = diagnostics;
})

-- `CCase::ActOnAnswerTo_ShouldThisCaseBeDeleted`.
unfoldable pub act_should_this_case_be_deleted : Case → Case × AoaReply
act_should_this_case_be_deleted c =
    if c.answer == 0
    then (c, action_case_idled_by_user_regen_gui)
    else if c.answer == 1
    then (c, action_kit_case_dropped_destroy_and_tell_gui)
    else (c, action_none)

-- The prompts that follow on an evaluated evidence.
unfoldable pub ask_after_evidence : Case → Case
ask_after_evidence c =
    if c.case_spent_kbase && not c.beliefs.mapp_at_100pct
    then ask case_spent_out choice_for_case_spent_out c
    else if c.beliefs.mapp_at_100pct
    then ask mapp_at_100_percent choice_for_mapp_at_100_percent c
    else ask top_menu_case_in_process choice_top_menu_case_in_process c

unfoldable pub is_empty : List ℕ → Bool
is_empty [] = true
is_empty (x ∷ xs) = false

-- `CCase::ActOnAnswerTo_CaseSpentOut`, and the handler alike of a solution at 100 %.
unfoldable pub act_case_spent_out : Case → Case × AoaReply
act_case_spent_out c =
    if c.answer == 0
    then (c, action_case_idled_by_user_regen_gui)
    else if c.answer == 1
    then (ask is_mapp_hypo_correct choice_no_yes_dnk c, action_none)
    else if c.answer == 2
    then (c, action_kit_case_dropped_destroy_and_tell_gui)
    else (c, action_none)

-- `CCase::ActOnAnswerTo_MappAt100Percent`.
unfoldable pub act_mapp_at_100_percent : Case → Case × AoaReply
act_mapp_at_100_percent c =
    if c.answer == 0
    then (c, action_case_idled_by_user_regen_gui)
    else if c.answer == 1
    then (ask is_mapp_hypo_correct choice_no_yes_dnk c, action_none)
    else if c.answer == 2
    then (c, action_kit_case_dropped_destroy_and_tell_gui)
    else (c, action_none)

-- The next question of a case: that of the evidence at the front of the queue.
unfoldable pub ask_next_evidence : List ℕ → Case → Case
ask_next_evidence [] c =
    ask case_spent_out choice_for_case_spent_out (record c { case_spent_kbase = true })
ask_next_evidence (e ∷ es) c =
    ask evaluate_prompted_evidence_query choice_no_yes_dnk
      (record c { case_spent_kbase = false; uai_evid_up = e; evids_unevaluated = es })

-- `CCase::ActOnAnswerTo_TopMenu_CaseInProcess`.
unfoldable pub act_top_menu_case_in_process : Case → Case × AoaReply
act_top_menu_case_in_process c =
    if c.answer == 0
    then (c, action_case_idled_by_user_regen_gui)
    else if c.answer == 1
    then (ask_next_evidence c.evids_unevaluated c, action_none)
    else if c.answer == 2
    then (ask is_mapp_hypo_correct choice_no_yes_dnk c, action_none)
    else if c.answer == 3
    then (c, action_kit_case_dropped_destroy_and_tell_gui)
    else (c, action_none)

-- `CCase::ActOnAnswerTo_CaseVerifiedAndLearned`.
unfoldable pub act_case_verified_and_learned : Case → Case × AoaReply
act_case_verified_and_learned c =
    if c.answer == 0
    then (c, action_case_idled_by_user_regen_gui)
    else if c.answer == 1
    then (ask is_fault_fixed choice_no_yes_dnk c, action_none)
    else if c.answer == 2
    then (c, action_kit_case_dropped_destroy_and_tell_gui)
    else (c, action_none)

-- `CCase::LearnFromUserVerifyingSoln`, on the case itself.
unfoldable pub learn_from_user_verifying_soln : Case → Case
learn_from_user_verifying_soln c =
    if c.uai_true_hypo == 0 then c else record c { case_verified_and_learned = true }

-- The prompt that goes on with a case on which nothing was learned.
unfoldable pub ask_on : Case → Case
ask_on c =
    if c.case_spent_kbase
    then ask case_spent_out choice_for_case_spent_out c
    else ask top_menu_case_in_process choice_top_menu_case_in_process c

-- `CCase::ActOnAnswerTo_IsAnyCaseHypoCorrect`.
unfoldable pub act_is_any_case_hypo_correct : Case → Case × AoaReply
act_is_any_case_hypo_correct c =
    if c.answer == 0
    then (
      ask should_this_case_be_deleted choice_no_yes (record c { case_busts_kbase = true }),
      action_none,
    )
    else if c.answer == 1
    then (ask user_verify_correct_hypo_by_choosing (length c.hypos) c, action_none)
    else (ask_on c, action_none)

-- `CCase::ActOnAnswerTo_IsMappHypoCorrect`.
unfoldable pub act_is_mapp_hypo_correct : Case → Case × AoaReply
act_is_mapp_hypo_correct c =
    if c.answer == 0
    then (ask is_any_case_hypo_correct choice_no_yes_dnk c, action_none)
    else if c.answer == 1
    then (
      ask is_fault_fixed choice_no_yes_dnk
          (learn_from_user_verifying_soln (record c { uai_true_hypo = c.beliefs.uai_mapp_hypo })),
      action_case_soln_verified_unmask_rule,
    )
    else (ask_on c, action_none)

-- `CCase::ActOnAnswerTo_IsFaultFixed`.
unfoldable pub act_is_fault_fixed : Case → Case × AoaReply
act_is_fault_fixed c =
    if c.answer == 1
    then (
      record c { waiting_on_user_to_answer = false },
      action_kit_case_verified_and_learned_fault_fixed_destroy_and_tell_gui,
    )
    else (ask case_verified_and_learned choice_for_case_verified_and_learned c, action_none)

-- `CCase::ActOnAnswerTo_UserVerifyCorrectHypoByChoosing`; `none` where it reads past the tally.
unfoldable pub act_user_verify_correct_hypo_by_choosing : Case → Option (Case × AoaReply)
act_user_verify_correct_hypo_by_choosing c = elim (get_elem? c.hypos c.answer) [
  | none ↦ none
  | some uai ↦ some (
    ask is_fault_fixed choice_no_yes_dnk
        (learn_from_user_verifying_soln (record c { uai_true_hypo = uai })),
    action_case_soln_verified_unmask_rule,
  )
]
