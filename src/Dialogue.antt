-- ===== src/Dialogue.antt =====
-- libEA/case.cpp: the dialogue of `CCase` with the user, a state machine whose state is the handler of
-- the next answer. The texts shown are left out, the options kept as their number. What the Bayes
-- part makes of an evidence is a parameter; so is not what the handlers do with its result. The
-- counts that a verified case adds to the knowledge base are left out.
mod Handlers
pub mod Reach
pub mod Ends
mod Tests
use zandr_ea.Prelude.{
  has_id, ℕ, suc, zero, ◌+◌, ◌-◌, Bool, true, false, ◌&&◌, ◌||◌, not, List, [], ◌∷◌, ◌++◌, Option,
  some, none, ◌==◌, ltb, if◌then◌else◌, length, get_elem?,
}
unfoldable pub use Handlers.{
  set_options, ask, new_case, act_should_this_case_be_deleted, ask_after_evidence, is_empty,
  act_case_spent_out, act_mapp_at_100_percent, ask_next_evidence, act_top_menu_case_in_process,
  act_case_verified_and_learned, learn_from_user_verifying_soln, ask_on,
  act_is_any_case_hypo_correct, act_is_mapp_hypo_correct, act_is_fault_fixed,
  act_user_verify_correct_hypo_by_choosing,
}
pub use Handlers.{
  AoaReply, Handler, Beliefs, Case, choice_no_yes, choice_no_yes_dnk,
  choice_top_menu_case_in_process, choice_for_mapp_at_100_percent,
  choice_for_case_verified_and_learned, choice_for_case_spent_out, action_none,
  action_case_all_evids_spent_none, action_case_evid_skipped_roll_queue,
  action_case_idled_by_user_regen_gui, action_case_soln_verified_unmask_rule,
  action_kit_case_dropped_destroy_and_tell_gui,
  action_kit_case_verified_and_learned_fault_fixed_destroy_and_tell_gui,
  action_kit_answer_not_allowed_tell_gui, action_kit_case_user_access_clash,
  should_this_case_be_deleted, evaluate_prompted_evidence_query, case_spent_out,
  top_menu_case_in_process, mapp_at_100_percent, case_verified_and_learned,
  is_any_case_hypo_correct, is_mapp_hypo_correct, is_fault_fixed,
  user_verify_correct_hypo_by_choosing,
}

module _ (evaluate : ℕ → ℕ → Beliefs → Beliefs) (refresh : Beliefs → Beliefs) where
  -- `CCase::ActOnAnswerTo_EvaluatePromptedEvidenceQuery`. `evaluate` is `ApplyBayesGivenEvidUpIs` on
  -- the evidence and its value, and `UpdateBayesProbabilities` after it.
  unfoldable pub act_evaluate_prompted_evidence_query : Case → Case × AoaReply
  unfolding is_empty
  act_evaluate_prompted_evidence_query c =
      if c.case_spent_kbase
      then (c, action_case_all_evids_spent_none)
      else (let beliefs =
            if ltb c.answer 2 then evaluate c.uai_evid_up c.answer c.beliefs else c.beliefs in
          (
            ask_after_evidence (record c {
              beliefs = beliefs;
              case_busts_kbase = beliefs.num_hypos_alive == 0;
              case_spent_kbase = is_empty c.evids_unevaluated;
            }),
            (if c.answer == 2 then action_case_evid_skipped_roll_queue else action_none),
          ))

  -- `CCase::RegenGuiFieldsPerCaseAsIs`. `refresh` is `UpdateBayesProbabilities`, which does nothing on
  -- a case that is spent or busted. `none` where the text of the hypothesis verified is not in the tally.
  unfoldable pub regen_gui_fields : Case → Option Case
  regen_gui_fields c =
      let updated =
        if c.case_spent_kbase || c.case_busts_kbase
        then c
        else record c { beliefs = refresh c.beliefs } in
      if c.rule_has_diagnostics
      then (if c.case_verified_and_learned
          then (if has_id c.uai_true_hypo c.hypos
              then some (ask is_fault_fixed choice_no_yes_dnk c)
              else none)
          else if c.case_spent_kbase
          then some (ask case_spent_out choice_for_case_spent_out updated)
          else if c.case_busts_kbase
          then some (ask should_this_case_be_deleted choice_no_yes c)
          else some (ask top_menu_case_in_process choice_top_menu_case_in_process updated))
      else some (ask should_this_case_be_deleted choice_no_yes c)

  -- The methods that `p_ActOnAnswer` points to, and the call through it.
  unfoldable pub act_as : Handler → Case → Option (Case × AoaReply)
  act_as should_this_case_be_deleted c = some (act_should_this_case_be_deleted c)
  act_as evaluate_prompted_evidence_query c = some (act_evaluate_prompted_evidence_query c)
  act_as case_spent_out c = some (act_case_spent_out c)
  act_as top_menu_case_in_process c = some (act_top_menu_case_in_process c)
  act_as mapp_at_100_percent c = some (act_mapp_at_100_percent c)
  act_as case_verified_and_learned c = some (act_case_verified_and_learned c)
  act_as is_any_case_hypo_correct c = some (act_is_any_case_hypo_correct c)
  act_as is_mapp_hypo_correct c = some (act_is_mapp_hypo_correct c)
  act_as is_fault_fixed c = some (act_is_fault_fixed c)
  act_as user_verify_correct_hypo_by_choosing c = act_user_verify_correct_hypo_by_choosing c

  unfoldable pub act_on_answer : Case → Option (Case × AoaReply)
  act_on_answer c = act_as c.handler c

  -- What the case itself does about the reply.
  unfoldable pub serve_reply : Case → AoaReply → Option Case
  serve_reply c action_case_evid_skipped_roll_queue =
      some (record c { evids_unevaluated = c.evids_unevaluated ++ c.uai_evid_up ∷ [] })
  serve_reply c action_case_idled_by_user_regen_gui = regen_gui_fields c
  serve_reply c other = some c

  -- `CCase::CheckAnswerValidThenSet`.
  unfoldable pub check_answer_valid_then_set : ℕ → Case → Option (Case × AoaReply)
  check_answer_valid_then_set given c =
      if ltb given c.answer_min || ltb c.answer_max given
      then some (c, action_kit_answer_not_allowed_tell_gui)
      else if not c.waiting_on_user_to_answer
      then some (c, action_kit_case_user_access_clash)
      else elim (act_on_answer (record c { answer = given; waiting_on_user_to_answer = false })) [
        | none ↦ none
        | some (c', reply) ↦ elim (serve_reply c' reply) [
          | none ↦ none
          | some c'' ↦ some (c'', reply)
        ]
      ]
