-- ===== src/Dialogue/Tests.antt =====
-- Runs of the dialogue.
use mathlib.Core.Bool.{true≢false}
use zandr_ea.Prelude.{sym, ℕ, ◌≡◌, ◌⊎◌, refl, Bool, true, false, [], ◌∷◌, some, none, arith}
use zandr_ea.Dialogue.{
  Beliefs, Case, AoaReply, action_none, is_any_case_hypo_correct, act_on_answer, act_as,
  act_top_menu_case_in_process, act_is_mapp_hypo_correct, learn_from_user_verifying_soln,
  act_is_fault_fixed, act_case_verified_and_learned, regen_gui_fields, serve_reply, new_case, ask,
  set_options, evaluate_prompted_evidence_query, choice_no_yes_dnk, check_answer_valid_then_set,
  action_case_evid_skipped_roll_queue,
}
use zandr_ea.Dialogue.Reach.{KeepsBest, IsReady, ends_case}
use zandr_ea.Dialogue.Ends.{
  run_answers, check_answer-IsReady, run_answers-IsReady, check_answer-forgets,
  check_answer-no_hypotheses,
}

abbrev two_alive : Beliefs
two_alive = record { num_hypos_alive = 2; uai_mapp_hypo = 11; mapp_at_100pct = false }

abbrev keep : Beliefs → Beliefs
keep b = b

abbrev learn : ℕ → ℕ → Beliefs → Beliefs
learn evid value b = record b { num_hypos_alive = 1 }

-- A case of two hypotheses that has asked for its last evidence.
abbrev last_asked : Case
last_asked =
    ask evaluate_prompted_evidence_query choice_no_yes_dnk
      (record (new_case (11 ∷ 12 ∷ []) [] two_alive true) { uai_evid_up = 31 })

last_asked-IsReady : IsReady (11 ∷ 12 ∷ []) last_asked
unfolding ask set_options new_case
last_asked-IsReady = record {
  waiting = refl;
  low = refl;
  high = refl;
  found = (refl, omega arith, refl, λ e. absurd (true≢false (sym e)));
  unspent = λ asks. refl;
}

-- The best hypothesis stays.
best_stays : KeepsBest learn keep (11 ∷ 12 ∷ [])
best_stays = record { evaluated = λ e v b k. k; refreshed = λ b k. k }

check_answer-IsReady_example :
    (c' : Case) × (reply : AoaReply) × (check_answer_valid_then_set learn keep 1 last_asked
      ≡ some (c', reply))
    × ((ends_case reply ≡ true) ⊎ IsReady (11 ∷ 12 ∷ []) c')
check_answer-IsReady_example =
    check_answer-IsReady learn keep 1 (11 ∷ 12 ∷ []) last_asked best_stays last_asked-IsReady

run_answers-IsReady_example :
    (c : Case) × (ended : Bool) × (run_answers learn keep
        (2 ∷ 1 ∷ 0 ∷ 0 ∷ [])
        (new_case (11 ∷ 12 ∷ []) (31 ∷ 32 ∷ []) two_alive true)
      ≡ some (c, ended))
    × ((ended ≡ true) ⊎ IsReady (11 ∷ 12 ∷ []) c)
run_answers-IsReady_example =
    run_answers-IsReady learn keep (2 ∷ 1 ∷ 0 ∷ 0 ∷ []) (11 ∷ 12 ∷ []) (31 ∷ 32 ∷ []) two_alive true
      (omega arith) refl best_stays

-- The same answers fail on a case whose best hypothesis is not one of its own.
unknown_best :
    run_answers learn keep (2 ∷ 1 ∷ 0 ∷ 0 ∷ []) (new_case (12 ∷ []) [] two_alive true) ≡ none
unfolding new_case check_answer_valid_then_set act_on_answer act_as act_top_menu_case_in_process
    act_is_mapp_hypo_correct learn_from_user_verifying_soln act_is_fault_fixed
    act_case_verified_and_learned regen_gui_fields ask set_options serve_reply
unknown_best = refl

check_answer-forgets_example :
    (c' : Case) × (check_answer_valid_then_set learn keep 2 last_asked
      ≡ some (c', action_case_evid_skipped_roll_queue))
    × (c'.evids_unevaluated ≡ 31 ∷ [])
    × (c'.case_spent_kbase ≡ true)
unfolding ask set_options new_case
check_answer-forgets_example =
    check_answer-forgets learn keep (11 ∷ 12 ∷ []) last_asked refl last_asked-IsReady refl

-- A case without hypotheses, after the answers 2 and 0 to its first prompts.
abbrev asks_any : Case
asks_any = ask is_any_case_hypo_correct choice_no_yes_dnk (new_case [] [] two_alive false)

asks_any_reached :
    run_answers learn keep (2 ∷ 0 ∷ []) (new_case [] [] two_alive false)
    ≡ some (record asks_any { answer = 0 }, false)
unfolding new_case check_answer_valid_then_set act_on_answer act_as act_top_menu_case_in_process
    act_is_mapp_hypo_correct ask set_options serve_reply
asks_any_reached = refl

check_answer-no_hypotheses_example :
    (c' : Case) × (check_answer_valid_then_set learn keep 1 asks_any ≡ some (c', action_none))
    × (c'.num_options ≡ 0)
    × (check_answer_valid_then_set learn keep 0 c' ≡ none)
unfolding ask set_options new_case
check_answer-no_hypotheses_example =
    check_answer-no_hypotheses learn keep 0 asks_any refl refl refl refl refl
