-- ===== src/Dialogue/Ends.antt =====
-- Runs of answers in the dialogue of `CCase`, libEA/case.cpp.
use mathlib.Core.Path.{subst}
use mathlib.Core.Bool.{true≢false}
use zandr_ea.Prelude.{
  get_elem?, ℕ, suc, ◌≤◌, ◌<◌, ◌≡◌, ◌⊎◌, inl, inr, refl, ap, sym, ◌∙◌, Bool, true, false, ◌||◌,
  List, [], ◌∷◌, ◌++◌, Option, some, none, ◌==◌, ltb, if◌then◌else◌, length, arith, Bool-cases,
}
use zandr_ea.Dialogue.{
  AoaReply, Handler, Beliefs, Case, action_none, action_case_all_evids_spent_none,
  action_case_evid_skipped_roll_queue, action_case_idled_by_user_regen_gui,
  action_case_soln_verified_unmask_rule, action_kit_case_dropped_destroy_and_tell_gui,
  action_kit_case_verified_and_learned_fault_fixed_destroy_and_tell_gui,
  action_kit_answer_not_allowed_tell_gui, action_kit_case_user_access_clash,
  should_this_case_be_deleted, evaluate_prompted_evidence_query, case_spent_out,
  top_menu_case_in_process, mapp_at_100_percent, case_verified_and_learned,
  is_any_case_hypo_correct, is_mapp_hypo_correct, is_fault_fixed,
  user_verify_correct_hypo_by_choosing, set_options, ask, new_case, act_should_this_case_be_deleted,
  ask_after_evidence, is_empty, act_case_spent_out, act_mapp_at_100_percent,
  act_top_menu_case_in_process, act_case_verified_and_learned, act_is_any_case_hypo_correct,
  act_is_mapp_hypo_correct, act_is_fault_fixed, act_user_verify_correct_hypo_by_choosing,
  act_evaluate_prompted_evidence_query, regen_gui_fields, act_as, act_on_answer, serve_reply,
  check_answer_valid_then_set,
}
use zandr_ea.Dialogue.Reach.{
  KeepsBest, Knows, IsFound, IsReady, options_of, asks_evidence, ends_case, GoesOn,
  IsReady-after_evidence, IsReady-prompt, goes_should_this_case_be_deleted, goes_case_spent_out,
  goes_mapp_at_100_percent, goes_top_menu, goes_verified, goes_any_hypo, goes_mapp_hypo,
  goes_fault_fixed, goes_choosing,
}

module _ (evaluate : ℕ → ℕ → Beliefs → Beliefs) (refresh : Beliefs → Beliefs) where
  goes_evidence :
      {hs : List ℕ} (c : Case)
      → KeepsBest evaluate refresh hs
      → IsFound hs c
      → c.case_spent_kbase ≡ false
      → GoesOn hs (act_evaluate_prompted_evidence_query evaluate refresh c)
  unfolding GoesOn act_evaluate_prompted_evidence_query
  goes_evidence {hs} c keeps (same, some_hypo, best, verified) unspent =
      let known = subst (λ l. Knows l c.beliefs) same best in
      elim (Bool-cases (ltb c.answer 2)) [
        | inl answered ↦
            let weighed =
              subst (λ l. Knows l (evaluate c.uai_evid_up c.answer c.beliefs)) (sym same)
                (keeps.evaluated c.uai_evid_up c.answer c.beliefs known) in
            rw (unspent, answered)
              (inr (inr (IsReady-after_evidence _ (same, some_hypo, weighed, verified))))
        | inr unknown ↦
            rw (unspent, unknown)
              (inr (inr (IsReady-after_evidence _ (same, some_hypo, best, verified))))
      ]

  act-GoesOn :
      {hs : List ℕ} (h : Handler) (c : Case)
      → KeepsBest evaluate refresh hs
      → IsFound hs c
      → c.answer < options_of h (length c.hypos)
      → (asks_evidence h ≡ true → c.case_spent_kbase ≡ false)
      → (out : Case × AoaReply) × (act_as evaluate refresh h c ≡ some out) × GoesOn hs out
  unfolding act_as
  act-GoesOn should_this_case_be_deleted c keeps m le u =
      (act_should_this_case_be_deleted c, refl, goes_should_this_case_be_deleted c m (omega arith))
  act-GoesOn evaluate_prompted_evidence_query c keeps m le u = (
    act_evaluate_prompted_evidence_query evaluate refresh c,
    refl,
    goes_evidence c keeps m (u refl),
  )
  act-GoesOn case_spent_out c keeps m le u =
      (act_case_spent_out c, refl, goes_case_spent_out c m (omega arith))
  act-GoesOn top_menu_case_in_process c keeps m le u =
      (act_top_menu_case_in_process c, refl, goes_top_menu c m (omega arith))
  act-GoesOn mapp_at_100_percent c keeps m le u =
      (act_mapp_at_100_percent c, refl, goes_mapp_at_100_percent c m (omega arith))
  act-GoesOn case_verified_and_learned c keeps m le u =
      (act_case_verified_and_learned c, refl, goes_verified c m (omega arith))
  act-GoesOn is_any_case_hypo_correct c keeps m le u =
      (act_is_any_case_hypo_correct c, refl, goes_any_hypo c m (omega arith))
  act-GoesOn is_mapp_hypo_correct c keeps m le u =
      (act_is_mapp_hypo_correct c, refl, goes_mapp_hypo c m (omega arith))
  act-GoesOn is_fault_fixed c keeps m le u =
      (act_is_fault_fixed c, refl, goes_fault_fixed c m (omega arith))
  act-GoesOn user_verify_correct_hypo_by_choosing c keeps m le u = goes_choosing c m le

  IsReady-regen :
      {hs : List ℕ} (c : Case)
      → KeepsBest evaluate refresh hs
      → IsFound hs c
      → (c' : Case) × (regen_gui_fields evaluate refresh c ≡ some c') × IsReady hs c'
  unfolding regen_gui_fields
  IsReady-regen {hs} c keeps (same, some_hypo, best, verified) =
      let m : IsFound hs c = (same, some_hypo, best, verified) in
      let known = subst (λ l. Knows l c.beliefs) same best in
      let fresh =
        subst (λ l. Knows l (refresh c.beliefs)) (sym same) (keeps.refreshed c.beliefs known) in
      let delete =
        IsReady-prompt {hs = hs} should_this_case_be_deleted 2 c m (omega arith) refl refl in
      let updated : Case = record c { beliefs = refresh c.beliefs } in
      elim (Bool-cases c.rule_has_diagnostics) [
        | inr none_there ↦ (_, rw (regen_gui_fields, none_there) refl, delete)
        | inl diagnosed ↦ elim (Bool-cases c.case_verified_and_learned) [
          | inl learned ↦
              let listed = verified learned in
              (
                _,
                rw (regen_gui_fields, diagnosed, learned, listed) refl,
                IsReady-prompt {hs = hs} is_fault_fixed 3 c m (omega arith) refl refl,
              )
          | inr unlearned ↦ elim (Bool-cases c.case_spent_kbase) [
            | inl spent ↦ (
              _,
              rw (regen_gui_fields, diagnosed, unlearned, spent) refl,
              IsReady-prompt {hs = hs} case_spent_out 3 c m (omega arith) refl refl,
            )
            | inr unspent ↦ elim (Bool-cases c.case_busts_kbase) [
              | inl busts ↦
                  (_, rw (regen_gui_fields, diagnosed, unlearned, unspent, busts) refl, delete)
              | inr holds ↦ (
                _,
                rw (regen_gui_fields, diagnosed, unlearned, unspent, holds) refl,
                IsReady-prompt {hs = hs} top_menu_case_in_process 4 updated
                    (same, some_hypo, fresh, verified) (omega arith) refl refl,
              )
            ]
          ]
        ]
      ]

  serve_end :
      (c : Case) (reply : AoaReply)
      → ends_case reply ≡ true
      → serve_reply evaluate refresh c reply ≡ some c
  unfolding serve_reply
  serve_end c action_none e = absurd (true≢false (sym e))
  serve_end c action_case_all_evids_spent_none e = absurd (true≢false (sym e))
  serve_end c action_case_evid_skipped_roll_queue e = absurd (true≢false (sym e))
  serve_end c action_case_idled_by_user_regen_gui e = absurd (true≢false (sym e))
  serve_end c action_case_soln_verified_unmask_rule e = absurd (true≢false (sym e))
  serve_end c action_kit_case_dropped_destroy_and_tell_gui e = refl
  serve_end c action_kit_case_verified_and_learned_fault_fixed_destroy_and_tell_gui e = refl
  serve_end c action_kit_answer_not_allowed_tell_gui e = absurd (true≢false (sym e))
  serve_end c action_kit_case_user_access_clash e = absurd (true≢false (sym e))

  serve-IsReady :
      {hs : List ℕ} (c : Case) (reply : AoaReply)
      → KeepsBest evaluate refresh hs
      → IsReady hs c
      → (c' : Case) × (serve_reply evaluate refresh c reply ≡ some c') × IsReady hs c'
  unfolding serve_reply
  serve-IsReady c action_none keeps r = (c, refl, r)
  serve-IsReady c action_case_all_evids_spent_none keeps r = (c, refl, r)
  serve-IsReady c action_case_evid_skipped_roll_queue keeps r = (
    record c { evids_unevaluated = c.evids_unevaluated ++ c.uai_evid_up ∷ [] },
    refl,
    record {
      waiting = r.waiting;
      low = r.low;
      high = r.high;
      found = r.found;
      unspent = r.unspent;
    },
  )
  serve-IsReady c action_case_idled_by_user_regen_gui keeps r = IsReady-regen c keeps r.found
  serve-IsReady c action_case_soln_verified_unmask_rule keeps r = (c, refl, r)
  serve-IsReady c action_kit_case_dropped_destroy_and_tell_gui keeps r = (c, refl, r)
  serve-IsReady c action_kit_case_verified_and_learned_fault_fixed_destroy_and_tell_gui keeps r =
      (c, refl, r)
  serve-IsReady c action_kit_answer_not_allowed_tell_gui keeps r = (c, refl, r)
  serve-IsReady c action_kit_case_user_access_clash keeps r = (c, refl, r)

  IsReady-serve :
      {hs : List ℕ} (c : Case) (reply : AoaReply)
      → KeepsBest evaluate refresh hs
      → GoesOn hs (c, reply)
      → (c' : Case) × (serve_reply evaluate refresh c reply ≡ some c')
        × ((ends_case reply ≡ true) ⊎ IsReady hs c')
  unfolding serve_reply GoesOn
  IsReady-serve c reply keeps (inl ends) = (c, serve_end c reply ends, inl ends)
  IsReady-serve c reply keeps (inr (inl (idled, m))) =
      let (c', regens, r) = IsReady-regen c keeps m in
      (c', ap (serve_reply evaluate refresh c) idled ∙ regens, inr r)
  IsReady-serve c reply keeps (inr (inr r)) =
      let (c', serves, r') = serve-IsReady c reply keeps r in (c', serves, inr r')

  check_refused :
      (given : ℕ) (c : Case)
      → (ltb given c.answer_min || ltb c.answer_max given) ≡ true
      → check_answer_valid_then_set evaluate refresh given c
        ≡ some (c, action_kit_answer_not_allowed_tell_gui)
  unfolding check_answer_valid_then_set
  check_refused given c h = rw h

  check_allowed :
      (given : ℕ) (c c' c'' : Case) (reply : AoaReply)
      → (ltb given c.answer_min || ltb c.answer_max given) ≡ false
      → c.waiting_on_user_to_answer ≡ true
      → act_as evaluate refresh c.handler
          (record c { answer = given; waiting_on_user_to_answer = false })
        ≡ some (c', reply)
      → serve_reply evaluate refresh c' reply ≡ some c''
      → check_answer_valid_then_set evaluate refresh given c ≡ some (c'', reply)
  unfolding check_answer_valid_then_set act_on_answer
  check_allowed given c c' c'' reply h waits acts serves =
      rw (check_answer_valid_then_set, h, waits, acts, serves)

  check_fails :
      (given : ℕ) (c : Case)
      → (ltb given c.answer_min || ltb c.answer_max given) ≡ false
      → c.waiting_on_user_to_answer ≡ true
      → act_as evaluate refresh c.handler
          (record c { answer = given; waiting_on_user_to_answer = false })
        ≡ none
      → check_answer_valid_then_set evaluate refresh given c ≡ none
  unfolding check_answer_valid_then_set act_on_answer
  check_fails given c h waits fails = rw (check_answer_valid_then_set, h, waits, fails) refl

  in_range : (given low high : ℕ) → (ltb given low || ltb high given) ≡ false → given ≤ high
  in_range given low high h = ground arith

  -- An answer that a ready case is given, in the range of its options or not, never fails, where the
  -- beliefs, whose weighing is a parameter, always hold one of its hypotheses as the best: unless the reply has the kit destroy the case, the
  -- case is ready for a next answer, with the same hypotheses.
  pub check_answer-IsReady :
      (given : ℕ) (hs : List ℕ) (c : Case)
      → KeepsBest evaluate refresh hs
      → IsReady hs c
      → (c' : Case) × (reply : AoaReply) × (check_answer_valid_then_set evaluate refresh given c
          ≡ some (c', reply))
        × ((ends_case reply ≡ true) ⊎ IsReady hs c')
  check_answer-IsReady given hs c keeps r =
      elim (Bool-cases (ltb given c.answer_min || ltb c.answer_max given)) [
        | inl refused ↦
            (c, action_kit_answer_not_allowed_tell_gui, check_refused given c refused, inr r)
        | inr allowed ↦
            let c0 = record c { answer = given; waiting_on_user_to_answer = false } in
            let le = in_range given c.answer_min c.answer_max allowed in
            let ((c', reply), acts, on) =
              act-GoesOn {hs = hs} c.handler c0 keeps r.found (omega (arith, r.high)) r.unspent in
            let (c'', serves, next) = IsReady-serve c' reply keeps on in
            (c'', reply, check_allowed given c c' c'' reply allowed r.waiting acts serves, next)
      ]

  -- The answers of a user, until the kit destroys the case.
  abbrev pub run_answers : List ℕ → Case → Option (Case × Bool)
  run_answers [] c = some (c, false)
  run_answers (a ∷ as') c = elim (check_answer_valid_then_set evaluate refresh a c) [
    | none ↦ none
    | some (c', reply) ↦ if ends_case reply then some (c', true) else run_answers as' c'
  ]

  run-IsReady :
      (hs as' : List ℕ) (c : Case)
      → KeepsBest evaluate refresh hs
      → IsReady hs c
      → (c' : Case) × (ended : Bool) × (run_answers as' c ≡ some (c', ended))
        × ((ended ≡ true) ⊎ IsReady hs c')
  run-IsReady hs [] c keeps r = (c, false, refl, inr r)
  run-IsReady hs (a ∷ as') c keeps r =
      let (c', reply, e, on) = check_answer-IsReady a hs c keeps r in
      elim (Bool-cases (ends_case reply)) [
        | inl ends ↦ (c', true, rw (run_answers, e, ends), inl refl)
        | inr stays ↦ elim on [
          | inl ends ↦ absurd (true≢false (sym ends ∙ stays))
          | inr r' ↦
              let (c'', ended, run, last) = run-IsReady hs as' c' keeps r' in
              (c'', ended, rw (run_answers, e, stays) run, last)
        ]
      ]

  IsReady-new :
      (hs evids : List ℕ) (beliefs : Beliefs) (diagnostics : Bool)
      → 1 ≤ length hs
      → Knows hs beliefs
      → IsReady hs (new_case hs evids beliefs diagnostics)
  unfolding new_case
  IsReady-new hs evids beliefs diagnostics m best = record {
    waiting = refl;
    low = refl;
    high = refl;
    found = (refl, m, best, λ e. absurd (true≢false (sym e)));
    unspent = λ asks. refl;
  }

  -- Whatever answers a user gives to a new case that has hypotheses, of which one is believed the best at
  -- first and after each answer, none of them fails, the weighing of the beliefs left aside, which is a
  -- parameter; and unless one ended the case, it waits for the next with the options of its prompt.
  pub run_answers-IsReady :
      (given hs evids : List ℕ) (beliefs : Beliefs) (diagnostics : Bool)
      → 1 ≤ length hs
      → Knows hs beliefs
      → KeepsBest evaluate refresh hs
      → (c : Case) × (ended : Bool) × (run_answers given (new_case hs evids beliefs diagnostics)
          ≡ some (c, ended))
        × ((ended ≡ true) ⊎ IsReady hs c)
  run_answers-IsReady given hs evids beliefs diagnostics m best keeps =
      run-IsReady hs given (new_case hs evids beliefs diagnostics) keeps
        (IsReady-new hs evids beliefs diagnostics m best)

  after_evidence_keeps :
      (c : Case)
      → ((ask_after_evidence c).evids_unevaluated ≡ c.evids_unevaluated)
        × ((ask_after_evidence c).case_spent_kbase ≡ c.case_spent_kbase)
        × ((ask_after_evidence c).uai_evid_up ≡ c.uai_evid_up)
  unfolding ask_after_evidence ask set_options
  after_evidence_keeps c = ground arith

  evaluate_unknown :
      (c : Case)
      → c.answer ≡ 2
      → c.case_spent_kbase ≡ false
      → act_evaluate_prompted_evidence_query evaluate refresh c ≡ (
        ask_after_evidence (record c {
          case_busts_kbase = c.beliefs.num_hypos_alive == 0;
          case_spent_kbase = is_empty c.evids_unevaluated;
        }),
        action_case_evid_skipped_roll_queue,
      )
  unfolding act_evaluate_prompted_evidence_query
  evaluate_unknown c two unspent = rw (act_evaluate_prompted_evidence_query, unspent, two)

  two_allowed : (low high : ℕ) → low ≡ 0 → suc high ≡ 3 → (ltb 2 low || ltb high 2) ≡ false
  two_allowed low high l h = ground arith

  -- The last evidence, when the user does not know it, goes back to the queue, and yet the case counts
  -- as spent.
  pub check_answer-forgets :
      (hs : List ℕ) (c : Case)
      → c.handler ≡ evaluate_prompted_evidence_query
      → IsReady hs c
      → c.evids_unevaluated ≡ []
      → (c' : Case) × (check_answer_valid_then_set evaluate refresh 2 c
          ≡ some (c', action_case_evid_skipped_roll_queue))
        × (c'.evids_unevaluated ≡ c.uai_evid_up ∷ [])
        × (c'.case_spent_kbase ≡ true)
  unfolding act_as serve_reply is_empty
  check_answer-forgets hs c h r last =
      let c0 = record c { answer = 2; waiting_on_user_to_answer = false } in
      let c1 = record c0 {
        case_busts_kbase = c0.beliefs.num_hypos_alive == 0;
        case_spent_kbase = is_empty c0.evids_unevaluated;
      } in
      let (evids, spent, up) = after_evidence_keeps c1 in
      let unspent = r.unspent (ap asks_evidence h) in
      let acts : act_as evaluate refresh c.handler c0
          ≡ some (ask_after_evidence c1, action_case_evid_skipped_roll_queue) =
        ap (λ k. act_as evaluate refresh k c0) h ∙ ap some (evaluate_unknown c0 refl unspent) in
      let asked : Case = ask_after_evidence c1 in
      let queued : Case = record asked {
        evids_unevaluated = asked.evids_unevaluated ++ asked.uai_evid_up ∷ [];
      } in
      (
        queued,
        check_allowed 2 c (ask_after_evidence c1) queued action_case_evid_skipped_roll_queue
            (two_allowed c.answer_min c.answer_max r.low
              (r.high ∙ ap (λ k. options_of k (length c.hypos)) h))
            r.waiting acts refl,
        ap (λ l. l ++ (ask_after_evidence c1).uai_evid_up ∷ []) (evids ∙ last)
            ∙ ap (λ u. u ∷ []) up,
        spent ∙ ap is_empty last,
      )

-- A case without hypotheses that asks whether any of its hypotheses is correct takes the answer yes all the
-- same, and then asks the user to choose among no options: the answer 0, the only one in range, reads past
-- the end of the tally, and each other is refused.
pub check_answer-no_hypotheses :
    (evaluate : ℕ → ℕ → Beliefs → Beliefs) (refresh : Beliefs → Beliefs) (given : ℕ) (c : Case)
    → c.handler ≡ is_any_case_hypo_correct
    → c.hypos ≡ []
    → c.waiting_on_user_to_answer ≡ true
    → c.answer_min ≡ 0
    → c.answer_max ≡ 2
    → (c' : Case) × (check_answer_valid_then_set evaluate refresh 1 c ≡ some (c', action_none))
      × (c'.num_options ≡ 0)
      × (check_answer_valid_then_set evaluate refresh given c'
          ≡ (if given == 0 then none else some (c', action_kit_answer_not_allowed_tell_gui)))
unfolding act_as act_is_any_case_hypo_correct act_user_verify_correct_hypo_by_choosing ask
    set_options serve_reply
check_answer-no_hypotheses evaluate refresh given c handler no_hypos waits low high =
    let c0 = record c { answer = 1; waiting_on_user_to_answer = false } in
    let c' : Case = ask user_verify_correct_hypo_by_choosing (length c.hypos) c0 in
    let acts : act_as evaluate refresh c.handler c0 ≡ some (c', action_none) =
      ap (λ h. act_as evaluate refresh h c0) handler in
    let none_long : length c.hypos ≡ 0 = ap length no_hypos in
    let top : c'.answer_max ≡ 0 = ground (arith, none_long) in
    (
      c',
      check_allowed evaluate refresh 1 c c' c' action_none (ground (arith, low, high)) waits acts
          refl,
      none_long,
      elim (Bool-cases (given == 0)) [
        | inl zero ↦
            let missing : get_elem? c.hypos given ≡ none = ap (λ l. get_elem? l given) no_hypos in
            rw zero (
              check_fails evaluate refresh given c' (ground (arith, top, zero)) refl
                (rw (act_user_verify_correct_hypo_by_choosing, missing) refl))
        | inr other ↦
            rw other (check_refused evaluate refresh given c' (ground (arith, top, other)))
      ],
    )
