-- ===== src/Dialogue/Reach.antt =====
-- The prompt that each answer leads to in the dialogue of `CCase`, libEA/case.cpp.
use mathlib.Core.Bool.{true≢false}
use mathlib.Core.Option.{some-injective, none-ne-some}
use zandr_ea.Prelude.{
  has_id, zero, ◌==◌, get_elem?, Bool-cases, inl, ℕ, suc, ◌≤◌, ◌<◌, ◌≡◌, ◌⊎◌, inr, refl, sym, ◌∙◌,
  Bool, true, false, List, [], ◌∷◌, some, length, get_elem?-lt, arith,
}
use zandr_ea.Dialogue.{
  AoaReply, Handler, Beliefs, Case, action_case_idled_by_user_regen_gui,
  action_case_soln_verified_unmask_rule, action_kit_case_dropped_destroy_and_tell_gui,
  action_kit_case_verified_and_learned_fault_fixed_destroy_and_tell_gui,
  should_this_case_be_deleted, evaluate_prompted_evidence_query, case_spent_out,
  top_menu_case_in_process, mapp_at_100_percent, case_verified_and_learned,
  is_any_case_hypo_correct, is_mapp_hypo_correct, is_fault_fixed,
  user_verify_correct_hypo_by_choosing, choice_no_yes_dnk, ask, act_should_this_case_be_deleted,
  ask_after_evidence, act_case_spent_out, act_mapp_at_100_percent, ask_next_evidence,
  act_top_menu_case_in_process, act_case_verified_and_learned, learn_from_user_verifying_soln,
  ask_on, act_is_any_case_hypo_correct, act_is_mapp_hypo_correct, act_is_fault_fixed,
  act_user_verify_correct_hypo_by_choosing,
}

-- The options that a handler's answers are for.
abbrev pub options_of : Handler → ℕ → ℕ
options_of should_this_case_be_deleted n = 2
options_of evaluate_prompted_evidence_query n = 3
options_of case_spent_out n = 3
options_of top_menu_case_in_process n = 4
options_of mapp_at_100_percent n = 3
options_of case_verified_and_learned n = 3
options_of is_any_case_hypo_correct n = 3
options_of is_mapp_hypo_correct n = 3
options_of is_fault_fixed n = 3
options_of user_verify_correct_hypo_by_choosing n = n

abbrev pub asks_evidence : Handler → Bool
asks_evidence evaluate_prompted_evidence_query = true
asks_evidence h = false

-- The best hypothesis is one of the case's.
abbrev pub Knows : List ℕ → Beliefs → Type 0
Knows hypos beliefs = has_id beliefs.uai_mapp_hypo hypos ≡ true

-- What the Bayes part of a case keeps of its beliefs.
pub record KeepsBest (evaluate : ℕ → ℕ → Beliefs → Beliefs) (refresh : Beliefs → Beliefs)
    (hypos : List ℕ) : Type 0 where
  pub evaluated :
      (evid value : ℕ) (b : Beliefs) → Knows hypos b → Knows hypos (evaluate evid value b)
  pub refreshed : (b : Beliefs) → Knows hypos b → Knows hypos (refresh b)

-- A case of given hypotheses, at least one, of which the best is one; so is the one that the user has
-- verified.
abbrev pub IsFound : List ℕ → Case → Type 0
IsFound hs c =
    (c.hypos ≡ hs)
    × (1 ≤ length c.hypos)
    × Knows c.hypos c.beliefs
    × (c.case_verified_and_learned ≡ true → has_id c.uai_true_hypo c.hypos ≡ true)

-- A case of some hypotheses that waits for an answer to the prompt that it shows; while the prompt is
-- an evidence's, the case is not spent.
pub record IsReady (hs : List ℕ) (c : Case) : Type 0 where
  pub waiting : c.waiting_on_user_to_answer ≡ true
  pub low : c.answer_min ≡ 0
  pub high : suc c.answer_max ≡ options_of c.handler (length c.hypos)
  pub found : IsFound hs c
  pub unspent : asks_evidence c.handler ≡ true → c.case_spent_kbase ≡ false

-- Whether the kit destroys the case on the reply.
abbrev pub ends_case : AoaReply → Bool
ends_case action_kit_case_dropped_destroy_and_tell_gui = true
ends_case action_kit_case_verified_and_learned_fault_fixed_destroy_and_tell_gui = true
ends_case reply = false

-- A prompt has what it takes.
pub IsReady-ask :
    {hs : List ℕ} (h : Handler) (n : ℕ) (c : Case)
    → IsFound hs c
    → 1 ≤ n
    → n ≡ options_of h (length c.hypos)
    → (asks_evidence h ≡ true → c.case_spent_kbase ≡ false)
    → IsReady hs (ask h n c)
unfolding ask
IsReady-ask h n c found positive e unspent = record {
  waiting = refl;
  low = refl;
  high = ground arith;
  found = found;
  unspent = unspent;
}

-- A prompt that is not an evidence's.
pub IsReady-prompt :
    {hs : List ℕ} (h : Handler) (n : ℕ) (c : Case)
    → IsFound hs c
    → 1 ≤ n
    → n ≡ options_of h (length c.hypos)
    → asks_evidence h ≡ false
    → IsReady hs (ask h n c)
IsReady-prompt h n c found positive e other =
    IsReady-ask h n c found positive e (λ asks. absurd (true≢false (sym asks ∙ other)))

pub IsReady-after_evidence :
    {hs : List ℕ} (c : Case) → IsFound hs c → IsReady hs (ask_after_evidence c)
unfolding ask_after_evidence
IsReady-after_evidence c found =
    let spent = IsReady-prompt case_spent_out 3 c found (omega arith) refl refl in
    let full = IsReady-prompt mapp_at_100_percent 3 c found (omega arith) refl refl in
    let top = IsReady-prompt top_menu_case_in_process 4 c found (omega arith) refl refl in
    ground arith

IsReady-on : {hs : List ℕ} (c : Case) → IsFound hs c → IsReady hs (ask_on c)
unfolding ask_on
IsReady-on c found =
    let spent = IsReady-prompt case_spent_out 3 c found (omega arith) refl refl in
    let top = IsReady-prompt top_menu_case_in_process 4 c found (omega arith) refl refl in
    ground arith

IsReady-next :
    {hs : List ℕ} (es : List ℕ) (c : Case) → IsFound hs c → IsReady hs (ask_next_evidence es c)
unfolding ask_next_evidence
IsReady-next [] c found = IsReady-prompt case_spent_out 3 _ found (omega arith) refl refl
IsReady-next (e ∷ es) c found =
    IsReady-ask evaluate_prompted_evidence_query 3
      (record c { case_spent_kbase = false; uai_evid_up = e; evids_unevaluated = es }) found
      (omega arith) refl (λ _. refl)

IsFound-learned :
    {hs : List ℕ} (u : ℕ) (c : Case)
    → IsFound hs c
    → has_id u c.hypos ≡ true
    → IsFound hs (learn_from_user_verifying_soln (record c { uai_true_hypo = u }))
unfolding learn_from_user_verifying_soln
IsFound-learned u c (same, some_hypo, best, verified) listed = elim (Bool-cases (u == 0)) [
  | inl nameless ↦ rw nameless (same, some_hypo, best, λ e. listed)
  | inr named ↦ rw named (same, some_hypo, best, λ e. listed)
]

IsReady-learned :
    {hs : List ℕ} (u : ℕ) (c : Case)
    → IsFound hs c
    → has_id u c.hypos ≡ true
    → IsReady hs (
        ask is_fault_fixed choice_no_yes_dnk
          (learn_from_user_verifying_soln (record c { uai_true_hypo = u })))
IsReady-learned u c found listed =
    IsReady-prompt is_fault_fixed 3
      (learn_from_user_verifying_soln (record c { uai_true_hypo = u }))
      (IsFound-learned u c found listed) (omega arith) refl refl

-- The entry at a place is in the list.
has_id-get : (xs : List ℕ) (i u : ℕ) → get_elem? xs i ≡ some u → has_id u xs ≡ true
has_id-get [] i u e = absurd (none-ne-some u e)
has_id-get (x ∷ xs) zero u e = ground (arith, some-injective x u e)
has_id-get (x ∷ xs) (suc i) u e = ground (arith, has_id-get xs i u e)

-- After a handler: the case ends, or is idled and regenerates its prompt, or has a prompt.
unfoldable pub GoesOn : List ℕ → Case × AoaReply → Type 0
GoesOn hs (c, reply) =
    (ends_case reply ≡ true)
    ⊎ (((reply ≡ action_case_idled_by_user_regen_gui) × IsFound hs c) ⊎ IsReady hs c)

module _ {hs : List ℕ} (c : Case) (found : IsFound hs c) where
  pub goes_should_this_case_be_deleted :
      c.answer ≤ 1 → GoesOn hs (act_should_this_case_be_deleted c)
  unfolding GoesOn act_should_this_case_be_deleted
  goes_should_this_case_be_deleted le = ground arith

  pub goes_case_spent_out : c.answer ≤ 2 → GoesOn hs (act_case_spent_out c)
  unfolding GoesOn act_case_spent_out
  goes_case_spent_out le =
      let asked = IsReady-prompt is_mapp_hypo_correct 3 c found (omega arith) refl refl in
      ground arith

  pub goes_mapp_at_100_percent : c.answer ≤ 2 → GoesOn hs (act_mapp_at_100_percent c)
  unfolding GoesOn act_mapp_at_100_percent
  goes_mapp_at_100_percent le =
      let asked = IsReady-prompt is_mapp_hypo_correct 3 c found (omega arith) refl refl in
      ground arith

  pub goes_top_menu : c.answer ≤ 3 → GoesOn hs (act_top_menu_case_in_process c)
  unfolding GoesOn act_top_menu_case_in_process
  goes_top_menu le =
      let asked = IsReady-prompt is_mapp_hypo_correct 3 c found (omega arith) refl refl in
      let next = IsReady-next c.evids_unevaluated c found in ground arith

  pub goes_verified : c.answer ≤ 2 → GoesOn hs (act_case_verified_and_learned c)
  unfolding GoesOn act_case_verified_and_learned
  goes_verified le =
      let asked = IsReady-prompt is_fault_fixed 3 c found (omega arith) refl refl in ground arith

  pub goes_any_hypo : c.answer ≤ 2 → GoesOn hs (act_is_any_case_hypo_correct c)
  unfolding GoesOn act_is_any_case_hypo_correct
  goes_any_hypo le =
      let delete =
        IsReady-prompt should_this_case_be_deleted 2 (record c { case_busts_kbase = true }) found
          (omega arith) refl refl in
      let choose =
        IsReady-prompt user_verify_correct_hypo_by_choosing (length c.hypos) c found found.1 refl
          refl in
      let on = IsReady-on c found in ground arith

  pub goes_mapp_hypo : c.answer ≤ 2 → GoesOn hs (act_is_mapp_hypo_correct c)
  unfolding GoesOn act_is_mapp_hypo_correct
  goes_mapp_hypo le =
      let any = IsReady-prompt is_any_case_hypo_correct 3 c found (omega arith) refl refl in
      let learned = IsReady-learned c.beliefs.uai_mapp_hypo c found found.2 in
      let on = IsReady-on c found in ground arith

  pub goes_fault_fixed : c.answer ≤ 2 → GoesOn hs (act_is_fault_fixed c)
  unfolding GoesOn act_is_fault_fixed
  goes_fault_fixed le =
      let verified = IsReady-prompt case_verified_and_learned 3 c found (omega arith) refl refl in
      ground arith

  pub goes_choosing :
      c.answer < length c.hypos
      → (out : Case × AoaReply) × (act_user_verify_correct_hypo_by_choosing c ≡ some out)
        × GoesOn hs out
  unfolding GoesOn act_user_verify_correct_hypo_by_choosing
  goes_choosing lt =
      let (uai, at) = get_elem?-lt c.hypos c.answer lt in
      (
        (
          ask is_fault_fixed choice_no_yes_dnk
              (learn_from_user_verifying_soln (record c { uai_true_hypo = uai })),
          action_case_soln_verified_unmask_rule,
        ),
        rw (act_user_verify_correct_hypo_by_choosing, at) refl,
        inr (inr (IsReady-learned uai c found (has_id-get c.hypos c.answer uai at))),
      )
