-- ===== src/Kit/Invariant.antt =====
-- libEA/rule.cpp and case.cpp: the rules of a `CRuleKit` against the cases of its `CCaseKit`, over any
-- history of cycles, answers and knobs.
use zandr_ea.Prelude.{ℕ, ◌≡◌, sym, ◌∙◌, Bool, false, List, some, arith, length, has_key}
use zandr_ea.Types.{GuiReply}
use zandr_ea.Rule.{RuleInput}
use zandr_ea.RuleKit.{Row}
use zandr_ea.Dialogue.{Case, Beliefs}
use zandr_ea.CaseKit.{
  CaseKit, HeldCase, new_case_kit, answer_case_prompt, rank_cases_on_cost_not_age,
}
use zandr_ea.Kit.{RuleKit, with_rows, cycle_kit, idle_all_rules_not_in_case_mode}
use zandr_ea.Kit.Steps.{in_case, in_case-idle_rows}
use zandr_ea.Kit.Cases.{IsOneCaseEach, one_each_answer, one_each_cycle}

-- What happens to a kit: a cycle, in which each rule has its inputs and a new case gets a new key; an
-- answer; the two knobs.
module _ (evaluate : ℕ → ℕ → Beliefs → Beliefs) (refresh : Beliefs → Beliefs)
    (costs_more : HeldCase → HeldCase → Bool) where
  pub data KitStep : RuleKit × CaseKit → RuleKit × CaseKit → Type 0 where
    cycles :
        (key now : ℕ) (case_of : ℕ → Case) (inputs : List RuleInput) (kit : RuleKit) (k : CaseKit)
        (s' : RuleKit × CaseKit)
        → length inputs ≡ length kit.rain.rows
        → has_key key k.cases_by_key ≡ false
        → cycle_kit costs_more key now case_of inputs (kit, k) ≡ some s'
        → KitStep (kit, k) s'
    answers :
        (key option : ℕ) (kit : RuleKit) (k k' : CaseKit) (rows : List Row) (reply : GuiReply)
        → answer_case_prompt evaluate refresh key option (k, kit.rain.rows)
          ≡ some ((k', rows), reply)
        → KitStep (kit, k) (with_rows rows kit, k')
    idles :
        (wanted : Bool) (kit : RuleKit) (k : CaseKit)
        → KitStep (kit, k) ((idle_all_rules_not_in_case_mode wanted kit).0, k)
    ranks :
        (by_cost : Bool) (kit : RuleKit) (k : CaseKit)
        → KitStep (kit, k) (kit, (rank_cases_on_cost_not_age by_cost k).0)

  pub data KitReaches (s : RuleKit × CaseKit) : RuleKit × CaseKit → Type 0 where
    here : KitReaches s s
    later : (t u : RuleKit × CaseKit) → KitReaches s t → KitStep t u → KitReaches s u

module _ (evaluate : ℕ → ℕ → Beliefs → Beliefs) (refresh : Beliefs → Beliefs)
    (costs_more : HeldCase → HeldCase → Bool) where
  one_each_step :
      (s t : RuleKit × CaseKit)
      → KitStep evaluate refresh costs_more s t
      → IsOneCaseEach s.0.rain.rows s.1
      → IsOneCaseEach t.0.rain.rows t.1
  unfolding idle_all_rules_not_in_case_mode rank_cases_on_cost_not_age
  one_each_step _ _ (cycles key now case_of inputs kit k s' l absent e) inv =
      one_each_cycle costs_more key now case_of inputs kit k s' l absent e inv
  one_each_step _ _ (answers key option kit k k' rows reply e) inv =
      one_each_answer evaluate refresh key option kit.rain.rows rows k k' reply e inv
  one_each_step _ _ (idles wanted kit k) inv = record {
    each = λ u. inv.each u ∙ sym (in_case-idle_rows u wanted kit.rain.rows);
    differ = inv.differ;
    bound = inv.bound;
  }
  one_each_step _ _ (ranks by_cost kit k) inv = record {
    each = inv.each;
    differ = inv.differ;
    bound = inv.bound;
  }

  one_each_reached :
      (s t : RuleKit × CaseKit)
      → KitReaches evaluate refresh costs_more s t
      → IsOneCaseEach s.0.rain.rows s.1
      → IsOneCaseEach t.0.rain.rows t.1
  one_each_reached s _ here inv = inv
  one_each_reached s _ (later t u p q) inv = one_each_step t u q (one_each_reached s t p inv)

  -- From a kit without cases and with no rule in case mode on, after any cycles, in which each rule
  -- has its inputs and a new case gets a new key, answers and settings of the two knobs, each rule in
  -- case mode has one case and each other rule has none, no two cases have the same key, and at most
  -- ten cases are out.
  pub KitReaches-IsOneCaseEach :
      (kit : RuleKit) (t : RuleKit × CaseKit)
      → ((u : ℕ) → in_case u kit.rain.rows ≡ 0)
      → KitReaches evaluate refresh costs_more (kit, new_case_kit) t
      → IsOneCaseEach t.0.rain.rows t.1
  KitReaches-IsOneCaseEach kit t idle p =
      one_each_reached (kit, new_case_kit) t p
        (record { each = λ u. sym (idle u); differ = tt; bound = omega arith })
