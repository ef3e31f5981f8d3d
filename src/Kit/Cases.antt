-- ===== src/Kit/Cases.antt =====
-- libEA/rule.cpp and case.cpp: the rules of a `CRuleKit` against the cases of its `CCaseKit`, for each
-- of their operations.
use zandr_ea.Prelude.{
  ℕ, ◌+◌, ◌≤◌, ◌≡◌, refl, sym, ap, ◌∙◌, Bool, true, false, List, [], ◌∷◌, some, ◌==◌, if◌then◌else◌,
  to_int, arith, Option-cases, Bool-cases, ==_iff, inl, inr, length, ◌++◌, has_key, find, overwrite,
  length-erase, ltb,
}
use zandr_ea.Types.{GuiReply}
use zandr_ea.Rule.{RuleInput, is_in_auto_mode}
use zandr_ea.RuleKit.{Row}
use zandr_ea.RuleKit.Cycle.{find_row, cycle_rules_in_kit}
use zandr_ea.Dialogue.{Case, Beliefs, check_answer_valid_then_set}
use zandr_ea.CaseKit.{
  CaseKit, HeldCase, casekit_num_cases_out_max, create_and_own_case, destroy_case,
  answer_case_prompt, regen_case_rankings, destroys_case,
}
use zandr_ea.Kit.{RuleKit, open_case, cycle_kit}
use zandr_ea.Kit.Steps.{in_case, in_case-cycle_rules_in_kit, in_case-open, in_case-close}
use zandr_ea.CaseKit.Held.{
  cases_on, KeysDiffer, cases_on-emplace, cases_on-erase, KeysDiffer-erase, cases_on-overwrite,
  KeysDiffer-overwrite, length-overwrite, KeysDiffer-emplace,
}

-- Each rule in case mode has one case, and each other rule none; at most ten cases are out.
pub record IsOneCaseEach (rows : List Row) (k : CaseKit) : Type 0 where
  pub each : (u : ℕ) → cases_on u k.cases_by_key ≡ in_case u rows
  pub differ : KeysDiffer k.cases_by_key
  pub bound : length k.cases_by_key ≤ casekit_num_cases_out_max

opens_one :
    (f : ℕ → ℕ) (uai u : ℕ) → f uai ≡ 0 → to_int (uai == u) + f u ≡ (if uai == u then 1 else f u)
opens_one f uai u h = elim (Bool-cases (uai == u)) [
  | inl same ↦ rw (same, sym (ap f ((==_iff uai u).0 same)), h)
  | inr other ↦ rw other (omega arith)
]

at_most_one : (u : ℕ) (rows : List Row) → in_case u rows ≤ 1
at_most_one u [] = omega arith
at_most_one u (row ∷ rows) = ground (arith, at_most_one u rows)

module _ (costs_more : HeldCase → HeldCase → Bool) where
  one_each_open :
      (key now : ℕ) (c : Case) (uai : ℕ) (row : Row) (rows : List Row) (k : CaseKit)
      → has_key key k.cases_by_key ≡ false
      → find_row uai rows ≡ some row
      → is_in_auto_mode row.rule ≡ true
      → IsOneCaseEach rows k
      → let ((k', rows'), reply) = create_and_own_case costs_more key now c uai (k, rows) in
        IsOneCaseEach rows' k'
  unfolding create_and_own_case regen_case_rankings
  one_each_open key now c uai row rows k absent found auto inv =
      elim (Bool-cases (ltb (length k.cases_by_key) casekit_num_cases_out_max)) [
        | inl room ↦
            let held : HeldCase = record {
              dialogue = c;
              case_rule_uai = uai;
              when_trapped = now;
            } in
            let (differ, longer) = KeysDiffer-emplace key held k.cases_by_key absent inv.differ in
            rw (create_and_own_case, room)
              (record {
                each = λ u.
                    let (idle, set) = in_case-open u uai row rows found auto in
                    cases_on-emplace u key held k.cases_by_key absent
                    ∙ ap (λ n. to_int (uai == u) + n) (inv.each u)
                    ∙ opens_one (λ v. in_case v rows) uai u idle
                    ∙ sym set;
                differ = differ;
                bound = ground (arith, room);
              })
        | inr full ↦ rw (create_and_own_case, full) inv
      ]

one_each_destroy :
    (key : ℕ) (rows : List Row) (k : CaseKit)
    → IsOneCaseEach rows k
    → let ((k', rows'), reply) = destroy_case key (k, rows) in IsOneCaseEach rows' k'
unfolding destroy_case
one_each_destroy key rows k inv = elim (Option-cases (find key k.cases_by_key)) [
  | inl missing ↦ rw (destroy_case, missing) inv
  | inr (held, found) ↦
      rw (destroy_case, found)
        (record {
          each = λ u.
              let before = cases_on-erase u key held k.cases_by_key inv.differ found in
              let now = in_case-close u held.case_rule_uai rows in
              ground (arith, inv.each u, at_most_one u rows);
          differ = KeysDiffer-erase key k.cases_by_key inv.differ;
          bound = omega (arith, inv.bound, length-erase key k.cases_by_key);
        })
]

one_each_overwrite :
    (key : ℕ) (rows : List Row) (k : CaseKit) (held : HeldCase) (c : Case)
    → find key k.cases_by_key ≡ some held
    → IsOneCaseEach rows k
    → IsOneCaseEach rows
        (record k { cases_by_key = overwrite key (record held { dialogue = c }) k.cases_by_key })
one_each_overwrite key rows k held c found inv =
    let held' : HeldCase = record held { dialogue = c } in
    record {
      each = λ u. cases_on-overwrite u key held held' k.cases_by_key found refl ∙ inv.each u;
      differ = KeysDiffer-overwrite key held held' k.cases_by_key found inv.differ;
      bound = omega (arith, inv.bound, length-overwrite key held held' k.cases_by_key found);
    }

pub one_each_answer :
    (evaluate : ℕ → ℕ → Beliefs → Beliefs) (refresh : Beliefs → Beliefs) (key option : ℕ)
    (rows rows' : List Row) (k k' : CaseKit) (reply : GuiReply)
    → answer_case_prompt evaluate refresh key option (k, rows) ≡ some ((k', rows'), reply)
    → IsOneCaseEach rows k
    → IsOneCaseEach rows' k'
unfolding answer_case_prompt
one_each_answer evaluate refresh key option rows rows' k k' reply e inv =
    elim (Option-cases (find key k.cases_by_key)) [
      | inl missing ↦
          let kept : k' ≡ k = ground arith in
          let same : rows' ≡ rows = ground arith in rw (kept, same) inv
      | inr (held, found) ↦
          elim (Option-cases (check_answer_valid_then_set evaluate refresh option held.dialogue)) [
            | inl fails ↦ absurd (ground arith)
            | inr ((c, r), acts) ↦
                let held' : HeldCase = record held { dialogue = c } in
                let k1 : CaseKit = record k { cases_by_key = overwrite key held' k.cases_by_key } in
                let inv1 = one_each_overwrite key rows k held c found inv in
                elim (Bool-cases (destroys_case r)) [
                  | inl ends ↦
                      let kept : k' ≡ (destroy_case key (k1, rows)).0.0 = ground arith in
                      let same : rows' ≡ (destroy_case key (k1, rows)).0.1 = ground arith in
                      rw (kept, same) (one_each_destroy key rows k1 inv1)
                  | inr on ↦
                      let kept : k' ≡ k1 = ground arith in
                      let same : rows' ≡ rows = ground arith in rw (kept, same) inv1
                ]
          ]
    ]

one_each_open_case :
    (costs_more : HeldCase → HeldCase → Bool) (key now : ℕ) (c : Case) (trapped : ℕ) (kit : RuleKit)
    (k : CaseKit) (s' : RuleKit × CaseKit)
    → has_key key k.cases_by_key ≡ false
    → open_case costs_more key now c trapped (kit, k) ≡ some s'
    → IsOneCaseEach kit.rain.rows k
    → IsOneCaseEach s'.0.rain.rows s'.1
unfolding open_case
one_each_open_case costs_more key now c trapped kit k (kit', k') absent e inv =
    elim (Option-cases (find_row trapped kit.rain.rows)) [
      | inl missing ↦ absurd (ground arith)
      | inr (row, found) ↦ elim (Bool-cases (is_in_auto_mode row.rule)) [
        | inl auto ↦
            let out = create_and_own_case costs_more key now c trapped (k, kit.rain.rows) in
            let kept : k' ≡ out.0.0 = ground arith in
            let same : kit'.rain.rows ≡ out.0.1 = ground arith in
            rw (kept, same)
              (one_each_open costs_more key now c trapped row kit.rain.rows k absent found auto inv)
        | inr other ↦
            let kept : k' ≡ k = ground arith in
            let same : kit'.rain.rows ≡ kit.rain.rows = ground arith in rw (kept, same) inv
      ]
    ]

pub one_each_cycle :
    (costs_more : HeldCase → HeldCase → Bool) (key now : ℕ) (case_of : ℕ → Case)
    (inputs : List RuleInput) (kit : RuleKit) (k : CaseKit) (s' : RuleKit × CaseKit)
    → length inputs ≡ length kit.rain.rows
    → has_key key k.cases_by_key ≡ false
    → cycle_kit costs_more key now case_of inputs (kit, k) ≡ some s'
    → IsOneCaseEach kit.rain.rows k
    → IsOneCaseEach s'.0.rain.rows s'.1
unfolding cycle_kit
one_each_cycle costs_more key now case_of inputs kit k (kit', k') l absent e inv =
    elim (Option-cases (cycle_rules_in_kit inputs kit.rain)) [
      | inl missing ↦ absurd (ground arith)
      | inr ((rain, (trapped, pinned)), cycled) ↦
          let kit1 : RuleKit = record kit {
            rain = rain;
            submitted = kit.submitted ++ pinned ∷ [];
          } in
          let inv1 : IsOneCaseEach rain.rows k = record {
            each = λ u.
                inv.each u
                ∙ sym (in_case-cycle_rules_in_kit u inputs kit.rain rain trapped pinned l cycled);
            differ = inv.differ;
            bound = inv.bound;
          } in
          elim (Bool-cases (trapped == 0)) [
            | inl none_trapped ↦
                let kept : k' ≡ k = ground arith in
                let same : kit'.rain.rows ≡ rain.rows = ground arith in rw (kept, same) inv1
            | inr some_trapped ↦
                let opens : open_case costs_more key now (case_of trapped) trapped (kit1, k)
                    ≡ some (kit', k') =
                  ground arith in
                one_each_open_case costs_more key now (case_of trapped) trapped kit1 k (kit', k')
                  absent opens inv1
          ]
    ]
