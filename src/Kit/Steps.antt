-- ===== src/Kit/Steps.antt =====
-- libEA/rule.cpp and rainfall.cpp: which rules of a kit are in case mode, and how the operations on
-- the kit's rules change it.
use zandr_ea.Prelude.{
  ℕ, ◌≡◌, refl, ap, ◌∙◌, Bool, true, false, not, List, [], ◌∷◌, some, ◌==◌, if◌then◌else◌, to_int,
  arith, Option-cases, inl, inr, length,
}
use zandr_ea.Rule.{
  Rule, RuleInput, cycle_and_say_bindex, pull_validity, set_case_mode_to, set_idle_mode_to,
  save_antecedent_snapshots, destroy_snapshot_set, is_in_auto_mode,
}
use zandr_ea.RuleKit.{Row, uai_of, enable_trap}
use zandr_ea.RuleKit.Cycle.{
  RainRuleKit, snap_fail, save_rule_snapshot, cycle_row, cycle_rows, pair_up, rows_of, wipe_rows,
  wipe_snapshots, find_row, count_to_trap, sum_pinned, cycle_rules_in_kit,
}
use zandr_ea.RuleKit.Cycle.Laws.{log_result-cases, cycle_row-turn}
use zandr_ea.CaseKit.{set_rule}
use zandr_ea.Kit.{idle_rows}

-- 1 when the rule of a number is in case mode, else 0.
abbrev pub in_case : ℕ → List Row → ℕ
in_case uai [] = 0
in_case uai (row ∷ rows) =
    if uai_of row == uai then to_int (not (row.rule.case_mode_offset == 0)) else in_case uai rows

abbrev pub KeepsMode : Rule → Rule → Type 0
KeepsMode r s = (s.rule_uai ≡ r.rule_uai) × (s.case_mode_offset ≡ r.case_mode_offset)

cycle-KeepsMode :
    (i : RuleInput) (r r' : Rule) (bindex : ℕ)
    → cycle_and_say_bindex i r ≡ some (r', bindex)
    → KeepsMode r r'
unfolding cycle_and_say_bindex pull_validity
cycle-KeepsMode i r r' bindex e = ground arith

snap_fail-KeepsMode :
    (log : List ℕ) (r r' : Rule) (k k' : RainRuleKit)
    → snap_fail log r k ≡ some (r', k')
    → KeepsMode r r'
unfolding snap_fail save_rule_snapshot save_antecedent_snapshots
snap_fail-KeepsMode log r r' k k' e = ground arith

cycle_row-KeepsMode :
    (i : RuleInput) (row row' : Row) (b : ℕ) (k k' : RainRuleKit)
    → cycle_row i row k ≡ some ((row', b), k')
    → KeepsMode row.rule row'.rule
cycle_row-KeepsMode i row row' b k k' e =
    let (r, result, c, logged) = cycle_row-turn i row ((row', b), k') k e in
    let (u, m) = cycle-KeepsMode i row.rule r result c in
    let (same, _, cases) = log_result-cases result b r row.log row' k k' logged in
    elim cases [
      | inl (_, snapped) ↦
          let (u', m') = snap_fail-KeepsMode _ r row'.rule k k' snapped in (u' ∙ u, m' ∙ m)
      | inr (_, kept, _) ↦
          (ap (λ (s : Rule). s.rule_uai) kept ∙ u, ap (λ (s : Rule). s.case_mode_offset) kept ∙ m)
    ]

cycle_rows-cons :
    (i : RuleInput) (row : Row) (more : List (RuleInput × Row)) (k k'' : RainRuleKit)
    (results : List (Row × ℕ))
    → cycle_rows ((i, row) ∷ more) k ≡ some (results, k'')
    → (row' : Row) × (b : ℕ) × (rest : List (Row × ℕ)) × (k' : RainRuleKit) × (cycle_row i row k
        ≡ some ((row', b), k'))
      × (cycle_rows more k' ≡ some (rest, k''))
      × (results ≡ (row', b) ∷ rest)
unfolding cycle_rows
cycle_rows-cons i row more k k'' results e = elim (Option-cases (cycle_row i row k)) [
  | inl missing ↦ absurd (ground arith)
  | inr (((row', b), k'), found) ↦ elim (Option-cases (cycle_rows more k')) [
    | inl missing ↦ absurd (ground arith)
    | inr ((rest, k3), others) ↦ (row', b, rest, k', found, ground arith, ground arith)
  ]
]

in_case-cycle_rows :
    (u : ℕ) (is : List RuleInput) (rows : List Row) (k k' : RainRuleKit) (results : List (Row × ℕ))
    → length is ≡ length rows
    → cycle_rows (pair_up is rows) k ≡ some (results, k')
    → in_case u (rows_of results) ≡ in_case u rows
unfolding pair_up rows_of cycle_rows
in_case-cycle_rows u [] [] k k' results l e = ground arith
in_case-cycle_rows u [] (row ∷ rows) k k' results l e = absurd (omega arith)
in_case-cycle_rows u (i ∷ is) [] k k' results l e = absurd (omega arith)
in_case-cycle_rows u (i ∷ is) (row ∷ rows) k k' results l e =
    let (row', b, rest, k1, c, others, eq) =
      cycle_rows-cons i row (pair_up is rows) k k' results e in
    let (same, mode) = cycle_row-KeepsMode i row row' b k k1 c in
    let more = in_case-cycle_rows u is rows k1 k' rest (omega arith) others in
    ap (λ xs. in_case u (rows_of xs)) eq ∙ rw (same, mode, more)

in_case-wipe_rows : (u uai : ℕ) (rows : List Row) → in_case u (wipe_rows uai rows) ≡ in_case u rows
unfolding wipe_rows destroy_snapshot_set
in_case-wipe_rows u uai [] = refl
in_case-wipe_rows u uai (row ∷ rows) = ground (arith, in_case-wipe_rows u uai rows)

in_case-wipe_snapshots :
    (u uai : ℕ) (k : RainRuleKit) → in_case u (wipe_snapshots uai k).rows ≡ in_case u k.rows
unfolding wipe_snapshots
in_case-wipe_snapshots u uai k = ground (arith, in_case-wipe_rows u uai k.rows)

in_case-count_to_trap :
    (u trapped : ℕ) (k k' : RainRuleKit)
    → count_to_trap k ≡ some (k', trapped)
    → in_case u k'.rows ≡ in_case u k.rows
unfolding count_to_trap
in_case-count_to_trap u trapped k k' e =
    elim (Option-cases (enable_trap k.trap_span_in_cycles k.rows)) [
      | inl missing ↦ ground arith
      | inr (result, found) ↦
          let wiped = in_case-wipe_snapshots u result.uai_of_rule_to_wipe_of_snapshots k in
          ground arith
    ]

pub in_case-cycle_rules_in_kit :
    (u : ℕ) (is : List RuleInput) (k k' : RainRuleKit) (trapped : ℕ) (pinned : Bool)
    → length is ≡ length k.rows
    → cycle_rules_in_kit is k ≡ some (k', (trapped, pinned))
    → in_case u k'.rows ≡ in_case u k.rows
unfolding cycle_rules_in_kit
in_case-cycle_rules_in_kit u is k k' trapped pinned l e =
    elim (Option-cases (cycle_rows (pair_up is k.rows) k)) [
      | inl missing ↦ absurd (ground arith)
      | inr ((results, k1), cycled) ↦
          elim (Option-cases (sum_pinned results k.rule_pinned_indexed_as_logs_iterate)) [
            | inl missing ↦ absurd (ground arith)
            | inr (n, found) ↦
                elim (Option-cases (count_to_trap (record k1 { rows = rows_of results }))) [
                  | inl missing ↦ absurd (ground arith)
                  | inr ((k2, t), counted) ↦
                      let same : k' ≡ k2 = ground arith in
                      ap (λ (x : RainRuleKit). in_case u x.rows) same
                      ∙ in_case-count_to_trap u t (record k1 { rows = rows_of results }) k2 counted
                      ∙ in_case-cycle_rows u is k.rows k k1 results l cycled
                ]
          ]
    ]

pub in_case-idle_rows :
    (u : ℕ) (wanted : Bool) (rows : List Row) → in_case u (idle_rows wanted rows) ≡ in_case u rows
unfolding set_idle_mode_to
in_case-idle_rows u wanted [] = refl
in_case-idle_rows u wanted (row ∷ rows) = ground (arith, in_case-idle_rows u wanted rows)

pub in_case-open :
    (u uai : ℕ) (row : Row) (rows : List Row)
    → find_row uai rows ≡ some row
    → is_in_auto_mode row.rule ≡ true
    → (in_case uai rows ≡ 0)
      × (in_case u (set_rule uai (set_case_mode_to true) rows)
          ≡ (if uai == u then 1 else in_case u rows))
unfolding find_row set_rule set_case_mode_to is_in_auto_mode
in_case-open u uai row [] found auto = absurd (ground arith)
in_case-open u uai row (r ∷ rows) found auto = ground (arith, in_case-open u uai row rows)

pub in_case-close :
    (u uai : ℕ) (rows : List Row)
    → in_case u (set_rule uai (set_case_mode_to false) rows)
      ≡ (if uai == u then 0 else in_case u rows)
unfolding set_rule set_case_mode_to
in_case-close u uai [] = ground arith
in_case-close u uai (r ∷ rows) = ground (arith, in_case-close u uai rows)
