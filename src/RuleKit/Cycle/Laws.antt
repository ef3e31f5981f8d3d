-- ===== src/RuleKit/Cycle/Laws.antt =====
-- libEA/rainfall.cpp, `CRainRuleKit`: what a cycle of a rule kit keeps, reports and takes.
use mathlib.Core.Bool.{true≢false}
use zandr_ea.Prelude.{
  ℕ, zero, suc, ◌+◌, ◌*◌, ◌≡◌, ◌⊎◌, ◌≢◌, inl, inr, ap, ◌∙◌, sym, Bool, true, false, ◌&&◌, ◌||◌, not,
  List, [], ◌∷◌, some, ◌==◌, init, get_elem?, to_int, Option-cases, arith, get_or,
}
use zandr_ea.Types.{incr_word, bindex_rule_auto_mode_fail}
use zandr_ea.Rule.{
  Rule, RuleInput, cycle_and_say_bindex, has_snapshot_set, save_antecedent_snapshots, pull_validity,
}
use zandr_ea.RuleKit.{Row}
use zandr_ea.RuleKit.Cycle.{
  RainRuleKit, log_result, cycle_row, snap_fail, save_rule_snapshot, sum_pinned, failed_in_any_mode,
}

snap_fail-lem :
    (log : List ℕ) (r r' : Rule) (k k' : RainRuleKit)
    → snap_fail log r k ≡ some (r', k')
    → (r'.holding_snapshots ≡ r.holding_snapshots)
      × (r'.snapshot_set_sgi ≡ k.sgi_for_next_snapshot_set)
      × (k'.sgi_for_next_snapshot_set ≡ incr_word k.sgi_for_next_snapshot_set)
unfolding snap_fail save_rule_snapshot save_antecedent_snapshots
snap_fail-lem log r r' k k' e = ground arith

cycle-holding :
    (i : RuleInput) (r r' : Rule) (bindex : ℕ)
    → cycle_and_say_bindex i r ≡ some (r', bindex)
    → r'.holding_snapshots ≡ r.holding_snapshots
unfolding cycle_and_say_bindex pull_validity
cycle-holding i r r' bindex e = ground arith

-- The two ways through the logging of a result.
pub log_result-cases :
    (result b : ℕ) (r : Rule) (old : List ℕ) (row' : Row) (k k' : RainRuleKit)
    → log_result result r old k ≡ some ((row', b), k')
    → (b ≡ result)
      × (row'.log ≡ result ∷ init old)
      × (((result ≡ bindex_rule_auto_mode_fail)
            × (snap_fail (result ∷ init old) r k ≡ some (row'.rule, k')))
          ⊎ (((result ≢ bindex_rule_auto_mode_fail) ⊎ (r.holding_snapshots ≡ true))
              × (row'.rule ≡ r)
              × (k' ≡ k)))
unfolding log_result has_snapshot_set
log_result-cases result b r old row' k k' e =
    elim (Option-cases (snap_fail (result ∷ init old) r k)) [
      | inl missing ↦ ground arith
      | inr ((r', k''), snapped) ↦ ground arith
    ]

pub cycle_row-turn :
    (i : RuleInput) (row : Row) (out : (Row × ℕ) × RainRuleKit) (k : RainRuleKit)
    → cycle_row i row k ≡ some out
    → (r : Rule) × (result : ℕ) × (cycle_and_say_bindex i row.rule ≡ some (r, result))
      × (log_result result r row.log k ≡ some out)
unfolding cycle_row
cycle_row-turn i row out k e = elim (Option-cases (cycle_and_say_bindex i row.rule)) [
  | inl missing ↦ absurd (ground arith)
  | inr ((r, result), found) ↦ (r, result, found, ground arith)
]

-- A rule that has failed in auto mode takes new snapshots on each such cycle, since the mark that it
-- holds a set is not set when it takes one: the number of its set moves on, and the mark stays off.
pub cycle_row-snaps_again :
    (i : RuleInput) (row row' : Row) (k k' : RainRuleKit)
    → row.rule.holding_snapshots ≡ false
    → cycle_row i row k ≡ some ((row', bindex_rule_auto_mode_fail), k')
    → (row'.rule.holding_snapshots ≡ false)
      × (row'.rule.snapshot_set_sgi ≡ k.sgi_for_next_snapshot_set)
      × (k'.sgi_for_next_snapshot_set ≡ incr_word k.sgi_for_next_snapshot_set)
cycle_row-snaps_again i row row' k k' off e =
    let (r, result, c, logged) =
      cycle_row-turn i row ((row', bindex_rule_auto_mode_fail), k') k e in
    let (same, _, cases) =
      log_result-cases result bindex_rule_auto_mode_fail r row.log row' k k' logged in
    let holding = cycle-holding i row.rule r result c in
    elim cases [
      | inl (_, snapped) ↦
          let (held, set, next) = snap_fail-lem (result ∷ init row.log) r row'.rule k k' snapped in
          (held ∙ holding ∙ off, set, next)
      | inr (inl other, _, _) ↦ absurd (other (sym same))
      | inr (inr on, _, _) ↦ absurd (true≢false (sym on ∙ holding ∙ off))
    ]

cycle_row-log :
    (i : RuleInput) (row row' : Row) (result : ℕ) (k k' : RainRuleKit)
    → cycle_row i row k ≡ some ((row', result), k')
    → row'.log ≡ result ∷ init row.log
cycle_row-log i row row' result k k' e =
    let (r, b, c, logged) = cycle_row-turn i row ((row', result), k') k e in
    let (same, log, _) = log_result-cases b result r row.log row' k k' logged in
    log ∙ ap (λ x. x ∷ init row.log) (sym same)

-- Whether a rule that is pinned to the unit's output has failed, in whatever mode.
abbrev pub pinned_failed : List (Row × ℕ) → Bool
pinned_failed [] = false
pinned_failed ((row, result) ∷ more) =
    (row.rule.is_rule_pinned_to_unit_output && get_or failed_in_any_mode result false)
    || pinned_failed more

get_or-get : (xs : List Bool) (i : ℕ) (b : Bool) → get_elem? xs i ≡ some b → get_or xs i false ≡ b
get_or-get [] i b e = ground arith
get_or-get (x ∷ xs) zero b e = ground arith
get_or-get (x ∷ xs) (suc i) b e = get_or-get xs i b e

sum_pinned-cons :
    (row : Row) (result : ℕ) (more : List (Row × ℕ)) (mark : Bool) (marks : List Bool) (n : ℕ)
    → sum_pinned ((row, result) ∷ more) (mark ∷ marks) ≡ some n
    → (failed : Bool) × (m : ℕ) × (get_elem? failed_in_any_mode result ≡ some failed)
      × (sum_pinned more marks ≡ some m)
      × (n ≡ to_int failed * to_int mark + m)
unfolding sum_pinned
sum_pinned-cons row result more mark marks n e =
    elim (Option-cases (get_elem? failed_in_any_mode result)) [
      | inl missing ↦ absurd (ground arith)
      | inr (failed, found) ↦ elim (Option-cases (sum_pinned more marks)) [
        | inl missing ↦ absurd (ground arith)
        | inr (m, rest) ↦ (failed, m, found, rest, ground arith)
      ]
    ]

products :
    (f p b : Bool) (m : ℕ)
    → not (m == 0) ≡ b
    → not ((to_int f * to_int p + m) == 0) ≡ ((p && f) || b)
products f p b m h = ground arith

-- The marks of the rules pinned to the unit's output, in the order of the table of rules.
abbrev pub marks_of : List (Row × ℕ) → List Bool
marks_of [] = []
marks_of ((row, result) ∷ more) = row.rule.is_rule_pinned_to_unit_output ∷ marks_of more

sum_marks-failed :
    (rs : List (Row × ℕ)) (n : ℕ)
    → sum_pinned rs (marks_of rs) ≡ some n
    → not (n == 0) ≡ pinned_failed rs
unfolding sum_pinned
sum_marks-failed [] n e = ground arith
sum_marks-failed ((row, result) ∷ more) n e =
    let p = row.rule.is_rule_pinned_to_unit_output in
    let (failed, m, found, rest, total) = sum_pinned-cons row result more p (marks_of more) n e in
    ap (λ k. not (k == 0)) total
    ∙ products failed p (pinned_failed more) m (sum_marks-failed more m rest)
    ∙ ap (λ f. (p && f) || pinned_failed more)
        (sym (get_or-get failed_in_any_mode result failed found))

-- Where the table of logs iterates over the rules in the order of the table of rules, the sum that a kit
-- tests at the end of its cycle is not 0 just when a rule pinned to the unit's output has failed on the
-- cycle, in whatever mode it is.
pub sum_pinned-failed :
    (rs : List (Row × ℕ)) (marks : List Bool) (n : ℕ)
    → marks ≡ marks_of rs
    → sum_pinned rs marks ≡ some n
    → not (n == 0) ≡ pinned_failed rs
sum_pinned-failed rs marks n same e = sum_marks-failed rs n (sym (ap (sum_pinned rs) same) ∙ e)

-- How many rules have failed, in whatever mode.
abbrev pub count_failed : List (Row × ℕ) → ℕ
count_failed [] = 0
count_failed ((row, result) ∷ more) =
    to_int (get_or failed_in_any_mode result false) + count_failed more

abbrev pub count_marked : List Bool → ℕ
count_marked [] = 0
count_marked (mark ∷ marks) = to_int mark + count_marked marks
