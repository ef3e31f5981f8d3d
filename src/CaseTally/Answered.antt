-- ===== src/CaseTally/Answered.antt =====
-- libEA/case.cpp, `CCase::ApplyBayesGivenEvidUpIs`: the probabilities after an answer, where the value
-- that it gives the evidence has been seen before, and the sum where it is novel.
use zandr_ea.Prelude.{
  arith, ℕ, ◌+◌, ◌<◌, ◌≡◌, refl, sym, ap, ◌∙◌, true, false, ◌||◌, List, [], ◌∷◌, some, All, has_key,
}
use mathlib.Core.Path.{subst}
use mathlib.Core.Option.{some-injective}
use zandr_ea.KnowBase.{Knode, EvidStatus, row_at}
use zandr_ea.CaseTally.{
  HypoTally, CaseTally, counts_weighed, weight_of_evid, walk_of, with_walk,
  apply_bayes_given_evid_up_is, update_bayes_probabilities,
}
use zandr_ea.CaseTally.Alive.{num_alive}
use zandr_ea.CaseTally.Odds.{accumulated, IsOpen, sum-accumulated, sum-novel}
use zandr_ea.CaseTally.Loop.{total_of}
use zandr_ea.CaseTally.Best.{IsBest, update_bayes_probabilities-IsBest}
use zandr_ea.CaseTally.Evaluated.{IsWeighable, apply_bayes_known, with_walk-IsWeighable}

-- The counts of the hypotheses alive, true at a value of the evidence.
abbrev pub weight_at : (ℕ → Knode) → EvidStatus → CaseTally → ℕ
weight_at node value c = weight_of_evid (λ h. (row_at value (node h)).hypo_true) c.hypo_tally

-- An answer with a value novel to all hypotheses alive counts one for each of them, but sums only these
-- ones: the counts that the hypotheses have from the answers before it are left out of the sum.
pub apply_bayes-novel :
    (node : ℕ → Knode) (value : EvidStatus) (c : CaseTally)
    → has_key c.uai_evid_up c.evid_tally ≡ true
    → weight_at node value c ≡ 0
    → (c' : CaseTally) × (apply_bayes_given_evid_up_is node value c ≡ some c')
      × (c'.sum_joint_post_counts ≡ num_alive c.hypo_tally)
      × (accumulated c'.hypo_tally ≡ accumulated c.hypo_tally + num_alive c.hypo_tally)
unfolding apply_bayes_given_evid_up_is
apply_bayes-novel node value c up novel =
    let trues = λ (h : ℕ). (row_at value (node h)).hypo_true in
    let falses = λ (h : ℕ). (row_at value (node h)).hypo_false in
    let (sum, counts) =
      sum-novel trues falses (weight_at node value c) [] c.hypo_tally 0 c.num_hypos_alive novel in
    (
      with_walk value (walk_of node value c) c,
      rw (apply_bayes_given_evid_up_is, up) refl,
      omega (arith, sum),
      omega (arith, counts),
    )

accumulated-total :
    (n : ℕ) (hs : List HypoTally) → total_of (counts_weighed false n) hs ≡ accumulated hs
accumulated-total n [] = refl
accumulated-total n (h ∷ hs) = ap (λ m. h.accum_post_counts + m) (accumulated-total n hs)

apply_bayes-accumulated :
    (node : ℕ → Knode) (value : EvidStatus) (c : CaseTally)
    → 0 < weight_at node value c
    → All IsOpen c.hypo_tally
    → let w = walk_of node value c in accumulated w.tally ≡ w.sum
apply_bayes-accumulated node value c known o =
    let trues = λ (h : ℕ). (row_at value (node h)).hypo_true in
    let falses = λ (h : ℕ). (row_at value (node h)).hypo_false in
    sum-accumulated trues falses (weight_at node value c) [] c.hypo_tally 0 c.num_hypos_alive known
      tt o refl

-- An answer with a value that some hypothesis alive has been true at before, in a case whose hypotheses
-- are each undecided, or dead with no counts: unless the answer makes the case certain, the probabilities
-- are computed, the best hypothesis has the greatest of them, they are in all no more than 100 percent,
-- and the case is certain where the best is more than 98.9 percent.
pub apply_bayes-IsBest :
    (node : ℕ → Knode) (value : EvidStatus) (c c1 : CaseTally)
    → has_key c.uai_evid_up c.evid_tally ≡ true
    → (c.case_spent_kbase || c.case_busts_kbase) ≡ false
    → IsWeighable c
    → All IsOpen c.hypo_tally
    → 0 < weight_at node value c
    → apply_bayes_given_evid_up_is node value c ≡ some c1
    → c1.mapp_at_100pct ≡ false
    → (c2 : CaseTally) × (update_bayes_probabilities c1 ≡ some c2) × IsBest false c2
apply_bayes-IsBest node value c c1 up on w o known applied unsure =
    let ok = with_walk-IsWeighable node value c w in
    let result = with_walk value (walk_of node value c) c in
    let same = some-injective result c1 (sym (apply_bayes_known node value c up) ∙ applied) in
    let undecided = subst (λ (d : CaseTally). d.mapp_at_100pct ≡ false) (sym same) unsure in
    subst (λ d. (c2 : CaseTally) × (update_bayes_probabilities d ≡ some c2) × IsBest false c2) same
      (update_bayes_probabilities-IsBest result on undecided ok.mapp ok.total (
        accumulated-total result.sum_joint_post_counts result.hypo_tally
        ∙ apply_bayes-accumulated node value c known o))
