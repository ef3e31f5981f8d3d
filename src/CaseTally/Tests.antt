-- ===== src/CaseTally/Tests.antt =====
-- libEA/case.cpp: the weighing of hypotheses, on cases with two and three hypotheses.
use zandr_ea.Prelude.{
  has_key, overwrite, ℕ, ◌≡◌, refl, true, false, [], ◌∷◌, some, ◌==◌, if◌then◌else◌, arith, ◌<◌,
}
use zandr_ea.KnowBase.{Knode, is_false, is_true, not_evaluated, zero_image}
use zandr_ea.CaseTally.{
  HypoTally, CaseTally, apply_bayes_given_evid_up_is, update_bayes_probabilities, evaluate_evidence,
  walk_hypos, is_certain, weigh_hypo, learn_fault_has_been_fixed,
}
use zandr_ea.CaseTally.Odds.{accumulated}
use zandr_ea.CaseTally.Verified.{learn_fault_has_been_fixed-counts}
use zandr_ea.KnowBase.Memory.{Memory, memory, memory-KeepsNodes, new_base, new_base-IsKept}
use zandr_ea.KnowBase.Nodes.{counts_at}
use zandr_ea.KnowBase.{write_at}
use zandr_ea.KnowBase.{KnowBase}
use zandr_ea.KnowBase.File.{InRange}
use zandr_ea.CaseTally.Answered.{apply_bayes-novel, apply_bayes-IsBest}
use zandr_ea.CaseTally.Evaluated.{IsWeighable, evaluate_evidence-IsWeighable}
use zandr_ea.CaseTally.Best.{IsBest}

abbrev hypo : ℕ → ℕ → ℕ → HypoTally
hypo uai prior accum = record {
  hypo_uai = uai;
  prior_counts_this_hypo_true = prior;
  accum_post_counts = accum;
  prior_prob_pct_x10 = 0;
  post_prob_pct_x10 = 0;
  hypo_status = 2;
}

-- A case of three hypotheses and one evidence.
abbrev three : CaseTally
three = record {
  hypo_tally = hypo 5 3 0 ∷ hypo 6 1 0 ∷ hypo 7 2 0 ∷ [];
  evid_tally = (9, not_evaluated) ∷ [];
  uai_evid_up = 9;
  sum_prior_counts = 6;
  sum_joint_post_counts = 0;
  num_hypos_alive = 3;
  uai_mapp_hypo = 5;
  mapp_at_100pct = false;
  no_evidence_evaluated = true;
  case_spent_kbase = false;
  case_busts_kbase = false;
}

-- The evidence is true 3 times with the hypothesis 5, once with 7, and false with 6.
abbrev node : ℕ → Knode
node h =
    if h == 5
    then record zero_image { evid_true = record { hypo_false = 1; hypo_true = 3 } }
    else if h == 7
    then record zero_image { evid_true = record { hypo_false = 3; hypo_true = 1 } }
    else record zero_image { evid_true = record { hypo_false = 4; hypo_true = 0 } }

abbrev three_IsWeighable : IsWeighable three
three_IsWeighable = record {
  living = omega arith;
  counted = omega arith;
  mapp = refl;
  total = omega arith;
}

evaluate_evidence-IsWeighable_example :
    (c' : CaseTally) × (evaluate_evidence node 1 false three ≡ some c')
    × IsWeighable c'
    × (c'.case_busts_kbase ≡ false)
unfolding has_key
evaluate_evidence-IsWeighable_example =
    evaluate_evidence-IsWeighable node 1 false three refl refl three_IsWeighable

-- A hypothesis that has been false alone when the evidence was true is killed by the answer yes.
abbrev three_answered : CaseTally
three_answered = record three {
  hypo_tally =
      record (hypo 5 3 3) { hypo_status = 2 }
      ∷ record (hypo 6 1 0) { hypo_status = 0 }
      ∷ hypo 7 2 1
      ∷ [];
  evid_tally = (9, is_true) ∷ [];
  sum_joint_post_counts = 4;
  num_hypos_alive = 2;
  no_evidence_evaluated = false;
}

applied_three : apply_bayes_given_evid_up_is node is_true three ≡ some three_answered
unfolding apply_bayes_given_evid_up_is has_key walk_hypos overwrite is_certain weigh_hypo
applied_three = refl

apply_bayes-IsBest_example :
    (c2 : CaseTally) × (update_bayes_probabilities three_answered ≡ some c2) × IsBest false c2
unfolding has_key
apply_bayes-IsBest_example =
    apply_bayes-IsBest node is_true three three_answered refl refl three_IsWeighable
      (refl, (refl, (refl, tt))) (omega arith) applied_three refl

-- Two hypotheses with 5 and 3 counts each get one more by an answer that no hypothesis has seen, and
-- the sum is 2.
abbrev two : CaseTally
two = record three {
  hypo_tally = hypo 5 6 5 ∷ hypo 6 3 3 ∷ [];
  sum_joint_post_counts = 8;
  num_hypos_alive = 2;
  no_evidence_evaluated = false;
}

apply_bayes-novel_example :
    (c' : CaseTally) × (apply_bayes_given_evid_up_is (λ h. zero_image) is_false two ≡ some c')
    × (c'.sum_joint_post_counts ≡ 2)
    × (accumulated c'.hypo_tally ≡ 10)
unfolding has_key
apply_bayes-novel_example = apply_bayes-novel (λ h. zero_image) is_false two refl refl

abbrev with_verdict : HypoTally → HypoTally
with_verdict h = record h { hypo_status = if h.hypo_uai == 5 then 1 else 0 }

named : (h : ℕ) → 0 < h → h < 1000 → InRange 2 h 9
named h low high = record {
  rule_low = omega arith;
  rule_high = omega arith;
  hypo_low = low;
  hypo_high = high;
  evid_low = omega arith;
  evid_high = omega arith;
}

learn_fault_has_been_fixed-counts_example :
    (kb' : KnowBase Memory) × (learn_fault_has_been_fixed memory 2 5 ((9, is_true) ∷ []) new_base
      ≡ some kb')
    × (counts_at memory memory-KeepsNodes kb' 2 7 9
        ≡ counts_at memory memory-KeepsNodes new_base 2 7 9)
learn_fault_has_been_fixed-counts_example =
    learn_fault_has_been_fixed-counts memory memory-KeepsNodes 2 5 ((9, is_true) ∷ []) new_base 2 7
      9 (named 7 (omega arith) (omega arith)) (named 5 (omega arith) (omega arith), tt)
      new_base-IsKept

-- Two hypotheses of the rule 2 on the evidence 9, with 3 counts and 1.
abbrev with_5 : KnowBase Memory
with_5 =
    write_at memory 2 5 9
      (record zero_image { evid_true = record { hypo_false = 1; hypo_true = 3 } }) new_base

abbrev with_5_and_6 : KnowBase Memory
with_5_and_6 =
    record (write_at memory 2 6 9
      (record zero_image { evid_true = record { hypo_false = 3; hypo_true = 1 } }) with_5) {
        hypos_by_id = 5 ∷ 6 ∷ [];
        evids_by_id = 9 ∷ [];
      }
