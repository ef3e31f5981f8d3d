-- ===== src/CaseTally/Evaluated.antt =====
-- libEA/case.cpp, `CCase`: the evaluation of evidence, `ApplyBayesGivenEvidUpIs` and then
-- `UpdateBayesProbabilities`.
use zandr_ea.Prelude.{
  ℕ, ◌<◌, ◌≤◌, ◌≡◌, refl, sym, ◌∙◌, Bool, true, false, ◌||◌, ◌==◌, arith, Bool-cases, Option-cases,
  inl, inr, List, [], ◌∷◌, some, none, has_key, ltb,
}
use mathlib.Core.Path.{subst}
use zandr_ea.KnowBase.{Knode, EvidStatus, row_at, is_true, is_false}
use zandr_ea.CaseTally.{
  HypoTally, CaseTally, Mapp, walk_of, with_walk, weight_of_evid, mapp_step, less_short,
  counts_weighed, probability, with_probability, update_hypos, update_bayes_probabilities,
  apply_bayes_given_evid_up_is, weigh_answer, evaluate_evidence,
}
use zandr_ea.CaseTally.Alive.{
  num_alive, sum-positive, alive-positive, alive-counted, support-positive,
}
use zandr_ea.CaseTally.Keys.{
  whole_of, has_hypo, Within, Within-refl, counts_of-has_hypo, has_hypo-walk, has_hypo-certain,
}

-- What the evaluation of evidence relies on: a hypothesis is alive, those counted as alive are no fewer,
-- the best one is the case's, and the sum that probabilities are parts of is not zero.
pub record IsWeighable (c : CaseTally) : Type 0 where
  pub living : 0 < num_alive c.hypo_tally
  pub counted : num_alive c.hypo_tally ≤ c.num_hypos_alive
  pub mapp : has_hypo c.uai_mapp_hypo c.hypo_tally ≡ true
  pub total : 0 < whole_of c

-- A turn of the loop has a best hypothesis that is the case's.
mapp_step-has_hypo :
    (counts : HypoTally → ℕ) (all : List HypoTally) (h : HypoTally) (prob : ℕ) (m : Mapp)
    → has_hypo h.hypo_uai all ≡ true
    → has_hypo m.uai_mapp all ≡ true
    → (m' : Mapp) × (mapp_step counts all h prob m ≡ some m') × (has_hypo m'.uai_mapp all ≡ true)
unfolding mapp_step
mapp_step-has_hypo counts all h prob m p q = elim (Bool-cases m.at_100pct) [
  | inl sure ↦ (m, rw (mapp_step, sure) refl, q)
  | inr unsure ↦ elim (Bool-cases (less_short prob m.mapp_pct_x10)) [
    | inl less ↦ (
      record m { at_100pct = less_short 989 m.mapp_pct_x10 },
      rw (mapp_step, unsure, less) refl,
      q,
    )
    | inr atleast ↦ elim (Bool-cases (less_short m.mapp_pct_x10 prob)) [
      | inl more ↦ (
        record { mapp_pct_x10 = prob; uai_mapp = h.hypo_uai; at_100pct = less_short 989 prob },
        rw (mapp_step, unsure, atleast, more) refl,
        p,
      )
      | inr same ↦
          let (other, found) = counts_of-has_hypo m.uai_mapp all q in
          let settled =
            λ (u : ℕ). record m { uai_mapp = u; at_100pct = less_short 989 m.mapp_pct_x10 } in
          elim (Bool-cases (ltb (counts other) (counts h))) [
            | inl rarer ↦
                (settled h.hypo_uai, rw (mapp_step, unsure, atleast, same, found, rarer) refl, p)
            | inr as_often ↦
                (settled m.uai_mapp, rw (mapp_step, unsure, atleast, same, found, as_often) refl, q)
          ]
    ]
  ]
]

-- The loop ends, with the same hypotheses and one of them as the best.
record Updated (all hs hs' : List HypoTally) (m' : Mapp) : Type 0 where
  mapp : has_hypo m'.uai_mapp all ≡ true
  living : num_alive hs' ≡ num_alive hs
  known : (u : ℕ) → has_hypo u hs' ≡ has_hypo u hs

update_hypos-Updated :
    (prior : Bool) (total : ℕ) (all hs : List HypoTally) (m : Mapp)
    → 0 < total
    → Within all hs
    → has_hypo m.uai_mapp all ≡ true
    → (hs' : List HypoTally) × (m' : Mapp) × (update_hypos prior total all hs m ≡ some (hs', m'))
      × Updated all hs hs' m'
unfolding update_hypos
update_hypos-Updated prior total all [] m pos p q =
    ([], m, refl, record { mapp = q; living = refl; known = λ u. refl })
update_hypos-Updated prior total all (h ∷ hs) m pos (first, p) q =
    let (m1, step, q1) =
      mapp_step-has_hypo (counts_weighed prior total) all h (probability prior total h) m first q in
    let (hs', m', rest, done) = update_hypos-Updated prior total all hs m1 pos p q1 in
    let some_total : (total == 0) ≡ false = ground arith in
    (
      with_probability prior total h ∷ hs',
      m',
      rw (update_hypos, some_total, step, rest) refl,
      record {
        mapp = done.mapp;
        living = ground (arith, done.living);
        known = λ u. ground (arith, done.known u);
      },
    )

-- The probabilities of a case that is weighable are computed, with no division by zero and no
-- hypothesis looked up that is not the case's, and the case is still weighable.
pub update_bayes_probabilities-IsWeighable :
    (c : CaseTally)
    → IsWeighable c
    → (c' : CaseTally) × (update_bayes_probabilities c ≡ some c') × IsWeighable c'
unfolding update_bayes_probabilities
update_bayes_probabilities-IsWeighable c w =
    elim (Bool-cases (c.case_spent_kbase || c.case_busts_kbase)) [
      | inl over ↦ (c, rw (update_bayes_probabilities, over) refl, w)
      | inr on ↦
          let total = whole_of c in
          let start : Mapp = record {
            mapp_pct_x10 = 0;
            uai_mapp = c.uai_mapp_hypo;
            at_100pct = c.mapp_at_100pct;
          } in
          let (hs, m, loop, done) =
            update_hypos-Updated c.no_evidence_evaluated total c.hypo_tally c.hypo_tally start
              w.total (Within-refl c.hypo_tally) w.mapp in
          (
            record c { hypo_tally = hs; uai_mapp_hypo = m.uai_mapp; mapp_at_100pct = m.at_100pct },
            rw (update_bayes_probabilities, on, loop) refl,
            record {
              living = subst (λ n. 0 < n) (sym done.living) w.living;
              counted = subst (λ n. n ≤ c.num_hypos_alive) (sym done.living) w.counted;
              mapp = done.known m.uai_mapp ∙ done.mapp;
              total = w.total;
            },
          )
    ]

pub apply_bayes_known :
    (node : ℕ → Knode) (value : EvidStatus) (c : CaseTally)
    → has_key c.uai_evid_up c.evid_tally ≡ true
    → (apply_bayes_given_evid_up_is node value c ≡ some (with_walk value (walk_of node value c) c))
unfolding apply_bayes_given_evid_up_is
apply_bayes_known node value c up = rw (apply_bayes_given_evid_up_is, up) refl

pub with_walk-IsWeighable :
    (node : ℕ → Knode) (value : EvidStatus) (c : CaseTally)
    → IsWeighable c
    → IsWeighable (with_walk value (walk_of node value c) c)
with_walk-IsWeighable node value c w =
    let trues = λ (h : ℕ). (row_at value (node h)).hypo_true in
    let falses = λ (h : ℕ). (row_at value (node h)).hypo_false in
    let hs = c.hypo_tally in
    let weight = weight_of_evid trues hs in
    let for_some = support-positive trues falses hs w.living in
    let result = walk_of node value c in
    let keeps = λ (u : ℕ). has_hypo-walk trues falses weight u [] hs 0 c.num_hypos_alive in
    let best : has_hypo (elim result.certain [ none ↦ c.uai_mapp_hypo | some u ↦ u ]) result.tally
        ≡ true =
      elim (Option-cases result.certain) [
        | inl unsure ↦
            subst
              (λ o. has_hypo (elim o [ none ↦ c.uai_mapp_hypo | some u ↦ u ]) result.tally ≡ true)
              (sym unsure) (keeps c.uai_mapp_hypo ∙ w.mapp)
        | inr (u, sure) ↦
            subst
              (λ o. has_hypo (elim o [ none ↦ c.uai_mapp_hypo | some v ↦ v ]) result.tally ≡ true)
              (sym sure)
              (keeps u ∙ has_hypo-certain trues falses weight u [] hs 0 c.num_hypos_alive sure)
      ] in
    record {
      living =
          alive-positive trues falses weight [] hs 0 c.num_hypos_alive (omega (arith, for_some));
      counted =
          alive-counted trues falses weight [] hs 0 c.num_hypos_alive (omega (arith, w.counted));
      mapp = best;
      total = sum-positive trues falses weight [] hs 0 c.num_hypos_alive (omega (arith, for_some));
    }

weigh_answer-IsWeighable :
    (node : ℕ → Knode) (answer : ℕ) (c : CaseTally)
    → has_key c.uai_evid_up c.evid_tally ≡ true
    → IsWeighable c
    → (c' : CaseTally) × (weigh_answer node answer c ≡ some c') × IsWeighable c'
unfolding weigh_answer
weigh_answer-IsWeighable node answer c up w =
    let applied0 = apply_bayes_known node is_false c up in
    let applied1 = apply_bayes_known node is_true c up in
    let (u0, updated0, v0) =
      update_bayes_probabilities-IsWeighable (with_walk is_false (walk_of node is_false c) c)
        (with_walk-IsWeighable node is_false c w) in
    let (u1, updated1, v1) =
      update_bayes_probabilities-IsWeighable (with_walk is_true (walk_of node is_true c) c)
        (with_walk-IsWeighable node is_true c w) in
    elim (Bool-cases (answer == 0)) [
      | inl denied ↦ (u0, rw (weigh_answer, denied, applied0, updated0) refl, v0)
      | inr other ↦ elim (Bool-cases (answer == 1)) [
        | inl affirmed ↦ (u1, rw (weigh_answer, other, affirmed, applied1, updated1) refl, v1)
        | inr skip ↦ (c, rw (weigh_answer, other, skip) refl, w)
      ]
    ]

-- The user's answer to a query on an evidence of the case is weighed without an error, in a case that is
-- weighable: nothing is divided by zero and no hypothesis is missed. The case is still weighable, with
-- a hypothesis alive, and does not bust the knowledge base.
pub evaluate_evidence-IsWeighable :
    (node : ℕ → Knode) (answer : ℕ) (spent : Bool) (c : CaseTally)
    → has_key c.uai_evid_up c.evid_tally ≡ true
    → c.case_busts_kbase ≡ false
    → IsWeighable c
    → (c' : CaseTally) × (evaluate_evidence node answer spent c ≡ some c')
      × IsWeighable c'
      × (c'.case_busts_kbase ≡ false)
unfolding evaluate_evidence
evaluate_evidence-IsWeighable node answer spent c up fine w = elim (Bool-cases c.case_spent_kbase) [
  | inl over ↦ (c, rw (evaluate_evidence, over) refl, w, fine)
  | inr on ↦
      let (c1, weighed, w1) = weigh_answer-IsWeighable node answer c up w in
      let living = w1.living in
      let counted = w1.counted in
      (
        record c1 { case_busts_kbase = c1.num_hypos_alive == 0; case_spent_kbase = spent },
        rw (evaluate_evidence, weighed, on) refl,
        record { living = w1.living; counted = w1.counted; mapp = w1.mapp; total = w1.total },
        ground arith,
      )
]
