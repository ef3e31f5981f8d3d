-- ===== src/CaseTally.antt =====
-- libEA/case.cpp, diagnosticTypes.hpp and knowBase.cpp: the tallies by which a `CCase` weighs its
-- hypotheses, and what it teaches the knowledge base. The counts that the code reads at a node by
-- panning the cursor there are a parameter in the first part, and a `KnowBase` in the second. The order
-- in which the code's hash tables iterate is that of the lists. A `Tally_t` is a natural number, a
-- `short` its 16-bit pattern.
pub mod Alive
pub mod Keys
pub mod Evaluated
pub mod Answered
pub mod Odds
pub mod Loop
pub mod Best
pub mod Learn
pub mod Verified
pub mod Tallies
pub mod Opening
mod Tests
use zandr_ea.Prelude.{
  ℕ, ◌+◌, ◌-◌, ◌*◌, ◌/◌, ◌%◌, ◌^◌, Bool, true, false, not, ◌&&◌, ◌||◌, List, [], ◌∷◌, ◌++◌, reverse,
  map, Option, some, none, ◌==◌, ltb, leb, if◌then◌else◌, find, overwrite, has_key,
}
use zandr_ea.Types.{one_fewer}
use zandr_ea.KnowBase.{
  NodeFile, KnowBase, Knode, KnodeRow, EvidStatus, is_false, is_true, not_evaluated, row_at,
  pan_cursor_to_node_at, read_cursor_to_image, write_image_to_cursor, increment_hypo_for_evid,
  devolve_counts,
}

-- `SHypoTally` with its key. The status is 0 for a hypothesis that is likely false, 1 for one that is
-- likely true, else 2.
pub record HypoTally : Type 0 where
  pub hypo_uai : ℕ
  pub prior_counts_this_hypo_true : ℕ
  pub accum_post_counts : ℕ
  pub prior_prob_pct_x10 : ℕ
  pub post_prob_pct_x10 : ℕ
  pub hypo_status : ℕ

-- The fields of `CCase` that weigh its hypotheses.
pub record CaseTally : Type 0 where
  pub hypo_tally : List HypoTally
  pub evid_tally : List (ℕ × EvidStatus)
  pub uai_evid_up : ℕ
  pub sum_prior_counts : ℕ
  pub sum_joint_post_counts : ℕ
  pub num_hypos_alive : ℕ
  pub uai_mapp_hypo : ℕ
  pub mapp_at_100pct : Bool
  pub no_evidence_evaluated : Bool
  pub case_spent_kbase : Bool
  pub case_busts_kbase : Bool

-- A hypothesis killed, with no counts.
abbrev pub killed : HypoTally → HypoTally
killed h = record h { hypo_status = 0; accum_post_counts = 0 }

abbrev pub kill_undecided : HypoTally → HypoTally
kill_undecided h = if h.hypo_status == 2 then killed h else h

abbrev pub with_counts : ℕ → HypoTally → HypoTally
with_counts n h = record h { accum_post_counts = h.accum_post_counts + n }

-- The loop that weighs the evidence, over the hypotheses that are alive.
abbrev pub weight_of_evid : (ℕ → ℕ) → List HypoTally → ℕ
weight_of_evid trues [] = 0
weight_of_evid trues (h ∷ hs) =
    (if h.hypo_status == 0 then 0 else trues h.hypo_uai) + weight_of_evid trues hs

-- What the second loop leaves: the hypotheses, their sum, how many are alive, and the one that it found
-- to be certain.
pub record Walk : Type 0 where
  pub tally : List HypoTally
  pub sum : ℕ
  pub alive : ℕ
  pub certain : Option ℕ

-- The second loop of `ApplyBayesGivenEvidUpIs`, on what it has done and what is left: `trues` and
-- `falses` are the counts of the evidence at its value joint to a hypothesis being true and false.
module _ (trues falses : ℕ → ℕ) (weight : ℕ) where
  -- The body of the loop, where it goes on: the hypothesis, what is added to the sum, and whether the
  -- hypothesis was killed.
  unfoldable pub weigh_hypo : HypoTally → HypoTally × (ℕ × Bool)
  weigh_hypo h =
      if h.hypo_status == 0
      then (h, (0, false))
      else if weight == 0
      then (with_counts 1 h, (1, false))
      else if (trues h.hypo_uai == 0) && not (falses h.hypo_uai == 0)
      then (killed h, (0, true))
      else (with_counts (trues h.hypo_uai) h, (h.accum_post_counts + trues h.hypo_uai, false))

  -- Whether the loop breaks at the hypothesis, which alone has the counts.
  unfoldable pub is_certain : HypoTally → Bool
  is_certain h =
      not (h.hypo_status == 0)
      && (not (weight == 0) && (not (trues h.hypo_uai == 0) && (trues h.hypo_uai == weight)))

  unfoldable pub walk_hypos : List HypoTally → List HypoTally → ℕ → ℕ → Walk
  walk_hypos done [] sum alive = record {
    tally = reverse done;
    sum = sum;
    alive = alive;
    certain = none;
  }
  walk_hypos done (h ∷ hs) sum alive =
      let (h', (added, dead)) = weigh_hypo h in
      let rest =
        walk_hypos (h' ∷ done) hs (sum + added) (if dead then one_fewer alive else alive) in
      let sure : HypoTally = record (with_counts (trues h.hypo_uai) h) { hypo_status = 1 } in
      if is_certain h
      then record {
        tally = map kill_undecided (reverse done) ++ (sure ∷ map kill_undecided hs);
        sum = sure.accum_post_counts;
        alive = alive;
        certain = some h.hypo_uai;
      }
      else rest

-- The two loops of `ApplyBayesGivenEvidUpIs`.
abbrev pub walk_of : (ℕ → Knode) → EvidStatus → CaseTally → Walk
walk_of node value c =
    let trues = λ (h : ℕ). (row_at value (node h)).hypo_true in
    let falses = λ (h : ℕ). (row_at value (node h)).hypo_false in
    walk_hypos trues falses (weight_of_evid trues c.hypo_tally) [] c.hypo_tally 0 c.num_hypos_alive

-- A case with what they leave.
abbrev pub with_walk : EvidStatus → Walk → CaseTally → CaseTally
with_walk value w c = record c {
  evid_tally = overwrite c.uai_evid_up value c.evid_tally;
  no_evidence_evaluated = false;
  hypo_tally = w.tally;
  sum_joint_post_counts = w.sum;
  num_hypos_alive = w.alive;
  uai_mapp_hypo = elim w.certain [ none ↦ c.uai_mapp_hypo | some u ↦ u ];
  mapp_at_100pct = elim w.certain [ none ↦ c.mapp_at_100pct | some _ ↦ true ];
}

-- `CCase::ApplyBayesGivenEvidUpIs`; `none` where the evidence is not the case's.
unfoldable pub apply_bayes_given_evid_up_is :
    (ℕ → Knode) → EvidStatus → CaseTally → Option CaseTally
apply_bayes_given_evid_up_is node value c =
    if has_key c.uai_evid_up c.evid_tally
    then some (with_walk value (walk_of node value c) c)
    else none

-- `short`: the cast to it, and its order.
abbrev pub short_mod : ℕ
short_mod = 65536

abbrev pub less_short : ℕ → ℕ → Bool
less_short a b = ltb ((a + 32768) % short_mod) ((b + 32768) % short_mod)

abbrev pub counts_of : ℕ → List HypoTally → Option HypoTally
counts_of uai [] = none
counts_of uai (h ∷ hs) = if h.hypo_uai == uai then some h else counts_of uai hs

-- The best probability so far, the hypothesis that has it, and whether it is certain.
pub record Mapp : Type 0 where
  pub mapp_pct_x10 : ℕ
  pub uai_mapp : ℕ
  pub at_100pct : Bool

-- One turn on the probability and the counts of a hypothesis; `none` where the hypothesis compared with
-- is not the case's.
unfoldable pub mapp_step : (HypoTally → ℕ) → List HypoTally → HypoTally → ℕ → Mapp → Option Mapp
mapp_step counts all h prob m =
    let best : Mapp = record { mapp_pct_x10 = prob; uai_mapp = h.hypo_uai; at_100pct = false } in
    let settled = λ (b : Mapp). record b { at_100pct = less_short 989 b.mapp_pct_x10 } in
    if m.at_100pct
    then some m
    else if less_short prob m.mapp_pct_x10
    then some (settled m)
    else if less_short m.mapp_pct_x10 prob
    then some (settled best)
    else elim (counts_of m.uai_mapp all) [
      | none ↦ none
      | some other ↦ some (
          settled (if ltb (counts other) (counts h) then record m { uai_mapp = h.hypo_uai } else m))
    ]

-- The loop of `UpdateBayesProbabilities`, before any evidence is evaluated or after; `none` where it
-- divides by 0 too.
module _ (prior : Bool) (total : ℕ) where
  abbrev pub counts_weighed : HypoTally → ℕ
  counts_weighed h = if prior then h.prior_counts_this_hypo_true else h.accum_post_counts

  abbrev pub probability : HypoTally → ℕ
  probability h = (counts_weighed h * 1000) / total % short_mod

  abbrev pub with_probability : HypoTally → HypoTally
  with_probability h =
      if prior
      then record h { prior_prob_pct_x10 = probability h }
      else record h { post_prob_pct_x10 = probability h }

  unfoldable pub update_hypos :
      List HypoTally → List HypoTally → Mapp → Option (List HypoTally × Mapp)
  update_hypos all [] m = some ([], m)
  update_hypos all (h ∷ hs) m =
      if total == 0 then none else elim (mapp_step counts_weighed all h (probability h) m) [
        | none ↦ none
        | some m' ↦ elim (update_hypos all hs m') [
          | none ↦ none
          | some (hs', m'') ↦ some (with_probability h ∷ hs', m'')
        ]
      ]

-- `CCase::UpdateBayesProbabilities`.
unfoldable pub update_bayes_probabilities : CaseTally → Option CaseTally
update_bayes_probabilities c =
    let prior = c.no_evidence_evaluated in
    let total = if prior then c.sum_prior_counts else c.sum_joint_post_counts in
    let start : Mapp = record {
      mapp_pct_x10 = 0;
      uai_mapp = c.uai_mapp_hypo;
      at_100pct = c.mapp_at_100pct;
    } in
    if c.case_spent_kbase || c.case_busts_kbase
    then some c
    else elim (update_hypos prior total c.hypo_tally c.hypo_tally start) [
      | none ↦ none
      | some (hs, m) ↦
          some
            (record c { hypo_tally = hs; uai_mapp_hypo = m.uai_mapp; mapp_at_100pct = m.at_100pct })
    ]

-- The Bayes calculation of `CCase::ActOnAnswerTo_EvaluatePromptedEvidenceQuery` on the user's answer,
-- and the end of it; `spent` is whether no evidence is left unevaluated.
unfoldable pub weigh_answer : (ℕ → Knode) → ℕ → CaseTally → Option CaseTally
weigh_answer node answer c =
    if answer == 0
    then then_update (apply_bayes_given_evid_up_is node is_false c)
    else if answer == 1
    then then_update (apply_bayes_given_evid_up_is node is_true c)
    else some c
  where
    then_update : Option CaseTally → Option CaseTally
    then_update none = none
    then_update (some c') = update_bayes_probabilities c'

unfoldable pub evaluate_evidence : (ℕ → Knode) → ℕ → Bool → CaseTally → Option CaseTally
evaluate_evidence node answer spent c =
    if c.case_spent_kbase then some c else elim (weigh_answer node answer c) [
      | none ↦ none
      | some c' ↦
          some (record c' { case_busts_kbase = c'.num_hypos_alive == 0; case_spent_kbase = spent })
    ]

module _ {F : Type 0} (io : NodeFile F) where
  -- The counts at a node gone up by one, in the column of the hypothesis's value.
  unfoldable pub learn_node : ℕ → ℕ → ℕ → Bool → EvidStatus → KnowBase F → Option (KnowBase F)
  learn_node r h e hypo status kb =
      elim (read_cursor_to_image io (pan_cursor_to_node_at io r h e kb)) [
        | none ↦ none
        | some kb' ↦ some (write_image_to_cursor io (increment_hypo_for_evid io hypo status kb'))
      ]

  -- The inner loop of `LearnFromUserVerifyingSoln`, over the evidences.
  unfoldable pub learn_evids :
      ℕ → ℕ → Bool → List (ℕ × EvidStatus) → KnowBase F → Option (KnowBase F)
  learn_evids r h hypo [] kb = some kb
  learn_evids r h hypo ((e, status) ∷ es) kb = elim (learn_node r h e hypo status kb) [
    | none ↦ none
    | some kb' ↦ learn_evids r h hypo es kb'
  ]

  -- The outer loop, over the hypotheses.
  unfoldable pub learn_hypos :
      ℕ → ℕ → List HypoTally → List (ℕ × EvidStatus) → KnowBase F → Option (KnowBase F)
  learn_hypos r true_hypo [] es kb = some kb
  learn_hypos r true_hypo (h ∷ hs) es kb =
      elim (learn_evids r h.hypo_uai (h.hypo_uai == true_hypo) es kb) [
        | none ↦ none
        | some kb' ↦ learn_hypos r true_hypo hs es kb'
      ]

  -- `CCase::LearnFromUserVerifyingSoln`, on the tallies and the knowledge base.
  unfoldable pub learn_solution : ℕ → ℕ → CaseTally → KnowBase F → Option (CaseTally × KnowBase F)
  learn_solution r true_hypo c kb =
      let verdict =
        λ (h : HypoTally). record h { hypo_status = if h.hypo_uai == true_hypo then 1 else 0 } in
      if true_hypo == 0
      then some (c, kb)
      else elim (learn_hypos r true_hypo c.hypo_tally c.evid_tally kb) [
        | none ↦ none
        | some kb' ↦ some (record c { hypo_tally = map verdict c.hypo_tally }, kb')
      ]

  -- `CCase::LearnFaultHasBeenFixed`, of a case that is verified.
  unfoldable pub learn_fault_has_been_fixed :
      ℕ → ℕ → List (ℕ × EvidStatus) → KnowBase F → Option (KnowBase F)
  learn_fault_has_been_fixed r true_hypo [] kb = some kb
  learn_fault_has_been_fixed r true_hypo ((e, status) ∷ es) kb =
      elim (read_cursor_to_image io (pan_cursor_to_node_at io r true_hypo e kb)) [
        | none ↦ none
        | some kb' ↦
            learn_fault_has_been_fixed r true_hypo es
              (write_image_to_cursor io (devolve_counts io kb'))
      ]
