-- ===== src/CaseTally/Tallies.antt =====
-- libEA/knowBase.cpp, `CKnowBaseH5::InitializeCaseTallies`: the tallies that a new case starts from. The
-- hypotheses of a rule are visited in the order in which the mimic iterates over them. The tally of a case is a
-- `std::unordered_map` of its own, whose iteration has another order: this order is a parameter.
use zandr_ea.Prelude.{
  has_id, ℕ, ◌+◌, true, false, List, [], ◌∷◌, Option, none, some, emplace, find, if◌then◌else◌,
  length,
}
use zandr_ea.KnowBase.{NodeFile, KnowBase, Knode, EvidStatus, not_evaluated, read_cursor_to_image}
use zandr_ea.CaseTally.{HypoTally, CaseTally, update_bayes_probabilities}

-- A hypothesis in the tally of a new case.
abbrev pub new_hypo : ℕ → ℕ → HypoTally
new_hypo uai prior = record {
  hypo_uai = uai;
  prior_counts_this_hypo_true = prior;
  accum_post_counts = 0;
  prior_prob_pct_x10 = 0;
  post_prob_pct_x10 = 0;
  hypo_status = 2;
}

-- The counts of the hypothesis being true, over all values of the evidence.
abbrev pub trues_of : Knode → ℕ
trues_of n = n.evid_false.hypo_true + n.evid_true.hypo_true + n.unevaluated.hypo_true

pub record Tallies : Type 0 where
  pub hypos : List HypoTally
  pub evids : List (ℕ × EvidStatus)
  pub sum_trues : ℕ

-- `CCase::CCase`, of the tallies.
abbrev pub new_tally : Tallies → CaseTally
new_tally t = record {
  hypo_tally = t.hypos;
  evid_tally = t.evids;
  uai_evid_up = 0;
  sum_prior_counts = t.sum_trues;
  sum_joint_post_counts = 0;
  num_hypos_alive = length t.hypos;
  uai_mapp_hypo = 0;
  mapp_at_100pct = false;
  no_evidence_evaluated = true;
  case_spent_kbase = false;
  case_busts_kbase = false;
}

module _ {F : Type 0} (io : NodeFile F) where
  -- The loop over the evidences of a hypothesis; `none` where an evidence is not in the table.
  unfoldable pub tally_evids :
      List ℕ
      → List (ℕ × EvidStatus)
      → ℕ
      → KnowBase F
      → Option (List (ℕ × EvidStatus) × (ℕ × KnowBase F))
  tally_evids [] t n kb = some (t, (n, kb))
  tally_evids (e ∷ es) t n kb =
      let here = record kb { evid_z = e; cursor_at_active_node = true } in
      if has_id e kb.evids_by_id
      then elim (read_cursor_to_image io here) [
        | none ↦ none
        | some read ↦
            tally_evids es (emplace e not_evaluated t) (n + trues_of read.node_image)
              (record read { evid_z = 0; cursor_at_active_node = false })
      ]
      else none

  -- The loop over the hypotheses of the rule, which gives them as they are inserted into the tally; `none`
  -- where one is not in the table.
  unfoldable pub tally_hypos :
      List (ℕ × List ℕ) → List (ℕ × EvidStatus) → KnowBase F → Option (Tallies × KnowBase F)
  tally_hypos [] t kb = some (record { hypos = []; evids = t; sum_trues = 0 }, kb)
  tally_hypos ((h, es) ∷ hs) t kb =
      if has_id h kb.hypos_by_id
      then elim (tally_evids es t 0 (record kb { hypo_y = h })) [
        | none ↦ none
        | some (t', (n, kb')) ↦ elim (tally_hypos hs t' (record kb' { hypo_y = 0 })) [
          | none ↦ none
          | some (rest, kb'') ↦ some (
            record {
              hypos = new_hypo h n ∷ rest.hypos;
              evids = rest.evids;
              sum_trues = n + rest.sum_trues;
            },
            kb'',
          )
        ]
      ]
      else none

  -- `CKnowBaseH5::InitializeCaseTallies`, on the tallies of a case just constructed. From the hypotheses as
  -- they are inserted, `iterated` gives them as the tally, an `std::unordered_map`, iterates over them.
  unfoldable pub initialize_case_tallies :
      (List HypoTally → List HypoTally) → ℕ → KnowBase F → Option (Tallies × KnowBase F)
  initialize_case_tallies iterated r kb = elim (find r kb.mimic_base) [
    | none ↦ some (record { hypos = []; evids = []; sum_trues = 0 }, kb)
    | some hypos ↦ elim (tally_hypos hypos [] (record kb { rule_x = r })) [
      | none ↦ none
      | some (t, kb') ↦ some (record t { hypos = iterated t.hypos }, record kb' { rule_x = 0 })
    ]
  ]

  -- The tallies and the probabilities of a case that `CCase::CCase` constructs on a rule.
  unfoldable pub open_case_tally :
      (List HypoTally → List HypoTally) → ℕ → KnowBase F → Option (CaseTally × KnowBase F)
  open_case_tally iterated r kb = elim (initialize_case_tallies iterated r kb) [
    | none ↦ none
    | some (t, kb') ↦ elim (update_bayes_probabilities (new_tally t)) [
      | none ↦ none
      | some c ↦ some (c, kb')
    ]
  ]
