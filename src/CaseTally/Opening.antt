-- ===== src/CaseTally/Opening.antt =====
-- libEA/knowBase.cpp, `CKnowBaseH5::InitializeCaseTallies`, and the constructor of `CCase`: what a new case
-- starts from by the counts of the knowledge base.
use zandr_ea.Prelude.{has_id, ℕ, ◌≡◌, true, List, map, All, sum}
use zandr_ea.KnowBase.{NodeFile, KnowBase}
use zandr_ea.KnowBase.File.{KeepsNodes, InRange}
use zandr_ea.KnowBase.Nodes.{counts_at, knows}
use zandr_ea.CaseTally.{HypoTally, CaseTally}
use zandr_ea.CaseTally.Loop.{total_of}
use zandr_ea.CaseTally.Tallies.{new_hypo, trues_of}

module _ {F : Type 0} (io : NodeFile F) where
  module _ (laws : KeepsNodes io) where
    -- The nodes of a hypothesis that the mimic knows, each with its evidence in the table.
    abbrev pub EvidsTabled : KnowBase F → ℕ → ℕ → List ℕ → Type 0
    EvidsTabled kb r h es =
        All
          (λ e. InRange r h e × (knows io laws kb r h e ≡ true) × (has_id e kb.evids_by_id ≡ true))
          es

    abbrev pub HyposTabled : KnowBase F → ℕ → List (ℕ × List ℕ) → Type 0
    HyposTabled kb r hypos =
        All (λ (x : ℕ × List ℕ). (has_id x.0 kb.hypos_by_id ≡ true) × EvidsTabled kb r x.0 x.1)
          hypos

    -- How often a hypothesis has been true with its evidences.
    abbrev pub prior_counts : KnowBase F → ℕ → ℕ → List ℕ → ℕ
    prior_counts kb r h es = sum (map (λ e. trues_of (counts_at io laws kb r h e)) es)

    -- The tallies of the hypotheses, each with its counts, and the sum of these.
    abbrev pub tallied : KnowBase F → ℕ → List (ℕ × List ℕ) → List HypoTally
    tallied kb r hypos = map (λ (x : ℕ × List ℕ). new_hypo x.0 (prior_counts kb r x.0 x.1)) hypos

    -- The counts of all the hypotheses.
    abbrev pub all_counts : KnowBase F → ℕ → List (ℕ × List ℕ) → ℕ
    all_counts kb r hypos = total_of (λ h. h.prior_counts_this_hypo_true) (tallied kb r hypos)
