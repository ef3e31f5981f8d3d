-- ===== src/KnowBase/Initial.antt =====
-- libEA/knowBase.cpp, `CKnowBaseH5::InitializeNodeAt`: the counts that a new knowledge base gets.
use zandr_ea.Prelude.{
  ◌-◌, has_id, ℕ, ◌≡◌, Bool, true, false, not, ◌&&◌, ◌==◌, if◌then◌else◌, List, length, All,
}
use zandr_ea.KnowBase.{
  EvidStatus, is_true, is_false, not_evaluated, KnodeRow, NodeFile, KnowBase, Knode, nominal_image,
  alternative_image,
}
use zandr_ea.KnowBase.File.{KeepsNodes, InRange}
use zandr_ea.KnowBase.Nodes.{counts_at, IsKept}

-- The counts once an evidence has been initialized for a rule at the hypothesis that it names: one image
-- there, another at each other hypothesis of the rule, and elsewhere the counts of before.
abbrev initialized : ℕ → ℕ → ℕ → Bool → Bool → List ℕ → (ℕ → ℕ → ℕ → Knode) → ℕ → ℕ → ℕ → Knode
initialized r nominal e sense_direct logic_invertible hypos before r' h' e' =
    if (r == r') && (e == e')
    then (if nominal == h'
        then nominal_image sense_direct logic_invertible (length hypos)
        else if has_id h' hypos
        then alternative_image sense_direct (length hypos)
        else before r' h' e')
    else before r' h' e'

-- Whether the status of an evidence is the one that its sense has it take when the hypothesis that it names
-- is true.
abbrev pub is_expected : Bool → EvidStatus → Bool
is_expected true is_true = true
is_expected true is_false = false
is_expected false is_true = false
is_expected false is_false = true
is_expected sense_direct not_evaluated = false

-- The counts of a hypothesis being false and true at a status, once the evidence has been initialized for a
-- rule with so many hypotheses: past cases in which the hypothesis named was the true one, with the status
-- as expected, and where its absence tells too, cases of each other hypothesis with the status reversed.
abbrev pub expected_row : Bool → Bool → Bool → ℕ → EvidStatus → KnodeRow
expected_row named sense_direct logic_invertible num_hypos not_evaluated = record {
  hypo_false = 0;
  hypo_true = 0;
}
expected_row true sense_direct logic_invertible num_hypos status =
    if is_expected sense_direct status
    then record { hypo_false = 0; hypo_true = 1 }
    else record { hypo_false = if logic_invertible then num_hypos - 1 else 0; hypo_true = 0 }
expected_row false sense_direct logic_invertible num_hypos status =
    if is_expected sense_direct status
    then record { hypo_false = 1; hypo_true = 0 }
    else record { hypo_false = num_hypos - 2; hypo_true = 1 }

module _ {F : Type 0} (io : NodeFile F) (laws : KeepsNodes io) where
  abbrev pub HyposInRange : ℕ → ℕ → List ℕ → Type 0
  HyposInRange r e hypos = All (λ h. InRange r h e) hypos

  Alternated : ℕ → ℕ → ℕ → Knode → List ℕ → KnowBase F → KnowBase F → Type 0
  Alternated r nominal e n hs kb kb' =
      IsKept io laws kb'
      × ((r' h' e' : ℕ)
          → InRange r' h' e'
          → counts_at io laws kb' r' h' e' ≡ (
              if ((r == r') && (e == e')) && (not (nominal == h') && has_id h' hs)
              then n
              else counts_at io laws kb r' h' e'))
