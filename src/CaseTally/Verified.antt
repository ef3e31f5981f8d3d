-- ===== src/CaseTally/Verified.antt =====
-- libEA/case.cpp, `CCase::LearnFromUserVerifyingSoln` and `LearnFaultHasBeenFixed`: the loops over the
-- hypotheses and the evidences of a case.
use zandr_ea.Prelude.{
  ℕ, ◌≡◌, refl, ◌∙◌, false, arith, Bool-cases, inl, inr, List, [], ◌∷◌, some, All,
}
use zandr_ea.KnowBase.{
  NodeFile, KnowBase, EvidStatus, pan_cursor_to_node_at, devolve_counts, write_image_to_cursor,
}
use zandr_ea.KnowBase.File.{KeepsNodes, InRange, same_node}
use zandr_ea.KnowBase.Nodes.{counts_at, IsKept, IsAt, pan-Panned, read-IsAt, write-Written}
use zandr_ea.CaseTally.{HypoTally, CaseTally, learn_fault_has_been_fixed}
use zandr_ea.CaseTally.Keys.{has_hypo}
use zandr_ea.CaseTally.Learn.{Changed, EvidsInRange, counts_at_same}

abbrev pub HyposDiffer : List HypoTally → Type 0
HyposDiffer [] = Unit
HyposDiffer (h ∷ hs) = (has_hypo h.hypo_uai hs ≡ false) × HyposDiffer hs

module _ {F : Type 0} (io : NodeFile F) (laws : KeepsNodes io) where
  abbrev pub NodesInRange : ℕ → List HypoTally → List (ℕ × EvidStatus) → Type 0
  NodesInRange r hs es = All (λ (h : HypoTally). EvidsInRange io laws r h.hypo_uai es) hs

  devolve_counts_same : (kb : KnowBase F) → devolve_counts io kb ≡ kb
  unfolding devolve_counts
  devolve_counts_same kb = ground arith

  fixed-Changed :
      (r true_hypo : ℕ) (es : List (ℕ × EvidStatus)) (kb : KnowBase F)
      → EvidsInRange io laws r true_hypo es
      → IsKept io laws kb
      → Changed io laws (λ r' h' e' n. n) kb (learn_fault_has_been_fixed io r true_hypo es kb)
  unfolding learn_fault_has_been_fixed Changed
  fixed-Changed r h [] kb p kept = (kb, refl, kept, λ r' h' e' q. refl)
  fixed-Changed r h ((e, status) ∷ es) kb (first, p) kept =
      let panned = pan_cursor_to_node_at io r h e kb in
      let moved = pan-Panned io laws r h e kb first kept in
      let at = moved.at in
      let ready : KnowBase F = record panned { node_image = counts_at io laws panned r h e } in
      let ready_at : IsAt io laws r h e ready = record {
        active = at.active;
        path = at.path;
        kept = at.kept;
        known = at.known;
      } in
      let done = write-Written io laws r h e ready first ready_at in
      let kb1 = write_image_to_cursor io ready in
      let (kb2, rest, kept2, counts2) = fixed-Changed r h es kb1 p done.kept in
      (
        kb2,
        rw
            (
              learn_fault_has_been_fixed,
              read-IsAt io laws r h e panned first at,
              devolve_counts_same ready,
              rest,
            )
            refl,
        kept2,
        λ r' h' e' q.
            counts2 r' h' e' q
            ∙ done.counts r' h' e' q
            ∙ elim (Bool-cases (same_node r h e r' h' e')) [
              | inl same ↦
                  rw same
                    (counts_at_same io laws r h e r' h' e' panned same ∙ moved.counts r' h' e' q)
              | inr other ↦ rw other (moved.counts r' h' e' q)
            ],
      )

  -- The report that the fault of a verified case has been fixed changes no counts: at each node that has
  -- a name they are those of before. The evidences of the case have names.
  pub learn_fault_has_been_fixed-counts :
      (r true_hypo : ℕ) (es : List (ℕ × EvidStatus)) (kb : KnowBase F) (r' h' e' : ℕ)
      → InRange r' h' e'
      → EvidsInRange io laws r true_hypo es
      → IsKept io laws kb
      → (kb' : KnowBase F) × (learn_fault_has_been_fixed io r true_hypo es kb ≡ some kb')
        × (counts_at io laws kb' r' h' e' ≡ counts_at io laws kb r' h' e')
  unfolding Changed
  learn_fault_has_been_fixed-counts r true_hypo es kb r' h' e' q p kept =
      let (kb', done, kept', counts) = fixed-Changed r true_hypo es kb p kept in
      (kb', done, counts r' h' e' q)
