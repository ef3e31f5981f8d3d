-- ===== src/CaseTally/Learn.antt =====
-- libEA/case.cpp, `CCase::LearnFromUserVerifyingSoln` and `LearnFaultHasBeenFixed`: what a verified case
-- adds to the counts of the knowledge base.
use mathlib.Core.Path.{subst}
use zandr_ea.Prelude.{
  ℕ, ◌≡◌, refl, ap, ◌∙◌, Bool, true, false, ◌&&◌, ◌==◌, if◌then◌else◌, arith, Bool-cases, inl, inr,
  List, [], ◌∷◌, Option, none, some, All, find, has_key, find_absent, ==_iff,
}
use zandr_ea.KnowBase.{
  NodeFile, KnowBase, Knode, EvidStatus, change_row, count_true, count_false, pan_cursor_to_node_at,
  write_image_to_cursor, increment_hypo_for_evid,
}
use zandr_ea.KnowBase.File.{KeepsNodes, InRange, same_node, same_node-eq}
use zandr_ea.KnowBase.Nodes.{counts_at, IsKept, IsAt, pan-Panned, read-IsAt, write-Written}
use zandr_ea.CaseTally.{learn_node, learn_evids}

abbrev pub one_more : Bool → EvidStatus → Knode → Knode
one_more hypo status n = change_row status (if hypo then count_true else count_false) n

module _ {F : Type 0} (io : NodeFile F) (laws : KeepsNodes io) where
  -- The counts at some nodes changed.
  unfoldable pub Changed : (ℕ → ℕ → ℕ → Knode → Knode) → KnowBase F → Option (KnowBase F) → Type 0
  Changed f kb o =
      (kb' : KnowBase F) × (o ≡ some kb')
      × IsKept io laws kb'
      × ((r h e : ℕ)
          → InRange r h e
          → counts_at io laws kb' r h e ≡ f r h e (counts_at io laws kb r h e))

  increment-active :
      (hypo : Bool) (status : EvidStatus) (kb : KnowBase F)
      → kb.cursor_at_active_node ≡ true
      → increment_hypo_for_evid io hypo status kb
        ≡ record kb { node_image = one_more hypo status kb.node_image }
  unfolding increment_hypo_for_evid
  increment-active hypo status kb active = rw (increment_hypo_for_evid, active) refl

  pub counts_at_same :
      (r h e r' h' e' : ℕ) (kb : KnowBase F)
      → same_node r h e r' h' e' ≡ true
      → counts_at io laws kb r h e ≡ counts_at io laws kb r' h' e'
  counts_at_same r h e r' h' e' kb same =
      let (rules, hypos, evids) = same_node-eq r h e r' h' e' same in
      ap (λ x. counts_at io laws kb x h e) rules
      ∙ ap (λ x. counts_at io laws kb r' x e) hypos
      ∙ ap (λ x. counts_at io laws kb r' h' x) evids

  learn_node-Changed :
      (r h e : ℕ) (hypo : Bool) (status : EvidStatus) (kb : KnowBase F)
      → InRange r h e
      → IsKept io laws kb
      → Changed
          (λ r' h' e' n. if same_node r h e r' h' e' then one_more hypo status n else n)
          kb
          (learn_node io r h e hypo status kb)
  unfolding learn_node Changed increment_hypo_for_evid
  learn_node-Changed r h e hypo status kb p kept =
      let panned = pan_cursor_to_node_at io r h e kb in
      let moved = pan-Panned io laws r h e kb p kept in
      let at = moved.at in
      let counts = counts_at io laws panned r h e in
      let ready : KnowBase F = record panned { node_image = one_more hypo status counts } in
      let ready_at : IsAt io laws r h e ready = record {
        active = at.active;
        path = at.path;
        kept = at.kept;
        known = at.known;
      } in
      let done = write-Written io laws r h e ready p ready_at in
      (
        write_image_to_cursor io ready,
        rw
            (
              learn_node,
              read-IsAt io laws r h e panned p at,
              increment-active hypo status (record panned { node_image = counts }) at.active,
            )
            refl,
        done.kept,
        λ r' h' e' q. done.counts r' h' e' q ∙ elim (Bool-cases (same_node r h e r' h' e')) [
          | inl same ↦ rw same (
              ap (one_more hypo status)
                (counts_at_same r h e r' h' e' panned same ∙ moved.counts r' h' e' q))
          | inr other ↦ rw other (moved.counts r' h' e' q)
        ],
      )

  -- What is counted at a node, of a case whose evidences are those of a list.
  abbrev pub counted : Bool → Option EvidStatus → Knode → Knode
  counted hypo none n = n
  counted hypo (some status) n = one_more hypo status n

  abbrev pub EvidsDiffer : List (ℕ × EvidStatus) → Type 0
  EvidsDiffer [] = Unit
  EvidsDiffer ((e, status) ∷ es) = (has_key e es ≡ false) × EvidsDiffer es

  abbrev pub EvidsInRange : ℕ → ℕ → List (ℕ × EvidStatus) → Type 0
  EvidsInRange r h es = All (λ (x : ℕ × EvidStatus). InRange r h x.0) es

  in_both :
      (here evid : Bool) (hypo : Bool) (status : EvidStatus) (rest : Option EvidStatus) (n : Knode)
      → (evid ≡ true → rest ≡ none)
      → (if here
          then counted hypo rest (if here && evid then one_more hypo status n else n)
          else if here && evid
          then one_more hypo status n
          else n)
        ≡ (if here then counted hypo (if evid then some status else rest) n else n)
  in_both true true hypo status rest n absent = rw (absent refl) refl
  in_both true false hypo status rest n absent = refl
  in_both false evid hypo status rest n absent = refl

  pub learn_evids-Changed :
      (r h : ℕ) (hypo : Bool) (es : List (ℕ × EvidStatus)) (kb : KnowBase F)
      → EvidsInRange r h es
      → EvidsDiffer es
      → IsKept io laws kb
      → Changed
          (λ r' h' e' n. if (r == r') && (h == h') then counted hypo (find e' es) n else n)
          kb
          (learn_evids io r h hypo es kb)
  unfolding learn_evids Changed find
  learn_evids-Changed r h hypo [] kb p d kept = (kb, refl, kept, λ r' h' e' q. ground arith)
  learn_evids-Changed r h hypo ((e, status) ∷ es) kb (first, p) (absent, d) kept =
      let (kb1, node, kept1, counts1) = learn_node-Changed r h e hypo status kb first kept in
      let (kb2, rest, kept2, counts2) = learn_evids-Changed r h hypo es kb1 p d kept1 in
      (
        kb2,
        rw (learn_evids, node, rest) refl,
        kept2,
        λ r' h' e' q.
            counts2 r' h' e' q
            ∙ ap (λ n. if (r == r') && (h == h') then counted hypo (find e' es) n else n)
                (counts1 r' h' e' q)
            ∙ in_both ((r == r') && (h == h')) (e == e') hypo status (find e' es)
                (counts_at io laws kb r' h' e')
                (λ same.
                  subst (λ x. find x es ≡ none) ((==_iff e e').0 same) (find_absent e es absent)),
      )
