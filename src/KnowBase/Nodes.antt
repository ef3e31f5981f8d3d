-- ===== src/KnowBase/Nodes.antt =====
-- libEA/knowBase.cpp, `CKnowBaseH5`: the counts that the nodes hold, as a function of rule, hypothesis
-- and evidence, under the moves of the cursor and the writes.
use mathlib.Core.Path.{subst}
use zandr_ea.Prelude.{
  ℕ, ◌+◌, ◌≡◌, refl, sym, ap, ◌∙◌, Bool, true, false, Option, some, none, if◌then◌else◌, arith,
  Bool-cases, inl, inr, List,
}
use zandr_ea.KnowBase.{
  NodeFile, KnowBase, Knode, Progress, zero_image, path_to, progress_to, add_node, cursor_path,
  pan_cursor_to_node_at, read_cursor_to_image, write_image_to_cursor, write_at,
}
use zandr_ea.KnowBase.File.{
  KeepsNodes, InRange, same_node, same_path-range, known-add_node, same_node-eq, same_node_refl,
}

module _ {F : Type 0} (io : NodeFile F) (laws : KeepsNodes io) where
  abbrev pub or_zero : Option Knode → Knode
  or_zero none = zero_image
  or_zero (some n) = n

  -- The counts at a node: those that a file holds where a mimic knows the node, else zeros.
  abbrev pub counts_in : F → List (ℕ × List (ℕ × List ℕ)) → ℕ → ℕ → ℕ → Knode
  counts_in f m r h e =
      if (progress_to r h e m).1 then or_zero (io.read (path_to r h e) f) else zero_image

  abbrev pub counts_at : KnowBase F → ℕ → ℕ → ℕ → Knode
  counts_at kb r h e = counts_in kb.file kb.mimic_base r h e

  -- A file holds each node that a mimic knows.
  abbrev pub Holds : F → List (ℕ × List (ℕ × List ℕ)) → Type 0
  Holds f m =
      (r h e : ℕ)
      → InRange r h e
      → (progress_to r h e m).1 ≡ true
      → (n : Knode) × (io.read (path_to r h e) f ≡ some n)

  abbrev pub IsKept : KnowBase F → Type 0
  IsKept kb = Holds kb.file kb.mimic_base

  abbrev pub knows : KnowBase F → ℕ → ℕ → ℕ → Bool
  knows kb r h e = (progress_to r h e kb.mimic_base).1

  -- The cursor on a node that the file holds.
  pub record IsAt (r h e : ℕ) (kb : KnowBase F) : Type 0 where
    pub active : kb.cursor_at_active_node ≡ true
    pub path : cursor_path kb ≡ path_to r h e
    pub kept : IsKept kb
    pub known : knows kb r h e ≡ true

  pan_known :
      (r h e : ℕ) (kb : KnowBase F)
      → InRange r h e
      → IsKept kb
      → knows kb r h e ≡ true
      → (pan_cursor_to_node_at io r h e kb
          ≡ record kb { rule_x = r; hypo_y = h; evid_z = e; cursor_at_active_node = true })
  unfolding pan_cursor_to_node_at
  pan_known r h e kb p kept known =
      let low = p.rule_low in let mid = p.hypo_low in let last = p.evid_low in ground arith

  pan_new :
      (r h e : ℕ) (kb : KnowBase F)
      → InRange r h e
      → knows kb r h e ≡ false
      → (pan_cursor_to_node_at io r h e kb ≡ record kb {
        rule_x = r;
        hypo_y = h;
        evid_z = e;
        cursor_at_active_node = true;
        file = io.create (progress_to r h e kb.mimic_base).0 (path_to r h e) kb.file;
        mimic_base = add_node r h e kb.mimic_base;
        num_nodes_active = kb.num_nodes_active + 1;
      })
  unfolding pan_cursor_to_node_at
  pan_new r h e kb p known =
      let low = p.rule_low in let mid = p.hypo_low in let last = p.evid_low in ground arith

  -- What a panned cursor leaves.
  pub record Panned (r h e : ℕ) (kb kb' : KnowBase F) : Type 0 where
    pub at : IsAt r h e kb'
    pub counts : (r' h' e' : ℕ) → InRange r' h' e' → counts_at kb' r' h' e' ≡ counts_at kb r' h' e'
    pub image : kb'.node_image ≡ kb.node_image

  merged :
      (same known : Bool) (found : Option Knode)
      → (same ≡ true → known ≡ false)
      → (if if same then true else known
          then or_zero (if same then some zero_image else found)
          else zero_image)
        ≡ (if known then or_zero found else zero_image)
  merged true known found new = rw (new refl) refl
  merged false known found new = refl

  created_counts :
      (g : Progress) (r h e r' h' e' : ℕ) (f : F) (m : List (ℕ × List (ℕ × List ℕ)))
      → InRange r h e
      → InRange r' h' e'
      → (progress_to r h e m).1 ≡ false
      → counts_in (io.create g (path_to r h e) f) (add_node r h e m) r' h' e'
        ≡ counts_in f m r' h' e'
  created_counts g r h e r' h' e' f m p q unknown =
      rw
        (
          laws.read-create g (path_to r' h' e') (path_to r h e) f,
          same_path-range r h e r' h' e' p q,
          known-add_node r h e r' h' e' m,
        )
        (merged (same_node r h e r' h' e') (progress_to r' h' e' m).1 (io.read (path_to r' h' e') f)
          (λ b.
            let (rules, hypos, evids) = same_node-eq r h e r' h' e' b in
            subst (λ x. (progress_to x h' e' m).1 ≡ false) rules
              (subst (λ x. (progress_to r x e' m).1 ≡ false) hypos
                (subst (λ x. (progress_to r h x m).1 ≡ false) evids unknown))))

  held_or_zero :
      (same known : Bool) (found : Option Knode) (x : Knode)
      → (known ≡ true → (n : Knode) × (found ≡ some n))
      → (if same then true else known) ≡ true
      → (n : Knode) × ((if same then some x else found) ≡ some n)
  held_or_zero true known found x old h = (x, refl)
  held_or_zero false known found x old h = old h

  created_kept :
      (g : Progress) (r h e : ℕ) (f : F) (m : List (ℕ × List (ℕ × List ℕ)))
      → InRange r h e
      → Holds f m
      → Holds (io.create g (path_to r h e) f) (add_node r h e m)
  created_kept g r h e f m p kept r' h' e' q known =
      let k = known-add_node r h e r' h' e' m in
      rw
        (
          laws.read-create g (path_to r' h' e') (path_to r h e) f,
          same_path-range r h e r' h' e' p q,
        )
        (held_or_zero (same_node r h e r' h' e') (progress_to r' h' e' m).1
          (io.read (path_to r' h' e') f) zero_image (kept r' h' e' q) (sym k ∙ known))

  pub pan-Panned :
      (r h e : ℕ) (kb : KnowBase F)
      → InRange r h e
      → IsKept kb
      → Panned r h e kb (pan_cursor_to_node_at io r h e kb)
  pan-Panned r h e kb p kept = elim (Bool-cases (knows kb r h e)) [
    | inl known ↦ rw (pan_known r h e kb p kept known) (record {
      at = record { active = refl; path = refl; kept = kept; known = known };
      counts = λ r' h' e' q. refl;
      image = refl;
    })
    | inr new ↦ rw (pan_new r h e kb p new) (record {
      at = record {
        active = refl;
        path = refl;
        kept = created_kept _ r h e kb.file kb.mimic_base p kept;
        known = known-add_node r h e r h e kb.mimic_base ∙ rw (same_node_refl r h e) refl;
      };
      counts = λ r' h' e' q. created_counts _ r h e r' h' e' kb.file kb.mimic_base p q new;
      image = refl;
    })
  ]

  -- The image read under a panned cursor is the counts at its node.
  pub read-IsAt :
      (r h e : ℕ) (kb : KnowBase F)
      → InRange r h e
      → IsAt r h e kb
      → read_cursor_to_image io kb ≡ some (record kb { node_image = counts_at kb r h e })
  unfolding read_cursor_to_image
  read-IsAt r h e kb p at =
      let (n, found) = at.kept r h e p at.known in
      let here = ap (λ q. io.read q kb.file) at.path ∙ found in
      let counts : counts_at kb r h e ≡ n = rw (at.known, found) refl in
      let active = at.active in ground arith

  pub record Written (r h e : ℕ) (n : Knode) (kb kb' : KnowBase F) : Type 0 where
    pub kept : IsKept kb'
    pub counts :
        (r' h' e' : ℕ)
        → InRange r' h' e'
        → counts_at kb' r' h' e' ≡ (if same_node r h e r' h' e' then n else counts_at kb r' h' e')

  overwritten :
      (same known : Bool) (n : Knode) (found : Option Knode)
      → (same ≡ true → known ≡ true)
      → (if known then or_zero (if same then some n else found) else zero_image)
        ≡ (if same then n else if known then or_zero found else zero_image)
  overwritten true known n found h = rw (h refl) refl
  overwritten false known n found h = refl

  still_known : (same known : Bool) → known ≡ true → (if same then true else known) ≡ true
  still_known true known h = refl
  still_known false known h = h

  -- An image written under a panned cursor is the counts at its node, and no others change.
  pub write-Written :
      (r h e : ℕ) (kb : KnowBase F)
      → InRange r h e
      → IsAt r h e kb
      → Written r h e kb.node_image kb (write_image_to_cursor io kb)
  unfolding write_image_to_cursor
  write-Written r h e kb p at =
      let (m, found) = at.kept r h e p at.known in
      let wrote = λ (r' h' e' : ℕ) (q : InRange r' h' e').
        laws.read-write (path_to r' h' e') (path_to r h e) m kb.node_image kb.file found
        ∙ rw (same_path-range r h e r' h' e' p q) refl in
      rw (write_image_to_cursor, at.active, at.path)
        (record {
          kept = λ r' h' e' q known. rw (wrote r' h' e' q) (
              held_or_zero (same_node r h e r' h' e') (knows kb r' h' e')
                (io.read (path_to r' h' e') kb.file) kb.node_image (at.kept r' h' e' q)
                (still_known (same_node r h e r' h' e') (knows kb r' h' e') known));
          counts = λ r' h' e' q. rw (wrote r' h' e' q) (
              overwritten (same_node r h e r' h' e') (knows kb r' h' e') kb.node_image
                (io.read (path_to r' h' e') kb.file)
                (λ b.
                  let (rules, hypos, evids) = same_node-eq r h e r' h' e' b in
                  subst (λ x. knows kb x h' e' ≡ true) rules
                    (subst (λ x. knows kb r x e' ≡ true) hypos
                      (subst (λ x. knows kb r h x ≡ true) evids at.known))));
        })

  -- An image written at a node, as `InitializeNodeAt` does.
  pub write_at-Written :
      (r h e : ℕ) (n : Knode) (kb : KnowBase F)
      → InRange r h e
      → IsKept kb
      → Written r h e n kb (write_at io r h e n kb)
  unfolding write_at
  write_at-Written r h e n kb p kept =
      let ready : KnowBase F = record kb { node_image = n } in
      let panned = pan_cursor_to_node_at io r h e ready in
      let moved = pan-Panned r h e ready p kept in
      let done = write-Written r h e panned p moved.at in
      record {
        kept = done.kept;
        counts = λ r' h' e' q.
            done.counts r' h' e' q
            ∙ ap (λ x. if same_node r h e r' h' e' then x else counts_at panned r' h' e')
                moved.image
            ∙ ap (λ x. if same_node r h e r' h' e' then n else x) (moved.counts r' h' e' q);
      }
