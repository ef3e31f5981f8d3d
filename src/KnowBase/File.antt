-- ===== src/KnowBase/File.antt =====
-- libEA/knowBase.cpp: what `CKnowBaseH5` relies on in the HDF5 library, and the names of its nodes.
use zandr_ea.Prelude.{
  has_id-snoc, has_id, ℕ, ◌<◌, ◌≡◌, Bool, true, false, ◌&&◌, ◌==◌, some, if◌then◌else◌, arith,
  Option-cases, Bool-cases, ==_iff, inl, inr, List, [], ◌∷◌, ◌++◌, ap, sym, ◌∙◌, refl, find,
  overwrite, find-overwrite,
}
use zandr_ea.KnowBase.{
  NodeFile, NodePath, Progress, Knode, zero_image, name_of, path_to, progress_to, add_node,
  or_empty,
}

abbrev pub same_path : NodePath → NodePath → Bool
same_path p q =
    ((p.rule_name == q.rule_name) && (p.hypo_name == q.hypo_name)) && (p.evid_name == q.evid_name)

-- A node that is created reads as zeros, a node that is there and written to as what was written, and
-- neither changes another.
pub record KeepsNodes {F : Type 0} (io : NodeFile F) : Type 0 where
  pub read-create :
      (g : Progress) (p q : NodePath) (f : F)
      → io.read p (io.create g q f) ≡ (if same_path p q then some zero_image else io.read p f)
  pub read-write :
      (p q : NodePath) (m n : Knode) (f : F)
      → io.read q f ≡ some m
      → io.read p (io.write q n f) ≡ (if same_path p q then some n else io.read p f)

-- The identifiers that have names of their own.
pub record InRange (r h e : ℕ) : Type 0 where
  pub rule_low : 0 < r
  pub rule_high : r < 1000
  pub hypo_low : 0 < h
  pub hypo_high : h < 1000
  pub evid_low : 0 < e
  pub evid_high : e < 1000

abbrev pub same_node : ℕ → ℕ → ℕ → ℕ → ℕ → ℕ → Bool
same_node r h e r' h' e' = ((r == r') && (h == h')) && (e == e')

name_of-range : (i : ℕ) → 0 < i → i < 1000 → name_of i ≡ i
name_of-range i low high = ground arith

same_node_comm : (r h e r' h' e' : ℕ) → same_node r' h' e' r h e ≡ same_node r h e r' h' e'
same_node_comm r h e r' h' e' = ground arith

-- Where the path to a second node is that to the first.
pub same_path-range :
    (r h e r' h' e' : ℕ)
    → InRange r h e
    → InRange r' h' e'
    → same_path (path_to r' h' e') (path_to r h e) ≡ same_node r h e r' h' e'
same_path-range r h e r' h' e' p q =
    rw
      (
        name_of-range r p.rule_low p.rule_high,
        name_of-range h p.hypo_low p.hypo_high,
        name_of-range e p.evid_low p.evid_high,
        name_of-range r' q.rule_low q.rule_high,
        name_of-range h' q.hypo_low q.hypo_high,
        name_of-range e' q.evid_low q.evid_high,
      )
      (same_node_comm r h e r' h' e')

-- The evidences that the mimic has for a rule and a hypothesis.
abbrev evids_of : ℕ → ℕ → List (ℕ × List (ℕ × List ℕ)) → List ℕ
evids_of r h m = or_empty (find h (or_empty (find r m)))

known-evids_of :
    (r h e : ℕ) (m : List (ℕ × List (ℕ × List ℕ)))
    → (progress_to r h e m).1 ≡ has_id e (evids_of r h m)
unfolding progress_to or_empty find
known-evids_of r h e m = elim (Option-cases (find r m)) [
  | inl missing ↦ rw (progress_to, missing) refl
  | inr (hs, found) ↦ elim (Option-cases (find h hs)) [
    | inl missing ↦ rw (progress_to, found, missing) refl
    | inr (es, evids) ↦ rw (progress_to, found, evids) refl
  ]
]

or_empty-overwrite {ℓ} :
    {A : Type ℓ} (k j : ℕ) (v : List A) (m : List (ℕ × List A))
    → or_empty (find j (overwrite k v m)) ≡ (if k == j then v else or_empty (find j m))
unfolding or_empty
or_empty-overwrite k j v m = rw (find-overwrite k j v m) (if_or_empty (k == j))
  where
    if_or_empty :
        (b : Bool)
        → or_empty (if b then some v else find j m) ≡ (if b then v else or_empty (find j m))
    if_or_empty true = refl
    if_or_empty false = refl

evids_of-add_node :
    (r h e r' h' : ℕ) (m : List (ℕ × List (ℕ × List ℕ)))
    → evids_of r' h' (add_node r h e m)
      ≡ (if (r == r') && (h == h') then evids_of r h m ++ e ∷ [] else evids_of r' h' m)
unfolding add_node
evids_of-add_node r h e r' h' m =
    let hypos = or_empty (find r m) in
    let evids = evids_of r h m ++ e ∷ [] in
    let outer =
      ap (λ x. or_empty (find h' x)) (or_empty-overwrite r r' (overwrite h evids hypos) m) in
    elim (Bool-cases (r == r')) [
      | inl same ↦
          outer
          ∙ rw same (
              or_empty-overwrite h h' evids hypos
              ∙ ap (λ x. if h == h' then evids else evids_of x h' m) ((==_iff r r').0 same))
      | inr other ↦ outer ∙ rw other refl
    ]

has_id-grown :
    (b : Bool) (e e' : ℕ) (es es' : List ℕ)
    → (b ≡ true → es ≡ es')
    → has_id e' (if b then es ++ e ∷ [] else es') ≡ (if b && (e == e') then true else has_id e' es')
has_id-grown true e e' es es' same =
    has_id-snoc e' e es ∙ ap (λ x. if e == e' then true else has_id e' x) (same refl)
has_id-grown false e e' es es' same = refl

same_evids :
    (r h r' h' : ℕ) (m : List (ℕ × List (ℕ × List ℕ)))
    → ((r == r') && (h == h')) ≡ true
    → evids_of r h m ≡ evids_of r' h' m
same_evids r h r' h' m b =
    let rules : r ≡ r' = ground arith in let hypos : h ≡ h' = ground arith in rw (rules, hypos) refl

pub same_node-eq :
    (r h e r' h' e' : ℕ) → same_node r h e r' h' e' ≡ true → (r ≡ r') × (h ≡ h') × (e ≡ e')
same_node-eq r h e r' h' e' b = ground arith

pub same_node_refl : (r h e : ℕ) → same_node r h e r h e ≡ true
same_node_refl r h e = ground arith

-- The mimic knows the node added, and of the others those that it knew.
pub known-add_node :
    (r h e r' h' e' : ℕ) (m : List (ℕ × List (ℕ × List ℕ)))
    → (progress_to r' h' e' (add_node r h e m)).1
      ≡ (if same_node r h e r' h' e' then true else (progress_to r' h' e' m).1)
known-add_node r h e r' h' e' m =
    known-evids_of r' h' e' (add_node r h e m)
    ∙ ap (has_id e') (evids_of-add_node r h e r' h' m)
    ∙ has_id-grown ((r == r') && (h == h')) e e' (evids_of r h m) (evids_of r' h' m)
        (same_evids r h r' h' m)
    ∙ ap (λ x. if same_node r h e r' h' e' then true else x) (sym (known-evids_of r' h' e' m))
