-- ===== src/CaseTally/Keys.antt =====
-- libEA/case.cpp, `hypoTally`: which hypotheses a case has.
use zandr_ea.Prelude.{
  ℕ, ◌+◌, ◌≡◌, refl, sym, ◌∙◌, Bool, true, false, ◌||◌, ◌==◌, if◌then◌else◌, arith, Bool-cases, inl,
  inr, List, [], ◌∷◌, ◌++◌, reverse, map, some, All,
}
use mathlib.Core.List.{reverse_aux}
use mathlib.Core.Option.{some-injective}
use zandr_ea.Types.{one_fewer}
use zandr_ea.CaseTally.{
  HypoTally, CaseTally, kill_undecided, with_counts, weigh_hypo, is_certain, walk_hypos, counts_of,
}

-- The sum that the probabilities are parts of.
abbrev pub whole_of : CaseTally → ℕ
whole_of c = if c.no_evidence_evaluated then c.sum_prior_counts else c.sum_joint_post_counts

abbrev pub has_hypo : ℕ → List HypoTally → Bool
has_hypo u [] = false
has_hypo u (h ∷ hs) = (h.hypo_uai == u) || has_hypo u hs

pub counts_of-has_hypo :
    (u : ℕ) (hs : List HypoTally)
    → has_hypo u hs ≡ true
    → (h : HypoTally) × (counts_of u hs ≡ some h)
counts_of-has_hypo u [] p = absurd (ground arith)
counts_of-has_hypo u (h ∷ hs) p = elim (Bool-cases (h.hypo_uai == u)) [
  | inl same ↦ (h, rw same refl)
  | inr other ↦
      let (g, found) = counts_of-has_hypo u hs (ground (arith, p, other)) in (g, rw other found)
]

has_hypo-append :
    (u : ℕ) (xs ys : List HypoTally) → has_hypo u (xs ++ ys) ≡ (has_hypo u xs || has_hypo u ys)
has_hypo-append u [] ys = refl
has_hypo-append u (x ∷ xs) ys = ground (arith, has_hypo-append u xs ys)

has_hypo_onto :
    (u : ℕ) (xs ys : List HypoTally)
    → has_hypo u (reverse_aux xs ys) ≡ (has_hypo u xs || has_hypo u ys)
has_hypo_onto u [] ys = refl
has_hypo_onto u (x ∷ xs) ys = ground (arith, has_hypo_onto u xs (x ∷ ys))

has_hypo-kill : (u : ℕ) (xs : List HypoTally) → has_hypo u (map kill_undecided xs) ≡ has_hypo u xs
has_hypo-kill u [] = refl
has_hypo-kill u (x ∷ xs) = ground (arith, has_hypo-kill u xs)

-- Each hypothesis of a list is in another.
abbrev pub Within : List HypoTally → List HypoTally → Type 0
Within all hs = All (λ h. has_hypo h.hypo_uai all ≡ true) hs

Within-cons : (x : HypoTally) (all hs : List HypoTally) → Within all hs → Within (x ∷ all) hs
Within-cons x all [] p = tt
Within-cons x all (h ∷ hs) (first, p) = (ground (arith, first), Within-cons x all hs p)

pub Within-refl : (hs : List HypoTally) → Within hs hs
Within-refl [] = tt
Within-refl (h ∷ hs) = (ground arith, Within-cons h hs hs (Within-refl hs))

module _ (trues falses : ℕ → ℕ) (weight : ℕ) where
  -- The walk keeps the hypotheses.
  pub has_hypo-walk :
      (u : ℕ) (done hs : List HypoTally) (sum alive : ℕ)
      → has_hypo u (walk_hypos trues falses weight done hs sum alive).tally
        ≡ (has_hypo u done || has_hypo u hs)
  unfolding walk_hypos weigh_hypo is_certain
  has_hypo-walk u done [] sum alive = has_hypo_onto u done []
  has_hypo-walk u done (h ∷ hs) sum alive = elim (Bool-cases (is_certain trues falses weight h)) [
    | inl sure ↦
        let found : HypoTally = record (with_counts (trues h.hypo_uai) h) { hypo_status = 1 } in
        rw sure (
          ground (
            arith,
            has_hypo-append u (map kill_undecided (reverse done)) (found ∷ map kill_undecided hs),
            has_hypo-kill u (reverse done),
            has_hypo-kill u hs,
            has_hypo_onto u done [],
          ))
    | inr unsure ↦
        let (h', (added, dead)) = weigh_hypo trues falses weight h in
        let more =
          has_hypo-walk u (h' ∷ done) hs (sum + added) (if dead then one_fewer alive else alive) in
        ground (arith, more)
  ]

  -- A hypothesis that the walk finds to be certain is one of them.
  pub has_hypo-certain :
      (u : ℕ) (done hs : List HypoTally) (sum alive : ℕ)
      → (walk_hypos trues falses weight done hs sum alive).certain ≡ some u
      → has_hypo u hs ≡ true
  unfolding walk_hypos weigh_hypo is_certain
  has_hypo-certain u done [] sum alive p = absurd (ground (arith, p))
  has_hypo-certain u done (h ∷ hs) sum alive p =
      elim (Bool-cases (is_certain trues falses weight h)) [
        | inl sure ↦
            let now : (walk_hypos trues falses weight done (h ∷ hs) sum alive).certain
                ≡ some h.hypo_uai =
              rw (walk_hypos, sure) refl in
            let same = some-injective h.hypo_uai u (sym now ∙ p) in ground (arith, same)
        | inr unsure ↦
            let (h', (added, dead)) = weigh_hypo trues falses weight h in
            let n = if dead then one_fewer alive else alive in
            let rest = walk_hypos trues falses weight (h' ∷ done) hs (sum + added) n in
            let now : (walk_hypos trues falses weight done (h ∷ hs) sum alive).certain
                ≡ rest.certain =
              rw (walk_hypos, unsure) refl in
            let more = has_hypo-certain u (h' ∷ done) hs (sum + added) n (sym now ∙ p) in
            ground (arith, more)
      ]
