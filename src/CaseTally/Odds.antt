-- ===== src/CaseTally/Odds.antt =====
-- libEA/case.cpp, `CCase::ApplyBayesGivenEvidUpIs`: the sum that the probabilities of the hypotheses are
-- parts of.
use zandr_ea.Prelude.{
  ℕ, ◌+◌, ◌<◌, ◌≡◌, refl, true, ◌&&◌, ◌||◌, ◌==◌, if◌then◌else◌, arith, Bool-cases, inl, inr, List,
  [], ◌∷◌, ◌++◌, reverse, map, All,
}
use mathlib.Core.List.{reverse_aux}
use zandr_ea.Types.{one_fewer}
use zandr_ea.CaseTally.{HypoTally, kill_undecided, with_counts, weigh_hypo, is_certain, walk_hypos}
use zandr_ea.CaseTally.Alive.{num_alive}

-- The counts accumulated.
abbrev pub accumulated : List HypoTally → ℕ
accumulated [] = 0
accumulated (h ∷ hs) = h.accum_post_counts + accumulated hs

-- A hypothesis that is dead, with no counts, or undecided.
abbrev pub IsOpen : HypoTally → Type 0
IsOpen h = ((h.hypo_status == 2) || ((h.hypo_status == 0) && (h.accum_post_counts == 0))) ≡ true

accumulated-append :
    (xs ys : List HypoTally) → accumulated (xs ++ ys) ≡ accumulated xs + accumulated ys
accumulated-append [] ys = omega arith
accumulated-append (x ∷ xs) ys = omega (arith, accumulated-append xs ys)

accumulated_onto :
    (xs ys : List HypoTally) → accumulated (reverse_aux xs ys) ≡ accumulated xs + accumulated ys
accumulated_onto [] ys = omega arith
accumulated_onto (x ∷ xs) ys = omega (arith, accumulated_onto xs (x ∷ ys))

accumulated-kill : (hs : List HypoTally) → All IsOpen hs → accumulated (map kill_undecided hs) ≡ 0
accumulated-kill [] p = refl
accumulated-kill (h ∷ hs) (first, p) = ground (arith, first, accumulated-kill hs p)

All-onto : (xs ys : List HypoTally) → All IsOpen xs → All IsOpen ys → All IsOpen (reverse_aux xs ys)
All-onto [] ys p q = q
All-onto (x ∷ xs) ys (first, p) q = All-onto xs (x ∷ ys) p (first, q)

module _ (trues falses : ℕ → ℕ) (weight : ℕ) where
  weigh_hypo-IsOpen : (h : HypoTally) → IsOpen h → IsOpen (weigh_hypo trues falses weight h).0
  unfolding weigh_hypo
  weigh_hypo-IsOpen h p = ground arith

  -- The sum is that of the counts accumulated, where the value of the evidence is not novel.
  pub sum-accumulated :
      (done hs : List HypoTally) (sum alive : ℕ)
      → 0 < weight
      → All IsOpen done
      → All IsOpen hs
      → accumulated done ≡ sum
      → let w = walk_hypos trues falses weight done hs sum alive in accumulated w.tally ≡ w.sum
  unfolding walk_hypos weigh_hypo is_certain
  sum-accumulated done [] sum alive known d p total = omega (arith, accumulated_onto done [])
  sum-accumulated done (h ∷ hs) sum alive known d (first, p) total =
      elim (Bool-cases (is_certain trues falses weight h)) [
        | inl sure ↦
            let found : HypoTally = record (with_counts (trues h.hypo_uai) h) { hypo_status = 1 } in
            let before = map kill_undecided (reverse done) in
            let dead = accumulated-kill (reverse done) (All-onto done [] d tt) in
            rw sure (
              omega (
                arith,
                accumulated-append before (found ∷ map kill_undecided hs),
                dead,
                accumulated-kill hs p,
              ))
        | inr unsure ↦
            let (h', (added, dead)) = weigh_hypo trues falses weight h in
            let open' = weigh_hypo-IsOpen h first in
            let grown : accumulated (h' ∷ done) ≡ sum + added = ground (arith, first, unsure) in
            let more =
              sum-accumulated (h' ∷ done) hs (sum + added) (if dead then one_fewer alive else alive)
                known (open', d) p grown in
            ground (arith, more)
      ]

  -- A value that is novel adds one to the counts of each hypothesis alive, and the sum is only of these.
  pub sum-novel :
      (done hs : List HypoTally) (sum alive : ℕ)
      → weight ≡ 0
      → let w = walk_hypos trues falses weight done hs sum alive in
        (w.sum ≡ sum + num_alive hs)
        × (accumulated w.tally ≡ accumulated done + accumulated hs + num_alive hs)
  unfolding walk_hypos weigh_hypo is_certain
  sum-novel done [] sum alive novel = (omega arith, omega (arith, accumulated_onto done []))
  sum-novel done (h ∷ hs) sum alive novel =
      let (h', (added, dead)) = weigh_hypo trues falses weight h in
      let (more, grown) =
        sum-novel (h' ∷ done) hs (sum + added) (if dead then one_fewer alive else alive) novel in
      (ground (arith, more), ground (arith, grown))
