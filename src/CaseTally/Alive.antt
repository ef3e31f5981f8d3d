-- ===== src/CaseTally/Alive.antt =====
-- libEA/case.cpp, `CCase::ApplyBayesGivenEvidUpIs` and `UpdateBayesProbabilities`: that an answer leaves
-- a hypothesis alive, so that the probabilities are computed.
use zandr_ea.Prelude.{
  ℕ, zero, suc, ◌+◌, ◌<◌, ◌≤◌, ◌≡◌, refl, false, ◌==◌, if◌then◌else◌, arith, Bool-cases, inl, inr,
  List, [], ◌∷◌, ◌++◌, reverse, map,
}
use mathlib.Core.List.{reverse_aux}
use zandr_ea.Types.{one_fewer}
use zandr_ea.CaseTally.{
  HypoTally, kill_undecided, with_counts, weight_of_evid, weigh_hypo, is_certain, walk_hypos,
}

-- The hypotheses that are alive.
abbrev pub num_alive : List HypoTally → ℕ
num_alive [] = 0
num_alive (h ∷ hs) = (if h.hypo_status == 0 then 0 else 1) + num_alive hs

num_alive-append : (xs ys : List HypoTally) → num_alive (xs ++ ys) ≡ num_alive xs + num_alive ys
num_alive-append [] ys = omega arith
num_alive-append (x ∷ xs) ys = omega (arith, num_alive-append xs ys)

num_alive_onto :
    (xs ys : List HypoTally) → num_alive (reverse_aux xs ys) ≡ num_alive xs + num_alive ys
num_alive_onto [] ys = omega arith
num_alive_onto (x ∷ xs) ys = omega (arith, num_alive_onto xs (x ∷ ys))

num_alive-kill : (xs : List HypoTally) → num_alive (map kill_undecided xs) ≤ num_alive xs
num_alive-kill [] = omega arith
num_alive-kill (x ∷ xs) = ground (arith, num_alive-kill xs)

module _ (trues falses : ℕ → ℕ) (weight : ℕ) where
  -- What the hypotheses alive have for them at the value given.
  abbrev pub support : List HypoTally → ℕ
  support [] = 0
  support (h ∷ hs) =
      (if h.hypo_status == 0 then 0 else if weight == 0 then 1 else trues h.hypo_uai) + support hs

  -- Where a hypothesis has something for it, the sum is not zero.
  pub sum-positive :
      (done hs : List HypoTally) (sum alive : ℕ)
      → 0 < sum + support hs
      → 0 < (walk_hypos trues falses weight done hs sum alive).sum
  unfolding walk_hypos weigh_hypo is_certain
  sum-positive done [] sum alive p = omega arith
  sum-positive done (h ∷ hs) sum alive p = elim (Bool-cases (is_certain trues falses weight h)) [
    | inl sure ↦ ground arith
    | inr unsure ↦
        let (h', (added, dead)) = weigh_hypo trues falses weight h in
        let more =
          sum-positive (h' ∷ done) hs (sum + added) (if dead then one_fewer alive else alive) in
        ground (arith, more)
  ]

  -- And one is alive.
  pub alive-positive :
      (done hs : List HypoTally) (sum alive : ℕ)
      → 0 < num_alive done + support hs
      → 0 < num_alive (walk_hypos trues falses weight done hs sum alive).tally
  unfolding walk_hypos weigh_hypo is_certain
  alive-positive done [] sum alive p = omega (arith, num_alive_onto done [])
  alive-positive done (h ∷ hs) sum alive p = elim (Bool-cases (is_certain trues falses weight h)) [
    | inl sure ↦
        let found : HypoTally = record (with_counts (trues h.hypo_uai) h) { hypo_status = 1 } in
        rw sure (
          omega (
            arith,
            num_alive-append (map kill_undecided (reverse done)) (found ∷ map kill_undecided hs),
          ))
    | inr unsure ↦
        let (h', (added, dead)) = weigh_hypo trues falses weight h in
        let more =
          alive-positive (h' ∷ done) hs (sum + added) (if dead then one_fewer alive else alive) in
        ground (arith, more)
  ]

  -- The hypotheses counted as alive are no fewer than those that are.
  pub alive-counted :
      (done hs : List HypoTally) (sum alive : ℕ)
      → num_alive done + num_alive hs ≤ alive
      → let w = walk_hypos trues falses weight done hs sum alive in num_alive w.tally ≤ w.alive
  unfolding walk_hypos weigh_hypo is_certain
  alive-counted done [] sum alive p = omega (arith, num_alive_onto done [])
  alive-counted done (h ∷ hs) sum alive p = elim (Bool-cases (is_certain trues falses weight h)) [
    | inl sure ↦
        let found : HypoTally = record (with_counts (trues h.hypo_uai) h) { hypo_status = 1 } in
        let living : (h.hypo_status == 0) ≡ false = ground arith in
        rw sure (
          ground (
            arith,
            num_alive-append (map kill_undecided (reverse done)) (found ∷ map kill_undecided hs),
            num_alive-kill (reverse done),
            num_alive-kill hs,
            num_alive_onto done [],
            living,
          ))
    | inr unsure ↦
        let (h', (added, dead)) = weigh_hypo trues falses weight h in
        let more =
          alive-counted (h' ∷ done) hs (sum + added) (if dead then one_fewer alive else alive) in
        ground (arith, more)
  ]

-- The support of the hypotheses alive is not zero, whatever their weight.
support-known :
    (trues falses : ℕ → ℕ) (weight : ℕ) (hs : List HypoTally)
    → 0 < weight
    → weight_of_evid trues hs ≤ support trues falses weight hs
support-known trues falses weight [] p = omega arith
support-known trues falses weight (h ∷ hs) p =
    let rest = support-known trues falses weight hs p in ground (arith, rest)

support-novel :
    (trues falses : ℕ → ℕ) (hs : List HypoTally) → support trues falses 0 hs ≡ num_alive hs
support-novel trues falses [] = refl
support-novel trues falses (h ∷ hs) = ground (arith, support-novel trues falses hs)

pub support-positive :
    (trues falses : ℕ → ℕ) (hs : List HypoTally)
    → 0 < num_alive hs
    → 0 < support trues falses (weight_of_evid trues hs) hs
support-positive trues falses hs p = go (weight_of_evid trues hs) refl
  where
    go : (w : ℕ) → weight_of_evid trues hs ≡ w → 0 < support trues falses w hs
    go zero none_known = omega (arith, support-novel trues falses hs)
    go (suc w) known = omega (arith, support-known trues falses (suc w) hs (omega arith), known)
