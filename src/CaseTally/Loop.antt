-- ===== src/CaseTally/Loop.antt =====
-- libEA/case.cpp, `CCase::UpdateBayesProbabilities`: the loop over the hypotheses.
use zandr_ea.Prelude.{
  ℕ, zero, suc, ◌+◌, ◌*◌, ◌/◌, ◌<◌, ◌≤◌, ◌≡◌, refl, Bool, true, false, ◌&&◌, ◌||◌, ◌==◌,
  if◌then◌else◌, arith, Bool-cases, inl, inr, List, [], ◌∷◌, All, some, ltb, max,
}
use native.Mathlib.Nat.{add-mul, div-mul-le_self, mod-le, le_of_mul-le-mul_right, mul-le-mul_right}
use mathlib.Core.Path.{subst}
use zandr_ea.CaseTally.{
  HypoTally, Mapp, mapp_step, less_short, short_mod, counts_weighed, probability,
}
use zandr_ea.CaseTally.Keys.{has_hypo, counts_of-has_hypo}

-- What a function gives over the hypotheses, in all.
abbrev pub total_of : (HypoTally → ℕ) → List HypoTally → ℕ
total_of f [] = 0
total_of f (h ∷ hs) = f h + total_of f hs

-- Whether a hypothesis of the identifier has a given value.
abbrev pub attains : (HypoTally → ℕ) → ℕ → ℕ → List HypoTally → Bool
attains f u p [] = false
attains f u p (h ∷ hs) = ((h.hypo_uai == u) && (f h == p)) || attains f u p hs

-- The probability that a hypothesis has.
abbrev pub prob_of : Bool → HypoTally → ℕ
prob_of prior h = if prior then h.prior_prob_pct_x10 else h.post_prob_pct_x10

probability-part :
    (prior : Bool) (total : ℕ) (h : HypoTally)
    → probability prior total h * total ≤ counts_weighed prior total h * 1000
probability-part prior total h =
    let counts = counts_weighed prior total h * 1000 in
    let whole = div-mul-le_self counts total in
    let cut = mul-le-mul_right total (mod-le (counts / total) short_mod) in
    omega (arith, whole, cut)

module _ (prior : Bool) (total : ℕ) where
  parts :
      (hs : List HypoTally)
      → total_of (probability prior total) hs * total
        ≤ total_of (counts_weighed prior total) hs * 1000
  parts [] = omega arith
  parts (h ∷ hs) = omega (
    arith,
    parts hs,
    probability-part prior total h,
    add-mul (probability prior total h) (total_of (probability prior total) hs) total,
  )

  -- The probabilities are in all no more than the whole.
  pub total_of-probability :
      (hs : List HypoTally)
      → 0 < total
      → total_of (counts_weighed prior total) hs ≡ total
      → total_of (probability prior total) hs ≤ 1000
  total_of-probability hs pos whole =
      le_of_mul-le-mul_right {k = total} (omega (arith, parts hs, whole)) pos

-- What a turn leaves.
pub record Stepped (all : List HypoTally) (h : HypoTally) (p : ℕ) (m m' : Mapp) : Type 0 where
  pub pct : m'.mapp_pct_x10 ≡ max m.mapp_pct_x10 p
  pub sure : m'.at_100pct ≡ ltb 989 m'.mapp_pct_x10
  pub known : has_hypo m'.uai_mapp all ≡ true
  pub from :
      (((m.uai_mapp == m'.uai_mapp) && (m.mapp_pct_x10 == m'.mapp_pct_x10))
        || ((h.hypo_uai == m'.uai_mapp) && (p == m'.mapp_pct_x10)))
      ≡ true

pub mapp_step-Stepped :
    (counts : HypoTally → ℕ) (all : List HypoTally) (h : HypoTally) (p : ℕ) (m : Mapp)
    → has_hypo h.hypo_uai all ≡ true
    → has_hypo m.uai_mapp all ≡ true
    → m.mapp_pct_x10 + p ≤ 1000
    → m.at_100pct ≡ ltb 989 m.mapp_pct_x10
    → (m' : Mapp) × (mapp_step counts all h p m ≡ some m') × Stepped all h p m m'
unfolding mapp_step
mapp_step-Stepped counts all h p m a b room sure = elim (Bool-cases m.at_100pct) [
  | inl certain ↦ (
    m,
    rw (mapp_step, certain) refl,
    record { pct = ground arith; sure = sure; known = b; from = ground arith },
  )
  | inr unsure ↦ elim (Bool-cases (ltb p m.mapp_pct_x10)) [
    | inl less ↦
        let test : less_short p m.mapp_pct_x10 ≡ true = ground arith in
        (
          record m { at_100pct = less_short 989 m.mapp_pct_x10 },
          rw (mapp_step, unsure, test) refl,
          record { pct = ground arith; sure = ground arith; known = b; from = ground arith },
        )
    | inr atleast ↦
        let test : less_short p m.mapp_pct_x10 ≡ false = ground arith in
        elim (Bool-cases (ltb m.mapp_pct_x10 p)) [
          | inl more ↦
              let beyond : less_short m.mapp_pct_x10 p ≡ true = ground arith in
              (
                record { mapp_pct_x10 = p; uai_mapp = h.hypo_uai; at_100pct = less_short 989 p },
                rw (mapp_step, unsure, test, beyond) refl,
                record { pct = ground arith; sure = ground arith; known = a; from = ground arith },
              )
          | inr same ↦
              let beyond : less_short m.mapp_pct_x10 p ≡ false = ground arith in
              let (other, found) = counts_of-has_hypo m.uai_mapp all b in
              let settled =
                λ (u : ℕ). record m { uai_mapp = u; at_100pct = less_short 989 m.mapp_pct_x10 } in
              elim (Bool-cases (ltb (counts other) (counts h))) [
                | inl rarer ↦ (
                  settled h.hypo_uai,
                  rw (mapp_step, unsure, test, beyond, found, rarer) refl,
                  record {
                    pct = ground arith;
                    sure = ground arith;
                    known = a;
                    from = ground arith;
                  },
                )
                | inr as_often ↦ (
                  settled m.uai_mapp,
                  rw (mapp_step, unsure, test, beyond, found, as_often) refl,
                  record {
                    pct = ground arith;
                    sure = ground arith;
                    known = b;
                    from = ground arith;
                  },
                )
              ]
        ]
  ]
]

pub attains-has_hypo :
    (f : HypoTally → ℕ) (u : ℕ) (hs : List HypoTally)
    → has_hypo u hs ≡ true
    → All (λ h. f h ≤ 0) hs
    → attains f u 0 hs ≡ true
attains-has_hypo f u [] p low = absurd (ground (arith, p))
attains-has_hypo f u (h ∷ hs) p (first, low) = elim (Bool-cases (h.hypo_uai == u)) [
  | inl same ↦ ground (arith, first, same)
  | inr other ↦ ground (arith, attains-has_hypo f u hs (ground (arith, p, other)) low)
]

pub attains_either :
    (f : HypoTally → ℕ) (u v p : ℕ) (hs : List HypoTally)
    → has_hypo u hs ≡ true
    → All (λ h. f h ≤ p) hs
    → (((u == v) && (0 == p)) || attains f v p hs) ≡ true
    → attains f v p hs ≡ true
attains_either f u v zero hs known most from = elim (Bool-cases (u == v)) [
  | inl same ↦
      let eq : u ≡ v = ground arith in
      attains-has_hypo f v hs (subst (λ x. has_hypo x hs ≡ true) eq known) most
  | inr other ↦ ground (arith, other, from)
]
attains_either f u v (suc p) hs known most from = ground (arith, from)

-- What the loop leaves.
pub record Looped (prior : Bool) (total : ℕ) (all hs : List HypoTally) (m m' : Mapp) : Type 0 where
  pub pct : m.mapp_pct_x10 ≤ m'.mapp_pct_x10
  pub sure : m'.at_100pct ≡ ltb 989 m'.mapp_pct_x10
  pub most : All (λ h. probability prior total h ≤ m'.mapp_pct_x10) hs
  pub from :
      (((m.uai_mapp == m'.uai_mapp) && (m.mapp_pct_x10 == m'.mapp_pct_x10))
        || attains (probability prior total) m'.uai_mapp m'.mapp_pct_x10 hs)
      ≡ true

pub taken_from :
    (u u1 u' a a1 a' v q : ℕ) (rest : Bool)
    → (((u == u1) && (a == a1)) || ((v == u1) && (q == a1))) ≡ true
    → (((u1 == u') && (a1 == a')) || rest) ≡ true
    → (((u == u') && (a == a')) || (((v == u') && (q == a')) || rest)) ≡ true
taken_from u u1 u' a a1 a' v q rest s l = ground arith
