-- ===== src/RuleKit/Trap.antt =====
-- libEA/rainfall.cpp, `CRainRuleKit::EnableTrapAndSayResult`: which rule the trap finds.
use mathlib.Core.Path.{subst}
use zandr_ea.Prelude.{
  ◌⊎◌, inl, inr, Bool-cases, ltb→lt, length-map, ℕ, suc, zero, ◌+◌, ◌≤◌, ◌<◌, ◌≡◌, ◌≢◌, refl, sym,
  ◌∙◌, true, false, List, [], ◌∷◌, map, some, ltb, length, get_or, get_elem?, sum, arith, All,
}
use zandr_ea.Types.{rule_rain_fails_in_empty_trap_max}
use zandr_ea.Rule.{is_in_auto_mode}
use zandr_ea.RuleKit.{Row, max_from, max_element, spring_trap, enable_trap, RuleTrapResult, uai_of}
use zandr_ea.RuleKit.Sums.{fails_in, enable_trap-sums}

ltb_le : (v x : ℕ) → ltb v x ≡ true → v ≤ x
ltb_le v x h = ground arith

not_ltb : (v x : ℕ) → ltb v x ≡ false → x ≤ v
not_ltb v x h = ground arith

-- The entry at the place of the maximum, and that no entry is larger.
max_from-lem :
    (at v i : ℕ) (xs : List ℕ)
    → ((max_from at v i xs ≡ at) × All (λ x. x ≤ v) xs)
      ⊎ ((k : ℕ) × (max_from at v i xs ≡ i + k)
          × (k < length xs)
          × (v ≤ get_or xs k 0)
          × All (λ x. x ≤ get_or xs k 0) xs)
max_from-lem at v i [] = inl (refl, tt)
max_from-lem at v i (x ∷ xs) = elim (Bool-cases (ltb v x)) [
  | inl bigger ↦ rw bigger (elim (max_from-lem i x (suc i) xs) [
    | inl (e, le) ↦ inr (0, e ∙ omega arith, omega arith, ltb_le v x bigger, (omega arith, le))
    | inr (k, e, lt, ge, le) ↦
        inr (suc k, e ∙ omega arith, omega arith, omega (arith, ltb_le v x bigger), (ge, le))
  ])
  | inr smaller ↦ rw smaller (elim (max_from-lem at v (suc i) xs) [
    | inl (e, le) ↦ inl (e, (not_ltb v x smaller, le))
    | inr (k, e, lt, ge, le) ↦
        inr (suc k, e ∙ omega arith, omega arith, ge, (omega (arith, not_ltb v x smaller), le))
  ])
]

max_element-lem :
    (x : ℕ) (xs : List ℕ)
    → (max_element (x ∷ xs) < length (x ∷ xs))
      × All (λ y. y ≤ get_or (x ∷ xs) (max_element (x ∷ xs)) 0) (x ∷ xs)
max_element-lem x xs = elim (max_from-lem 0 x 1 xs) [
  | inl (e, le) ↦ subst Best (sym e) (omega arith, (omega arith, le))
  | inr (k, e, lt, ge, le) ↦ subst Best (sym (e ∙ one_plus k)) (omega arith, (ge, le))
]
  where
    Best : ℕ → Type 0
    Best j = (j < length (x ∷ xs)) × All (λ y. y ≤ get_or (x ∷ xs) j 0) (x ∷ xs)

    one_plus : (k : ℕ) → 1 + k ≡ suc k
    one_plus k = omega arith

-- The row at a place.
row_at :
    (span : ℕ) (rs : List Row) (j : ℕ)
    → j < length rs
    → (r : Row) × (get_elem? rs j ≡ some r)
      × (get_or (map uai_of rs) j 0 ≡ uai_of r)
      × (get_or (map (fails_in span) rs) j 0 ≡ fails_in span r)
row_at span [] j h = absurd (omega arith)
row_at span (r ∷ rs) zero h = (r, refl, refl, refl)
row_at span (r ∷ rs) (suc j) h = row_at span rs j (omega arith)

all_rows :
    (f : Row → ℕ) (n : ℕ) (rs : List Row) → All (λ y. y ≤ n) (map f rs) → All (λ r. f r ≤ n) rs
all_rows f n [] h = tt
all_rows f n (r ∷ rs) (h, hs) = (h, all_rows f n rs hs)

sum_zero : (xs : List ℕ) → All (λ y. y ≤ 0) xs → sum xs ≡ 0
sum_zero [] h = refl
sum_zero (x ∷ xs) (h, hs) = omega (arith, sum_zero xs hs)

fails_auto : (span : ℕ) (r : Row) → 0 < fails_in span r → is_in_auto_mode r.rule ≡ true
fails_auto span r h = ground arith

-- What the trap is to find: nothing while there are no more than three fails in all, and else a rule
-- of the kit that is in auto mode and has as many fails as any.
pub TrapsMost : ℕ → List Row → RuleTrapResult → Type 0
TrapsMost span rs result =
    ((sum (map (fails_in span) rs) ≤ rule_rain_fails_in_empty_trap_max)
      × (result.uai_of_rule_trapped_for_new_case ≡ 0))
    ⊎ ((rule_rain_fails_in_empty_trap_max < sum (map (fails_in span) rs))
        × (j : ℕ) × (r : Row) × (get_elem? rs j ≡ some r)
        × (uai_of r ≡ result.uai_of_rule_trapped_for_new_case)
        × (is_in_auto_mode r.rule ≡ true)
        × All (λ r'. fails_in span r' ≤ fails_in span r) rs)

most_fails :
    (span : ℕ) (rs : List Row)
    → 0 < sum (map (fails_in span) rs)
    → (j : ℕ) × (r : Row) × (get_elem? rs j ≡ some r)
      × (uai_of r ≡ get_or (map uai_of rs) (max_element (map (fails_in span) rs)) 0)
      × (is_in_auto_mode r.rule ≡ true)
      × All (λ r'. fails_in span r' ≤ fails_in span r) rs
most_fails span [] h = absurd (omega arith)
most_fails span (r0 ∷ rs) h =
    let sums = map (fails_in span) (r0 ∷ rs) in
    let j = max_element sums in
    let (lt, best) = max_element-lem (fails_in span r0) (map (fails_in span) rs) in
    let (r, at, uai, fails) =
      row_at span (r0 ∷ rs) j (subst (λ n. j < n) (length-map (fails_in span) (r0 ∷ rs)) lt) in
    let le = subst (λ n. All (λ y. y ≤ n) sums) fails best in
    (
      j,
      r,
      at,
      sym uai,
      fails_auto span r (positive (fails_in span r) sums le h),
      all_rows (fails_in span) (fails_in span r) (r0 ∷ rs) le,
    )
  where
    positive : (n : ℕ) (xs : List ℕ) → All (λ y. y ≤ n) xs → 0 < sum xs → 0 < n
    positive zero xs le h = absurd (omega (arith, sum_zero xs le))
    positive (suc n) xs le h = omega arith

-- The trap of a kit whose logs are as long as its span finds a rule to open a case on just when the
-- logs of the rules in auto mode hold more than three fails in the span, and then one with the most.
pub enable_trap-most :
    (span : ℕ) (rs : List Row)
    → All (λ r. span ≤ length r.log) rs
    → (result : RuleTrapResult) × (enable_trap span rs ≡ some result) × TrapsMost span rs result
unfolding TrapsMost spring_trap
enable_trap-most span rs h = (
  spring_trap rs (map (fails_in span) rs),
  enable_trap-sums span rs h,
  elim (Bool-cases (ltb rule_rain_fails_in_empty_trap_max (sum (map (fails_in span) rs)))) [
    | inl full ↦
        let many = ltb→lt _ _ full in
        let (j, r, at, uai, auto, le) = most_fails span rs (omega arith) in
        inr (many, j, r, at, uai ∙ rw full, auto, le)
    | inr empty ↦ inl (not_ltb _ _ empty, rw empty)
  ],
)

-- The trap never wipes the snapshots of the rule that it has trapped.
enable_trap-spares :
    (span : ℕ) (rs : List Row) (result : RuleTrapResult)
    → enable_trap span rs ≡ some result
    → (result.uai_of_rule_to_wipe_of_snapshots ≡ 0)
      ⊎ (result.uai_of_rule_to_wipe_of_snapshots ≢ result.uai_of_rule_trapped_for_new_case)
unfolding enable_trap spring_trap
enable_trap-spares span rs result e = ground arith
