-- ===== src/Rain/Bins.antt =====
-- libEA/viewParts.cpp, `CHistogramFact`: the counts in the bins of a slice.
use zandr_ea.Prelude.{
  Bool-cases, inl, inr, leb, length-take, length-append, ℕ, zero, suc, ◌-◌, ◌<◌, ◌≤◌, ◌≡◌, refl, ap,
  List, [], ◌∷◌, ◌++◌, some, ◌==◌, if◌then◌else◌, arith, length, get_or, get_elem?, take, count,
  replicate,
}
use zandr_ea.TimeAxis.{resize}
use zandr_ea.Rain.{change_bin}

pub length-change_bin : (i : ℕ) (f : ℕ → ℕ) (xs : List ℕ) → length (change_bin i f xs) ≡ length xs
length-change_bin i f [] = refl
length-change_bin zero f (x ∷ xs) = refl
length-change_bin (suc i) f (x ∷ xs) = ap suc (length-change_bin i f xs)

pub get_or-change_bin :
    (i j : ℕ) (f : ℕ → ℕ) (xs : List ℕ)
    → j < length xs
    → get_or (change_bin i f xs) j 0 ≡ (if i == j then f (get_or xs j 0) else get_or xs j 0)
get_or-change_bin i j f [] h = absurd (omega arith)
get_or-change_bin zero zero f (x ∷ xs) h = refl
get_or-change_bin zero (suc j) f (x ∷ xs) h = ground arith
get_or-change_bin (suc i) zero f (x ∷ xs) h = ground arith
get_or-change_bin (suc i) (suc j) f (x ∷ xs) h =
    ground (arith, get_or-change_bin i j f xs (omega arith))

pub get_elem?-or : (xs : List ℕ) (i d : ℕ) → i < length xs → get_elem? xs i ≡ some (get_or xs i d)
get_elem?-or [] i d h = absurd (omega arith)
get_elem?-or (x ∷ xs) zero d h = refl
get_elem?-or (x ∷ xs) (suc i) d h = get_elem?-or xs i d (omega arith)

pub take-extended : (n : ℕ) (xs ys : List ℕ) → n ≤ length xs → take n (xs ++ ys) ≡ take n xs
take-extended zero xs ys h = refl
take-extended (suc n) [] ys h = absurd (omega arith)
take-extended (suc n) (x ∷ xs) ys h = ap (◌∷◌ x) (take-extended n xs ys (omega arith))

pub take-cut : (n m : ℕ) (xs : List ℕ) → n ≤ m → take n (take m xs) ≡ take n xs
take-cut zero m xs h = refl
take-cut (suc n) zero xs h = absurd (omega arith)
take-cut (suc n) (suc m) [] h = refl
take-cut (suc n) (suc m) (x ∷ xs) h = ap (◌∷◌ x) (take-cut n m xs (omega arith))

pub count-length : (b : ℕ) (xs : List ℕ) → count b xs ≤ length xs
count-length b [] = omega arith
count-length b (x ∷ xs) = ground (arith, count-length b xs)

-- A resize leaves the entries that a window within its size holds.
pub take-resize :
    (n m v : ℕ) (xs : List ℕ)
    → n ≤ m
    → n ≤ length xs
    → (take n (resize m v xs) ≡ take n xs) × (n ≤ length (resize m v xs))
unfolding resize
take-resize n m v xs h k = elim (Bool-cases (leb m (length xs))) [
  | inl shorter ↦ rw shorter (take-cut n m xs h, omega (arith, length-take m xs))
  | inr longer ↦ rw longer (
    take-extended n xs (replicate (m - length xs) v) k,
    omega (arith, length-append xs (replicate (m - length xs) v)),
  )
]

-- The bins of a slice that is all unavailable.
pub new_bins : (n b : ℕ) → b < 4 → get_or (0 ∷ 0 ∷ 0 ∷ n ∷ []) b 0 ≡ (if 3 == b then n else 0)
new_bins n zero h = refl
new_bins n (suc zero) h = refl
new_bins n (suc (suc zero)) h = refl
new_bins n (suc (suc (suc zero))) h = refl
new_bins n (suc (suc (suc (suc b)))) h = absurd (omega arith)
