-- ===== src/Prelude/Counts.antt =====
-- Whether and how often a number stands in a list, and a moving window over a list.
use Prim.Native.Nat.{ℕ, zero, suc, ◌+◌, ◌≤◌, ◌<◌}
use mathlib.Core.Path.{◌≡◌}
use mathlib.Core.Bool.{Bool, true, false}
use mathlib.Core.List.{List, [], ◌∷◌, ◌++◌}
use native.Mathlib.Omega.{arith}
use zandr_ea.Prelude.Tests.{◌==◌, if◌then◌else◌}
use zandr_ea.Prelude.Lists.{length, get_or, take, init, replicate, take-init}

abbrev pub count : ℕ → List ℕ → ℕ
count wanted [] = 0
count wanted (n ∷ ns) = count wanted ns + (if n == wanted then 1 else 0)

-- `std::find` on numbers: whether one is in a list.
abbrev pub has_id : ℕ → List ℕ → Bool
has_id i [] = false
has_id i (j ∷ js) = if j == i then true else has_id i js

abbrev pub sum : List ℕ → ℕ
sum [] = 0
sum (x ∷ xs) = x + sum xs

pub has_id-snoc :
    (i j : ℕ) (es : List ℕ) → has_id i (es ++ j ∷ []) ≡ (if j == i then true else has_id i es)
has_id-snoc i j [] = ground arith
has_id-snoc i j (e ∷ es) = ground (arith, has_id-snoc i j es)

pub count-append :
    (wanted : ℕ) (front back : List ℕ)
    → count wanted (front ++ back) ≡ count wanted front + count wanted back
count-append wanted [] back = omega arith
count-append wanted (n ∷ ns) back = omega (arith, count-append wanted ns back)

-- The window one longer holds the entry at its far end besides.
pub count-take-suc :
    (a n d : ℕ) (xs : List ℕ)
    → n < length xs
    → count a (take (suc n) xs) ≡ count a (take n xs) + (if get_or xs n d == a then 1 else 0)
count-take-suc a n d [] h = absurd (omega arith)
count-take-suc a zero d (x ∷ xs) h = omega arith
count-take-suc a (suc n) d (x ∷ xs) h = omega (arith, count-take-suc a n d xs (omega arith))

-- A window of n + 1 entries moves by one: the entry at its far end leaves as `b` enters.
pub count-slide :
    (a b n d : ℕ) (xs : List ℕ)
    → n < length xs
    → count a (take (suc n) (b ∷ init xs)) + (if get_or xs n d == a then 1 else 0)
      ≡ (if b == a then 1 else 0) + count a (take (suc n) xs)
count-slide a b n d xs h = omega (arith, count-take-suc a n d xs h, ap_count)
  where
    ap_count : count a (take n (init xs)) ≡ count a (take n xs)
    ap_count = rw (take-init n xs h)

pub count-take-replicate :
    (a b n m : ℕ) → n ≤ m → count a (take n (replicate m b)) ≡ (if b == a then n else 0)
count-take-replicate a b zero m h = ground arith
count-take-replicate a b (suc n) zero h = absurd (omega arith)
count-take-replicate a b (suc n) (suc m) h =
    ground (arith, count-take-replicate a b n m (omega arith))
