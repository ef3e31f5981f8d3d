-- ===== src/RuleKit/Sums.antt =====
-- libEA/rainfall.cpp, `CRainRuleKit`: the fails that the trap sums for each rule.
use mathlib.Core.Path.{subst}
use mathlib.Core.List.{append-nil, append_assoc}
use zandr_ea.Prelude.{
  length-append, length-replicate, length-map, length-take, ℕ, suc, zero, ◌+◌, ◌≤◌, ◌≡◌, refl, sym,
  ap, ◌∙◌, Bool, true, false, ◌&&◌, List, [], ◌∷◌, ◌++◌, map, some, ◌==◌, if◌then◌else◌, length,
  take, replicate, count, arith, All, to_int,
}
use zandr_ea.Types.{bindex_rule_auto_mode_fail}
use zandr_ea.Rule.{is_in_auto_mode}
use zandr_ea.RuleKit.{
  Row, take_exact, fail_column, write_column, write_fails, add_fails, sum_fails, spring_trap,
  enable_trap,
}

-- The fails of a rule that a trap of a span holds: those of a rule in auto mode only.
abbrev pub fails_in : ℕ → Row → ℕ
fails_in span r =
    if is_in_auto_mode r.rule then count bindex_rule_auto_mode_fail (take span r.log) else 0

take_exact-lem : (n : ℕ) (xs : List ℕ) → n ≤ length xs → take_exact n xs ≡ some (take n xs)
take_exact-lem zero xs h = refl
take_exact-lem (suc n) [] h = absurd (omega arith)
take_exact-lem (suc n) (x ∷ xs) h = rw (take_exact-lem n xs (omega arith))

abbrev count_true : List Bool → ℕ
count_true [] = 0
count_true (b ∷ bs) = to_int b + count_true bs

column_of : (auto : Bool) → List ℕ → List Bool
column_of auto xs = map (λ x. (x == bindex_rule_auto_mode_fail) && auto) xs

count_column :
    (auto : Bool) (xs : List ℕ)
    → count_true (column_of auto xs) ≡ (if auto then count bindex_rule_auto_mode_fail xs else 0)
unfolding column_of
count_column true [] = refl
count_column false [] = refl
count_column auto (x ∷ xs) = ground (arith, count_column auto xs)

length-add_fails :
    (row : List Bool) (sums : List ℕ)
    → length row ≡ length sums
    → length (add_fails row sums) ≡ length sums
length-add_fails [] sums h = refl
length-add_fails (b ∷ bs) [] h = absurd (omega arith)
length-add_fails (b ∷ bs) (s ∷ sums) h = ap suc (length-add_fails bs sums (omega arith))

add_fails-snoc :
    (row : List Bool) (b : Bool) (sums : List ℕ) (n : ℕ)
    → length row ≡ length sums
    → add_fails (row ++ b ∷ []) (sums ++ n ∷ [])
      ≡ add_fails row sums ++ (if b then n + 1 else n) ∷ []
add_fails-snoc [] b [] n h = refl
add_fails-snoc [] b (s ∷ sums) n h = absurd (omega arith)
add_fails-snoc (c ∷ row) b [] n h = absurd (omega arith)
add_fails-snoc (c ∷ row) b (s ∷ sums) n h =
    ap (◌∷◌ (if c then s + 1 else s)) (add_fails-snoc row b sums n (omega arith))

abbrev Wide : ℕ → List (List Bool) → Type 0
Wide n reg = All (λ row. length row ≡ n) reg

-- Summing a register row by row, after a column is written to it, adds the column's count last.
sum-write_column :
    (column : List Bool) (reg : List (List Bool)) (sums : List ℕ) (n : ℕ)
    → length column ≡ length reg
    → Wide (length sums) reg
    → sum_fails (write_column column reg) (sums ++ n ∷ [])
      ≡ sum_fails reg sums ++ (n + count_true column) ∷ []
unfolding write_column
sum-write_column [] [] sums n h w = ap (λ m. sums ++ m ∷ []) (omega_zero n)
  where
    omega_zero : (n : ℕ) → n ≡ n + 0
    omega_zero n = omega arith
sum-write_column (b ∷ bs) [] sums n h w = absurd (omega arith)
sum-write_column [] (row ∷ rows) sums n h w = absurd (omega arith)
sum-write_column (b ∷ bs) (row ∷ rows) sums n h (w, ws) =
    let wide = subst (λ k. Wide k rows) (sym (length-add_fails row sums w)) ws in
    ap (sum_fails (write_column bs rows)) (add_fails-snoc row b sums n w)
    ∙ sum-write_column bs rows (add_fails row sums) (if b then n + 1 else n) (omega arith) wide
    ∙ ap (λ m. sum_fails rows (add_fails row sums) ++ m ∷ []) (carry b n (count_true bs))
  where
    carry : (b : Bool) (n m : ℕ) → (if b then n + 1 else n) + m ≡ n + (to_int b + m)
    carry true n m = omega arith
    carry false n m = omega arith

Wide-write_column :
    (column : List Bool) (reg : List (List Bool)) (n : ℕ)
    → length column ≡ length reg
    → Wide n reg
    → Wide (suc n) (write_column column reg) × (length (write_column column reg) ≡ length reg)
unfolding write_column
Wide-write_column [] [] n h w = (tt, refl)
Wide-write_column (b ∷ bs) [] n h w = absurd (omega arith)
Wide-write_column [] (row ∷ rows) n h w = absurd (omega arith)
Wide-write_column (b ∷ bs) (row ∷ rows) n h (w, ws) =
    let (wide, size) = Wide-write_column bs rows n (omega arith) ws in
    ((length-append row (b ∷ []) ∙ omega arith, wide), ap suc size)

abbrev zeros : ℕ → List ℕ
zeros n = replicate n 0

replicate-snoc : (n : ℕ) → zeros (suc n) ≡ zeros n ++ 0 ∷ []
replicate-snoc zero = refl
replicate-snoc (suc n) = ap (◌∷◌ 0) (replicate-snoc n)

fail_column-lem :
    (span : ℕ) (r : Row)
    → span ≤ length r.log
    → (fail_column span r ≡ some (column_of (is_in_auto_mode r.rule) (take span r.log)))
      × (length (column_of (is_in_auto_mode r.rule) (take span r.log)) ≡ span)
      × (count_true (column_of (is_in_auto_mode r.rule) (take span r.log)) ≡ fails_in span r)
unfolding fail_column column_of
fail_column-lem span r h = (
  rw (fail_column, take_exact-lem span r.log h) refl,
  length-map _ (take span r.log) ∙ length-take span r.log ∙ omega arith,
  count_column (is_in_auto_mode r.rule) (take span r.log),
)

-- Writing the columns of more rules to a register and summing it.
sum-write_fails :
    (span w : ℕ) (rs : List Row) (reg : List (List Bool))
    → All (λ r. span ≤ length r.log) rs
    → length reg ≡ span
    → Wide w reg
    → (reg' : List (List Bool)) × (write_fails span rs reg ≡ some reg')
      × (sum_fails reg' (zeros (w + length rs)) ≡ sum_fails reg (zeros w) ++ map (fails_in span) rs)
unfolding write_fails
sum-write_fails span w [] reg h size wide =
    (reg, refl, ap (λ n. sum_fails reg (zeros n)) (plus_zero w) ∙ sym (append-nil _))
  where
    plus_zero : (n : ℕ) → n + 0 ≡ n
    plus_zero n = omega arith
sum-write_fails span w (r ∷ rs) reg (h, hs) size wide =
    let column = column_of (is_in_auto_mode r.rule) (take span r.log) in
    let (found, tall, counted) = fail_column-lem span r h in
    let (wide', size') = Wide-write_column column reg w (tall ∙ sym size) wide in
    let (reg', e, sums) =
      sum-write_fails span (suc w) rs (write_column column reg) hs (size' ∙ size) wide' in
    let column_sum =
      ap (sum_fails (write_column column reg)) (replicate-snoc w)
      ∙ sum-write_column column reg (zeros w) 0 (tall ∙ sym size)
          (subst (λ k. Wide k reg) (sym (length-replicate w 0)) wide)
      ∙ ap (λ m. sum_fails reg (zeros w) ++ m ∷ []) (zero_plus _ ∙ counted) in
    (
      reg',
      rw (write_fails, found) e,
      ap (λ n. sum_fails reg' (zeros n)) (shift w (length rs))
          ∙ sums
          ∙ ap (λ l. l ++ map (fails_in span) rs) column_sum
          ∙ append_assoc (sum_fails reg (zeros w)) (fails_in span r ∷ []) (map (fails_in span) rs),
    )
  where
    shift : (a b : ℕ) → a + suc b ≡ suc a + b
    shift a b = omega arith

    zero_plus : (n : ℕ) → 0 + n ≡ n
    zero_plus n = omega arith

empty_register :
    (span : ℕ) → Wide 0 (replicate span []) × (length (replicate {A = List Bool} span []) ≡ span)
empty_register zero = (tt, refl)
empty_register (suc n) = let (w, l) = empty_register n in ((refl, w), ap suc l)

sum_fails-empty : (reg : List (List Bool)) → sum_fails reg [] ≡ []
sum_fails-empty [] = refl
sum_fails-empty ([] ∷ rows) = sum_fails-empty rows
sum_fails-empty ((b ∷ bs) ∷ rows) = sum_fails-empty rows

-- The register's way through the logs comes to the fails of each rule in the span.
pub enable_trap-sums :
    (span : ℕ) (rs : List Row)
    → All (λ r. span ≤ length r.log) rs
    → enable_trap span rs ≡ some (spring_trap rs (map (fails_in span) rs))
unfolding enable_trap
enable_trap-sums span rs h =
    let (w, l) = empty_register span in
    let (reg, e, sums) = sum-write_fails span 0 rs (replicate span []) h l w in
    let total =
      ap (λ n. sum_fails reg (zeros n)) (plus _)
      ∙ sums
      ∙ ap (λ l. l ++ map (fails_in span) rs) (sum_fails-empty (replicate span [])) in
    rw (enable_trap, e, total)
  where
    plus : (n : ℕ) → n ≡ 0 + n
    plus n = omega arith
