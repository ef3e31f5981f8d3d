-- ===== src/Rain/Analog/Sums.antt =====
-- libEA/rainfall.cpp, `CRainAnalog::UpdateStatistics_Analog`: the sums of the bins over the register.
use zandr_ea.Prelude.{
  ℕ, zero, suc, ◌+◌, ◌<◌, ◌≤◌, ◌≡◌, refl, sym, ap, ◌∙◌, List, [], ◌∷◌, ◌++◌, Option, some, none,
  ◌==◌, if◌then◌else◌, arith, length, get_or, take, count, map,
}
use zandr_ea.Rain.Bins.{length-change_bin, get_or-change_bin}
use zandr_ea.Rain.Analog.{row_of, read_bindex_log_into_rainfall, add_row, bin_sums_of}
use mathlib.Core.Path.{subst}

abbrev pub left_over : List ℕ → List (Option ℕ) → List (Option ℕ)
left_over [] register = register
left_over (v ∷ vs) [] = []
left_over (v ∷ vs) (row ∷ register) = left_over vs register

-- A log that fits the register overwrites its first rows.
pub read-rows :
    (log : List ℕ) (register : List (Option ℕ))
    → length log ≤ length register
    → (read_bindex_log_into_rainfall log register ≡ some (map row_of log ++ left_over log register))
      × (length (map row_of log ++ left_over log register) ≡ length register)
read-rows [] register h = (refl, refl)
read-rows (v ∷ vs) [] h = absurd (omega arith)
read-rows (v ∷ vs) (row ∷ register) h =
    let (reads, same) = read-rows vs register (omega arith) in (rw reads refl, ap suc same)

-- The entries of a bin in a part of a log. Those of bin 0 are not counted.
abbrev pub counted_in : ℕ → List ℕ → ℕ
counted_in b log = if b == 0 then 0 else count b log

length-add_row : (row : Option ℕ) (sums : List ℕ) → length (add_row row sums) ≡ length sums
length-add_row none sums = refl
length-add_row (some bin) sums = length-change_bin bin suc sums

add_row-counts :
    (v b : ℕ) (log sums : List ℕ)
    → b < length sums
    → get_or (add_row (row_of v) sums) b 0 + counted_in b log
      ≡ get_or sums b 0 + counted_in b (v ∷ log)
add_row-counts zero b log sums h = ground arith
add_row-counts (suc v) b log sums h = ground (arith, get_or-change_bin (suc v) b suc sums h)

pub bin_sums_of-counts :
    (depth : ℕ) (log sums : List ℕ) (rest : List (Option ℕ))
    → depth ≤ length log
    → (out : List ℕ) × (bin_sums_of depth (map row_of log ++ rest) sums ≡ some out)
      × ((b : ℕ)
          → b < length sums
          → get_or out b 0 ≡ get_or sums b 0 + counted_in b (take depth log))
bin_sums_of-counts zero log sums rest h = (sums, refl, λ b low. ground arith)
bin_sums_of-counts (suc depth) [] sums rest h = absurd (omega arith)
bin_sums_of-counts (suc depth) (v ∷ log) sums rest h =
    let (out, sums_to, counts) =
      bin_sums_of-counts depth log (add_row (row_of v) sums) rest (omega arith) in
    (
      out,
      sums_to,
      λ b low.
          counts b (subst (λ m. b < m) (sym (length-add_row (row_of v) sums)) low)
          ∙ add_row-counts v b (take depth log) sums low,
    )
