-- ===== src/TimeAxis/Resize.antt =====
-- libEA/sequence.cpp, `CSeqTimeAxis`: the resize of the log.
use native.Mathlib.Nat.{mod-add-div', mod-lt, lt_of_mul-lt-mul_right}
use zandr_ea.Prelude.{
  ℕ, suc, ◌+◌, ◌-◌, ◌*◌, ◌/◌, ◌≤◌, ◌<◌, max, ◌≡◌, refl, ap, true, List, [], ◌∷◌, ◌++◌, arith,
  length, take, replicate, length-append, Bool-cases, ltb→lt, inl, inr, length-replicate, false,
  ltb,
}
use zandr_ea.Types.{okay_all_done, datalog_size_cycles_max}
use zandr_ea.TimeAxis.{TimeAxis, resize, resize_logging, last_or}

take-append : (xs ys : List ℕ) → take (length xs) (xs ++ ys) ≡ xs
take-append [] ys = refl
take-append (x ∷ xs) ys = ap (◌∷◌ x) (take-append xs ys)

-- Division rounded up: the cycles that cover the seconds, and no more of them than any bound whose
-- cycles cover the seconds too.
round_up :
    (secs per most : ℕ)
    → 0 < per
    → secs ≤ most * per
    → (secs ≤ (secs + per - 1) / per * per) × ((secs + per - 1) / per ≤ most)
round_up secs per most pos h =
    let q = (secs + per - 1) / per in
    let parts = mod-add-div' (secs + per - 1) per in
    let small = mod-lt (secs + per - 1) pos in
    let below : q * per < suc most * per = omega arith in
    let fits : q < suc most = lt_of_mul-lt-mul_right per below in (omega arith, omega arith)

resize-grows :
    (n v : ℕ) (xs : List ℕ)
    → length xs < n
    → (length (resize n v xs) ≡ n) × (take (length xs) (resize n v xs) ≡ xs)
unfolding resize
resize-grows n v xs h =
    let fill = replicate (n - length xs) v in
    let size = length-append xs fill in
    let filled = length-replicate (n - length xs) v in
    let kept = take-append xs fill in ground arith

take_all : (xs : List ℕ) → take (length xs) xs ≡ xs
take_all [] = refl
take_all (x ∷ xs) = ap (◌∷◌ x) (take_all xs)

resize_logging-within :
    (secs : ℕ) (a : TimeAxis)
    → (resize_logging secs a).1 ≡ okay_all_done
    → secs ≤ datalog_size_cycles_max * a.secs_per_cycle
unfolding resize_logging
resize_logging-within secs a ok = ground arith

-- The log that a resize makes.
abbrev resized_log : ℕ → TimeAxis → List ℕ
resized_log secs a =
    resize ((secs + a.secs_per_cycle - 1) / a.secs_per_cycle)
      (last_or 0 a.times_held_newest_to_oldest) a.times_held_newest_to_oldest

resize_logging-same :
    (secs : ℕ) (a : TimeAxis) → ltb a.secs_logging secs ≡ false → (resize_logging secs a).0 ≡ a
unfolding resize_logging
resize_logging-same secs a same = ground arith

resize_logging-more :
    (secs : ℕ) (a : TimeAxis)
    → (resize_logging secs a).1 ≡ okay_all_done
    → ltb a.secs_logging secs ≡ true
    → (resize_logging secs a).0 ≡ record a {
      times_held_newest_to_oldest = resized_log secs a;
      secs_logging = length (resized_log secs a) * a.secs_per_cycle;
    }
unfolding resize_logging
resize_logging-more secs a ok more = ground arith

log_shorter : (l n per secs : ℕ) → l * per < secs → secs ≤ n * per → l < n
log_shorter l n per secs h g = lt_of_mul-lt-mul_right per (omega arith)

-- A resize that succeeds leaves a log that covers the seconds asked for, no more than 1440 cycles or
-- the size it had, with all it held in front: given that the log covered the seconds it said.
pub resize_logging-covers :
    (secs : ℕ) (a : TimeAxis)
    → 0 < a.secs_per_cycle
    → a.secs_logging ≡ length a.times_held_newest_to_oldest * a.secs_per_cycle
    → (resize_logging secs a).1 ≡ okay_all_done
    → let b = (resize_logging secs a).0 in
      (secs ≤ length b.times_held_newest_to_oldest * b.secs_per_cycle)
      × (b.secs_logging ≡ length b.times_held_newest_to_oldest * b.secs_per_cycle)
      × (length b.times_held_newest_to_oldest
          ≤ max datalog_size_cycles_max (length a.times_held_newest_to_oldest))
      × (take (length a.times_held_newest_to_oldest) b.times_held_newest_to_oldest
          ≡ a.times_held_newest_to_oldest)
resize_logging-covers secs a pos cover ok =
    let log = a.times_held_newest_to_oldest in
    let n = (secs + a.secs_per_cycle - 1) / a.secs_per_cycle in
    let within = resize_logging-within secs a ok in
    let (fits, few) = round_up secs a.secs_per_cycle datalog_size_cycles_max pos within in
    elim (Bool-cases (ltb a.secs_logging secs)) [
      | inl more ↦
          let less = ltb→lt a.secs_logging secs more in
          let longer = log_shorter (length log) n a.secs_per_cycle secs (omega arith) fits in
          let (size, kept) = resize-grows n (last_or 0 log) log longer in
          rw (resize_logging-more secs a ok more) (ground arith)
      | inr same ↦ rw (resize_logging-same secs a same) (ground (arith, take_all log))
    ]
