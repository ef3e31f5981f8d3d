-- ===== src/TimeAxis/Logs.antt =====
-- The log, the snapshots and the resize of `CSeqTimeAxis`, libEA/sequence.cpp.
use mathlib.Core.List.{reverse-append, append_assoc}
use zandr_ea.Prelude.{
  ℕ, suc, zero, ◌-◌, ◌≤◌, ◌<◌, ◌≡◌, refl, ap, ◌∙◌, sym, true, List, [], ◌∷◌, ◌++◌, some, arith,
  length, take, init, reverse, has_key, find, length-append, length-init, take-init, find-emplace,
  leb, false, ==_refl,
}
use zandr_ea.Types.{krono_snapshot_size}
use zandr_ea.TimeAxis.{
  TimeAxis, backfill, trigger_axis, drop, display_axis_in_realtime, create_snapshot,
  display_axis_from_snapshot_set, before,
}

length-backfill : (t secs : ℕ) (ts : List ℕ) → length (backfill t secs ts) ≡ length ts
unfolding backfill
length-backfill t secs [] = refl
length-backfill t secs (x ∷ ts) = ap suc (length-backfill (before t secs) secs ts)

-- The axis after a list of triggers.
unfoldable pub run_axis : List ℕ → TimeAxis → TimeAxis
run_axis [] a = a
run_axis (now ∷ rest) a = run_axis rest (trigger_axis now a)

length-trigger_axis :
    (now : ℕ) (a : TimeAxis)
    → 0 < length a.times_held_newest_to_oldest
    → length (trigger_axis now a).times_held_newest_to_oldest ≡ length a.times_held_newest_to_oldest
unfolding trigger_axis
length-trigger_axis now a h = ground (
  arith,
  length-backfill now a.secs_per_cycle a.times_held_newest_to_oldest,
  length-init a.times_held_newest_to_oldest,
)

length-reverse : (xs : List ℕ) → length (reverse xs) ≡ length xs
length-reverse [] = refl
length-reverse (x ∷ xs) =
    ap length (reverse-append (x ∷ []) xs)
    ∙ length-append (reverse xs) (x ∷ [])
    ∙ omega (arith, length-reverse xs)

drop-append : (xs ys : List ℕ) → drop (length xs) (xs ++ ys) ≡ ys
drop-append [] ys = refl
drop-append (x ∷ xs) ys = drop-append xs ys

take-append-drop : (n : ℕ) (xs : List ℕ) → take n xs ++ drop n xs ≡ xs
take-append-drop zero xs = refl
take-append-drop (suc n) [] = refl
take-append-drop (suc n) (x ∷ xs) = rw (take-append-drop n xs)

length-drop : (n : ℕ) (xs : List ℕ) → length (drop n xs) ≡ length xs - n
length-drop zero xs = omega arith
length-drop (suc n) [] = omega arith
length-drop (suc n) (x ∷ xs) = omega (arith, length-drop n xs)

-- The end of the reversed log is the front of the log, reversed.
drop-reverse : (n : ℕ) (xs : List ℕ) → drop (length xs - n) (reverse xs) ≡ reverse (take n xs)
drop-reverse n xs =
    let split : reverse xs ≡ reverse (drop n xs) ++ reverse (take n xs) =
      ap reverse (sym (take-append-drop n xs)) ∙ reverse-append (take n xs) (drop n xs) in
    let size : length xs - n ≡ length (reverse (drop n xs)) =
      sym (length-reverse (drop n xs) ∙ length-drop n xs) in
    rw (split, size, drop-append (reverse (drop n xs)) (reverse (take n xs)))

length-run_axis :
    (ts : List ℕ) (a : TimeAxis)
    → 0 < length a.times_held_newest_to_oldest
    → length (run_axis ts a).times_held_newest_to_oldest ≡ length a.times_held_newest_to_oldest
unfolding run_axis
length-run_axis [] a h = refl
length-run_axis (t ∷ ts) a h =
    let step = length-trigger_axis t a h in
    length-run_axis ts (trigger_axis t a) (omega (arith, step)) ∙ step

take-cons_init :
    (n t : ℕ) (zs xs : List ℕ) → n ≤ length xs → take n (zs ++ t ∷ init xs) ≡ take n (zs ++ t ∷ xs)
take-cons_init zero t zs xs h = refl
take-cons_init (suc n) t [] xs h = ap (◌∷◌ t) (take-init n xs (omega arith))
take-cons_init (suc n) t (z ∷ zs) xs h = ap (◌∷◌ z) (take-cons_init n t zs xs (omega arith))

trigger_axis-later :
    (now : ℕ) (a : TimeAxis)
    → a.first_call ≡ false
    → trigger_axis now a
      ≡ record a { times_held_newest_to_oldest = now ∷ init a.times_held_newest_to_oldest }
unfolding trigger_axis
trigger_axis-later now a h = ground arith

reverse-cons : (t : ℕ) (ts xs : List ℕ) → reverse (t ∷ ts) ++ xs ≡ reverse ts ++ t ∷ xs
reverse-cons t ts xs =
    ap (λ r. r ++ xs) (reverse-append (t ∷ []) ts) ∙ append_assoc (reverse ts) (t ∷ []) xs

take-run_axis :
    (n : ℕ) (ts : List ℕ) (a : TimeAxis)
    → a.first_call ≡ false
    → n ≤ length a.times_held_newest_to_oldest
    → take n (run_axis ts a).times_held_newest_to_oldest
      ≡ take n (reverse ts ++ a.times_held_newest_to_oldest)
unfolding run_axis
take-run_axis zero ts a first h = refl
take-run_axis (suc n) [] a first h = refl
take-run_axis (suc n) (t ∷ ts) a first h =
    let log = a.times_held_newest_to_oldest in
    let now = trigger_axis-later t a first in
    let first' : (trigger_axis t a).first_call ≡ false =
      ap (λ (b : TimeAxis). b.first_call) now ∙ first in
    let size = length-trigger_axis t a (omega arith) in
    take-run_axis (suc n) ts (trigger_axis t a) first' (omega (arith, size))
    ∙ ap (λ (b : TimeAxis). take (suc n) (reverse ts ++ b.times_held_newest_to_oldest)) now
    ∙ take-cons_init (suc n) t (reverse ts) log h
    ∙ ap (take (suc n)) (sym (reverse-cons t ts log))

-- After any triggers, an axis that has seen its first one shows its newest fifteen times from the
-- oldest to the newest: the last triggers, and before them what the log held.
pub display-run_axis :
    (ts : List ℕ) (a : TimeAxis)
    → a.first_call ≡ false
    → krono_snapshot_size ≤ length a.times_held_newest_to_oldest
    → display_axis_in_realtime (run_axis ts a)
      ≡ some (reverse (take krono_snapshot_size (reverse ts ++ a.times_held_newest_to_oldest)))
unfolding display_axis_in_realtime
display-run_axis ts a first h =
    let size = length-run_axis ts a (omega arith) in
    let shown = take-run_axis krono_snapshot_size ts a first h in
    let full : leb krono_snapshot_size (length (run_axis ts a).times_held_newest_to_oldest) ≡ true =
      ground arith in
    rw (full, drop-reverse krono_snapshot_size (run_axis ts a).times_held_newest_to_oldest, shown)

run_axis-snapshots :
    (ts : List ℕ) (a : TimeAxis) → (run_axis ts a).snapshots_by_set_sgi ≡ a.snapshots_by_set_sgi
unfolding run_axis trigger_axis
run_axis-snapshots [] a = refl
run_axis-snapshots (t ∷ ts) a = run_axis-snapshots ts (trigger_axis t a) ∙ ground arith

find-create_snapshot :
    (sgi : ℕ) (a b : TimeAxis)
    → has_key sgi a.snapshots_by_set_sgi ≡ false
    → create_snapshot sgi a ≡ some b
    → (leb krono_snapshot_size (length a.times_held_newest_to_oldest) ≡ true)
      × (find sgi b.snapshots_by_set_sgi
          ≡ some (take krono_snapshot_size a.times_held_newest_to_oldest))
unfolding create_snapshot
find-create_snapshot sgi a b h e = ground (
  arith,
  find-emplace sgi sgi (take krono_snapshot_size a.times_held_newest_to_oldest)
      a.snapshots_by_set_sgi h,
  ==_refl sgi,
)

from_snapshot-run_axis :
    (sgi : ℕ) (ts xs : List ℕ) (a : TimeAxis)
    → find sgi a.snapshots_by_set_sgi ≡ some xs
    → display_axis_from_snapshot_set sgi (run_axis ts a) ≡ some (reverse xs)
unfolding display_axis_from_snapshot_set
from_snapshot-run_axis sgi ts xs a found =
    let kept = ap (find sgi) (run_axis-snapshots ts a) ∙ found in
    rw (display_axis_from_snapshot_set, kept)

-- A snapshot of the axis under a new key, shown later, shows what the axis showed live when it was
-- taken, whatever triggers came between.
pub display-create_snapshot :
    (sgi : ℕ) (ts : List ℕ) (a b : TimeAxis)
    → has_key sgi a.snapshots_by_set_sgi ≡ false
    → create_snapshot sgi a ≡ some b
    → display_axis_from_snapshot_set sgi (run_axis ts b) ≡ display_axis_in_realtime a
unfolding display_axis_in_realtime
display-create_snapshot sgi ts a b h e =
    let (full, found) = find-create_snapshot sgi a b h e in
    from_snapshot-run_axis sgi ts (take krono_snapshot_size a.times_held_newest_to_oldest) b found
    ∙ rw (full, drop-reverse krono_snapshot_size a.times_held_newest_to_oldest)
