-- ===== src/CaseKit/Ranks.antt =====
-- libEA/case.cpp, `CCaseKit`: the ranking of the cases that are out.
use zandr_ea.Prelude.{
  ℕ, ◌≡◌, refl, sym, ap, ◌∙◌, Bool, true, false, List, [], ◌∷◌, ◌==◌, if◌then◌else◌, to_int, arith,
  map, Bool-cases, inl, inr, count, has_key, find, Option-cases, has_key-erase, ==_iff, All, none,
  some, erase, has_key-find, find_absent,
}
use mathlib.Core.Option.{none-ne-some}
use zandr_ea.Types.{
  okay_done_case_destroyed_by_user_discard_key, fail_any_given_key_not_valid_for_function_called,
}
use zandr_ea.RuleKit.{Row}
use zandr_ea.CaseKit.{CaseKit, HeldCase, ranks_ahead, remove, destroy_case}
use zandr_ea.CaseKit.Held.{KeysDiffer, KeysDiffer-erase}

abbrev pub keys : List (ℕ × HeldCase) → List ℕ
keys m = map (λ x. x.0) m

-- The ranking lists the key of each case that is out, once.
abbrev pub Lists : CaseKit → Type 0
Lists k =
    KeysDiffer k.cases_by_key
    × ((j : ℕ) → count j k.case_keys_by_decr_rank ≡ to_int (has_key j k.cases_by_key))

find-erase :
    (key j : ℕ) (m : List (ℕ × HeldCase))
    → find j (erase key m) ≡ (if key == j then none else find j m)
unfolding find erase
find-erase key j [] = ground arith
find-erase key j ((i, h) ∷ m) = ground (arith, find-erase key j m)

count-remove :
    (j key : ℕ) (ks : List ℕ) → count j (remove key ks) ≡ (if key == j then 0 else count j ks)
count-remove j key [] = ground arith
count-remove j key (i ∷ ks) = ground (arith, count-remove j key ks)

-- The key of each entry is that of its case in a map.
abbrev pub Keyed : List (ℕ × HeldCase) → List (ℕ × HeldCase) → Type 0
Keyed m xs = All (λ (x : ℕ × HeldCase). find x.0 m ≡ some x.1) xs

module _ (costs_more : HeldCase → HeldCase → Bool) (by_cost : Bool) where
  -- No case is ahead of the one before it.
  abbrev pub Ranked : List (ℕ × HeldCase) → Type 0
  Ranked [] = Unit
  Ranked (x ∷ []) = Unit
  Ranked (x ∷ y ∷ ys) = (ranks_ahead costs_more by_cost y.1 x.1 ≡ false) × Ranked (y ∷ ys)

missing_stays :
    (key j : ℕ) (m : List (ℕ × HeldCase))
    → find key m ≡ none
    → find j m ≡ (if key == j then none else find j m)
missing_stays key j m missing = elim (Bool-cases (key == j)) [
  | inl same ↦ rw same (ap (λ v. find v m) (sym ((==_iff key j).0 same)) ∙ missing)
  | inr other ↦ rw other refl
]

missing_counts :
    (key j : ℕ) (k : CaseKit)
    → Lists k
    → has_key key k.cases_by_key ≡ false
    → count j k.case_keys_by_decr_rank ≡ (if key == j then 0 else count j k.case_keys_by_decr_rank)
missing_counts key j k (d, lists) absent = elim (Bool-cases (key == j)) [
  | inl same ↦
      let at_j : has_key j k.cases_by_key ≡ false =
        ap (λ v. has_key v k.cases_by_key) (sym ((==_iff key j).0 same)) ∙ absent in
      rw same (lists j ∙ ap to_int at_j)
  | inr other ↦ rw other refl
]

found-has_key :
    (key : ℕ) (held : HeldCase) (m : List (ℕ × HeldCase))
    → find key m ≡ some held
    → has_key key m ≡ true
found-has_key key held m found = elim (Bool-cases (has_key key m)) [
  | inl there ↦ there
  | inr absent ↦ absurd (none-ne-some held (sym (find_absent key m absent) ∙ found))
]

-- The end of a case takes its key out of the kit and of the ranking. Each other case stays, and its key is in
-- the ranking as often as before. A key that no case has is refused, and then all stays.
pub destroy_case-Lists :
    (key j : ℕ) (rows : List Row) (k : CaseKit)
    → Lists k
    → let k' = (destroy_case key (k, rows)).0.0 in
      Lists k'
      × (find j k'.cases_by_key ≡ (if key == j then none else find j k.cases_by_key))
      × (count j k'.case_keys_by_decr_rank
          ≡ (if key == j then 0 else count j k.case_keys_by_decr_rank))
      × ((destroy_case key (k, rows)).1 ≡ (
          if has_key key k.cases_by_key
          then okay_done_case_destroyed_by_user_discard_key
          else fail_any_given_key_not_valid_for_function_called))
unfolding destroy_case
destroy_case-Lists key j rows k (d, lists) = elim (Option-cases (find key k.cases_by_key)) [
  | inl missing ↦
      let absent = has_key-find key k.cases_by_key missing in
      rw (destroy_case, missing, absent)
        (
          (d, lists),
          missing_stays key j k.cases_by_key missing,
          missing_counts key j k (d, lists) absent,
          refl,
        )
  | inr (held, found) ↦
      let there : has_key key k.cases_by_key ≡ true = found-has_key key held k.cases_by_key found in
      rw (destroy_case, found, there)
        (
          (
            KeysDiffer-erase key k.cases_by_key d,
            λ i.
                count-remove i key k.case_keys_by_decr_rank
                ∙ ap (λ n. if key == i then 0 else n) (lists i)
                ∙ ground (arith, has_key-erase key i k.cases_by_key),
          ),
          find-erase key j k.cases_by_key,
          count-remove j key k.case_keys_by_decr_rank,
          refl,
        )
]
