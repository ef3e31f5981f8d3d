-- ===== src/CaseKit/Held.antt =====
-- libEA/case.cpp: how many of the cases that `CCaseKit` holds are on a rule.
use zandr_ea.Prelude.{
  ℕ, suc, ◌+◌, ◌≡◌, refl, false, List, [], ◌∷◌, some, ◌==◌, to_int, arith, length, find, has_key,
  erase, emplace, overwrite, has_key-erase,
}
use zandr_ea.CaseKit.{HeldCase}

abbrev pub cases_on : ℕ → List (ℕ × HeldCase) → ℕ
cases_on u [] = 0
cases_on u ((k, h) ∷ m) = to_int (h.case_rule_uai == u) + cases_on u m

abbrev pub KeysDiffer : List (ℕ × HeldCase) → Type 0
KeysDiffer [] = Unit
KeysDiffer ((k, h) ∷ m) = (has_key k m ≡ false) × KeysDiffer m

pub cases_on-emplace :
    (u key : ℕ) (h : HeldCase) (m : List (ℕ × HeldCase))
    → has_key key m ≡ false
    → cases_on u (emplace key h m) ≡ to_int (h.case_rule_uai == u) + cases_on u m
unfolding emplace
cases_on-emplace u key h m absent = ground arith

erase_absent : (key : ℕ) (m : List (ℕ × HeldCase)) → has_key key m ≡ false → erase key m ≡ m
unfolding has_key erase
erase_absent key [] absent = refl
erase_absent key ((j, h) ∷ m) absent = ground (arith, erase_absent key m)

pub cases_on-erase :
    (u key : ℕ) (h : HeldCase) (m : List (ℕ × HeldCase))
    → KeysDiffer m
    → find key m ≡ some h
    → cases_on u m ≡ to_int (h.case_rule_uai == u) + cases_on u (erase key m)
unfolding find erase
cases_on-erase u key h [] d found = absurd (ground arith)
cases_on-erase u key h ((j, g) ∷ m) (absent, d) found =
    ground (arith, cases_on-erase u key h m d, erase_absent j m absent)

pub KeysDiffer-erase : (key : ℕ) (m : List (ℕ × HeldCase)) → KeysDiffer m → KeysDiffer (erase key m)
unfolding erase
KeysDiffer-erase key [] d = tt
KeysDiffer-erase key ((j, h) ∷ m) (absent, d) =
    ground (arith, KeysDiffer-erase key m d, has_key-erase key j m)

pub cases_on-overwrite :
    (u key : ℕ) (h h' : HeldCase) (m : List (ℕ × HeldCase))
    → find key m ≡ some h
    → h'.case_rule_uai ≡ h.case_rule_uai
    → cases_on u (overwrite key h' m) ≡ cases_on u m
unfolding find overwrite
cases_on-overwrite u key h h' [] found same = absurd (ground arith)
cases_on-overwrite u key h h' ((j, g) ∷ m) found same =
    ground (arith, cases_on-overwrite u key h h' m)

has_key-overwrite :
    (key j : ℕ) (h h' : HeldCase) (m : List (ℕ × HeldCase))
    → find key m ≡ some h
    → has_key j (overwrite key h' m) ≡ has_key j m
unfolding find overwrite has_key
has_key-overwrite key j h h' [] found = absurd (ground arith)
has_key-overwrite key j h h' ((i, g) ∷ m) found = ground (arith, has_key-overwrite key j h h' m)

pub KeysDiffer-overwrite :
    (key : ℕ) (h h' : HeldCase) (m : List (ℕ × HeldCase))
    → find key m ≡ some h
    → KeysDiffer m
    → KeysDiffer (overwrite key h' m)
unfolding find overwrite has_key
KeysDiffer-overwrite key h h' [] found d = absurd (ground arith)
KeysDiffer-overwrite key h h' ((j, g) ∷ m) found (absent, d) =
    ground (arith, KeysDiffer-overwrite key h h' m, has_key-overwrite key j h h' m)

pub length-overwrite :
    (key : ℕ) (h h' : HeldCase) (m : List (ℕ × HeldCase))
    → find key m ≡ some h
    → length (overwrite key h' m) ≡ length m
unfolding find overwrite
length-overwrite key h h' [] found = absurd (ground arith)
length-overwrite key h h' ((j, g) ∷ m) found = ground (arith, length-overwrite key h h' m)

pub KeysDiffer-emplace :
    (key : ℕ) (h : HeldCase) (m : List (ℕ × HeldCase))
    → has_key key m ≡ false
    → KeysDiffer m
    → KeysDiffer (emplace key h m) × (length (emplace key h m) ≡ suc (length m))
unfolding emplace
KeysDiffer-emplace key h m absent d = rw absent ((absent, d), refl)
