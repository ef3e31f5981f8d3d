-- ===== src/Prelude/Tables.antt =====
-- Maps of the C++ library with numbers as keys, as association lists. `emplace` and `insert` leave a
-- key that is there alone, `operator[]` as a target overwrites.
use Prim.Native.Nat.{ℕ, ◌≤◌}
use mathlib.Core.Path.{◌≡◌, refl}
use mathlib.Core.Bool.{Bool, true, false}
use mathlib.Core.List.{List, [], ◌∷◌}
use mathlib.Core.Option.{Option, none, some}
use native.Mathlib.Omega.{arith}
use zandr_ea.Prelude.Tests.{◌==◌, if◌then◌else◌}
use zandr_ea.Prelude.Lists.{length}

module _ {ℓ} {A : Type ℓ} where
  unfoldable pub find : ℕ → List (ℕ × A) → Option A
  find k [] = none
  find k ((j, v) ∷ m) = if j == k then some v else find k m

  -- Whether `count` is not 0.
  unfoldable pub has_key : ℕ → List (ℕ × A) → Bool
  has_key k [] = false
  has_key k ((j, v) ∷ m) = if j == k then true else has_key k m

  unfoldable pub erase : ℕ → List (ℕ × A) → List (ℕ × A)
  erase k [] = []
  erase k ((j, v) ∷ m) = if j == k then erase k m else (j, v) ∷ erase k m

  unfoldable pub emplace : ℕ → A → List (ℕ × A) → List (ℕ × A)
  emplace k v m = if has_key k m then m else (k, v) ∷ m

  unfoldable pub overwrite : ℕ → A → List (ℕ × A) → List (ℕ × A)
  overwrite k v [] = (k, v) ∷ []
  overwrite k v ((j, w) ∷ m) = if j == k then (k, v) ∷ m else (j, w) ∷ overwrite k v m

  pub find_absent : (k : ℕ) (m : List (ℕ × A)) → has_key k m ≡ false → find k m ≡ none
  unfolding find has_key
  find_absent k [] h = refl
  find_absent k ((j, v) ∷ m) h = ground (arith, find_absent k m)

  pub has_key-find : (k : ℕ) (m : List (ℕ × A)) → find k m ≡ none → has_key k m ≡ false
  unfolding find has_key
  has_key-find k [] h = refl
  has_key-find k ((j, v) ∷ m) h = ground (arith, has_key-find k m)

  pub find-emplace :
      (k j : ℕ) (v : A) (m : List (ℕ × A))
      → has_key k m ≡ false
      → find j (emplace k v m) ≡ (if k == j then some v else find j m)
  unfolding find emplace
  find-emplace k j v m h = ground arith

  pub has_key-erase :
      (k j : ℕ) (m : List (ℕ × A)) → has_key j (erase k m) ≡ (if k == j then false else has_key j m)
  unfolding has_key erase
  has_key-erase k j [] = ground arith
  has_key-erase k j ((i, v) ∷ m) = ground (arith, has_key-erase k j m)

  pub find-overwrite :
      (k j : ℕ) (v : A) (m : List (ℕ × A))
      → find j (overwrite k v m) ≡ (if k == j then some v else find j m)
  unfolding find overwrite
  find-overwrite k j v [] = refl
  find-overwrite k j v ((i, w) ∷ m) = ground (arith, find-overwrite k j v m)

  pub length-erase : (k : ℕ) (m : List (ℕ × A)) → length (erase k m) ≤ length m
  unfolding erase
  length-erase k [] = omega arith
  length-erase k ((j, v) ∷ m) = ground (arith, length-erase k m)
