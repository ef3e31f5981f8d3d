-- ===== src/Subject/Held.antt =====
-- libEA/subject.cpp, `ASubject`: the last three submissions of each rule kit, which a subject holds.
use zandr_ea.Prelude.{
  All, ℕ, zero, suc, ◌+◌, ◌≡◌, refl, ap, ◌∙◌, Bool, true, List, [], ◌∷◌, ◌++◌, Option, some, none,
  ◌==◌, if◌then◌else◌, arith, sum, Bool-cases, inl, inr, find, has_id, to_int,
}
use zandr_ea.Subject.{fails_held, count_fails}

-- The fails among the last submissions of a kit.
abbrev pub fails_among_last : ℕ → ℕ → List (ℕ × Bool) → ℕ
fails_among_last zero kit log = 0
fails_among_last (suc n) kit [] = 0
fails_among_last (suc n) kit ((j, failed) ∷ log) =
    if j == kit
    then to_int failed + fails_among_last n kit log
    else fails_among_last (suc n) kit log

-- The last submissions of a kit that a subject holds, the oldest first.
abbrev pub bit : ℕ → ℕ → List (ℕ × Bool) → ℕ
bit i kit [] = 0
bit zero kit ((j, failed) ∷ log) = if j == kit then to_int failed else bit zero kit log
bit (suc i) kit ((j, failed) ∷ log) = if j == kit then bit i kit log else bit (suc i) kit log

abbrev pub window : ℕ → List (ℕ × Bool) → List ℕ
window kit log = bit 2 kit log ∷ bit 1 kit log ∷ bit 0 kit log ∷ []

pub bits-fails :
    (kit : ℕ) (log : List (ℕ × Bool))
    → (bit 0 kit log ≡ fails_among_last 1 kit log)
      × (bit 0 kit log + bit 1 kit log ≡ fails_among_last 2 kit log)
      × (bit 0 kit log + bit 1 kit log + bit 2 kit log ≡ fails_among_last 3 kit log)
bits-fails kit [] = (refl, refl, refl)
bits-fails kit ((j, failed) ∷ log) =
    let (one, two, three) = bits-fails kit log in
    elim (Bool-cases (j == kit)) [
      | inl same ↦ (ground (arith, same), ground (arith, same, one), ground (arith, same, two))
      | inr other ↦
          (ground (arith, other, one), ground (arith, other, two), ground (arith, other, three))
    ]

-- The fails among the last three submissions of each of some kits.
abbrev pub fails_of : List (ℕ × Bool) → List ℕ → ℕ
fails_of log [] = 0
fails_of log (kit ∷ kits) = fails_among_last 3 kit log + fails_of log kits

pub fails_of-snoc :
    (log : List (ℕ × Bool)) (kits : List ℕ) (kit : ℕ)
    → fails_of log (kits ++ kit ∷ []) ≡ fails_of log kits + fails_among_last 3 kit log
fails_of-snoc log [] kit = omega arith
fails_of-snoc log (k ∷ kits) kit = omega (arith, fails_of-snoc log kits kit)

-- What a subject holds of the submissions of its kits.
unfoldable pub Holds : List (ℕ × List ℕ) → List ℕ → List (ℕ × Bool) → Type 0
Holds histories kits log =
    (k : ℕ) → find k histories ≡ (if has_id k kits then some (window k log) else none)

pub count_fails-fails_of :
    (histories : List (ℕ × List ℕ)) (all kits : List ℕ) (log : List (ℕ × Bool))
    → Holds histories all log
    → All (λ k. has_id k all ≡ true) kits
    → count_fails histories kits ≡ fails_of log kits
unfolding Holds
count_fails-fails_of histories all [] log held within = refl
count_fails-fails_of histories all (k ∷ kits) log held (first, within) =
    let (one, two, three) = bits-fails k log in
    let found : find k histories ≡ some (window k log) = held k ∙ rw first refl in
    let here : fails_held histories k ≡ fails_among_last 3 k log =
      ap (λ (o : Option (List ℕ)). elim o [ none ↦ 0 | some h ↦ sum h ]) found
      ∙ omega (arith, three) in
    omega (arith, here, count_fails-fails_of histories all kits log held within)
