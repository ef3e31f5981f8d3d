-- ===== src/Rule/Modes.antt =====
-- libEA/rule.cpp, `CRule`: the modes of a rule, over any history of its cycles, cases and knob settings.
use zandr_ea.Prelude.{
  ℕ, ◌+◌, ◌≡◌, refl, ◌⊎◌, inl, inr, Bool, true, false, ◌&&◌, List, [], ◌∷◌, some, if◌then◌else◌,
  arith, Option-cases, all, get_elem?, ap, ◌∙◌,
}
use zandr_ea.Rule.{
  Rule, RuleInput, and_rest, both, pull_validity, mode_offset, cycle_and_say_bindex,
  is_in_auto_mode, set_case_mode_to, set_idle_mode_to, save_antecedent_snapshots,
  destroy_snapshot_set, new_rule,
}

-- What happens to a rule: its cycle, a case opened on it while it is in auto mode, the end of its
-- case, the user's knob, and its snapshots.
pub data RuleStep : Rule → Rule → Type 0 where
  cycles :
      (i : RuleInput) (r r' : Rule) (bindex : ℕ)
      → cycle_and_say_bindex i r ≡ some (r', bindex)
      → RuleStep r r'
  opens_case : (r : Rule) → is_in_auto_mode r ≡ true → RuleStep r (set_case_mode_to true r)
  closes_case : (r : Rule) → RuleStep r (set_case_mode_to false r)
  sets_idle : (wanted : Bool) (r : Rule) → RuleStep r (set_idle_mode_to wanted r)
  saves : (sgi : ℕ) (r : Rule) → RuleStep r (save_antecedent_snapshots sgi r).0.0
  destroys : (r : Rule) → RuleStep r (destroy_snapshot_set r).0

-- A rule as constructed, or after steps.
pub data Reaches (r : Rule) : Rule → Type 0 where
  here : Reaches r r
  later : (s t : Rule) → Reaches r s → RuleStep s t → Reaches r t

-- In auto mode, in case mode or in idle mode, and never in two of these.
unfoldable pub IsInOneMode : Rule → Type 0
IsInOneMode r =
    ((r.case_mode_offset ≡ 0) × (r.idle_mode_offset ≡ 0) × (r.is_rule_at_idle ≡ false))
    ⊎ (((r.case_mode_offset ≡ 4) × (r.idle_mode_offset ≡ 0) × (r.is_rule_at_idle ≡ false))
        ⊎ ((r.case_mode_offset ≡ 0) × (r.idle_mode_offset ≡ 7) × (r.is_rule_at_idle ≡ true)))

step_modes : (r s : Rule) → RuleStep r s → IsInOneMode r → IsInOneMode s
unfolding IsInOneMode cycle_and_say_bindex pull_validity is_in_auto_mode set_case_mode_to
    set_idle_mode_to save_antecedent_snapshots destroy_snapshot_set
step_modes _ _ (cycles i r s b e) m = ground arith
step_modes _ _ (opens_case r a) m = ground arith
step_modes _ _ (closes_case r) m = ground arith
step_modes _ _ (sets_idle w r) m = ground arith
step_modes _ _ (saves sgi r) m = m
step_modes _ _ (destroys r) m = ground arith

Reaches-modes : (r s : Rule) → Reaches r s → IsInOneMode r → IsInOneMode s
Reaches-modes r _ here m = m
Reaches-modes r _ (later s t p q) m = step_modes s t q (Reaches-modes r s p m)

new_rule-modes : (uai : ℕ) (pinned : Bool) → IsInOneMode (new_rule uai pinned)
unfolding IsInOneMode
new_rule-modes uai pinned = inl (refl, refl, refl)

-- A rule that steps from its construction on, with cases opened on it in auto mode only, is always
-- in one of its three modes, and its knob shows idle just in idle mode.
pub Reaches-IsInOneMode :
    (uai : ℕ) (pinned : Bool) (r : Rule) → Reaches (new_rule uai pinned) r → IsInOneMode r
Reaches-IsInOneMode uai pinned r p =
    Reaches-modes (new_rule uai pinned) r p (new_rule-modes uai pinned)

-- What a cycle can find, as the table of the states tells it.
pub data Mode : Type 0 where
  auto_mode case_mode idle_mode : Mode

pub data Verdict : Type 0 where
  data_invalid : Verdict
  fails passes skips : Mode → Verdict

-- The table of the bindex values.
abbrev pub states : List Verdict
states =
    fails auto_mode
    ∷ passes auto_mode
    ∷ skips auto_mode
    ∷ data_invalid
    ∷ fails case_mode
    ∷ passes case_mode
    ∷ skips case_mode
    ∷ fails idle_mode
    ∷ passes idle_mode
    ∷ skips idle_mode
    ∷ []

abbrev pub mode_of : Rule → Mode
mode_of r =
    if is_in_auto_mode r then auto_mode else if r.is_rule_at_idle then idle_mode else case_mode

abbrev pub verdict : Bool → Bool → Bool → Mode → Verdict
verdict valid test_if test_then mode =
    if valid
    then (if test_if then (if test_then then passes mode else fails mode) else skips mode)
    else data_invalid

abbrev code : Bool → Bool → Bool → ℕ → ℕ
code valid test_if test_then offset =
    if valid
    then (if test_if then (if test_then then 1 + offset else 0 + offset) else 2 + offset)
    else 3

states-code :
    (v i t : Bool)
    → (get_elem? states (code v i t 0) ≡ some (verdict v i t auto_mode))
      × (get_elem? states (code v i t 4) ≡ some (verdict v i t case_mode))
      × (get_elem? states (code v i t 7) ≡ some (verdict v i t idle_mode))
states-code true true true = (refl, refl, refl)
states-code true true false = (refl, refl, refl)
states-code true false t = (refl, refl, refl)
states-code false i t = (refl, refl, refl)

and_rest-lem : (u : Bool) (vs : List Bool) → and_rest u vs ≡ (u && all (λ b. b) vs)
and_rest-lem true [] = refl
and_rest-lem false [] = refl
and_rest-lem true (w ∷ vs) = and_rest-lem w vs
and_rest-lem false (w ∷ vs) = and_rest-lem false vs

both-lem :
    (ifs thens : List Bool) (u : Bool)
    → both ifs thens ≡ some u
    → u ≡ (all (λ b. b) ifs && all (λ b. b) thens)
both-lem [] thens u e = ground arith
both-lem (a ∷ ifs) [] u e = ground arith
both-lem (a ∷ ifs) (b ∷ thens) u e =
    ground (arith, and_rest-lem (a && b) ifs, and_rest-lem (and_rest (a && b) ifs) thens)

bindex-code :
    (i : RuleInput) (r r' : Rule) (bindex : ℕ)
    → cycle_and_say_bindex i r ≡ some (r', bindex)
    → (u : Bool) × (both i.operands_if i.operands_then ≡ some u)
      × (bindex ≡ code u i.test_if i.test_then (mode_offset r))
      × (r'.bindex_now ≡ bindex)
unfolding cycle_and_say_bindex pull_validity
bindex-code i r r' bindex e = elim (Option-cases (both i.operands_if i.operands_then)) [
  | inl missing ↦ absurd (ground arith)
  | inr (u, found) ↦ (u, found, ground arith, ground arith)
]

mode_cases :
    (r : Rule)
    → IsInOneMode r
    → ((mode_offset r ≡ 0) × (mode_of r ≡ auto_mode))
      ⊎ (((mode_offset r ≡ 4) × (mode_of r ≡ case_mode))
          ⊎ ((mode_offset r ≡ 7) × (mode_of r ≡ idle_mode)))
unfolding IsInOneMode is_in_auto_mode
mode_cases r m = ground arith

states-mode :
    (r : Rule)
    → IsInOneMode r
    → (v i t : Bool)
    → get_elem? states (code v i t (mode_offset r)) ≡ some (verdict v i t (mode_of r))
states-mode r m v i t =
    let (auto, incase, idle) = states-code v i t in
    elim (mode_cases r m) [
      | inl (o, e) ↦ rw (o, e) auto
      | inr (inl (o, e)) ↦ rw (o, e) incase
      | inr (inr (o, e)) ↦ rw (o, e) idle
    ]

-- The bindex that a rule in one mode reports, and logs, stands in the table of the states for what
-- the cycle finds: its mode, and pass, fail or skip by its two tests where all operands are valid.
pub states-cycle_and_say_bindex :
    (i : RuleInput) (r r' : Rule) (bindex : ℕ)
    → IsInOneMode r
    → cycle_and_say_bindex i r ≡ some (r', bindex)
    → (get_elem? states bindex
        ≡ some (
            verdict
              (all (λ b. b) i.operands_if && all (λ b. b) i.operands_then)
              i.test_if
              i.test_then
              (mode_of r)))
      × (r'.bindex_now ≡ bindex)
states-cycle_and_say_bindex i r r' bindex m e =
    let (u, valid, coded, kept) = bindex-code i r r' bindex e in
    (
      ap (get_elem? states) coded
          ∙ states-mode r m u i.test_if i.test_then
          ∙ ap (λ v. some (verdict v i.test_if i.test_then (mode_of r)))
              (both-lem i.operands_if i.operands_then u valid),
      kept,
    )
