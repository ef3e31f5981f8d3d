-- ===== src/Fact/Sustained.antt =====
-- libEA/fact.cpp, `CFactSustained`: when a sustained fact claims, and when it no longer can.
use zandr_ea.Prelude.{
  ℕ, ◌+◌, ◌≤◌, ◌≡◌, ap, ◌∙◌, Bool, true, false, not, ◌⊎◌, List, [], ◌∷◌, leb, if◌then◌else◌, differ,
  arith, min, All,
}
use zandr_ea.Fact.{FactSustained, first_watch, is_xor, true_xor_false, cycle_sustained}
use zandr_ea.Fact.Claims.{Sample, Says}

abbrev pub run_sustained : List Sample → FactSustained → FactSustained
run_sustained [] s = s
run_sustained (x ∷ xs) s = run_sustained xs (cycle_sustained x.time x.valid x.says s)

-- How many valid samples at the end have agreed without a break, samples that are not valid aside.
abbrev pub streak : Bool → ℕ → List Sample → ℕ
streak c n [] = n
streak c n (x ∷ xs) = streak c (if x.valid then (if differ c x.says then 0 else n + 1) else n) xs

-- A sustained fact that watches for one given claim, and has seen it for a number of cycles.
pub record Watches (c : Bool) (n : ℕ) (s : FactSustained) : Type 0 where
  pub mode : (b : Bool) → first_watch s.watch_mode b ≡ c
  pub not_xor : is_xor s.watch_mode ≡ false
  pub positive : 1 ≤ s.min_cycles_to_sustain
  pub target : (s.fact.first_cycle ≡ true) ⊎ (s.claim_to_watch ≡ c)
  pub counted : s.cycles_sustained ≡ min s.min_cycles_to_sustain n
  pub claims : s.fact.claim_now ≡ leb s.min_cycles_to_sustain n

Watches-step :
    (c : Bool) (n : ℕ) (x : Sample) (s : FactSustained)
    → Watches c n s
    → Watches c
        (if x.valid then (if differ c x.says then 0 else n + 1) else n)
        (cycle_sustained x.time x.valid x.says s)
unfolding cycle_sustained
Watches-step c n x s w = record {
  mode = ground arith;
  not_xor = ground arith;
  positive = ground arith;
  target = ground (arith, w.mode x.says);
  counted = ground (arith, w.mode x.says);
  claims = ground (arith, w.mode x.says);
}

same_minimum :
    (x : Sample) (s : FactSustained)
    → (cycle_sustained x.time x.valid x.says s).min_cycles_to_sustain ≡ s.min_cycles_to_sustain
unfolding cycle_sustained
same_minimum x s = ground arith

-- A fact that watches for one given claim, for a minimum of at least one cycle, claims just while the
-- valid cycles at the end that agree without a break are no fewer than the minimum.
pub run_sustained-claim :
    (c : Bool) (n : ℕ) (xs : List Sample) (s : FactSustained)
    → Watches c n s
    → (run_sustained xs s).fact.claim_now ≡ leb s.min_cycles_to_sustain (streak c n xs)
run_sustained-claim c n [] s w = w.claims
run_sustained-claim c n (x ∷ xs) s w =
    let s' = cycle_sustained x.time x.valid x.says s in
    let n' = if x.valid then (if differ c x.says then 0 else n + 1) else n in
    run_sustained-claim c n' xs s' (Watches-step c n x s w)
    ∙ ap (λ m. leb m (streak c n' xs)) (same_minimum x s)

misses_step :
    (c : Bool) (x : Sample) (s : FactSustained)
    → s.watch_mode ≡ true_xor_false
    → s.fact.first_cycle ≡ false
    → s.fact.claim_now ≡ false
    → s.claim_to_watch ≡ c
    → 1 ≤ s.min_cycles_to_sustain
    → x.valid ≡ true
    → x.says ≡ not c
    → let s' = cycle_sustained x.time x.valid x.says s in
      (s'.watch_mode ≡ true_xor_false)
      × (s'.fact.first_cycle ≡ false)
      × (s'.fact.claim_now ≡ false)
      × (s'.claim_to_watch ≡ c)
      × (1 ≤ s'.min_cycles_to_sustain)
unfolding cycle_sustained
misses_step c x s m f cl w pos v says = ground arith

-- A fact that is to notice either claim when sustained, and looks for one of them without having it
-- yet, misses the other for good: however long the watched fact makes it, there is no claim.
pub run_sustained-misses :
    (c : Bool) (xs : List Sample) (s : FactSustained)
    → s.watch_mode ≡ true_xor_false
    → s.fact.first_cycle ≡ false
    → s.fact.claim_now ≡ false
    → s.claim_to_watch ≡ c
    → 1 ≤ s.min_cycles_to_sustain
    → All (Says (not c)) xs
    → (run_sustained xs s).fact.claim_now ≡ false
run_sustained-misses c [] s m f cl w pos h = cl
run_sustained-misses c (x ∷ xs) s m f cl w pos ((v, says), hs) =
    let (m', f', cl', w', pos') = misses_step c x s m f cl w pos v says in
    run_sustained-misses c xs (cycle_sustained x.time x.valid x.says s) m' f' cl' w' pos' hs
