-- ===== src/Fact/Tests.antt =====
-- Runs of facts.
use zandr_ea.Prelude.{ℕ, ◌≡◌, refl, inl, Bool, true, false, [], ◌∷◌, arith}
use zandr_ea.Fact.{
  new_fact, SustainedAs, FactSustained, sustained_true, true_xor_false, first_watch,
}
use zandr_ea.Fact.Claims.{Sample, run_chart, run_chart-onset}
use zandr_ea.Fact.Sustained.{run_sustained, run_sustained-claim, run_sustained-misses}

abbrev sample : ℕ → Bool → Bool → Sample
sample t v s = record { time = t; valid = v; says = s }

run_chart-onset_example :
    (run_chart (sample 60 true true ∷ sample 120 true true ∷ []) new_fact).time_of_claim_now ≡ 60
run_chart-onset_example =
    run_chart-onset true (sample 60 true true) (sample 120 true true ∷ []) new_fact
      ((refl, refl), ((refl, refl), tt)) refl

abbrev sustained_fact : SustainedAs → Bool → FactSustained
sustained_fact mode first = record {
  fact = record new_fact { first_cycle = first };
  watch_mode = mode;
  min_cycles_to_sustain = 2;
  cycles_sustained = 0;
  claim_to_watch = true;
}

run_sustained-claim_example :
    (run_sustained
      (sample 60 true true ∷ sample 120 false false ∷ sample 180 true true ∷ [])
      (sustained_fact sustained_true true)).fact.claim_now
    ≡ true
unfolding first_watch
run_sustained-claim_example =
    run_sustained-claim true 0
      (sample 60 true true ∷ sample 120 false false ∷ sample 180 true true ∷ [])
      (sustained_fact sustained_true true)
      (record {
        mode = λ b. refl;
        not_xor = refl;
        positive = omega arith;
        target = inl refl;
        counted = refl;
        claims = refl;
      })

run_sustained-misses_example :
    (run_sustained
      (sample 60 true false ∷ sample 120 true false ∷ sample 180 true false ∷ [])
      (sustained_fact true_xor_false false)).fact.claim_now
    ≡ false
run_sustained-misses_example =
    run_sustained-misses true
      (sample 60 true false ∷ sample 120 true false ∷ sample 180 true false ∷ [])
      (sustained_fact true_xor_false false) refl refl refl refl (omega arith)
      ((refl, refl), ((refl, refl), ((refl, refl), tt)))
