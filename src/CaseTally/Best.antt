-- ===== src/CaseTally/Best.antt =====
-- libEA/case.cpp, `CCase::UpdateBayesProbabilities`: the probabilities of the hypotheses, and the best.
use zandr_ea.Prelude.{
  ℕ, ◌+◌, ◌<◌, ◌≤◌, ◌≡◌, refl, sym, ap, ◌∙◌, Bool, true, false, ◌&&◌, ◌||◌, ◌==◌, arith, List, [],
  ◌∷◌, map, All, some, ltb,
}
use mathlib.Core.Path.{subst}
use zandr_ea.CaseTally.{
  HypoTally, CaseTally, Mapp, mapp_step, less_short, counts_weighed, probability, with_probability,
  update_hypos, update_bayes_probabilities,
}
use zandr_ea.CaseTally.Keys.{whole_of, has_hypo, Within, Within-refl}
use zandr_ea.CaseTally.Loop.{
  total_of, attains, prob_of, total_of-probability, mapp_step-Stepped, Looped, attains_either,
  taken_from,
}

update_hypos-Looped :
    (prior : Bool) (total : ℕ) (all hs : List HypoTally) (m : Mapp)
    → 0 < total
    → Within all hs
    → has_hypo m.uai_mapp all ≡ true
    → m.mapp_pct_x10 + total_of (probability prior total) hs ≤ 1000
    → m.at_100pct ≡ ltb 989 m.mapp_pct_x10
    → (m' : Mapp) × (update_hypos prior total all hs m
        ≡ some (map (with_probability prior total) hs, m'))
      × Looped prior total all hs m m'
unfolding update_hypos
update_hypos-Looped prior total all [] m pos p b room sure =
    (m, refl, record { pct = omega arith; sure = sure; most = tt; from = ground arith })
update_hypos-Looped prior total all (h ∷ hs) m pos (first, p) b room sure =
    let q = probability prior total h in
    let (m1, turn, s) =
      mapp_step-Stepped (counts_weighed prior total) all h q m first b (omega arith) sure in
    let pct = s.pct in
    let (m', rest, l) =
      update_hypos-Looped prior total all hs m1 pos p s.known (ground arith) s.sure in
    let some_total : (total == 0) ≡ false = ground arith in
    let rising = l.pct in
    (
      m',
      rw (update_hypos, some_total, turn, rest) refl,
      record {
        pct = omega arith;
        sure = l.sure;
        most = (omega arith, l.most);
        from =
            taken_from m.uai_mapp m1.uai_mapp m'.uai_mapp m.mapp_pct_x10 m1.mapp_pct_x10
              m'.mapp_pct_x10 h.hypo_uai q
              (attains (probability prior total) m'.uai_mapp m'.mapp_pct_x10 hs) s.from l.from;
      },
    )

attains-map :
    (prior : Bool) (total u p : ℕ) (hs : List HypoTally)
    → attains (prob_of prior) u p (map (with_probability prior total) hs)
      ≡ attains (probability prior total) u p hs
attains-map true total u p [] = refl
attains-map false total u p [] = refl
attains-map true total u p (h ∷ hs) =
    ap (λ b. ((h.hypo_uai == u) && (probability true total h == p)) || b)
      (attains-map true total u p hs)
attains-map false total u p (h ∷ hs) =
    ap (λ b. ((h.hypo_uai == u) && (probability false total h == p)) || b)
      (attains-map false total u p hs)

All-map :
    (prior : Bool) (total p : ℕ) (hs : List HypoTally)
    → All (λ h. probability prior total h ≤ p) hs
    → All (λ h. prob_of prior h ≤ p) (map (with_probability prior total) hs)
All-map prior total p [] a = tt
All-map true total p (h ∷ hs) (first, a) = (first, All-map true total p hs a)
All-map false total p (h ∷ hs) (first, a) = (first, All-map false total p hs a)

total_of-map :
    (prior : Bool) (total : ℕ) (hs : List HypoTally)
    → total_of (prob_of prior) (map (with_probability prior total) hs)
      ≡ total_of (probability prior total) hs
total_of-map prior total [] = refl
total_of-map true total (h ∷ hs) =
    ap (λ n. probability true total h + n) (total_of-map true total hs)
total_of-map false total (h ∷ hs) =
    ap (λ n. probability false total h + n) (total_of-map false total hs)

-- The hypothesis kept as the best one has the greatest probability of all, which are in all no more than
-- 100 percent, and the case is certain of it where that is more than 98.9 percent.
pub record IsBest (prior : Bool) (c : CaseTally) : Type 0 where
  pub best_pct : ℕ
  pub held : attains (prob_of prior) c.uai_mapp_hypo best_pct c.hypo_tally ≡ true
  pub most : All (λ h. prob_of prior h ≤ best_pct) c.hypo_tally
  pub sure : c.mapp_at_100pct ≡ ltb 989 best_pct
  pub whole : total_of (prob_of prior) c.hypo_tally ≤ 1000

-- The probabilities of a case that is not yet certain: where the sum is that of the counts of its
-- hypotheses and is not zero, and the best one so far is the case's, they are computed.
pub update_bayes_probabilities-IsBest :
    (c : CaseTally)
    → (c.case_spent_kbase || c.case_busts_kbase) ≡ false
    → c.mapp_at_100pct ≡ false
    → has_hypo c.uai_mapp_hypo c.hypo_tally ≡ true
    → 0 < whole_of c
    → total_of (counts_weighed c.no_evidence_evaluated (whole_of c)) c.hypo_tally ≡ whole_of c
    → (c' : CaseTally) × (update_bayes_probabilities c ≡ some c')
      × IsBest c.no_evidence_evaluated c'
unfolding update_bayes_probabilities
update_bayes_probabilities-IsBest c on unsure known pos whole =
    let prior = c.no_evidence_evaluated in
    let hs = c.hypo_tally in
    let total = whole_of c in
    let start : Mapp = record {
      mapp_pct_x10 = 0;
      uai_mapp = c.uai_mapp_hypo;
      at_100pct = c.mapp_at_100pct;
    } in
    let parts_of = total_of-probability prior total hs pos whole in
    let (m, loop, l) =
      update_hypos-Looped prior total hs hs start pos (Within-refl hs) known
        (omega (arith, parts_of)) (unsure ∙ refl) in
    let hs' = map (with_probability prior total) hs in
    let attained : attains (probability prior total) m.uai_mapp m.mapp_pct_x10 hs ≡ true =
      attains_either (probability prior total) c.uai_mapp_hypo m.uai_mapp m.mapp_pct_x10 hs known
        l.most l.from in
    (
      record c { hypo_tally = hs'; uai_mapp_hypo = m.uai_mapp; mapp_at_100pct = m.at_100pct },
      rw (update_bayes_probabilities, on, loop) refl,
      record {
        best_pct = m.mapp_pct_x10;
        held = attains-map prior total m.uai_mapp m.mapp_pct_x10 hs ∙ attained;
        most = All-map prior total m.mapp_pct_x10 hs l.most;
        sure = l.sure;
        whole = subst (λ n. n ≤ 1000) (sym (total_of-map prior total hs)) parts_of;
      },
    )

-- The loop, of a case that is not certain and whose first hypothesis has a probability above zero.
update_hypos_first :
    (prior : Bool) (total : ℕ) (h : HypoTally) (hs : List HypoTally) (start : Mapp)
    → start.mapp_pct_x10 ≡ 0
    → start.at_100pct ≡ false
    → 0 < total
    → total_of (probability prior total) (h ∷ hs) ≤ 1000
    → 0 < probability prior total h
    → (m : Mapp) × (update_hypos prior total (h ∷ hs) (h ∷ hs) start
        ≡ some (map (with_probability prior total) (h ∷ hs), m))
      × (m.at_100pct ≡ ltb 989 m.mapp_pct_x10)
      × All (λ g. probability prior total g ≤ m.mapp_pct_x10) (h ∷ hs)
      × (attains (probability prior total) m.uai_mapp m.mapp_pct_x10 (h ∷ hs) ≡ true)
unfolding update_hypos mapp_step
update_hypos_first prior total h hs start zero_pct unsure pos room likely =
    let p = probability prior total h in
    let m1 : Mapp = record {
      mapp_pct_x10 = p;
      uai_mapp = h.hypo_uai;
      at_100pct = less_short 989 p;
    } in
    let atleast : less_short p start.mapp_pct_x10 ≡ false = ground (arith, room) in
    let more : less_short start.mapp_pct_x10 p ≡ true = ground (arith, room) in
    let turn : mapp_step (counts_weighed prior total) (h ∷ hs) h p start ≡ some m1 =
      rw (mapp_step, unsure, atleast, more) refl in
    let (first, rest_within) = Within-refl (h ∷ hs) in
    let (m, loop, l) =
      update_hypos-Looped prior total (h ∷ hs) hs m1 pos rest_within first room
        (ground (arith, room)) in
    let some_total : (total == 0) ≡ false = ground arith in
    (m, rw (update_hypos, some_total, turn, loop) refl, l.sure, (l.pct, l.most), l.from)

-- That of a new case, with no hypothesis as the best one yet: the first hypothesis that the code comes to
-- has a probability that is not zero.
pub update_bayes_probabilities-first :
    (c : CaseTally) (h : HypoTally) (hs : List HypoTally)
    → c.hypo_tally ≡ h ∷ hs
    → (c.case_spent_kbase || c.case_busts_kbase) ≡ false
    → c.mapp_at_100pct ≡ false
    → 0 < whole_of c
    → total_of (counts_weighed c.no_evidence_evaluated (whole_of c)) (h ∷ hs) ≡ whole_of c
    → 0 < probability c.no_evidence_evaluated (whole_of c) h
    → (c' : CaseTally) × (update_bayes_probabilities c ≡ some c')
      × IsBest c.no_evidence_evaluated c'
      × (c'.hypo_tally ≡ map (with_probability c.no_evidence_evaluated (whole_of c)) (h ∷ hs))
unfolding update_bayes_probabilities
update_bayes_probabilities-first c h hs same on unsure pos whole likely =
    let prior = c.no_evidence_evaluated in
    let total = whole_of c in
    let start : Mapp = record {
      mapp_pct_x10 = 0;
      uai_mapp = c.uai_mapp_hypo;
      at_100pct = c.mapp_at_100pct;
    } in
    let room = total_of-probability prior total (h ∷ hs) pos whole in
    let (m, loop, sure, most, held) =
      update_hypos_first prior total h hs start refl unsure pos room likely in
    let after = map (with_probability prior total) (h ∷ hs) in
    let looped : update_hypos prior total c.hypo_tally c.hypo_tally start ≡ some (after, m) =
      ap (λ x. update_hypos prior total x x start) same ∙ loop in
    (
      record c { hypo_tally = after; uai_mapp_hypo = m.uai_mapp; mapp_at_100pct = m.at_100pct },
      rw (update_bayes_probabilities, on, looped) refl,
      record {
        best_pct = m.mapp_pct_x10;
        held = attains-map prior total m.uai_mapp m.mapp_pct_x10 (h ∷ hs) ∙ held;
        most = All-map prior total m.mapp_pct_x10 (h ∷ hs) most;
        sure = sure;
        whole = subst (λ n. n ≤ 1000) (sym (total_of-map prior total (h ∷ hs))) room;
      },
      refl,
    )
