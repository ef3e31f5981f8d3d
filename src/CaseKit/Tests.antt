-- ===== src/CaseKit/Tests.antt =====
-- Runs of the kit of cases.
use zandr_ea.Types.{okay_done_case_destroyed_by_user_discard_key}
use zandr_ea.Prelude.{
  find, none, count, ◌≡◌, refl, Bool, true, false, List, [], ◌∷◌, arith, has_key, ltb,
}
use zandr_ea.Rule.{new_rule}
use zandr_ea.RuleKit.{Row}
use zandr_ea.Dialogue.{Case, new_case}
use zandr_ea.CaseKit.{CaseKit, HeldCase, destroy_case}
use zandr_ea.CaseKit.Ranks.{Lists, destroy_case-Lists}

abbrev opened : Case
opened =
    new_case (11 ∷ []) (31 ∷ [])
      (record { num_hypos_alive = 1; uai_mapp_hypo = 11; mapp_at_100pct = false }) true

abbrev rows : List Row
rows =
    record { rule = new_rule 7 true; log = 0 ∷ [] }
    ∷ record { rule = new_rule 9 false; log = 0 ∷ [] }
    ∷ []

-- A kit with one case, opened on rule 7 at time 1000.
abbrev one_out : CaseKit
one_out = record {
  cases_by_key = (41, record { dialogue = opened; case_rule_uai = 7; when_trapped = 1000 }) ∷ [];
  case_keys_by_decr_rank = 41 ∷ [];
  ranking_cases_by_cost_not_age = false;
}

-- A case costs more the greater the number of its rule is.
abbrev costs_more : HeldCase → HeldCase → Bool
costs_more a b = ltb b.case_rule_uai a.case_rule_uai

Lists-one : Lists one_out
unfolding has_key
Lists-one = ((refl, tt), λ j. ground arith)

destroy_case-Lists_example :
    let k' = (destroy_case 41 (one_out, rows)).0.0 in
    Lists k'
    × (find 41 k'.cases_by_key ≡ none)
    × (count 41 k'.case_keys_by_decr_rank ≡ 0)
    × ((destroy_case 41 (one_out, rows)).1 ≡ okay_done_case_destroyed_by_user_discard_key)
unfolding has_key
destroy_case-Lists_example = destroy_case-Lists 41 41 rows one_out Lists-one
