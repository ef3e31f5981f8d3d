-- ===== src/Subject/Tests.antt =====
-- libEA/subject.cpp: a subject with two rule kits, the numbers of its cases, and the alerts of a domain.
use zandr_ea.Prelude.{ℕ, ◌≡◌, refl, true, false, List, [], ◌∷◌, ◌++◌, some, none, arith}
use zandr_ea.Subject.{
  Subject, new_subject, generate_sgi_for_new_rule_kit, generate_sgi_for_new_case,
  submit_true_if_got_fail_on_pinned_rule, Domain, Alert, register_subject,
  check_feature_uai_free_then_keep,
}
use zandr_ea.Subject.Output.{Reaches, created, kit_added, submit-okay}
use zandr_ea.Subject.Numbers.{after_cases, generate_sgi_for_new_case-number}
use zandr_ea.Subject.Alerts.{AlertEvent, posted, said, run_alerts, run_alerts-posts}

abbrev two_kits : Subject
two_kits = (generate_sgi_for_new_rule_kit (generate_sgi_for_new_rule_kit new_subject).1).1

two_kits-Reaches : Reaches two_kits []
unfolding generate_sgi_for_new_rule_kit
two_kits-Reaches = kit_added (kit_added created (omega arith)) (omega arith)

-- A fail on a pinned rule of the second kit.
submit-okay_example :
    (s' : Subject) × (submit_true_if_got_fail_on_pinned_rule 2 true two_kits ≡ some s')
    × Reaches s' ((2, true) ∷ [])
    × (s'.unit_output_okay ≡ false)
unfolding generate_sgi_for_new_rule_kit
submit-okay_example = submit-okay two_kits [] 2 true two_kits-Reaches refl

generate_sgi_for_new_case-number_example : (generate_sgi_for_new_case (after_cases 300)).0 ≡ 1
generate_sgi_for_new_case-number_example = generate_sgi_for_new_case-number 300

abbrev small_domain : Domain
small_domain = record {
  subjects_by_name = [];
  has_view = true;
  unsaid_alerts_fifo = [];
  domain_name = 4;
}

abbrev three_events : List AlertEvent
three_events = posted 60 7 8 9 ∷ said ∷ posted 120 7 8 9 ∷ []

abbrev alert_at : ℕ → Alert
alert_at t = record { timestamp = t; domain = 4; subject = 7; source = 8; message = 9 }

run_alerts-posts_example :
    (run_alerts three_events small_domain).0
      ++ (run_alerts three_events small_domain).1.unsaid_alerts_fifo
    ≡ alert_at 60 ∷ alert_at 120 ∷ []
run_alerts-posts_example = run_alerts-posts three_events small_domain

-- A feature's identifier can be kept once.
second_feature :
    check_feature_uai_free_then_keep 5 (record new_subject { uai_in_use_features = 5 ∷ [] }) ≡ none
unfolding check_feature_uai_free_then_keep
second_feature = refl

-- A subject can not be registered before the view.
no_view : register_subject 7 1 (record small_domain { has_view = false }) ≡ none
unfolding register_subject
no_view = refl
