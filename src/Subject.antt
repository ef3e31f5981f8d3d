-- ===== src/Subject.antt =====
-- libEA/subject.hpp and subject.cpp: `ASubject`, a piece of equipment under surveillance, and `CDomain`,
-- which all subjects share. Names, labels and messages are numbers, as the enumerations are; an alert
-- holds them in place of the text that the code makes of them. The case kit of a subject is in CaseKit.
pub mod Held
pub mod Output
pub mod Numbers
pub mod Alerts
mod Tests
use zandr_ea.Prelude.{
  ℕ, ◌+◌, ◌%◌, ◌^◌, Bool, true, false, List, [], ◌∷◌, ◌++◌, Option, some, none, ◌==◌, if◌then◌else◌,
  ltb, find, emplace, overwrite, sum, replicate, to_int, has_id,
}

abbrev pub subject_cycles_pinned_fail_history : ℕ
subject_cycles_pinned_fail_history = 3

-- `ASubject`, less its constants.
pub record Subject : Type 0 where
  pub pinned_rule_fail_histories : List (ℕ × List ℕ)
  pub feature_keys : List ℕ
  pub rule_kit_display_keys : List ℕ
  pub uai_in_use_features : List ℕ
  pub sgi_in_use_rule_kits : List ℕ
  pub next_sgi_for_cases : ℕ
  pub next_sgi_for_rule_kits : ℕ
  pub unit_output_okay : Bool

-- `ASubject::ASubject`.
abbrev pub new_subject : Subject
new_subject = record {
  pinned_rule_fail_histories = [];
  feature_keys = [];
  rule_kit_display_keys = [];
  uai_in_use_features = [];
  sgi_in_use_rule_kits = [];
  next_sgi_for_cases = 1;
  next_sgi_for_rule_kits = 1;
  unit_output_okay = true;
}

-- `ASubject::GenerateAndSaySgiForNewCase`.
unfoldable pub generate_sgi_for_new_case : Subject → ℕ × Subject
generate_sgi_for_new_case s =
    if ltb s.next_sgi_for_cases 255
    then (s.next_sgi_for_cases, record s { next_sgi_for_cases = s.next_sgi_for_cases + 1 })
    else (1, s)

-- `ASubject::GenerateAndSaySgiForNewRuleKit`.
unfoldable pub generate_sgi_for_new_rule_kit : Subject → ℕ × Subject
generate_sgi_for_new_rule_kit s =
    let sgi = s.next_sgi_for_rule_kits in
    (
      sgi,
      record s {
        next_sgi_for_rule_kits = (sgi + 1) % 2 ^ 32;
        sgi_in_use_rule_kits = s.sgi_in_use_rule_kits ++ sgi ∷ [];
        pinned_rule_fail_histories =
            emplace sgi (replicate subject_cycles_pinned_fail_history 0)
              s.pinned_rule_fail_histories;
      },
    )

-- `pop_front`.
abbrev pub pop_front : List ℕ → List ℕ
pop_front [] = []
pop_front (x ∷ xs) = xs

-- The sum of a history that the code looks up, 0 where there is none.
abbrev pub fails_held : List (ℕ × List ℕ) → ℕ → ℕ
fails_held histories sgi = elim (find sgi histories) [ none ↦ 0 | some h ↦ sum h ]

abbrev pub count_fails : List (ℕ × List ℕ) → List ℕ → ℕ
count_fails histories [] = 0
count_fails histories (sgi ∷ sgis) = fails_held histories sgi + count_fails histories sgis

-- `ASubject::SubmitTrueIfGotFailOnPinnedRule`; `none` where it follows the null pointer of a kit that the
-- subject does not have.
unfoldable pub submit_true_if_got_fail_on_pinned_rule : ℕ → Bool → Subject → Option Subject
submit_true_if_got_fail_on_pinned_rule sgi got_fail s =
    elim (find sgi s.pinned_rule_fail_histories) [
      | none ↦ none
      | some h ↦
          let histories =
            overwrite sgi (pop_front (h ++ to_int got_fail ∷ [])) s.pinned_rule_fail_histories in
          some (record s {
            pinned_rule_fail_histories = histories;
            unit_output_okay = count_fails histories s.sgi_in_use_rule_kits == 0;
          })
    ]

-- `ASubject::CheckFeatureUaiFreeThenKeep`; `none` where it throws.
unfoldable pub check_feature_uai_free_then_keep : ℕ → Subject → Option Subject
check_feature_uai_free_then_keep uai s =
    if has_id uai s.uai_in_use_features
    then none
    else some (record s { uai_in_use_features = s.uai_in_use_features ++ uai ∷ [] })

abbrev pub add_feature_key : ℕ → Subject → Subject
add_feature_key key s = record s { feature_keys = s.feature_keys ++ key ∷ [] }

abbrev pub add_rule_kit_display : ℕ → Subject → Subject
add_rule_kit_display key s = record s {
  rule_kit_display_keys = s.rule_kit_display_keys ++ key ∷ [];
}

-- What the text of an alert tells.
pub record Alert : Type 0 where
  pub timestamp : ℕ
  pub domain : ℕ
  pub subject : ℕ
  pub source : ℕ
  pub message : ℕ

-- `CDomain`: its subjects by name are their keys.
pub record Domain : Type 0 where
  pub subjects_by_name : List (ℕ × ℕ)
  pub has_view : Bool
  pub unsaid_alerts_fifo : List Alert
  pub domain_name : ℕ

-- `CDomain::Register` of a subject; `none` where it throws.
unfoldable pub register_subject : ℕ → ℕ → Domain → Option Domain
register_subject name key d =
    if d.has_view
    then some (record d { subjects_by_name = emplace name key d.subjects_by_name })
    else none

-- `CDomain::PostAsNewAlert`, to which `TagAndPostAlertToDomain` adds the subject's name.
unfoldable pub post_as_new_alert : ℕ → ℕ → ℕ → ℕ → Domain → Domain
post_as_new_alert timestamp name source message d = record d {
  unsaid_alerts_fifo =
      d.unsaid_alerts_fifo
      ++ record {
        timestamp = timestamp;
        domain = d.domain_name;
        subject = name;
        source = source;
        message = message;
      }
        ∷ [];
}

-- `CDomain::SayNewAlertsFifoThenClear`.
unfoldable pub say_new_alerts_fifo_then_clear : Domain → List Alert × Domain
say_new_alerts_fifo_then_clear d = (d.unsaid_alerts_fifo, record d { unsaid_alerts_fifo = [] })
