-- ===== src/Subject/Output.antt =====
-- libEA/subject.cpp, `ASubject::SubmitTrueIfGotFailOnPinnedRule`: whether the output of a subject is okay.
use mathlib.Core.Path.{subst}
use mathlib.Core.Bool.{false≢true}
use mathlib.Core.Option.{some-injective, none-ne-some}
use zandr_ea.Prelude.{
  has_id-snoc, has_key-find, All, get_or, ℕ, ◌+◌, ◌^◌, ◌<◌, ◌≤◌, ◌≡◌, refl, sym, ap, ◌∙◌, Bool,
  true, false, List, [], ◌∷◌, ◌++◌, some, none, ◌==◌, if◌then◌else◌, arith, Bool-cases,
  Option-cases, ==_iff, inl, inr, find, overwrite, has_id, to_int, find-emplace, find-overwrite,
}
use zandr_ea.Subject.{
  Subject, new_subject, generate_sgi_for_new_rule_kit, submit_true_if_got_fail_on_pinned_rule,
  count_fails, pop_front,
}
use zandr_ea.Subject.Held.{
  fails_among_last, window, bits-fails, fails_of, fails_of-snoc, Holds, count_fails-fails_of,
}

-- A subject and its rule kits' submissions, the newest first.
pub data Reaches : Subject → List (ℕ × Bool) → Type 0 where
  created : Reaches new_subject []
  kit_added :
      {s : Subject} {log : List (ℕ × Bool)}
      → Reaches s log
      → s.next_sgi_for_rule_kits + 1 < 2 ^ 32
      → Reaches (generate_sgi_for_new_rule_kit s).1 log
  submitted :
      {s s' : Subject} {log : List (ℕ × Bool)} {sgi : ℕ} {got_fail : Bool}
      → Reaches s log
      → submit_true_if_got_fail_on_pinned_rule sgi got_fail s ≡ some s'
      → Reaches s' ((sgi, got_fail) ∷ log)

record Tracks (s : Subject) (log : List (ℕ × Bool)) : Type 0 where
  held : Holds s.pinned_rule_fail_histories s.sgi_in_use_rule_kits log
  fresh :
      (k : ℕ)
      → s.next_sgi_for_rule_kits ≤ k
      → (has_id k s.sgi_in_use_rule_kits ≡ false) × (window k log ≡ 0 ∷ 0 ∷ 0 ∷ [])
  okay : s.unit_output_okay ≡ (fails_of log s.sgi_in_use_rule_kits == 0)

created-Tracks : Tracks new_subject []
unfolding Holds find
created-Tracks = record { held = λ k. refl; fresh = λ k above. (refl, refl); okay = refl }

sum_of_three : List ℕ → ℕ
sum_of_three xs = get_or xs 2 0 + get_or xs 1 0 + get_or xs 0 0

kit_added-Tracks :
    (s : Subject) (log : List (ℕ × Bool))
    → Tracks s log
    → s.next_sgi_for_rule_kits + 1 < 2 ^ 32
    → Tracks (generate_sgi_for_new_rule_kit s).1 log
unfolding Holds generate_sgi_for_new_rule_kit sum_of_three
kit_added-Tracks s log t room =
    let sgi = s.next_sgi_for_rule_kits in
    let (new, quiet) = t.fresh sgi (omega arith) in
    let absent = has_key-find sgi s.pinned_rule_fail_histories (t.held sgi ∙ rw new refl) in
    let zeros : List ℕ = 0 ∷ 0 ∷ 0 ∷ [] in
    let kits = s.sgi_in_use_rule_kits in
    let (one, two, three) = bits-fails sgi log in
    let none_yet : fails_among_last 3 sgi log ≡ 0 = sym three ∙ ap sum_of_three quiet in
    record {
      held = λ k. elim (Bool-cases (sgi == k)) [
        | inl same ↦
            let (unlisted, zero_k) = t.fresh k (ground (arith, same)) in
            rw
              (
                find-emplace sgi k zeros s.pinned_rule_fail_histories absent,
                has_id-snoc k sgi kits,
                same,
              )
              (ap some (sym zero_k))
        | inr other ↦
            rw
              (
                find-emplace sgi k zeros s.pinned_rule_fail_histories absent,
                has_id-snoc k sgi kits,
                other,
              )
              (t.held k)
      ];
      fresh = λ k above.
          let (unlisted, zero_k) = t.fresh k (ground (arith, above, room)) in
          (has_id-snoc k sgi kits ∙ ground (arith, above, room, unlisted), zero_k);
      okay = t.okay ∙ ap (λ n. n == 0) (omega (arith, none_yet, fails_of-snoc log kits sgi));
    }

listed_window :
    {A : Type 0} (b : Bool) (w h : A) → (if b then some w else none) ≡ some h → (b ≡ true) × (w ≡ h)
listed_window true w h p = (refl, some-injective w h p)
listed_window false w h p = absurd (none-ne-some h p)

window_other :
    (j k : ℕ) (failed : Bool) (log : List (ℕ × Bool))
    → (j == k) ≡ false
    → window k log ≡ window k ((j, failed) ∷ log)
window_other j k failed log other = rw other refl

Within-cons :
    (x : ℕ) (all kits : List ℕ)
    → All (λ k. has_id k all ≡ true) kits
    → All (λ k. has_id k (x ∷ all) ≡ true) kits
Within-cons x all [] p = tt
Within-cons x all (k ∷ kits) (first, p) = (ground (arith, first), Within-cons x all kits p)

Within-all : (kits : List ℕ) → All (λ k. has_id k kits ≡ true) kits
Within-all [] = tt
Within-all (k ∷ kits) = (ground arith, Within-cons k kits kits (Within-all kits))

-- The subject once a kit's submission is taken.
abbrev taken : ℕ → Bool → List ℕ → Subject → Subject
taken sgi got_fail h s =
    let histories =
      overwrite sgi (pop_front (h ++ to_int got_fail ∷ [])) s.pinned_rule_fail_histories in
    record s {
      pinned_rule_fail_histories = histories;
      unit_output_okay = count_fails histories s.sgi_in_use_rule_kits == 0;
    }

taken-Holds :
    (s : Subject) (log : List (ℕ × Bool)) (sgi : ℕ) (got_fail : Bool)
    → Holds s.pinned_rule_fail_histories s.sgi_in_use_rule_kits log
    → has_id sgi s.sgi_in_use_rule_kits ≡ true
    → Holds
        (overwrite sgi
          (pop_front (window sgi log ++ to_int got_fail ∷ []))
          s.pinned_rule_fail_histories)
        s.sgi_in_use_rule_kits
        ((sgi, got_fail) ∷ log)
unfolding Holds
taken-Holds s log sgi got_fail held listed k =
    let new = pop_front (window sgi log ++ to_int got_fail ∷ []) in
    find-overwrite sgi k new s.pinned_rule_fail_histories ∙ elim (Bool-cases (sgi == k)) [
      | inl same ↦
          let eq = (==_iff sgi k).0 same in
          let listed_k = subst (λ j. has_id j s.sgi_in_use_rule_kits ≡ true) eq listed in
          let new_k = ap (λ j. pop_front (window j log ++ to_int got_fail ∷ [])) eq in
          rw (same, listed_k) (ap some new_k)
      | inr other ↦ rw other (held k)
    ]

taken-Tracks :
    (s : Subject) (log : List (ℕ × Bool)) (sgi : ℕ) (got_fail : Bool)
    → Tracks s log
    → has_id sgi s.sgi_in_use_rule_kits ≡ true
    → Tracks (taken sgi got_fail (window sgi log) s) ((sgi, got_fail) ∷ log)
taken-Tracks s log sgi got_fail t listed =
    let kits = s.sgi_in_use_rule_kits in
    let held = taken-Holds s log sgi got_fail t.held listed in
    record {
      held = held;
      fresh = λ k above.
          let (unlisted, zero_k) = t.fresh k above in
          elim (Bool-cases (sgi == k)) [
            | inl same ↦ absurd (
                false≢true
                  (sym unlisted ∙ subst (λ j. has_id j kits ≡ true) ((==_iff sgi k).0 same) listed))
            | inr other ↦ (unlisted, sym (window_other sgi k got_fail log other) ∙ zero_k)
          ];
      okay =
          ap (λ n. n == 0)
            (count_fails-fails_of _ kits kits ((sgi, got_fail) ∷ log) held (Within-all kits));
    }

submitted-Tracks :
    (s s' : Subject) (log : List (ℕ × Bool)) (sgi : ℕ) (got_fail : Bool)
    → Tracks s log
    → submit_true_if_got_fail_on_pinned_rule sgi got_fail s ≡ some s'
    → Tracks s' ((sgi, got_fail) ∷ log)
unfolding Holds submit_true_if_got_fail_on_pinned_rule
submitted-Tracks s s' log sgi got_fail t done =
    elim (Option-cases (find sgi s.pinned_rule_fail_histories)) [
      | inl missing ↦
          let refused : submit_true_if_got_fail_on_pinned_rule sgi got_fail s ≡ none =
            rw (submit_true_if_got_fail_on_pinned_rule, missing) refl in
          absurd (none-ne-some s' (sym refused ∙ done))
      | inr (h, found) ↦
          let (listed, same) =
            listed_window (has_id sgi s.sgi_in_use_rule_kits) (window sgi log) h
              (sym (t.held sgi) ∙ found) in
          let result : submit_true_if_got_fail_on_pinned_rule sgi got_fail s
              ≡ some (taken sgi got_fail h s) =
            rw (submit_true_if_got_fail_on_pinned_rule, found) refl in
          subst (λ x. Tracks x ((sgi, got_fail) ∷ log))
            (some-injective (taken sgi got_fail h s) s' (sym result ∙ done))
            (subst (λ w. Tracks (taken sgi got_fail w s) ((sgi, got_fail) ∷ log)) same
              (taken-Tracks s log sgi got_fail t listed))
    ]

Reaches-Tracks : (s : Subject) (log : List (ℕ × Bool)) → Reaches s log → Tracks s log
Reaches-Tracks _ _ created = created-Tracks
Reaches-Tracks _ _ (kit_added {s} {log} r room) =
    kit_added-Tracks s log (Reaches-Tracks s log r) room
Reaches-Tracks _ _ (submitted {s} {s'} {log} {sgi} {got_fail} r done) =
    submitted-Tracks s s' log sgi got_fail (Reaches-Tracks s log r) done

-- After any additions of rule kits and submissions by them, a submission by a kit that the subject has is
-- taken, and the output of the subject is then okay just if none of the last three submissions of any of
-- its kits was of a fail on a pinned rule.
pub submit-okay :
    (s : Subject) (log : List (ℕ × Bool)) (sgi : ℕ) (got_fail : Bool)
    → Reaches s log
    → has_id sgi s.sgi_in_use_rule_kits ≡ true
    → (s' : Subject) × (submit_true_if_got_fail_on_pinned_rule sgi got_fail s ≡ some s')
      × Reaches s' ((sgi, got_fail) ∷ log)
      × (s'.unit_output_okay ≡ (fails_of ((sgi, got_fail) ∷ log) s.sgi_in_use_rule_kits == 0))
unfolding submit_true_if_got_fail_on_pinned_rule Holds
submit-okay s log sgi got_fail r listed =
    let t = Reaches-Tracks s log r in
    let found : find sgi s.pinned_rule_fail_histories ≡ some (window sgi log) =
      t.held sgi ∙ rw listed refl in
    let result : submit_true_if_got_fail_on_pinned_rule sgi got_fail s
        ≡ some (taken sgi got_fail (window sgi log) s) =
      rw (submit_true_if_got_fail_on_pinned_rule, found) refl in
    (
      taken sgi got_fail (window sgi log) s,
      result,
      submitted r result,
      (taken-Tracks s log sgi got_fail t listed).okay,
    )
