-- ===== src/Subject/Alerts.antt =====
-- libEA/subject.cpp, `CDomain`: the alerts posted and handed out.
use zandr_ea.Prelude.{ℕ, ◌≡◌, sym, ap, ◌∙◌, List, [], ◌∷◌, ◌++◌}
use mathlib.Core.List.{append-nil, append_assoc}
use zandr_ea.Subject.{Domain, Alert, post_as_new_alert, say_new_alerts_fifo_then_clear}

pub data AlertEvent : Type 0 where
  posted : ℕ → ℕ → ℕ → ℕ → AlertEvent
  said : AlertEvent

-- All alerts handed out in the course of some events, and the domain after them.
unfoldable pub run_alerts : List AlertEvent → Domain → List Alert × Domain
run_alerts [] d = ([], d)
run_alerts (posted t name source message ∷ es) d =
    run_alerts es (post_as_new_alert t name source message d)
run_alerts (said ∷ es) d =
    let (now, d') = say_new_alerts_fifo_then_clear d in
    let (later, d'') = run_alerts es d' in (now ++ later, d'')

-- The alerts of the posts.
abbrev pub posts_of : ℕ → List AlertEvent → List Alert
posts_of domain [] = []
posts_of domain (posted t name source message ∷ es) =
    record { timestamp = t; domain = domain; subject = name; source = source; message = message }
    ∷ posts_of domain es
posts_of domain (said ∷ es) = posts_of domain es

-- In any sequence of posts and of readings of the new alerts, the alerts handed out, and after them those
-- still unsaid, are those that were unsaid before and then those posted: each once, and in order.
pub run_alerts-posts :
    (es : List AlertEvent) (d : Domain)
    → let (said_alerts, d') = run_alerts es d in
      said_alerts ++ d'.unsaid_alerts_fifo ≡ d.unsaid_alerts_fifo ++ posts_of d.domain_name es
unfolding run_alerts post_as_new_alert say_new_alerts_fifo_then_clear
run_alerts-posts [] d = sym (append-nil d.unsaid_alerts_fifo)
run_alerts-posts (posted t name source message ∷ es) d =
    let alert : Alert = record {
      timestamp = t;
      domain = d.domain_name;
      subject = name;
      source = source;
      message = message;
    } in
    run_alerts-posts es (post_as_new_alert t name source message d)
    ∙ append_assoc d.unsaid_alerts_fifo (alert ∷ []) (posts_of d.domain_name es)
run_alerts-posts (said ∷ es) d =
    let d' = (say_new_alerts_fifo_then_clear d).1 in
    let (later, d'') = run_alerts es d' in
    append_assoc d.unsaid_alerts_fifo later d''.unsaid_alerts_fifo
    ∙ ap (λ l. d.unsaid_alerts_fifo ++ l) (run_alerts-posts es d')
