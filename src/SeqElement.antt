-- ===== src/SeqElement.antt =====
-- libEA/seqElement.cpp: `ISeqElement`, what the sequence triggers. The state that a subclass adds is
-- `S`, and its `Cycle` a parameter that sees the element and the time.
pub mod Pacing
mod Tests
use zandr_ea.Prelude.{
  ℕ, ◌+◌, ◌*◌, ◌≤◌, Bool, true, false, ◌||◌, ◌&&◌, ◌==◌, leb, if◌then◌else◌, Option, some, none,
}
use zandr_ea.Types.{decr_word, krono_snapshot_size}
use zandr_ea.Clock.{ClockRead}

pub record SeqElement : Type 0 where
  pub trigger_count : ℕ
  pub triggers_per_cycle : ℕ
  pub triggers_until_cycle : ℕ
  pub secs_per_cycle : ℕ
  pub base_trigger_group : ℕ
  pub own_trigger_group : ℕ
  pub cycling_at_max_rate : Bool
  pub cycle_begins_new_calendar_day : Bool
  pub cycle_begins_new_clock_hour : Bool
  pub valid_now : Bool
  pub valid_was : Bool

-- `ISeqElement::ISeqElement`, on the triggers per cycle and the base trigger group; `none` is the
-- `logic_error` that it throws.
unfoldable pub new_element : ℕ → ℕ → ℕ → Option SeqElement
new_element trigger_period_secs tpc base =
    if leb tpc krono_snapshot_size
    then some (record {
      trigger_count = 0;
      triggers_per_cycle = tpc;
      triggers_until_cycle = 1;
      secs_per_cycle = trigger_period_secs * tpc;
      base_trigger_group = base;
      own_trigger_group = base;
      cycling_at_max_rate = tpc == 1;
      cycle_begins_new_calendar_day = false;
      cycle_begins_new_clock_hour = false;
      valid_now = true;
      valid_was = true;
    })
    else none

-- `ISeqElement::ShallTriggerInvokeCycle`.
unfoldable pub shall_trigger_invoke_cycle : SeqElement → SeqElement × Bool
shall_trigger_invoke_cycle e =
    if decr_word e.triggers_until_cycle == 0
    then (record e { triggers_until_cycle = e.triggers_per_cycle }, true)
    else (record e { triggers_until_cycle = decr_word e.triggers_until_cycle }, false)

-- The marks of a new day and hour, which stay until the next cycle.
unfoldable pub mark_new_hour : ClockRead → SeqElement → SeqElement
mark_new_hour clock e =
    if clock.new_hour
    then record e {
      cycle_begins_new_calendar_day = clock.new_day || e.cycle_begins_new_calendar_day;
      cycle_begins_new_clock_hour = true;
    }
    else e

unfoldable pub clear_marks : SeqElement → SeqElement
clear_marks e = record e {
  cycle_begins_new_calendar_day = false;
  cycle_begins_new_clock_hour = false;
}

module _ {ℓ} {S : Type ℓ} (cycle : ℕ → SeqElement × S → SeqElement × S) where
  abbrev run_cycle : ℕ → SeqElement × S → SeqElement × S
  run_cycle now (e, s) = let (e', s') = cycle now (e, s) in (clear_marks e', s')

  -- The part of `ISeqElement::Trigger` for an element of the group that is targeted.
  abbrev trigger_targeted : ClockRead → SeqElement × S → SeqElement × S
  trigger_targeted clock (e, s) =
      if e.cycling_at_max_rate
      then run_cycle clock.timestamp (e, s)
      else (let (e', invoke) = shall_trigger_invoke_cycle e in
          if invoke then run_cycle clock.timestamp (e', s) else (e', s))

  -- `ISeqElement::Trigger`.
  unfoldable pub trigger : ℕ → ClockRead → SeqElement × S → (SeqElement × S) × ℕ
  unfolding mark_new_hour clear_marks shall_trigger_invoke_cycle
  trigger group_targeted clock (e, s) =
      let e' = record e { trigger_count = clock.trigger_count } in
      if e'.own_trigger_group == group_targeted
      then (trigger_targeted clock (mark_new_hour clock e', s), 1)
      else ((e', s), 0)
