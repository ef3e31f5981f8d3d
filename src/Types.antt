-- ===== src/Types.antt =====
-- libEA/customTypes.hpp, exportTypes.hpp and case.hpp: the constants, the reply codes and the machine
-- integers that the components share.
use zandr_ea.Prelude.{ℕ, ◌+◌, ◌-◌, ◌%◌, ◌^◌, ◌==◌, if◌then◌else◌}

-- `EGuiReply`.
pub data GuiReply : Type 0 where
  okay_all_done : GuiReply
  okay_done_case_destroyed_by_user_discard_key : GuiReply
  okay_done_krono_destroyed_by_user_discard_key : GuiReply
  fail_any_called_function_not_yet_implemented : GuiReply
  fail_any_given_key_not_valid_for_function_called : GuiReply
  fail_get_called_dynamic_update_before_full_gui_pack : GuiReply
  fail_get_called_dynamic_update_using_key_to_static_data : GuiReply
  fail_get_called_histogram_not_yet_recorded : GuiReply
  fail_set_asked_for_new_krono_before_existing_cleared : GuiReply
  fail_set_asked_statistic_beyond_depth_limit : GuiReply
  fail_set_given_container_wrong_size_for_key_given : GuiReply
  fail_set_given_data_logging_size_not_within_bounds : GuiReply
  fail_set_given_dialogue_answer_not_allowed : GuiReply
  fail_set_given_histogram_mode_not_available : GuiReply
  fail_set_given_rule_id_not_in_rule_kit : GuiReply
  fail_set_given_timestamp_same_as_previous : GuiReply
  fail_set_given_value_out_of_range_allowed : GuiReply
  fail_set_given_value_not_in_selection_set : GuiReply
  fail_set_type_given_not_type_taken : GuiReply
  warn_null_reply_fix_api : GuiReply
  warn_ran_seq_to_exit_with_objects_yet_to_cycle_fix_api : GuiReply

-- `EApiReply`.
pub data ApiReply : Type 0 where
  undefined fail okay_tally_one okay_tally_zero : ApiReply

abbrev pub base_trig_grp_point : ℕ
base_trig_grp_point = 1

abbrev pub base_trig_grp_formula : ℕ
base_trig_grp_formula = 2

abbrev pub base_trig_grp_chart : ℕ
base_trig_grp_chart = 3

abbrev pub base_trig_grp_process : ℕ
base_trig_grp_process = 4

abbrev pub base_trig_grp_fact : ℕ
base_trig_grp_fact = 5

abbrev pub base_trig_grp_rule_kit : ℕ
base_trig_grp_rule_kit = 99

abbrev pub clock_trigger_counter_reset : ℕ
clock_trigger_counter_reset = 14400

abbrev pub sequence_secs_per_trigger : ℕ
sequence_secs_per_trigger = 60

abbrev pub rainfall_size : ℕ
rainfall_size = 360

abbrev pub datalog_size_cycles_max : ℕ
datalog_size_cycles_max = 1440

abbrev pub krono_snapshot_size : ℕ
krono_snapshot_size = 15

abbrev pub case_kit_num_cases_out_max : ℕ
case_kit_num_cases_out_max = 10

abbrev pub subject_cycles_pinned_fail_history : ℕ
subject_cycles_pinned_fail_history = 3

abbrev pub rule_rain_fails_in_empty_trap_max : ℕ
rule_rain_fails_in_empty_trap_max = 3

-- `Nzint_t` is `unsigned int`; an `int` is held as its bit pattern.
abbrev pub word_mod : ℕ
word_mod = 4294967296

abbrev pub incr_word : ℕ → ℕ
incr_word n = (n + 1) % word_mod

-- `--` on an `int` or an unsigned: from 0 it gives the pattern of -1.
abbrev pub decr_word : ℕ → ℕ
decr_word n = (n + (word_mod - 1)) % word_mod

-- `Bindex_t` values.
abbrev pub bindex_fact_invalid : ℕ
bindex_fact_invalid = 2

abbrev pub bindex_fact_unavail : ℕ
bindex_fact_unavail = 3

abbrev pub bindex_rule_auto_mode_fail : ℕ
bindex_rule_auto_mode_fail = 0

abbrev pub bindex_rule_unavail : ℕ
bindex_rule_unavail = 10

-- One taken from a 64-bit word.
abbrev pub one_fewer : ℕ → ℕ
one_fewer n = if n == 0 then 2 ^ 64 - 1 else n - 1
