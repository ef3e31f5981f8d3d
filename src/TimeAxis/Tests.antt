-- ===== src/TimeAxis/Tests.antt =====
-- Runs of the time axis.
use zandr_ea.Prelude.{
  has_key, emplace, ◌*◌, ◌≤◌, ◌≡◌, refl, [], ◌∷◌, some, take, reverse, arith, length,
}
use zandr_ea.Types.{krono_snapshot_size}
use zandr_ea.TimeAxis.{
  TimeAxis, new_axis, trigger_axis, display_axis_in_realtime, create_snapshot,
  display_axis_from_snapshot_set, resize_logging,
}
use zandr_ea.TimeAxis.Logs.{run_axis, display-run_axis, display-create_snapshot}
use zandr_ea.TimeAxis.Resize.{resize_logging-covers}

-- The axis of one-minute cycles after its first trigger.
abbrev hour_axis : TimeAxis
hour_axis = trigger_axis 7200 (new_axis 60 1)

abbrev snapped_axis : TimeAxis
snapped_axis = record hour_axis {
  snapshots_by_set_sgi = (4, take krono_snapshot_size hour_axis.times_held_newest_to_oldest) ∷ [];
}

display-run_axis_example :
    display_axis_in_realtime (run_axis (7260 ∷ 7320 ∷ []) hour_axis)
    ≡ some
        (reverse (take krono_snapshot_size (7320 ∷ 7260 ∷ hour_axis.times_held_newest_to_oldest)))
unfolding trigger_axis new_axis
display-run_axis_example = display-run_axis (7260 ∷ 7320 ∷ []) hour_axis refl (omega arith)

display-create_snapshot_example :
    display_axis_from_snapshot_set 4 (run_axis (7260 ∷ []) snapped_axis)
    ≡ display_axis_in_realtime hour_axis
unfolding trigger_axis new_axis create_snapshot has_key emplace
display-create_snapshot_example =
    display-create_snapshot 4 (7260 ∷ []) hour_axis snapped_axis refl refl

resize_logging-covers_example :
    7200
    ≤ length (resize_logging 7200 hour_axis).0.times_held_newest_to_oldest
      * (resize_logging 7200 hour_axis).0.secs_per_cycle
unfolding trigger_axis new_axis resize_logging
resize_logging-covers_example = (resize_logging-covers 7200 hour_axis (omega arith) refl refl).0
