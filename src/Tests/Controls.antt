-- ===== src/Tests/Controls.antt =====
-- Settings of the espresso control.
use py_de.Base.{◌<◌, ◌≤◌, arith, refl, true, false, some, none, [], ◌∷◌, length}
use py_de.PyNum.{pos, negsuc, int, num_lt, num_gt}
use py_de.Json
use py_de.Sequencer.Controls.{Control, init, blank, validate_stop_at}
use py_de.Sequencer.Controls.Frames.{IsStored, IsRefused, mow_set_frame_lem}
use py_de.Sequencer.Controls.Sanity.{time, weight, drops, frame, calls, IsSane, calls-init-IsSane}

abbrev three_frames : Control
three_frames = record blank { mow_all_frames = some (int 2) ∷ none ∷ some (int 5) ∷ [] }

-- The frame 1 of three is set.
mow_set_frame_lem_example :
    (1 < length three_frames.mow_all_frames → IsStored 1 (some (int 4)) three_frames)
    × (length three_frames.mow_all_frames ≤ 1 → IsRefused 1 (some (int 4)) three_frames)
unfolding validate_stop_at num_lt
mow_set_frame_lem_example =
    mow_set_frame_lem 1 (some (int 4)) (some (int 4)) three_frames (omega arith) refl

abbrev set : Control
set = record blank {
  disable_auto_tare = false;
  stop_at_time = some (int 30);
  stop_at_weight = none;
  first_drops_threshold = some (int 1);
  last_drops_minimum_time = int 3;
}

calls-init-IsSane_example : IsSane (
    calls
      (time (some (int 0))
        ∷ weight (some (int 36))
        ∷ drops (record { num = negsuc 0; den = 1 })
        ∷ frame (some (pos 2)) none
        ∷ [])
      set)
unfolding init validate_stop_at num_lt num_gt
calls-init-IsSane_example =
    calls-init-IsSane (Json.bool false) (some (int 30)) none (some (int 0)) (some (int 1)) (int 3)
      true true set
      (time (some (int 0))
        ∷ weight (some (int 36))
        ∷ drops (record { num = negsuc 0; den = 1 })
        ∷ frame (some (pos 2)) none
        ∷ [])
      refl
