-- ===== src/Sequencer/Tasks.antt =====
-- The tasks of a sequence in src/pyDE1/flow_sequencer_impl.py that switch something on and off at
-- gates: the tracking of the volume, the stops at a volume and a weight, the moving on by weight,
-- and the tare that is held.
pub mod Switching
use py_de.Base.{Bool, true, false, Option, none, some, List, [], ◌∷◌, if◌then◌else◌}
use py_de.CApi.State.Enums.{MachineState, espresso, hot_water}
use py_de.Sequencer.{Gates}

pub data Task : Type 0 where
  volume_tracking stop_at_volume stop_at_weight move_on_weight scale_tare : Task

-- What a task waits for, if it has begun.
pub data Position : Type 0 where
  created for_start for_opening for_closing done : Position

-- `autotare_states`, `stop_at_volume_states` and so on; the volume is tracked in any state.
unfoldable pub applies : Task → MachineState → Bool
applies volume_tracking m = true
applies move_on_weight espresso = true
applies move_on_weight _ = false
applies _ espresso = true
applies _ hot_water = true
applies _ _ = false

-- The gate at which a task goes on after the start.
abbrev pub opening : Task → Gates → Bool
opening volume_tracking g = g.flow_begin
opening stop_at_volume g = g.exit_preinfuse
opening stop_at_weight g = g.expect_drops
opening move_on_weight g = g.expect_drops
opening scale_tare g = g.expect_drops

-- What the task sets at the start, of what it switches.
abbrev at_start : Task → Bool → Bool
at_start volume_tracking on = on
at_start scale_tare on = true
at_start _ on = false

-- The tare is released at the gate, and all else is switched on.
abbrev at_opening : Task → Position × Bool
at_opening scale_tare = (done, false)
at_opening _ = (for_closing, true)

-- `_sequence_volume_tracking`, `_sequence_stop_at_volume`, `_sequence_stop_at_weight`,
-- `_sequence_move_on_weight` and `_sequence_scale_tare`, up to the next wait, in the state in which
-- the sequence has started.
unfoldable pub resume : Task → MachineState → Gates → Position × Bool → Position × Bool
resume t m g (created, on) = if applies t m then (for_start, on) else (done, false)
resume t m g (for_start, on) =
    if g.sequence_start then (for_opening, at_start t on) else (for_start, on)
resume t m g (for_opening, on) = if opening t g then at_opening t else (for_opening, on)
resume t m g (for_closing, on) = if g.flow_end then (done, false) else (for_closing, on)
resume t m g (done, on) = (done, on)

-- `CancelledError`: a task that has not begun never does, and one that has switches off.
unfoldable pub cancel : Position × Bool → Position × Bool
cancel (created, on) = (done, on)
cancel (done, on) = (done, on)
cancel (p, on) = (done, false)

-- A turn of a task: it is resumed with the gates as they are, or cancelled.
pub data Turn : Type 0 where
  resumed : Gates → Turn
  cancelled : Turn

unfoldable pub turn : Task → MachineState → Turn → Position × Bool → Position × Bool
turn t m (resumed g) p = resume t m g p
turn t m cancelled p = cancel p

unfoldable pub turns : Task → MachineState → List Turn → Position × Bool → Position × Bool
turns t m [] p = p
turns t m (r ∷ rs) p = turns t m rs (turn t m r p)
