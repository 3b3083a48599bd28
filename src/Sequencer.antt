-- ===== src/Sequencer.antt =====
-- src/pyDE1/flow_sequencer_impl.py: the gates of a sequence, and how state updates and samples open
-- them. A subscriber runs up to its first `await` without being interrupted.
pub mod Controls
pub mod Rinse
pub mod Laws
pub mod Opening
pub mod Tasks
pub mod Weight
use py_de.Base.{ℕ, Bool, true, false, not, ◌&&◌, ◌||◌, ◌==◌, Option, none, some, if◌then◌else◌}
use py_de.PyNum.{Num}
use py_de.PyNum.Arithmetic.{less}
use py_de.CApi.State.Enums.{
  MachineState, Substate, is_flow_state, flow_phase, pre_infuse, Phase, before, during, after,
}

pub record Gates : Type 0 where
  pub sequence_start : Bool
  pub flow_begin : Bool
  pub expect_drops : Bool
  pub exit_preinfuse : Bool
  pub flow_end : Bool
  pub flow_state_exit : Bool
  pub last_drops : Bool
  pub sequence_complete : Bool

-- `_close_all_gates`
abbrev pub closed : Gates
closed = record {
  sequence_start = false;
  flow_begin = false;
  expect_drops = false;
  exit_preinfuse = false;
  flow_end = false;
  flow_state_exit = false;
  last_drops = false;
  sequence_complete = false;
}

pub record Sequencer : Type 0 where
  pub gates : Gates
  pub active_state : Option MachineState
  pub has_started : Bool  -- `_sequence_start_time != 0`
  pub last_profile_frame : Option ℕ
  pub last_profile_frame_weight : Option Num
  pub last_frame_advanced_from : Option ℕ

-- `_singleton_init`
unfoldable pub initial : Sequencer
initial = record {
  gates = closed;
  active_state = none;
  has_started = false;
  last_profile_frame = none;
  last_profile_frame_weight = none;
  last_frame_advanced_from = none;
}

-- StateUpdate
pub record StateUpdate : Type 0 where
  pub state : MachineState
  pub substate : Substate
  pub previous_state : MachineState
  pub previous_substate : Substate

unfoldable pub is_during : Substate → Bool
is_during s = elim (flow_phase s) [
  | none ↦ false
  | some before ↦ false
  | some during ↦ true
  | some after ↦ false
]

unfoldable pub is_pre_infuse : Substate → Bool
is_pre_infuse pre_infuse = true
is_pre_infuse _ = false

unfoldable pub sequence_is_running : Sequencer → Bool
sequence_is_running s = not s.gates.sequence_complete && s.has_started

unfoldable pub sequence_is_running_and_flow_not_started : Sequencer → Bool
unfolding sequence_is_running
sequence_is_running_and_flow_not_started s = sequence_is_running s && not s.gates.flow_begin

-- What a gate's `set` does, where the code sets it under a test.
abbrev pub set_flow_begin : Bool → Gates → Gates
set_flow_begin c g = if c then record g { flow_begin = true } else g

abbrev pub set_exit_preinfuse : Bool → Gates → Gates
set_exit_preinfuse c g = if c then record g { exit_preinfuse = true } else g

abbrev pub set_flow_end : Bool → Gates → Gates
set_flow_end c g = if c then record g { flow_end = true } else g

-- `_abort_sequence`: the tasks of the sequence are cancelled with it.
unfoldable pub abort_sequence : Sequencer → Sequencer
abort_sequence s = record s { gates = record s.gates { sequence_complete = true } }

-- `_start_sequence`. The start time is set before it is asked whether a sequence is running.
unfoldable pub start_sequence : MachineState → Sequencer → Sequencer
unfolding sequence_is_running abort_sequence
start_sequence state s =
    let s1 = record s { has_started = true } in
    let s2 = if sequence_is_running s1 then abort_sequence s1 else s1 in
    record s2 {
      gates = record closed { sequence_start = true };
      active_state = some state;
      last_profile_frame_weight = none;
      last_frame_advanced_from = none;
    }

-- `_end_sequence`, up to its `await`
unfoldable pub end_sequence : Sequencer → Sequencer
end_sequence s = record s { gates = record s.gates { sequence_complete = true } }

abbrev pub on_gates : (Gates → Gates) → Sequencer → Sequencer
on_gates f s = record s { gates = f s.gates }

abbrev pub in_flow_state : StateUpdate → Sequencer → Sequencer
unfolding start_sequence
in_flow_state su s =
    let s1 = if not (is_flow_state su.previous_state) then start_sequence su.state s else s in
    on_gates
      (λ g. set_flow_end (is_during su.previous_substate && not (is_during su.substate)) (
        set_exit_preinfuse (is_pre_infuse su.previous_substate && not (is_pre_infuse su.substate))
          (set_flow_begin (is_during su.substate && not (is_during su.previous_substate)) g)))
      s1

abbrev pub left_flow_state : StateUpdate → Sequencer → Sequencer
unfolding end_sequence sequence_is_running_and_flow_not_started
left_flow_state su s =
    let s1 =
      on_gates
        (λ g.
          record (set_flow_end (is_during su.previous_substate)
            (set_exit_preinfuse (is_pre_infuse su.previous_substate) g)) { flow_state_exit = true })
        s in
    if sequence_is_running_and_flow_not_started s1 then end_sequence s1 else s1

-- `_state_update_subscriber`
unfoldable pub state_update : StateUpdate → Sequencer → Sequencer
unfolding start_sequence end_sequence sequence_is_running_and_flow_not_started
state_update su s =
    if is_flow_state su.state
    then in_flow_state su s
    else if is_flow_state su.previous_state
    then left_flow_state su s
    else s

-- ShotSampleUpdate, what of it is read here
pub record ShotSampleUpdate : Type 0 where
  pub frame_number : ℕ
  pub group_pressure : Num

abbrev same_frame : Option ℕ → ℕ → Bool
same_frame none n = false
same_frame (some m) n = m == n

abbrev over_threshold : Option Num → Num → Bool
over_threshold none p = false
over_threshold (some t) p = less t p

-- `_shot_sample_update_subscriber`, with the threshold of the active control, if it has one, the
-- state and the substate that the DE1 is in, and the current weight.
unfoldable pub shot_sample_update :
    Option Num → MachineState → Substate → Option Num → ShotSampleUpdate → Sequencer → Sequencer
shot_sample_update threshold state substate weight ssu s =
    let s1 = if same_frame s.last_profile_frame ssu.frame_number then s else record s {
      last_profile_frame = some ssu.frame_number;
      last_profile_frame_weight = weight;
    } in
    if is_flow_state state
      && not s1.gates.expect_drops
      && is_during substate
      && over_threshold threshold ssu.group_pressure
    then on_gates (λ g. record g { expect_drops = true }) s1
    else s1

-- What `_sequence_end_sequence` waits for.
pub data Position : Type 0 where
  for_flow_end for_last_drops for_state_exit finished cancelled : Position

-- `_cleanup_stragglers`, for this task: it cancels by name, and so cancels the task of a sequence
-- that has started since.
abbrev pub cleanup_stragglers : Position → Position
cleanup_stragglers finished = finished
cleanup_stragglers _ = cancelled

-- One wait of `_sequence_end_sequence`, whether or not the control has a minimum time, and whether
-- or not it has passed.
unfoldable pub resume : Bool → Bool → Position → Sequencer → Position × Sequencer
unfolding end_sequence
resume minimum timed_out for_flow_end s =
    if s.gates.flow_end
    then (if minimum
        then (for_last_drops, s)
        else (for_state_exit, on_gates (λ g. record g { last_drops = true }) s))
    else (for_flow_end, s)
resume minimum timed_out for_last_drops s =
    if s.gates.last_drops || timed_out
    then (for_state_exit, on_gates (λ g. record g { last_drops = true }) s)
    else (for_last_drops, s)
resume minimum timed_out for_state_exit s =
    if s.gates.flow_state_exit then (finished, end_sequence s) else (for_state_exit, s)
resume minimum timed_out finished s = (finished, s)
resume minimum timed_out cancelled s = (cancelled, s)
