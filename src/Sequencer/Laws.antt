-- ===== src/Sequencer/Laws.antt =====
-- A sequence ends: what holds of the gates after any state updates, samples and steps of the task
-- that ends a sequence.
use py_de.Base.{
  ◌≡◌, ◌≢◌, ◌⊎◌, Bool, true, false, not, ◌&&◌, Option, List, [], ◌∷◌, if◌then◌else◌, arith,
}
use py_de.PyNum.{Num}
use py_de.CApi.State.Enums.{MachineState, Substate, is_flow_state, no_request, no_state}
use py_de.Sequencer.{
  Sequencer, initial, ShotSampleUpdate, is_during, state_update, shot_sample_update,
  sequence_is_running, end_sequence, Position, for_flow_end, for_last_drops, for_state_exit,
  finished, cancelled, cleanup_stragglers, resume,
}

-- The sequencer, the last state and substate that were reported, and the task of the sequence that
-- started last.
pub record System : Type 0 where
  pub sequencer : Sequencer
  pub state : MachineState
  pub substate : Substate
  pub position : Position

pub data Event : Type 0 where
  reported : MachineState → Substate → Event
  sampled : Option Num → MachineState → Substate → Option Num → ShotSampleUpdate → Event
  resumed : Bool → Bool → Event
  watchdog cleaned_up : Event

abbrev pub starts : MachineState → MachineState → Bool
starts old new = is_flow_state new && not (is_flow_state old)

-- A state that is reported comes with the one that was reported before, and starts a task where it
-- starts a sequence.
unfoldable pub step : Event → System → System
step (reported m u) s = record {
  sequencer =
      state_update
        (record {
          state = m;
          substate = u;
          previous_state = s.state;
          previous_substate = s.substate;
        })
        s.sequencer;
  state = m;
  substate = u;
  position = if starts s.state m then for_flow_end else s.position;
}
step (sampled threshold m u weight ssu) s = record s {
  sequencer = shot_sample_update threshold m u weight ssu s.sequencer;
}
step (resumed minimum timed_out) s =
    let (p, q) = resume minimum timed_out s.position s.sequencer in
    record s { sequencer = q; position = p }
step watchdog s = record s { sequencer = end_sequence s.sequencer }
step cleaned_up s = record s { position = cleanup_stragglers s.position }

unfoldable pub run : List Event → System → System
run [] s = s
run (e ∷ es) s = run es (step e s)

-- Nothing has been reported yet.
unfoldable pub first : System
first = record { sequencer = initial; state = no_request; substate = no_state; position = finished }

abbrev Past : Position → Sequencer → Type 0
Past for_flow_end s = Unit
Past for_last_drops s = s.gates.flow_end ≡ true
Past for_state_exit s = s.gates.flow_end ≡ true
Past finished s = s.has_started ≡ true → s.gates.sequence_complete ≡ true
Past cancelled s = Unit

-- While flow goes on, it has begun and not ended; after it, it has ended; and out of the flow states
-- the sequence has left its flow state, and has ended its flow or is complete.
pub record IsCoherent (s : System) : Type 0 where
  pub flowing :
      s.sequencer.gates.flow_begin ≡ true
      → (s.sequencer.gates.flow_end ≡ true)
        ⊎ ((is_flow_state s.state ≡ true) × (is_during s.substate ≡ true))
  pub started : is_flow_state s.state ≡ true → s.sequencer.has_started ≡ true
  pub left :
      is_flow_state s.state ≡ false
      → s.sequencer.has_started ≡ true
      → (s.sequencer.gates.flow_state_exit ≡ true)
        × ((s.sequencer.gates.sequence_complete ≡ true) ⊎ (s.sequencer.gates.flow_end ≡ true))
  pub past : Past s.position s.sequencer

abbrev Running : System → Type 0
Running s = sequence_is_running s.sequencer ≡ true

first-IsCoherent : IsCoherent first
unfolding first initial is_flow_state
first-IsCoherent = record {
  flowing = λ h. absurd (cc);
  started = λ h. absurd (cc);
  left = λ h k. absurd (cc);
  past = λ h. absurd (cc);
}

resumed-IsCoherent :
    (minimum timed_out : Bool) (s : System)
    → IsCoherent s
    → IsCoherent (step (resumed minimum timed_out) s)
unfolding step resume end_sequence
resumed-IsCoherent minimum timed_out s h = ground arith

watchdog-IsCoherent : (s : System) → IsCoherent s → IsCoherent (step watchdog s)
unfolding step end_sequence
watchdog-IsCoherent s h = ground arith

cleaned_up-IsCoherent : (s : System) → IsCoherent s → IsCoherent (step cleaned_up s)
unfolding step
cleaned_up-IsCoherent s h = ground arith

reported-IsCoherent :
    (m : MachineState) (u : Substate) (s : System)
    → IsCoherent s
    → IsCoherent (step (reported m u) s)
unfolding step state_update
reported-IsCoherent m u s h = ground arith

sampled-IsCoherent :
    (threshold weight : Option Num) (m : MachineState) (u : Substate) (ssu : ShotSampleUpdate)
    (s : System)
    → IsCoherent s
    → IsCoherent (step (sampled threshold m u weight ssu) s)
unfolding step shot_sample_update
sampled-IsCoherent threshold weight m u ssu s h = ground arith

step-IsCoherent : (e : Event) (s : System) → IsCoherent s → IsCoherent (step e s)
step-IsCoherent (reported m u) s h = reported-IsCoherent m u s h
step-IsCoherent (sampled threshold m u weight ssu) s h =
    sampled-IsCoherent threshold weight m u ssu s h
step-IsCoherent (resumed minimum timed_out) s h = resumed-IsCoherent minimum timed_out s h
step-IsCoherent watchdog s h = watchdog-IsCoherent s h
step-IsCoherent cleaned_up s h = cleaned_up-IsCoherent s h

run-IsCoherent : (es : List Event) (s : System) → IsCoherent s → IsCoherent (run es s)
unfolding run
run-IsCoherent [] s h = h
run-IsCoherent (e ∷ es) s h = run-IsCoherent es (step e s) (step-IsCoherent e s h)

-- Whatever states are reported and whatever samples come, in any order with the steps of the task
-- that ends the sequence, with its cancellation and with the watchdog: flow that has begun and not ended is going on, and
-- out of the flow states a sequence has left its flow state and has ended its flow or is complete.
pub run-first-IsCoherent : (es : List Event) → IsCoherent (run es first)
run-first-IsCoherent es = run-IsCoherent es first first-IsCoherent

abbrev pub three : Bool → List Event
three minimum = resumed minimum true ∷ resumed minimum true ∷ resumed minimum true ∷ []

completes :
    (minimum : Bool) (s : System)
    → IsCoherent s
    → s.position ≢ cancelled
    → is_flow_state s.state ≡ false
    → sequence_is_running s.sequencer ≡ true
    → (run (three minimum) s).sequencer.gates.sequence_complete ≡ true
unfolding run step resume end_sequence sequence_is_running
completes minimum s h n out running = ground arith

-- Out of the flow states, no sequence is stuck whose last task has not been cancelled: if it is not
-- complete, it is completed by this task in three steps, once the minimum time for the last drops has
-- passed. The watchdog is not needed for it.
pub run-three :
    (es : List Event) (minimum : Bool)
    → let s = run es first in
      s.position ≢ cancelled
      → is_flow_state s.state ≡ false
      → sequence_is_running s.sequencer ≡ true
      → (run (three minimum) s).sequencer.gates.sequence_complete ≡ true
run-three es minimum n out running =
    completes minimum (run es first) (run-first-IsCoherent es) n out running
