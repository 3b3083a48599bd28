-- ===== src/Tests/Sequences.antt =====
-- An espresso, as it is reported to the sequencer.
use py_de.Base.{ok, none, ◌≡◌, ◌≢◌, ◌⊎◌, ◌↔◌, refl, true, false, some, List, [], ◌∷◌}
use py_de.PyNum.{int, frac}
use py_de.PyNum.Arithmetic.{less, num_sub, num_add, num_div}
use py_de.CApi.State.Enums.{
  is_flow_state, idle, espresso, no_state, heat_water_heater, pre_infuse, pour, flush,
}
use py_de.Sequencer.Tasks.{stop_at_weight, created, Turn, turn, turns}
use py_de.Sequencer.Tasks.Switching.{IsFor, waiting, Opens, Closes, turns-on}
use py_de.Sequencer.Weight.{Controls, WeightFlow, stop_flow, stop_is_due, act_on_weight}
use py_de.Sequencer.{
  Gates, closed, initial, is_during, is_pre_infuse, state_update, shot_sample_update,
  start_sequence, abort_sequence, end_sequence, sequence_is_running,
  sequence_is_running_and_flow_not_started, for_flow_end, cancelled,
}
use py_de.Sequencer.Laws.{
  Event, reported, sampled, run, step, first, IsCoherent, run-first-IsCoherent, three, run-three,
}
use py_de.Sequencer.Opening.{StayOpen, Started, step-StayOpen}

abbrev shot : List Event
shot =
    reported idle no_state
    ∷ reported espresso heat_water_heater
    ∷ reported espresso pre_infuse
    ∷ sampled (some (frac 1 2)) espresso pre_infuse (some (int 0))
        (record { frame_number = 1; group_pressure = int 2 })
    ∷ reported espresso pour
    ∷ reported espresso flush
    ∷ reported idle no_state
    ∷ []

run-first-IsCoherent_example : IsCoherent (run shot first)
run-first-IsCoherent_example = run-first-IsCoherent shot

shot-waits : (run shot first).position ≡ for_flow_end
unfolding run step first is_flow_state
shot-waits = refl

shot-cancelled : (run shot first).position ≢ cancelled
shot-cancelled e = let w = shot-waits in cc

shot-left : is_flow_state (run shot first).state ≡ false
unfolding run step first is_flow_state
shot-left = refl

shot-running : sequence_is_running (run shot first).sequencer ≡ true
unfolding run step first is_flow_state initial is_during is_pre_infuse state_update
    shot_sample_update start_sequence abort_sequence sequence_is_running
    sequence_is_running_and_flow_not_started end_sequence less
shot-running = refl

run-three_example : (run (three true) (run shot first)).sequencer.gates.sequence_complete ≡ true
run-three_example = run-three shot true shot-cancelled shot-left shot-running

step-StayOpen_example :
    StayOpen first.sequencer.gates (step (reported espresso pour) first).sequencer.gates
    ⊎ Started (reported espresso pour) first (step (reported espresso pour) first)
step-StayOpen_example = step-StayOpen (reported espresso pour) first

abbrev pouring : Gates
pouring = record closed { sequence_start = true; flow_begin = true; expect_drops = true }

abbrev until_drops : List Turn
until_drops = Turn.resumed closed ∷ Turn.resumed pouring ∷ Turn.resumed pouring ∷ []

turns-on_example :
    let p = turns stop_at_weight espresso until_drops (created, false) in
    let r : Turn = Turn.resumed (record pouring { flow_end = true }) in
    ((p.1 ≡ true) → IsFor stop_at_weight espresso)
    × ((p.1 ≡ false)
        → ((turn stop_at_weight espresso r p).1 ≡ true)
          ↔ ((p.0 ≡ waiting stop_at_weight) × Opens stop_at_weight r))
    × ((p.1 ≡ true) → ((turn stop_at_weight espresso r p).1 ≡ false) ↔ Closes stop_at_weight r)
turns-on_example =
    turns-on stop_at_weight espresso until_drops (Turn.resumed (record pouring { flow_end = true }))

-- 30 g of 36 g at 2 g/s, frame 3 of a profile that moves on at no weight
abbrev controls : Controls
controls = record {
  stop_at_weight_active = true;
  move_on_weight_active = true;
  stop_at_weight = some (int 36);
  frame = some 3;
  frame_weight = none;
  start_of_frame_weight = some (int 5);
  stop_lead_time = frac 1 2;
  fall_time = frac 1 2;
  stop_at_weight_adjust = frac 0 1;
  now = int 103;
}

abbrev weight_flow : WeightFlow
weight_flow = record { weight = int 30; weight_time = int 100; flow = int 2; flow_time = int 100 }

stops_in_time : act_on_weight controls weight_flow (some 2) ≡ ok (stop_flow ∷ [], some 2)
unfolding act_on_weight stop_is_due num_sub num_add num_div less
stops_in_time = refl
