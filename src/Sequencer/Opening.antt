-- ===== src/Sequencer/Opening.antt =====
-- When gates are closed: only where a sequence starts.
use py_de.Base.{◌≡◌, ◌⊎◌, inl, inr, true, not, ◌&&◌, Bool-cases, some, arith}
use py_de.Sequencer.{
  Gates, is_during, is_pre_infuse, closed, state_update, shot_sample_update, start_sequence,
  abort_sequence, end_sequence, sequence_is_running, resume,
}
use py_de.Sequencer.Laws.{
  System, Event, reported, sampled, resumed, watchdog, cleaned_up, starts, step,
}

-- What is open in the first is open in the second.
pub record StayOpen (g g' : Gates) : Type 0 where
  pub sequence_start : g.sequence_start ≡ true → g'.sequence_start ≡ true
  pub flow_begin : g.flow_begin ≡ true → g'.flow_begin ≡ true
  pub expect_drops : g.expect_drops ≡ true → g'.expect_drops ≡ true
  pub exit_preinfuse : g.exit_preinfuse ≡ true → g'.exit_preinfuse ≡ true
  pub flow_end : g.flow_end ≡ true → g'.flow_end ≡ true
  pub flow_state_exit : g.flow_state_exit ≡ true → g'.flow_state_exit ≡ true
  pub last_drops : g.last_drops ≡ true → g'.last_drops ≡ true
  pub sequence_complete : g.sequence_complete ≡ true → g'.sequence_complete ≡ true

-- The report of a flow state out of another state has started a sequence, which is running in the
-- new state; what is open are its start, and the gates that the same report opens.
abbrev pub Started : Event → System → System → Type 0
Started (reported m u) s s' =
    (starts s.state m ≡ true)
    × (sequence_is_running s'.sequencer ≡ true)
    × (s'.sequencer.active_state ≡ some m)
    × (s'.sequencer.gates ≡ record closed {
      sequence_start = true;
      flow_begin = is_during u && not (is_during s.substate);
      exit_preinfuse = is_pre_infuse s.substate && not (is_pre_infuse u);
      flow_end = is_during s.substate && not (is_during u);
    })
Started _ s s' = ⊥

-- Every event closes no gate, or is the report of a flow state out of another state: then a sequence
-- is running in this state, and nothing is open but its start and the gates that the report opens.
pub step-StayOpen :
    (e : Event) (s : System)
    → StayOpen s.sequencer.gates (step e s).sequencer.gates ⊎ Started e s (step e s)
unfolding step state_update shot_sample_update resume end_sequence start_sequence
    sequence_is_running abort_sequence
step-StayOpen (reported m u) s = elim (Bool-cases (starts s.state m)) [
  | inl start ↦ inr (start, ground arith, ground arith, ground arith)
  | inr other ↦ inl (ground arith)
]
step-StayOpen (sampled t m u w ssu) s = inl (ground arith)
step-StayOpen (resumed b c) s = inl (ground arith)
step-StayOpen watchdog s = inl (ground arith)
step-StayOpen cleaned_up s = inl (ground arith)
