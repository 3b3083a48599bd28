-- ===== src/Sequencer/Rinse/Connecting.antt =====
-- What becomes of the time of a flush when a DE1 connects (src/pyDE1/flow_sequencer_impl.py).
use py_de.Base.{◌≡◌, refl, true, false, ◌&&◌, some, ok, Bool-cases, inl, inr}
use py_de.PyNum.{Num}
use py_de.Sequencer.Controls.{validate_stop_at}
use py_de.Sequencer.Rinse.{
  De1, Rinse, stop_at_time, finish_initialization, on_de1_nearly_ready, stop_at_time_set_async,
  update_from, differ, none_for_zero,
}

-- When a DE1 that manages the time of a flush has become ready, the time that is read is the one that
-- the DE1 came with, and its register of that time is as it was before `on_de1_nearly_ready`, also
-- where another time, which passes the check, was set through the API before.
pub stop_at_time-finish_initialization :
    (stored : Num → Num) (f : Num) (s : Rinse)
    → validate_stop_at s.stop_at_time ≡ ok s.stop_at_time
    → let d : De1 = record { is_ready = false; rinse_control = true; flush_timeout = f } in
      let t = (finish_initialization stored d s).0 in
      (t.de1 ≡ some (record d { is_ready = true })) × (stop_at_time t.de1 t.stop_at_time ≡ some f)
unfolding finish_initialization on_de1_nearly_ready stop_at_time_set_async stop_at_time update_from
stop_at_time-finish_initialization stored f s h =
    elim (Bool-cases (s.stop_at_time_api_set && differ (none_for_zero f) s.stop_at_time)) [
      | inl e ↦ rw (e, h) (refl, refl)
      | inr e ↦ rw e (refl, refl)
    ]
