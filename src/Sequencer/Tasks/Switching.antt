-- ===== src/Sequencer/Tasks/Switching.antt =====
-- What is switched on at a gate is switched off again.
use py_de.Base.{◌≡◌, ◌⊎◌, ◌↔◌, inl, refl, Bool, true, false, List, [], ◌∷◌, arith}
use py_de.CApi.State.Enums.{MachineState, espresso, hot_water}
use py_de.Sequencer.{Gates}
use py_de.Sequencer.Tasks.{
  Task, volume_tracking, stop_at_volume, stop_at_weight, move_on_weight, scale_tare, Position,
  created, for_start, for_opening, for_closing, done, applies, resume, cancel, Turn, resumed,
  cancelled, turn, turns,
}

-- Where a task has to be for what it switches to be on.
abbrev holding : Task → Position
holding scale_tare = for_opening
holding _ = for_closing

abbrev OnlyHolding : Task → MachineState → Position × Bool → Type 0
OnlyHolding t m (p, on) =
    ((on ≡ true) → (p ≡ holding t) × (applies t m ≡ true))
    × ((p ≡ holding t) → (on ≡ true))
    × ((p ≡ created) ⊎ (p ≡ done) ⊎ (applies t m ≡ true))

turn-OnlyHolding :
    (t : Task) (m : MachineState) (r : Turn) (p : Position × Bool)
    → OnlyHolding t m p
    → OnlyHolding t m (turn t m r p)
unfolding turn resume cancel
turn-OnlyHolding t m r p h = ground arith

turns-OnlyHolding :
    (t : Task) (m : MachineState) (rs : List Turn) (p : Position × Bool)
    → OnlyHolding t m p
    → OnlyHolding t m (turns t m rs p)
unfolding turns
turns-OnlyHolding t m [] p h = h
turns-OnlyHolding t m (r ∷ rs) p h =
    turns-OnlyHolding t m rs (turn t m r p) (turn-OnlyHolding t m r p h)

-- Where a task waits for what switches on, and the gate that does: the start for the tare, which is
-- held then.
abbrev pub waiting : Task → Position
waiting scale_tare = for_start
waiting _ = for_opening

abbrev on_gate : Task → Gates → Bool
on_gate volume_tracking g = g.flow_begin
on_gate stop_at_volume g = g.exit_preinfuse
on_gate stop_at_weight g = g.expect_drops
on_gate move_on_weight g = g.expect_drops
on_gate scale_tare g = g.sequence_start

abbrev off_gate : Task → Gates → Bool
off_gate scale_tare g = g.expect_drops
off_gate _ g = g.flow_end

-- A turn in which the gate is open, and one in which it is or the task is cancelled.
abbrev pub Opens : Task → Turn → Type 0
Opens t (resumed g) = on_gate t g ≡ true
Opens t cancelled = ⊥

abbrev pub Closes : Task → Turn → Type 0
Closes t (resumed g) = off_gate t g ≡ true
Closes t cancelled = Unit

switches-on :
    (t : Task) (m : MachineState) (r : Turn) (p : Position × Bool)
    → OnlyHolding t m p
    → p.1 ≡ false
    → ((turn t m r p).1 ≡ true) ↔ ((p.0 ≡ waiting t) × Opens t r)
unfolding turn resume cancel
switches-on t m r p h off = (λ e. ground arith, λ e. ground arith)

switches-off :
    (t : Task) (m : MachineState) (r : Turn) (p : Position × Bool)
    → OnlyHolding t m p
    → p.1 ≡ true
    → ((turn t m r p).1 ≡ false) ↔ Closes t r
unfolding turn resume cancel
switches-off t m r p h on = (λ e. ground arith, λ e. ground arith)

-- The states in which a task switches.
abbrev pub IsFor : Task → MachineState → Type 0
IsFor volume_tracking m = Unit
IsFor move_on_weight m = m ≡ espresso
IsFor _ m = (m ≡ espresso) ⊎ (m ≡ hot_water)

applies-IsFor : (t : Task) (m : MachineState) → applies t m ≡ true → IsFor t m
unfolding applies
applies-IsFor t m e = ground arith

-- However a task has been resumed and cancelled, whatever the gates were: what it switches is on only
-- in an espresso, or hot water but for the moving on by weight, or any state for the tracking of the
-- volume. While it is off, the next turn switches it on exactly if the
-- task waits for its gate and is resumed with it open, which is the start for the tare and the gate
-- of the task for all else. While it is on, the next turn switches it off exactly if the task is
-- cancelled, or resumed when the flow has ended, or for the tare when drops are expected.
pub turns-on :
    (t : Task) (m : MachineState) (rs : List Turn) (r : Turn)
    → let p = turns t m rs (created, false) in
      ((p.1 ≡ true) → IsFor t m)
      × ((p.1 ≡ false) → ((turn t m r p).1 ≡ true) ↔ ((p.0 ≡ waiting t) × Opens t r))
      × ((p.1 ≡ true) → ((turn t m r p).1 ≡ false) ↔ Closes t r)
turns-on t m rs r =
    let p = turns t m rs (created, false) in
    let h : OnlyHolding t m p =
      turns-OnlyHolding t m rs (created, false) (λ e. absurd (cc), λ e. ground arith, inl refl) in
    (λ on. applies-IsFor t m (h.0 on).1, switches-on t m r p h, switches-off t m r p h)
