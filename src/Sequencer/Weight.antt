-- ===== src/Sequencer/Weight.antt =====
-- Stopping and moving on by weight: `_select_weight_flow` and `_act_on_weight_subscriber` of
-- src/pyDE1/flow_sequencer_impl.py. What they read of the configuration, of the DE1 and of the
-- control is an argument.
pub mod Acting
use py_de.Base.{
  ℕ, Bool, true, false, not, ◌&&◌, Option, none, some, List, [], ◌∷◌, Result, ok, err, and_then,
  ◌==◌, if◌then◌else◌,
}
use py_de.PyNum.{Num, int, num_gt}
use py_de.PyNum.Arithmetic.{num_add, num_sub, num_mul, num_div, less}
use py_de.Scale.Processor.{Estimates}

-- config.de1.bump_resist
pub record BumpResist : Type 0 where
  pub use_median_weight_always : Bool
  pub use_median_flow_always : Bool
  pub flow_threshold : Num
  pub flow_multiplier : Num
  pub sub_median_weight : Bool

-- WeightFlowTuple
pub record WeightFlow : Type 0 where
  pub weight : Num
  pub weight_time : Num
  pub flow : Num
  pub flow_time : Num

-- The flow of the last sample and its time, if there is a sample that is at most 0.6 s old.
abbrev sampled_flow : Num → Num → Option (Num × Num) → Option (Num × Num)
sampled_flow now k none = none
sampled_flow now k (some (flow, t)) =
    if num_gt (num_sub now t) 3 5 then none else some (num_mul flow k, t)

abbrev or_median : Estimates → Option (Num × Num) → WeightFlow → WeightFlow
or_median e none w = record w { flow = e.median_flow; flow_time = e.median_flow_time }
or_median e (some (f, t)) w = record w { flow = f; flow_time = t }

-- The time, and the group flow of the last sample with its arrival time
unfoldable pub select_weight_flow : BumpResist → Num → Option (Num × Num) → Estimates → WeightFlow
select_weight_flow c now last e =
    let w0 : WeightFlow = record {
      weight = e.current_weight;
      weight_time = e.current_weight_time;
      flow = e.average_flow;
      flow_time = e.average_flow_time;
    } in
    let w1 =
      if c.use_median_weight_always
      then record w0 { weight = e.median_weight; weight_time = e.median_weight_time }
      else w0 in
    let w2 =
      if c.use_median_flow_always
      then record w1 { flow = e.median_flow; flow_time = e.median_flow_time }
      else w1 in
    if less c.flow_threshold w2.flow
    then (let w3 = or_median e (sampled_flow now c.flow_multiplier last) w2 in
        if c.sub_median_weight
        then record w3 { weight = e.median_weight; weight_time = e.median_weight_time }
        else w3)
    else if less w2.flow (int 0)
    then record w2 { flow = int 0 }
    else w2

-- What the subscriber reads besides.
pub record Controls : Type 0 where
  pub stop_at_weight_active : Bool
  pub move_on_weight_active : Bool
  pub stop_at_weight : Option Num
  pub frame : Option ℕ
  pub frame_weight : Option Num
  pub start_of_frame_weight : Option Num
  pub stop_lead_time : Num
  pub fall_time : Num
  pub stop_at_weight_adjust : Num
  pub now : Num

pub data Action : Type 0 where
  stop_flow skip_to_next : Action

abbrev pub or_zero : Option Num → Num
or_zero none = int 0
or_zero (some v) = v

abbrev pub same_frame : Option ℕ → Option ℕ → Bool
same_frame none none = true
same_frame (some m) (some n) = m == n
same_frame _ _ = false

-- Whether it is time, with some weight left and the times that are taken off and added.
abbrev pub is_time : Controls → WeightFlow → Num → (Num → Num) → Result Bool
is_time c w left shift =
    if less (int 0) w.flow
    then and_then (num_div left w.flow)
        (λ dt. ok (not (less c.now (shift (num_add w.weight_time dt)))))
    else ok false

-- `target_time`, of `weight_time + dt`
abbrev pub stop_time : Controls → Num → Num
stop_time c t = num_add (num_sub (num_sub t c.stop_lead_time) c.fall_time) c.stop_at_weight_adjust

abbrev pub move_time : Controls → Num → Num
move_time c t = num_sub t c.stop_lead_time

-- `if` it is active `and` there is a target
abbrev pub with_target : Bool → Option Num → (Num → Result Bool) → Result Bool
with_target active none f = ok false
with_target active (some target) f = if active then f target else ok false

unfoldable pub stop_is_due : Controls → WeightFlow → Result Bool
stop_is_due c w =
    with_target c.stop_at_weight_active c.stop_at_weight
      λ target. is_time c w (num_sub target w.weight) (stop_time c)

unfoldable pub move_is_due : Controls → WeightFlow → Option ℕ → Result Bool
move_is_due c w advanced_from =
    with_target (c.move_on_weight_active && not (same_frame c.frame advanced_from)) c.frame_weight
      λ target.
        is_time c w (num_sub target (num_sub w.weight (or_zero c.start_of_frame_weight)))
          (move_time c)

-- `_act_on_weight_subscriber`: what it asks of the DE1, and the frame that it advanced from.
unfoldable pub act_on_weight : Controls → WeightFlow → Option ℕ → Result (List Action × Option ℕ)
act_on_weight c w advanced_from = and_then (stop_is_due c w) λ stop.
    if stop
    then ok (stop_flow ∷ [], advanced_from)
    else and_then (move_is_due c w advanced_from)
        λ move. if move then ok (skip_to_next ∷ [], c.frame) else ok ([], advanced_from)
