-- ===== src/Profile/Steps.antt =====
-- Steps and recipes, and the JSON that stands for them in a version 2 profile (what
-- src/pyDE1/de1/profile.py reads).
pub mod Flags
pub mod Frames
use Prim.Native.String.{String}
use py_de.Base.{
  ℕ, ◌+◌, ◌*◌, Bool, true, false, Option, none, some, List, [], ◌∷◌, map, if◌then◌else◌,
}
use py_de.PyNum.{pos, Num, int}
use py_de.Json.{Json, Items, Fields, num, str, array, object, no_items, item, no_fields, field}
use py_de.CApi.Frame.{ShotFrame, ShotExtFrame}

-- Over or under a value, of the flow or of the pressure.
pub record Exit : Type 0 where
  pub over : Bool
  pub of_flow : Bool
  pub value : Num

pub record Limit : Type 0 where
  pub value : Num
  pub range : Num

pub record Step : Type 0 where
  pub controls_flow : Bool
  pub flow : Num
  pub pressure : Num
  pub temperature : Num
  pub seconds : Num
  pub volume : Num
  pub mix_temperature : Bool
  pub smooth : Bool
  pub exit : Option Exit
  pub limit : Option Limit
  pub weight : Option Num

abbrev pub choose : Bool → String → String → Json
choose true s t = str s
choose false s t = str t

abbrev render_exit : Option Exit → Fields → Fields
render_exit none fs = fs
render_exit (some e) fs =
    field "exit"
      (object (
        field "condition" (choose e.over "over" "under") (
          field "type" (choose e.of_flow "flow" "pressure")
            (field "value" (num e.value) no_fields))))
      fs

abbrev render_limit : Option Limit → Fields → Fields
render_limit none fs = fs
render_limit (some l) fs =
    field "limiter" (object (field "value" (num l.value) (field "range" (num l.range) no_fields)))
      fs

abbrev render_weight : Option Num → Fields
render_weight none = no_fields
render_weight (some w) = field "weight" (num w) no_fields

abbrev pub render_step : Step → Json
render_step s = object (
    field "pump" (choose s.controls_flow "flow" "pressure") (
      field "flow" (num s.flow) (
        field "pressure" (num s.pressure) (
          field "sensor" (choose s.mix_temperature "water" "coffee") (
            field "transition" (choose s.smooth "smooth" "fast") (
              field "temperature" (num s.temperature) (
                field "seconds" (num s.seconds) (
                  field "volume" (num s.volume)
                    (render_exit s.exit (render_limit s.limit (render_weight s.weight)))))))))))

abbrev bit : Bool → ℕ → ℕ
bit b n = if b then n else 0

abbrev pub exit_bits : Option Exit → ℕ
exit_bits none = 0
exit_bits (some e) = 2 + bit e.over 4 + bit e.of_flow 8

-- FrameFlags of a step, as a sum
abbrev pub flag_bits : Step → ℕ
flag_bits s =
    bit s.controls_flow 1 + exit_bits s.exit + bit s.mix_temperature 16 + bit s.smooth 32 + 64

abbrev pub exit_value : Option Exit → Num
exit_value none = int 0
exit_value (some e) = e.value

abbrev pub frame_of : Step → ShotFrame
frame_of s = record {
  arrival_time = none;
  flag = some (int (flag_bits s));
  set_val = some (if s.controls_flow then s.flow else s.pressure);
  temp = some s.temperature;
  frame_len = some s.seconds;
  trigger_val = some (exit_value s.exit);
  max_vol = some s.volume;
}

abbrev pub limit_of : Option Limit → Option ShotExtFrame
limit_of none = none
limit_of (some l) = some (record {
  arrival_time = none;
  max_flow_or_pressure = some l.value;
  max_fo_p_range = some l.range;
})
