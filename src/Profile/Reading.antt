-- ===== src/Profile/Reading.antt =====
-- `from_json` of src/pyDE1/de1/profile.py, on the value that `json.loads` gives.
use mathlib.Core.Option
use Prim.Native.String.{String}
use text.Mathlib.Text.{◌==◌}
use py_de.Base.{
  ℕ, bit_or, Bool, true, false, Option, none, some, List, [], ◌∷◌, ◌++◌, Result, ok, err, key_error,
  attribute_error, profile_validation_error_json, Method, assign, raise, finish, ◌>>◌, ◌>>=◌,
  and_then, length, reverse, if◌then◌else◌,
}
use py_de.PyNum.{ℤ, pos, Num, int, round_scaled, lt_ℤ}
use py_de.Profile.{Profile}
use py_de.Json.{Json, Conversions, get, contains, is_text, iterate, float_of}
use py_de.CApi.Header
use py_de.CApi.Header.{Header}
use py_de.CApi.Frame
use py_de.CApi.Frame.{ShotFrame, ShotExtFrame, ShotTail, Value}

-- FrameFlags
abbrev pub ctrl_f : ℕ
ctrl_f = 0x01

abbrev pub do_compare : ℕ
do_compare = 0x02

abbrev pub dc_gt : ℕ
dc_gt = 0x04

abbrev pub dc_comp_f : ℕ
dc_comp_f = 0x08

abbrev pub t_mix_temp : ℕ
t_mix_temp = 0x10

abbrev pub interpolate : ℕ
interpolate = 0x20

abbrev pub ignore_limit : ℕ
ignore_limit = 0x40

-- One flag for the one text, none for the other, and an exception for anything else.
abbrev pub flag_of : Json → (set unset : String) → ℕ → Result ℕ
flag_of v set unset flag =
    if is_text v set
    then ok flag
    else if is_text v unset
    then ok 0
    else err profile_validation_error_json

-- `int(round(x))`
abbrev pub rounded : Num → ℤ
rounded x = round_scaled x 1 1

unfoldable pub exit_flags : Json → Result ℕ
exit_flags step =
    if contains step "exit"
    then (and_then (and_then (get step "exit") λ e. get e "condition") λ condition.
        and_then (and_then (get step "exit") λ e. get e "type") λ type.
          and_then (flag_of condition "over" "under" dc_gt) λ gt.
            and_then (flag_of type "flow" "pressure" dc_comp_f)
              λ comp_f. ok (bit_or (bit_or do_compare gt) comp_f))
    else ok 0

-- The flags of a step, in the order in which they are tested.
unfoldable pub flags : Json → (pump sensor transition : Json) → Result ℕ
unfolding exit_flags
flags step pump sensor transition = and_then (flag_of pump "flow" "pressure" ctrl_f) λ control.
    and_then (exit_flags step) λ exit. and_then (flag_of sensor "water" "coffee" t_mix_temp) λ mix.
      and_then (flag_of transition "smooth" "fast" interpolate)
        λ ramp. ok (bit_or (bit_or (bit_or (bit_or control exit) mix) ramp) ignore_limit)

unfoldable pub set_val : Conversions → Json → Json → Result Num
set_val c step pump =
    if is_text pump "pressure" then float_of c step "pressure" else float_of c step "flow"

-- `flag & DoCompare` is set where the step has an "exit".
unfoldable pub trigger_val : Conversions → Json → Result Num
trigger_val c step =
    if contains step "exit"
    then (and_then (get step "exit") λ e. float_of c e "value")
    else ok (int 0)

-- `round(x, 2) > 0`
abbrev is_positive : Num → Bool
is_positive x = lt_ℤ (pos 0) (round_scaled x 100 1)

abbrev limiter : Conversions → Json → String → Result Num
limiter c step k = and_then (get step "limiter") λ l. float_of c l k

abbrev has_limiter : Conversions → Json → Result Bool
has_limiter c step =
    if contains step "limiter"
    then (and_then (limiter c step "value") λ v. ok (is_positive v))
    else ok false

-- `ShotExtFrame(...)`, through its checked properties
abbrev new_ext_frame : Num → Num → Result ShotExtFrame
new_ext_frame value range = finish (
    (Frame.ext_set Frame.ExtField.max_flow_or_pressure (some value)
        >> Frame.ext_set Frame.ExtField.max_fo_p_range (some range))
      (record { arrival_time = none; max_flow_or_pressure = none; max_fo_p_range = none }))

-- The extension frame of a step, `none` where it has no limit.
unfoldable pub ext_frame : Conversions → Json → Result (Option ShotExtFrame)
ext_frame c step = and_then (has_limiter c step) λ limited.
    if limited
    then (and_then (limiter c step "value") λ value.
        and_then (limiter c step "range")
          λ range. and_then (new_ext_frame value range) λ e. ok (some e))
    else ok none

abbrev pub weight_of : Conversions → Json → Result (Option Num)
weight_of c step =
    if contains step "weight"
    then (and_then (float_of c step "weight") λ w. ok (some w))
    else ok none

abbrev pub append_weight : Option Num → Method Profile
append_weight w s = elim s.move_on_weight_list [
  | none ↦ (s, some attribute_error)
  | some l ↦ (record s { move_on_weight_list = some (l ++ (w ∷ [])) }, none)
]

-- One round of the loop over the steps.
unfoldable pub read_step : Conversions → Json → Method Profile
unfolding flags set_val trigger_val ext_frame
read_step c step = do
  pump ← get step "pump"
  sensor ← get step "sensor"
  transition ← get step "transition"
  temperature ← float_of c step "temperature"
  seconds ← float_of c step "seconds"
  volume ← float_of c step "volume"
  weight ← weight_of c step
  append_weight weight
  flag ← flags step pump sensor transition
  value ← set_val c step pump
  trigger ← trigger_val c step
  frame ←
      Frame.init (some (int flag)) (some value) (some temperature) (some seconds) (some trigger)
        (some volume)
  assign (λ s. record s { shot_frames = s.shot_frames ++ (frame ∷ []) })
  ext ← ext_frame c step
  assign (λ s. record s { shot_ext_frames = s.shot_ext_frames ++ (ext ∷ []) })

abbrev pub read_steps : Conversions → List Json → Method Profile
read_steps c [] = assign (λ s. s)
read_steps c (step ∷ steps) = read_step c step >> read_steps c steps

-- `str(json_dict['version']).split('.')[0]`
abbrev pub major : String → String
major String.[] = String.[]
major (String.◌∷◌ c s) =
    let rest = major s in if (String.◌∷◌ c String.[]) == "." then String.[] else String.◌∷◌ c rest

abbrev text_of : Conversions → Json → String
text_of c (Json.str s) = s
text_of c v = c.render v

-- A version that is missing is refused as one that is not 2.
abbrev pub check_version : Conversions → Json → Result (Unit {0})
check_version c v = elim (get v "version") [
  | ok w ↦ if major (text_of c w) == "2" then ok tt else err profile_validation_error_json
  | err e ↦ elim e [ key_error ↦ err profile_validation_error_json | x ↦ err x ]
]

-- `self._ShotDescHeader.NumberOfFrames = len(self._shot_frames)`
unfoldable pub set_number_of_frames : Method Profile
set_number_of_frames s = elim s.header [
  | none ↦ (s, some attribute_error)
  | some h ↦
      let (h', e) = Header.set_number_of_frames (some (pos (length s.shot_frames))) h in
      (record s { header = some h' }, e)
]

-- `if k in json_dict: ... = float(json_dict[k])`
abbrev pub optional_float : Conversions → Json → String → (Num → Profile → Profile) → Method Profile
optional_float c v k set =
    if contains v k then (float_of c v k >>= λ x. assign (set x)) else assign (λ s. s)

-- `try: ... = json_dict[k]`, where a `KeyError` is passed over
abbrev pub optional : Result Json → (Json → Profile → Profile) → Method Profile
optional (ok x) set = assign (set x)
optional (err key_error) set = assign (λ s. s)
optional (err e) set = raise e

abbrev strip_first : List (Option Num) → List (Option Num)
strip_first [] = []
strip_first (none ∷ l) = strip_first l
strip_first (some w ∷ l) = some w ∷ l

-- `while` the last is `None`: `pop()`
abbrev pub strip_last : List (Option Num) → List (Option Num)
strip_last l = reverse (strip_first (reverse l))

abbrev pub strip_weights : Profile → Profile
strip_weights s = record s { move_on_weight_list = Option.map strip_last s.move_on_weight_list }

-- Up to the loop over the steps.
unfoldable pub read_header : Conversions → Json → Method Profile
read_header c v = do
  assign (λ s. record s { move_on_weight_list = some [] })
  _ ← check_version c v
  assign (λ s. record s { is_json_v2 = true })
  start ← float_of c v "target_volume_count_start"
  header ← Header.init (some (pos 1)) none (some (rounded start)) (some (int 0)) (some (int 10))
  assign (λ s. record s { header = some header })

-- What follows the loop.
unfoldable pub read_rest : Conversions → Json → Method Profile
unfolding set_number_of_frames
read_rest c v = do
  set_number_of_frames
  volume ← float_of c v "target_volume"
  tail ← Frame.tail_init (some (record { num = rounded volume; den = 1 })) (Value.bool true)
  assign (λ s. record s { tail = some tail })
  optional_float c v "tank_temperature" (λ x s. record s { tank_temperature = some x })
  optional_float c v "target_weight" (λ x s. record s { target_weight = some x })
  optional_float c v "target_volume" (λ x s. record s { target_volume = some x })
  optional_float c v "target_volume_count_start"
      (λ x s. record s { number_of_preinfuse_frames = some (rounded x) })
  optional (get v "title") (λ x s. record s { title = some x })
  optional (get v "author") (λ x s. record s { author = some x })
  optional (get v "notes") (λ x s. record s { notes = some x })
  optional (get v "beverage_type") (λ x s. record s { beverage_type = some x })
  assign strip_weights

unfoldable pub from_json : Conversions → Json → Method Profile
unfolding read_header read_step read_rest
from_json c v = do
  read_header c v
  steps ← and_then (get v "steps") iterate
  read_steps c steps
  read_rest c v
