-- ===== src/Sequencer/Controls.antt =====
-- The settings of a mode, in src/pyDE1/flow_sequencer.py: the mix-in classes of the four controls,
-- and I_EspressoControl, which has all of them. A text or a list for a number is left out.
pub mod Sanity
pub mod Frames
use py_de.Base.{
  ℕ, zero, suc, ◌+◌, ◌-◌, Bool, true, false, not, ◌||◌, Option, none, some, List, [], ◌∷◌, ◌++◌,
  Error, Result, ok, err, type_error, index_error, de1_api_value_error, de1_api_type_error, Method,
  assign, raise, finish, ◌>>◌, ◌>>=◌, length, replicate, ltb, ◌==◌, if◌then◌else◌,
}
use mathlib.Core.Option
use py_de.PyNum.{ℤ, pos, negsuc, Num, int, num_lt, num_gt}
use py_de.Json.{Json}

-- I_EspressoControl
pub record Control : Type 0 where
  pub disable_auto_tare : Bool
  pub stop_at_time : Option Num
  pub stop_at_volume : Option Num
  pub stop_at_weight : Option Num
  pub mow_all_frames : List (Option Num)
  pub first_drops_threshold : Option Num
  pub last_drops_minimum_time : Num
  pub profile_can_override_stop_limits : Bool
  pub profile_can_override_tank_temperature : Bool

abbrev pub is_zero : Num → Bool
is_zero v = elim v.num [ pos n ↦ n == 0 | negsuc n ↦ false ]

-- Zero stands for none.
unfoldable pub validate_stop_at : Option Num → Result (Option Num)
validate_stop_at none = ok none
validate_stop_at (some v) =
    if is_zero v then ok none else if num_lt v 0 1 then err de1_api_value_error else ok (some v)

unfoldable pub set_stop_at_time : Option Num → Method Control
set_stop_at_time v = do w ← validate_stop_at v; assign (λ s. record s { stop_at_time = w })

unfoldable pub set_stop_at_volume : Option Num → Method Control
set_stop_at_volume v = do w ← validate_stop_at v; assign (λ s. record s { stop_at_volume = w })

unfoldable pub set_stop_at_weight : Option Num → Method Control
set_stop_at_weight v = do w ← validate_stop_at v; assign (λ s. record s { stop_at_weight = w })

-- What is no `bool` is refused.
abbrev only_bool : Json → (Bool → Control → Control) → Method Control
only_bool (Json.bool b) set = assign (set b)
only_bool _ set = raise de1_api_type_error

unfoldable pub set_disable_auto_tare : Json → Method Control
set_disable_auto_tare v = only_bool v (λ b s. record s { disable_auto_tare = b })

unfoldable pub set_override_stop_limits : Json → Method Control
set_override_stop_limits v = only_bool v (λ b s. record s { profile_can_override_stop_limits = b })

unfoldable pub set_override_tank_temperature : Json → Method Control
set_override_tank_temperature v =
    only_bool v (λ b s. record s { profile_can_override_tank_temperature = b })

-- `value and not (0 <= value <= 10)`
abbrev is_bad_threshold : Option Num → Bool
is_bad_threshold none = false
is_bad_threshold (some v) = if is_zero v then false else num_lt v 0 1 || num_gt v 10 1

unfoldable pub set_first_drops_threshold : Option Num → Method Control
set_first_drops_threshold v =
    if is_bad_threshold v
    then raise de1_api_value_error
    else assign (λ s. record s { first_drops_threshold = v })

unfoldable pub set_last_drops_minimum_time : Num → Method Control
set_last_drops_minimum_time v =
    if num_lt v 0 1
    then raise de1_api_value_error
    else assign (λ s. record s { last_drops_minimum_time = v })

abbrev or_empty : Option (List (Option Num)) → List (Option Num)
or_empty none = []
or_empty (some l) = l

-- `map(validate_stop_at, ...)` is never run.
unfoldable pub set_mow_all_frames : Option (List (Option Num)) → Method Control
set_mow_all_frames l = assign (λ s. record s { mow_all_frames = or_empty l })

-- The element at a place, `none` where there is none.
abbrev pub item : List (Option Num) → ℕ → Option Num
item [] n = none
item (v ∷ l) zero = v
item (v ∷ l) (suc n) = item l n

-- A negative number counts from the end.
unfoldable pub mow_get_frame : Option ℤ → Control → Option Num
mow_get_frame none s = none
mow_get_frame (some (pos n)) s = item s.mow_all_frames n
mow_get_frame (some (negsuc n)) s =
    let l = s.mow_all_frames in if ltb n (length l) then item l (length l - (n + 1)) else none

-- `l[n] = v`, `none` where it raises
abbrev pub put : List (Option Num) → ℕ → Option Num → Option (List (Option Num))
put [] n v = none
put (w ∷ l) zero v = some (v ∷ l)
put (w ∷ l) (suc n) v = Option.map (λ r. w ∷ r) (put l n v)

abbrev pub put_frame : ℕ → Option Num → Method Control
put_frame n v s = elim (put s.mow_all_frames n v) [
  | none ↦ (s, some index_error)
  | some l ↦ (record s { mow_all_frames = l }, none)
]

-- The list is filled up to the frame, without it.
abbrev pub fill : ℕ → List (Option Num) → List (Option Num)
fill n l = l ++ replicate (n - length l) none

-- `mow_set_frame`; the comparison with `None` raises before the test for it. The value that is
-- checked is stored as it was given.
unfoldable pub mow_set_frame : Option ℤ → Option Num → Method Control
unfolding validate_stop_at
mow_set_frame none v = raise type_error
mow_set_frame (some (negsuc n)) v = raise de1_api_value_error
mow_set_frame (some (pos n)) v = if ltb 20 n then raise de1_api_value_error else do
  _ ← validate_stop_at v
  assign (λ s. record s { mow_all_frames = fill n s.mow_all_frames })
  put_frame n v

abbrev pub blank : Control
blank = record {
  disable_auto_tare = false;
  stop_at_time = none;
  stop_at_volume = none;
  stop_at_weight = none;
  mow_all_frames = [];
  first_drops_threshold = none;
  last_drops_minimum_time = int 0;
  profile_can_override_stop_limits = true;
  profile_can_override_tank_temperature = true;
}

-- `__init__` of I_EspressoControl; the classes of the profile's settings store what they are given.
unfoldable pub init :
    (tare : Json)
    → (time volume weight threshold : Option Num) → (drops : Num) → (limits temperature : Bool)
    → Result Control
unfolding set_disable_auto_tare set_stop_at_time set_stop_at_volume set_stop_at_weight
    set_mow_all_frames set_first_drops_threshold set_last_drops_minimum_time
init tare time volume weight threshold drops limits temperature = finish (
    (do
      set_disable_auto_tare tare
      set_stop_at_time time
      set_stop_at_volume volume
      set_stop_at_weight weight
      set_mow_all_frames none
      set_first_drops_threshold threshold
      set_last_drops_minimum_time drops
      assign (λ s. record s {
        profile_can_override_stop_limits = limits;
        profile_can_override_tank_temperature = temperature;
      }))
      blank)
