-- ===== src/CApi/Frame.antt =====
-- ShotFrame, ShotExtFrame and ShotTail of c_api.py.
pub mod Laws
pub mod Tail
use py_de.Base.{
  ℕ, ◌+◌, ◌-◌, ◌%◌, Bool, true, false, ◌||◌, Option, none, some, List, [], ◌∷◌, Error, Result, ok,
  err, value_error, struct_error, type_error, de1_api_value_error, and_then, Method, assign, raise,
  finish, set_all, ◌>>◌, ◌>>=◌, ltb, ◌==◌, if◌then◌else◌,
}
use py_de.PyNum.{ℤ, pos, negsuc, Num, int, nat}
use py_de.Struct.{big, little, Code, b, h, x, pack, unpack}
use py_de.CApi.Fixed.{
  validate_u_p_noneok, validate_f8_1_7_noneok, f8_1_7_decode, f8_1_7_of, p0, p1, p4, over,
}

pub record ShotFrame : Type 0 where
  pub arrival_time : Option Num
  pub flag : Option Num
  pub set_val : Option Num
  pub temp : Option Num
  pub frame_len : Option Num
  pub trigger_val : Option Num
  pub max_vol : Option Num

abbrev pub blank : ShotFrame
blank = record {
  arrival_time = none;
  flag = none;
  set_val = none;
  temp = none;
  frame_len = none;
  trigger_val = none;
  max_vol = none;
}

pub data Field : Type 0 where
  flag set_val temp frame_len trigger_val max_vol : Field

unfoldable pub set : Field → Option Num → Method ShotFrame
set flag v = do w ← validate_u_p_noneok v 8 0; assign (λ s. record s { flag = w })
set set_val v = do w ← validate_u_p_noneok v 8 4; assign (λ s. record s { set_val = w })
set temp v = do w ← validate_u_p_noneok v 8 1; assign (λ s. record s { temp = w })
set frame_len v = do w ← validate_f8_1_7_noneok v; assign (λ s. record s { frame_len = w })
set trigger_val v = do w ← validate_u_p_noneok v 8 4; assign (λ s. record s { trigger_val = w })
set max_vol v = do w ← validate_u_p_noneok v 10 0; assign (λ s. record s { max_vol = w })

-- `__init__`, the arguments in its order
unfoldable pub init : (f v t l g m : Option Num) → Result ShotFrame
init f v t l g m = finish (
    set_all set
      ((flag, f) ∷ (set_val, v) ∷ (temp, t) ∷ (frame_len, l) ∷ (trigger_val, g) ∷ (max_vol, m) ∷ [])
      blank)

abbrev pub format : List Code
format = b ∷ b ∷ b ∷ b ∷ b ∷ h ∷ []

abbrev pub store : List ℤ → Method ShotFrame
store (f ∷ v ∷ t ∷ l ∷ g ∷ m ∷ []) = assign λ s. record s {
  flag = some (over f 1);
  set_val = some (over v 16);
  temp = some (over t 2);
  frame_len = some (f8_1_7_decode (nat l));
  trigger_val = some (over g 16);
  max_vol = some (over m 1);
}
store _ = raise value_error

unfoldable pub from_wire_bytes : List ℕ → Option Num → Method ShotFrame
from_wire_bytes bs t = do
  assign (λ s. record s { arrival_time = t })
  vs ← unpack big format bs
  store vs

-- `struct` wants an `int`; it gives up on `None` and on a `float`.
abbrev pub as_int : Option Num → Result ℤ
as_int none = err struct_error
as_int (some v) = if v.den == 1 then ok v.num else err struct_error

abbrev pub values : ShotFrame → ℤ → ℤ → List ℤ
values s f l = f ∷ p4 s.set_val ∷ p1 s.temp ∷ l ∷ p4 s.trigger_val ∷ p0 s.max_vol ∷ []

-- The arguments are evaluated before `pack` looks at the flag.
unfoldable pub as_wire_bytes : ShotFrame → Result (List ℕ)
as_wire_bytes s =
    and_then (f8_1_7_of s.frame_len)
      λ l. and_then (as_int s.flag) λ f. pack big format (values s f l)

pub record ShotExtFrame : Type 0 where
  pub arrival_time : Option Num
  pub max_flow_or_pressure : Option Num
  pub max_fo_p_range : Option Num

pub data ExtField : Type 0 where
  max_flow_or_pressure max_fo_p_range : ExtField

unfoldable pub ext_set : ExtField → Option Num → Method ShotExtFrame
ext_set max_flow_or_pressure v = do
  w ← validate_u_p_noneok v 8 4
  assign (λ s. record s { max_flow_or_pressure = w })
ext_set max_fo_p_range v = do
  w ← validate_u_p_noneok v 8 4
  assign (λ s. record s { max_fo_p_range = w })

abbrev pub ext_format : List Code
ext_format = b ∷ b ∷ x ∷ x ∷ x ∷ x ∷ x ∷ []

abbrev pub ext_store : List ℤ → Method ShotExtFrame
ext_store (v ∷ r ∷ []) =
    assign
      λ s. record s { max_flow_or_pressure = some (over v 16); max_fo_p_range = some (over r 16) }
ext_store _ = raise value_error

unfoldable pub ext_from_wire_bytes : List ℕ → Option Num → Method ShotExtFrame
ext_from_wire_bytes bs t = do
  assign (λ s. record s { arrival_time = t })
  vs ← unpack little ext_format bs
  ext_store vs

unfoldable pub ext_as_wire_bytes : ShotExtFrame → Result (List ℕ)
ext_as_wire_bytes s = pack little ext_format (p4 s.max_flow_or_pressure ∷ p4 s.max_fo_p_range ∷ [])

-- What is given for a `bool`.
pub data Value : Type 0 where
  null : Value
  bool : Bool → Value
  num : Num → Value

pub record ShotTail : Type 0 where
  pub arrival_time : Option Num
  pub max_total_volume : Option Num
  pub ignore_pi : Option Bool

-- `value & 0x03ff`, in two's complement
abbrev pub low_ten_bits : Option Num → Result ℕ
low_ten_bits none = err type_error
low_ten_bits (some v) =
    if v.den == 1
    then elim v.num [ pos n ↦ ok (n % 1024) | negsuc n ↦ ok (1023 - n % 1024) ]
    else err type_error

unfoldable pub tail_set_max_total_volume : Option Num → Method ShotTail
tail_set_max_total_volume v = do
  n ← low_ten_bits v
  w ← validate_u_p_noneok (some (int n)) 10 0
  assign (λ s. record s { max_total_volume = w })

-- `None` is stored, and then refused.
unfoldable pub tail_set_ignore_pi : Value → Method ShotTail
tail_set_ignore_pi null = do assign (λ s. record s { ignore_pi = none }); raise de1_api_value_error
tail_set_ignore_pi (bool v) = assign (λ s. record s { ignore_pi = some v })
tail_set_ignore_pi (num v) = elim v.num [
  | pos n ↦
      if n == 0
      then assign (λ s. record s { ignore_pi = some false })
      else if n == v.den
      then assign (λ s. record s { ignore_pi = some true })
      else raise de1_api_value_error
  | negsuc n ↦ raise de1_api_value_error
]

unfoldable pub tail_init : Option Num → Value → Result ShotTail
tail_init v pi = finish (
    (tail_set_max_total_volume v >> tail_set_ignore_pi pi)
      (record { arrival_time = none; max_total_volume = none; ignore_pi = none }))

abbrev pub tail_format : List Code
tail_format = h ∷ x ∷ x ∷ x ∷ x ∷ x ∷ []

-- `value` is the tuple, which has no `&`.
unfoldable pub tail_from_wire_bytes : List ℕ → Option Num → Method ShotTail
tail_from_wire_bytes bs t = do
  assign (λ s. record s { arrival_time = t })
  vs ← unpack little tail_format bs
  raise type_error

abbrev pub plus : ℤ → ℕ → ℤ
plus (pos n) k = pos (n + k)
plus (negsuc n) k = if ltb n k then pos (k - n - 1) else negsuc (n - k)

unfoldable pub tail_as_wire_bytes : ShotTail → Result (List ℕ)
tail_as_wire_bytes s = elim s.ignore_pi [
  | none ↦ err de1_api_value_error
  | some pi ↦
      pack little tail_format
        ((if pi then plus (p0 s.max_total_volume) 0x8000 else p0 s.max_total_volume) ∷ [])
]
