-- ===== src/CApi/Calibration.antt =====
-- CalTargets, CalCommand and Calibration of c_api.py. The write key is an integer.
pub mod Laws
use py_de.Base.{
  ℕ, Bool, true, false, not, ◌&&◌, Option, none, some, List, [], ◌∷◌, Error, Result, ok, err,
  value_error, type_error, de1_api_value_error, Method, assign, raise, finish, ◌>>◌, ◌>>=◌,
  and_then, ◌==◌, if◌then◌else◌,
}
use py_de.PyNum.{ℤ, pos, negsuc, Num, int, nat}
use py_de.Struct.{big, Code, b, i, signed_i, pack, unpack}
use py_de.CApi.Fixed.{validate_s_p, p16, over}

pub data CalTarget : Type 0 where
  cal_flow cal_pressure cal_temp cal_error : CalTarget

pub data CalCommand : Type 0 where
  read write reset read_factory : CalCommand

abbrev pub target_value : CalTarget → ℕ
target_value cal_flow = 0
target_value cal_pressure = 1
target_value cal_temp = 2
target_value cal_error = 255

abbrev pub command_value : CalCommand → ℕ
command_value read = 0
command_value write = 1
command_value reset = 2
command_value read_factory = 3

unfoldable pub target_of : ℕ → Result CalTarget
target_of n =
    if n == 0
    then ok cal_flow
    else if n == 1
    then ok cal_pressure
    else if n == 2
    then ok cal_temp
    else if n == 255
    then ok cal_error
    else err value_error

unfoldable pub command_of : ℕ → Result CalCommand
command_of n =
    if n == 0
    then ok read
    else if n == 1
    then ok write
    else if n == 2
    then ok reset
    else if n == 3
    then ok read_factory
    else err value_error

pub record Calibration : Type 0 where
  pub arrival_time : Option Num
  pub write_key : Option ℤ
  pub command : Option CalCommand
  pub target : Option CalTarget
  pub reported : Num
  pub measured : Num

unfoldable pub set_reported : Num → Method Calibration
set_reported v = do w ← validate_s_p v 32 16; assign (λ s. record s { reported = w })

unfoldable pub set_measured : Num → Method Calibration
set_measured v = do w ← validate_s_p v 32 16; assign (λ s. record s { measured = w })

-- `__init__`
unfoldable pub init :
    Option ℤ → Option CalCommand → Option CalTarget → Num → Num → Result Calibration
unfolding set_reported set_measured
init key command target reported measured = finish (
    (do set_reported reported; set_measured measured)
      (record {
        arrival_time = none;
        write_key = key;
        command = command;
        target = target;
        reported = int 0;
        measured = int 0;
      }))

abbrev pub is_error_target : Option CalTarget → Bool
is_error_target (some cal_error) = true
is_error_target _ = false

unfoldable pub is_error_response : Calibration → Bool
is_error_response s = is_error_target s.target

-- The object is compared, not its target, and equals no member of the enumeration.
unfoldable pub is_offset : Calibration → Bool
is_offset s = false

unfoldable pub is_ratio : Calibration → Bool
unfolding is_offset
is_ratio s = not (is_offset s)

abbrev pub format : List Code
format = i ∷ b ∷ b ∷ signed_i ∷ signed_i ∷ []

abbrev pub store : List ℤ → Method Calibration
store (wk ∷ cc ∷ ct ∷ rv ∷ mv ∷ []) = do
  assign (λ s. record s { write_key = some wk })
  c ← command_of (nat cc)
  assign (λ s. record s { command = some c })
  t ← target_of (nat ct)
  assign (λ s. record s { target = some t })
  set_reported (over rv 65536)
  set_measured (over mv 65536)
store _ = raise value_error

unfoldable pub from_wire_bytes : List ℕ → Option Num → Method Calibration
from_wire_bytes bs t = do
  assign (λ s. record s { arrival_time = t })
  vs ← unpack big format bs
  store vs

abbrev pub is_write : CalCommand → Bool
is_write write = true
is_write _ = false

-- `not self.WriteKey`
abbrev pub no_key : Option ℤ → Bool
no_key none = true
no_key (some (pos n)) = n == 0
no_key (some (negsuc n)) = false

abbrev pub int_key : Option ℤ → Result ℤ
int_key none = err type_error
int_key (some z) = ok z

abbrev pub values : Calibration → ℤ → CalCommand → CalTarget → List ℤ
values s key c t =
    key
    ∷ pos (command_value c)
    ∷ pos (target_value t)
    ∷ p16 (some s.reported)
    ∷ p16 (some s.measured)
    ∷ []

abbrev pub supplied {ℓ} : {A : Type ℓ} → Option A → Result A
supplied none = err de1_api_value_error
supplied (some a) = ok a

unfoldable pub as_wire_bytes : Calibration → Result (List ℕ)
as_wire_bytes s = and_then (supplied s.target) λ t. and_then (supplied s.command) λ c.
    if is_write c && no_key s.write_key
    then err de1_api_value_error
    else and_then (int_key s.write_key) λ key. pack big format (values s key c t)
