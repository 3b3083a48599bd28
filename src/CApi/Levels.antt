-- ===== src/CApi/Levels.antt =====
-- WaterLevels and AllSensors of c_api.py.
pub mod Laws
use py_de.Base.{
  ℕ, Option, none, some, List, [], ◌∷◌, Result, ok, err, value_error, not_implemented_error, Method,
  assign, raise, finish, set_all, ◌>>◌, ◌>>=◌,
}
use py_de.PyNum.{ℤ, Num, int}
use py_de.Struct.{big, Code, h, pack, unpack}
use py_de.CApi.Fixed.{validate_u_p_noneok, u, over}

pub record WaterLevels : Type 0 where
  pub arrival_time : Option Num
  pub level : Option Num
  pub start_fill_level : Option Num

pub data Field : Type 0 where
  level start_fill_level : Field

abbrev put : Field → Option Num → WaterLevels → WaterLevels
put level v s = record s { level = v }
put start_fill_level v s = record s { start_fill_level = v }

unfoldable pub set : Field → Option Num → Method WaterLevels
set f v = do w ← validate_u_p_noneok v 16 8; assign (put f w)

unfoldable pub init : Option Num → Option Num → Result WaterLevels
init l f = finish (
    set_all set ((level, l) ∷ (start_fill_level, f) ∷ [])
      (record { arrival_time = none; level = none; start_fill_level = none }))

abbrev pub format : List Code
format = h ∷ h ∷ []

abbrev pub store : List ℤ → Method WaterLevels
store (l ∷ f ∷ []) =
    assign λ s. record s { level = some (over l 256); start_fill_level = some (over f 256) }
store _ = raise value_error

unfoldable pub from_wire_bytes : List ℕ → Option Num → Method WaterLevels
from_wire_bytes bs t = do
  assign (λ s. record s { arrival_time = t })
  vs ← unpack big format bs
  store vs

abbrev pub or_zero : Option Num → Option Num
or_zero none = some (int 0)
or_zero (some v) = some v

-- Written with no scale, though read as U16P8.
unfoldable pub as_wire_bytes : WaterLevels → Result (List ℕ)
as_wire_bytes s = pack big format (u (or_zero s.level) ∷ u (or_zero s.start_fill_level) ∷ [])

pub record AllSensors : Type 0 where
  pub arrival_time : Option Num
  pub cold_water : Option Num
  pub hot_water : Option Num
  pub mixed_water : Option Num
  pub espresso_water : Option Num
  pub in_case_ambient : Option Num
  pub heat_sink : Option Num
  pub steam_heater : Option Num
  pub water_heater : Option Num

abbrev pub sensors_format : List Code
sensors_format = h ∷ h ∷ h ∷ h ∷ h ∷ h ∷ h ∷ h ∷ []

-- The tuple that is assigned to has seven targets.
abbrev pub sensors_store : List ℤ → Method AllSensors
sensors_store (c ∷ hw ∷ m ∷ e ∷ a ∷ st ∷ w ∷ []) = assign λ s. record s {
  cold_water = some (over c 256);
  hot_water = some (over hw 256);
  mixed_water = some (over m 256);
  espresso_water = some (over e 256);
  in_case_ambient = some (over a 256);
  steam_heater = some (over st 256);
  water_heater = some (over w 256);
}
sensors_store _ = raise value_error

unfoldable pub sensors_from_wire_bytes : List ℕ → Option Num → Method AllSensors
sensors_from_wire_bytes bs t = do
  assign (λ s. record s { arrival_time = t })
  vs ← unpack big sensors_format bs
  sensors_store vs

unfoldable pub sensors_as_wire_bytes : AllSensors → Result (List ℕ)
sensors_as_wire_bytes s = err not_implemented_error
