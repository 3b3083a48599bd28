-- ===== src/CApi/Temperature.antt =====
-- TemperatureSet and Temperatures of c_api.py: U16P8 readings, which are never written.
pub mod Laws
use py_de.Base.{
  ℕ, Bool, Option, none, some, List, [], ◌∷◌, Error, Result, ok, err, value_error,
  not_implemented_error, Method, assign, raise, finish, ◌>>◌, ◌>>=◌, take, drop,
}
use py_de.PyNum.{ℤ, Num}
use py_de.Struct.{big, Code, h, unpack}
use py_de.CApi.Fixed.{validate_u_p_noneok, over}

pub record TemperatureSet : Type 0 where
  pub arrival_time : Option Num
  pub water_heater : Option Num
  pub steam_heater : Option Num
  pub group_heater : Option Num
  pub cold_water : Option Num

abbrev pub blank : TemperatureSet
blank = record {
  arrival_time = none;
  water_heater = none;
  steam_heater = none;
  group_heater = none;
  cold_water = none;
}

pub data Field : Type 0 where
  water_heater steam_heater group_heater cold_water : Field

abbrev put : Field → Option Num → TemperatureSet → TemperatureSet
put water_heater v s = record s { water_heater = v }
put steam_heater v s = record s { steam_heater = v }
put group_heater v s = record s { group_heater = v }
put cold_water v s = record s { cold_water = v }

-- The four setters have one check.
unfoldable pub set : Field → Option Num → Method TemperatureSet
set f v = do w ← validate_u_p_noneok v 16 8; assign (put f w)

unfoldable pub init : Option Num → Option Num → Option Num → Option Num → Result TemperatureSet
unfolding set
init w s g c =
    finish
      ((set water_heater w >> set steam_heater s >> set group_heater g >> set cold_water c) blank)

abbrev pub format : List Code
format = h ∷ h ∷ h ∷ h ∷ []

abbrev pub store : List ℤ → Method TemperatureSet
store (w ∷ st ∷ g ∷ c ∷ []) = assign λ s. record s {
  water_heater = some (over w 256);
  steam_heater = some (over st 256);
  group_heater = some (over g 256);
  cold_water = some (over c 256);
}
store _ = raise value_error

unfoldable pub from_wire_bytes : List ℕ → Option Num → Method TemperatureSet
from_wire_bytes bs t = do
  assign (λ s. record s { arrival_time = t })
  vs ← unpack big format bs
  store vs

unfoldable pub as_wire_bytes : TemperatureSet → Result (List ℕ)
as_wire_bytes s = err not_implemented_error

pub record Temperatures : Type 0 where
  pub arrival_time : Option Num
  pub current : TemperatureSet
  pub target : TemperatureSet

abbrev pub on_current : Method TemperatureSet → Method Temperatures
on_current m s = let (v, e) = m s.current in (record s { current = v }, e)

abbrev pub on_target : Method TemperatureSet → Method Temperatures
on_target m s = let (v, e) = m s.target in (record s { target = v }, e)

unfoldable pub temperatures_from_wire_bytes : List ℕ → Option Num → Method Temperatures
temperatures_from_wire_bytes bs t = do
  assign (λ s. record s { arrival_time = t })
  on_current (from_wire_bytes (take 8 bs) t)
  on_target (from_wire_bytes (drop 8 bs) t)
