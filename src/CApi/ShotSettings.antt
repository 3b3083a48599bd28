-- ===== src/CApi/ShotSettings.antt =====
-- SteamSetting and ShotSettings of c_api.py.
pub mod Laws
pub mod Steam
use py_de.Base.{
  ℕ, ◌+◌, ◌-◌, ◌*◌, ◌/◌, ◌%◌, Bool, true, false, ◌||◌, Option, none, some, List, [], ◌∷◌, Error,
  Result, ok, err, value_error, attribute_error, de1_api_value_error, and_then, Method, assign,
  raise, finish, set_all, ◌>>◌, ◌>>=◌, ◌==◌, if◌then◌else◌,
}
use py_de.PyNum.{ℤ, pos, negsuc, Num, int, num_lt, num_gt}
use py_de.Struct.{big, Code, b, h, pack, unpack}
use py_de.CApi.Fixed.{validate_u_p_noneok, p0, p8, over}

-- SteamSetting
abbrev pub fast_start : ℕ
fast_start = 0x80

abbrev pub high_power : ℕ
high_power = 0x40

-- `v & m`, `v | m`, `v & ~ m` and `v ^ m` for a mask of one bit.
abbrev pub has : ℕ → ℕ → Bool
has m v = v / m % 2 == 1

abbrev pub with_bit : ℕ → ℕ → ℕ
with_bit m v = if has m v then v else v + m

abbrev pub without_bit : ℕ → ℕ → ℕ
without_bit m v = if has m v then v - m else v

abbrev pub toggled : ℕ → ℕ → ℕ
toggled m v = if has m v then v - m else v + m

-- The outer `none` of `target_hot_water_length`: there is no such attribute.
pub record ShotSettings : Type 0 where
  pub arrival_time : Option Num
  pub steam_settings : Option Num
  pub target_steam_temp : Option Num
  pub target_steam_length : Option Num
  pub target_hot_water_temp : Option Num
  pub target_hot_water_vol : Option Num
  pub target_hot_water_length : Option (Option Num)
  pub target_espresso_vol : Option Num
  pub target_group_temp : Option Num

abbrev pub blank : ShotSettings
blank = record {
  arrival_time = none;
  steam_settings = none;
  target_steam_temp = none;
  target_steam_length = none;
  target_hot_water_temp = none;
  target_hot_water_vol = none;
  target_hot_water_length = none;
  target_espresso_vol = none;
  target_group_temp = none;
}

pub data Field : Type 0 where
  steam_settings target_steam_temp target_steam_length target_hot_water_temp : Field
  target_hot_water_vol target_hot_water_length target_espresso_vol target_group_temp : Field

abbrev put : Field → Option Num → ShotSettings → ShotSettings
put steam_settings v s = record s { steam_settings = v }
put target_steam_temp v s = record s { target_steam_temp = v }
put target_steam_length v s = record s { target_steam_length = v }
put target_hot_water_temp v s = record s { target_hot_water_temp = v }
put target_hot_water_vol v s = record s { target_hot_water_vol = v }
put target_hot_water_length v s = record s { target_hot_water_length = some v }
put target_espresso_vol v s = record s { target_espresso_vol = v }
put target_group_temp v s = record s { target_group_temp = v }

-- `value < 135 or 160 < value`
abbrev outside_steam_range : Option Num → Bool
outside_steam_range none = false
outside_steam_range (some v) = num_lt v 135 1 || num_gt v 160 1

unfoldable pub set : Field → Option Num → Method ShotSettings
set target_steam_temp v =
    if outside_steam_range v
    then raise de1_api_value_error
    else do w ← validate_u_p_noneok v 8 0; assign (put target_steam_temp w)
set target_group_temp v = do w ← validate_u_p_noneok v 16 8; assign (put target_group_temp w)
set f v = do w ← validate_u_p_noneok v 8 0; assign (put f w)

pub record Args : Type 0 where
  pub steam_settings : Option Num
  pub target_steam_temp : Option Num
  pub target_steam_length : Option Num
  pub target_hot_water_temp : Option Num
  pub target_hot_water_vol : Option Num
  pub target_hot_water_length : Option Num
  pub target_espresso_vol : Option Num
  pub target_group_temp : Option Num

-- `__init__`: the sixth assignment is to the steam length.
abbrev pub assignments : Args → List (Field × Option Num)
assignments a =
    (steam_settings, a.steam_settings)
    ∷ (target_steam_temp, a.target_steam_temp)
    ∷ (target_steam_length, a.target_steam_length)
    ∷ (target_hot_water_temp, a.target_hot_water_temp)
    ∷ (target_hot_water_vol, a.target_hot_water_vol)
    ∷ (target_steam_length, a.target_hot_water_length)
    ∷ (target_espresso_vol, a.target_espresso_vol)
    ∷ (target_group_temp, a.target_group_temp)
    ∷ []

unfoldable pub init : Args → Result ShotSettings
init a = finish (set_all set (assignments a) blank)

abbrev pub format : List Code
format = b ∷ b ∷ b ∷ b ∷ b ∷ b ∷ b ∷ h ∷ []

-- A steam temperature of 0 is read as `None`.
abbrev pub zero_as_none : ℤ → Option Num
zero_as_none (pos n) = if n == 0 then none else some (int n)
zero_as_none (negsuc n) = some (over (negsuc n) 1)

abbrev pub store : List ℤ → Method ShotSettings
store (s0 ∷ s1 ∷ s2 ∷ s3 ∷ s4 ∷ s5 ∷ s6 ∷ s7 ∷ []) = assign λ s. record s {
  steam_settings = some (over s0 1);
  target_steam_temp = zero_as_none s1;
  target_steam_length = some (over s2 1);
  target_hot_water_temp = some (over s3 1);
  target_hot_water_vol = some (over s4 1);
  target_hot_water_length = some (some (over s5 1));
  target_espresso_vol = some (over s6 1);
  target_group_temp = some (over s7 256);
}
store _ = raise value_error

unfoldable pub from_wire_bytes : List ℕ → Option Num → Method ShotSettings
from_wire_bytes bs t = do
  assign (λ s. record s { arrival_time = t })
  vs ← unpack big format bs
  store vs

abbrev pub attribute {ℓ} : {A : Type ℓ} → Option A → Result A
attribute none = err attribute_error
attribute (some a) = ok a

abbrev pub values : ShotSettings → Option Num → List ℤ
values s length =
    p0 s.steam_settings
    ∷ p0 s.target_steam_temp
    ∷ p0 s.target_steam_length
    ∷ p0 s.target_hot_water_temp
    ∷ p0 s.target_hot_water_vol
    ∷ p0 length
    ∷ p0 s.target_espresso_vol
    ∷ p8 s.target_group_temp
    ∷ []

unfoldable pub as_wire_bytes : ShotSettings → Result (List ℕ)
as_wire_bytes s =
    and_then (attribute s.target_hot_water_length) λ length. pack big format (values s length)

-- `SteamSetting(self._SteamSettings)`, for `None` and integers
abbrev pub steam_setting : ShotSettings → Result ℕ
steam_setting s = elim s.steam_settings [
  | none ↦ err value_error
  | some v ↦ elim v.num [
    | pos n ↦ if v.den == 1 then ok n else err value_error
    | negsuc n ↦ err value_error
  ]
]

unfoldable pub steam_setting_fast_start : ShotSettings → Result Bool
steam_setting_fast_start s = and_then (steam_setting s) λ v. ok (has fast_start v)

unfoldable pub set_steam_setting_fast_start : Bool → Method ShotSettings
unfolding set
set_steam_setting_fast_start val s =
    (do
      v ← steam_setting s
      set steam_settings
          (some (int (if val then with_bit fast_start v else without_bit fast_start v))))
      s

-- The getter tests the other flag.
unfoldable pub steam_setting_high_power : ShotSettings → Result Bool
steam_setting_high_power s = and_then (steam_setting s) λ v. ok (has fast_start v)

unfoldable pub set_steam_setting_high_power : Bool → Method ShotSettings
unfolding set
set_steam_setting_high_power val s =
    (do
      v ← steam_setting s
      set steam_settings (some (int (if val then with_bit high_power v else toggled high_power v))))
      s
