-- ===== src/Tests/Settings.antt =====
-- The settings, the requested state and the calibration, on concrete values.
use py_de.Base.{ℕ, ◌%◌, ◌≡◌, refl, false, ◌&&◌, Option, none, some, List, [], ◌∷◌, ok, arith}
use py_de.PyNum.{ℤ, pos, Num, int, frac, num_lt, num_gt}
use py_de.Struct.{pack}
use py_de.CApi.Fixed.{p0, p8, p16, over, validate_u_p_noneok}
use py_de.CApi.ShotSettings.{
  ShotSettings, Args, blank, init, set, as_wire_bytes, from_wire_bytes, zero_as_none,
  steam_setting_fast_start, set_steam_setting_fast_start,
}
use py_de.CApi.ShotSettings.Laws.{ShotSettings-round_trip}
use py_de.CApi.ShotSettings.Steam.{steam_setting_fast_start-set}
use py_de.CApi.State.{RequestedState}
use py_de.CApi.State.Enums.{steam}
use py_de.CApi.Calibration
use py_de.CApi.Calibration.{CalCommand, Calibration, write, cal_temp, is_write, no_key}
use py_de.CApi.Calibration.Laws.{Calibration-round_trip}

abbrev settings : ShotSettings
settings = record {
  arrival_time = none;
  steam_settings = some (int 0x81);
  target_steam_temp = some (int 160);
  target_steam_length = some (int 90);
  target_hot_water_temp = some (int 85);
  target_hot_water_vol = some (int 120);
  target_hot_water_length = some (some (int 45));
  target_espresso_vol = some (int 36);
  target_group_temp = some (frac 185 2);
}

abbrev settings_bytes : List ℕ
settings_bytes = 0x81 ∷ 160 ∷ 90 ∷ 85 ∷ 120 ∷ 45 ∷ 36 ∷ 92 ∷ 128 ∷ []

as_wire_bytes-settings : as_wire_bytes settings ≡ ok settings_bytes
unfolding as_wire_bytes p0 p8 pack
as_wire_bytes-settings = refl

ShotSettings-round_trip_example :
    (length : Option Num) × (settings.target_hot_water_length ≡ some length)
    × (from_wire_bytes settings_bytes none blank ≡ (
      record {
        arrival_time = none;
        steam_settings = some (over (p0 settings.steam_settings) 1);
        target_steam_temp = zero_as_none (p0 settings.target_steam_temp);
        target_steam_length = some (over (p0 settings.target_steam_length) 1);
        target_hot_water_temp = some (over (p0 settings.target_hot_water_temp) 1);
        target_hot_water_vol = some (over (p0 settings.target_hot_water_vol) 1);
        target_hot_water_length = some (some (over (p0 length) 1));
        target_espresso_vol = some (over (p0 settings.target_espresso_vol) 1);
        target_group_temp = some (over (p8 settings.target_group_temp) 256);
      },
      none,
    ))
ShotSettings-round_trip_example =
    ShotSettings-round_trip settings blank settings_bytes none as_wire_bytes-settings

abbrev args : Args
args = record {
  steam_settings = some (int 0);
  target_steam_temp = some (int 160);
  target_steam_length = some (int 90);
  target_hot_water_temp = some (int 85);
  target_hot_water_vol = some (int 120);
  target_hot_water_length = some (int 45);
  target_espresso_vol = some (int 36);
  target_group_temp = some (int 92);
}

abbrev built : ShotSettings
built = record {
  arrival_time = none;
  steam_settings = some (int 0);
  target_steam_temp = some (int 160);
  target_steam_length = some (int 45);
  target_hot_water_temp = some (int 85);
  target_hot_water_vol = some (int 120);
  target_hot_water_length = none;
  target_espresso_vol = some (int 36);
  target_group_temp = some (int 92);
}

init-args : init args ≡ ok built
unfolding init set validate_u_p_noneok num_lt num_gt
init-args = refl

steam_setting_fast_start-set_example :
    let (s', e) = set_steam_setting_fast_start false settings in
    (e ≡ none)
    × (steam_setting_fast_start s' ≡ ok false)
    × (w : ℕ) × (s' ≡ record settings { steam_settings = some (int w) })
    × (w % 0x80 ≡ 1)
steam_setting_fast_start-set_example =
    steam_setting_fast_start-set false settings 0x81 refl (omega arith)

abbrev steam_requested : RequestedState
steam_requested = record { arrival_time = none; state = some steam }

-- A thermometer that reports 93.25 where 92.5 was measured
abbrev offset : Calibration
offset = record {
  arrival_time = none;
  write_key = some (pos 0xcafe);
  command = some write;
  target = some cal_temp;
  reported = frac 373 4;
  measured = frac 185 2;
}

abbrev offset_bytes : List ℕ
offset_bytes = 0 ∷ 0 ∷ 0xca ∷ 0xfe ∷ 1 ∷ 2 ∷ 0 ∷ 93 ∷ 64 ∷ 0 ∷ 0 ∷ 92 ∷ 128 ∷ 0 ∷ []

as_wire_bytes-offset : Calibration.as_wire_bytes offset ≡ ok offset_bytes
unfolding Calibration.as_wire_bytes p16 pack
as_wire_bytes-offset = refl

Calibration-round_trip_example :
    (c : CalCommand) × (k : ℤ) × (offset.command ≡ some c)
    × (offset.write_key ≡ some k)
    × (is_write c && no_key offset.write_key ≡ false)
    × (Calibration.from_wire_bytes offset_bytes none offset ≡ (
      record offset {
        arrival_time = none;
        reported = over (p16 (some offset.reported)) 65536;
        measured = over (p16 (some offset.measured)) 65536;
      },
      none,
    ))
Calibration-round_trip_example =
    Calibration-round_trip offset offset offset_bytes none as_wire_bytes-offset
