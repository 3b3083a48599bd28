-- ===== src/Tests/Readings.antt =====
-- What is read of a state, a sample, the temperatures, the versions and the water levels.
use py_de.Base.{ℕ, ◌≡◌, ◌⊎◌, refl, none, some, List, [], ◌∷◌, ◌++◌, ok, leb, arith}
use py_de.PyNum.{pos, int, frac}
use py_de.Struct.{pack}
use py_de.Struct.Bytes.{AreBytes}
use py_de.CApi.Fixed.{p0, f8_1_7}
use py_de.CApi.State
use py_de.CApi.State.{StateInfo}
use py_de.CApi.State.Enums.{MachineState, Substate, machine_value, machine_state?, is_error}
use py_de.CApi.State.Laws.{StateInfo-total}
use py_de.CApi.Sample.{ShotSample, blank, sample_from_wire_bytes}
use py_de.CApi.Sample.Laws.{bytes_of, ShotSample-lossless}
use py_de.CApi.Temperature.{TemperatureSet, Temperatures}
use py_de.CApi.FwVersion
use py_de.CApi.FwVersion.{FwVersion, Versions, versions_as_wire_bytes, versions_from_wire_bytes}
use py_de.CApi.Levels.{WaterLevels}

abbrev no_state : StateInfo
no_state = record { arrival_time = none; state = none; substate = none }

StateInfo-total_example :
    (m : MachineState) × (u : Substate) × (State.from_wire_bytes (99 ∷ 210 ∷ []) none no_state
      ≡ (record { arrival_time = none; state = some m; substate = some u }, none))
    × ((machine_value m ≡ pos 99) ⊎ ((m ≡ MachineState.unknown) × (machine_state? 99 ≡ none)))
    × (is_error u ≡ leb 200 210)
StateInfo-total_example = StateInfo-total 99 210 none no_state

abbrev sample : ShotSample
sample = record { arrival_time = none; sample_time = none; state = blank }

abbrev sample_bytes : List ℕ
sample_bytes =
    1 ∷ 44 ∷ 144 ∷ 0 ∷ 36 ∷ 128 ∷ 91 ∷ 230 ∷ 90 ∷ 12 ∷ 200 ∷ 92 ∷ 0 ∷ 92 ∷ 0 ∷ 144 ∷ 0 ∷ 2 ∷ 150
    ∷ []

sample_bytes-AreBytes : AreBytes sample_bytes
sample_bytes-AreBytes = ground arith

ShotSample-lossless_example :
    ((sample_from_wire_bytes sample_bytes (some (int 5)) sample).1 ≡ none)
    × (bytes_of (sample_from_wire_bytes sample_bytes (some (int 5)) sample).0 ≡ sample_bytes)
ShotSample-lossless_example =
    ShotSample-lossless sample_bytes (some (int 5)) sample sample_bytes-AreBytes refl

abbrev no_set : TemperatureSet
no_set = record {
  arrival_time = none;
  water_heater = none;
  steam_heater = none;
  group_heater = none;
  cold_water = none;
}

abbrev no_temperatures : Temperatures
no_temperatures = record { arrival_time = none; current = no_set; target = no_set }

abbrev current_bytes : List ℕ
current_bytes = 85 ∷ 0 ∷ 150 ∷ 128 ∷ 92 ∷ 64 ∷ 21 ∷ 0 ∷ []

abbrev ble : FwVersion
ble = record {
  arrival_time = none;
  api_version = some (int 4);
  release = some (frac 13 10);
  commits = some (int 523);
  changes = some (int 0);
  ble_sha = some (int 0xdeadbeef);
}

abbrev versions : Versions
versions = record { arrival_time = none; ble_version = ble; lv_version = ble }

abbrev ble_bytes : List ℕ
ble_bytes = 4 ∷ 13 ∷ 2 ∷ 11 ∷ 0 ∷ 0xde ∷ 0xad ∷ 0xbe ∷ 0xef ∷ []

versions_as_wire_bytes-versions : versions_as_wire_bytes versions ≡ ok (ble_bytes ++ ble_bytes)
unfolding versions_as_wire_bytes FwVersion.as_wire_bytes f8_1_7 p0 pack
versions_as_wire_bytes-versions = refl

abbrev no_levels : WaterLevels
no_levels = record { arrival_time = none; level = none; start_fill_level = none }
