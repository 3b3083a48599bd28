-- ===== src/CApi/Mmr/Codec.antt =====
-- decode_one_mmr and pack_one_mmr0x80_write of c_api.py.
pub mod Utf8
use py_de.Base.{
  ℕ, ◌+◌, Bool, true, false, Option, none, some, List, [], ◌∷◌, Error, Result, ok, err, type_error,
  attribute_error, unicode_decode_error, de1_api_value_error, and_then, ltb, ◌==◌, ◌||◌,
  if◌then◌else◌,
}
use py_de.PyNum.{ℤ, pos, Num, int, frac, nat}
use py_de.Struct.{little, i, pack, unpack}
use py_de.CApi.Fixed.{fixed}
use py_de.CApi.Frame.{Value, null, bool, num}
use py_de.CApi.Mmr.{Mmr, write_init}
use py_de.CApi.Mmr.Address.{
  Addr, hw_config, model, cpu_board_model, v13_model, debug_config, fan_threshold, tank_temp,
  heater_up1_flow, heater_up2_flow, water_heater_idle_temp, ghc_info, pref_ghc_mci, max_shot_press,
  target_steam_flow, steam_start_secs, serial_number, heater_up2_timeout, cal_flow_est,
  flush_flow_rate, flush_temp, flush_timeout, hot_water_flow_rate, steam_purge_mode,
  allow_usb_charging, app_feature_flags, refill_kit_present, user_present, addr_value, can_write,
  in_debug_buffer,
}
use py_de.CApi.Mmr.Codec.Utf8.{is_utf8}

-- MMRV13ModelCode
pub data ModelCode : Type 0 where
  unset de1 de1_plus de1_pro de1_xl de1_cafe de1_xxl unrecognized : ModelCode

unfoldable pub model_code : ℕ → ModelCode
model_code n =
    if n == 0
    then unset
    else if n == 1
    then de1
    else if n == 2
    then de1_plus
    else if n == 3
    then de1_pro
    else if n == 4
    then de1_xl
    else if n == 5
    then de1_cafe
    else if n == 6
    then de1_xxl
    else unrecognized

-- What a register is decoded to. The flags take any bits, as an `IntFlag` does.
pub data Decoded : Type 0 where
  raw : List ℕ → Decoded
  number : Num → Decoded
  text : List ℕ → Decoded  -- the string with this UTF-8
  model_is : ModelCode → Decoded
  ghc_flags : ℕ → Decoded
  feature_flags : ℕ → Decoded
  truth : Bool → Decoded

-- An address is a member of the enumeration, or an integer that is none of its values.
pub data Low : Type 0 where
  member : Addr → Low
  plain : ℕ → Low

abbrev pub first : List ℤ → ℕ
first [] = 0
first (v ∷ vs) = nat v

abbrev pub word : List ℕ → (ℕ → Decoded) → Result Decoded
word bs f = and_then (unpack little (i ∷ []) bs) λ vs. ok (f (first vs))

abbrev pub scaled : ℕ → List ℕ → Result Decoded
scaled d bs = word bs λ n. number (frac n d)

abbrev pub as_text : List ℕ → Result Decoded
as_text bs = if is_utf8 bs then ok (text bs) else err unicode_decode_error

unfoldable pub decode_member : Addr → List ℕ → Result Decoded
unfolding model_code addr_value
decode_member hw_config bs = ok (raw bs)
decode_member model bs = ok (raw bs)
decode_member serial_number bs = ok (raw bs)
decode_member debug_config bs = ok (raw bs)
decode_member cpu_board_model bs = scaled 1000 bs
decode_member cal_flow_est bs = scaled 1000 bs
decode_member target_steam_flow bs = scaled 100 bs
decode_member steam_start_secs bs = scaled 100 bs
decode_member heater_up1_flow bs = scaled 10 bs
decode_member heater_up2_flow bs = scaled 10 bs
decode_member water_heater_idle_temp bs = scaled 10 bs
decode_member heater_up2_timeout bs = scaled 10 bs
decode_member flush_flow_rate bs = scaled 10 bs
decode_member flush_temp bs = scaled 10 bs
decode_member flush_timeout bs = scaled 10 bs
decode_member hot_water_flow_rate bs = scaled 10 bs
decode_member v13_model bs = word bs λ n. model_is (model_code n)
decode_member ghc_info bs = word bs ghc_flags
decode_member app_feature_flags bs = word bs feature_flags
decode_member steam_purge_mode bs = word bs λ n. truth (ltb 0 n)
decode_member allow_usb_charging bs = word bs λ n. truth (ltb 0 n)
decode_member refill_kit_present bs = word bs λ n. truth (ltb 0 n)
decode_member user_present bs = word bs λ n. truth (ltb 0 n)
decode_member a bs = if in_debug_buffer (addr_value a) then as_text bs else scaled 1 bs

-- The test of the high address assigns a result that is replaced below in every case.
unfoldable pub decode_one_mmr : ℕ → Low → List ℕ → Result Decoded
decode_one_mmr addr_high (member a) bs = decode_member a bs
decode_one_mmr addr_high (plain n) bs = if in_debug_buffer n then as_text bs else scaled 1 bs

abbrev pub numeric : Value → Result Num
numeric null = err type_error
numeric (bool true) = ok (int 1)
numeric (bool false) = ok (int 0)
numeric (num v) = ok v

-- `pack('<I', int(round(value * k)))`
abbrev pub packed : ℕ → Value → Result (List ℕ)
packed k value = and_then (numeric value) λ v. pack little (i ∷ []) (fixed k (some v) ∷ [])

unfoldable pub binval : Addr → Value → Result (List ℕ)
binval cal_flow_est v = packed 1000 v
binval target_steam_flow v = packed 100 v
binval steam_start_secs v = packed 100 v
binval heater_up1_flow v = packed 10 v
binval heater_up2_flow v = packed 10 v
binval water_heater_idle_temp v = packed 10 v
binval heater_up2_timeout v = packed 10 v
binval flush_flow_rate v = packed 10 v
binval flush_temp v = packed 10 v
binval flush_timeout v = packed 10 v
binval tank_temp v = packed 1 v
binval fan_threshold v = packed 1 v
binval app_feature_flags v = packed 1 v
binval steam_purge_mode v = packed 1 v
binval allow_usb_charging v = packed 1 v
binval refill_kit_present v = packed 1 v
binval user_present v = packed 1 v
binval _ v = err de1_api_value_error

abbrev pub write_to : ℕ → List ℕ → Result Mmr
write_to low d = write_init none none (some (pos 0x80)) (some (pos low)) (some d)

unfoldable pub pack_one_mmr0x80_write : Addr → Value → Result Mmr
pack_one_mmr0x80_write a v =
    if can_write a then and_then (binval a v) (write_to (addr_value a)) else err de1_api_value_error
