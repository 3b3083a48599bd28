-- ===== src/Tests/Memory.antt =====
-- Registers, requests to the memory-mapped registers and to the firmware, on concrete values.
use py_de.Base.{ℕ, ◌≡◌, inl, refl, false, none, some, List, [], ◌∷◌, ok, arith, length, replicate}
use py_de.PyNum.{pos, Num, int, frac}
use py_de.Struct.{pack}
use py_de.CApi.Fixed.{fixed, p0}
use py_de.CApi.Frame.{num}
use py_de.CApi.Mmr
use py_de.CApi.Mmr.{
  Mmr, blank, set_address, address, set_addr_low, set_addr_high, set_len, set_data, check_u,
  write_init, setup, check_data_len_consistent,
}
use py_de.CApi.Mmr.Address.{cal_flow_est, addr_value, can_write}
use py_de.CApi.Mmr.Codec.{binval, member, decode_one_mmr, numeric, pack_one_mmr0x80_write}
use py_de.CApi.Mmr.Laws.{IsRequest, Mmr-round_trip}
use py_de.CApi.Mmr.Scales.{steps, reading, decode_one_mmr-pack_one_mmr0x80_write}
use py_de.CApi.Firmware.{
  MapRequest, ignore, report_first, map_init, map_as_wire_bytes, set_window_increment,
  set_fw_to_erase, set_fw_to_map, set_first_error,
}
use py_de.CApi.Firmware.Requests
use py_de.CApi.Firmware.Requests.{
  calls, first_error, fw_to_erase, calls-map_init-IsRequest, MapRequest-round_trip,
}

-- The flow is estimated at 1.125 times what is measured.
abbrev flow_request : Mmr
flow_request = record {
  arrival_time = none;
  len = some 4;
  addr_high = some 0x80;
  addr_low = some 0x383c;
  contents = some (0x65 ∷ 4 ∷ 0 ∷ 0 ∷ []);
}

pack_one_mmr0x80_write-flow : pack_one_mmr0x80_write cal_flow_est (num (frac 9 8)) ≡ ok flow_request
unfolding pack_one_mmr0x80_write can_write binval addr_value write_init setup
    check_data_len_consistent set_address set_addr_low set_addr_high set_len set_data check_u pack
pack_one_mmr0x80_write-flow = refl

decode_one_mmr-pack_one_mmr0x80_write_example :
    (d : List ℕ) × (x : Num) × (n : ℕ) × IsRequest flow_request d
    × (numeric (num (frac 9 8)) ≡ ok x)
    × (fixed (steps cal_flow_est) (some x) ≡ pos n)
    × (decode_one_mmr 0x80 (member cal_flow_est) d ≡ ok (reading cal_flow_est n))
decode_one_mmr-pack_one_mmr0x80_write_example =
    decode_one_mmr-pack_one_mmr0x80_write cal_flow_est (num (frac 9 8)) flow_request 0x80
      pack_one_mmr0x80_write-flow

abbrev page : Mmr
page = record blank { addr_high = some 1; addr_low = some 0 }

flow_request-IsRequest : IsRequest flow_request (0x65 ∷ 4 ∷ 0 ∷ 0 ∷ [])
flow_request-IsRequest = record { given = refl; counted = refl; short = omega arith }

abbrev flow_request_bytes : List ℕ
flow_request_bytes = 4 ∷ 0x80 ∷ 0x38 ∷ 0x3c ∷ 0x65 ∷ 4 ∷ replicate 14 0

as_wire_bytes-flow_request : Mmr.as_wire_bytes flow_request ≡ ok flow_request_bytes
unfolding Mmr.as_wire_bytes p0 pack
as_wire_bytes-flow_request = refl

Mmr-round_trip_example :
    (length flow_request_bytes ≡ 20)
    × (Mmr.from_wire_bytes flow_request_bytes (some (int 3)) blank
        ≡ (record flow_request { arrival_time = some (int 3) }, none))
Mmr-round_trip_example =
    Mmr-round_trip flow_request blank (0x65 ∷ 4 ∷ 0 ∷ 0 ∷ []) flow_request_bytes (some (int 3))
      flow_request-IsRequest as_wire_bytes-flow_request

-- The first image is mapped, nothing is erased, and the first error is asked for.
abbrev verify : MapRequest
verify = record {
  arrival_time = none;
  from_response = false;
  window_increment = some 0;
  fw_to_erase = some 0;
  fw_to_map = some 1;
  first_error = some report_first;
}

map_init-verify :
    map_init (some (pos 0)) (some (pos 0)) (some (pos 1)) (some (pos report_first)) none false
    ≡ ok verify
unfolding map_init set_window_increment set_fw_to_erase set_fw_to_map set_first_error check_u
map_init-verify = refl

calls-map_init-IsRequest_example :
    let s = calls (fw_to_erase (some (pos 1)) ∷ first_error (some (pos ignore)) ∷ []) verify in
    Requests.IsRequest s × Requests.MapsOrFails s
calls-map_init-IsRequest_example =
    calls-map_init-IsRequest (some (pos 0)) (some (pos 0)) (some (pos 1)) (some (pos report_first))
      none verify (fw_to_erase (some (pos 1)) ∷ first_error (some (pos ignore)) ∷ [])
      map_init-verify

verify-IsRequest : Requests.IsRequest verify
verify-IsRequest = record {
  outgoing = refl;
  erase = omega arith;
  image = inl refl;
  exclusive = inl refl;
}

abbrev verify_bytes : List ℕ
verify_bytes = 0 ∷ 0 ∷ 0 ∷ 1 ∷ 255 ∷ 255 ∷ 255 ∷ []

map_as_wire_bytes-verify : map_as_wire_bytes verify ≡ ok verify_bytes
unfolding map_as_wire_bytes pack
map_as_wire_bytes-verify = refl
