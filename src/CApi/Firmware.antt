-- ===== src/CApi/Firmware.antt =====
-- FWImageInfo, MoveMMRWindow, FWMapRequest and SetTime of c_api.py. All their values are integers.
pub mod Laws
pub mod Requests
use py_de.Base.{
  ℕ, ◌+◌, ◌-◌, ◌*◌, ◌/◌, ◌%◌, Bool, true, false, not, ◌&&◌, ◌||◌, Option, none, some, List, [], ◌∷◌,
  ◌++◌, Error, Result, ok, err, value_error, type_error, struct_error, de1_api_value_error, Method,
  assign, raise, finish, ◌>>◌, ◌>>=◌, and_then, ltb, leb, ◌==◌, if◌then◌else◌,
}
use py_de.PyNum.{ℤ, pos, negsuc, Num, nat, int}
use py_de.Struct.{big, little, Code, b, h, i, q, pack, unpack}
use py_de.CApi.Fixed.{u, p0}
use py_de.CApi.Mmr.{check_u}

abbrev pub as_num : Option ℕ → Option Num
as_num none = none
as_num (some n) = some (int n)

pub record ImageInfo : Type 0 where
  pub arrival_time : Option Num
  pub version : Option ℕ
  pub hash : Option ℕ

unfoldable pub set_version : Option ℤ → Method ImageInfo
set_version v = do w ← check_u v 32; assign (λ s. record s { version = w })

unfoldable pub set_hash : Option ℤ → Method ImageInfo
set_hash v = do w ← check_u v 64; assign (λ s. record s { hash = w })

abbrev pub image_store : List ℤ → Method ImageInfo
image_store (v ∷ n ∷ []) = assign (λ s. record s { version = some (nat v); hash = some (nat n) })
image_store _ = raise value_error

unfoldable pub image_from_wire_bytes : List ℕ → Option Num → Method ImageInfo
image_from_wire_bytes bs t = do
  assign (λ s. record s { arrival_time = t })
  vs ← unpack big (i ∷ q ∷ []) bs
  image_store vs

unfoldable pub image_as_wire_bytes : ImageInfo → Result (List ℕ)
image_as_wire_bytes s = pack big (i ∷ q ∷ []) (u (as_num s.version) ∷ u (as_num s.hash) ∷ [])

pub record Window : Type 0 where
  pub arrival_time : Option Num
  pub offset : Option ℕ
  pub len : Option ℕ

unfoldable pub set_offset : Option ℤ → Method Window
set_offset v = do w ← check_u v 32; assign (λ s. record s { offset = w })

unfoldable pub set_window_len : Option ℤ → Method Window
set_window_len v = do w ← check_u v 64; assign (λ s. record s { len = w })

abbrev pub window_store : List ℤ → Method Window
window_store (o ∷ l ∷ []) = assign (λ s. record s { offset = some (nat o); len = some (nat l) })
window_store _ = raise value_error

unfoldable pub window_from_wire_bytes : List ℕ → Option Num → Method Window
window_from_wire_bytes bs t = do
  assign (λ s. record s { arrival_time = t })
  vs ← unpack little (i ∷ b ∷ []) bs
  window_store vs

-- The length stands first here, and the offset in `from_wire_bytes`.
unfoldable pub window_as_wire_bytes : Window → Result (List ℕ)
window_as_wire_bytes s = pack little (i ∷ b ∷ []) (u (as_num s.len) ∷ p0 (as_num s.offset) ∷ [])

pub record MapRequest : Type 0 where
  pub arrival_time : Option Num
  pub from_response : Bool
  pub window_increment : Option ℕ
  pub fw_to_erase : Option ℕ
  pub fw_to_map : Option ℕ
  pub first_error : Option ℕ

-- FWErrorMapRequest
abbrev pub ignore : ℕ
ignore = 0

abbrev pub report_first : ℕ
report_first = 0xff_ffff

abbrev pub report_next : ℕ
report_next = 0xff_fffe

unfoldable pub set_window_increment : Option ℤ → Method MapRequest
set_window_increment v = do w ← check_u v 16; assign (λ s. record s { window_increment = w })

abbrev is_search : Option ℕ → Bool
is_search none = false
is_search (some n) = not (n == ignore)

-- The warning on an inconsistent pair of numbers is left out.
unfoldable pub set_fw_to_erase : Option ℤ → Method MapRequest
set_fw_to_erase none = assign (λ s. record s { fw_to_erase = none })
set_fw_to_erase (some (negsuc n)) = raise de1_api_value_error
set_fw_to_erase (some (pos n)) = if ltb 2 n then raise de1_api_value_error else λ s.
    if ltb 0 n && is_search s.first_error
    then (s, some de1_api_value_error)
    else (record s { fw_to_erase = some n }, none)

unfoldable pub set_fw_to_map : Option ℤ → Method MapRequest
set_fw_to_map none = assign (λ s. record s { fw_to_map = none })
set_fw_to_map (some (negsuc n)) = raise de1_api_value_error
set_fw_to_map (some (pos n)) =
    if n == 1 || n == 2
    then assign (λ s. record s { fw_to_map = some n })
    else raise de1_api_value_error

-- `self.FWToErase > 0`
abbrev erasing : Option ℕ → Result Bool
erasing none = err type_error
erasing (some n) = ok (ltb 0 n)

abbrev request_error : ℕ → Bool → Method MapRequest
request_error n true =
    if n == ignore
    then assign (λ s. record s { first_error = some n })
    else raise de1_api_value_error
request_error n false = assign (λ s. record s { first_error = some n })

unfoldable pub set_first_error : Option ℤ → Method MapRequest
set_first_error none s = (record s { first_error = none }, none)
set_first_error (some v) s =
    if s.from_response then (record s { first_error = some (nat v) }, none) else elim v [
      | negsuc n ↦ (s, some de1_api_value_error)
      | pos n ↦
          if n == ignore || n == report_first || n == report_next
          then (do e ← erasing s.fw_to_erase; request_error n e) s
          else (s, some de1_api_value_error)
    ]

abbrev pub fresh : Option Num → Bool → MapRequest
fresh t r = record {
  arrival_time = t;
  from_response = r;
  window_increment = none;
  fw_to_erase = none;
  fw_to_map = none;
  first_error = none;
}

unfoldable pub map_init : (wi erase image first : Option ℤ) → Option Num → Bool → Result MapRequest
unfolding set_window_increment set_fw_to_erase set_fw_to_map set_first_error
map_init wi erase image first t r = finish (
    (do set_window_increment wi; set_fw_to_erase erase; set_fw_to_map image; set_first_error first)
      (fresh t r))

abbrev pub map_format : List Code
map_format = h ∷ b ∷ b ∷ b ∷ h ∷ []

-- The properties are assigned one after the other, each with its check.
abbrev pub map_store : List ℤ → Method MapRequest
unfolding set_window_increment set_fw_to_erase set_fw_to_map set_first_error
map_store (wi ∷ e ∷ m ∷ hi ∷ lo ∷ []) = do
  set_window_increment (some wi)
  set_fw_to_erase (some e)
  set_fw_to_map (some m)
  set_first_error (some (pos (nat hi * 65536 + nat lo)))
map_store _ = raise value_error

unfoldable pub map_from_wire_bytes : List ℕ → Option Num → Bool → Method MapRequest
unfolding set_window_increment set_fw_to_erase set_fw_to_map set_first_error
map_from_wire_bytes bs t r = do
  assign (λ s. record s { from_response = r })
  vs ← unpack big map_format bs
  map_store vs
  assign (λ s. record s { arrival_time = t })

abbrev pub packable : Option ℕ → Result ℤ
packable none = err struct_error
packable (some n) = ok (pos n)

-- `None >> 16` raises before `pack` looks at its arguments.
unfoldable pub map_as_wire_bytes : MapRequest → Result (List ℕ)
map_as_wire_bytes s = elim s.first_error [
  | none ↦ err type_error
  | some f ↦ and_then (packable s.window_increment) λ wi. and_then (packable s.fw_to_erase) λ e.
      and_then (packable s.fw_to_map)
        λ m. pack big map_format (wi ∷ e ∷ m ∷ pos (f / 65536) ∷ pos (f % 65536) ∷ [])
]

pub record SetTime : Type 0 where
  pub arrival_time : Option Num
  pub timestamp : Option ℕ

-- The argument is not used.
unfoldable pub time_init : Option ℤ → SetTime
time_init v = record { arrival_time = none; timestamp = none }

unfoldable pub set_timestamp : Option ℤ → Method SetTime
set_timestamp v = do w ← check_u v 64; assign (λ s. record s { timestamp = w })

abbrev first : List ℤ → Option ℤ
first [] = none
first (v ∷ vs) = some v

unfoldable pub time_from_wire_bytes : List ℕ → Option Num → Method SetTime
unfolding set_timestamp
time_from_wire_bytes bs t = do
  assign (λ s. record s { arrival_time = t })
  vs ← unpack big (q ∷ []) bs
  set_timestamp (first vs)

unfoldable pub time_as_wire_bytes : SetTime → Result (List ℕ)
time_as_wire_bytes s = pack big (q ∷ []) (u (as_num s.timestamp) ∷ [])
