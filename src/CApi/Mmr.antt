-- ===== src/CApi/Mmr.antt =====
-- MMRData, ReadFromMMR and WriteToMMR of c_api.py. Lengths and addresses are integers.
pub mod Address
pub mod Codec
pub mod Laws
pub mod Scales
use py_de.Base.{
  ℕ, ◌+◌, ◌-◌, ◌*◌, ◌/◌, ◌%◌, Bool, true, false, not, ◌&&◌, ◌||◌, Option, none, some, List, [], ◌∷◌,
  ◌++◌, Error, Result, ok, err, value_error, type_error, mmr_type_error, mmr_value_error,
  mmr_data_too_long_error, Method, assign, raise, finish, ◌>>◌, ◌>>=◌, take, drop, length,
  replicate, and_then, ltb, leb, ◌==◌, if◌then◌else◌,
}
use py_de.PyNum.{ℤ, pos, negsuc, Num, nat}
use py_de.Struct.{big, Code, b, h, pack, unpack}
use py_de.CApi.Mmr.Address.{in_debug_buffer}
use py_de.CApi.Fixed.{validate_u_p, p0, over}

pub record Mmr : Type 0 where
  pub arrival_time : Option Num
  pub len : Option ℕ
  pub addr_high : Option ℕ
  pub addr_low : Option ℕ
  pub contents : Option (List ℕ)  -- `Data`

abbrev pub blank : Mmr
blank = record {
  arrival_time = none;
  len = none;
  addr_high = none;
  addr_low = none;
  contents = none;
}

-- `validate_u_p_noneok(value, w, 0)` on an integer, which is not negative if it passes.
unfoldable pub check_u : Option ℤ → ℕ → Result (Option ℕ)
unfolding validate_u_p
check_u none w = ok none
check_u (some z) w = and_then (validate_u_p (over z 1) w 0) λ _. ok (some (nat z))

unfoldable pub set_len : Option ℤ → Method Mmr
set_len v = do w ← check_u v 8; assign (λ s. record s { len = w })

unfoldable pub set_addr_high : Option ℤ → Method Mmr
set_addr_high v = do w ← check_u v 8; assign (λ s. record s { addr_high = w })

unfoldable pub set_addr_low : Option ℤ → Method Mmr
set_addr_low v = do w ← check_u v 16; assign (λ s. record s { addr_low = w })

abbrev set_parts : Option ℕ → Method Mmr
unfolding set_addr_high set_addr_low
set_parts none = assign (λ s. s)
set_parts (some a) = do
  set_addr_high (some (pos (a / 65536)))
  set_addr_low (some (pos (a % 65536)))

-- `(addr & 0xff0000) >> 16` and `addr & 0x00ffff` of an address of 24 bits
unfoldable pub set_address : Option ℤ → Method Mmr
unfolding set_addr_high set_addr_low
set_address v = do w ← check_u v 24; set_parts w

unfoldable pub set_data : Option (List ℕ) → Method Mmr
set_data none = assign (λ s. record s { contents = none })
set_data (some d) =
    if ltb 16 (length d) then raise mmr_type_error else assign (λ s. record s { contents = some d })

abbrev is_some {ℓ} : {A : Type ℓ} → Option A → Bool
is_some none = false
is_some (some a) = true

-- `__init__`
unfoldable pub setup : (len address high low : Option ℤ) → Option (List ℕ) → Method Mmr
setup len address high low d =
    if is_some address && (is_some high || is_some low)
    then raise mmr_type_error
    else do set_len len; set_addr_low low; set_addr_high high; set_data d; set_address address

abbrev truthy : Option ℕ → Bool
truthy none = false
truthy (some n) = not (n == 0)

abbrev or_0 : Option ℕ → ℕ
or_0 none = 0
or_0 (some n) = n

-- Both parts have to be there and to be other than 0.
unfoldable pub address : Mmr → Option ℕ
address s =
    if truthy s.addr_high && truthy s.addr_low
    then some (or_0 s.addr_high * 65536 + or_0 s.addr_low)
    else none

abbrev pub format : List Code
format = b ∷ b ∷ h ∷ []

abbrev pub store : List ℕ → List ℤ → Method Mmr
store bs (l ∷ hi ∷ lo ∷ []) = assign λ s. record s {
  len = some (nat l);
  addr_high = some (nat hi);
  addr_low = some (nat lo);
  contents = some (take (nat l) (drop 4 bs));
}
store bs _ = raise value_error

unfoldable pub from_wire_bytes : List ℕ → Option Num → Method Mmr
from_wire_bytes bs t = do
  assign (λ s. record s { arrival_time = t })
  vs ← unpack big format (take 4 bs)
  store bs vs

abbrev pub padded_data : Option (List ℕ) → Result (List ℕ)
padded_data none = ok (replicate 16 0)
padded_data (some d) =
    if ltb 16 (length d) then err mmr_data_too_long_error else ok (d ++ replicate (16 - length d) 0)

abbrev pub or_zero : Option ℕ → Option Num
or_zero none = none
or_zero (some n) = some (over (pos n) 1)

-- `int(None)` raises.
abbrev pub int_of : Option ℕ → Result ℕ
int_of none = err type_error
int_of (some n) = ok n

unfoldable pub as_wire_bytes : Mmr → Result (List ℕ)
as_wire_bytes s = and_then (int_of s.addr_high) λ hi. and_then (int_of s.addr_low) λ lo.
    and_then (pack big format (p0 (or_zero s.len) ∷ pos hi ∷ pos lo ∷ []))
      λ head. and_then (padded_data s.contents) λ d. ok (head ++ d)

pub record ReadFromMmr : Type 0 where
  pub mmr : Mmr
  pub from_response : Bool

abbrev checked_len : Option ℤ → Bool → Result (Unit {0})
checked_len none r = ok tt
checked_len (some (negsuc n)) r = err mmr_value_error
checked_len (some (pos n)) false = if leb n 255 then ok tt else err mmr_value_error
checked_len (some (pos n)) true = if ltb n 16 then ok tt else err mmr_value_error

unfoldable pub read_init :
    (len address high low : Option ℤ) → Option (List ℕ) → Bool → Result ReadFromMmr
read_init len address high low d r =
    and_then (finish (setup len address high low d blank))
      λ m. and_then (checked_len len r) λ _. ok (record { mmr = m; from_response = r })

-- A request has no word on how long its data are.
unfoldable pub read_from_wire_bytes : List ℕ → Option Num → Bool → Method Mmr
unfolding from_wire_bytes
read_from_wire_bytes bs t r = do
  from_wire_bytes bs t
  assign λ s. record s { contents = some (if r then take (or_0 s.len) (drop 4 bs) else drop 4 bs) }

-- `addr_low + Len - 1` is not negative, since an address of 0 has no `Address`.
unfoldable pub is_within_debug_log : ReadFromMmr → Result Bool
unfolding address
is_within_debug_log r = elim (address r.mmr) [
  | none ↦ ok false
  | some a ↦ and_then (int_of r.mmr.len) λ len.
      let low = or_0 r.mmr.addr_low in
      let end = if r.from_response then low + len - 1 else low + 4 * len - 1 in
      ok (in_debug_buffer low && in_debug_buffer end && or_0 r.mmr.addr_high == 0x80)
]

abbrev length? : Option (List ℕ) → Option ℤ
length? none = none
length? (some d) = some (pos (length d))

abbrev pub given_len : Option ℤ → Option (List ℕ) → Option ℤ
given_len none d = length? d
given_len (some z) d = some z

-- `_check_data_len_consistent`
unfoldable pub check_data_len_consistent : Mmr → Result (Unit {0})
check_data_len_consistent s = if ltb 16 (or_0 s.len) then err mmr_value_error else elim s.contents [
  | none ↦ ok tt
  | some d ↦ if ltb 16 (length d) then err mmr_value_error else elim s.len [
    | none ↦ ok tt
    | some n ↦ if length d == n then ok tt else err mmr_value_error
  ]
]

unfoldable pub write_init : (len address high low : Option ℤ) → Option (List ℕ) → Result Mmr
write_init len address high low d =
    and_then (finish (setup (given_len len d) address high low d blank))
      λ m. and_then (check_data_len_consistent m) λ _. ok m
