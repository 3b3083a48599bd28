-- ===== src/CApi/FwVersion.antt =====
-- FWVersion and Versions of c_api.py.
pub mod Laws
use py_de.Base.{
  ℕ, ◌+◌, ◌≡◌, refl, Bool, true, false, Option, none, some, List, [], ◌∷◌, ◌++◌, Error, Result, ok,
  err, value_error, and_then, Method, assign, raise, finish, ◌>>◌, ◌>>=◌, take, drop,
}
use py_de.PyNum.{ℤ, pos, Num, frac, nat}
use py_de.Struct.{big, Code, b, h, i, pack, unpack}
use py_de.CApi.Fixed.{
  validate_u_p_noneok, validate_f8_1_7_noneok, f8_1_7_decode, f8_1_7_of, p0, over,
}

pub record FwVersion : Type 0 where
  pub arrival_time : Option Num
  pub api_version : Option Num
  pub release : Option Num
  pub commits : Option Num
  pub changes : Option Num
  pub ble_sha : Option Num

abbrev pub blank : FwVersion
blank = record {
  arrival_time = none;
  api_version = none;
  release = none;
  commits = none;
  changes = none;
  ble_sha = none;
}

-- The properties of the class: each setter checks its value.
pub data Field : Type 0 where
  api_version release commits changes ble_sha : Field

unfoldable pub set : Field → Option Num → Method FwVersion
unfolding validate_u_p_noneok validate_f8_1_7_noneok
set api_version v = do w ← validate_u_p_noneok v 8 0; assign (λ s. record s { api_version = w })
set release v = do w ← validate_f8_1_7_noneok v; assign (λ s. record s { release = w })
set commits v = do w ← validate_u_p_noneok v 16 0; assign (λ s. record s { commits = w })
set changes v = do w ← validate_u_p_noneok v 8 0; assign (λ s. record s { changes = w })
set ble_sha v = do w ← validate_u_p_noneok v 32 0; assign (λ s. record s { ble_sha = w })

-- `FWVersion(api_version, …)`
unfoldable pub init :
    Option Num → Option Num → Option Num → Option Num → Option Num → Result FwVersion
unfolding set
init a r c g n =
    finish (
      (set api_version a >> set release r >> set commits c >> set changes g >> set ble_sha n) blank)

abbrev pub format : List Code
format = b ∷ b ∷ h ∷ b ∷ i ∷ []

-- The assignment of the unpacked tuple, and the decoding of the release.
abbrev pub store : List ℤ → Method FwVersion
store (a ∷ r ∷ c ∷ g ∷ n ∷ []) = assign λ s. record s {
  api_version = some (over a 1);
  release = some (f8_1_7_decode (nat r));
  commits = some (over c 1);
  changes = some (over g 1);
  ble_sha = some (over n 1);
}
store _ = raise value_error

unfoldable pub from_wire_bytes : List ℕ → Option Num → Method FwVersion
from_wire_bytes bs t = do
  assign (λ s. record s { arrival_time = t })
  vs ← unpack big format bs
  store vs

abbrev pub values : FwVersion → ℤ → List ℤ
values s r = p0 s.api_version ∷ r ∷ p0 s.commits ∷ p0 s.changes ∷ p0 s.ble_sha ∷ []

unfoldable pub as_wire_bytes : FwVersion → Result (List ℕ)
as_wire_bytes s = and_then (f8_1_7_of s.release) λ r. pack big format (values s r)

pub record Versions : Type 0 where
  pub arrival_time : Option Num
  pub ble_version : FwVersion
  pub lv_version : FwVersion

-- A method of an attribute that is an object, and what it leaves there.
abbrev pub on_ble : Method FwVersion → Method Versions
on_ble m s = let (v, e) = m s.ble_version in (record s { ble_version = v }, e)

abbrev pub on_lv : Method FwVersion → Method Versions
on_lv m s = let (v, e) = m s.lv_version in (record s { lv_version = v }, e)

unfoldable pub versions_from_wire_bytes : List ℕ → Option Num → Method Versions
versions_from_wire_bytes bs t = do
  assign (λ s. record s { arrival_time = t })
  on_ble (from_wire_bytes (take 9 bs) t)
  on_lv (from_wire_bytes (drop 9 bs) t)

unfoldable pub versions_as_wire_bytes : Versions → Result (List ℕ)
versions_as_wire_bytes s =
    and_then (as_wire_bytes s.ble_version)
      λ x. and_then (as_wire_bytes s.lv_version) λ y. ok (x ++ y)
