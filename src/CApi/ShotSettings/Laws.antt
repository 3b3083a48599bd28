-- ===== src/CApi/ShotSettings/Laws.antt =====
-- Writing and reading the settings.
use py_de.Base.{
  ℕ, ◌≡◌, ◌≢◌, refl, Option, none, some, List, ok, err, attribute_error, and_then-eq-ok, Keeps,
  Keeps-set_all, set_all, Keeps-finish, arith,
}
use py_de.PyNum.{Num}
use py_de.Struct.{big}
use py_de.Struct.RoundTrip.{unpack-pack}
use py_de.CApi.Fixed.{p0, p8, over}
use py_de.CApi.ShotSettings.{
  ShotSettings, Args, Field, set, init, assignments, blank, format, values, attribute, zero_as_none,
  from_wire_bytes, as_wire_bytes, target_hot_water_length,
}

-- What is written is read back up to the resolution of the fields, and a steam temperature that
-- rounds to 0 is read as `None`.
pub ShotSettings-round_trip :
    (s s' : ShotSettings) (bs : List ℕ) (t : Option Num)
    → as_wire_bytes s ≡ ok bs
    → (length : Option Num) × (s.target_hot_water_length ≡ some length)
      × (from_wire_bytes bs t s' ≡ (
        record {
          arrival_time = t;
          steam_settings = some (over (p0 s.steam_settings) 1);
          target_steam_temp = zero_as_none (p0 s.target_steam_temp);
          target_steam_length = some (over (p0 s.target_steam_length) 1);
          target_hot_water_temp = some (over (p0 s.target_hot_water_temp) 1);
          target_hot_water_vol = some (over (p0 s.target_hot_water_vol) 1);
          target_hot_water_length = some (some (over (p0 length) 1));
          target_espresso_vol = some (over (p0 s.target_espresso_vol) 1);
          target_group_temp = some (over (p8 s.target_group_temp) 256);
        },
        none,
      ))
unfolding as_wire_bytes from_wire_bytes
ShotSettings-round_trip s s' bs t e =
    let (length, el, ep) = and_then-eq-ok (attribute s.target_hot_water_length) _ e in
    (length, ground arith, rw (unpack-pack big format (values s length) bs ep))

abbrev IsMissing : ShotSettings → Type 0
IsMissing s = s.target_hot_water_length ≡ none

set-IsMissing :
    (f : Field) (v : Option Num) → f ≢ target_hot_water_length → Keeps IsMissing (set f v)
unfolding set
set-IsMissing f v n s p = ground arith

-- Settings that the constructor has built cannot be written, whatever it was given: it does not
-- set the length of the hot water.
pub as_wire_bytes-init :
    (a : Args) (s : ShotSettings) → init a ≡ ok s → as_wire_bytes s ≡ err attribute_error
unfolding init as_wire_bytes
as_wire_bytes-init a s e = rw missing
  where
    missing : s.target_hot_water_length ≡ none
    missing =
        Keeps-finish IsMissing (set_all set (assignments a)) blank s
          (Keeps-set_all set IsMissing (λ f _. f ≢ target_hot_water_length) set-IsMissing
            (assignments a) (ground arith))
          refl e
