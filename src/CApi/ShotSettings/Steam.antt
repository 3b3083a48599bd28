-- ===== src/CApi/ShotSettings/Steam.antt =====
-- The two flags of the steam settings.
use py_de.Base.{ℕ, ◌%◌, ◌<◌, ◌≡◌, refl, Bool, false, not, none, some, ok, arith, if◌then◌else◌}
use py_de.PyNum.{int}
use py_de.CApi.Fixed.{validate_u_p_noneok}
use py_de.CApi.ShotSettings.{
  ShotSettings, fast_start, high_power, has, with_bit, without_bit, toggled,
  steam_setting_fast_start, set_steam_setting_fast_start, steam_setting_high_power,
  set_steam_setting_high_power,
}

validate_byte : (w : ℕ) → w < 256 → validate_u_p_noneok (some (int w)) 8 0 ≡ ok (some (int w))
unfolding validate_u_p_noneok
validate_byte w l = ground arith

abbrev with_fast : Bool → ℕ → ℕ
with_fast val v = if val then with_bit fast_start v else without_bit fast_start v

abbrev with_high : Bool → ℕ → ℕ
with_high val v = if val then with_bit high_power v else toggled high_power v

with_fast-lt : (val : Bool) (v : ℕ) → v < 256 → with_fast val v < 256
with_fast-lt val v l = ground arith

with_high-lt : (val : Bool) (v : ℕ) → v < 256 → with_high val v < 256
with_high-lt val v l = ground arith

module _ (val : Bool) (s : ShotSettings) (v : ℕ) (h : s.steam_settings ≡ some (int v))
    (l : v < 256) where
  pub set_fast_eq :
      set_steam_setting_fast_start val s
      ≡ (record s { steam_settings = some (int (with_fast val v)) }, none)
  unfolding set_steam_setting_fast_start
  set_fast_eq = ground (arith, validate_byte (with_fast val v) (with_fast-lt val v l))

  pub set_high_eq :
      set_steam_setting_high_power val s
      ≡ (record s { steam_settings = some (int (with_high val v)) }, none)
  unfolding set_steam_setting_high_power
  set_high_eq = ground (arith, validate_byte (with_high val v) (with_high-lt val v l))

  -- Setting the fast start of settings whose flags are one byte raises nothing, makes the value its
  -- reading, changes no other attribute, and leaves the other seven bits as they were.
  pub steam_setting_fast_start-set :
      let (s', e) = set_steam_setting_fast_start val s in
      (e ≡ none)
      × (steam_setting_fast_start s' ≡ ok val)
      × (w : ℕ) × (s' ≡ record s { steam_settings = some (int w) })
      × (w % 0x80 ≡ v % 0x80)
  unfolding steam_setting_fast_start
  steam_setting_fast_start-set =
      rw set_fast_eq (refl, ground arith, with_fast val v, refl, ground arith)

  -- The reading of the high-power flag does not follow its setter: it is the fast start's.
  pub steam_setting_high_power-set :
      let (s', e) = set_steam_setting_high_power val s in
      (e ≡ none) × (steam_setting_high_power s' ≡ steam_setting_fast_start s)
  unfolding steam_setting_fast_start steam_setting_high_power
  steam_setting_high_power-set = rw set_high_eq (refl, rw h (ground arith))

  -- Switching the high power off switches it on where it was off.
  pub set_steam_setting_high_power-toggles :
      val ≡ false
      → let (s', e) = set_steam_setting_high_power val s in
        (w : ℕ) × (s'.steam_settings ≡ some (int w)) × (has high_power w ≡ not (has high_power v))
  set_steam_setting_high_power-toggles f = rw set_high_eq (with_high val v, refl, ground arith)
