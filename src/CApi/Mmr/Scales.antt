-- ===== src/CApi/Mmr/Scales.antt =====
-- Which registers can be written, and that a register is read in the unit in which it is written.
use py_de.Base.{
  ℕ, ◌*◌, ◌<◌, ◌≤◌, ◌≡◌, ◌⊎◌, inl, inr, refl, true, none, some, List, [], ◌∷◌, Result, ok, err,
  and_then, and_then-eq-ok, arith, ltb, Bool-cases, de1_api_value_error,
}
use py_de.PyNum.{ℤ, pos, negsuc, Num, frac, int, round_scaled}
use py_de.Struct.{little, i, pack, to_bytes}
use py_de.Struct.RoundTrip.{unpack-pack}
use py_de.CApi.Fixed.{fixed}
use py_de.CApi.Frame.{Value, num}
use py_de.CApi.Mmr.{Mmr}
use py_de.CApi.Mmr.Laws.{round_same, IsRequest, write_init-IsRequest}
use py_de.CApi.Mmr.Address.{
  Addr, fan_threshold, heater_voltage, heater_up1_flow, heater_up2_flow, water_heater_idle_temp,
  heater_up2_timeout, flush_flow_rate, flush_temp, flush_timeout, tank_temp, cal_flow_est,
  target_steam_flow, steam_start_secs, hot_water_flow_rate, steam_purge_mode, allow_usb_charging,
  app_feature_flags, refill_kit_present, user_present, addr_value, can_write,
}
use py_de.CApi.Mmr.Codec.{
  Decoded, number, feature_flags, truth, member, word, decode_member, decode_one_mmr, numeric,
  packed, binval, write_to, pack_one_mmr0x80_write,
}

-- How many steps of a register make a unit: thousandths, hundredths, tenths or whole units.
abbrev pub steps : Addr → ℕ
steps cal_flow_est = 1000
steps target_steam_flow = 100
steps steam_start_secs = 100
steps tank_temp = 1
steps fan_threshold = 1
steps app_feature_flags = 1
steps steam_purge_mode = 1
steps allow_usb_charging = 1
steps refill_kit_present = 1
steps user_present = 1
steps _ = 10

-- What a register that holds n reads as.
abbrev pub reading : Addr → ℕ → Decoded
reading app_feature_flags n = feature_flags n
reading steam_purge_mode n = truth (ltb 0 n)
reading allow_usb_charging n = truth (ltb 0 n)
reading refill_kit_present n = truth (ltb 0 n)
reading user_present n = truth (ltb 0 n)
reading a n = number (frac n (steps a))

pack_word : (z : ℤ) (d : List ℕ) → pack little (i ∷ []) (z ∷ []) ≡ ok d → (n : ℕ) × (z ≡ pos n)
pack_word (pos n) d e = (n, refl)
pack_word (negsuc n) d e = absurd (unfold pack in cc)

packed-word :
    (k : ℕ) (v : Value) (d : List ℕ) (f : ℕ → Decoded)
    → packed k v ≡ ok d
    → (x : Num) × (n : ℕ) × (numeric v ≡ ok x) × (fixed k (some x) ≡ pos n) × (word d f ≡ ok (f n))
packed-word k v d f e =
    let (x, ex, ep) =
      and_then-eq-ok (numeric v) (λ w. pack little (i ∷ []) (fixed k (some w) ∷ [])) e in
    let z = fixed k (some x) in
    let (n, en) = pack_word z d ep in
    let got = unpack-pack little (i ∷ []) (z ∷ []) d ep in (x, n, ex, en, rw got (rw en))

binval-reading :
    (a : Addr) (v : Value) (d : List ℕ)
    → binval a v ≡ ok d
    → (x : Num) × (n : ℕ) × (numeric v ≡ ok x)
      × (fixed (steps a) (some x) ≡ pos n)
      × (decode_member a d ≡ ok (reading a n))
unfolding binval decode_member
binval-reading cal_flow_est v d e = packed-word 1000 v d (reading cal_flow_est) e
binval-reading target_steam_flow v d e = packed-word 100 v d (reading target_steam_flow) e
binval-reading steam_start_secs v d e = packed-word 100 v d (reading steam_start_secs) e
binval-reading heater_up1_flow v d e = packed-word 10 v d (reading heater_up1_flow) e
binval-reading heater_up2_flow v d e = packed-word 10 v d (reading heater_up2_flow) e
binval-reading water_heater_idle_temp v d e = packed-word 10 v d (reading water_heater_idle_temp) e
binval-reading heater_up2_timeout v d e = packed-word 10 v d (reading heater_up2_timeout) e
binval-reading flush_flow_rate v d e = packed-word 10 v d (reading flush_flow_rate) e
binval-reading flush_temp v d e = packed-word 10 v d (reading flush_temp) e
binval-reading flush_timeout v d e = packed-word 10 v d (reading flush_timeout) e
binval-reading tank_temp v d e = packed-word 1 v d (reading tank_temp) e
binval-reading fan_threshold v d e = packed-word 1 v d (reading fan_threshold) e
binval-reading app_feature_flags v d e = packed-word 1 v d (reading app_feature_flags) e
binval-reading steam_purge_mode v d e = packed-word 1 v d (reading steam_purge_mode) e
binval-reading allow_usb_charging v d e = packed-word 1 v d (reading allow_usb_charging) e
binval-reading refill_kit_present v d e = packed-word 1 v d (reading refill_kit_present) e
binval-reading user_present v d e = packed-word 1 v d (reading user_present) e
binval-reading _ v d e = absurd (cc)

-- A write that is packed for a register is a request whose data are read from the register as the
-- value in the register's own steps: what is read is what was written, rounded to a step. It is read
-- so whatever the high byte of the address: the raw bytes that decode_one_mmr assigns first for another
-- byte than 0x80 are never what it returns.
pub decode_one_mmr-pack_one_mmr0x80_write :
    (a : Addr) (v : Value) (m : Mmr) (hi : ℕ)
    → pack_one_mmr0x80_write a v ≡ ok m
    → (d : List ℕ) × (x : Num) × (n : ℕ) × IsRequest m d
      × (numeric v ≡ ok x)
      × (fixed (steps a) (some x) ≡ pos n)
      × (decode_one_mmr hi (member a) d ≡ ok (reading a n))
unfolding pack_one_mmr0x80_write decode_one_mmr
decode_one_mmr-pack_one_mmr0x80_write a v m hi e = elim (Bool-cases (can_write a)) [
  | inl w ↦
      let e' : and_then (binval a v) (write_to (addr_value a)) ≡ ok m = rw w at e in
      let (d, ed, em) = and_then-eq-ok (binval a v) (write_to (addr_value a)) e' in
      let (x, n, ex, en, er) = binval-reading a v d ed in
      let r = write_init-IsRequest none none (some (pos 0x80)) (some (pos (addr_value a))) d m em in
      (d, x, n, r, ex, en, er)
  | inr w ↦ absurd (let e' = rw w at e in cc)
]

module _ (v : Value) where
  unencodable :
      (a : Addr)
      → (a ≡ heater_voltage) ⊎ (a ≡ hot_water_flow_rate)
      → pack_one_mmr0x80_write a v ≡ err de1_api_value_error
  unfolding pack_one_mmr0x80_write binval can_write
  unencodable heater_voltage h = refl
  unencodable hot_water_flow_rate h = refl
  unencodable _ h = ground arith

one : ℕ → Result (List ℕ)
one k = packed k (num (int 1))

encodable : (k : ℕ) → 0 < k → k ≤ 1000 → (d : List ℕ) × (one k ≡ ok d)
unfolding one round_scaled
encodable k h l =
    let e : 1 * k ≡ k * 1 = omega arith in
    (to_bytes little 4 k, rw (e, round_same k) (unfold pack in ground arith))

-- What can be written at all is packed, for some value, but for two registers, which are refused
-- with every value.
pub can_write-binval :
    (a : Addr)
    → can_write a ≡ true
    → ((d : List ℕ) × (binval a (num (int 1)) ≡ ok d))
      ⊎ (((a ≡ heater_voltage) ⊎ (a ≡ hot_water_flow_rate))
          × ((v : Value) → pack_one_mmr0x80_write a v ≡ err de1_api_value_error))
unfolding binval can_write one
can_write-binval cal_flow_est w = inl (encodable 1000 (omega arith) (omega arith))
can_write-binval target_steam_flow w = inl (encodable 100 (omega arith) (omega arith))
can_write-binval steam_start_secs w = inl (encodable 100 (omega arith) (omega arith))
can_write-binval heater_up1_flow w = inl (encodable 10 (omega arith) (omega arith))
can_write-binval heater_up2_flow w = inl (encodable 10 (omega arith) (omega arith))
can_write-binval water_heater_idle_temp w = inl (encodable 10 (omega arith) (omega arith))
can_write-binval heater_up2_timeout w = inl (encodable 10 (omega arith) (omega arith))
can_write-binval flush_flow_rate w = inl (encodable 10 (omega arith) (omega arith))
can_write-binval flush_temp w = inl (encodable 10 (omega arith) (omega arith))
can_write-binval flush_timeout w = inl (encodable 10 (omega arith) (omega arith))
can_write-binval tank_temp w = inl (encodable 1 (omega arith) (omega arith))
can_write-binval fan_threshold w = inl (encodable 1 (omega arith) (omega arith))
can_write-binval app_feature_flags w = inl (encodable 1 (omega arith) (omega arith))
can_write-binval steam_purge_mode w = inl (encodable 1 (omega arith) (omega arith))
can_write-binval allow_usb_charging w = inl (encodable 1 (omega arith) (omega arith))
can_write-binval refill_kit_present w = inl (encodable 1 (omega arith) (omega arith))
can_write-binval user_present w = inl (encodable 1 (omega arith) (omega arith))
can_write-binval heater_voltage w = inr (inl refl, λ v. unencodable v heater_voltage (inl refl))
can_write-binval hot_water_flow_rate w =
    inr (inr refl, λ v. unencodable v hot_water_flow_rate (inr refl))
can_write-binval _ w = absurd (cc)
