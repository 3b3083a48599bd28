-- ===== src/CApi/Levels/Laws.antt =====
-- The scale of the water levels, and the sensors packet, which cannot be read.
use py_de.Base.{
  ℕ, ◌+◌, ◌*◌, ◌≤◌, ◌≡◌, ◌≢◌, refl, ap, Option, none, some, List, [], ◌∷◌, Error, ok, struct_error,
  value_error, arith, length, ◌==◌, if◌then◌else◌, Bool-cases, inl, inr,
}
use py_de.PyNum.{ℤ, pos, Num, frac}
use py_de.Struct.{big, unpack}
use py_de.Struct.RoundTrip.{unpack-pack}
use py_de.Struct.Length.{unpack-length_ne, unpack-length_eq}
use py_de.CApi.Fixed.{u, over}
use py_de.CApi.Levels.{
  WaterLevels, AllSensors, format, or_zero, from_wire_bytes, as_wire_bytes, sensors_format,
  sensors_store, sensors_from_wire_bytes,
}

-- What is written reads back as a 256th of what was to be written, rounded to a whole number.
pub WaterLevels-round_trip :
    (s s' : WaterLevels) (bs : List ℕ) (t : Option Num)
    → as_wire_bytes s ≡ ok bs
    → from_wire_bytes bs t s' ≡ (
      record {
        arrival_time = t;
        level = some (over (u (or_zero s.level)) 256);
        start_fill_level = some (over (u (or_zero s.start_fill_level)) 256);
      },
      none,
    )
unfolding from_wire_bytes as_wire_bytes
WaterLevels-round_trip s s' bs t e =
    rw (unpack-pack big format (u (or_zero s.level) ∷ u (or_zero s.start_fill_level) ∷ []) bs e)

sensors_store_fails :
    (vs : List ℤ) (s : AllSensors) → length vs ≡ 8 → sensors_store vs s ≡ (s, some value_error)
sensors_store_fails (a ∷ b ∷ c ∷ d ∷ e ∷ f ∷ g ∷ []) s n = absurd (omega arith)
sensors_store_fails _ s n = refl

-- The sensors packet is refused at every length: sixteen bytes give eight values for seven names.
-- Nothing but the arrival time has changed then.
pub AllSensors-unreadable :
    (bs : List ℕ) (t : Option Num) (s : AllSensors)
    → sensors_from_wire_bytes bs t s ≡ (
      record s { arrival_time = t },
      some (if length bs == 16 then value_error else struct_error),
    )
unfolding sensors_from_wire_bytes
AllSensors-unreadable bs t s = elim (Bool-cases (length bs == 16)) [
  | inl same ↦
      let n : length bs ≡ 16 = ground arith in
      let (vs, e, k) = unpack-length_eq big sensors_format bs n in
      rw (same, e) (sensors_store_fails vs (record s { arrival_time = t }) k)
  | inr other ↦
      let n : length bs ≢ 16 = λ p. ground arith in
      rw (other, unpack-length_ne big sensors_format bs n)
]

rounded-lt : (n : ℕ) → 256 ≤ n → u (some (frac n 256)) ≢ pos n
unfolding u
rounded-lt n h e = ground arith

read_level :
    (a b c d : ℕ) (t : Option Num) (s : WaterLevels)
    → (from_wire_bytes (a ∷ b ∷ c ∷ d ∷ []) t s).0.level ≡ some (frac (a * 256 + b) 256)
unfolding from_wire_bytes unpack
read_level a b c d t s = ground arith

-- A packet that was read, with a level of one millimetre or more, is not written back as it was.
pub WaterLevels-not_restored :
    (a b c d : ℕ) (t : Option Num) (s : WaterLevels)
    → 1 ≤ a
    → as_wire_bytes (from_wire_bytes (a ∷ b ∷ c ∷ d ∷ []) t s).0 ≢ ok (a ∷ b ∷ c ∷ d ∷ [])
WaterLevels-not_restored a b c d t s h e =
    let r = (from_wire_bytes (a ∷ b ∷ c ∷ d ∷ []) t s).0 in
    let n = a * 256 + b in
    let level = read_level a b c d t s in
    let again =
      ap (λ (p : WaterLevels × Option Error). p.0.level) (WaterLevels-round_trip r s _ t e) in
    let same : u (some (frac n 256)) ≡ pos n = ground (arith, level, again) in
    rounded-lt n (omega arith) same
