-- ===== src/CApi/Frame/Tail.antt =====
-- The shot tail: what is written, and that it cannot be read.
use py_de.Base.{
  ℕ, ◌+◌, ◌/◌, ◌%◌, ◌<◌, ◌≡◌, ◌≢◌, refl, Bool, true, false, Option, none, some, List, [], ◌∷◌, ok,
  err, and_then, arith, length, type_error, struct_error, de1_api_value_error, Bool-cases, inl, inr,
  ◌==◌, if◌then◌else◌, replicate,
}
use py_de.PyNum.{pos, Num, int}
use py_de.Struct.{little, pack}
use py_de.Struct.Length.{unpack-length_eq, unpack-length_ne}
use py_de.CApi.Fixed.{validate_u_p_noneok}
use py_de.CApi.Fixed.Laws.{p0-int}
use py_de.CApi.Frame.{
  ShotTail, bool, null, tail_set_ignore_pi, tail_set_max_total_volume, tail_init, tail_format,
  tail_from_wire_bytes, tail_as_wire_bytes,
}

validate_ten_bits : (n : ℕ) → n < 1024 → validate_u_p_noneok (some (int n)) 10 0 ≡ ok (some (int n))
unfolding validate_u_p_noneok
validate_ten_bits n l = ground arith

tail_init_lem :
    (n : ℕ) (pi : Bool)
    → tail_init (some (int n)) (bool pi)
      ≡ ok (record {
        arrival_time = none;
        max_total_volume = some (int (n % 1024));
        ignore_pi = some pi;
      })
unfolding tail_init tail_set_max_total_volume tail_set_ignore_pi
tail_init_lem n pi = rw (validate_ten_bits (n % 1024) (omega arith))

-- A tail for a volume limit of n millilitres is written as the low ten bits of n, the low byte
-- first, with the top bit of the second byte set to ignore the preinfusion, and five zeros.
pub tail_as_wire_bytes-tail_init :
    (n : ℕ) (pi : Bool)
    → and_then (tail_init (some (int n)) (bool pi)) tail_as_wire_bytes
      ≡ ok ((n % 256) ∷ (n / 256 % 4 + (if pi then 128 else 0)) ∷ replicate 5 0)
unfolding tail_as_wire_bytes
tail_as_wire_bytes-tail_init n pi = rw (tail_init_lem n pi, p0-int (n % 1024)) (written pi)
  where
    written :
        (pi : Bool)
        → pack little tail_format ((if pi then pos (n % 1024 + 0x8000) else pos (n % 1024)) ∷ [])
          ≡ ok ((n % 256) ∷ (n / 256 % 4 + (if pi then 128 else 0)) ∷ replicate 5 0)
    written true = unfold pack in ground arith
    written false = unfold pack in ground arith

-- Reading a tail always raises: `TypeError` on seven bytes and `struct.error` on any other number.
pub ShotTail-unreadable :
    (bs : List ℕ) (t : Option Num) (s : ShotTail)
    → tail_from_wire_bytes bs t s
      ≡ (record s { arrival_time = t }, some (if length bs == 7 then type_error else struct_error))
unfolding tail_from_wire_bytes
ShotTail-unreadable bs t s = elim (Bool-cases (length bs == 7)) [
  | inl same ↦
      let n : length bs ≡ 7 = ground arith in
      let (vs, e, k) = unpack-length_eq little tail_format bs n in rw (same, e)
  | inr other ↦
      let n : length bs ≢ 7 = λ p. ground arith in
      rw (other, unpack-length_ne little tail_format bs n)
]

-- `None` for `ignore_pi` is refused, but has replaced the old value.
pub tail_set_ignore_pi-null :
    (s : ShotTail)
    → (tail_set_ignore_pi null s ≡ (record s { ignore_pi = none }, some de1_api_value_error))
      × (tail_as_wire_bytes (tail_set_ignore_pi null s).0 ≡ err de1_api_value_error)
unfolding tail_set_ignore_pi tail_as_wire_bytes
tail_set_ignore_pi-null s = (refl, refl)
