-- ===== src/CApi/Fixed.antt =====
-- The fixed-point and F8_1_7 numbers at the head of c_api.py: range checks, encoders and decoders.
pub mod Laws
use py_de.Base.{
  ℕ, zero, suc, ◌+◌, ◌-◌, ◌*◌, ◌/◌, ◌%◌, ◌^◌, ◌≡◌, refl, Bool, true, false, ◌||◌, Option, none,
  some, Result, ok, err, de1_api_value_error, type_error, ltb, leb, ◌==◌, if◌then◌else◌,
}
use py_de.PyNum.{ℤ, pos, negsuc, Num, frac, neg, is_negative, round_ℕ, round_scaled, num_lt, num_gt}

unfoldable pub validate_f8_1_7 : Num → Result Num
unfolding num_lt num_gt
validate_f8_1_7 v = if num_lt v 0 1 || num_gt v 255 2 then err de1_api_value_error else ok v

-- `None` passes every check of a setter.
abbrev pub none_ok : (Num → Result Num) → Option Num → Result (Option Num)
none_ok check none = ok none
none_ok check (some v) = elim (check v) [ ok w ↦ ok (some w) | err e ↦ err e ]

unfoldable pub validate_f8_1_7_noneok : Option Num → Result (Option Num)
unfolding validate_f8_1_7
validate_f8_1_7_noneok = none_ok validate_f8_1_7

-- The value, in tenths: the exponent is 1 or 0.1.
unfoldable pub f8_1_7_decode : ℕ → Num
f8_1_7_decode v =
    let mantissa = v % 0x80 in frac (mantissa * (if v / 0x80 % 2 == 1 then 10 else 1)) 10

unfoldable pub f8_1_7 : Num → Result ℤ
unfolding num_lt round_ℕ
f8_1_7 v = elim v.num [
  | negsuc n ↦ err de1_api_value_error
  | pos n ↦
      if num_lt v 1275 100
      then ok (pos (round_ℕ (n * 10) v.den))
      else if num_lt v 1275 10
      then ok (pos (round_ℕ n v.den + 0x80))
      else err de1_api_value_error
]

-- `None < 0` raises.
abbrev pub f8_1_7_of : Option Num → Result ℤ
f8_1_7_of none = err type_error
f8_1_7_of (some v) = f8_1_7 v

-- The checks divide by 2 ** p.
unfoldable pub validate_s_p : Num → ℕ → ℕ → Result Num
unfolding round_scaled round_ℕ
validate_s_p v s p = elim (round_scaled v 1 (2 ^ p)) [
  | pos n ↦ if ltb n (2 ^ (s - 1)) then ok v else err de1_api_value_error
  | negsuc n ↦ if ltb n (2 ^ (s - 1)) then ok v else err de1_api_value_error
]

unfoldable pub validate_u_p : Num → ℕ → ℕ → Result Num
unfolding round_scaled round_ℕ
validate_u_p v u p = elim (round_scaled v 1 (2 ^ p)) [
  | pos n ↦ if ltb n (2 ^ u) then ok v else err de1_api_value_error
  | negsuc n ↦ err de1_api_value_error
]

unfoldable pub validate_u_p_noneok : Option Num → ℕ → ℕ → Result (Option Num)
unfolding validate_u_p
validate_u_p_noneok v u p = none_ok (λ w. validate_u_p w u p) v

-- `int(round((0 if val is None else val) * k))`
abbrev pub fixed : ℕ → Option Num → ℤ
fixed k none = pos 0
fixed k (some v) = round_scaled v k 1

unfoldable pub u : Option Num → ℤ
unfolding round_scaled round_ℕ
u = fixed 1

unfoldable pub p0 : Option Num → ℤ
unfolding round_scaled round_ℕ
p0 = fixed 1

unfoldable pub p1 : Option Num → ℤ
unfolding round_scaled round_ℕ
p1 = fixed 2

unfoldable pub p4 : Option Num → ℤ
unfolding round_scaled round_ℕ
p4 = fixed 16

unfoldable pub p8 : Option Num → ℤ
unfolding round_scaled round_ℕ
p8 = fixed 256

unfoldable pub p12 : Option Num → ℤ
unfolding round_scaled round_ℕ
p12 = fixed 4096

unfoldable pub p16 : Option Num → ℤ
unfolding round_scaled round_ℕ
p16 = fixed 65536

-- The value of a fixed-point field of a packet.
abbrev pub over : ℤ → ℕ → Num
over z d = record { num = z; den = d }
