-- ===== src/CApi/Fixed/Laws.antt =====
-- What the encoders keep of a value, and which values the checks let through.
use py_de.Base.{
  ℕ, suc, ◌+◌, ◌*◌, ◌/◌, ◌%◌, ◌<◌, ◌≤◌, ◌≡◌, ◌⊎◌, ◌↔◌, inl, inr, refl, ap, true, false, some, arith,
  ok, err, de1_api_value_error, ltb, ◌==◌, if◌then◌else◌,
}
use py_de.PyNum.{ℤ, pos, negsuc, Num, int, frac, nat, neg, num_lt, round_ℕ, round_scaled}
use py_de.PyNum.Rounding.{round_ℕ_near, round_ℕ-mul}
use py_de.CApi.Fixed.{validate_f8_1_7, f8_1_7_decode, f8_1_7, validate_u_p, fixed, over, u, p0, p4}

round_one : (n d : ℕ) → 0 < d → round_ℕ (n * d) (d * 1) ≡ n
round_one n d h = let e : d * 1 ≡ d = omega arith in rw e (round_ℕ-mul n d h)

-- A value on the grid of a fixed-point format is encoded as it is.
pub fixed-over : (z : ℤ) (d : ℕ) → 0 < d → fixed d (some (over z d)) ≡ z
unfolding round_scaled
fixed-over (pos n) d h = ap pos (round_one n d h)
fixed-over (negsuc n) d h = ap neg (round_one (suc n) d h)

pub p0-over : (z : ℤ) → p0 (some (over z 1)) ≡ z
unfolding p0
p0-over z = fixed-over z 1 (omega arith)

pub u-int : (n : ℕ) → u (some (int n)) ≡ pos n
unfolding u
u-int n = fixed-over (pos n) 1 (omega arith)

pub p0-int : (n : ℕ) → p0 (some (int n)) ≡ pos n
unfolding p0
p0-int n = fixed-over (pos n) 1 (omega arith)

-- A value n / d that is written as m units of 1 / k is at most half a unit away from m / k.
pub fixed_near :
    (k n d m : ℕ)
    → 0 < d
    → fixed k (some (frac n d)) ≡ pos m
    → (2 * (m * d) ≤ 2 * (n * k) + d) × (2 * (n * k) ≤ 2 * (m * d) + d)
unfolding round_scaled
fixed_near k n d m h e =
    let one : d * 1 ≡ d = omega arith in
    let same : round_ℕ (n * k) d ≡ m = rw one at (ap nat e) in rw same at (round_ℕ_near (n * k) d h)

-- the tenths of an encoded F8_1_7 value
abbrev pub tenths : ℕ → ℕ
tenths w = w % 0x80 * (if w / 0x80 % 2 == 1 then 10 else 1)

abbrev pub step : ℕ → ℕ
step w = if ltb w 0x80 then 1 else 10

f8_1_7-cases :
    (n d : ℕ) (c : ℤ)
    → f8_1_7 (frac n d) ≡ ok c
    → ((n * 100 < 1275 * d) × (c ≡ pos (round_ℕ (n * 10) d)))
      ⊎ ((1275 * d ≤ n * 100) × (n * 10 < 1275 * d) × (c ≡ pos (round_ℕ n d + 0x80)))
unfolding num_lt f8_1_7
f8_1_7-cases n d c e = ground arith

lt_of_mul : (m k d : ℕ) → m * d < k * d → m < k
lt_of_mul m k d h = grind arith

tenths_low : (m : ℕ) → m < 128 → (tenths m ≡ m) × (step m ≡ 1)
tenths_low m h = ground arith

tenths_high : (m : ℕ) → m < 128 → (tenths (m + 128) ≡ m * 10) × (step (m + 128) ≡ 10)
tenths_high m h = ground arith

-- An encoded value is one byte, and decodes to the value within half a step of the byte's scale,
-- which is a tenth where the top bit is clear and one where it is set.
pub f8_1_7_accuracy :
    (n d : ℕ) (c : ℤ)
    → 0 < d
    → f8_1_7 (frac n d) ≡ ok c
    → (w : ℕ) × (c ≡ pos w)
      × (w < 256)
      × (f8_1_7_decode w ≡ frac (tenths w) 10)
      × (2 * (tenths w * d) ≤ 2 * (10 * n) + step w * d)
      × (2 * (10 * n) ≤ 2 * (tenths w * d) + step w * d)
unfolding f8_1_7_decode
f8_1_7_accuracy n d c h e = elim (f8_1_7-cases n d c e) [
  | inl low ↦
      let m = round_ℕ (n * 10) d in
      let (above, below) = round_ℕ_near (n * 10) d h in
      let fits : m < 128 = lt_of_mul m 128 d (omega arith) in
      let (t, s) = tenths_low m fits in
      (m, low.1, omega arith, refl, rw (t, s) (omega arith), rw (t, s) (omega arith))
  | inr high ↦
      let m = round_ℕ n d in
      let (above, below) = round_ℕ_near n d h in
      let fits : m < 128 = lt_of_mul m 128 d (omega arith) in
      let (t, s) = tenths_high m fits in
      (m + 128, high.2, omega arith, refl, rw (t, s) (omega arith), rw (t, s) (omega arith))
]

-- A value is refused by the encoder exactly if it is negative, or 127.5 or more.
pub f8_1_7_domain :
    (v : Num)
    → (f8_1_7 v ≡ err de1_api_value_error) ↔ ((num_lt v 0 1 ≡ true) ⊎ (num_lt v 255 2 ≡ false))
unfolding f8_1_7 num_lt
f8_1_7_domain v = (λ e. ground arith, λ e. ground arith)

-- the byte that the encoder picks for what `w` stands for
abbrev pub canonical : ℕ → ℕ
canonical w = if ltb (tenths w) 128 then tenths w else w

-- What any byte decodes to is encoded again, to a byte that decodes to the same value.
pub f8_1_7_decode_stable :
    (w : ℕ)
    → w < 256
    → (f8_1_7 (f8_1_7_decode w) ≡ ok (pos (canonical w)))
      × (canonical w < 256)
      × (f8_1_7_decode (canonical w) ≡ f8_1_7_decode w)
unfolding f8_1_7 f8_1_7_decode num_lt round_ℕ
f8_1_7_decode_stable w h = (ground arith, ground arith, ground arith)

-- The check of the setter lets 127.5 through, which the encoder refuses.
pub validate_f8_1_7_lax :
    (n d : ℕ)
    → 2 * n ≡ 255 * d
    → (validate_f8_1_7 (frac n d) ≡ ok (frac n d)) × (f8_1_7 (frac n d) ≡ err de1_api_value_error)
unfolding validate_f8_1_7 f8_1_7
validate_f8_1_7_lax n d e = ground arith

-- The check of a U8P4 setter lets through whole numbers that take more than eight bits when encoded.
pub validate_u_p_lax :
    (n : ℕ)
    → 16 ≤ n
    → n ≤ 4000
    → (validate_u_p (frac n 1) 8 4 ≡ ok (frac n 1))
      × (p4 (some (frac n 1)) ≡ pos (n * 16))
      × (256 ≤ n * 16)
unfolding validate_u_p p4
validate_u_p_lax n h k = ground arith
