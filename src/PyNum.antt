-- ===== src/PyNum.antt =====
-- Python's numbers, and `round`. An `int` n is n / 1; a `float` is the exact rational that it stands
-- for, with a denominator other than 1 (3.0 may be 48 / 16). NaN and the infinities are left out.
pub mod Rounding
pub mod Arithmetic
use py_de.Base.{
  ℕ, zero, suc, ◌+◌, ◌*◌, ◌/◌, ◌%◌, ◌≡◌, refl, Bool, true, false, ltb, leb, if◌then◌else◌,
}

-- `negsuc n` is -(n + 1).
pub data ℤ : Type 0 where
  pos : ℕ → ℤ
  negsuc : ℕ → ℤ

pub record Num : Type 0 where
  pub num : ℤ
  pub den : ℕ

abbrev pub int : ℕ → Num
int n = record { num = pos n; den = 1 }

-- n / d, for n and d not negative
abbrev pub frac : ℕ → ℕ → Num
frac n d = record { num = pos n; den = d }

abbrev pub neg : ℕ → ℤ
neg zero = pos 0
neg (suc n) = negsuc n

-- The number behind an unsigned code of `struct`, which is never negative.
abbrev pub nat : ℤ → ℕ
nat (pos n) = n
nat (negsuc n) = 0

abbrev pub is_negative : ℤ → Bool
is_negative (pos n) = false
is_negative (negsuc n) = true

-- `round` of n / d: to the nearest integer, and to the even one of two that are equally near.
unfoldable pub round_ℕ : ℕ → ℕ → ℕ
round_ℕ n d =
    let q = n / d in
    let r = n % d in if ltb (2 * r) d then q else if ltb d (2 * r) then q + 1 else q + q % 2

-- `round(v * k / d)`; `round` takes -v to -round(v).
unfoldable pub round_scaled : Num → ℕ → ℕ → ℤ
round_scaled v k d = elim v.num [
  | pos n ↦ pos (round_ℕ (n * k) (v.den * d))
  | negsuc n ↦ neg (round_ℕ (suc n * k) (v.den * d))
]

-- `v < n / d`
unfoldable pub num_lt : Num → ℕ → ℕ → Bool
num_lt v n d = elim v.num [ pos m ↦ ltb (m * d) (n * v.den) | negsuc m ↦ true ]

-- `n / d < v`
unfoldable pub num_gt : Num → ℕ → ℕ → Bool
num_gt v n d = elim v.num [ pos m ↦ ltb (n * v.den) (m * d) | negsuc m ↦ false ]

abbrev pub lt_ℤ : ℤ → ℤ → Bool
lt_ℤ (pos m) (pos n) = ltb m n
lt_ℤ (pos m) (negsuc n) = false
lt_ℤ (negsuc m) (pos n) = true
lt_ℤ (negsuc m) (negsuc n) = ltb n m

halves_to_even : round_ℕ 5 2 ≡ 2
unfolding round_ℕ
halves_to_even = refl
