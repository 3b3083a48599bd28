-- ===== src/PyNum/Rounding.antt =====
-- What `round` gives, for every denominator.
use native.Mathlib.Nat.{div-add-mod', mod-lt, mul-div_cancel, mul-mod_left}
use py_de.Base.{ℕ, ◌+◌, ◌*◌, ◌/◌, ◌%◌, ◌≤◌, ◌<◌, ◌≡◌, ◌⊎◌, inl, inr, arith}
use py_de.PyNum.{round_ℕ}

-- Rounded down with at most half a unit left, or up with at least half a unit left.
round_ℕ-cases :
    (n d : ℕ)
    → ((round_ℕ n d ≡ n / d) × (2 * (n % d) ≤ d)) ⊎ ((round_ℕ n d ≡ n / d + 1) × (d ≤ 2 * (n % d)))
unfolding round_ℕ
round_ℕ-cases n d = ground arith

near_of :
    (n d q r m : ℕ)
    → q * d + r ≡ n
    → r < d
    → ((m ≡ q) × (2 * r ≤ d)) ⊎ ((m ≡ q + 1) × (d ≤ 2 * r))
    → (2 * (m * d) ≤ 2 * n + d) × (2 * n ≤ 2 * (m * d) + d)
near_of n d q r m e h (inl c) = let p : m * d ≡ q * d = λ i. c.0 i * d in omega arith
near_of n d q r m e h (inr c) = let p : m * d ≡ (q + 1) * d = λ i. c.0 i * d in omega arith

-- `round` is within half a unit of its argument.
pub round_ℕ_near :
    (n d : ℕ) → 0 < d → (2 * (round_ℕ n d * d) ≤ 2 * n + d) × (2 * n ≤ 2 * (round_ℕ n d * d) + d)
round_ℕ_near n d h =
    near_of n d (n / d) (n % d) (round_ℕ n d) (div-add-mod' n d) (mod-lt n h) (round_ℕ-cases n d)

pub round_ℕ-mul : (n d : ℕ) → 0 < d → round_ℕ (n * d) d ≡ n
unfolding round_ℕ
round_ℕ-mul n d h = ground (arith, mul-div_cancel n h, mul-mod_left n d)
