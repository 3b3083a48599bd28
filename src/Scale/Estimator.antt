-- ===== src/Scale/Estimator.antt =====
-- src/pyDE1/scale/estimator.py: what the four estimators compute of a history of weights.
pub mod Laws
use py_de.Base.{
  ℕ, zero, suc, ◌+◌, ◌-◌, Option, none, some, List, [], ◌∷◌, Result, ok, err, index_error, and_then,
  length, take, drop, ltb, ◌==◌, if◌then◌else◌,
}
use py_de.PyNum.{ℤ, pos, Num, int}
use py_de.PyNum.Arithmetic.{num_sub, num_div, num_scale, minus, sum, median, head?}

-- With the samples, and for the flow of medians the samples of each median.
pub data Estimator : Type 0 where
  current_weight : Estimator
  average_flow median_weight : ℕ → Estimator
  median_flow : ℕ → ℕ → Estimator

-- `_needed`
abbrev pub needed : Estimator → ℕ
needed current_weight = 1
needed (average_flow n) = n
needed (median_weight n) = n
needed (median_flow n m) = n + m

abbrev or_index_error {ℓ} : {A : Type ℓ} → Option A → Result A
or_index_error none = err index_error
or_index_error (some a) = ok a

-- `xs[-k]`; `xs[-0]` is the first.
unfoldable pub from_end {ℓ} : {A : Type ℓ} → ℕ → List A → Result A
from_end k xs =
    if k == 0
    then or_index_error (head? xs)
    else if ltb (length xs) k
    then err index_error
    else or_index_error (head? (drop (length xs - k) xs))

-- `xs[-k:]`
unfoldable pub slice_from {ℓ} : {A : Type ℓ} → ℕ → List A → List A
slice_from k xs = if k == 0 then xs else drop (length xs - k) xs

abbrev bound : ℕ → ℕ → ℕ
bound n k = if k == 0 then 0 else n - k

-- `xs[-k:-m]`
unfoldable pub slice {ℓ} : {A : Type ℓ} → ℕ → ℕ → List A → List A
slice k m xs = let start = bound (length xs) k in take (bound (length xs) m - start) (drop start xs)

unfoldable pub mean : List Num → Result Num
mean vs = num_div (sum vs) (int (length vs))

-- `(samples - 1) * estimated_period`
abbrev pub window : ℕ → Num → Num
window n period = num_scale (minus n 1) period

-- `_estimate_inner` of each class: the estimate and its time, of the weights and their times.
unfoldable pub estimate_inner : Estimator → (ws ts : List Num) → Num → Result (Num × Num)
estimate_inner current_weight ws ts period =
    and_then (from_end 1 ws) λ v. and_then (from_end 1 ts) λ t. ok (v, t)
estimate_inner (average_flow n) ws ts period = and_then (from_end 1 ws) λ w1.
    and_then (from_end n ws) λ w0.
      and_then (num_div (num_sub w1 w0) (window n period))
        λ v. and_then (mean (slice_from n ts)) λ t. ok (v, t)
estimate_inner (median_weight n) ws ts period =
    and_then (median (slice_from n ws)) λ v. and_then (mean (slice_from n ts)) λ t. ok (v, t)
estimate_inner (median_flow n m) ws ts period = and_then (median (slice m 1 ws)) λ m0.
    and_then (median (slice (n + m) (1 + n) ws)) λ m1.
      and_then (num_div (num_sub m0 m1) (window n period))
        λ v. and_then (mean (slice (n + m) 1 ts)) λ t. ok (v, t)
