-- ===== src/Scale/Estimator/Laws.antt =====
-- An estimator that has the samples it needs raises nothing.
use py_de.Base.{
  ℕ, zero, suc, ◌+◌, ◌-◌, ◌*◌, ◌/◌, ◌%◌, ◌≤◌, ◌<◌, ◌≡◌, ◌≢◌, inl, inr, refl, ap, false, Bool-cases,
  some, List, [], ◌∷◌, Result, ok, arith, length, drop, length-drop, length-take, ◌==◌,
}
use py_de.PyNum.{pos, Num, int}
use py_de.PyNum.Arithmetic.{
  num_add, num_sub, num_div, num_scale, minus, times, sum, insert, sorted, median, head?, less,
}
use py_de.Scale.Estimator.{
  Estimator, current_weight, average_flow, median_weight, median_flow, needed, from_end, slice_from,
  slice, mean, window, estimate_inner,
}

abbrev pub Returns {ℓ} : {A : Type ℓ} → Result A → Type ℓ
Returns {A = A} r = (a : A) × (r ≡ ok a)

-- At least two samples for a flow, and for a median of all but the last.
abbrev pub IsProper : Estimator → Type 0
IsProper current_weight = Unit
IsProper (average_flow n) = 2 ≤ n
IsProper (median_weight n) = 1 ≤ n
IsProper (median_flow n m) = (2 ≤ n) × (2 ≤ m)

abbrev pub IsPositive : Num → Type 0
IsPositive v = (n : ℕ) × (v.num ≡ pos (suc n))

head-drop {ℓ} :
    {A : Type ℓ} (k : ℕ) (xs : List A) → k < length xs → (a : A) × (head? (drop k xs) ≡ some a)
head-drop k [] h = absurd (omega arith)
head-drop zero (x ∷ xs) h = (x, refl)
head-drop (suc k) (x ∷ xs) h = head-drop k xs (omega arith)

from_end-Returns {ℓ} :
    {A : Type ℓ} (k : ℕ) (xs : List A) → 1 ≤ k → k ≤ length xs → Returns (from_end k xs)
unfolding from_end
from_end-Returns k xs h l =
    let (a, e) = head-drop (length xs - k) xs (omega arith) in (a, ground (arith, e))

num_div-Returns : (v w : Num) → IsPositive w → Returns (num_div v w)
unfolding num_div
num_div-Returns v w (n, e) = (record { num = times v.num w.den; den = v.den * suc n }, rw e refl)

mean-Returns : (vs : List Num) → 1 ≤ length vs → Returns (mean vs)
unfolding mean
mean-Returns [] h = absurd (omega arith)
mean-Returns (v ∷ vs) h = num_div-Returns (sum (v ∷ vs)) (int (length (v ∷ vs))) (length vs, refl)

length-insert : (v : Num) (vs : List Num) → length (insert v vs) ≡ suc (length vs)
length-insert v [] = refl
length-insert v (w ∷ ws) = elim (Bool-cases (less w v)) [
  | inl b ↦ rw b (omega (arith, length-insert v ws))
  | inr b ↦ rw b refl
]

pub length-sorted : (vs : List Num) → length (sorted vs) ≡ length vs
unfolding sorted
length-sorted [] = refl
length-sorted (v ∷ vs) = omega (arith, length-insert v (sorted vs), length-sorted vs)

-- What stands at the places that `median` looks at.
two-drop :
    (k : ℕ) (vs : List Num)
    → k + 1 < length vs
    → (v w : Num) × (ws : List Num) × (drop k vs ≡ v ∷ w ∷ ws)
two-drop k [] h = absurd (omega arith)
two-drop zero (v ∷ []) h = absurd (omega arith)
two-drop zero (v ∷ w ∷ ws) h = (v, w, ws, refl)
two-drop (suc k) (v ∷ vs) h = two-drop k vs (omega arith)

one-drop :
    (k : ℕ) (vs : List Num) → k < length vs → (v : Num) × (ws : List Num) × (drop k vs ≡ v ∷ ws)
one-drop k [] h = absurd (omega arith)
one-drop zero (v ∷ vs) h = (v, vs, refl)
one-drop (suc k) (v ∷ vs) h = one-drop k vs (omega arith)

median-Returns : (vs : List Num) → 1 ≤ length vs → Returns (median vs)
unfolding median
median-Returns vs h =
    let n = length vs in
    let e0 : (n == 0) ≡ false = ground arith in
    let same = length-sorted vs in
    elim (Bool-cases (n % 2 == 1)) [
      | inl odd ↦
          let (v, ws, e) = one-drop (n / 2) (sorted vs) (omega arith) in (v, rw (e0, odd, e) refl)
      | inr even ↦
          let even' : n % 2 ≢ 1 = λ p. ground arith in
          let (v, w, ws, e) = two-drop (n / 2 - 1) (sorted vs) (omega arith) in
          let (a, ea) = num_div-Returns (num_add v w) (int 2) (1, refl) in (a, rw (e0, even, e) ea)
    ]

length-slice_from {ℓ} :
    {A : Type ℓ} (k : ℕ) (xs : List A) → 1 ≤ k → k ≤ length xs → length (slice_from k xs) ≡ k
unfolding slice_from
length-slice_from k xs h l = ground (arith, length-drop (length xs - k) xs)

pub length-slice {ℓ} :
    {A : Type ℓ} (k m : ℕ) (xs : List A)
    → 1 ≤ m
    → m ≤ k
    → k ≤ length xs
    → length (slice k m xs) ≡ k - m
unfolding slice
length-slice k m xs h l g =
    let d = length-drop (length xs - k) xs in
    let t = length-take (length xs - m - (length xs - k)) (drop (length xs - k) xs) (omega arith) in
    ground (arith, t)

minus_one : (n : ℕ) → 1 ≤ n → minus n 1 ≡ pos (n - 1)
minus_one n h = ground arith

window-IsPositive : (n : ℕ) (v : Num) → 2 ≤ n → IsPositive v → IsPositive (window n v)
unfolding num_scale
window-IsPositive zero v h p = absurd (omega arith)
window-IsPositive (suc zero) v h p = absurd (omega arith)
window-IsPositive (suc (suc j)) v h (k, e) =
    let m : suc (suc j) - 1 ≡ j + 1 = omega arith in
    (suc k * j + k, rw (e, minus_one (suc (suc j)) (omega arith), m) (ap pos (grind arith)))

-- With as many samples as an estimator needs, and a positive period, it gives an estimate, if it is one
-- of the current weight, of the average flow over at least two samples, of the median weight of at
-- least one, or of the median flow over at least two samples with at least two for each median.
pub estimate_inner-Returns :
    (e : Estimator) (ws ts : List Num) (period : Num)
    → IsProper e
    → IsPositive period
    → needed e ≤ length ws
    → needed e ≤ length ts
    → Returns (estimate_inner e ws ts period)
unfolding estimate_inner
estimate_inner-Returns current_weight ws ts period h p lw lt =
    let (w, ew) = from_end-Returns 1 ws (omega arith) lw in
    let (t, et) = from_end-Returns 1 ts (omega arith) lt in ((w, t), rw (ew, et) refl)
estimate_inner-Returns (average_flow n) ws ts period h p lw lt =
    let (w1, e1) = from_end-Returns 1 ws (omega arith) (omega arith) in
    let (w0, e0) = from_end-Returns n ws (omega arith) lw in
    let (v, ev) =
      num_div-Returns (num_sub w1 w0) (window n period) (window-IsPositive n period h p) in
    let (t, et) = mean-Returns (slice_from n ts) (omega (arith, length-slice_from n ts)) in
    ((v, t), rw (e1, e0, ev, et) refl)
estimate_inner-Returns (median_weight n) ws ts period h p lw lt =
    let (v, ev) = median-Returns (slice_from n ws) (omega (arith, length-slice_from n ws)) in
    let (t, et) = mean-Returns (slice_from n ts) (omega (arith, length-slice_from n ts)) in
    ((v, t), rw (ev, et) refl)
estimate_inner-Returns (median_flow n m) ws ts period h p lw lt =
    let (m0, e0) = median-Returns (slice m 1 ws) (omega (arith, length-slice m 1 ws)) in
    let (m1, e1) =
      median-Returns (slice (n + m) (1 + n) ws) (omega (arith, length-slice (n + m) (1 + n) ws)) in
    let (v, ev) =
      num_div-Returns (num_sub m0 m1) (window n period) (window-IsPositive n period h.0 p) in
    let (t, et) = mean-Returns (slice (n + m) 1 ts) (omega (arith, length-slice (n + m) 1 ts)) in
    ((v, t), rw (e0, e1, ev, et) refl)
