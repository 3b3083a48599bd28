-- ===== src/PyNum/Arithmetic.antt =====
-- The arithmetic of Python's numbers, and `sum` and `statistics.median`, on exact rationals.
use py_de.Base.{
  ℕ, zero, suc, ◌+◌, ◌-◌, ◌*◌, ◌/◌, ◌%◌, Bool, Option, none, some, List, [], ◌∷◌, Result, ok, err,
  zero_division_error, statistics_error, length, drop, ltb, ◌==◌, if◌then◌else◌,
}
use py_de.PyNum.{ℤ, pos, negsuc, Num, int, neg, lt_ℤ}

abbrev pub minus : ℕ → ℕ → ℤ
minus m n = if ltb m n then negsuc (n - m - 1) else pos (m - n)

abbrev pub add_ℤ : ℤ → ℤ → ℤ
add_ℤ (pos m) (pos n) = pos (m + n)
add_ℤ (pos m) (negsuc n) = minus m (n + 1)
add_ℤ (negsuc m) (pos n) = minus n (m + 1)
add_ℤ (negsuc m) (negsuc n) = negsuc (m + n + 1)

abbrev pub negate : ℤ → ℤ
negate (pos n) = neg n
negate (negsuc n) = pos (suc n)

abbrev pub times : ℤ → ℕ → ℤ
times (pos m) k = pos (m * k)
times (negsuc m) k = neg (suc m * k)

abbrev pub mul_ℤ : ℤ → ℤ → ℤ
mul_ℤ z (pos k) = times z k
mul_ℤ z (negsuc k) = negate (times z (suc k))

unfoldable pub num_add : Num → Num → Num
num_add v w = record { num = add_ℤ (times v.num w.den) (times w.num v.den); den = v.den * w.den }

unfoldable pub num_sub : Num → Num → Num
num_sub v w = record {
  num = add_ℤ (times v.num w.den) (negate (times w.num v.den));
  den = v.den * w.den;
}

-- An integer times a number
unfoldable pub num_scale : ℤ → Num → Num
num_scale z v = record { num = mul_ℤ v.num z; den = v.den }

unfoldable pub num_mul : Num → Num → Num
num_mul v w = record { num = mul_ℤ v.num w.num; den = v.den * w.den }

unfoldable pub num_div : Num → Num → Result Num
num_div v w = elim w.num [
  | pos zero ↦ err zero_division_error
  | pos (suc n) ↦ ok (record { num = times v.num w.den; den = v.den * suc n })
  | negsuc n ↦ ok (record { num = negate (times v.num w.den); den = v.den * suc n })
]

unfoldable pub less : Num → Num → Bool
less v w = lt_ℤ (times v.num w.den) (times w.num v.den)

abbrev sum_from : Num → List Num → Num
sum_from t [] = t
sum_from t (v ∷ vs) = sum_from (num_add t v) vs

unfoldable pub sum : List Num → Num
unfolding num_add
sum vs = sum_from (int 0) vs

abbrev pub insert : Num → List Num → List Num
insert v [] = v ∷ []
insert v (w ∷ ws) = let rest = insert v ws in if less w v then w ∷ rest else v ∷ w ∷ ws

unfoldable pub sorted : List Num → List Num
unfolding less
sorted [] = []
sorted (v ∷ vs) = insert v (sorted vs)

abbrev pub head? {ℓ} : {A : Type ℓ} → List A → Option A
head? [] = none
head? (a ∷ l) = some a

abbrev half_sum : List Num → Result Num
half_sum [] = err statistics_error
half_sum (v ∷ []) = err statistics_error
half_sum (v ∷ w ∷ ws) = num_div (num_add v w) (int 2)

abbrev middle : List Num → Result Num
middle [] = err statistics_error
middle (v ∷ vs) = ok v

-- The middle one, or the mean of the two in the middle.
unfoldable pub median : List Num → Result Num
unfolding sorted num_add num_div
median vs =
    let n = length vs in
    if n == 0
    then err statistics_error
    else if n % 2 == 1
    then middle (drop (n / 2) (sorted vs))
    else half_sum (drop (n / 2 - 1) (sorted vs))
