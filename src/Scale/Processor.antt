-- ===== src/Scale/Processor.antt =====
-- ScaleProcessor of src/pyDE1/scale/processor.py: the history of a scale's weights, and what is
-- published of it. A subscriber holds the lock throughout, and is one step here.
pub mod Laws
pub mod Updates
pub mod Publishing
pub mod WarmUp
use py_de.Base.{
  ℕ, ◌+◌, ◌-◌, Bool, true, false, Option, none, some, List, [], ◌∷◌, ◌++◌, Result, Error, ok, err,
  Method, assign, raise, ◌>>◌, ◌>>=◌, length, ltb, leb, if◌then◌else◌,
}
use py_de.PyNum.{Num, int, num_gt}
use py_de.PyNum.Arithmetic.{num_sub}
use py_de.Scale.Estimator.{
  Estimator, current_weight, average_flow, median_weight, median_flow, needed, estimate_inner,
}

-- ScaleWeightUpdate
pub record WeightUpdate : Type 0 where
  pub arrival_time : Num
  pub scale_time : Num
  pub weight : Num

pub record Estimates : Type 0 where
  pub current_weight : Num
  pub current_weight_time : Num
  pub average_flow : Num
  pub average_flow_time : Num
  pub median_weight : Num
  pub median_weight_time : Num
  pub median_flow : Num
  pub median_flow_time : Num

-- WeightAndFlowUpdate
pub record WeightAndFlowUpdate : Type 0 where
  pub arrival_time : Num
  pub scale_time : Num
  pub estimates : Estimates

-- With the period of the scale, and with what has been published, the last of it first.
pub record Processor : Type 0 where
  pub history_max : ℕ
  pub history_time : List Num
  pub history_weight : List Num
  pub estimated_period : Num
  pub estimators : List Estimator
  pub estimates : Estimates
  pub published : List WeightAndFlowUpdate

abbrev zeros : Estimates
zeros = record {
  current_weight = int 0;
  current_weight_time = int 0;
  average_flow = int 0;
  average_flow_time = int 0;
  median_weight = int 0;
  median_weight_time = int 0;
  median_flow = int 0;
  median_flow_time = int 0;
}

abbrev max : ℕ → ℕ → ℕ
max m n = if ltb m n then n else m

-- Constructing an estimator sets `_needed`, which extends `_history_max`.
unfoldable pub add_estimator : Estimator → Processor → Processor
add_estimator e s = record s {
  history_max = max (needed e) s.history_max;
  estimators = s.estimators ++ (e ∷ []);
}

-- `_singleton_init`
unfoldable pub start : Num → Processor
unfolding add_estimator
start period = add_estimator (median_flow 11 5) (
    add_estimator (median_weight 11) (
      add_estimator (average_flow 11) (
        add_estimator current_weight (record {
          history_max = 10;
          history_time = [];
          history_weight = [];
          estimated_period = period;
          estimators = [];
          estimates = zeros;
          published = [];
        }))))

unfoldable pub reset : Processor → Processor
reset s = record s { history_time = []; history_weight = [] }

unfoldable pub history_available : Processor → ℕ
history_available s =
    let w = length s.history_weight in let t = length s.history_time in if ltb t w then t else w

-- `setattr` on the attribute of the estimator and on its time
abbrev pub put : Estimator → Num × Num → Estimates → Estimates
put current_weight (v, t) r = record r { current_weight = v; current_weight_time = t }
put (average_flow n) (v, t) r = record r { average_flow = v; average_flow_time = t }
put (median_weight n) (v, t) r = record r { median_weight = v; median_weight_time = t }
put (median_flow n m) (v, t) r = record r { median_flow = v; median_flow_time = t }

-- `estimate`
unfoldable pub estimate : Estimator → Method Processor
unfolding history_available
estimate e s =
    (do
      v ←
          if leb (needed e) (history_available s)
          then estimate_inner e s.history_weight s.history_time s.estimated_period
          else ok (int 0, int 0)
      assign (λ r. record r { estimates = put e v r.estimates }))
      s

abbrev pub estimate_all : List Estimator → Method Processor
estimate_all [] s = (s, none)
estimate_all (e ∷ es) s = (estimate e >> estimate_all es) s

-- `while len(xs) > history_max: xs.pop(0)`
unfoldable pub trimmed {ℓ} : {A : Type ℓ} → ℕ → List A → List A
trimmed n [] = []
trimmed n (x ∷ xs) = let rest = trimmed n xs in if ltb n (length (x ∷ xs)) then rest else x ∷ xs

abbrev pub last? {ℓ} : {A : Type ℓ} → List A → Option A
last? [] = none
last? (x ∷ []) = some x
last? (x ∷ y ∷ r) = last? (y ∷ r)

-- `dt > TOO_LONG`, more than 0.8 s
unfoldable pub too_long : Num → Num → Bool
too_long t0 t1 = num_gt (num_sub t1 t0) 4 5

-- There is no gap after an empty history.
unfoldable pub is_gap : List Num → Num → Bool
is_gap ts t = elim (last? ts) [ none ↦ false | some t0 ↦ too_long t0 t ]

abbrev pub record_weight : WeightUpdate → Processor → Processor
record_weight u s = record s {
  history_time = trimmed s.history_max (s.history_time ++ (u.scale_time ∷ []));
  history_weight = trimmed s.history_max (s.history_weight ++ (u.weight ∷ []));
}

abbrev pub publish : WeightUpdate → Processor → Processor
publish u s = record s {
  published =
      (record { arrival_time = u.arrival_time; scale_time = u.scale_time; estimates = s.estimates })
      ∷ s.published;
}

-- `_weight_update_subscriber`
unfoldable pub weight_update : WeightUpdate → Method Processor
unfolding reset
weight_update u s =
    if is_gap s.history_time u.scale_time
    then (reset s, none)
    else (do assign (record_weight u); estimate_all s.estimators; assign (publish u)) s

-- What happens to a processor: a weight, a tare or a new scale, and a period that the scale has
-- estimated anew.
pub data Call : Type 0 where
  weight : WeightUpdate → Call
  tare_seen scale_wired : Call
  period : Num → Call

unfoldable pub call : Call → Method Processor
unfolding weight_update reset
call (weight u) = weight_update u
call tare_seen = assign reset
call scale_wired = assign reset
call (period v) = assign (λ s. record s { estimated_period = v })

unfoldable pub calls : List Call → Processor → Processor
calls [] s = s
calls (c ∷ cs) s = calls cs (call c s).0
