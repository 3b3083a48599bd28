-- ===== src/Scale/Processor/Laws.antt =====
-- The history of a processor, after any sequence of weights, tares and changes of the scale.
use mathlib.Core.Path.{subst}
use py_de.Base.{
  ℕ, zero, suc, ◌-◌, ◌≤◌, ◌≡◌, inl, inr, refl, sym, ap, ◌∙◌, false, Bool-cases, Option, none, some,
  List, [], ◌∷◌, ◌++◌, ok, Error, Result-cases, arith, length, drop, length-append, length-drop,
  All, ltb, leb, if◌then◌else◌, continue,
}
use py_de.PyNum.{Num, int, num_gt}
use py_de.PyNum.Arithmetic.{num_sub}
use py_de.Scale.Estimator.{Estimator, needed, estimate_inner}
use py_de.Scale.Processor.{
  WeightUpdate, Estimates, Processor, start, reset, history_available, put, estimate, estimate_all,
  trimmed, too_long, is_gap, record_weight, publish, weight_update, Call, weight, tare_seen,
  scale_wired, period, call, calls,
}

module _ {ℓ} {A : Type ℓ} where
  -- The loop keeps the last n.
  pub trimmed-drop : (n : ℕ) (xs : List A) → trimmed n xs ≡ drop (length xs - n) xs
  unfolding trimmed
  trimmed-drop n [] = ground arith
  trimmed-drop n (x ∷ xs) = elim (Bool-cases (ltb n (length (x ∷ xs)))) [
    | inl more ↦
        let e : length (x ∷ xs) - n ≡ suc (length xs - n) = ground arith in
        rw (more, e) (trimmed-drop n xs)
    | inr enough ↦ let e : length (x ∷ xs) - n ≡ 0 = ground arith in rw (enough, e) refl
  ]

  pub length-trimmed : (n : ℕ) (xs : List A) → length (trimmed n xs) ≡ length xs - (length xs - n)
  length-trimmed n xs = rw trimmed-drop (length-drop (length xs - n) xs)

-- No time is more than 0.8 s later than the one before it.
abbrev pub Steady : List Num → Type 0
Steady [] = Unit
Steady (t ∷ []) = Unit
Steady (t ∷ u ∷ ts) = (num_gt (num_sub u t) 4 5 ≡ false) × Steady (u ∷ ts)

Steady-append :
    (ts : List Num) (t : Num) → Steady ts → is_gap ts t ≡ false → Steady (ts ++ (t ∷ []))
unfolding is_gap too_long
Steady-append [] t h g = tt
Steady-append (t0 ∷ []) t h g = (g, tt)
Steady-append (t0 ∷ t1 ∷ ts) t h g = (h.0, Steady-append (t1 ∷ ts) t h.1 g)

Steady-drop : (n : ℕ) (ts : List Num) → Steady ts → Steady (drop n ts)
Steady-drop zero ts h = h
Steady-drop (suc n) [] h = tt
Steady-drop (suc n) (t ∷ []) h = Steady-drop n [] tt
Steady-drop (suc n) (t0 ∷ t1 ∷ ts) h = Steady-drop n (t1 ∷ ts) h.1

-- As many times as weights, no more than fit, room for every estimator's samples, and no gap.
pub record IsHistory (s : Processor) : Type 0 where
  pub same : length s.history_time ≡ length s.history_weight
  pub bounded : length s.history_time ≤ s.history_max
  pub room : All (λ e. needed e ≤ s.history_max) s.estimators
  pub steady : Steady s.history_time

estimate_lem :
    (e : Estimator) (s : Processor)
    → (r : Estimates) × ((estimate e s).0 ≡ record s { estimates = r })
unfolding estimate
estimate_lem e s =
    let r =
      if leb (needed e) (history_available s)
      then estimate_inner e s.history_weight s.history_time s.estimated_period
      else ok (int 0, int 0) in
    elim (Result-cases r) [
      | inl (v, ev) ↦ (put e v s.estimates, rw ev refl)
      | inr (x, ex) ↦ (s.estimates, rw ex refl)
    ]

abbrev pub Kept : Processor → Processor → Type 0
Kept s s' = (r : Estimates) × (s' ≡ record s { estimates = r })

Kept-then :
    (s : Processor) (m : Processor → Processor × Option Error)
    → ((s' : Processor) → Kept s' (m s').0)
    → (p : Processor × Option Error) → Kept s p.0
    → Kept s (continue p.1 m p.0).0
Kept-then s m k (s', some x) h = h
Kept-then s m k (s', none) (r, h) =
    let (r', h') = k s' in (r', h' ∙ ap (λ (q : Processor). record q { estimates = r' }) h)

pub estimate_all_lem : (es : List Estimator) (s : Processor) → Kept s (estimate_all es s).0
estimate_all_lem [] s = (s.estimates, refl)
estimate_all_lem (e ∷ es) s =
    Kept-then s (estimate_all es) (estimate_all_lem es) (estimate e s) (estimate_lem e s)

pub recorded-IsHistory :
    (u : WeightUpdate) (s : Processor)
    → IsHistory s
    → is_gap s.history_time u.scale_time ≡ false
    → IsHistory (record_weight u s)
recorded-IsHistory u s h g =
    let ts = s.history_time ++ (u.scale_time ∷ []) in
    let ws = s.history_weight ++ (u.weight ∷ []) in
    let nt = length-trimmed s.history_max ts in
    let nw = length-trimmed s.history_max ws in
    let at = length-append s.history_time (u.scale_time ∷ []) in
    let aw = length-append s.history_weight (u.weight ∷ []) in
    let same = h.same in
    record {
      same = omega (arith, nt, nw, at, aw, same);
      bounded = omega (arith, nt);
      room = h.room;
      steady = rw trimmed-drop (
          Steady-drop (length ts - s.history_max) ts
            (Steady-append s.history_time u.scale_time h.steady g));
    }

published-IsHistory :
    (u : WeightUpdate) (s : Processor) (p : Processor × Option Error)
    → IsHistory s
    → Kept s p.0
    → IsHistory (continue p.1 (λ r. (publish u r, none)) p.0).0
published-IsHistory u s (s', some x) h (r, k) =
    subst IsHistory (sym k)
      (record { same = h.same; bounded = h.bounded; room = h.room; steady = h.steady })
published-IsHistory u s (s', none) h (r, k) =
    subst (λ q. IsHistory (publish u q)) (sym k)
      (record { same = h.same; bounded = h.bounded; room = h.room; steady = h.steady })

pub weight_update-IsHistory :
    (u : WeightUpdate) (s : Processor) → IsHistory s → IsHistory (weight_update u s).0
unfolding weight_update reset
weight_update-IsHistory u s h = elim (Bool-cases (is_gap s.history_time u.scale_time)) [
  | inl gap ↦ rw gap (record { same = refl; bounded = omega arith; room = h.room; steady = tt })
  | inr close ↦ rw close (
      published-IsHistory u (record_weight u s) (estimate_all s.estimators (record_weight u s))
        (recorded-IsHistory u s h close) (estimate_all_lem s.estimators (record_weight u s)))
]

pub call-IsHistory : (c : Call) (s : Processor) → IsHistory s → IsHistory (call c s).0
unfolding call reset
call-IsHistory (weight u) s h = weight_update-IsHistory u s h
call-IsHistory tare_seen s h = record {
  same = refl;
  bounded = omega arith;
  room = h.room;
  steady = tt;
}
call-IsHistory scale_wired s h = record {
  same = refl;
  bounded = omega arith;
  room = h.room;
  steady = tt;
}
call-IsHistory (period v) s h = record {
  same = h.same;
  bounded = h.bounded;
  room = h.room;
  steady = h.steady;
}

calls-IsHistory : (cs : List Call) (s : Processor) → IsHistory s → IsHistory (calls cs s)
unfolding calls
calls-IsHistory [] s h = h
calls-IsHistory (c ∷ cs) s h = calls-IsHistory cs (call c s).0 (call-IsHistory c s h)

start-IsHistory : (v : Num) → IsHistory (start v)
unfolding start
start-IsHistory v = record {
  same = refl;
  bounded = omega arith;
  room = (omega arith, (omega arith, (omega arith, (omega arith, tt))));
  steady = tt;
}

-- Whatever happens to a processor, and whatever its estimators raise, it has as many times as
-- weights in its history and no more than fit, has room for the samples that each estimator needs,
-- and no weight in it is more than 0.8 seconds later than the one before it.
pub calls-start-IsHistory : (v : Num) (cs : List Call) → IsHistory (calls cs (start v))
calls-start-IsHistory v cs = calls-IsHistory cs (start v) (start-IsHistory v)
