-- ===== src/Scale/Processor/Updates.antt =====
-- What the estimators leave in the attributes of a processor.
use py_de.Base.{
  ℕ, zero, suc, ◌-◌, ◌≤◌, ◌≡◌, inl, inr, refl, ap, ◌∙◌, true, false, Bool-cases, Option, none, some,
  List, [], ◌∷◌, ◌++◌, Result, ok, err, Error, arith, length, drop, drop-append, length-append, All,
  ltb, leb, if◌then◌else◌, continue, ok-injective,
}
use py_de.PyNum.{Num, int}
use py_de.Scale.Estimator.{
  Estimator, current_weight, average_flow, median_weight, median_flow, needed, from_end,
  estimate_inner,
}
use py_de.Scale.Estimator.Laws.{Returns, IsProper, IsPositive, estimate_inner-Returns}
use py_de.Scale.Processor.{
  WeightUpdate, Estimates, Processor, start, reset, history_available, put, estimate, estimate_all,
  trimmed, is_gap, record_weight, publish, weight_update, Call, weight, tare_seen, scale_wired,
  period, call, calls,
}
use py_de.Scale.Processor.Laws.{trimmed-drop, length-trimmed, estimate_all_lem, Kept}

-- The attribute of an estimator, and its time.
abbrev pub attribute : Estimator → Estimates → Num × Num
attribute current_weight r = (r.current_weight, r.current_weight_time)
attribute (average_flow n) r = (r.average_flow, r.average_flow_time)
attribute (median_weight n) r = (r.median_weight, r.median_weight_time)
attribute (median_flow n m) r = (r.median_flow, r.median_flow_time)

-- What an estimator gives of a history: zeros, as long as it has fewer samples than it needs.
unfoldable pub outcome : Estimator → (ws ts : List Num) → Num → Result (Num × Num)
outcome e ws ts v =
    if ltb (length ts) (needed e) then ok (int 0, int 0) else estimate_inner e ws ts v

abbrev pub four : List Estimator
four = current_weight ∷ average_flow 11 ∷ median_weight 11 ∷ median_flow 11 5 ∷ []

call-estimators : (c : Call) (s : Processor) → s.estimators ≡ four → (call c s).0.estimators ≡ four
unfolding call weight_update reset
call-estimators (weight u) s h = elim (Bool-cases (is_gap s.history_time u.scale_time)) [
  | inl gap ↦ rw gap h
  | inr close ↦ rw close (
      go (estimate_all s.estimators (record_weight u s))
        (estimate_all_lem s.estimators (record_weight u s)))
]
  where
    go :
        (p : Processor × Option Error)
        → Kept (record_weight u s) p.0
        → (continue p.1 (λ r. (publish u r, none)) p.0).0.estimators ≡ four
    go (s', some x) (r, k) = ap (λ (q : Processor). q.estimators) k ∙ h
    go (s', none) (r, k) = ap (λ (q : Processor). q.estimators) k ∙ h
call-estimators tare_seen s h = h
call-estimators scale_wired s h = h
call-estimators (period v) s h = h

pub calls-estimators :
    (cs : List Call) (s : Processor) → s.estimators ≡ four → (calls cs s).estimators ≡ four
unfolding calls
calls-estimators [] s h = h
calls-estimators (c ∷ cs) s h = calls-estimators cs (call c s).0 (call-estimators c s h)

pub start-estimators : (v : Num) → (start v).estimators ≡ four
unfolding start
start-estimators v = refl

estimate-outcome :
    (e : Estimator) (s : Processor) (v : Num × Num)
    → length s.history_time ≡ length s.history_weight
    → outcome e s.history_weight s.history_time s.estimated_period ≡ ok v
    → estimate e s ≡ (record s { estimates = put e v s.estimates }, none)
unfolding outcome estimate history_available
estimate-outcome e s v h o = elim (Bool-cases (leb (needed e) (length s.history_time))) [
  | inl enough ↦
      let l : ltb (length s.history_time) (needed e) ≡ false = ground arith in
      let o' = rw l at o in
      let a : leb (needed e) (
            if ltb (length s.history_time) (length s.history_weight)
            then length s.history_time
            else length s.history_weight)
          ≡ true =
        ground arith in
      rw (a, o') refl
  | inr few ↦
      let l : ltb (length s.history_time) (needed e) ≡ true = ground arith in
      let o' : (int 0, int 0) ≡ v = ok-injective (rw l at o) in
      let a : leb (needed e) (
            if ltb (length s.history_time) (length s.history_weight)
            then length s.history_time
            else length s.history_weight)
          ≡ false =
        ground arith in
      rw (a, ← o') refl
]

outcome-Returns :
    (e : Estimator) (ws ts : List Num) (v : Num)
    → IsProper e
    → IsPositive v
    → length ts ≡ length ws
    → Returns (outcome e ws ts v)
unfolding outcome
outcome-Returns e ws ts v h p n = elim (Bool-cases (ltb (length ts) (needed e))) [
  | inl few ↦ ((int 0, int 0), rw few refl)
  | inr enough ↦
      let (a, ea) = estimate_inner-Returns e ws ts v h p (ground arith) (ground arith) in
      (a, rw enough ea)
]

abbrev put_all : (Estimator → Num × Num) → List Estimator → Estimates → Estimates
put_all f [] r = r
put_all f (e ∷ es) r = put_all f es (put e (f e) r)

estimate_all-outcome :
    (es : List Estimator) (s : Processor) (f : Estimator → Num × Num)
    → length s.history_time ≡ length s.history_weight
    → All (λ e. outcome e s.history_weight s.history_time s.estimated_period ≡ ok (f e)) es
    → (r : Estimates) × (estimate_all es s ≡ (record s { estimates = r }, none))
      × (r ≡ put_all f es s.estimates)
estimate_all-outcome [] s f h o = (s.estimates, refl, refl)
estimate_all-outcome (e ∷ es) s f h o =
    let s' = record s { estimates = put e (f e) s.estimates } in
    let (r, k, l) = estimate_all-outcome es s' f h o.1 in
    (r, rw (estimate-outcome e s (f e) h o.0) k, l)

module _ {ℓ} {A : Type ℓ} where
  drop-short : (n : ℕ) (xs ys : List A) → n ≤ length xs → drop n (xs ++ ys) ≡ drop n xs ++ ys
  drop-short zero xs ys h = refl
  drop-short (suc n) [] ys h = absurd (omega arith)
  drop-short (suc n) (x ∷ xs) ys h = drop-short n xs ys (omega arith)

  from_end-append : (xs : List A) (a : A) → from_end 1 (xs ++ (a ∷ [])) ≡ ok a
  unfolding from_end
  from_end-append xs a =
      let n = length-append xs (a ∷ []) in
      let e : length (xs ++ (a ∷ [])) - 1 ≡ length xs = omega (arith, n) in
      let l : ltb (length (xs ++ (a ∷ []))) 1 ≡ false = ground (arith, n) in
      rw (l, e) (rw (drop-append (length xs) xs (a ∷ []) refl) refl)

  from_end-trimmed :
      (n : ℕ) (xs : List A) (a : A) → 1 ≤ n → from_end 1 (trimmed n (xs ++ (a ∷ []))) ≡ ok a
  from_end-trimmed n xs a h =
      let l = length-append xs (a ∷ []) in
      let k = length (xs ++ (a ∷ [])) - n in
      rw (trimmed-drop n (xs ++ (a ∷ [])), drop-short k xs (a ∷ []) (omega (arith, l)))
        (from_end-append (drop k xs) a)

abbrev value : Result (Num × Num) → Num × Num
value (ok v) = v
value (err e) = (int 0, int 0)

Returns-value : (r : Result (Num × Num)) → Returns r → r ≡ ok (value r)
Returns-value (ok v) h = refl
Returns-value (err e) h = absurd (let (a, k) = h in cc)

four-IsProper : All IsProper four
four-IsProper = (tt, (omega arith, (omega arith, ((omega arith, omega arith), tt))))

abbrev Outcomes : Processor → Estimates → Type 0
Outcomes s r =
    All (λ e. outcome e s.history_weight s.history_time s.estimated_period ≡ ok (attribute e r))
      four

pub all_four :
    (s : Processor)
    → length s.history_time ≡ length s.history_weight
    → IsPositive s.estimated_period
    → (r : Estimates) × (estimate_all four s ≡ (record s { estimates = r }, none)) × Outcomes s r
all_four s h p =
    let f : Estimator → Num × Num =
      λ e. value (outcome e s.history_weight s.history_time s.estimated_period) in
    let o = λ (e : Estimator) (q : IsProper e).
      Returns-value (outcome e s.history_weight s.history_time s.estimated_period)
        (outcome-Returns e s.history_weight s.history_time s.estimated_period q p h) in
    let q = four-IsProper in
    let all : All (λ e. outcome e s.history_weight s.history_time s.estimated_period ≡ ok (f e))
        four =
      (
        o current_weight q.0,
        (
          o (average_flow 11) q.1.0,
          (o (median_weight 11) q.1.1.0, (o (median_flow 11 5) q.1.1.1.0, tt)),
        ),
      ) in
    let (r, k, l) = estimate_all-outcome four s f h all in
    (
      put_all f four s.estimates,
      k ∙ ap (λ (x : Estimates). (record s { estimates = x }, none)) l,
      all,
    )

pub current-outcome :
    (u : WeightUpdate) (s : Processor)
    → 1 ≤ s.history_max
    → let s1 = record_weight u s in
      outcome current_weight s1.history_weight s1.history_time s1.estimated_period
      ≡ ok (u.weight, u.scale_time)
unfolding outcome estimate_inner
current-outcome u s h =
    let n = length-trimmed s.history_max (s.history_time ++ (u.scale_time ∷ [])) in
    let a = length-append s.history_time (u.scale_time ∷ []) in
    let enough : ltb (length (trimmed s.history_max (s.history_time ++ (u.scale_time ∷ [])))) 1
        ≡ false =
      ground (arith, n, a) in
    rw enough (
      rw
        (
          from_end-trimmed s.history_max s.history_weight u.weight h,
          from_end-trimmed s.history_max s.history_time u.scale_time h,
        )
        refl)
