-- ===== src/Scale/Processor/WarmUp.antt =====
-- How many weights it takes until every estimator has its samples.
use mathlib.Core.Path.{subst}
use py_de.Base.{
  ℕ, ◌+◌, ◌≤◌, ◌≡◌, refl, sym, ap, ◌∙◌, Option, none, some, List, [], ◌∷◌, ◌++◌, map, Error, arith,
  length, length-append, All, ltb, if◌then◌else◌, continue, false,
}
use py_de.PyNum.{Num}
use py_de.Scale.Estimator.{needed}
use py_de.Scale.Processor.{
  WeightUpdate, Processor, start, history_available, estimate_all, trimmed, is_gap, record_weight,
  publish, weight_update, Call, weight, call, calls,
}
use py_de.Scale.Processor.Laws.{
  IsHistory, Kept, estimate_all_lem, length-trimmed, weight_update-IsHistory, calls-start-IsHistory,
}

-- None of the weights comes after a gap.
abbrev pub Close : Processor → List WeightUpdate → Type 0
Close s [] = Unit
Close s (u ∷ us) = (is_gap s.history_time u.scale_time ≡ false) × Close (weight_update u s).0 us

publish-history :
    (u : WeightUpdate) (s : Processor) (p : Processor × Option Error)
    → Kept s p.0
    → let s' = (continue p.1 (λ r. (publish u r, none)) p.0).0 in
      (s'.history_time ≡ s.history_time)
      × (s'.history_max ≡ s.history_max)
      × (s'.estimators ≡ s.estimators)
publish-history u s (s', some x) (r, k) = (
  ap (λ (q : Processor). q.history_time) k,
  ap (λ (q : Processor). q.history_max) k,
  ap (λ (q : Processor). q.estimators) k,
)
publish-history u s (s', none) (r, k) = (
  ap (λ (q : Processor). q.history_time) k,
  ap (λ (q : Processor). q.history_max) k,
  ap (λ (q : Processor). q.estimators) k,
)

weight_update-history :
    (u : WeightUpdate) (s : Processor)
    → is_gap s.history_time u.scale_time ≡ false
    → let s' = (weight_update u s).0 in
      (s'.history_time ≡ trimmed s.history_max (s.history_time ++ (u.scale_time ∷ [])))
      × (s'.history_max ≡ s.history_max)
      × (s'.estimators ≡ s.estimators)
unfolding weight_update
weight_update-history u s h = rw h (
    publish-history u (record_weight u s) (estimate_all s.estimators (record_weight u s))
      (estimate_all_lem s.estimators (record_weight u s)))

abbrev min : ℕ → ℕ → ℕ
min m n = if ltb m n then m else n

length-calls :
    (us : List WeightUpdate) (s : Processor)
    → IsHistory s
    → Close s us
    → let s' = calls (map weight us) s in
      (length s'.history_time ≡ min (length s.history_time + length us) s.history_max)
      × (s'.history_max ≡ s.history_max)
      × (s'.estimators ≡ s.estimators)
unfolding calls call
length-calls [] s h c = (let b = h.bounded in ground arith, refl, refl)
length-calls (u ∷ us) s h c =
    let (t, m, e) = weight_update-history u s c.0 in
    let s' = (weight_update u s).0 in
    let (n, m', e') = length-calls us s' (weight_update-IsHistory u s h) c.1 in
    let l = length-trimmed s.history_max (s.history_time ++ (u.scale_time ∷ [])) in
    let a = length-append s.history_time (u.scale_time ∷ []) in
    let lt = ap length t in (ground (arith, n, m, l, a, lt), m' ∙ m, e' ∙ e)

calls-append : (cs ds : List Call) (s : Processor) → calls (cs ++ ds) s ≡ calls ds (calls cs s)
unfolding calls
calls-append [] ds s = refl
calls-append (c ∷ cs) ds s = calls-append cs ds (call c s).0

-- Whatever has happened to a processor before, once as many weights have come without a gap as its
-- history has room for, the history is full and every estimator has the samples that it needs.
pub history_available-calls :
    (v : Num) (cs : List Call) (us : List WeightUpdate)
    → let s = calls cs (start v) in
      Close s us
      → s.history_max ≤ length us
      → let s' = calls (map weight us) s in
        (history_available s' ≡ s.history_max)
        × All (λ e. needed e ≤ history_available s') s'.estimators
unfolding history_available
history_available-calls v cs us c l =
    let s = calls cs (start v) in
    let s' = calls (map weight us) s in
    let (n, m, e) = length-calls us s (calls-start-IsHistory v cs) c in
    let h : IsHistory s' =
      subst IsHistory (calls-append cs (map weight us) (start v))
        (calls-start-IsHistory v (cs ++ map weight us)) in
    let same = h.same in
    let full : (if ltb (length s'.history_time) (length s'.history_weight)
          then length s'.history_time
          else length s'.history_weight)
        ≡ s.history_max =
      ground (arith, n, same) in
    (full, subst (λ k. All (λ e. needed e ≤ k) s'.estimators) (m ∙ sym full) h.room)
