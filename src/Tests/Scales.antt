-- ===== src/Tests/Scales.antt =====
-- The processor of a scale's weights, on concrete weights.
use py_de.Base.{ℕ, ◌≤◌, ◌≡◌, refl, List, [], ◌∷◌, map, ok, All, arith, length}
use py_de.PyNum.{int, frac, num_gt}
use py_de.PyNum.Arithmetic.{num_sub, median, num_div, num_scale, sum}
use py_de.Scale.Estimator.{average_flow, needed, estimate_inner, from_end, mean, slice_from, slice}
use py_de.Scale.Estimator.Laws.{Returns, estimate_inner-Returns}
use py_de.Scale.Processor.{
  WeightUpdate, Processor, start, reset, is_gap, too_long, trimmed, weight_update,
  history_available, estimate, Call, weight, tare_seen, call, calls,
}
use py_de.Scale.Processor.Laws.{IsHistory, calls-start-IsHistory}
use py_de.Scale.Processor.WarmUp.{Close, history_available-calls}

-- n tenths of a second after the first, a gram for each
abbrev nth : ℕ → WeightUpdate
nth n = record { arrival_time = frac n 10; scale_time = frac n 10; weight = int n }

abbrev tared : List Call
tared = weight (nth 0) ∷ tare_seen ∷ []

calls-start-IsHistory_example : IsHistory (
    calls
      (weight (nth 0) ∷ weight (nth 1) ∷ weight (nth 20) ∷ weight (nth 21) ∷ [])
      (start (frac 1 10)))
calls-start-IsHistory_example =
    calls-start-IsHistory (frac 1 10)
      (weight (nth 0) ∷ weight (nth 1) ∷ weight (nth 20) ∷ weight (nth 21) ∷ [])

abbrev after_tare : Processor
after_tare = calls (tare_seen ∷ []) (start (frac 1 10))

abbrev sixteen : List WeightUpdate
sixteen =
    nth 0
    ∷ nth 1
    ∷ nth 2
    ∷ nth 3
    ∷ nth 4
    ∷ nth 5
    ∷ nth 6
    ∷ nth 7
    ∷ nth 8
    ∷ nth 9
    ∷ nth 10
    ∷ nth 11
    ∷ nth 12
    ∷ nth 13
    ∷ nth 14
    ∷ nth 15
    ∷ []

sixteen-Close : Close after_tare sixteen
unfolding calls call reset start is_gap too_long num_sub num_gt weight_update estimate trimmed
    estimate_inner from_end num_div num_scale mean slice_from slice median sum
sixteen-Close = (
  refl,
  (
    refl,
    (
      refl,
      (
        refl,
        (
          refl,
          (
            refl,
            (refl, (refl, (refl, (refl, (refl, (refl, (refl, (refl, (refl, (refl, tt)))))))))),
          ),
        ),
      ),
    ),
  ),
)

after_tare-history_max : after_tare.history_max ≤ length sixteen
unfolding calls call reset start
after_tare-history_max = omega arith

history_available-calls_example :
    let s' = calls (map weight sixteen) after_tare in
    (history_available s' ≡ after_tare.history_max)
    × All (λ e. needed e ≤ history_available s') s'.estimators
history_available-calls_example =
    history_available-calls (frac 1 10) (tare_seen ∷ []) sixteen sixteen-Close
      after_tare-history_max

estimate_inner-Returns_example :
    Returns (
      estimate_inner (average_flow 2) (int 1 ∷ int 3 ∷ []) (frac 1 10 ∷ frac 2 10 ∷ []) (frac 1 10))
estimate_inner-Returns_example =
    estimate_inner-Returns (average_flow 2) (int 1 ∷ int 3 ∷ []) (frac 1 10 ∷ frac 2 10 ∷ [])
      (frac 1 10) (omega arith) (0, refl) (omega arith) (omega arith)

-- Of four, the mean of the middle two.
median_of_four : median (int 4 ∷ int 1 ∷ int 9 ∷ int 2 ∷ []) ≡ ok (frac 6 2)
unfolding median
median_of_four = refl
