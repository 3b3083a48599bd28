-- ===== src/Scale/Processor/Publishing.antt =====
-- What a weight does to a processor, and what is published of it.
use py_de.Base.{ℕ, ◌-◌, [], ◌∷◌, ◌++◌, length, drop, ◌≡◌, Bool, false, none, List, ok, All}
use py_de.PyNum.{Num, num_gt}
use py_de.PyNum.Arithmetic.{num_sub}
use py_de.Scale.Estimator.{Estimator, current_weight}
use py_de.Scale.Processor.{WeightUpdate, Estimates, Processor, start, weight_update, Call, calls}
use py_de.Scale.Processor.Updates.{attribute, outcome, four}

-- The samples that are kept with a new one.
abbrev kept : ℕ → List Num → Num → List Num
kept n xs x = let all = xs ++ (x ∷ []) in drop (length all - n) all

abbrev pub recorded : WeightUpdate → Processor → Processor
recorded u s = record s {
  history_time = kept s.history_max s.history_time u.scale_time;
  history_weight = kept s.history_max s.history_weight u.weight;
}

-- One update is published, of the history `s1`.
abbrev pub Publishes : WeightUpdate → Processor → Processor → Type 0
Publishes u s s1 =
    (r : Estimates) × (weight_update u s ≡ (
      record s1 {
        estimates = r;
        published =
            (record { arrival_time = u.arrival_time; scale_time = u.scale_time; estimates = r })
            ∷ s1.published;
      },
      none,
    ))
    × (attribute current_weight r ≡ (u.weight, u.scale_time))
    × All
        (λ e. outcome e s1.history_weight s1.history_time s1.estimated_period ≡ ok (attribute e r))
        four

-- The last of the times is more than 0.8 s before `t`.
abbrev pub late : List Num → Num → Bool
late [] t = false
late (t0 ∷ []) t = num_gt (num_sub t t0) 4 5
late (t0 ∷ t1 ∷ ts) t = late (t1 ∷ ts) t

module _ (v : Num) (cs : List Call) (u : WeightUpdate) where
  abbrev now : Processor
  now = calls cs (start v)
