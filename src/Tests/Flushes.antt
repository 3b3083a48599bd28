-- ===== src/Tests/Flushes.antt =====
-- A flush of five seconds that is set before a DE1 connects, which has three.
use py_de.Base.{◌≡◌, refl, true, false, some, none}
use py_de.PyNum.{Num, int, num_lt}
use py_de.Sequencer.Controls.{validate_stop_at}
use py_de.Sequencer.Rinse.{De1, Rinse, stop_at_time, finish_initialization, stop_at_time_set_async}
use py_de.Sequencer.Rinse.Connecting.{stop_at_time-finish_initialization}

abbrev keep : Num → Num
keep v = v

abbrev flush : Rinse
flush = record { stop_at_time = some (int 5); stop_at_time_api_set = true; de1 = none }

abbrev machine : De1
machine = record { is_ready = false; rinse_control = true; flush_timeout = int 3 }

flush_set :
    stop_at_time_set_async keep
      (some (int 5))
      (record { stop_at_time = none; stop_at_time_api_set = false; de1 = none })
    ≡ (flush, none)
unfolding stop_at_time_set_async validate_stop_at num_lt
flush_set = refl

stop_at_time-finish_initialization_example :
    ((finish_initialization keep machine flush).0.de1 ≡ some (record machine { is_ready = true }))
    × (stop_at_time
          (finish_initialization keep machine flush).0.de1
          (finish_initialization keep machine flush).0.stop_at_time
        ≡ some (int 3))
unfolding validate_stop_at num_lt
stop_at_time-finish_initialization_example =
    stop_at_time-finish_initialization keep (int 3) flush refl
