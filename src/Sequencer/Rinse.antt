-- ===== src/Sequencer/Rinse.antt =====
-- The time of a flush, which the sequencer or the DE1 keeps: HotWaterRinseControl in
-- src/pyDE1/flow_sequencer_impl.py, and the end of _initialize_after_connection in
-- src/pyDE1/de1/de1.py. What the register FLUSH_TIMEOUT holds after a write is the argument `stored`.
pub mod Connecting
use py_de.Base.{
  ℕ, Bool, true, false, not, ◌&&◌, ◌||◌, Option, none, some, Error, Result, ok, err, Method, assign,
  ◌>>◌, ◌>>=◌, if◌then◌else◌,
}
use mathlib.Core.Option
use py_de.PyNum.{Num, int}
use py_de.PyNum.Arithmetic.{less}
use py_de.Sequencer.Controls.{validate_stop_at, is_zero}

-- `flush_timeout` is the decoded data of the register.
pub record De1 : Type 0 where
  pub is_ready : Bool
  pub rinse_control : Bool
  pub flush_timeout : Num

pub record Rinse : Type 0 where
  pub stop_at_time : Option Num
  pub stop_at_time_api_set : Bool
  pub de1 : Option De1

abbrev pub manages : De1 → Bool
manages d = d.is_ready && d.rinse_control

-- The getter
unfoldable pub stop_at_time : Option De1 → Option Num → Option Num
stop_at_time none v = v
stop_at_time (some d) v = if manages d then some d.flush_timeout else v

abbrev pub num_ne : Num → Num → Bool
num_ne v w = less v w || less w v

abbrev pub differ : Option Num → Option Num → Bool
differ none none = false
differ (some v) (some w) = num_ne v w
differ _ _ = true

abbrev pub or_zero : Option Num → Num
or_zero none = int 0
or_zero (some v) = v

-- None for 0
abbrev pub none_for_zero : Num → Option Num
none_for_zero v = if is_zero v then none else some v

abbrev pub set_ready : De1 → De1
set_ready d = record d { is_ready = true }

module _ (stored : Num → Num) where
  -- `write_and_read_back_mmr0x80`, with the read-back done: nothing is written where the value is
  -- there already.
  abbrev pub write : Num → De1 → De1
  write v d = if num_ne v d.flush_timeout then record d { flush_timeout = stored v } else d

  abbrev pub send : Option Num → De1 → De1
  send v d = if manages d then write (or_zero v) d else d

  unfoldable pub stop_at_time_set_async : Option Num → Method Rinse
  unfolding validate_stop_at
  stop_at_time_set_async v = do
    w ← validate_stop_at v
    assign (λ s. record s {
      stop_at_time = w;
      stop_at_time_api_set = true;
      de1 = Option.map (send v) s.de1;
    })

  abbrev pub update_from : De1 → Method Rinse
  unfolding stop_at_time_set_async
  update_from d s =
      let v = none_for_zero d.flush_timeout in
      if s.stop_at_time_api_set && differ v s.stop_at_time
      then stop_at_time_set_async s.stop_at_time s
      else (record s { stop_at_time = v; stop_at_time_api_set = false }, none)

  unfoldable pub on_de1_nearly_ready : Method Rinse
  unfolding update_from
  on_de1_nearly_ready s = elim s.de1 [
    | none ↦ (s, none)
    | some d ↦ if d.rinse_control then update_from d s else (s, none)
  ]

  -- The end of `_initialize_after_connection`, on a DE1 whose registers have been read and its feature
  -- flags written: `on_de1_nearly_ready`, then `_notify_ready`.
  unfoldable pub finish_initialization : De1 → Method Rinse
  unfolding on_de1_nearly_ready
  finish_initialization d = do
    assign (λ s. record s { de1 = some d })
    on_de1_nearly_ready
    assign (λ s. record s { de1 = Option.map set_ready s.de1 })
