-- ===== src/Scale/Acaia/Incoming.antt =====
-- What is made of a message from the scale: `_process_message` of src/pyDE1/scale/acaia.py, without
-- its log.
use py_de.Base.{
  ℕ, zero, suc, ◌+◌, ◌-◌, ◌*◌, ◌^◌, bit_and, Bool, true, false, ◌&&◌, ◌||◌, Option, none, some,
  List, [], ◌∷◌, ◌++◌, Error, Result, ok, err, index_error, attribute_error, Method, assign, raise,
  ◌>>◌, ◌>>=◌, and_then, length, take, drop, ltb, ◌==◌, if◌then◌else◌,
}
use py_de.PyNum.{Num, neg, pos}
use py_de.Scale.Acaia.{
  MessageType, message_code, system, tare, info, status, identify, event, timer, request_02,
  request_06, config, ConfigUnits, ConfigAutoOff, ConfigRange, ConfigBeep, units_code,
  auto_off_code, range_code, beep_code, member, oz, g, no_auto_off, min_5, min_10, min_20, min_30,
  min_60, kg_1, kg_2, off, on,
}

-- `message[i]`
abbrev pub at : List ℕ → ℕ → Result ℕ
at [] i = err index_error
at (x ∷ xs) zero = ok x
at (x ∷ xs) (suc i) = at xs i

unfoldable pub equal : List ℕ → List ℕ → Bool
equal [] [] = true
equal (x ∷ xs) (y ∷ ys) = (x == y) && equal xs ys
equal _ _ = false

unfoldable pub message_type? : ℕ → Option MessageType
message_type? = member message_code (
    system ∷ tare ∷ info ∷ status ∷ identify ∷ event ∷ timer ∷ request_02 ∷ request_06 ∷ config
    ∷ [])

-- `EventType`
pub data EventType : Type 0 where
  weight event_timer key ack reply_06 : EventType

abbrev event_code : EventType → ℕ
event_code weight = 5
event_code event_timer = 7
event_code key = 8
event_code ack = 11
event_code reply_06 = 6

unfoldable pub event_type? : ℕ → Option EventType
event_type? = member event_code (weight ∷ event_timer ∷ key ∷ ack ∷ reply_06 ∷ [])

unfoldable pub config_units? : ℕ → Option ConfigUnits
config_units? = member units_code (oz ∷ g ∷ [])

unfoldable pub config_auto_off? : ℕ → Option ConfigAutoOff
config_auto_off? =
    member auto_off_code (no_auto_off ∷ min_5 ∷ min_10 ∷ min_20 ∷ min_30 ∷ min_60 ∷ [])

unfoldable pub config_range? : ℕ → Option ConfigRange
config_range? = member range_code (kg_1 ∷ kg_2 ∷ [])

unfoldable pub config_beep? : ℕ → Option ConfigBeep
config_beep? = member beep_code (off ∷ on ∷ [])

-- `Info`; a member that is none is the string "?".
pub record Info : Type 0 where
  pub battery : ℕ
  pub units : Option ConfigUnits
  pub unk2 : ℕ
  pub auto_off : Option ConfigAutoOff
  pub unk4 : ℕ
  pub beep : Option ConfigBeep
  pub range : ConfigRange

-- `_info`, and the weights that have been published, in order.
pub record Readings : Type 0 where
  pub last_info : Option Info
  pub weights : List Num

-- The bytes that are read for the log only, by the length byte.
abbrev log_indices : ℕ → List ℕ
log_indices n =
    if n == 0x0a
    then 11 ∷ 12 ∷ 13 ∷ []
    else if n == 0x0c
    then 11 ∷ 12 ∷ 13 ∷ 14 ∷ []
    else if n == 0x0e
    then 11 ∷ 12 ∷ 13 ∷ 14 ∷ 15 ∷ 16 ∷ []
    else []

abbrev read_all : List ℕ → List ℕ → Result (Unit {0})
read_all message [] = ok tt
read_all message (i ∷ is) = and_then (at message i) λ _. read_all message is

-- `sign * mantissa / 10 ** exponent`, with the sign in bit 1 of the flags
abbrev pub weight_of : ℕ → ℕ → ℕ → Num
weight_of mantissa exponent flags = record {
  num = if bit_and flags 2 == 0 then pos mantissa else neg mantissa;
  den = 10 ^ exponent;
}

-- The weight in an event, and what its log reads of it.
unfoldable pub read_weight : List ℕ → Result Num
read_weight message = and_then (at message 3) λ length_byte. and_then (at message 5) λ low.
    and_then (at message 6) λ middle. and_then (at message 7) λ high.
      and_then (at message 9) λ exponent. and_then (at message 10) λ flags.
        and_then (read_all message (log_indices length_byte))
          λ _. ok (weight_of (low + middle * 256 + high * 65536) exponent flags)

-- What a subscriber of `event_weight_update` raises at a weight, given all the weights that have been
-- published with it; `publish` lets it pass.
module _ (subscribers : List Num → Option Error) where
  abbrev publish_weight : Num → Method Readings
  publish_weight w s = let ws = s.weights ++ (w ∷ []) in (record s { weights = ws }, subscribers ws)

  abbrev pub on_event : List ℕ → Option EventType → Method Readings
  on_event message (some weight) = read_weight message >>= publish_weight
  on_event message _ = assign (λ s. s)

-- `ConfigRange(range)`: a range that is "?" raises, which is caught.
abbrev pub save_info : Option ConfigRange → (ConfigRange → Info) → Method Readings
save_info none i = assign (λ s. s)
save_info (some r) i = assign (λ s. record s { last_info = some (i r) })

-- `.name`, which the string "?" has not
abbrev pub name {ℓ} : {A : Type ℓ} → Option A → Method Readings
name none = raise attribute_error
name (some a) = assign (λ s. s)

abbrev names :
    Option ConfigUnits
    → Option ConfigAutoOff
    → Option ConfigBeep
    → Option ConfigRange
    → Method Readings
names u a b r = (do name u; name a; name b; name r)

abbrev pub on_status : List ℕ → Method Readings
on_status payload = do
  battery ← at payload 0
  u ← at payload 1
  unk2 ← at payload 2
  a ← at payload 3
  unk4 ← at payload 4
  b ← at payload 5
  r ← at payload 7
  save_info (config_range? r) λ range. record {
    battery = battery;
    units = config_units? u;
    unk2 = unk2;
    auto_off = config_auto_off? a;
    unk4 = unk4;
    beep = config_beep? b;
    range = range;
  }
  names (config_units? u) (config_auto_off? a) (config_beep? b) (config_range? r)

-- `message[4:-2]` of a message of at least six bytes
abbrev pub payload_of : List ℕ → List ℕ
payload_of message = take (length message - 6) (drop 4 message)

-- The three of `NONSTANDARD_MESSAGES`
abbrev pub is_nonstandard : List ℕ → Bool
is_nonstandard message =
    equal message (0xef ∷ 0xdd ∷ 0x20 ∷ 0x08 ∷ 0x08 ∷ 0 ∷ [])
    || equal message (0xef ∷ 0xdd ∷ 0x20 ∷ 0x0a ∷ 0x0a ∷ 0 ∷ [])
    || equal message (0xef ∷ 0xdd ∷ 0x20 ∷ 0x0c ∷ 0x0c ∷ 0 ∷ [])

module _ (subscribers : List Num → Option Error) where
  unfoldable pub on_type : List ℕ → ℕ → Option MessageType → Method Readings
  unfolding read_weight event_type? config_units? config_auto_off? config_range? config_beep?
  on_type message code (some event) = on_event subscribers message (event_type? code)
  on_type message code (some status) = on_status (payload_of message)
  on_type message code _ = assign (λ s. s)

  -- `_process_message`; one of less than seven bytes is dropped, whether it has a length byte or not.
  unfoldable pub process_message : List ℕ → Method Readings
  unfolding on_type equal message_type?
  process_message message =
      if is_nonstandard message
      then assign (λ s. s)
      else if ltb (length message) 7
      then assign (λ s. s)
      else do t ← at message 2; c ← at message 4; on_type message c (message_type? t)
