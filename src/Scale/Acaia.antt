-- ===== src/Scale/Acaia.antt =====
-- The messages of src/pyDE1/scale/acaia.py: what is sent to an Acaia scale, and the numbers that
-- the requests carry. A message is a list of bytes.
pub mod Incoming
pub mod Framing
pub mod Packing
pub mod Weights
use py_de.Base.{
  ℕ, ◌+◌, ◌%◌, Bool, true, false, Option, none, some, List, [], ◌∷◌, ◌++◌, Result, ok, err,
  value_error, index_error, and_then, length, ltb, ◌==◌, if◌then◌else◌,
}

-- `MessageType`, in the order of the source
pub data MessageType : Type 0 where
  system tare info status identify event timer request_02 request_06 config : MessageType

abbrev pub message_code : MessageType → ℕ
message_code system = 0
message_code tare = 4
message_code info = 7
message_code status = 8
message_code identify = 11
message_code event = 12
message_code timer = 13
message_code request_02 = 2
message_code request_06 = 6
message_code config = 10

-- `TimerRequestType`
pub data TimerRequest : Type 0 where
  start reset stop : TimerRequest

abbrev pub timer_payload : TimerRequest → List ℕ
timer_payload start = 0 ∷ []
timer_payload reset = 1 ∷ []
timer_payload stop = 2 ∷ []

-- `ConfigType`
pub data ConfigType : Type 0 where
  units auto_off touchpad unknown capacity beep : ConfigType

abbrev pub config_code : ConfigType → ℕ
config_code units = 0
config_code auto_off = 1
config_code touchpad = 2
config_code unknown = 3
config_code capacity = 4
config_code beep = 5

pub data ConfigUnits : Type 0 where
  oz g : ConfigUnits

pub data ConfigAutoOff : Type 0 where
  no_auto_off min_5 min_10 min_20 min_30 min_60 : ConfigAutoOff

pub data ConfigRange : Type 0 where
  kg_1 kg_2 : ConfigRange

pub data ConfigBeep : Type 0 where
  off on : ConfigBeep

abbrev pub units_code : ConfigUnits → ℕ
units_code oz = 5
units_code g = 2

abbrev pub auto_off_code : ConfigAutoOff → ℕ
auto_off_code no_auto_off = 0
auto_off_code min_5 = 1
auto_off_code min_10 = 2
auto_off_code min_20 = 3
auto_off_code min_30 = 4
auto_off_code min_60 = 5

abbrev pub range_code : ConfigRange → ℕ
range_code kg_1 = 0
range_code kg_2 = 1

abbrev pub beep_code : ConfigBeep → ℕ
beep_code off = 0
beep_code on = 1

-- `E(n)` of an enumeration: the first member with the value, `none` where `ValueError` is raised.
abbrev pub member {ℓ} : {A : Type ℓ} → (A → ℕ) → List A → ℕ → Option A
member value [] n = none
member value (a ∷ l) n = let rest = member value l n in if value a == n then some a else rest

-- The sums over the bytes at even and at odd places; the next byte is at an even place first.
abbrev evens : List ℕ → ℕ
evens [] = 0
evens (b ∷ []) = b
evens (b ∷ c ∷ bs) = b + evens bs

abbrev odds : List ℕ → ℕ
odds [] = 0
odds (b ∷ []) = 0
odds (b ∷ c ∷ bs) = c + odds bs

abbrev sums : List ℕ → List ℕ
sums bs = evens bs % 256 ∷ odds bs % 256 ∷ []

-- `checksum`
unfoldable pub checksum : List ℕ → Bool → Result (List ℕ)
checksum bs true = ok (sums bs)
checksum [] false = err index_error
checksum (b ∷ bs) false = if length (b ∷ bs) == b then ok (sums (b ∷ bs)) else err value_error

abbrev pub header : List ℕ
header = 0xef ∷ 0xdd ∷ []

unfoldable pub pack_message : MessageType → List ℕ → Result (List ℕ)
unfolding checksum
pack_message t payload =
    let numbered = (1 + length payload) ∷ payload in
    if ltb 255 (1 + length payload)
    then err value_error
    else and_then (checksum numbered false) λ sum. ok (header ++ message_code t ∷ (numbered ++ sum))

unfoldable pub pack_request : MessageType → ℕ → List ℕ → Result (List ℕ)
unfolding checksum
pack_request t number payload =
    let numbered = number ∷ payload in
    if ltb 2 (length payload)
    then err value_error
    else and_then (checksum numbered true) λ sum. ok (header ++ message_code t ∷ (numbered ++ sum))

-- `pack_config`, with the value of the setting's member
unfoldable pub pack_config : ConfigType → ℕ → ℕ → Result (List ℕ)
unfolding pack_request
pack_config c number value = pack_request config number (config_code c ∷ value ∷ [])

-- `FixedMessage.TARE`
abbrev tare_message : List ℕ
tare_message = 0xef ∷ 0xdd ∷ 4 ∷ 0 ∷ 0 ∷ 0 ∷ []

-- `_setting_seq_number` and `_timer_seq_number`
pub record Numbers : Type 0 where
  pub setting : ℕ
  pub timer : ℕ

-- The methods that send one packet.
pub data Request : Type 0 where
  timer_start timer_stop timer_reset set_grams set_ounces tare_internal : Request
  set_beep : Bool → Request

abbrev numbered_setting : ConfigType → ℕ → Numbers → Numbers × Result (List ℕ)
numbered_setting c value n =
    (record n { setting = (n.setting + 1) % 256 }, pack_config c n.setting value)

abbrev numbered_timer : TimerRequest → Numbers → Numbers × Result (List ℕ)
numbered_timer r n =
    (record n { timer = (n.timer + 1) % 256 }, pack_request timer n.timer (timer_payload r))

-- The packet that goes to the scale, with the numbers that are next.
unfoldable pub send : Request → Numbers → Numbers × Result (List ℕ)
unfolding pack_config pack_request
send timer_start = numbered_timer start
send timer_stop = numbered_timer stop
send timer_reset = numbered_timer reset
send set_grams = numbered_setting units (units_code g)
send set_ounces = numbered_setting units (units_code oz)
send (set_beep b) = numbered_setting beep (beep_code (if b then on else off))
send tare_internal = λ n. (n, ok tare_message)

unfoldable pub send_all : List Request → Numbers → Numbers × List (Result (List ℕ))
unfolding send
send_all [] n = (n, [])
send_all (r ∷ rs) n =
    let (n', packet) = send r n in let (n'', packets) = send_all rs n' in (n'', packet ∷ packets)
