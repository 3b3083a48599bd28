-- ===== src/Tests/Drivers.antt =====
-- Packets of an Acaia scale, and requests to it.
use py_de.Base.{
  ok, err, none, some, ◌≡◌, ◌≤◌, ◌<◌, ◌++◌, refl, true, false, Option, Error, List, [], ◌∷◌, ℕ,
  value_error, attribute_error, length, map,
}
use py_de.PyNum.{Num}
use py_de.Scale.Acaia.{
  event, min_5, on, kg_2, timer_start, timer_stop, timer_reset, set_grams, pack_message, Request,
  send, send_all,
}
use py_de.Scale.Acaia.Incoming.{Readings, process_message, equal, on_type}
use py_de.Scale.Acaia.Framing.{receive, receive_all}
use py_de.Scale.Acaia.Framing.Waiting.{Ends, receive-Stops}
use py_de.Scale.Acaia.Framing.Splitting.{IsMessage, concat}
use py_de.Scale.Acaia.Framing.Jam.{receive-jams}
use py_de.Scale.Acaia.Packing.{pack_message-IsMessage, send-send_all, first}
use py_de.Scale.Acaia.Weights.{Reading, short, battery, weight_message, value, receive_all-weights}

abbrev no_readings : Readings
no_readings = record { last_info = none; weights = [] }

-- No subscriber raises.
abbrev nobody : List Num → Option Error
nobody ws = none

nobody_raises : (ws : List Num) → nobody ws ≡ none
nobody_raises ws = refl

abbrev config_payload : List ℕ
config_payload = 0 ∷ 1 ∷ 1 ∷ 2 ∷ 2 ∷ 5 ∷ 3 ∷ 4 ∷ []

pack_message-IsMessage_example :
    (length config_payload ≤ 254
      → (m : List ℕ) × (pack_message event config_payload ≡ ok m) × IsMessage m)
    × (254 < length config_payload → pack_message event config_payload ≡ err value_error)
pack_message-IsMessage_example = pack_message-IsMessage event config_payload

-- The packet that `_send_config` sends.
config-packed :
    pack_message event config_payload
    ≡ ok (0xef ∷ 0xdd ∷ 12 ∷ 9 ∷ 0 ∷ 1 ∷ 1 ∷ 2 ∷ 2 ∷ 5 ∷ 3 ∷ 4 ∷ 0x15 ∷ 6 ∷ [])
unfolding pack_message
config-packed = refl

abbrev requests : List Request
requests = timer_start ∷ set_grams ∷ timer_stop ∷ []

send-send_all_example :
    (send timer_reset (send_all requests first).0).1 ≡ ok (0xef ∷ 0xdd ∷ 13 ∷ 2 ∷ 1 ∷ 2 ∷ 1 ∷ [])
send-send_all_example = send-send_all requests timer_reset

abbrev heavy : Reading
heavy = record {
  mantissa = 1815;
  unused = 0;
  exponent = 2;
  negative = false;
  unsettled = false;
  extra = short;
  even_sum = 7;
  odd_sum = 9;
}

abbrev light : Reading
light = record {
  mantissa = 70000;
  unused = 0;
  exponent = 1;
  negative = true;
  unsettled = true;
  extra = battery 50 60;
  even_sum = 1;
  odd_sum = 2;
}

-- The first message comes in two packets, and the second of them has the next one too.
abbrev packets : List (List ℕ)
packets =
    (0xef ∷ 0xdd ∷ 12 ∷ [])
    ∷ (8 ∷ 5 ∷ 23 ∷ 7 ∷ 0 ∷ 0 ∷ 2 ∷ 0 ∷ 7 ∷ 9 ∷ 0xef ∷ 0xdd ∷ 12 ∷ 10 ∷ 5 ∷ 112 ∷ 17 ∷ 1 ∷ 0 ∷ 1 ∷ 3
        ∷ 50 ∷ 60 ∷ 1 ∷ 2 ∷ [])
    ∷ []

receive_all-weights_example :
    receive_all (process_message nobody) packets ([], no_readings)
    ≡ some ([], record { last_info = none; weights = map value (heavy ∷ light ∷ []) })
receive_all-weights_example =
    receive_all-weights nobody nobody_raises (heavy ∷ light ∷ []) packets no_readings refl

receive-Stops_example :
    (r : (List ℕ × Readings) × Option Error) × (receive
        (process_message nobody)
        (0xdd ∷ 12 ∷ 0xef ∷ 0xdd ∷ 7 ∷ 1 ∷ [])
        (0xef ∷ [], no_readings)
      ≡ some r)
    × Ends (process_message nobody) r
receive-Stops_example =
    receive-Stops (process_message nobody) (0xdd ∷ 12 ∷ 0xef ∷ 0xdd ∷ 7 ∷ 1 ∷ []) (0xef ∷ [])
      no_readings

-- A status whose unit has no name, 3.
abbrev odd_status : List ℕ
odd_status = 0xef ∷ 0xdd ∷ 8 ∷ 9 ∷ 80 ∷ 3 ∷ 0 ∷ 1 ∷ 0 ∷ 1 ∷ 0 ∷ 1 ∷ 0 ∷ 0 ∷ []

abbrev after_status : Readings
after_status = record {
  last_info = some (record {
    battery = 80;
    units = none;
    unk2 = 0;
    auto_off = some min_5;
    unk4 = 0;
    beep = some on;
    range = kg_2;
  });
  weights = [];
}

status-raises :
    receive (process_message nobody) odd_status ([], no_readings)
    ≡ some ((odd_status, after_status), some attribute_error)
unfolding receive process_message on_type equal
status-raises = refl

receive-jams_example :
    (s : Readings) × (receive_all
        (process_message nobody)
        (weight_message heavy ∷ [])
        (odd_status, after_status)
      ≡ some (odd_status ++ concat (weight_message heavy ∷ []), s))
    × (s.weights ≡ [])
receive-jams_example =
    receive-jams nobody nobody_raises odd_status [] odd_status no_readings after_status
      attribute_error (weight_message heavy ∷ []) status-raises
