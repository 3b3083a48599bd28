-- ===== src/Scale/Acaia/Framing.antt =====
-- How the bytes of the notifications are cut into messages: `_process_data_under_lock` of
-- src/pyDE1/scale/acaia.py. The lock makes each packet one step.
pub mod Waiting
pub mod Splitting
pub mod Steady
pub mod Jam
use py_de.Base.{
  ℕ, zero, suc, ◌+◌, ◌<◌, Bool, true, false, ◌&&◌, Option, none, some, List, [], ◌∷◌, ◌++◌, Error,
  Method, Result, ok, err, length, take, drop, ltb, leb, ◌==◌, if◌then◌else◌,
}
use py_de.Scale.Acaia.Incoming.{at}
use mathlib.Core.Option

-- `startswith`
abbrev pub starts_with : List ℕ → List ℕ → Bool
starts_with [] bs = true
starts_with (p ∷ ps) [] = false
starts_with (p ∷ ps) (b ∷ bs) = (b == p) && starts_with ps bs

-- `find(HEADER)`, `none` for -1
unfoldable pub find_header : List ℕ → Option ℕ
find_header [] = none
find_header (b ∷ bs) =
    let later = Option.map suc (find_header bs) in
    if starts_with (0xef ∷ 0xdd ∷ []) (b ∷ bs) then some 0 else later

-- What one round of the loop makes of the buffer.
pub data Round : Type 0 where
  waiting : Round
  message : List ℕ → List ℕ → Round
  discarded : List ℕ → Round

abbrev whole_message : List ℕ → Result ℕ → Round
whole_message b (err e) = waiting
whole_message b (ok len_byte) =
    if leb (len_byte + 5) (length b)
    then message (take (len_byte + 5) b) (drop (len_byte + 5) b)
    else waiting

abbrev at_header : List ℕ → Option ℕ → Round
at_header b none = discarded []
at_header b (some zero) = whole_message b (at b 3)
at_header b (some (suc i)) = discarded (drop (suc i) b)

unfoldable pub round : List ℕ → Round
unfolding find_header
round b =
    if ltb (length b) 5
    then waiting
    else if starts_with (0xef ∷ 0xdd ∷ 0x20 ∷ []) b
    then message (take 6 b) (drop 6 b)
    else at_header b (find_header b)

module _ {ℓ} {S : Type ℓ} (process : List ℕ → Method S) where
  -- The message leaves the buffer when it has been processed, not where that raises.
  abbrev pub processed :
      List ℕ
      → (List ℕ × S → Option ((List ℕ × S) × Option Error))
      → List ℕ
      → S × Option Error
      → Option ((List ℕ × S) × Option Error)
  processed b continue rest (s, none) = continue (rest, s)
  processed b continue rest (s, some e) = some ((b, s), some e)

  abbrev pub after_round :
      (List ℕ × S → Option ((List ℕ × S) × Option Error))
      → List ℕ × S
      → Round
      → Option ((List ℕ × S) × Option Error)
  after_round continue (b, s) waiting = some ((b, s), none)
  after_round continue (b, s) (message m rest) = processed b continue rest (process m s)
  after_round continue (b, s) (discarded rest) = continue (rest, s)

  -- The loop, on at most that many rounds; `none` means that they did not do.
  unfoldable pub drain : ℕ → List ℕ × S → Option ((List ℕ × S) × Option Error)
  unfolding round
  drain zero c = none
  drain (suc n) (b, s) = after_round (λ c. drain n c) (b, s) (round b)

  -- `_notification_handler`: each round that goes on shortens the buffer.
  unfoldable pub receive : List ℕ → List ℕ × S → Option ((List ℕ × S) × Option Error)
  unfolding drain
  receive packet (b, s) = drain (suc (length (b ++ packet))) (b ++ packet, s)

  abbrev received :
      (List ℕ × S → Option (List ℕ × S))
      → Option ((List ℕ × S) × Option Error)
      → Option (List ℕ × S)
  received continue none = none
  received continue (some (c, e)) = continue c

  -- The packets one after the other; an exception ends the callback that raises it only.
  unfoldable pub receive_all : List (List ℕ) → List ℕ × S → Option (List ℕ × S)
  unfolding receive
  receive_all [] c = some c
  receive_all (p ∷ ps) c = received (λ c'. receive_all ps c') (receive p c)
