-- ===== src/Scale/Acaia/Packing.antt =====
-- What the packed messages of src/pyDE1/scale/acaia.py look like, and the numbers of the requests.
use py_de.Base.{
  ℕ, suc, ◌+◌, ◌%◌, ◌≤◌, ◌<◌, ◌≡◌, inl, inr, refl, Bool, true, false, List, [], ◌∷◌, ok, err,
  value_error, arith, Bool-cases, length, length-append, ltb, ◌==◌, if◌then◌else◌,
}
use py_de.Scale.Acaia.{
  MessageType, message_code, pack_message, pack_request, checksum, Request, Numbers, send, send_all,
  system, tare, info, status, identify, event, timer, request_02, request_06, config, timer_start,
  timer_stop, timer_reset, set_grams, set_ounces, tare_internal, set_beep,
}
use py_de.Scale.Acaia.Framing.Splitting.{IsMessage, framed}

code-not-0x20 : (t : MessageType) → (message_code t == 0x20) ≡ false
code-not-0x20 system = refl
code-not-0x20 tare = refl
code-not-0x20 info = refl
code-not-0x20 status = refl
code-not-0x20 identify = refl
code-not-0x20 event = refl
code-not-0x20 timer = refl
code-not-0x20 request_02 = refl
code-not-0x20 request_06 = refl
code-not-0x20 config = refl

-- A payload of at most 254 bytes is packed into a message that the framing takes as one; a longer
-- one raises `ValueError`.
pub pack_message-IsMessage :
    (t : MessageType) (payload : List ℕ)
    → (length payload ≤ 254 → (m : List ℕ) × (pack_message t payload ≡ ok m) × IsMessage m)
      × (254 < length payload → pack_message t payload ≡ err value_error)
unfolding pack_message checksum
pack_message-IsMessage t payload =
    (fits, λ h. let l : ltb 255 (1 + length payload) ≡ true = ground arith in rw l refl)
  where
    fits : length payload ≤ 254 → (m : List ℕ) × (pack_message t payload ≡ ok m) × IsMessage m
    fits h =
        let short : ltb 255 (1 + length payload) ≡ false = ground arith in
        let same : (suc (length payload) == 1 + length payload) ≡ true = ground arith in
        rw (short, same)
          (
            _,
            refl,
            framed (message_code t) (1 + length payload) _ (omega (arith, length-append payload))
                (code-not-0x20 t),
          )

abbrev pub is_timer : Request → Bool
is_timer timer_start = true
is_timer timer_stop = true
is_timer timer_reset = true
is_timer _ = false

abbrev pub is_setting : Request → Bool
is_setting set_grams = true
is_setting set_ounces = true
is_setting (set_beep b) = true
is_setting _ = false

-- How many of the requests pass a test.
abbrev pub count : (Request → Bool) → List Request → ℕ
count p [] = 0
count p (r ∷ rs) = (if p r then 1 else 0) + count p rs

abbrev pub first : Numbers
first = record { setting = 0; timer = 0 }

-- The packet of a request whose number is `k`, byte for byte.
abbrev pub packet_of : Request → ℕ → List ℕ
packet_of timer_start k = 0xef ∷ 0xdd ∷ 13 ∷ k ∷ 0 ∷ k ∷ 0 ∷ []
packet_of timer_reset k = 0xef ∷ 0xdd ∷ 13 ∷ k ∷ 1 ∷ k ∷ 1 ∷ []
packet_of timer_stop k = 0xef ∷ 0xdd ∷ 13 ∷ k ∷ 2 ∷ k ∷ 2 ∷ []
packet_of set_grams k = 0xef ∷ 0xdd ∷ 10 ∷ k ∷ 0 ∷ 2 ∷ (k + 2) % 256 ∷ 0 ∷ []
packet_of set_ounces k = 0xef ∷ 0xdd ∷ 10 ∷ k ∷ 0 ∷ 5 ∷ (k + 5) % 256 ∷ 0 ∷ []
packet_of (set_beep true) k = 0xef ∷ 0xdd ∷ 10 ∷ k ∷ 5 ∷ 1 ∷ (k + 1) % 256 ∷ 5 ∷ []
packet_of (set_beep false) k = 0xef ∷ 0xdd ∷ 10 ∷ k ∷ 5 ∷ 0 ∷ k ∷ 5 ∷ []
packet_of tare_internal k = 0xef ∷ 0xdd ∷ 4 ∷ 0 ∷ 0 ∷ 0 ∷ []

-- The requests before, of the same sequence of numbers.
abbrev pub earlier : Request → List Request → ℕ
earlier r rs = if is_timer r then count is_timer rs else count is_setting rs

abbrev Numbered : ℕ → ℕ → Numbers → Type 0
Numbered t c n = (n.timer ≡ t % 256) × (n.setting ≡ c % 256)

send-Numbered :
    (r : Request) (t c : ℕ) (n : Numbers)
    → Numbered t c n
    → Numbered
        (t + (if is_timer r then 1 else 0))
        (c + (if is_setting r then 1 else 0))
        (send r n).0
unfolding send
send-Numbered timer_start t c n h = (omega (arith, h.0), omega (arith, h.1))
send-Numbered timer_stop t c n h = (omega (arith, h.0), omega (arith, h.1))
send-Numbered timer_reset t c n h = (omega (arith, h.0), omega (arith, h.1))
send-Numbered set_grams t c n h = (omega (arith, h.0), omega (arith, h.1))
send-Numbered set_ounces t c n h = (omega (arith, h.0), omega (arith, h.1))
send-Numbered (set_beep b) t c n h = (omega (arith, h.0), omega (arith, h.1))
send-Numbered tare_internal t c n h = (omega (arith, h.0), omega (arith, h.1))

send_all-Numbered :
    (rs : List Request) (t c : ℕ) (n : Numbers)
    → Numbered t c n
    → Numbered (t + count is_timer rs) (c + count is_setting rs) (send_all rs n).0
unfolding send_all
send_all-Numbered [] t c n h = (omega (arith, h.0), omega (arith, h.1))
send_all-Numbered (r ∷ rs) t c n h =
    let (a, b) = send_all-Numbered rs _ _ (send r n).0 (send-Numbered r t c n h) in
    (omega (arith, a), omega (arith, b))

send-packet_of :
    (r : Request) (n : Numbers) (k : ℕ)
    → k < 256
    → (if is_timer r then n.timer else n.setting) ≡ k
    → (send r n).1 ≡ ok (packet_of r k)
unfolding send pack_request checksum
send-packet_of timer_start n k l h = let e : (k + 0) % 256 ≡ k = omega arith in rw (h, e) refl
send-packet_of timer_stop n k l h = let e : (k + 0) % 256 ≡ k = omega arith in rw (h, e) refl
send-packet_of timer_reset n k l h = let e : (k + 0) % 256 ≡ k = omega arith in rw (h, e) refl
send-packet_of set_grams n k l h = rw h refl
send-packet_of set_ounces n k l h = rw h refl
send-packet_of (set_beep true) n k l h = rw h refl
send-packet_of (set_beep false) n k l h = let e : (k + 0) % 256 ≡ k = omega arith in rw (h, e) refl
send-packet_of tare_internal n k l h = refl

-- After any requests, a request is sent as its packet byte for byte, numbered by the requests before
-- it of its own kind (those of the timer, or the settings), modulo 256.
pub send-send_all :
    (rs : List Request) (r : Request)
    → (send r (send_all rs first).0).1 ≡ ok (packet_of r (earlier r rs % 256))
send-send_all rs r =
    send-packet_of r (send_all rs first).0 (earlier r rs % 256) (omega arith) (number r)
  where
    numbers : Numbered (count is_timer rs) (count is_setting rs) (send_all rs first).0
    numbers =
        let (a, b) = send_all-Numbered rs 0 0 first (refl, refl) in
        (omega (arith, a), omega (arith, b))

    number :
        (r : Request)
        → (if is_timer r then (send_all rs first).0.timer else (send_all rs first).0.setting)
          ≡ earlier r rs % 256
    number r = elim (Bool-cases (is_timer r)) [ inl p ↦ rw p numbers.0 | inr p ↦ rw p numbers.1 ]
