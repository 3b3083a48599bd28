-- ===== src/Scale/Acaia/Framing/Waiting.antt =====
-- The loop of `_process_data_under_lock` in src/pyDE1/scale/acaia.py ends, and how.
use py_de.Base.{
  ℕ, zero, suc, ◌+◌, ◌<◌, ◌≡◌, ◌⊎◌, inl, inr, refl, Option, none, some, List, [], ◌∷◌, ◌++◌, Error,
  Method, Result, ok, err, arith, Bool-cases, length, drop, length-drop, ltb, leb,
}
use mathlib.Core.Path.{subst}
use py_de.Scale.Acaia.Incoming.{at}
use py_de.Scale.Acaia.Framing.{
  Round, waiting, message, discarded, whole_message, at_header, find_header, round, starts_with,
  processed, drain, receive,
}

pub Round-cases :
    (r : Round)
    → (r ≡ waiting)
      ⊎ ((m rest : List ℕ) × (r ≡ message m rest))
      ⊎ ((rest : List ℕ) × (r ≡ discarded rest))
Round-cases waiting = inl refl
Round-cases (message m rest) = inr (inl (m, rest, refl))
Round-cases (discarded rest) = inr (inr (rest, refl))

-- What stays in the buffer is shorter.
abbrev Shrinks : List ℕ → Round → Type 0
Shrinks b waiting = Unit
Shrinks b (message m rest) = length rest < length b
Shrinks b (discarded rest) = length rest < length b

drop-shorter : (n : ℕ) (b : List ℕ) → 0 < n → 0 < length b → length (drop n b) < length b
drop-shorter n b p h = omega (arith, length-drop n b)

whole_message-Shrinks : (b : List ℕ) (r : Result ℕ) → 0 < length b → Shrinks b (whole_message b r)
whole_message-Shrinks b (err e) h = tt
whole_message-Shrinks b (ok n) h = elim (Bool-cases (leb (n + 5) (length b))) [
  | inl p ↦ rw p (drop-shorter (n + 5) b (omega arith) h)
  | inr p ↦ rw p tt
]

at_header-Shrinks : (b : List ℕ) (i : Option ℕ) → 0 < length b → Shrinks b (at_header b i)
at_header-Shrinks b none h = h
at_header-Shrinks b (some zero) h = whole_message-Shrinks b (at b 3) h
at_header-Shrinks b (some (suc i)) h = drop-shorter (suc i) b (omega arith) h

round-Shrinks : (b : List ℕ) → Shrinks b (round b)
unfolding round
round-Shrinks b = elim (Bool-cases (ltb (length b) 5)) [
  | inl p ↦ rw p tt
  | inr p ↦ rw p (elim (Bool-cases (starts_with (0xef ∷ 0xdd ∷ 0x20 ∷ []) b)) [
    | inl q ↦ rw q (drop-shorter 6 b (omega arith) (ground arith))
    | inr q ↦ rw q (at_header-Shrinks b (find_header b) (ground arith))
  ])
]

module _ {ℓ} {S : Type ℓ} (process : List ℕ → Method S) where
  -- The loop ends when the buffer has no whole message, or at the message that raises, which stays.
  pub data Ends : (List ℕ × S) × Option Error → Type ℓ where
    waits : {b : List ℕ} {s : S} → round b ≡ waiting → Ends ((b, s), none)
    raises :
        {b : List ℕ} {s : S} {e : Error} (m rest : List ℕ) (s' : S)
        → round b ≡ message m rest
        → process m s' ≡ (s, some e)
        → Ends ((b, s), some e)

  abbrev pub Stops : Option ((List ℕ × S) × Option Error) → Type ℓ
  Stops o = (r : (List ℕ × S) × Option Error) × (o ≡ some r) × Ends r

  processed-Stops :
      (continue : List ℕ × S → Option ((List ℕ × S) × Option Error)) (b m rest : List ℕ) (s' : S)
      → ((s : S) → Stops (continue (rest, s)))
      → round b ≡ message m rest
      → (p : S × Option Error) → process m s' ≡ p
      → Stops (processed process b continue rest p)
  processed-Stops continue b m rest s' k h (s, none) e = k s
  processed-Stops continue b m rest s' k h (s, some x) e = (_, refl, raises m rest s' h e)

  -- As many rounds as the buffer has bytes, and one, are enough.
  pub drain-Stops : (n : ℕ) (b : List ℕ) (s : S) → length b < n → Stops (drain process n (b, s))
  unfolding drain
  drain-Stops zero b s h = absurd (omega arith)
  drain-Stops (suc n) b s h = elim (Round-cases (round b)) [
    | inl w ↦ rw w (_, refl, waits w)
    | inr (inl (m, rest, e)) ↦ rw e (
        processed-Stops (λ c. drain process n c) b m rest s
          (λ s'. drain-Stops n rest s' (let k : length rest < length b = shorter e in omega arith))
          e (process m s) refl)
    | inr (inr (rest, e)) ↦
        rw e (drain-Stops n rest s (let k : length rest < length b = shorter e in omega arith))
  ]
    where
      shorter : {r : Round} → round b ≡ r → Shrinks b r
      shorter e = subst (Shrinks b) e (round-Shrinks b)

  -- A packet is always dealt with: the loop ends, with a buffer that has no whole message, or with
  -- the message at its front whose processing raised.
  pub receive-Stops : (packet b : List ℕ) (s : S) → Stops (receive process packet (b, s))
  unfolding receive
  receive-Stops packet b s = drain-Stops (suc (length (b ++ packet))) (b ++ packet) s (omega arith)
