-- ===== src/Scale/Acaia/Framing/Jam.antt =====
-- A message of src/pyDE1/scale/acaia.py whose processing raises stays at the front of the buffer.
use mathlib.Core.Option
use mathlib.Core.Path.{subst}
use mathlib.Core.List.{append_assoc, append-nil}
use py_de.Base.{
  ℕ, zero, suc, ◌+◌, ◌≤◌, ◌<◌, ◌≡◌, inl, inr, refl, sym, ap, ◌∙◌, Bool, true, false, Option, none,
  some, List, [], ◌∷◌, ◌++◌, Error, ok, arith, Bool-cases, length, length-append, drop, take, ltb,
  leb, if◌then◌else◌,
}
use py_de.PyNum.{Num}
use py_de.Scale.Acaia.Incoming.{Readings, is_nonstandard, process_message, at}
use py_de.Scale.Acaia.Framing.{
  Round, waiting, message, whole_message, at_header, round, find_header, starts_with, drain,
  receive, receive_all, processed,
}
use py_de.Scale.Acaia.Framing.Steady.{process_message-IsSteady}
use py_de.Scale.Acaia.Framing.Waiting.{Ends, waits, raises, receive-Stops}
use py_de.Scale.Acaia.Framing.Splitting.{concat}

take-append-le {ℓ} :
    {A : Type ℓ} (n : ℕ) (xs ys : List A) → n ≤ length xs → take n (xs ++ ys) ≡ take n xs
take-append-le zero xs ys h = refl
take-append-le (suc n) [] ys h = absurd (omega arith)
take-append-le (suc n) (x ∷ xs) ys h = ap (λ l. x ∷ l) (take-append-le n xs ys (omega arith))

drop-append-le {ℓ} :
    {A : Type ℓ} (n : ℕ) (xs ys : List A) → n ≤ length xs → drop n (xs ++ ys) ≡ drop n xs ++ ys
drop-append-le zero xs ys h = refl
drop-append-le (suc n) [] ys h = absurd (omega arith)
drop-append-le (suc n) (x ∷ xs) ys h = drop-append-le n xs ys (omega arith)

length-take-le {ℓ} : {A : Type ℓ} (n : ℕ) (xs : List A) → length (take n xs) ≤ n
length-take-le zero xs = omega arith
length-take-le (suc n) [] = omega arith
length-take-le (suc n) (x ∷ xs) = omega (arith, length-take-le n xs)

-- What the round makes of a buffer that begins with a long message does not change when more comes.
abbrev IsStable : List ℕ → List ℕ → List ℕ → Round → Type 0
IsStable p m rest r = r ≡ message m (rest ++ p)

whole_message-stable :
    (b p m rest : List ℕ) (n : ℕ)
    → whole_message b (ok n) ≡ message m rest
    → whole_message (b ++ p) (ok n) ≡ message m (rest ++ p)
whole_message-stable b p m rest n e = elim (Bool-cases (leb (n + 5) (length b))) [
  | inl q ↦
      let e' : message (take (n + 5) b) (drop (n + 5) b) ≡ message m rest = rw q at e in
      let longer : leb (n + 5) (length (b ++ p)) ≡ true = ground (arith, length-append b p) in
      let fits : n + 5 ≤ length b = ground arith in
      rw longer (rw (take-append-le (n + 5) b p fits, drop-append-le (n + 5) b p fits) (cc))
  | inr q ↦ absurd (let e' : waiting ≡ message m rest = rw q at e in cc)
]

later-discards :
    (b m rest : List ℕ) (o : Option ℕ) → at_header b (Option.map suc o) ≡ message m rest → ⊥
later-discards b m rest none e = cc
later-discards b m rest (some i) e = cc

six-short : (b m rest later : List ℕ) → message (take 6 b) later ≡ message m rest → length m ≤ 6
six-short b m rest later e =
    let same : take 6 b ≡ m = cc in omega (arith, ap length same, length-take-le 6 b)

abbrev rounded : Bool → Bool → Option ℕ → List ℕ → Round
rounded nonstandard header later b =
    if nonstandard
    then message (take 6 b) (drop 6 b)
    else at_header b (if header then some 0 else Option.map suc later)

round-five :
    (a0 a1 a2 a3 a4 : ℕ) (b : List ℕ)
    → let buffer = a0 ∷ a1 ∷ a2 ∷ a3 ∷ a4 ∷ b in
      round buffer
      ≡ rounded
          (starts_with (0xef ∷ 0xdd ∷ 0x20 ∷ []) (a0 ∷ a1 ∷ a2 ∷ []))
          (starts_with (0xef ∷ 0xdd ∷ []) (a0 ∷ a1 ∷ []))
          (find_header (a1 ∷ a2 ∷ a3 ∷ a4 ∷ b))
          buffer
unfolding round find_header
round-five a0 a1 a2 a3 a4 b =
    let long : ltb (length (a0 ∷ a1 ∷ a2 ∷ a3 ∷ a4 ∷ b)) 5 ≡ false = ground arith in rw long refl

rounded-stable :
    (b p m rest : List ℕ) (x y : Bool) (o o' : Option ℕ) (n : ℕ)
    → at b 3 ≡ ok n
    → at (b ++ p) 3 ≡ ok n
    → 7 ≤ length m
    → rounded x y o b ≡ message m rest
    → rounded x y o' (b ++ p) ≡ message m (rest ++ p)
rounded-stable b p m rest true y o o' n h h' l e =
    absurd (let s = six-short b m rest _ e in omega arith)
rounded-stable b p m rest false true o o' n h h' l e =
    rw h' (whole_message-stable b p m rest n (rw h at e))
rounded-stable b p m rest false false o o' n h h' l e = absurd (later-discards b m rest o e)

short-waits : (b m rest : List ℕ) → length b < 5 → round b ≡ message m rest → ⊥
unfolding round
short-waits b m rest h e =
    let short : ltb (length b) 5 ≡ true = ground arith in
    let e' : waiting ≡ message m rest = rw short at e in cc

round-stable :
    (b p m rest : List ℕ)
    → 7 ≤ length m
    → round b ≡ message m rest
    → round (b ++ p) ≡ message m (rest ++ p)
round-stable [] p m rest l e = absurd (short-waits [] m rest (omega arith) e)
round-stable (a0 ∷ []) p m rest l e = absurd (short-waits _ m rest (omega arith) e)
round-stable (a0 ∷ a1 ∷ []) p m rest l e = absurd (short-waits _ m rest (omega arith) e)
round-stable (a0 ∷ a1 ∷ a2 ∷ []) p m rest l e = absurd (short-waits _ m rest (omega arith) e)
round-stable (a0 ∷ a1 ∷ a2 ∷ a3 ∷ []) p m rest l e = absurd (short-waits _ m rest (omega arith) e)
round-stable (a0 ∷ a1 ∷ a2 ∷ a3 ∷ a4 ∷ b) p m rest l e =
    round-five a0 a1 a2 a3 a4 (b ++ p)
    ∙ rounded-stable (a0 ∷ a1 ∷ a2 ∷ a3 ∷ a4 ∷ b) p m rest _ _ _ _ a3 refl refl l
        (sym (round-five a0 a1 a2 a3 a4 b) ∙ e)

module _ (subscribers : List Num → Option Error)
    (quiet : (ws : List Num) → subscribers ws ≡ none) where
  -- A message that raises is one of at least seven bytes.
  raises-long :
      (m : List ℕ) (s : Readings) (e : Error)
      → (process_message subscribers m s).1 ≡ some e
      → 7 ≤ length m
  unfolding process_message
  raises-long m s e h = elim (Bool-cases (is_nonstandard m)) [
    | inl p ↦ absurd (let h' : none ≡ some e = rw p at h in cc)
    | inr p ↦ elim (Bool-cases (ltb (length m) 7)) [
      | inl q ↦ absurd (let h' : none ≡ some e = rw (p, q) at h in cc)
      | inr q ↦ ground arith
    ]
  ]

  processed-some :
      (b rest : List ℕ) (continue : List ℕ × Readings → Option ((List ℕ × Readings) × Option Error))
      (o : Readings × Option Error) (e : Error)
      → o.1 ≡ some e
      → processed (process_message subscribers) b continue rest o ≡ some ((b, o.0), some e)
  processed-some b rest continue (s, none) e h = absurd (cc)
  processed-some b rest continue (s, some x) e h = ap (λ y. some ((b, s), y)) h

  -- At the front of the buffer is a message that raises.
  record IsJammed (b : List ℕ) (e : Error) : Type 0 where
    front : List ℕ
    later : List ℕ
    whole : round b ≡ message front later
    long : 7 ≤ length front
    raising :
        (s : Readings)
        → ((process_message subscribers front s).1 ≡ some e)
          × ((process_message subscribers front s).0.weights ≡ s.weights)

  IsJammed-append : (b p : List ℕ) (e : Error) → IsJammed b e → IsJammed (b ++ p) e
  IsJammed-append b p e j = record {
    front = j.front;
    later = j.later ++ p;
    whole = round-stable b p j.front j.later j.long j.whole;
    long = j.long;
    raising = j.raising;
  }

  receive-jammed :
      (b p : List ℕ) (e : Error) (s : Readings)
      → IsJammed b e
      → (s' : Readings) × (receive (process_message subscribers) p (b, s)
          ≡ some ((b ++ p, s'), some e))
        × (s'.weights ≡ s.weights)
  unfolding receive drain
  receive-jammed b p e s j = rw (round-stable b p j.front j.later j.long j.whole) (
    _,
    processed-some (b ++ p) (j.later ++ p)
        (λ c. drain (process_message subscribers) (length (b ++ p)) c)
        (process_message subscribers j.front s) e (j.raising s).0,
    (j.raising s).1,
  )

  receive_all-jammed :
      (ps : List (List ℕ)) (b : List ℕ) (e : Error) (s : Readings)
      → IsJammed b e
      → (s' : Readings) × (receive_all (process_message subscribers) ps (b, s)
          ≡ some (b ++ concat ps, s'))
        × (s'.weights ≡ s.weights)
  unfolding receive_all
  receive_all-jammed [] b e s j = (s, ap (λ l. some (l, s)) (sym (append-nil b)), refl)
  receive_all-jammed (p ∷ ps) b e s j =
      let (s1, q, w) = receive-jammed b p e s j in
      let (s2, q', w') = receive_all-jammed ps (b ++ p) e s1 (IsJammed-append b p e j) in
      (s2, rw q (q' ∙ ap (λ l. some (l, s2)) (append_assoc b p (concat ps))), w' ∙ w)

  Ends-IsJammed :
      (r : (List ℕ × Readings) × Option Error) (e : Error)
      → r.1 ≡ some e
      → Ends (process_message subscribers) r
      → IsJammed r.0.0 e
  Ends-IsJammed _ e h (waits w) = absurd (cc)
  Ends-IsJammed _ e h (raises m rest s' w p) = record {
    front = m;
    later = rest;
    whole = w;
    long = raises-long m s' e raised;
    raising = elim (process_message-IsSteady subscribers quiet m) [
      | inl k ↦ absurd (let never = k s' in cc)
      | inr (e', k) ↦
          λ s. (let same : some e' ≡ some e = sym (k s').0 ∙ raised in (k s).0 ∙ same, (k s).1)
    ];
  }
    where
      raised : (process_message subscribers m s').1 ≡ some e
      raised = ap (λ r. r.1) p ∙ h

  -- If no subscriber of the weights raises, the scale is jammed after an exception, which is one of
  -- a message: whatever packets come then are only added to the buffer, and no weight is published.
  pub receive-jams :
      (packet b b' : List ℕ) (s s' : Readings) (e : Error) (ps : List (List ℕ))
      → receive (process_message subscribers) packet (b, s) ≡ some ((b', s'), some e)
      → (s'' : Readings) × (receive_all (process_message subscribers) ps (b', s')
          ≡ some (b' ++ concat ps, s''))
        × (s''.weights ≡ s'.weights)
  receive-jams packet b b' s s' e ps h =
      let (r, q, ends) = receive-Stops (process_message subscribers) packet b s in
      let same : some r ≡ some ((b', s'), some e) = sym q ∙ h in
      let r-same : r ≡ ((b', s'), some e) = cc in
      receive_all-jammed ps b' e s'
        (subst (λ r. IsJammed r.0.0 e) r-same (Ends-IsJammed r e (ap (λ r. r.1) r-same) ends))
