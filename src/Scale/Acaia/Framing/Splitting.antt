-- ===== src/Scale/Acaia/Framing/Splitting.antt =====
-- Messages that are split across packets, or that share one, in src/pyDE1/scale/acaia.py.
use mathlib.Core.Path.{subst}
use mathlib.Core.List.{append_assoc}
use py_de.Base.{
  ℕ, zero, suc, ◌+◌, ◌≤◌, ◌<◌, ◌≡◌, ◌⊎◌, inl, inr, refl, sym, ap, ◌∙◌, true, false, Option, none,
  some, List, [], ◌∷◌, ◌++◌, Error, Method, ok, arith, Bool-cases, length, take-append, drop-append,
  length-append, ltb, leb, ◌==◌, All,
}
use py_de.Scale.Acaia.Framing.{
  waiting, message, whole_message, round, find_header, processed, drain, receive, receive_all,
}

-- A message with a header, a type other than 0x20, a length byte, and as much as it says.
pub data IsMessage : List ℕ → Type 0 where
  framed :
      (t n : ℕ) (body : List ℕ)
      → length body ≡ n + 1
      → (t == 0x20) ≡ false
      → IsMessage (0xef ∷ 0xdd ∷ t ∷ n ∷ body)

abbrev pub concat {ℓ} : {A : Type ℓ} → List (List A) → List A
concat [] = []
concat (l ∷ ls) = l ++ concat ls

All-right {ℓ κ} : {A : Type ℓ} (P : A → Type κ) (xs ys : List A) → All P (xs ++ ys) → All P ys
All-right P [] ys a = a
All-right P (x ∷ xs) ys a = All-right P xs ys a.1

-- What a longer start of the same list has of it.
split {ℓ} :
    {A : Type ℓ} (m b rest later : List A)
    → b ++ rest ≡ m ++ later
    → length m ≤ length b
    → (b' : List A) × (b ≡ m ++ b') × (b' ++ rest ≡ later)
split [] b rest later e h = (b, refl, e)
split (x ∷ m) [] rest later e h = absurd (omega arith)
split (x ∷ m) (y ∷ b) rest later e h =
    let (b', p, q) = split m b rest later (cc) (omega arith) in (b', cc, q)

round-framed :
    (t n x : ℕ) (b : List ℕ)
    → (t == 0x20) ≡ false
    → round (0xef ∷ 0xdd ∷ t ∷ n ∷ x ∷ b) ≡ whole_message (0xef ∷ 0xdd ∷ t ∷ n ∷ x ∷ b) (ok n)
unfolding round find_header
round-framed t n x b h =
    let long : ltb (length (0xef ∷ 0xdd ∷ t ∷ n ∷ x ∷ b)) 5 ≡ false = ground arith in
    rw (long, h) refl

short-waiting : (b : List ℕ) → length b < 5 → round b ≡ waiting
unfolding round
short-waiting b h = let s : ltb (length b) 5 ≡ true = ground arith in rw s refl

-- What the loop makes of a start of a stream that begins with a message.
abbrev Begins : List ℕ → List ℕ → List ℕ → List ℕ → Type 0
Begins m later b rest =
    ((round b ≡ waiting) × (length b < length m))
    ⊎ ((b' : List ℕ) × (round b ≡ message m b') × (b' ++ rest ≡ later) × (length b' < length b))

whole-Begins :
    (t n x : ℕ) (body b rest later : List ℕ)
    → length body ≡ n + 1
    → (t == 0x20) ≡ false
    → x ∷ (b ++ rest) ≡ body ++ later
    → Begins (0xef ∷ 0xdd ∷ t ∷ n ∷ body) later (0xef ∷ 0xdd ∷ t ∷ n ∷ x ∷ b) rest
whole-Begins t n x body b rest later l h e =
    elim (Bool-cases (leb (n + 5) (length (0xef ∷ 0xdd ∷ t ∷ n ∷ x ∷ b)))) [
      | inl p ↦
          let (b', q, r) = split body (x ∷ b) rest later e (ground arith) in
          let m : List ℕ = 0xef ∷ 0xdd ∷ t ∷ n ∷ body in
          let whole : 0xef ∷ 0xdd ∷ t ∷ n ∷ x ∷ b ≡ m ++ b' = ap (λ r. 0xef ∷ 0xdd ∷ t ∷ n ∷ r) q in
          let lm : length m ≡ n + 5 = omega (arith, l) in
          inr (
            b',
            round-framed t n x b h
                ∙ rw p (rw (whole, take-append (n + 5) m b' lm, drop-append (n + 5) m b' lm) refl),
            r,
            omega (arith, ap length whole, length-append m b'),
          )
      | inr p ↦ inl (round-framed t n x b h ∙ rw p refl, ground (arith, l))
    ]

round-Begins :
    (m later b rest : List ℕ) → IsMessage m → b ++ rest ≡ m ++ later → Begins m later b rest
round-Begins _ later [] rest (framed t n body l h) e =
    inl (short-waiting [] (omega arith), omega arith)
round-Begins _ later (a0 ∷ []) rest (framed t n body l h) e =
    inl (short-waiting (a0 ∷ []) (omega arith), omega arith)
round-Begins _ later (a0 ∷ a1 ∷ []) rest (framed t n body l h) e =
    inl (short-waiting (a0 ∷ a1 ∷ []) (omega arith), omega arith)
round-Begins _ later (a0 ∷ a1 ∷ a2 ∷ []) rest (framed t n body l h) e =
    inl (short-waiting (a0 ∷ a1 ∷ a2 ∷ []) (omega arith), omega arith)
round-Begins _ later (a0 ∷ a1 ∷ a2 ∷ a3 ∷ []) rest (framed t n body l h) e =
    inl (short-waiting (a0 ∷ a1 ∷ a2 ∷ a3 ∷ []) (omega arith), omega arith)
round-Begins _ later (a0 ∷ a1 ∷ a2 ∷ a3 ∷ x ∷ b) rest (framed t n body l h) e =
    let e0 : a0 ≡ 0xef = cc in
    let e1 : a1 ≡ 0xdd = cc in
    let e2 : a2 ≡ t = cc in
    let e3 : a3 ≡ n = cc in rw (e0, e1, e2, e3) (whole-Begins t n x body b rest later l h (cc))

module _ {ℓ} {S : Type ℓ} (process : List ℕ → Method S) where
  abbrev pub deliver : List (List ℕ) → S → S
  deliver [] s = s
  deliver (m ∷ ms) s = deliver ms (process m s).0

  -- Messages that the scale may send: framed, and processed without an exception.
  abbrev pub IsAccepted : List ℕ → Type ℓ
  IsAccepted m = IsMessage m × ((s : S) → (process m s).1 ≡ none)

  -- The messages that have been whole are delivered, and the rest waits.
  record Delivered (b rest : List ℕ) (s : S) (ms : List (List ℕ)) (c : List ℕ × S) : Type ℓ where
    whole : List (List ℕ)
    left : List (List ℕ)
    all : ms ≡ whole ++ left
    state : c.1 ≡ deliver whole s
    stream : c.0 ++ rest ≡ concat left
    waits : round c.0 ≡ waiting

  abbrev Delivers :
      List ℕ → List ℕ → S → List (List ℕ) → Option ((List ℕ × S) × Option Error) → Type ℓ
  Delivers b rest s ms o = (c : List ℕ × S) × (o ≡ some (c, none)) × Delivered b rest s ms c

  processed-none :
      (continue : List ℕ × S → Option ((List ℕ × S) × Option Error)) (b rest : List ℕ)
      (p : S × Option Error)
      → p.1 ≡ none
      → processed process b continue rest p ≡ continue (rest, p.0)
  processed-none continue b rest (s, none) h = refl
  processed-none continue b rest (s, some e) h = absurd (cc)

  drain-Delivers :
      (n : ℕ) (ms : List (List ℕ)) (b rest : List ℕ) (s : S)
      → length b < n
      → All IsAccepted ms
      → b ++ rest ≡ concat ms
      → Delivers b rest s ms (drain process n (b, s))
  unfolding drain
  drain-Delivers zero ms b rest s h a e = absurd (omega arith)
  drain-Delivers (suc n) [] [] rest s h a e = (
    _,
    refl,
    record {
      whole = [];
      left = [];
      all = refl;
      state = refl;
      stream = e;
      waits = short-waiting [] (omega arith);
    },
  )
  drain-Delivers (suc n) [] (x ∷ b) rest s h a e = absurd (cc)
  drain-Delivers (suc n) (m ∷ ms) b rest s h a e =
      elim (round-Begins m (concat ms) b rest a.0.0 e) [
        | inl (w, _) ↦ rw w (
          _,
          refl,
          record { whole = []; left = m ∷ ms; all = refl; state = refl; stream = e; waits = w },
        )
        | inr (b', r, e', shorter) ↦
            let (c, q, d) = drain-Delivers n ms b' rest (process m s).0 (omega arith) a.1 e' in
            rw r (
              c,
              processed-none (λ c'. drain process n c') b b' (process m s) (a.0.1 s) ∙ q,
              record {
                whole = m ∷ d.whole;
                left = d.left;
                all = ap (λ l. m ∷ l) d.all;
                state = d.state;
                stream = d.stream;
                waits = d.waits;
              },
            )
      ]

  -- No message is whole in what waits.
  waits-empty :
      (ms : List (List ℕ)) (b : List ℕ)
      → All IsAccepted ms
      → b ++ [] ≡ concat ms
      → round b ≡ waiting
      → (ms ≡ []) × (b ≡ [])
  waits-empty [] [] a e w = (refl, refl)
  waits-empty [] (x ∷ b) a e w = absurd (cc)
  waits-empty (m ∷ ms) b a e w = elim (round-Begins m (concat ms) b [] a.0.0 e) [
    | inl (_, short) ↦
        absurd (omega (arith, ap length e, length-append b [], length-append m (concat ms)))
    | inr (b', r, _, _) ↦ absurd (let clash : waiting ≡ message m b' = sym w ∙ r in cc)
  ]

  deliver-append :
      (ms ns : List (List ℕ)) (s : S) → deliver (ms ++ ns) s ≡ deliver ns (deliver ms s)
  deliver-append [] ns s = refl
  deliver-append (m ∷ ms) ns s = deliver-append ms ns (process m s).0

  receive-Delivers :
      (p b rest : List ℕ) (ms : List (List ℕ)) (s : S)
      → All IsAccepted ms
      → b ++ (p ++ rest) ≡ concat ms
      → Delivers (b ++ p) rest s ms (receive process p (b, s))
  unfolding receive
  receive-Delivers p b rest ms s a e =
      drain-Delivers (suc (length (b ++ p))) ms (b ++ p) rest s (omega arith) a
        (append_assoc b p rest ∙ e)

  received-some :
      (p : List ℕ) (ps : List (List ℕ)) (c c' : List ℕ × S) (e : Option Error)
      → receive process p c ≡ some (c', e)
      → receive_all process (p ∷ ps) c ≡ receive_all process ps c'
  unfolding receive_all
  received-some p ps c c' e h = rw h refl

  receive_all-nil : (c : List ℕ × S) → receive_all process [] c ≡ some c
  unfolding receive_all
  receive_all-nil c = refl

  receive_all-deliver :
      (ps ms : List (List ℕ)) (b : List ℕ) (s : S)
      → All IsAccepted ms
      → b ++ concat ps ≡ concat ms
      → round b ≡ waiting
      → receive_all process ps (b, s) ≡ some ([], deliver ms s)
  receive_all-deliver [] ms b s a e w =
      let (m, h) = waits-empty ms b a e w in rw (m, h, receive_all-nil) refl
  receive_all-deliver (p ∷ ps) ms b s a e w =
      let ((b', s'), q, d) = receive-Delivers p b (concat ps) ms s a e in
      let accepted : All IsAccepted (d.whole ++ d.left) = subst (All IsAccepted) d.all a in
      received-some p ps (b, s) (b', s') none q
      ∙ receive_all-deliver ps d.left b' s' (All-right IsAccepted d.whole d.left accepted) d.stream
          d.waits
      ∙ ap (λ s''. some ([], s''))
          (ap (deliver d.left) d.state
            ∙ sym (deliver-append d.whole d.left s)
            ∙ ap (λ l. deliver l s) (sym d.all))

  pub receive_all-concat :
      (ps ms : List (List ℕ)) (s : S)
      → All IsAccepted ms
      → concat ps ≡ concat ms
      → receive_all process ps ([], s) ≡ some ([], deliver ms s)
  receive_all-concat ps ms s a e =
      receive_all-deliver ps ms [] s a e (short-waiting [] (omega arith))
