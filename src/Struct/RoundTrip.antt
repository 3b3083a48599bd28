-- ===== src/Struct/RoundTrip.antt =====
-- `unpack` undoes `pack` for every format, and `pack` undoes `unpack` where there is no padding.
use py_de.Base.{
  ℕ, ◌<◌, ◌≤◌, ◌≡◌, refl, sym, ap, ◌∙◌, inl, inr, List, [], ◌∷◌, ◌++◌, arith, ok, and_then,
  and_then-eq-ok, ok-injective, leb, le→leb, leb→le, Bool-cases, length, take, drop, length-append,
  length-take, take-append, drop-append, take-append-drop, All-take, All-drop,
}
use py_de.PyNum.{ℤ, pos, negsuc}
use py_de.Struct.{
  Order, Code, signed_i, x, width, limit, to_word, of_word, to_bytes, of_bytes, pack, unpack, value,
  size,
}
use py_de.Struct.Bytes.{
  IsByte, AreBytes, length-to_bytes, of_bytes-to_bytes, to_bytes-of_bytes, of_bytes-lt,
}

abbrev pub IsValue : Code → Type 0
IsValue x = ⊥
IsValue c = Unit {0}

to_word_lem : (c : Code) (v : ℤ) (w : ℕ) → to_word c v ≡ ok w → (w < limit c) × (of_word c w ≡ v)
unfolding to_word of_word
to_word_lem signed_i (pos n) w e = ground arith
to_word_lem signed_i (negsuc n) w e = ground arith
to_word_lem _ (pos n) w e = ground arith
to_word_lem _ (negsuc n) w e = cc

of_word_lem : (c : Code) (w : ℕ) → w < limit c → to_word c (of_word c w) ≡ ok w
unfolding to_word of_word
of_word_lem signed_i w l = ground arith
of_word_lem _ w l = ground arith

pack-cons :
    (o : Order) (c : Code) (cs : List Code) (v : ℤ) (vs : List ℤ)
    → IsValue c
    → pack o (c ∷ cs) (v ∷ vs)
      ≡ and_then
          (to_word c v)
          (λ w. and_then (pack o cs vs) (λ r. ok (to_bytes o (width c) w ++ r)))
unfolding pack
pack-cons o x cs v vs p = absurd p
pack-cons o _ cs v vs p = refl

pack-cons-eq-ok :
    (o : Order) (c : Code) (cs : List Code) (v : ℤ) (vs : List ℤ) (bs : List ℕ)
    → IsValue c
    → pack o (c ∷ cs) (v ∷ vs) ≡ ok bs
    → (w : ℕ) × (r : List ℕ) × (to_word c v ≡ ok w)
      × (pack o cs vs ≡ ok r)
      × (to_bytes o (width c) w ++ r ≡ bs)
pack-cons-eq-ok o c cs v vs bs p e =
    let (w, ew, e2) = and_then-eq-ok (to_word c v) _ (sym (pack-cons o c cs v vs p) ∙ e) in
    let (r, er, e3) = and_then-eq-ok (pack o cs vs) (λ r. ok (to_bytes o (width c) w ++ r)) e2 in
    (w, r, ew, er, ok-injective e3)

unpack-append :
    (o : Order) (c : Code) (cs : List Code) (bs rest : List ℕ)
    → length bs ≡ width c
    → unpack o (c ∷ cs) (bs ++ rest) ≡ and_then (unpack o cs rest) (λ vs. ok (value o c bs vs))
unfolding unpack
unpack-append o c cs bs rest l = rw (
  le→leb (width c) (length (bs ++ rest)) (omega (arith, length-append bs rest)),
  take-append (width c) bs rest l,
  drop-append (width c) bs rest l,
)

value_of :
    (o : Order) (c : Code) (bs : List ℕ) (vs : List ℤ)
    → IsValue c
    → value o c bs vs ≡ of_word c (of_bytes o bs) ∷ vs
value_of o x bs vs p = absurd p
value_of o _ bs vs p = refl

unpack-value :
    (o : Order) (c : Code) (cs : List Code) (v : ℤ) (vs : List ℤ) (w : ℕ) (r : List ℕ)
    → IsValue c
    → to_word c v ≡ ok w
    → unpack o cs r ≡ ok vs
    → unpack o (c ∷ cs) (to_bytes o (width c) w ++ r) ≡ ok (v ∷ vs)
unpack-value o c cs v vs w r p e ih =
    let (l, ev) = to_word_lem c v w e in
    unpack-append o c cs (to_bytes o (width c) w) r (length-to_bytes o (width c) w)
    ∙ ap (λ u. and_then u (λ vs. ok (value o c (to_bytes o (width c) w) vs))) ih
    ∙ ap ok (
        value_of o c (to_bytes o (width c) w) vs p
        ∙ ap (λ n. of_word c n ∷ vs) (of_bytes-to_bytes o (width c) w l)
        ∙ ap (λ z. z ∷ vs) ev)

pack_case :
    (o : Order) (c : Code) (cs : List Code) (v : ℤ) (vs : List ℤ) (bs : List ℕ)
    → IsValue c
    → ((r : List ℕ) → pack o cs vs ≡ ok r → unpack o cs r ≡ ok vs)
    → pack o (c ∷ cs) (v ∷ vs) ≡ ok bs
    → unpack o (c ∷ cs) bs ≡ ok (v ∷ vs)
pack_case o c cs v vs bs p ih e =
    let (w, r, ew, er, eb) = pack-cons-eq-ok o c cs v vs bs p e in
    rw (← eb) (unpack-value o c cs v vs w r p ew (ih r er))

pub unpack-pack :
    (o : Order) (cs : List Code) (vs : List ℤ) (bs : List ℕ)
    → pack o cs vs ≡ ok bs
    → unpack o cs bs ≡ ok vs
unfolding pack unpack
unpack-pack o [] [] bs e = rw (← ok-injective e)
unpack-pack o [] (v ∷ vs) bs e = cc
unpack-pack o (x ∷ cs) vs bs e =
    let (r, er, eb) = and_then-eq-ok (pack o cs vs) _ e in
    rw (← ok-injective eb) (
      unpack-append o x cs (0 ∷ []) r refl
      ∙ ap (λ u. and_then u (λ us. ok us)) (unpack-pack o cs vs r er))
unpack-pack o (c ∷ cs) [] bs e = cc
unpack-pack o (c ∷ cs) (v ∷ vs) bs e = pack_case o c cs v vs bs tt (unpack-pack o cs vs) e

pub length-pack :
    (o : Order) (cs : List Code) (vs : List ℤ) (bs : List ℕ)
    → pack o cs vs ≡ ok bs
    → length bs ≡ size cs
unfolding pack
length-pack o [] [] bs e = rw (← ok-injective e)
length-pack o [] (v ∷ vs) bs e = cc
length-pack o (x ∷ cs) vs bs e =
    let (r, er, eb) = and_then-eq-ok (pack o cs vs) _ e in
    rw (← ok-injective eb) (omega (arith, length-pack o cs vs r er))
length-pack o (c ∷ cs) [] bs e = cc
length-pack o (c ∷ cs) (v ∷ vs) bs e =
    let (w, r, ew, er, eb) = pack-cons-eq-ok o c cs v vs bs tt e in
    rw (← eb) (
      omega (
        arith,
        length-append (to_bytes o (width c) w) r,
        length-to_bytes o (width c) w,
        length-pack o cs vs r er,
      ))

abbrev pub AreValues : List Code → Type 0
AreValues [] = Unit
AreValues (c ∷ cs) = IsValue c × AreValues cs

unpack-cons-eq-ok :
    (o : Order) (c : Code) (cs : List Code) (bs : List ℕ) (us : List ℤ)
    → unpack o (c ∷ cs) bs ≡ ok us
    → (width c ≤ length bs)
      × (vs : List ℤ) × (unpack o cs (drop (width c) bs) ≡ ok vs)
      × (value o c (take (width c) bs) vs ≡ us)
unfolding unpack
unpack-cons-eq-ok o c cs bs us e = elim (Bool-cases (leb (width c) (length bs))) [
  | inl l ↦
      let (vs, ev, eu) =
        and_then-eq-ok (unpack o cs (drop (width c) bs))
          (λ vs. ok (value o c (take (width c) bs) vs)) (rw l at e) in
      (leb→le _ _ l, vs, ev, ok-injective eu)
  | inr l ↦ absurd (let e2 = rw l at e in cc)
]

pub pack-unpack :
    (o : Order) (cs : List Code) (bs : List ℕ) (vs : List ℤ)
    → AreValues cs
    → AreBytes bs
    → unpack o cs bs ≡ ok vs
    → pack o cs vs ≡ ok bs
pack-unpack o [] [] vs p a e = unfold pack unpack in rw (← ok-injective e)
pack-unpack o [] (_ ∷ _) vs p a e = unfold unpack in cc
pack-unpack o (c ∷ cs) bs us p a e =
    let n = width c in
    let (l, vs, ev, eu) = unpack-cons-eq-ok o c cs bs us e in
    let ih = pack-unpack o cs (drop n bs) vs p.1 (All-drop IsByte n bs a) ev in
    let front = take n bs in
    let w = of_bytes o front in
    let front_bytes = All-take IsByte n bs a in
    let ln : length front ≡ n = length-take n bs l in
    let fits : w < limit c = rw ln at (of_bytes-lt o front front_bytes) in
    let back : to_bytes o n w ≡ front = rw ln at (to_bytes-of_bytes o front front_bytes) in
    rw (← eu) (
      rw (value_of o c front vs p.0) (
        pack-cons o c cs (of_word c w) vs p.0
        ∙ rw (of_word_lem c w fits, ih, back, take-append-drop n bs)))

-- Each value of a format without padding, in turn, has a bit pattern.
abbrev pub Fits : List Code → List ℤ → Type 0
Fits [] vs = Unit
Fits (c ∷ cs) [] = Unit
Fits (c ∷ cs) (v ∷ vs) = ((w : ℕ) × (to_word c v ≡ ok w)) × Fits cs vs

pub pack-Fits :
    (o : Order) (cs : List Code) (vs : List ℤ) (bs : List ℕ)
    → AreValues cs
    → pack o cs vs ≡ ok bs
    → Fits cs vs
pack-Fits o [] vs bs p e = tt
pack-Fits o (c ∷ cs) [] bs p e = tt
pack-Fits o (c ∷ cs) (v ∷ vs) bs p e =
    let (w, r, ew, er, eb) = pack-cons-eq-ok o c cs v vs bs p.0 e in
    ((w, ew), pack-Fits o cs vs r p.1 er)
