-- ===== src/Struct/Bytes.antt =====
-- A number and its bytes, in either order.
use native.Mathlib.Nat.{pow-suc}
use mathlib.Core.List.{reverse-reverse}
use py_de.Base.{
  ℕ, zero, suc, ◌+◌, ◌*◌, ◌/◌, ◌%◌, ◌^◌, ◌<◌, ◌≡◌, refl, ap, ◌∙◌, List, [], ◌∷◌, reverse, arith,
  length, length-reverse, All, All-reverse,
}
use py_de.Struct.{Order, big, little, le_bytes, of_le_bytes, to_bytes, of_bytes}

abbrev pub IsByte : ℕ → Type 0
IsByte n = n < 256

abbrev pub AreBytes : List ℕ → Type 0
AreBytes = All IsByte

length-le_bytes : (w n : ℕ) → length (le_bytes w n) ≡ w
unfolding le_bytes
length-le_bytes zero n = refl
length-le_bytes (suc w) n = ap suc (length-le_bytes w (n / 256))

le_bytes-AreBytes : (w n : ℕ) → AreBytes (le_bytes w n)
unfolding le_bytes
le_bytes-AreBytes zero n = tt
le_bytes-AreBytes (suc w) n = (omega arith, le_bytes-AreBytes w (n / 256))

of_le_bytes-le_bytes : (w n : ℕ) → n < 256 ^ w → of_le_bytes (le_bytes w n) ≡ n
unfolding le_bytes of_le_bytes
of_le_bytes-le_bytes zero n h = omega arith
of_le_bytes-le_bytes (suc w) n h =
    omega (arith, of_le_bytes-le_bytes w (n / 256) (let e = pow-suc 256 w in omega arith))

le_bytes-of_le_bytes : (cs : List ℕ) → AreBytes cs → le_bytes (length cs) (of_le_bytes cs) ≡ cs
unfolding le_bytes of_le_bytes
le_bytes-of_le_bytes [] h = refl
le_bytes-of_le_bytes (c ∷ cs) h =
    let rest = of_le_bytes cs in
    let low : (c + 256 * rest) % 256 ≡ c = omega arith in
    let high : (c + 256 * rest) / 256 ≡ rest = omega arith in
    λ i. low i ∷ (ap (le_bytes (length cs)) high ∙ le_bytes-of_le_bytes cs h.1) i

of_le_bytes-lt : (cs : List ℕ) → AreBytes cs → of_le_bytes cs < 256 ^ length cs
unfolding of_le_bytes
of_le_bytes-lt [] h = omega arith
of_le_bytes-lt (c ∷ cs) h = omega (arith, of_le_bytes-lt cs h.1, pow-suc 256 (length cs))

pub length-to_bytes : (o : Order) (w n : ℕ) → length (to_bytes o w n) ≡ w
unfolding to_bytes
length-to_bytes big w n = rw length-reverse (length-le_bytes w n)
length-to_bytes little w n = length-le_bytes w n

pub to_bytes-AreBytes : (o : Order) (w n : ℕ) → AreBytes (to_bytes o w n)
unfolding to_bytes
to_bytes-AreBytes big w n = All-reverse IsByte (le_bytes w n) (le_bytes-AreBytes w n)
to_bytes-AreBytes little w n = le_bytes-AreBytes w n

pub of_bytes-to_bytes : (o : Order) (w n : ℕ) → n < 256 ^ w → of_bytes o (to_bytes o w n) ≡ n
unfolding to_bytes of_bytes
of_bytes-to_bytes big w n h = rw reverse-reverse (of_le_bytes-le_bytes w n h)
of_bytes-to_bytes little w n h = of_le_bytes-le_bytes w n h

pub to_bytes-of_bytes :
    (o : Order) (cs : List ℕ) → AreBytes cs → to_bytes o (length cs) (of_bytes o cs) ≡ cs
unfolding to_bytes of_bytes
to_bytes-of_bytes big cs h =
    rw (← length-reverse cs)
      (rw (le_bytes-of_le_bytes (reverse cs) (All-reverse IsByte cs h)) (reverse-reverse cs))
to_bytes-of_bytes little cs h = le_bytes-of_le_bytes cs h

pub of_bytes-lt : (o : Order) (cs : List ℕ) → AreBytes cs → of_bytes o cs < 256 ^ length cs
unfolding of_bytes
of_bytes-lt big cs h =
    rw (← length-reverse cs) (of_le_bytes-lt (reverse cs) (All-reverse IsByte cs h))
of_bytes-lt little cs h = of_le_bytes-lt cs h
