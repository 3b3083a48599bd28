-- ===== src/Struct/Length.antt =====
-- `unpack` takes a buffer exactly if it has the length of the format.
use py_de.Base.{
  ℕ, ◌≡◌, ◌≢◌, refl, ap, suc, List, [], ◌∷◌, arith, ok, err, struct_error, leb, leb→le, le→leb,
  Bool-cases, length, take, drop, length-drop, inl, inr,
}
use py_de.PyNum.{ℤ}
use py_de.Struct.{Order, Code, width, x, size, count, value, unpack}

pub unpack-length_ne :
    (o : Order) (cs : List Code) (bs : List ℕ)
    → length bs ≢ size cs
    → unpack o cs bs ≡ err struct_error
unfolding unpack
unpack-length_ne o [] [] n = absurd (n refl)
unpack-length_ne o [] (_ ∷ _) n = refl
unpack-length_ne o (c ∷ cs) bs n = elim (Bool-cases (leb (width c) (length bs))) [
  | inl l ↦
      let fits = leb→le (width c) (length bs) l in
      rw l (
        rw (
          unpack-length_ne o cs (drop (width c) bs)
            (λ e. n (omega (arith, length-drop (width c) bs)))))
  | inr l ↦ rw l
]

length-value :
    (o : Order) (c : Code) (cs : List Code) (bs : List ℕ) (vs : List ℤ)
    → length vs ≡ count cs
    → length (value o c bs vs) ≡ count (c ∷ cs)
length-value o x cs bs vs e = e
length-value o _ cs bs vs e = ap suc e

pub unpack-length_eq :
    (o : Order) (cs : List Code) (bs : List ℕ)
    → length bs ≡ size cs
    → (vs : List ℤ) × (unpack o cs bs ≡ ok vs) × (length vs ≡ count cs)
unfolding unpack
unpack-length_eq o [] [] n = ([], refl, refl)
unpack-length_eq o [] (_ ∷ _) n = absurd (omega arith)
unpack-length_eq o (c ∷ cs) bs n =
    let (vs, e, k) =
      unpack-length_eq o cs (drop (width c) bs) (omega (arith, length-drop (width c) bs)) in
    let l = le→leb (width c) (length bs) (omega arith) in
    let front = take (width c) bs in
    (value o c front vs, rw l (rw e), length-value o c cs front vs k)
