-- ===== src/CApi/Mmr/Laws.antt =====
-- Addresses and their parts, and a write request and what it reads as.
use py_de.Base.{
  ℕ, ◌-◌, ◌*◌, ◌/◌, ◌%◌, ◌^◌, ◌≤◌, ◌<◌, ◌≡◌, inl, inr, refl, ap, ◌∙◌, ◌||◌, Option, none, some,
  List, [], ◌∷◌, ◌++◌, ok, err, arith, length, finish, and_then-eq-ok, Result-cases, ok-injective,
  replicate, take-append, drop-append, length-append, length-replicate, de1_api_value_error, ltb,
  ◌==◌, if◌then◌else◌,
}
use py_de.PyNum.{ℤ, pos, nat, Num, round_ℕ}
use py_de.Struct.{big, pack, unpack}
use py_de.Struct.RoundTrip.{unpack-pack, length-pack}
use py_de.CApi.Fixed.{validate_u_p, p0}
use py_de.CApi.Fixed.Laws.{p0-over}
use py_de.CApi.Mmr.{
  Mmr, blank, check_u, set_address, address, format, padded_data, int_of, or_zero, from_wire_bytes,
  as_wire_bytes, setup, given_len, write_init, check_data_len_consistent, set_addr_low,
  set_addr_high, set_len, set_data,
}

pub round_same : (n : ℕ) → round_ℕ (n * 1) 1 ≡ n
unfolding round_ℕ
round_same n = ground arith

pub check_u_pos :
    (n w : ℕ)
    → check_u (some (pos n)) w ≡ (if ltb n (2 ^ w) then ok (some n) else err de1_api_value_error)
unfolding check_u validate_u_p
check_u_pos n w = rw (round_same n) (ground arith)

pub check_u_fits : (n w : ℕ) → n < 2 ^ w → check_u (some (pos n)) w ≡ ok (some n)
check_u_fits n w l = rw check_u_pos (ground arith)

set_address_lem :
    (a : ℕ) (s : Mmr)
    → a < 2 ^ 24
    → set_address (some (pos a)) s
      ≡ (record s { addr_high = some (a / 65536); addr_low = some (a % 65536) }, none)
unfolding set_address
set_address_lem a s l = rw (
  check_u_fits a 24 l,
  check_u_fits (a / 65536) 8 (omega arith),
  check_u_fits (a % 65536) 16 (omega arith),
)

-- An address of 24 bits is split into a byte and a word, and reads as the address only where
-- neither part is 0: otherwise, as at the first address of a page, it reads as `None`.
pub address-set_address :
    (a : ℕ) (s : Mmr)
    → a < 2 ^ 24
    → let (s', e) = set_address (some (pos a)) s in
      (e ≡ none)
      × (s' ≡ record s { addr_high = some (a / 65536); addr_low = some (a % 65536) })
      × (address s' ≡ (if a / 65536 == 0 || a % 65536 == 0 then none else some a))
unfolding address
address-set_address a s l = rw set_address_lem (refl, refl, ground arith)

-- A request of n bytes of data, n being its length and at most sixteen.
pub record IsRequest (s : Mmr) (d : List ℕ) : Type 0 where
  pub given : s.contents ≡ some d
  pub counted : s.len ≡ some (length d)
  pub short : length d ≤ 16

check_u-some : (z : ℤ) (w : ℕ) (o : Option ℕ) → check_u (some z) w ≡ ok o → o ≡ some (nat z)
unfolding check_u
check_u-some z w o e = ground arith

set_len-some :
    (z : ℤ) (s : Mmr) → ((set_len (some z) s).1 ≡ none) → (set_len (some z) s).0.len ≡ some (nat z)
unfolding set_len
set_len-some z s e = elim (Result-cases (check_u (some z) 8)) [
  | inl (o, eo) ↦ rw eo (check_u-some z 8 o eo)
  | inr (x, ex) ↦ absurd (let e' = rw ex at e in cc)
]

setup_lem :
    (z : ℤ) (addr high low : Option ℤ) (d : List ℕ) (s : Mmr)
    → finish (setup (some z) addr high low (some d) blank) ≡ ok s
    → (s.contents ≡ some d) × (s.len ≡ some (nat z))
unfolding setup set_addr_low set_addr_high set_data set_address
setup_lem z addr high low d s e = ground (arith, set_len-some z blank)

request :
    (d : List ℕ) (s : Mmr) (z : ℤ)
    → (s.contents ≡ some d) × (s.len ≡ some (nat z))
    → check_data_len_consistent s ≡ ok tt
    → IsRequest s d
unfolding check_data_len_consistent
request d s z h c = ground arith

-- A write request that was built with data, whether its length was given or not, holds these data,
-- and as its length their number, which is at most sixteen.
pub write_init-IsRequest :
    (len addr high low : Option ℤ) (d : List ℕ) (s : Mmr)
    → write_init len addr high low (some d) ≡ ok s
    → IsRequest s d
unfolding write_init
write_init-IsRequest len addr high low d s e =
    let m = finish (setup (given_len len (some d)) addr high low (some d) blank) in
    let (s0, es, e1) = and_then-eq-ok m _ e in
    let (_, checked, e2) = and_then-eq-ok (check_data_len_consistent s0) (λ _. ok s0) e1 in
    let same : s0 ≡ s = ok-injective e2 in built len (rw (← same) es) (rw (← same) checked)
  where
    built :
        (len : Option ℤ)
        → finish (setup (given_len len (some d)) addr high low (some d) blank) ≡ ok s
        → check_data_len_consistent s ≡ ok tt
        → IsRequest s d
    built none e c = request d s (pos (length d)) (setup_lem (pos (length d)) addr high low d s e) c
    built (some z) e c = request d s z (setup_lem z addr high low d s e) c

padded : (d : List ℕ) → length d ≤ 16 → padded_data (some d) ≡ ok (d ++ replicate (16 - length d) 0)
padded d l = ground arith

read_back :
    (head d pad : List ℕ) (n hi lo : ℕ) (t : Option Num) (s : Mmr)
    → length head ≡ 4
    → length d ≡ n
    → unpack big format head ≡ ok (pos n ∷ pos hi ∷ pos lo ∷ [])
    → from_wire_bytes (head ++ (d ++ pad)) t s ≡ (
      record {
        arrival_time = t;
        len = some n;
        addr_high = some hi;
        addr_low = some lo;
        contents = some d;
      },
      none,
    )
unfolding from_wire_bytes
read_back head d pad n hi lo t s h4 hn e =
    rw (take-append 4 head (d ++ pad) h4, e)
      (rw (drop-append 4 head (d ++ pad) h4, take-append n d pad hn))

-- A request takes twenty bytes on the wire, whatever the length of its data, and reads back as the
-- same length, address and data, without the padding.
pub Mmr-round_trip :
    (s s' : Mmr) (d bs : List ℕ) (t : Option Num)
    → IsRequest s d
    → as_wire_bytes s ≡ ok bs
    → (length bs ≡ 20) × (from_wire_bytes bs t s' ≡ (record s { arrival_time = t }, none))
unfolding as_wire_bytes
Mmr-round_trip s s' d bs t r e =
    let (hi, eh, e1) = and_then-eq-ok (int_of s.addr_high) _ e in
    let (lo, el, e2) = and_then-eq-ok (int_of s.addr_low) _ e1 in
    let vs = p0 (or_zero s.len) ∷ pos hi ∷ pos lo ∷ [] in
    let (head, ep, e3) = and_then-eq-ok (pack big format vs) _ e2 in
    let tail : List ℕ = d ++ replicate (16 - length d) 0 in
    let et : head ++ tail ≡ bs = ground (arith, e3, r.given, padded d r.short) in
    let n4 : length head ≡ 4 = length-pack big format vs head ep in
    let len_value : p0 (or_zero s.len) ≡ pos (length d) = rw r.counted (p0-over (pos (length d))) in
    let values : unpack big format head ≡ ok (pos (length d) ∷ pos hi ∷ pos lo ∷ []) =
      unpack-pack big format vs head ep ∙ ap (λ z. ok (z ∷ pos hi ∷ pos lo ∷ [])) len_value in
    let pad : List ℕ = replicate (16 - length d) 0 in
    (
      rw (← et) (
          omega (
            arith,
            n4,
            length-append head tail,
            length-append d pad,
            length-replicate {A = ℕ} (16 - length d) 0,
            r.short,
          )),
      rw (← et) (
          read_back head d pad (length d) hi lo t s' n4 refl values
          ∙ ground (arith, eh, el, r.counted, r.given)),
    )
