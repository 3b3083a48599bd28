-- ===== src/CApi/Calibration/Laws.antt =====
-- When a calibration can be written, and what it reads back as.
use py_de.Base.{
  ℕ, ◌*◌, ◌≤◌, ◌≡◌, inl, inr, refl, ◌∙◌, true, false, ◌&&◌, Option, none, some, List, [], ◌∷◌, ok,
  arith, and_then-eq-ok, Bool-cases,
}
use py_de.PyNum.{ℤ, pos, negsuc, Num, round_ℕ}
use py_de.Struct.{big, signed_i, to_word, pack}
use py_de.Struct.RoundTrip.{unpack-pack, pack-Fits}
use py_de.CApi.Fixed.{validate_s_p, p16, over}
use py_de.CApi.Calibration.{
  Calibration, CalTarget, CalCommand, read, cal_flow, target_value, command_value, target_of,
  command_of, set_reported, set_measured, store, format, values, from_wire_bytes, as_wire_bytes,
  is_write, no_key, int_key, supplied, is_ratio,
}

target_of-target_value : (t : CalTarget) → target_of (target_value t) ≡ ok t
unfolding target_of
target_of-target_value cal_flow = refl
target_of-target_value _ = refl

command_of-command_value : (c : CalCommand) → command_of (command_value c) ≡ ok c
unfolding command_of
command_of-command_value read = refl
command_of-command_value _ = refl

round_small : (n d : ℕ) → n ≤ 0x8000_0000 → round_ℕ (n * 1) (65536 * 65536) ≤ 1
unfolding round_ℕ
round_small n d l = ground arith

-- What fits in 32 bits passes the check of the setters, once it is scaled.
validate_signed :
    (z : ℤ) (w : ℕ)
    → to_word signed_i z ≡ ok w
    → validate_s_p (over z 65536) 32 16 ≡ ok (over z 65536)
unfolding to_word validate_s_p round_ℕ
validate_signed (pos n) w e = ground arith
validate_signed (negsuc n) w e = ground arith

store_lem :
    (k z y : ℤ) (c : CalCommand) (g : CalTarget) (s : Calibration) (w v : ℕ)
    → to_word signed_i z ≡ ok w
    → to_word signed_i y ≡ ok v
    → store (k ∷ pos (command_value c) ∷ pos (target_value g) ∷ z ∷ y ∷ []) s ≡ (
      record s {
        write_key = some k;
        command = some c;
        target = some g;
        reported = over z 65536;
        measured = over y 65536;
      },
      none,
    )
unfolding set_reported set_measured
store_lem k z y c g s w v ez ey = rw (
  command_of-command_value c,
  target_of-target_value g,
  validate_signed z w ez,
  validate_signed y v ey,
)

-- A calibration is written only if it names a command and a target and, for a write, has a key that
-- is not 0. It reads back, into any calibration, as the same command, target and key, with both
-- values rounded to a 65536th.
pub Calibration-round_trip :
    (s s' : Calibration) (bs : List ℕ) (t : Option Num)
    → as_wire_bytes s ≡ ok bs
    → (c : CalCommand) × (k : ℤ) × (s.command ≡ some c)
      × (s.write_key ≡ some k)
      × (is_write c && no_key s.write_key ≡ false)
      × (from_wire_bytes bs t s' ≡ (
        record s {
          arrival_time = t;
          reported = over (p16 (some s.reported)) 65536;
          measured = over (p16 (some s.measured)) 65536;
        },
        none,
      ))
unfolding as_wire_bytes from_wire_bytes
Calibration-round_trip s s' bs t e =
    let (g, eg, e1) = and_then-eq-ok (supplied s.target) _ e in
    let (c, ec, e2) = and_then-eq-ok (supplied s.command) _ e1 in
    elim (Bool-cases (is_write c && no_key s.write_key)) [
      | inl refused ↦ absurd (let e3 = rw refused at e2 in cc)
      | inr allowed ↦
          let e3 = rw allowed at e2 in
          let (k, ek, ep) =
            and_then-eq-ok (int_key s.write_key) (λ key. pack big format (values s key c g)) e3 in
          let fit = pack-Fits big format (values s k c g) bs (tt, (tt, (tt, (tt, (tt, tt))))) ep in
          let fz = fit.1.1.1.0 in
          let fy = fit.1.1.1.1.0 in
          (
            c,
            k,
            ground (arith, ec),
            ground (arith, ek),
            allowed,
            rw (unpack-pack big format (values s k c g) bs ep) (
                store_lem k (p16 (some s.reported)) (p16 (some s.measured)) c g
                  (record s' { arrival_time = t }) fz.0 fy.0 fz.1 fy.1
                ∙ ground (arith, ec, ek, eg)),
          )
    ]

-- Every calibration is reported as a ratio, a temperature's too.
pub is_ratio_always : (s : Calibration) → is_ratio s ≡ true
unfolding is_ratio
is_ratio_always s = refl
