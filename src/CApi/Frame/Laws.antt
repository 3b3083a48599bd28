-- ===== src/CApi/Frame/Laws.antt =====
-- A frame that was written reads as the same frame, up to the resolution of its fields.
use py_de.Base.{
  ℕ, ◌≡◌, Option, none, some, List, [], ◌∷◌, ok, and_then-eq-ok, Option-cases, inl, inr, length,
}
use py_de.PyNum.{ℤ, Num, nat}
use py_de.Struct.{big, little, pack}
use py_de.Struct.RoundTrip.{unpack-pack, length-pack}
use py_de.CApi.Fixed.{p0, p1, p4, over, f8_1_7_of, f8_1_7_decode}
use py_de.CApi.Frame.{
  ShotFrame, ShotExtFrame, ShotTail, format, values, as_int, from_wire_bytes, as_wire_bytes,
  ext_format, ext_from_wire_bytes, ext_as_wire_bytes, tail_format, tail_as_wire_bytes,
}

abbrev pub quantised : ShotFrame → ℤ → ℤ → Option Num → ShotFrame
quantised s f l t = record {
  arrival_time = t;
  flag = some (over f 1);
  set_val = some (over (p4 s.set_val) 16);
  temp = some (over (p1 s.temp) 2);
  frame_len = some (f8_1_7_decode (nat l));
  trigger_val = some (over (p4 s.trigger_val) 16);
  max_vol = some (over (p0 s.max_vol) 1);
}

-- A frame that was written is read, into any frame, as itself with each field rounded to the
-- resolution of its format: sixteenths, halves, whole numbers, and F8_1_7 for the length.
pub ShotFrame-round_trip :
    (s s' : ShotFrame) (bs : List ℕ) (t : Option Num)
    → as_wire_bytes s ≡ ok bs
    → (f l : ℤ) × (as_int s.flag ≡ ok f)
      × (f8_1_7_of s.frame_len ≡ ok l)
      × (from_wire_bytes bs t s' ≡ (quantised s f l t, none))
unfolding as_wire_bytes from_wire_bytes
ShotFrame-round_trip s s' bs t e =
    let (l, el, e1) = and_then-eq-ok (f8_1_7_of s.frame_len) _ e in
    let (f, ef, e2) = and_then-eq-ok (as_int s.flag) (λ f. pack big format (values s f l)) e1 in
    (f, l, ef, el, rw (unpack-pack big format (values s f l) bs e2))

pub ShotExtFrame-round_trip :
    (s s' : ShotExtFrame) (bs : List ℕ) (t : Option Num)
    → ext_as_wire_bytes s ≡ ok bs
    → ext_from_wire_bytes bs t s' ≡ (
      record {
        arrival_time = t;
        max_flow_or_pressure = some (over (p4 s.max_flow_or_pressure) 16);
        max_fo_p_range = some (over (p4 s.max_fo_p_range) 16);
      },
      none,
    )
unfolding ext_as_wire_bytes ext_from_wire_bytes
ShotExtFrame-round_trip s s' bs t e =
    rw (unpack-pack little ext_format (p4 s.max_flow_or_pressure ∷ p4 s.max_fo_p_range ∷ []) bs e)

pub length-as_wire_bytes : (s : ShotFrame) (bs : List ℕ) → as_wire_bytes s ≡ ok bs → length bs ≡ 7
unfolding as_wire_bytes
length-as_wire_bytes s bs e =
    let (l, el, e1) = and_then-eq-ok (f8_1_7_of s.frame_len) _ e in
    let (f, ef, e2) = and_then-eq-ok (as_int s.flag) (λ f. pack big format (values s f l)) e1 in
    length-pack big format (values s f l) bs e2

pub length-ext_as_wire_bytes :
    (s : ShotExtFrame) (bs : List ℕ) → ext_as_wire_bytes s ≡ ok bs → length bs ≡ 7
unfolding ext_as_wire_bytes
length-ext_as_wire_bytes s bs e =
    length-pack little ext_format (p4 s.max_flow_or_pressure ∷ p4 s.max_fo_p_range ∷ []) bs e

pub length-tail_as_wire_bytes :
    (s : ShotTail) (bs : List ℕ) → tail_as_wire_bytes s ≡ ok bs → length bs ≡ 7
unfolding tail_as_wire_bytes
length-tail_as_wire_bytes s bs e = elim (Option-cases s.ignore_pi) [
  | inl missing ↦ absurd (let f = rw missing at e in cc)
  | inr (pi, given) ↦ length-pack little tail_format _ bs (rw given at e)
]
