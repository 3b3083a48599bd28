-- ===== src/CApi/Header/Laws.antt =====
-- The frame counts of a header, and its round trip.
use py_de.Base.{
  ℕ, ◌≡◌, refl, false, Option, none, some, List, [], ◌∷◌, Error, ok, and_then-eq-ok, arith, Method,
}
use py_de.PyNum.{ℤ, pos, Num, lt_ℤ}
use py_de.Struct.{big}
use py_de.Struct.RoundTrip.{unpack-pack}
use py_de.CApi.Fixed.{p0, p4, over}
use py_de.CApi.Fixed.Laws.{p0-over}
use py_de.CApi.Header.{
  Header, HeaderWrite, max_frames, check_counts, set_header_v, set_number_of_frames,
  set_number_of_preinfuse_frames, set_minimum_pressure, set_maximum_flow, format, values, count,
  from_wire_bytes, as_wire_bytes, write_as_wire_bytes, write_from_wire_bytes,
}

abbrev pub AtMost : Option ℤ → Option ℤ → Type 0
AtMost (some m) (some n) = lt_ℤ n m ≡ false
AtMost _ _ = Unit

-- At most twenty frames, and no more of them for the preinfusion than there are.
pub record IsConsistent (s : Header) : Type 0 where
  pub frames : AtMost s.number_of_frames (some max_frames)
  pub preinfuse : AtMost s.number_of_preinfuse_frames (some max_frames)
  pub ordered : AtMost s.number_of_preinfuse_frames s.number_of_frames

-- Every assignment that the class offers for its counts and limits.
pub data Call : Type 0 where
  header_v number_of_frames number_of_preinfuse_frames : Option ℤ → Call
  minimum_pressure maximum_flow : Option Num → Call

unfoldable pub call : Call → Method Header
unfolding set_header_v set_number_of_frames set_number_of_preinfuse_frames set_minimum_pressure
    set_maximum_flow
call (header_v v) = set_header_v v
call (number_of_frames v) = set_number_of_frames v
call (number_of_preinfuse_frames v) = set_number_of_preinfuse_frames v
call (minimum_pressure v) = set_minimum_pressure v
call (maximum_flow v) = set_maximum_flow v

unfoldable pub calls : List Call → Header → Header
calls [] s = s
calls (c ∷ cs) s = calls cs (call c s).0

-- An assignment that raises has changed nothing.
pub call_atomic : (c : Call) (s : Header) (e : Error) → (call c s).1 ≡ some e → (call c s).0 ≡ s
unfolding call
call_atomic c s e h = ground arith

abbrev pub or_zero : Option ℤ → ℤ
or_zero none = pos 0
or_zero (some z) = z

p0-count : (o : Option ℤ) → p0 (count o) ≡ or_zero o
p0-count none = unfold p0 in refl
p0-count (some z) = p0-over z

check_counts-ok :
    (s : Header)
    → check_counts s.number_of_preinfuse_frames s.number_of_frames ≡ ok tt
    → IsConsistent s
check_counts-ok s e = ground arith

-- Only a header is written whose counts, where they are set, are at most twenty, with no more frames
-- for the preinfusion than frames. It is read back, into any header, with its counts, an unset one as
-- zero, and with its limits in sixteenths.
pub HeaderWrite-round_trip :
    (s s' : HeaderWrite) (bs : List ℕ) (t : Option Num)
    → write_as_wire_bytes s ≡ ok bs
    → IsConsistent s.header
      × (write_from_wire_bytes bs t s' ≡ (
        record {
          arrival_time = t;
          header = record {
            arrival_time = t;
            header_v = some (or_zero s.header.header_v);
            number_of_frames = some (or_zero s.header.number_of_frames);
            number_of_preinfuse_frames = some (or_zero s.header.number_of_preinfuse_frames);
            minimum_pressure = some (over (p4 s.header.minimum_pressure) 16);
            maximum_flow = some (over (p4 s.header.maximum_flow) 16);
          };
        },
        none,
      ))
unfolding write_as_wire_bytes write_from_wire_bytes as_wire_bytes from_wire_bytes
HeaderWrite-round_trip s s' bs t e =
    let h = s.header in
    let (_, checked, e1) =
      and_then-eq-ok (check_counts h.number_of_preinfuse_frames h.number_of_frames) _ e in
    (
      check_counts-ok h checked,
      rw (unpack-pack big format (values h) bs e1) (
          rw (
            p0-count h.header_v,
            p0-count h.number_of_frames,
            p0-count h.number_of_preinfuse_frames,
          )),
    )
