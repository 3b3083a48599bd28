-- ===== src/Tests/Frames.antt =====
-- The frames of a shot, their packets and the header, on concrete values.
use py_de.Base.{
  ℕ, ◌+◌, ◌*◌, ◌<◌, ◌≤◌, ◌≡◌, refl, true, none, some, List, [], ◌∷◌, ok, and_then, replicate, arith,
}
use py_de.PyNum.{ℤ, pos, int, frac}
use py_de.Struct.{pack}
use py_de.CApi.Fixed.{p0, p1, p4, f8_1_7, f8_1_7_of, f8_1_7_decode}
use py_de.CApi.Fixed.Laws.{f8_1_7_accuracy, tenths, step}
use py_de.CApi.Frame
use py_de.CApi.Frame.{
  ShotFrame, ShotTail, as_int, from_wire_bytes, as_wire_bytes, tail_as_wire_bytes, tail_init,
}
use py_de.CApi.Frame.Laws.{quantised, ShotFrame-round_trip}
use py_de.CApi.Frame.Tail.{tail_as_wire_bytes-tail_init}
use py_de.CApi.FrameWrite
use py_de.CApi.FrameWrite.{
  FrameWrite, AnyFrame, shot, shot_ext_frame, frame_as_wire_bytes, set_frame_to_write,
}
use py_de.CApi.Header
use py_de.CApi.Header.{Header, HeaderWrite, write_as_wire_bytes, write_from_wire_bytes}
use py_de.CApi.Header.Laws.{
  IsConsistent, number_of_frames, number_of_preinfuse_frames, HeaderWrite-round_trip,
}

-- 8.6 bar at 92.3 degrees for 25.4 seconds
abbrev pour : ShotFrame
pour = record {
  arrival_time = none;
  flag = some (int 3);
  set_val = some (frac 86 10);
  temp = some (frac 923 10);
  frame_len = some (frac 254 10);
  trigger_val = some (frac 4 1);
  max_vol = some (int 100);
}

abbrev pour_bytes : List ℕ
pour_bytes = 3 ∷ 138 ∷ 185 ∷ 153 ∷ 64 ∷ 0 ∷ 100 ∷ []

as_wire_bytes-pour : as_wire_bytes pour ≡ ok pour_bytes
unfolding as_wire_bytes f8_1_7 p0 p1 p4 pack
as_wire_bytes-pour = refl

ShotFrame-round_trip_example :
    (f l : ℤ) × (as_int pour.flag ≡ ok f)
    × (f8_1_7_of pour.frame_len ≡ ok l)
    × (from_wire_bytes pour_bytes none pour ≡ (quantised pour f l none, none))
ShotFrame-round_trip_example = ShotFrame-round_trip pour pour pour_bytes none as_wire_bytes-pour

f8_1_7_accuracy_example :
    (w : ℕ) × (pos 153 ≡ pos w)
    × (w < 256)
    × (f8_1_7_decode w ≡ frac (tenths w) 10)
    × (2 * (tenths w * 10) ≤ 2 * (10 * 254) + step w * 10)
    × (2 * (10 * 254) ≤ 2 * (tenths w * 10) + step w * 10)
unfolding f8_1_7
f8_1_7_accuracy_example = f8_1_7_accuracy 254 10 (pos 153) (omega arith) refl

tail_as_wire_bytes-tail_init_example :
    and_then (tail_init (some (int 300)) (Frame.Value.bool true)) tail_as_wire_bytes
    ≡ ok (44 ∷ 129 ∷ replicate 5 0)
tail_as_wire_bytes-tail_init_example = tail_as_wire_bytes-tail_init 300 true

abbrev pour_write : FrameWrite
pour_write = record { arrival_time = none; frame_to_write = some (int 2); frame = some (shot pour) }

as_wire_bytes-pour_write : FrameWrite.as_wire_bytes pour_write ≡ ok (2 ∷ pour_bytes)
unfolding FrameWrite.as_wire_bytes p0 pack
as_wire_bytes-pour_write = rw as_wire_bytes-pour refl

-- Five frames, two of them for the preinfusion, and at most 4.5 ml/s
abbrev five_frames : Header
five_frames = record {
  arrival_time = none;
  header_v = some (pos 1);
  number_of_frames = some (pos 5);
  number_of_preinfuse_frames = some (pos 2);
  minimum_pressure = some (int 0);
  maximum_flow = some (frac 9 2);
}

abbrev five_frames_write : HeaderWrite
five_frames_write = record { arrival_time = none; header = five_frames }

write_as_wire_bytes-five_frames_write :
    write_as_wire_bytes five_frames_write ≡ ok (1 ∷ 5 ∷ 2 ∷ 0 ∷ 72 ∷ [])
unfolding write_as_wire_bytes Header.as_wire_bytes p0 p4 pack
write_as_wire_bytes-five_frames_write = refl

HeaderWrite-round_trip_example :
    IsConsistent five_frames
    × (write_from_wire_bytes (1 ∷ 5 ∷ 2 ∷ 0 ∷ 72 ∷ []) (some (int 7)) five_frames_write ≡ (
      record {
        arrival_time = some (int 7);
        header = record {
          arrival_time = some (int 7);
          header_v = some (pos 1);
          number_of_frames = some (pos 5);
          number_of_preinfuse_frames = some (pos 2);
          minimum_pressure = some (frac 0 16);
          maximum_flow = some (frac 72 16);
        };
      },
      none,
    ))
unfolding p4
HeaderWrite-round_trip_example =
    HeaderWrite-round_trip five_frames_write five_frames_write (1 ∷ 5 ∷ 2 ∷ 0 ∷ 72 ∷ [])
      (some (int 7)) write_as_wire_bytes-five_frames_write
