-- ===== src/CApi/FrameWrite/Laws.antt =====
-- The packet of a frame: its number, and seven bytes.
use py_de.Base.{
  ℕ, ◌≤◌, ◌<◌, ◌≡◌, refl, sym, ap, Option, none, some, List, [], ◌∷◌, ◌++◌, ok, and_then-eq-ok,
  ok-injective, arith, length, length-append, not_implemented_error, de1_api_value_error, ◌⊎◌,
}
use py_de.PyNum.{Num, int, num_lt, num_gt}
use py_de.Struct.{big, b, pack}
use py_de.Struct.RoundTrip.{length-pack}
use py_de.CApi.Fixed.{p0}
use py_de.CApi.Frame.Laws.{
  length-as_wire_bytes, length-ext_as_wire_bytes, length-tail_as_wire_bytes,
}
use py_de.CApi.FrameWrite.{
  Class, shot_frame, shot_ext_frame, shot_tail, AnyFrame, shot, ext, tail, FrameWrite,
  frame_as_wire_bytes, as_wire_bytes, from_wire_bytes, set_frame_to_write,
}

length-frame_as_wire_bytes :
    (f : Option AnyFrame) (bs : List ℕ) → frame_as_wire_bytes f ≡ ok bs → length bs ≡ 7
length-frame_as_wire_bytes none bs e = absurd (cc)
length-frame_as_wire_bytes (some (shot s)) bs e = length-as_wire_bytes s bs e
length-frame_as_wire_bytes (some (ext s)) bs e = length-ext_as_wire_bytes s bs e
length-frame_as_wire_bytes (some (tail s)) bs e = length-tail_as_wire_bytes s bs e

-- A frame is written, whatever its kind, as eight bytes: its number, and then the frame itself.
pub length-write :
    (s : FrameWrite) (bs : List ℕ)
    → as_wire_bytes s ≡ ok bs
    → (length bs ≡ 8)
      × (xs ys : List ℕ) × (bs ≡ xs ++ ys)
      × (pack big (b ∷ []) (p0 s.frame_to_write ∷ []) ≡ ok xs)
      × (frame_as_wire_bytes s.frame ≡ ok ys)
unfolding as_wire_bytes
length-write s bs e =
    let (xs, ex, e1) = and_then-eq-ok (pack big (b ∷ []) (p0 s.frame_to_write ∷ [])) _ e in
    let (ys, ey, e2) = and_then-eq-ok (frame_as_wire_bytes s.frame) (λ f. ok (xs ++ f)) e1 in
    let together = ok-injective e2 in
    let n1 = length-pack big (b ∷ []) (p0 s.frame_to_write ∷ []) xs ex in
    let n2 = length-frame_as_wire_bytes s.frame ys ey in
    (omega (arith, ap length together, length-append xs ys), xs, ys, sym together, ex, ey)

-- Reading a frame packet raises `NotImplementedError` in all three classes, and changes nothing.
pub FrameWrite-unreadable :
    (c : Class) (bs : List ℕ) (t : Option Num) (s : FrameWrite)
    → from_wire_bytes c bs t s ≡ (s, some not_implemented_error)
unfolding from_wire_bytes
FrameWrite-unreadable c bs t s = refl

abbrev pub InRange : Class → ℕ → Type 0
InRange shot_frame n = n < 20
InRange shot_ext_frame n = (32 ≤ n) × (n < 52)
InRange shot_tail n = (0 < n) × (n ≤ 20)

-- A frame number that is set to an integer n is taken exactly if it is in the range of its kind of
-- frame, and otherwise the setter raises and the number stays as it was.
pub set_frame_to_write_range :
    (c : Class) (n : ℕ) (s : FrameWrite)
    → ((set_frame_to_write c (some (int n)) s ≡ (record s { frame_to_write = some (int n) }, none))
        × InRange c n)
      ⊎ ((set_frame_to_write c (some (int n)) s ≡ (s, some de1_api_value_error)) × ¬ (InRange c n))
unfolding set_frame_to_write num_lt num_gt
set_frame_to_write_range shot_frame n s = ground arith
set_frame_to_write_range _ n s = ground arith
