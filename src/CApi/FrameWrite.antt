-- ===== src/CApi/FrameWrite.antt =====
-- FrameWrite of c_api.py and its three subclasses, one for each kind of frame.
pub mod Laws
use py_de.Base.{
  ℕ, Bool, true, false, not, ◌||◌, Option, none, some, List, [], ◌∷◌, ◌++◌, Error, Result, ok, err,
  attribute_error, de1_api_value_error, de1_api_type_error, not_implemented_error, Method, assign,
  raise, finish, ◌>>◌, ◌>>=◌, take, drop, and_then, if◌then◌else◌,
}
use py_de.PyNum.{ℤ, Num, num_lt, num_gt}
use py_de.Struct.{big, Code, b, pack, unpack}
use py_de.CApi.Fixed.{p0, over}
use py_de.CApi.Frame
use py_de.CApi.Frame.{ShotFrame, ShotExtFrame, ShotTail}

-- FrameWrite_ShotFrame, FrameWrite_ShotExtFrame and FrameWrite_ShotTail
pub data Class : Type 0 where
  shot_frame shot_ext_frame shot_tail : Class

pub data AnyFrame : Type 0 where
  shot : ShotFrame → AnyFrame
  ext : ShotExtFrame → AnyFrame
  tail : ShotTail → AnyFrame

pub record FrameWrite : Type 0 where
  pub arrival_time : Option Num
  pub frame_to_write : Option Num
  pub frame : Option AnyFrame

-- The constructors store their arguments, and check neither.
unfoldable pub init : Option Num → Option AnyFrame → FrameWrite
init n f = record { arrival_time = none; frame_to_write = n; frame = f }

abbrev pub frame_as_wire_bytes : Option AnyFrame → Result (List ℕ)
frame_as_wire_bytes none = err attribute_error
frame_as_wire_bytes (some (shot s)) = Frame.as_wire_bytes s
frame_as_wire_bytes (some (ext s)) = Frame.ext_as_wire_bytes s
frame_as_wire_bytes (some (tail s)) = Frame.tail_as_wire_bytes s

unfoldable pub as_wire_bytes : FrameWrite → Result (List ℕ)
as_wire_bytes s =
    and_then (pack big (b ∷ []) (p0 s.frame_to_write ∷ []))
      λ n. and_then (frame_as_wire_bytes s.frame) λ f. ok (n ++ f)

-- The parent class implements no reading, and each subclass calls it first.
unfoldable pub parent_from_wire_bytes : List ℕ → Option Num → Method FrameWrite
parent_from_wire_bytes bs t = raise not_implemented_error

-- `not (0 <= value < 20)`, and so on
abbrev pub out_of_range : Class → Num → Bool
out_of_range shot_frame v = num_lt v 0 1 || not (num_lt v 20 1)
out_of_range shot_ext_frame v = num_lt v 32 1 || not (num_lt v 52 1)
out_of_range shot_tail v = not (num_gt v 0 1) || num_gt v 20 1

unfoldable pub set_frame_to_write : Class → Option Num → Method FrameWrite
set_frame_to_write c none = assign (λ s. record s { frame_to_write = none })
set_frame_to_write c (some v) =
    if out_of_range c v
    then raise de1_api_value_error
    else assign (λ s. record s { frame_to_write = some v })

abbrev pub fits : Class → Option AnyFrame → Bool
fits c none = true
fits shot_frame (some (shot s)) = true
fits shot_ext_frame (some (ext s)) = true
fits shot_tail (some (tail s)) = true
fits _ _ = false

unfoldable pub set_frame : Class → Option AnyFrame → Method FrameWrite
set_frame c f = if fits c f then assign (λ s. record s { frame = f }) else raise de1_api_type_error

-- `unpack('>B', wire_bytes[0:1])[0]`
abbrev first : List ℤ → Option Num
first [] = none
first (v ∷ vs) = some (over v 1)

abbrev set_number : Class → List ℕ → Method FrameWrite
set_number c bs = do vs ← unpack big (b ∷ []) (take 1 bs); set_frame_to_write c (first vs)

-- What stands below the parent's call. The extension frame reads with its own class again, which
-- makes the parent's call first. `ShotTail()` masks its `None`.
abbrev pub own_from_wire_bytes : Class → List ℕ → Option Num → Method FrameWrite
own_from_wire_bytes shot_frame bs t = do
  set_number shot_frame bs
  f ← finish (Frame.from_wire_bytes (drop 1 bs) t Frame.blank)
  set_frame shot_frame (some (shot f))
own_from_wire_bytes shot_ext_frame bs t = do
  set_number shot_ext_frame bs
  parent_from_wire_bytes (drop 1 bs) t
own_from_wire_bytes shot_tail bs t = do
  set_number shot_tail bs
  new ← Frame.tail_init none (Frame.Value.bool true)
  f ← finish (Frame.tail_from_wire_bytes (drop 1 bs) t new)
  set_frame shot_tail (some (tail f))

unfoldable pub from_wire_bytes : Class → List ℕ → Option Num → Method FrameWrite
unfolding parent_from_wire_bytes
from_wire_bytes c bs t = do parent_from_wire_bytes bs t; own_from_wire_bytes c bs t
