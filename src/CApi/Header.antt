-- ===== src/CApi/Header.antt =====
-- ShotDescHeader and HeaderWrite of c_api.py. The version and the frame counts are integers.
pub mod Laws
use py_de.Base.{
  ℕ, Bool, true, false, ◌||◌, Option, none, some, List, [], ◌∷◌, Error, Result, ok, err,
  value_error, de1_api_value_error, de1_api_too_many_frames_error, Method, assign, raise, finish,
  ◌>>◌, ◌>>=◌, if◌then◌else◌, and_then, ◌==◌,
}
use py_de.PyNum.{ℤ, pos, negsuc, Num, lt_ℤ}
use py_de.Struct.{big, Code, b, pack, unpack}
use py_de.CApi.Fixed.{validate_u_p_noneok, p0, p4, over}

abbrev pub max_frames : ℤ
max_frames = pos 20

pub record Header : Type 0 where
  pub arrival_time : Option Num
  pub header_v : Option ℤ
  pub number_of_frames : Option ℤ
  pub number_of_preinfuse_frames : Option ℤ
  pub minimum_pressure : Option Num
  pub maximum_flow : Option Num

abbrev pub blank : Header
blank = record {
  arrival_time = none;
  header_v = none;
  number_of_frames = none;
  number_of_preinfuse_frames = none;
  minimum_pressure = none;
  maximum_flow = none;
}

abbrev pub exceeds : Option ℤ → Option ℤ → Bool
exceeds (some m) (some n) = lt_ℤ n m
exceeds _ _ = false

-- `_check_frame_numbers` on the two counts that are in force.
abbrev pub check_counts : Option ℤ → Option ℤ → Result (Unit {0})
check_counts npi nf =
    if exceeds npi (some max_frames)
    then err de1_api_too_many_frames_error
    else if exceeds npi nf
    then err de1_api_value_error
    else if exceeds nf (some max_frames)
    then err de1_api_too_many_frames_error
    else ok tt

abbrev pub given {ℓ} : {A : Type ℓ} → Option A → Option A → Option A
given none old = old
given (some a) old = some a

-- An argument that is `None` stands for the object's own count.
unfoldable pub check_frame_numbers : Option ℤ → Option ℤ → Method Header
check_frame_numbers npi nf s =
    (do
      _ ← check_counts (given npi s.number_of_preinfuse_frames) (given nf s.number_of_frames)
      assign (λ r. r))
      s

-- The integer 1, or `None`.
unfoldable pub set_header_v : Option ℤ → Method Header
set_header_v none = assign (λ s. record s { header_v = none })
set_header_v (some v) = elim v [
  | pos n ↦
      if n == 1
      then assign (λ s. record s { header_v = some (pos n) })
      else raise de1_api_value_error
  | negsuc n ↦ raise de1_api_value_error
]

unfoldable pub set_number_of_frames : Option ℤ → Method Header
unfolding check_frame_numbers
set_number_of_frames v = do
  check_frame_numbers none v
  assign (λ s. record s { number_of_frames = v })

unfoldable pub set_number_of_preinfuse_frames : Option ℤ → Method Header
unfolding check_frame_numbers
set_number_of_preinfuse_frames v = do
  check_frame_numbers v none
  assign (λ s. record s { number_of_preinfuse_frames = v })

unfoldable pub set_minimum_pressure : Option Num → Method Header
set_minimum_pressure v = do
  w ← validate_u_p_noneok v 8 4
  assign (λ s. record s { minimum_pressure = w })

unfoldable pub set_maximum_flow : Option Num → Method Header
set_maximum_flow v = do w ← validate_u_p_noneok v 8 4; assign (λ s. record s { maximum_flow = w })

unfoldable pub init : (v nf npi : Option ℤ) → (p f : Option Num) → Result Header
unfolding check_frame_numbers set_header_v set_minimum_pressure set_maximum_flow
init v nf npi p f = finish (
    (do
      set_header_v v
      assign (λ s. record s { number_of_frames = nf; number_of_preinfuse_frames = npi })
      check_frame_numbers none none
      assign (λ s. record s { minimum_pressure = none; maximum_flow = none })
      set_minimum_pressure p
      set_maximum_flow f)
      blank)

abbrev pub format : List Code
format = b ∷ b ∷ b ∷ b ∷ b ∷ []

abbrev pub store : List ℤ → Method Header
store (v ∷ nf ∷ npi ∷ p ∷ f ∷ []) = assign λ s. record s {
  header_v = some v;
  number_of_frames = some nf;
  number_of_preinfuse_frames = some npi;
  minimum_pressure = some (over p 16);
  maximum_flow = some (over f 16);
}
store _ = raise value_error

unfoldable pub from_wire_bytes : List ℕ → Option Num → Method Header
from_wire_bytes bs t = do
  assign (λ s. record s { arrival_time = t })
  vs ← unpack big format bs
  store vs

abbrev pub count : Option ℤ → Option Num
count none = none
count (some z) = some (over z 1)

abbrev pub values : Header → List ℤ
values s =
    p0 (count s.header_v)
    ∷ p0 (count s.number_of_frames)
    ∷ p0 (count s.number_of_preinfuse_frames)
    ∷ p4 s.minimum_pressure
    ∷ p4 s.maximum_flow
    ∷ []

unfoldable pub as_wire_bytes : Header → Result (List ℕ)
as_wire_bytes s =
    and_then (check_counts s.number_of_preinfuse_frames s.number_of_frames)
      λ _. pack big format (values s)

pub record HeaderWrite : Type 0 where
  pub arrival_time : Option Num
  pub header : Header

unfoldable pub write_as_wire_bytes : HeaderWrite → Result (List ℕ)
write_as_wire_bytes s = as_wire_bytes s.header

abbrev on_header : Method Header → Method HeaderWrite
on_header m s = let (v, e) = m s.header in (record s { header = v }, e)

unfoldable pub write_from_wire_bytes : List ℕ → Option Num → Method HeaderWrite
write_from_wire_bytes bs t = do
  assign (λ s. record s { arrival_time = t })
  on_header (from_wire_bytes bs t)
