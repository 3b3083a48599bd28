-- ===== src/CApi/Temperature/Laws.antt =====
-- What is read of a temperature packet, and what a packet of a wrong length leaves.
use py_de.Base.{
  ℕ, ◌+◌, ◌*◌, ◌≡◌, ◌≢◌, Option, none, some, List, [], ◌∷◌, ◌++◌, struct_error, arith, length,
  take-append, drop-append,
}
use py_de.PyNum.{Num, frac}
use py_de.Struct.{big, unpack}
use py_de.Struct.Length.{unpack-length_ne}
use py_de.CApi.Temperature.{
  TemperatureSet, Temperatures, format, from_wire_bytes, temperatures_from_wire_bytes,
}

unfoldable pub reading : ℕ → ℕ → Option Num
reading hi lo = some (frac (hi * 256 + lo) 256)

-- Eight bytes are four big-endian readings in 256ths of a degree.
pub from_wire_bytes_lem :
    (a b c d e f g h : ℕ) (t : Option Num) (s : TemperatureSet)
    → from_wire_bytes (a ∷ b ∷ c ∷ d ∷ e ∷ f ∷ g ∷ h ∷ []) t s ≡ (
      record {
        arrival_time = t;
        water_heater = reading a b;
        steam_heater = reading c d;
        group_heater = reading e f;
        cold_water = reading g h;
      },
      none,
    )
unfolding from_wire_bytes unpack reading
from_wire_bytes_lem a b c d e f g h t s = ground arith

-- Eight bytes are always taken.
from_wire_bytes-no_error :
    (bs : List ℕ) (t : Option Num) (s : TemperatureSet)
    → length bs ≡ 8
    → (from_wire_bytes bs t s).1 ≡ none
from_wire_bytes-no_error (a ∷ b ∷ c ∷ d ∷ e ∷ f ∷ g ∷ h ∷ []) t s n = rw from_wire_bytes_lem
from_wire_bytes-no_error _ t s n = absurd (omega arith)

-- Any other length is refused, and only the arrival time has changed.
pub from_wire_bytes-length_ne :
    (bs : List ℕ) (t : Option Num) (s : TemperatureSet)
    → length bs ≢ 8
    → from_wire_bytes bs t s ≡ (record s { arrival_time = t }, some struct_error)
unfolding from_wire_bytes
from_wire_bytes-length_ne bs t s n = rw (unpack-length_ne big format bs n)

-- The first eight bytes are the current set and the rest is the target. Where the rest is no
-- packet, the current set has been replaced when the error leaves, and the target has only its
-- arrival time changed.
pub Temperatures-split :
    (xs ys : List ℕ) (t : Option Num) (s : Temperatures)
    → length xs ≡ 8
    → temperatures_from_wire_bytes (xs ++ ys) t s ≡ (
      record {
        arrival_time = t;
        current = (from_wire_bytes xs t s.current).0;
        target = (from_wire_bytes ys t s.target).0;
      },
      (from_wire_bytes ys t s.target).1,
    )
unfolding temperatures_from_wire_bytes
Temperatures-split xs ys t s n =
    rw (take-append 8 xs ys n, drop-append 8 xs ys n)
      (let e = from_wire_bytes-no_error xs t s.current n in rw e)
