-- ===== src/CApi/Firmware/Laws.antt =====
-- The image info and the memory window on the wire.
use py_de.Base.{ℕ, ◌≡◌, refl, Option, none, some, List, [], ◌∷◌, ok}
use py_de.PyNum.{ℤ, pos, Num}
use py_de.Struct.{big, little, i, b, q, pack}
use py_de.Struct.RoundTrip.{unpack-pack}
use py_de.CApi.Fixed.{u, p0}
use py_de.CApi.Fixed.Laws.{u-int, p0-int}
use py_de.CApi.Firmware.{
  ImageInfo, image_from_wire_bytes, image_as_wire_bytes, Window, window_from_wire_bytes,
  window_as_wire_bytes, as_num, time_init, time_as_wire_bytes,
}

-- A memory window whose offset fits in the byte that it is packed into reads back with its offset
-- and its length exchanged.
pub Window-exchanged :
    (o l : ℕ) (bs : List ℕ) (t : Option Num) (w w' : Window)
    → w.offset ≡ some o
    → w.len ≡ some l
    → window_as_wire_bytes w ≡ ok bs
    → window_from_wire_bytes bs t w'
      ≡ (record { arrival_time = t; offset = some l; len = some o }, none)
unfolding window_from_wire_bytes window_as_wire_bytes
Window-exchanged o l bs t w w' ho hl e =
    rw (unpack-pack little (i ∷ b ∷ []) (u (as_num w.len) ∷ p0 (as_num w.offset) ∷ []) bs e)
      (rw (ho, hl) (rw (u-int l, p0-int o)))

abbrev pub or_0 : Option ℕ → ℕ
or_0 none = 0
or_0 (some n) = n

u-as_num : (o : Option ℕ) → u (as_num o) ≡ pos (or_0 o)
u-as_num none = unfold u in refl
u-as_num (some n) = u-int n

-- The image info reads back as it was, `None` as 0.
pub ImageInfo-round_trip :
    (s s' : ImageInfo) (bs : List ℕ) (t : Option Num)
    → image_as_wire_bytes s ≡ ok bs
    → image_from_wire_bytes bs t s' ≡ (
      record { arrival_time = t; version = some (or_0 s.version); hash = some (or_0 s.hash) },
      none,
    )
unfolding image_from_wire_bytes image_as_wire_bytes
ImageInfo-round_trip s s' bs t e =
    rw (unpack-pack big (i ∷ q ∷ []) (u (as_num s.version) ∷ u (as_num s.hash) ∷ []) bs e)
      (rw (u-as_num s.version, u-as_num s.hash))

-- A timestamp that is given to the constructor is lost: eight zero bytes are written.
pub time_as_wire_bytes-time_init :
    (v : Option ℤ) → time_as_wire_bytes (time_init v) ≡ ok (0 ∷ 0 ∷ 0 ∷ 0 ∷ 0 ∷ 0 ∷ 0 ∷ 0 ∷ [])
unfolding time_as_wire_bytes time_init pack u
time_as_wire_bytes-time_init v = refl
