-- ===== src/Struct.antt =====
-- The part of Python's `struct` that the wire formats use: `pack` and `unpack` of fixed-width
-- integers in either byte order, with no alignment. Bytes are numbers below 256.
-- A format with no prefix is native: little-endian, on the machines that the program runs on, and no
-- format of the program has a gap for alignment there.
pub mod Bytes
pub mod RoundTrip
pub mod Length
use py_de.Base.{
  ℕ, zero, suc, ◌+◌, ◌-◌, ◌*◌, ◌/◌, ◌%◌, ◌^◌, ◌≡◌, refl, Bool, true, false, List, [], ◌∷◌, ◌++◌,
  reverse, Result, ok, err, and_then, Error, struct_error, ltb, leb, length, take, drop, replicate,
  if◌then◌else◌,
}
use py_de.PyNum.{ℤ, pos, negsuc}

pub data Order : Type 0 where
  big little : Order

-- `B`, `H`, `I` or `L`, `Q`, `i`, and `x`, a pad byte, which stands for no value
pub data Code : Type 0 where
  b h i q signed_i x : Code

abbrev pub width : Code → ℕ
width b = 1
width h = 2
width i = 4
width q = 8
width signed_i = 4
width x = 1

unfoldable pub le_bytes : ℕ → ℕ → List ℕ
le_bytes zero n = []
le_bytes (suc w) n = (n % 256) ∷ le_bytes w (n / 256)

unfoldable pub of_le_bytes : List ℕ → ℕ
of_le_bytes [] = 0
of_le_bytes (c ∷ cs) = c + 256 * of_le_bytes cs

unfoldable pub to_bytes : Order → ℕ → ℕ → List ℕ
unfolding le_bytes
to_bytes big w n = reverse (le_bytes w n)
to_bytes little w n = le_bytes w n

unfoldable pub of_bytes : Order → List ℕ → ℕ
unfolding of_le_bytes
of_bytes big cs = of_le_bytes (reverse cs)
of_bytes little cs = of_le_bytes cs

abbrev pub limit : Code → ℕ
limit c = 256 ^ width c

-- The bit pattern of a value that the code can hold.
unfoldable pub to_word : Code → ℤ → Result ℕ
to_word signed_i (pos n) = if ltb n 0x8000_0000 then ok n else err struct_error
to_word signed_i (negsuc n) =
    if ltb n 0x8000_0000 then ok (0x1_0000_0000 - 1 - n) else err struct_error
to_word c (pos n) = if ltb n (limit c) then ok n else err struct_error
to_word c (negsuc n) = err struct_error

unfoldable pub of_word : Code → ℕ → ℤ
of_word signed_i n = if ltb n 0x8000_0000 then pos n else negsuc (0x1_0000_0000 - 1 - n)
of_word c n = pos n

unfoldable pub pack : Order → List Code → List ℤ → Result (List ℕ)
unfolding to_word to_bytes
pack o [] [] = ok []
pack o [] (v ∷ vs) = err struct_error
pack o (x ∷ cs) vs = and_then (pack o cs vs) (λ r. ok (0 ∷ r))
pack o (c ∷ cs) [] = err struct_error
pack o (c ∷ cs) (v ∷ vs) =
    let rest = pack o cs vs in
    and_then (to_word c v) (λ w. and_then rest (λ r. ok (to_bytes o (width c) w ++ r)))

abbrev pub value : Order → Code → List ℕ → List ℤ → List ℤ
value o x bs vs = vs
value o c bs vs = of_word c (of_bytes o bs) ∷ vs

-- A buffer of another length than the format's is refused.
unfoldable pub unpack : Order → List Code → List ℕ → Result (List ℤ)
unfolding of_word of_bytes
unpack o [] [] = ok []
unpack o [] (_ ∷ _) = err struct_error
unpack o (c ∷ cs) bs =
    let rest = unpack o cs (drop (width c) bs) in
    if leb (width c) (length bs)
    then and_then rest (λ vs. ok (value o c (take (width c) bs) vs))
    else err struct_error

abbrev pub size : List Code → ℕ
size [] = 0
size (c ∷ cs) = width c + size cs

-- the number of values
abbrev pub count : List Code → ℕ
count [] = 0
count (x ∷ cs) = count cs
count (c ∷ cs) = suc (count cs)

pack_example :
    pack big (b ∷ h ∷ signed_i ∷ x ∷ []) (pos 7 ∷ pos 0x1234 ∷ negsuc 1 ∷ [])
    ≡ ok (7 ∷ 0x12 ∷ 0x34 ∷ 255 ∷ 255 ∷ 255 ∷ 254 ∷ 0 ∷ [])
unfolding pack
pack_example = refl

unpack_example :
    unpack big (b ∷ h ∷ signed_i ∷ []) (7 ∷ 0x12 ∷ 0x34 ∷ 255 ∷ 255 ∷ 255 ∷ 254 ∷ [])
    ≡ ok (pos 7 ∷ pos 0x1234 ∷ negsuc 1 ∷ [])
unfolding unpack
unpack_example = refl
