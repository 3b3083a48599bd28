-- ===== src/CApi/Sample/Laws.antt =====
-- What a sample packet reads as, and that nothing is lost in reading it.
use py_de.Base.{
  ℕ, ◌+◌, ◌*◌, ◌/◌, ◌%◌, ◌<◌, ◌≡◌, refl, Option, none, some, List, [], ◌∷◌, ok, arith, length,
}
use py_de.PyNum.{pos, Num, frac, int, nat}
use py_de.Struct.{big, h, unpack}
use py_de.Struct.Bytes.{AreBytes}
use py_de.CApi.Fixed.{validate_u_p_noneok}
use py_de.CApi.Sample.{ShotState, ShotSample, from_wire_bytes, sample_from_wire_bytes}

abbrev pub word : ℕ → ℕ → ℕ
word hi lo = hi * 256 + lo

-- The fields of a state packet of seventeen bytes, in order.
abbrev pub reading :
    (gp1 gp0 gf1 gf0 mt1 mt0 ht2 ht1 ht0 sm1 sm0 sh1 sh0 sp sf fn st : ℕ) → Option Num → ShotState
reading gp1 gp0 gf1 gf0 mt1 mt0 ht2 ht1 ht0 sm1 sm0 sh1 sh0 sp sf fn st t = record {
  arrival_time = t;
  group_pressure = some (frac (word gp1 gp0) 4096);
  group_flow = some (frac (word gf1 gf0) 4096);
  mix_temp = some (frac (word mt1 mt0) 256);
  head_temp = some (frac (ht2 * 65536 + word ht1 ht0) 65536);
  set_mix_temp = some (frac (word sm1 sm0) 256);
  set_head_temp = some (frac (word sh1 sh0) 256);
  set_group_pressure = some (frac sp 16);
  set_group_flow = some (frac sf 16);
  frame_number = some (int fn);
  steam_temp = some (int st);
}

pub from_wire_bytes_lem :
    (gp1 gp0 gf1 gf0 mt1 mt0 ht2 ht1 ht0 sm1 sm0 sh1 sh0 sp sf fn st : ℕ) (t : Option Num)
    (s : ShotState)
    → from_wire_bytes
        (gp1 ∷ gp0 ∷ gf1 ∷ gf0 ∷ mt1 ∷ mt0 ∷ ht2 ∷ ht1 ∷ ht0 ∷ sm1 ∷ sm0 ∷ sh1 ∷ sh0 ∷ sp ∷ sf ∷ fn
          ∷ st ∷ [])
        t
        s
      ≡ (reading gp1 gp0 gf1 gf0 mt1 mt0 ht2 ht1 ht0 sm1 sm0 sh1 sh0 sp sf fn st t, none)
unfolding from_wire_bytes unpack
from_wire_bytes_lem gp1 gp0 gf1 gf0 mt1 mt0 ht2 ht1 ht0 sm1 sm0 sh1 sh0 sp sf fn st t s =
    ground arith

validate_word : (n : ℕ) → n < 65536 → validate_u_p_noneok (some (int n)) 16 0 ≡ ok (some (int n))
unfolding validate_u_p_noneok
validate_word n l = ground arith

unpack-word : (a b : ℕ) → unpack big (h ∷ []) (a ∷ b ∷ []) ≡ ok (pos (word a b) ∷ [])
unfolding unpack
unpack-word a b = ground arith

sample_from_wire_bytes_lem :
    (t1 t0 gp1 gp0 gf1 gf0 mt1 mt0 ht2 ht1 ht0 sm1 sm0 sh1 sh0 sp sf fn st : ℕ) (t : Option Num)
    (s : ShotSample)
    → t1 < 256
    → t0 < 256
    → sample_from_wire_bytes
        (t1 ∷ t0 ∷ gp1 ∷ gp0 ∷ gf1 ∷ gf0 ∷ mt1 ∷ mt0 ∷ ht2 ∷ ht1 ∷ ht0 ∷ sm1 ∷ sm0 ∷ sh1 ∷ sh0 ∷ sp
          ∷ sf ∷ fn ∷ st ∷ [])
        t
        s
      ≡ (
        record {
          arrival_time = t;
          sample_time = some (int (word t1 t0));
          state = reading gp1 gp0 gf1 gf0 mt1 mt0 ht2 ht1 ht0 sm1 sm0 sh1 sh0 sp sf fn st t;
        },
        none,
      )
unfolding sample_from_wire_bytes
sample_from_wire_bytes_lem t1 t0 gp1 gp0 gf1 gf0 mt1 mt0 ht2 ht1 ht0 sm1 sm0 sh1 sh0 sp sf fn st t s
      h1 h0 =
    rw (unpack-word t1 t0, validate_word (word t1 t0) (omega arith), from_wire_bytes_lem)

val : Option Num → ℕ
val none = 0
val (some v) = nat v.num

abbrev two : Option Num → List ℕ → List ℕ
two v r = (val v / 256) ∷ (val v % 256) ∷ r

-- The bytes that a sample came from.
unfoldable pub bytes_of : ShotSample → List ℕ
unfolding val
bytes_of s = two s.sample_time (
    two s.state.group_pressure (
      two s.state.group_flow (
        two s.state.mix_temp (
          (val s.state.head_temp / 65536)
          ∷ (val s.state.head_temp / 256 % 256)
          ∷ (val s.state.head_temp % 256)
          ∷ two s.state.set_mix_temp (
              two s.state.set_head_temp (
                val s.state.set_group_pressure
                ∷ val s.state.set_group_flow
                ∷ val s.state.frame_number
                ∷ val s.state.steam_temp
                ∷ []))))))

two-word : (a b d : ℕ) (r : List ℕ) → b < 256 → two (some (frac (word a b) d)) r ≡ a ∷ b ∷ r
unfolding val
two-word a b d r l = ground arith

-- Every packet of nineteen bytes is taken, and nothing of it is lost: from the sample that was read
-- the nineteen bytes can be computed, whatever the sample held before.
pub ShotSample-lossless :
    (bs : List ℕ) (t : Option Num) (s : ShotSample)
    → AreBytes bs
    → length bs ≡ 19
    → ((sample_from_wire_bytes bs t s).1 ≡ none) × (bytes_of (sample_from_wire_bytes bs t s).0 ≡ bs)
unfolding bytes_of
ShotSample-lossless
      (t1 ∷ t0 ∷ a1 ∷ a0 ∷ b1 ∷ b0 ∷ c1 ∷ c0 ∷ d2 ∷ d1 ∷ d0 ∷ e1 ∷ e0 ∷ f1 ∷ f0 ∷ g ∷ k ∷ i ∷ j
        ∷ [])
      t s p n =
    rw
      (sample_from_wire_bytes_lem t1 t0 a1 a0 b1 b0 c1 c0 d2 d1 d0 e1 e0 f1 f0 g k i j t s
        (omega arith) (omega arith))
      (refl, unfold val in ground arith)
ShotSample-lossless _ t s p n = absurd (omega arith)
