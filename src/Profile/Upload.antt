-- ===== src/Profile/Upload.antt =====
-- The writes of src/pyDE1/de1/profile.py that upload a profile which has been read.
use mathlib.Core.Path.{subst}
use py_de.Base.{
  ℕ, zero, suc, ◌+◌, ◌≤◌, ◌<◌, ◌≡◌, refl, ap, ◌∙◌, false, Option, none, some, List, [], ◌∷◌, All,
  arith, length, map,
}
use mathlib.Core.List.{Mem, mem-cons_self, mem-cons_of_mem}
use py_de.PyNum.{Num, int, num_lt, num_gt}
use py_de.Json.{Json, Conversions}
use py_de.Profile.{Profile, empty}
use py_de.Profile.Reading.{from_json}
use py_de.Profile.Reads.{from_json-validate}
use py_de.Profile.Writing.{
  enumerate, shot_frame_write, shot_frame_writes, ext_frame_write, with_frame,
  ext_shot_frame_writes, shot_tail_write,
}
use py_de.CApi.Frame.{ShotFrame, ShotExtFrame}
use py_de.CApi.FrameWrite
use py_de.CApi.FrameWrite.{
  FrameWrite, Class, shot_frame, shot_ext_frame, shot_tail, out_of_range, shot, ext,
}

-- The number that a write carries is one that its class's property accepts.
abbrev pub IsNumbered : Class → FrameWrite → Type 0
IsNumbered c w = (n : Num) × (w.frame_to_write ≡ some n) × (out_of_range c n ≡ false)

-- The element at a place, if there is one.
abbrev pub get_elem? {ℓ} : {A : Type ℓ} → List A → ℕ → Option A
get_elem? [] i = none
get_elem? (a ∷ l) zero = some a
get_elem? (a ∷ l) (suc i) = get_elem? l i

shot-IsNumbered :
    (n k : ℕ) (l : List ShotFrame)
    → k + n ≤ 20
    → All (IsNumbered shot_frame) (map shot_frame_write (enumerate k n l))
unfolding FrameWrite.init num_lt
shot-IsNumbered zero k l h = tt
shot-IsNumbered (suc n) k [] h = tt
shot-IsNumbered (suc n) k (f ∷ l) h =
    ((int k, refl, ground arith), shot-IsNumbered n (suc k) l (omega arith))

ext-IsNumbered :
    (n k : ℕ) (l : List (Option ShotExtFrame))
    → k + n ≤ 20
    → All (IsNumbered shot_ext_frame) (with_frame (map ext_frame_write (enumerate k n l)))
unfolding FrameWrite.init num_lt
ext-IsNumbered zero k l h = tt
ext-IsNumbered (suc n) k [] h = tt
ext-IsNumbered (suc n) k (none ∷ l) h = ext-IsNumbered n (suc k) l (omega arith)
ext-IsNumbered (suc n) k (some f ∷ l) h =
    ((int (k + 32), refl, ground arith), ext-IsNumbered n (suc k) l (omega arith))

shot-at :
    (n k i : ℕ) (l : List ShotFrame) (f : ShotFrame)
    → length l ≤ n
    → get_elem? l i ≡ some f
    → get_elem? (map shot_frame_write (enumerate k n l)) i ≡ some (shot_frame_write (k + i, f))
shot-at n k i [] f h e = absurd (cc)
shot-at zero k i (g ∷ l) f h e = absurd (omega arith)
shot-at (suc n) k zero (g ∷ l) f h e =
    let same : g ≡ f = cc in
    let start : k ≡ k + 0 = omega arith in λ j. some (shot_frame_write (start j, same j))
shot-at (suc n) k (suc i) (g ∷ l) f h e =
    shot-at n (suc k) i l f (omega arith) e
    ∙ let next : suc k + i ≡ k + suc i = omega arith in λ j. some (shot_frame_write (next j, f))

ext-mem :
    (n k i : ℕ) (l : List (Option ShotExtFrame)) (f : ShotExtFrame)
    → length l ≤ n
    → get_elem? l i ≡ some (some f)
    → Mem (ext_frame_write (k + i, some f)) (with_frame (map ext_frame_write (enumerate k n l)))
unfolding FrameWrite.init
ext-mem n k i [] f h e = absurd (cc)
ext-mem zero k i (g ∷ l) f h e = absurd (omega arith)
ext-mem (suc n) k zero (none ∷ l) f h e = absurd (cc)
ext-mem (suc n) k zero (some g ∷ l) f h e =
    let same : g ≡ f = cc in
    let start : k ≡ k + 0 = omega arith in
    subst (λ w. Mem w (with_frame (map ext_frame_write (enumerate k (suc n) (some g ∷ l)))))
      (λ j. ext_frame_write (start j, some (same j))) mem-cons_self
ext-mem (suc n) k (suc i) (none ∷ l) f h e =
    let next : suc k + i ≡ k + suc i = omega arith in
    subst
      (λ m.
        Mem (ext_frame_write (m, some f))
          (with_frame (map ext_frame_write (enumerate (suc k) n l))))
      next (ext-mem n (suc k) i l f (omega arith) e)
ext-mem (suc n) k (suc i) (some g ∷ l) f h e =
    let next : suc k + i ≡ k + suc i = omega arith in
    mem-cons_of_mem _ (
      subst
        (λ m.
          Mem (ext_frame_write (m, some f))
            (with_frame (map ext_frame_write (enumerate (suc k) n l))))
        next (ext-mem n (suc k) i l f (omega arith) e))

zero_add : (i : ℕ) → 0 + i ≡ i
zero_add i = omega arith

tail-number : (s : Profile) → (shot_tail_write s).frame_to_write ≡ some (int (length s.shot_frames))
unfolding shot_tail_write FrameWrite.init
tail-number s = refl

tail-accepted : (n : ℕ) → 0 < n → n ≤ 20 → out_of_range shot_tail (int n) ≡ false
unfolding num_gt
tail-accepted n h l = ground arith

-- Of a profile that is read without an exception, every write has a number that its class's property
-- accepts (that of the tail, if there is a frame); the frame at each place is written under the
-- number of the place, and an extension frame under 32 more.
pub from_json-IsNumbered :
    (c : Conversions) (v : Json) (s : Profile)
    → from_json c v empty ≡ (s, none)
    → All (IsNumbered shot_frame) (shot_frame_writes s)
      × All (IsNumbered shot_ext_frame) (ext_shot_frame_writes s)
      × (0 < length s.shot_frames → IsNumbered shot_tail (shot_tail_write s))
      × ((i : ℕ) (f : ShotFrame)
          → get_elem? s.shot_frames i ≡ some f
          → get_elem? (shot_frame_writes s) i
            ≡ some (FrameWrite.init (some (int i)) (some (shot f))))
      × ((i : ℕ) (f : ShotExtFrame)
          → get_elem? s.shot_ext_frames i ≡ some (some f)
          → Mem (FrameWrite.init (some (int (i + 32))) (some (ext f))) (ext_shot_frame_writes s))
unfolding shot_frame_writes ext_shot_frame_writes shot_tail_write
from_json-IsNumbered c v s e =
    let (_, _, few, balanced) = from_json-validate c v s e in
    (
      shot-IsNumbered (length s.shot_frames) 0 s.shot_frames (omega (arith, few)),
      ext-IsNumbered (length s.shot_frames) 0 s.shot_ext_frames (omega (arith, few)),
      (λ some_frame. (int (length s.shot_frames), tail-number s, tail-accepted _ some_frame few)),
      (λ i f h.
          shot-at (length s.shot_frames) 0 i s.shot_frames f (omega arith) h
          ∙ ap (λ j. some (shot_frame_write (j, f))) (zero_add i)),
      (λ i f h.
          subst (λ j. Mem (ext_frame_write (j, some f)) (ext_shot_frame_writes s)) (zero_add i)
            (ext-mem (length s.shot_frames) 0 i s.shot_ext_frames f (omega (arith, balanced)) h)),
    )
