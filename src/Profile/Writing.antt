-- ===== src/Profile/Writing.antt =====
-- `validate` of src/pyDE1/de1/profile.py, and the writes that upload a profile.
use py_de.Base.{
  ℕ, zero, suc, ◌+◌, Bool, true, false, not, ◌&&◌, Option, none, some, List, [], ◌∷◌, Result, ok,
  err, profile_validation_error, length, map, ltb, ◌==◌, if◌then◌else◌,
}
use mathlib.Core.Option
use py_de.PyNum.{ℤ, pos, negsuc, int}
use py_de.Profile.{Profile}
use py_de.CApi.Header.{HeaderWrite}
use py_de.CApi.Frame.{ShotFrame, ShotExtFrame}
use py_de.CApi.FrameWrite
use py_de.CApi.FrameWrite.{FrameWrite, AnyFrame, shot, ext, tail}

abbrev pub is_some {ℓ} : {A : Type ℓ} → Option A → Bool
is_some none = false
is_some (some a) = true

-- `len(frames) != header.NumberOfFrames`
abbrev pub counts : ℕ → Option ℤ → Bool
counts n none = false
counts n (some (pos m)) = n == m
counts n (some (negsuc m)) = false

abbrev pub refuse_unless : Bool → Result Bool → Result Bool
refuse_unless true r = r
refuse_unless false r = err profile_validation_error

abbrev pub number_of_frames : Profile → Option ℤ
number_of_frames s = elim s.header [ none ↦ none | some h ↦ h.number_of_frames ]

-- The types of the frames and of the tail are those of the record. The lengths that are compared
-- third are both of the extension frames.
unfoldable pub validate : Profile → Result Bool
validate s = refuse_unless (is_some s.header && is_some s.tail) (
    refuse_unless (counts (length s.shot_frames) (number_of_frames s)) (
      refuse_unless (not (ltb (length s.shot_ext_frames) (length s.shot_ext_frames)))
        (refuse_unless (not (ltb 20 (length s.shot_frames))) (ok true))))

-- `zip(range(k, k + n), l)`
abbrev pub enumerate {ℓ} : {A : Type ℓ} → ℕ → ℕ → List A → List (ℕ × A)
enumerate k zero l = []
enumerate k (suc n) [] = []
enumerate k (suc n) (a ∷ l) = (k, a) ∷ enumerate (suc k) n l

-- `header_write`, of a profile that has a header
unfoldable pub header_write : Profile → Option HeaderWrite
header_write s = Option.map (λ h. record { arrival_time = none; header = h }) s.header

abbrev pub shot_frame_write : ℕ × ShotFrame → FrameWrite
shot_frame_write (n, f) = FrameWrite.init (some (int n)) (some (shot f))

unfoldable pub shot_frame_writes : Profile → List FrameWrite
shot_frame_writes s = map shot_frame_write (enumerate 0 (length s.shot_frames) s.shot_frames)

abbrev ext_offset : ℕ
ext_offset = 32

abbrev pub ext_frame_write : ℕ × Option ShotExtFrame → FrameWrite
ext_frame_write (n, f) = FrameWrite.init (some (int (n + ext_offset))) (Option.map ext f)

-- `filter(lambda fw : fw.Frame is not None, ...)`
abbrev pub with_frame : List FrameWrite → List FrameWrite
with_frame [] = []
with_frame (w ∷ ws) = let rest = with_frame ws in if is_some w.frame then w ∷ rest else rest

unfoldable pub ext_shot_frame_writes : Profile → List FrameWrite
ext_shot_frame_writes s =
    with_frame (map ext_frame_write (enumerate 0 (length s.shot_frames) s.shot_ext_frames))

unfoldable pub shot_tail_write : Profile → FrameWrite
shot_tail_write s = FrameWrite.init (some (int (length s.shot_frames))) (Option.map tail s.tail)
