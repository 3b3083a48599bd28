-- ===== src/Tests/Profiles.antt =====
-- A profile of two steps, read and uploaded.
use py_de.Base.{
  ℕ, ◌≡◌, ◌≤◌, ◌<◌, ◌+◌, refl, true, false, ok, err, none, some, [], ◌∷◌, All, length, value_error,
  arith,
}
use mathlib.Core.List.{Mem}
use py_de.PyNum.{int, frac, pos, round_scaled}
use py_de.Json.{Json, Conversions}
use py_de.Profile.{empty}
use py_de.Profile.Reading.{from_json}
use py_de.Profile.Writing.{
  validate, number_of_frames, shot_frame_writes, ext_shot_frame_writes, shot_tail_write,
}
use py_de.Profile.Reads.{from_json-validate}
use py_de.Profile.Upload.{IsNumbered, get_elem?, from_json-IsNumbered}
use py_de.Profile.Steps.{Step}
use py_de.Profile.Steps.Frames.{IsInRange}
use py_de.Profile.Recipes.{Recipe, render, profile_of, from_json-render}
use py_de.CApi.Fixed.{validate_u_p_noneok, validate_f8_1_7_noneok}
use py_de.CApi.Frame.{ShotFrame, ShotExtFrame}
use py_de.CApi.FrameWrite
use py_de.CApi.FrameWrite.{shot_frame, shot_ext_frame, shot_tail, shot, ext}

-- Texts are not read as numbers here.
abbrev no_texts : Conversions
no_texts = record { parse = λ s. err value_error; render = λ v. "" }

abbrev fill : Step
fill = record {
  controls_flow = true;
  flow = int 4;
  pressure = int 6;
  temperature = int 92;
  seconds = int 20;
  volume = int 100;
  mix_temperature = false;
  smooth = false;
  exit = some (record { over = true; of_flow = false; value = int 3 });
  limit = none;
  weight = none;
}

abbrev pour : Step
pour = record {
  controls_flow = false;
  flow = int 2;
  pressure = int 9;
  temperature = frac 185 2;
  seconds = int 60;
  volume = int 0;
  mix_temperature = true;
  smooth = true;
  exit = none;
  limit = some (record { value = int 5; range = frac 6 10 });
  weight = some (int 36);
}

abbrev recipe : Recipe
recipe = record {
  title = Json.str "Two steps";
  preinfuse_frames = 1;
  target_volume = 300;
  steps = fill ∷ pour ∷ [];
}

recipe-IsInRange : All IsInRange (fill ∷ pour ∷ [])
unfolding validate_u_p_noneok validate_f8_1_7_noneok round_scaled
recipe-IsInRange =
    ((refl, refl, refl, refl, refl, tt), ((refl, refl, refl, refl, refl, (refl, refl, refl)), tt))

recipe-read : from_json no_texts (render recipe) empty ≡ (profile_of recipe, none)
recipe-read =
    from_json-render no_texts recipe recipe-IsInRange (omega arith) (omega arith) (omega arith)

from_json-render_example : from_json no_texts (render recipe) empty ≡ (profile_of recipe, none)
from_json-render_example =
    from_json-render no_texts recipe recipe-IsInRange (omega arith) (omega arith) (omega arith)

from_json-validate_example :
    (validate (profile_of recipe) ≡ ok true)
    × (number_of_frames (profile_of recipe) ≡ some (pos 2))
    × (2 ≤ 20)
    × (length (profile_of recipe).shot_ext_frames ≡ length (profile_of recipe).shot_frames)
from_json-validate_example =
    from_json-validate no_texts (render recipe) (profile_of recipe) recipe-read

from_json-IsNumbered_example :
    All (IsNumbered shot_frame) (shot_frame_writes (profile_of recipe))
    × All (IsNumbered shot_ext_frame) (ext_shot_frame_writes (profile_of recipe))
    × (0 < 2 → IsNumbered shot_tail (shot_tail_write (profile_of recipe)))
    × ((i : ℕ) (f : ShotFrame)
        → get_elem? (profile_of recipe).shot_frames i ≡ some f
        → get_elem? (shot_frame_writes (profile_of recipe)) i
          ≡ some (FrameWrite.init (some (int i)) (some (shot f))))
    × ((i : ℕ) (f : ShotExtFrame)
        → get_elem? (profile_of recipe).shot_ext_frames i ≡ some (some f)
        → Mem
            (FrameWrite.init (some (int (i + 32))) (some (ext f)))
            (ext_shot_frame_writes (profile_of recipe)))
from_json-IsNumbered_example =
    from_json-IsNumbered no_texts (render recipe) (profile_of recipe) recipe-read
