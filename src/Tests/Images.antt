-- ===== src/Tests/Images.antt =====
-- A firmware file with a remainder of two bytes.
use Prim.Native.String.{String}
use py_de.Base.{ℕ, ◌≡◌, ◌++◌, refl, none, some, List, [], ◌∷◌, Result, ok, replicate, if◌then◌else◌}
use py_de.PyNum.{pos}
use py_de.Json.{same_text}
use py_de.Struct.{pack, unpack}
use py_de.FirmwareFile.{FirmwareFile, no_file, set_content, set_filename, get_content, init}
use py_de.FirmwareFile.Loading.{loaded, set_content-image, get_content-set_filename}

abbrev words : List ℕ
words =
    1 ∷ 0 ∷ 0 ∷ 0 ∷ 1 ∷ 0 ∷ 16 ∷ 222 ∷ 0x31 ∷ 5 ∷ 0 ∷ 0 ∷ 2 ∷ 0 ∷ 0 ∷ 0 ∷ 2 ∷ 0 ∷ 0 ∷ 0 ∷ 0 ∷ 0 ∷ 0
    ∷ 0 ∷ 9 ∷ 0 ∷ 0 ∷ 0 ∷ []

abbrev front : List ℕ
front = words ++ (replicate 32 7 ++ (8 ∷ 0 ∷ 0 ∷ 0 ∷ []))

abbrev image : List ℕ
image = front ++ (70 ∷ 71 ∷ [])

abbrev an_image : FirmwareFile
an_image =
    loaded (pos 1) (pos 0xDE10_0001) (pos 1329) (pos 2) (pos 2) (pos 0) (pos 9) (pos 8)
      (replicate 32 7) front (70 ∷ 71 ∷ []) no_file

set_content-image_example : set_content (some image) no_file ≡ (an_image, none)
unfolding pack
set_content-image_example =
    set_content-image (pos 1) (pos 0xDE10_0001) (pos 1329) (pos 2) (pos 2) (pos 0) (pos 9) (pos 8)
      words (replicate 32 7) (8 ∷ 0 ∷ 0 ∷ 0 ∷ []) (70 ∷ 71 ∷ []) no_file refl refl refl

-- The first file has the image, and any other is empty.
abbrev read : String → Result (List ℕ)
read name = if same_text name "first" then ok image else ok []

abbrev file : FirmwareFile
file = record an_image { filename = some "first" }

get_content-set_filename_example :
    get_content read (set_filename (some "second") file)
    ≡ (set_filename (some "second") file, ok (some image))
unfolding init unpack
get_content-set_filename_example = get_content-set_filename read "first" (some "second") file refl
