-- ===== src/FirmwareFile.antt =====
-- src/pyDE1/de1/firmware_file.py: FirmwareFile. What `open` and `read` give for a file's name is the
-- argument `read`.
pub mod Loading
use Prim.Native.String.{String}
use py_de.Base.{
  ℕ, Bool, true, false, Option, none, some, List, [], ◌∷◌, Error, Result, ok, err, value_error,
  type_error, de1_value_error, Method, assign, raise, finish, ◌>>◌, ◌>>=◌, length, take, drop, ◌==◌,
  if◌then◌else◌,
}
use mathlib.Core.Option
use py_de.PyNum.{ℤ, pos, negsuc}
use py_de.Struct.{Code, i, little, unpack}

-- `header` and `bytes_following` are none where `__init__` leaves the attribute out.
pub record FirmwareFile : Type 0 where
  pub filename : Option String
  pub checksum : Option ℤ
  pub board_marker : Option ℤ
  pub version : Option ℤ
  pub byte_count : Option ℤ
  pub cpu_bytes : Option ℤ
  pub unused : Option ℤ
  pub dc_sum : Option ℤ
  pub initialization_vector : Option (List ℕ)
  pub header_checksum : Option ℤ
  pub content : Option (List ℕ)
  pub header : Option (List ℕ)
  pub bytes_following : Option ℕ

abbrev pub no_file : FirmwareFile
no_file = record {
  filename = none;
  checksum = none;
  board_marker = none;
  version = none;
  byte_count = none;
  cpu_bytes = none;
  unused = none;
  dc_sum = none;
  initialization_vector = none;
  header_checksum = none;
  content = none;
  header = none;
  bytes_following = none;
}

-- `_clear`
unfoldable pub clear : FirmwareFile → FirmwareFile
clear s = record s {
  checksum = none;
  board_marker = none;
  version = none;
  byte_count = none;
  cpu_bytes = none;
  unused = none;
  dc_sum = none;
  initialization_vector = none;
  header_checksum = none;
}

unfoldable pub set_filename : Option String → FirmwareFile → FirmwareFile
unfolding clear
set_filename name s = record (clear s) { filename = name }

-- The words of the format `IIIIIII32sI` that stand before and after the initialization vector.
abbrev pub words_format : List Code
words_format = i ∷ i ∷ i ∷ i ∷ i ∷ i ∷ i ∷ []

abbrev pub last_format : List Code
last_format = i ∷ []

-- The nine attributes; the formats give no other lists than of seven and of one.
unfoldable pub with_fields : List ℤ → List ℕ → List ℤ → FirmwareFile → FirmwareFile
with_fields (a ∷ b ∷ c ∷ d ∷ e ∷ f ∷ g ∷ []) iv (h ∷ []) s = record s {
  checksum = some a;
  board_marker = some b;
  version = some c;
  byte_count = some d;
  cpu_bytes = some e;
  unused = some f;
  dc_sum = some g;
  initialization_vector = some iv;
  header_checksum = some h;
}
with_fields _ iv _ s = s

abbrev pub has_marker : Option ℤ → Bool
has_marker (some (pos n)) = n == 0xDE10_0001
has_marker _ = false

unfoldable pub check_marker : Method FirmwareFile
check_marker s = if has_marker s.board_marker then (s, none) else (s, some de1_value_error)

-- `_populate_from_content`, on the content
unfoldable pub populate_from : List ℕ → Method FirmwareFile
unfolding with_fields check_marker
populate_from content =
    let front = take 64 content in
    do
      words ← unpack little words_format (take 28 front)
      last ← unpack little last_format (drop 60 front)
      assign (with_fields words (take 32 (drop 28 front)) last)
      assign
          (λ s. record s { header = some front; bytes_following = some (length (drop 64 content)) })
      check_marker

-- `content`'s setter; `None` has no slices.
unfoldable pub set_content : Option (List ℕ) → Method FirmwareFile
unfolding populate_from
set_content none = do assign (λ s. record s { content = none }); raise type_error
set_content (some bs) = do assign (λ s. record s { content = some bs }); populate_from bs

-- What the getter answers.
abbrev pub answer : FirmwareFile × Option Error → FirmwareFile × Result (Option (List ℕ))
answer (s, none) = (s, ok s.content)
answer (s, some x) = (s, err x)

module _ (read : String → Result (List ℕ)) where
  -- `_load_from_file`; `open(None)` raises.
  unfoldable pub load_from_file : Method FirmwareFile
  unfolding set_content
  load_from_file s = elim s.filename [
    | none ↦ (s, some type_error)
    | some name ↦ (do bs ← read name; set_content (some bs)) s
  ]

  -- The file is read where there is no content, and a name.
  unfoldable pub load_missing : Option (List ℕ) → Option String → Method FirmwareFile
  unfolding load_from_file
  load_missing (some bs) name s = (s, none)
  load_missing none none s = (s, none)
  load_missing none (some name) s = load_from_file s

  -- `content`: the object that it leaves behind, and what it returns.
  unfoldable pub get_content : FirmwareFile → FirmwareFile × Result (Option (List ℕ))
  unfolding load_missing
  get_content s = answer (load_missing s.content s.filename s)

  -- `__init__`
  unfoldable pub init : Option (List ℕ) → Option String → Result FirmwareFile
  unfolding set_filename load_from_file set_content
  init (some bs) (some name) = err value_error
  init none (some name) = finish (load_from_file (set_filename (some name) no_file))
  init (some bs) none = finish (set_content (some bs) no_file)
  init none none = ok no_file
