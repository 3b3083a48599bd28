-- ===== src/FirmwareFile/Loading.antt =====
-- What FirmwareFile makes of a file's content (src/pyDE1/de1/firmware_file.py).
use Prim.Native.String.{String}
use mathlib.Core.List.{append_assoc}
use py_de.Base.{
  ℕ, ◌+◌, ◌≡◌, refl, ap, ◌∙◌, Option, none, some, List, [], ◌∷◌, ◌++◌, Result, ok, de1_value_error,
  Keeps, Keeps-finish, and_then, length, take, drop, take-append, drop-append, length-append, arith,
  Result-cases, Bool-cases, inl, inr, if◌then◌else◌,
}
use py_de.PyNum.{ℤ}
use py_de.Struct.{pack, unpack, little}
use py_de.Struct.RoundTrip.{unpack-pack, length-pack}
use py_de.FirmwareFile.{
  FirmwareFile, no_file, words_format, last_format, has_marker, populate_from, set_content,
  set_filename, load_from_file, get_content, load_missing, answer, init, with_fields, check_marker,
  clear,
}

take-drop-sum {ℓ} :
    {A : Type ℓ} (m n : ℕ) (xs ys zs : List A)
    → length xs ≡ m
    → length ys ≡ n
    → drop (m + n) (xs ++ (ys ++ zs)) ≡ zs
take-drop-sum m n xs ys zs p q =
    rw (← append_assoc xs ys zs)
      (drop-append (m + n) (xs ++ ys) zs (omega (arith, length-append xs ys)))

-- The object that an image leaves behind.
abbrev pub loaded : (a b c d e f g h : ℤ) (iv front rest : List ℕ) → FirmwareFile → FirmwareFile
loaded a b c d e f g h iv front rest s = record s {
  checksum = some a;
  board_marker = some b;
  version = some c;
  byte_count = some d;
  cpu_bytes = some e;
  unused = some f;
  dc_sum = some g;
  initialization_vector = some iv;
  header_checksum = some h;
  content = some (front ++ rest);
  header = some front;
  bytes_following = some (length rest);
}

-- The content that is made of a header's seven words, a vector of 32 bytes, a last word and a
-- remainder gives these fields and the length of the remainder, whatever the object held before;
-- the call raises DE1ValueError exactly if the second word is not the marker of the board.
pub set_content-image :
    (a b c d e f g h : ℤ) (ws iv last rest : List ℕ) (s : FirmwareFile)
    → pack little words_format (a ∷ b ∷ c ∷ d ∷ e ∷ f ∷ g ∷ []) ≡ ok ws
    → length iv ≡ 32
    → pack little last_format (h ∷ []) ≡ ok last
    → set_content (some ((ws ++ (iv ++ last)) ++ rest)) s ≡ (
      loaded a b c d e f g h iv (ws ++ (iv ++ last)) rest s,
      if has_marker (some b) then none else some de1_value_error,
    )
unfolding set_content populate_from with_fields check_marker
set_content-image a b c d e f g h ws iv last rest s p q r =
    let front = ws ++ (iv ++ last) in
    let lw = length-pack little words_format (a ∷ b ∷ c ∷ d ∷ e ∷ f ∷ g ∷ []) ws p in
    let ll = length-pack little last_format (h ∷ []) last r in
    let lf : length front ≡ 64 =
      omega (arith, lw, ll, length-append ws (iv ++ last), length-append iv last) in
    rw
      (
        take-append 64 front rest lf,
        drop-append 64 front rest lf,
        take-append 28 ws (iv ++ last) lw,
        unpack-pack little words_format (a ∷ b ∷ c ∷ d ∷ e ∷ f ∷ g ∷ []) ws p,
        take-drop-sum 28 32 ws iv last lw q,
        unpack-pack little last_format (h ∷ []) last r,
        drop-append 28 ws (iv ++ last) lw,
        take-append 32 iv last q,
      )
      (elim (Bool-cases (has_marker (some b))) [ inl e ↦ rw e refl | inr e ↦ rw e refl ])

content-with_fields :
    (ws : List ℤ) (iv : List ℕ) (l : List ℤ) (s : FirmwareFile)
    → (with_fields ws iv l s).content ≡ s.content
unfolding with_fields
content-with_fields (a ∷ b ∷ c ∷ d ∷ e ∷ f ∷ g ∷ []) iv (h ∷ []) s = refl
content-with_fields ws iv l s = refl

content-check_marker : (s : FirmwareFile) → (check_marker s).0.content ≡ s.content
unfolding check_marker
content-check_marker s = elim (Bool-cases (has_marker s.board_marker)) [
  | inl e ↦ rw e refl
  | inr e ↦ rw e refl
]

populate_from-Keeps :
    (bs : List ℕ) (c : Option (List ℕ)) → Keeps (λ s. s.content ≡ c) (populate_from bs)
unfolding populate_from
populate_from-Keeps bs c s e =
    elim (Result-cases (unpack little words_format (take 28 (take 64 bs)))) [
      | inl (ws, p) ↦ elim (Result-cases (unpack little last_format (drop 60 (take 64 bs)))) [
        | inl (l, q) ↦
            rw (p, q)
              (let iv = take 32 (drop 28 (take 64 bs)) in
                let t : FirmwareFile = record (with_fields ws iv l s) {
                  header = some (take 64 bs);
                  bytes_following = some (length (drop 64 bs));
                } in
                content-check_marker t ∙ content-with_fields ws iv l s ∙ e)
        | inr (x, q) ↦ rw (p, q) e
      ]
      | inr (x, p) ↦ rw p e
    ]

-- Once a file has been loaded, the content stays that file's, also after another name is set: the
-- content that is given is what the first file holds, and the object is not changed by asking for it.
pub get_content-set_filename :
    (read : String → Result (List ℕ)) (name : String) (other : Option String) (s : FirmwareFile)
    → init read none (some name) ≡ ok s
    → get_content read (set_filename other s)
      ≡ (set_filename other s, and_then (read name) (λ bs. ok (some bs)))
unfolding init get_content set_filename clear load_from_file set_content
get_content-set_filename read name other s h = elim (Result-cases (read name)) [
  | inl (bs, e) ↦
      let k : s.content ≡ some bs =
        Keeps-finish (λ s. s.content ≡ some bs) (populate_from bs)
          (record no_file { filename = some name; content = some bs }) s
          (populate_from-Keeps bs (some bs)) refl (rw e at h) in
      ap (λ c. answer (load_missing read c other (set_filename other s))) k ∙ rw (k, e) refl
  | inr (x, e) ↦ absurd (let g = rw e at h in cc)
]
