-- ===== src/Profile/Reads.antt =====
-- What a profile is that `from_json` of src/pyDE1/de1/profile.py has read without an exception.
use Prim.Native.String.{String}
use mathlib.Core.Path.{subst}
use py_de.Base.{
  ℕ, suc, ◌≤◌, ◌≡◌, refl, ap, ◌∙◌, Bool, true, false, not, ◌&&◌, Option, none, some, List, [], ◌∷◌,
  Error, Result, ok, err, attribute_error, key_error, de1_api_too_many_frames_error,
  de1_api_value_error, Result-cases, inl, inr, assign, arith, length, length-append, and_then, ltb,
  if◌then◌else◌,
}
use py_de.Base.Ensures.{
  Ensures, Ensures-assign, Ensures-raise, Ensures-then, Ensures-if, Ensures-bind,
}
use py_de.PyNum.{ℤ, pos, Num}
use py_de.Profile.{Profile, empty}
use py_de.Json.{Json, Conversions, get, contains, iterate, float_of}
use py_de.Profile.Reading.{
  read_step, read_steps, check_version, read_header, read_rest, from_json, flags, set_val,
  trigger_val, ext_frame, set_number_of_frames, append_weight, weight_of, optional, strip_weights,
  optional_float,
}
use py_de.Profile.Writing.{validate, counts, refuse_unless, is_some, number_of_frames}
use py_de.CApi.Header
use py_de.CApi.Header.{Header}
use py_de.CApi.Frame

-- There is one extension frame, or none in its place, for each frame.
abbrev pub IsBalanced : Profile → Type 0
IsBalanced s = length s.shot_ext_frames ≡ length s.shot_frames

abbrev IsAhead : Profile → Type 0
IsAhead s = suc (length s.shot_ext_frames) ≡ length s.shot_frames

append_weight-keeps : (w : Option Num) → Ensures IsBalanced (append_weight w) IsBalanced
append_weight-keeps w = record { after = λ s p e. go s s.move_on_weight_list p e }
  where
    go :
        (s : Profile) (l : Option (List (Option Num)))
        → IsBalanced s
        → (append_weight w (record s { move_on_weight_list = l })).1 ≡ none
        → IsBalanced (append_weight w (record s { move_on_weight_list = l })).0
    go s none p e = p
    go s (some l) p e = p

read_step-keeps : (c : Conversions) (step : Json) → Ensures IsBalanced (read_step c step) IsBalanced
unfolding read_step
read_step-keeps c step = Ensures-bind (get step "pump") _ λ pump _.
    Ensures-bind (get step "sensor") _ λ sensor _.
      Ensures-bind (get step "transition") _ λ transition _.
        Ensures-bind (float_of c step "temperature") _ λ temperature _.
          Ensures-bind (float_of c step "seconds") _ λ seconds _.
            Ensures-bind (float_of c step "volume") _ λ volume _.
              Ensures-bind (weight_of c step) _ λ weight _.
                Ensures-then IsBalanced (append_weight weight) _ (append_weight-keeps weight) (
                  Ensures-bind (flags step pump sensor transition) _ λ flag _.
                    Ensures-bind (set_val c step pump) _ λ value _.
                      Ensures-bind (trigger_val c step) _ λ trigger _.
                        Ensures-bind (Frame.init _ _ _ _ _ _) _ λ frame _.
                          Ensures-then IsAhead (assign _) _
                            (Ensures-assign _
                              (λ s p. omega (arith, p, length-append s.shot_frames (frame ∷ []))))
                            (Ensures-bind (ext_frame c step) _ λ ext _. Ensures-assign _ (λ s p.
                              omega (arith, p, length-append s.shot_ext_frames (ext ∷ [])))))

read_steps-keeps :
    (c : Conversions) (steps : List Json) → Ensures IsBalanced (read_steps c steps) IsBalanced
unfolding read_step
read_steps-keeps c [] = Ensures-assign _ (λ s p. p)
read_steps-keeps c (step ∷ steps) =
    Ensures-then IsBalanced (read_step c step) _ (read_step-keeps c step) (read_steps-keeps c steps)

-- The header has the number of the frames, and there are not too many.
abbrev IsCounted : Profile → Type 0
IsCounted s =
    IsBalanced s
    × ((h : Header) × (s.header ≡ some h)
        × (h.number_of_frames ≡ some (pos (length s.shot_frames))))
    × (length s.shot_frames ≤ 20)

last_check :
    (a b c : Bool) (x y z : Error) (u : Unit {0})
    → (if a then err x else if b then err y else if c then err z else ok tt) ≡ ok u
    → c ≡ false
last_check true b c x y z u e = absurd (cc)
last_check false true c x y z u e = absurd (cc)
last_check false false true x y z u e = absurd (cc)
last_check false false false x y z u e = refl

few_frames :
    (npi : Option ℤ) (n : ℕ) (u : Unit {0}) → Header.check_counts npi (some (pos n)) ≡ ok u → n ≤ 20
few_frames npi n u e =
    let few : ltb 20 n ≡ false =
      last_check (Header.exceeds npi (some Header.max_frames)) (Header.exceeds npi (some (pos n)))
        (ltb 20 n) de1_api_too_many_frames_error de1_api_value_error de1_api_too_many_frames_error u
        e in
    ground arith

set_number-counts :
    (n : ℕ) (h : Header)
    → (Header.set_number_of_frames (some (pos n)) h).1 ≡ none
    → ((Header.set_number_of_frames (some (pos n)) h).0.number_of_frames ≡ some (pos n)) × (n ≤ 20)
unfolding Header.set_number_of_frames Header.check_frame_numbers
set_number-counts n h e =
    elim (Result-cases (Header.check_counts h.number_of_preinfuse_frames (some (pos n)))) [
      | inl (u, q) ↦ (rw q refl, few_frames h.number_of_preinfuse_frames n u q)
      | inr (x, q) ↦ absurd (let e' : some x ≡ none = rw q at e in cc)
    ]

set_number_of_frames-counts : Ensures IsBalanced set_number_of_frames IsCounted
unfolding set_number_of_frames
set_number_of_frames-counts = record { after = λ s p e. go s s.header p e }
  where
    go :
        (s : Profile) (h : Option Header)
        → IsBalanced s
        → (set_number_of_frames (record s { header = h })).1 ≡ none
        → IsCounted (set_number_of_frames (record s { header = h })).0
    go s none p e = absurd (let x : some attribute_error ≡ none = e in cc)
    go s (some h) p e =
        let (n, f) = set_number-counts (length s.shot_frames) h e in (p, (_, refl, n), f)

abbrev IsComplete : Profile → Type 0
IsComplete s = IsCounted s × ((t : Frame.ShotTail) × (s.tail ≡ some t))

optional_float-keeps :
    (c : Conversions) (v : Json) (k : String) (set : Num → Profile → Profile)
    → ((x : Num) (s : Profile) → IsComplete s → IsComplete (set x s))
    → Ensures IsComplete (optional_float c v k set) IsComplete
optional_float-keeps c v k set h =
    Ensures-if (contains v k) _ _
      (Ensures-bind (float_of c v k) _ λ x _. Ensures-assign (set x) (h x))
      (Ensures-assign _ (λ s p. p))

optional-keeps :
    (r : Result Json) (set : Json → Profile → Profile)
    → ((x : Json) (s : Profile) → IsComplete s → IsComplete (set x s))
    → Ensures IsComplete (optional r set) IsComplete
optional-keeps (ok x) set h = Ensures-assign (set x) (h x)
optional-keeps (err key_error) set h = Ensures-assign (λ s. s) (λ s p. p)
optional-keeps (err e) set h = Ensures-raise _

read_rest-completes : (c : Conversions) (v : Json) → Ensures IsBalanced (read_rest c v) IsComplete
unfolding read_rest
read_rest-completes c v =
    Ensures-then IsCounted set_number_of_frames _ set_number_of_frames-counts (
      Ensures-bind (float_of c v "target_volume") _ λ volume _.
        Ensures-bind (Frame.tail_init _ _) _ λ tail _.
          Ensures-then IsComplete (assign (λ s. record s { tail = some tail })) _
            (Ensures-assign (λ s. record s { tail = some tail }) (λ s p. (p, (tail, refl))))
            (Ensures-then IsComplete _ _ (optional_float-keeps c v _ _ (λ x s p. p)) (
              Ensures-then IsComplete _ _ (optional_float-keeps c v _ _ (λ x s p. p)) (
                Ensures-then IsComplete _ _ (optional_float-keeps c v _ _ (λ x s p. p)) (
                  Ensures-then IsComplete _ _ (optional_float-keeps c v _ _ (λ x s p. p)) (
                    Ensures-then IsComplete _ _ (optional-keeps (get v "title") _ (λ x s p. p)) (
                      Ensures-then IsComplete _ _ (optional-keeps (get v "author") _ (λ x s p. p)) (
                        Ensures-then IsComplete _ _ (optional-keeps (get v "notes") _ (λ x s p. p))
                          (Ensures-then IsComplete _ _
                            (optional-keeps (get v "beverage_type") _ (λ x s p. p))
                            (Ensures-assign strip_weights (λ s p. p)))))))))))

read_header-keeps : (c : Conversions) (v : Json) → Ensures IsBalanced (read_header c v) IsBalanced
unfolding read_header
read_header-keeps c v =
    Ensures-then IsBalanced (assign (λ s. record s { move_on_weight_list = some [] })) _
      (Ensures-assign (λ s. record s { move_on_weight_list = some [] }) (λ s p. p))
      (Ensures-bind (check_version c v) _ λ _ _.
        Ensures-then IsBalanced (assign (λ s. record s { is_json_v2 = true })) _
          (Ensures-assign (λ s. record s { is_json_v2 = true }) (λ s p. p))
          (Ensures-bind (float_of c v "target_volume_count_start") _ λ start _.
            Ensures-bind (Header.init _ _ _ _ _) _
              λ header _. Ensures-assign (λ s. record s { header = some header }) (λ s p. p)))

from_json-completes : (c : Conversions) (v : Json) → Ensures IsBalanced (from_json c v) IsComplete
unfolding from_json
from_json-completes c v = Ensures-then IsBalanced (read_header c v) _ (read_header-keeps c v) (
    Ensures-bind (and_then (get v "steps") iterate) _ λ steps _.
      Ensures-then IsBalanced (read_steps c steps) _ (read_steps-keeps c steps)
        (read_rest-completes c v))

all-pass :
    (a b c d : Bool)
    → a ≡ true
    → b ≡ true
    → c ≡ true
    → d ≡ true
    → refuse_unless a (refuse_unless b (refuse_unless c (refuse_unless d (ok true)))) ≡ ok true
all-pass a b c d ha hb hc hd = rw (ha, hb, hc, hd) refl

header-number :
    (s : Profile) (h : Header) → s.header ≡ some h → number_of_frames s ≡ h.number_of_frames
header-number s h g =
    ap (λ (o : Option Header). elim o [ none ↦ none | some h ↦ h.number_of_frames ]) g

is_some-some {ℓ} : {A : Type ℓ} (o : Option A) (a : A) → o ≡ some a → is_some o ≡ true
is_some-some o a e = rw e refl

validate_complete : (s : Profile) → IsComplete s → validate s ≡ ok true
unfolding validate
validate_complete s ((b, (h, g, n), f), (t, u)) =
    let l : ℕ = length s.shot_frames in
    let counted : counts l (number_of_frames s) ≡ true =
      ap (counts l) (header-number s h g ∙ n) ∙ ground arith in
    all-pass (is_some s.header && is_some s.tail) (counts l (number_of_frames s)) _ (not (ltb 20 l))
      (rw (is_some-some s.header h g, is_some-some s.tail t u) refl) counted (ground arith)
      (ground arith)

-- A profile that is read without an exception passes `validate`; it has a header that counts its
-- frames, 20 of them at most, and for each frame an extension frame or none in its place.
pub from_json-validate :
    (c : Conversions) (v : Json) (s : Profile)
    → from_json c v empty ≡ (s, none)
    → (validate s ≡ ok true)
      × (number_of_frames s ≡ some (pos (length s.shot_frames)))
      × (length s.shot_frames ≤ 20)
      × (length s.shot_ext_frames ≡ length s.shot_frames)
from_json-validate c v s e =
    let complete : IsComplete (from_json c v empty).0 =
      (from_json-completes c v).after empty refl (ap (λ r. r.1) e) in
    let done : IsComplete s = subst IsComplete (ap (λ r. r.0) e) complete in
    let ((b, (h, g, n), f), _) = done in (validate_complete s done, header-number s h g ∙ n, f, b)
