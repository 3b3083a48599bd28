-- ===== src/Profile/Steps/Frames.antt =====
-- The frames that src/pyDE1/de1/profile.py builds of steps.
use py_de.Base.{
  ℕ, ◌<◌, ◌≡◌, refl, Bool, true, false, Option, none, some, List, [], ◌∷◌, ◌++◌, ok, arith,
  if◌then◌else◌,
}
use py_de.PyNum.{pos, lt_ℤ, Num, int, round_ℕ, round_scaled}
use py_de.Json.{Conversions, get, contains, is_text, float}
use py_de.Profile.{Profile}
use py_de.Profile.Reading.{read_step, set_val, trigger_val, ext_frame, weight_of}
use py_de.Profile.Steps.{
  Step, Exit, Limit, choose, render_step, flag_bits, exit_value, frame_of, limit_of,
}
use py_de.Profile.Steps.Flags.{flags-render}
use py_de.CApi.Fixed.{validate_u_p, validate_u_p_noneok, validate_f8_1_7_noneok}
use py_de.CApi.Frame
use py_de.CApi.Frame.{ShotFrame, ShotExtFrame}

-- A value that the property of its field takes.
abbrev pub IsTaken : Num → (bits fraction : ℕ) → Type 0
IsTaken v bits fraction = validate_u_p_noneok (some v) bits fraction ≡ ok (some v)

abbrev pub IsLimit : Option Limit → Type 0
IsLimit none = Unit
IsLimit (some l) =
    (lt_ℤ (pos 0) (round_scaled l.value 100 1) ≡ true) × IsTaken l.value 8 4 × IsTaken l.range 8 4

-- A step whose values the properties of the frames take; a limit is positive in its two first digits.
abbrev pub IsInRange : Step → Type 0
IsInRange s =
    IsTaken (if s.controls_flow then s.flow else s.pressure) 8 4
    × IsTaken s.temperature 8 1
    × (validate_f8_1_7_noneok (some s.seconds) ≡ ok (some s.seconds))
    × IsTaken (exit_value s.exit) 8 4
    × IsTaken s.volume 10 0
    × IsLimit s.limit

byte-IsTaken : (n : ℕ) → n < 256 → IsTaken (int n) 8 0
unfolding validate_u_p_noneok validate_u_p round_scaled round_ℕ
byte-IsTaken n h = ground arith

flag_bits-byte : (s : Step) → flag_bits s < 256
flag_bits-byte s = go s.exit
  where
    go : (e : Option Exit) → flag_bits (record s { exit = e }) < 256
    go none = ground arith
    go (some e) = ground arith

init-frame_of :
    (s : Step)
    → IsInRange s
    → Frame.init
        (some (int (flag_bits s)))
        (some (if s.controls_flow then s.flow else s.pressure))
        (some s.temperature)
        (some s.seconds)
        (some (exit_value s.exit))
        (some s.volume)
      ≡ ok (frame_of s)
unfolding Frame.init Frame.set
init-frame_of s (hv, ht, hs, hg, hm, hl) =
    rw (byte-IsTaken (flag_bits s) (flag_bits-byte s), hv, ht, hs, hg, hm) refl

module _ (c : Conversions) where
  set_val-render :
      (s : Step)
      → set_val c (render_step s) (choose s.controls_flow "flow" "pressure")
        ≡ ok (if s.controls_flow then s.flow else s.pressure)
  unfolding set_val get is_text float
  set_val-render s = go s.controls_flow
    where
      go :
          (b : Bool)
          → set_val c (render_step (record s { controls_flow = b })) (choose b "flow" "pressure")
            ≡ ok (if b then s.flow else s.pressure)
      go true = refl
      go false = refl

  trigger_val-render : (s : Step) → trigger_val c (render_step s) ≡ ok (exit_value s.exit)
  unfolding trigger_val get contains float
  trigger_val-render s = go s.exit s.limit s.weight
    where
      go :
          (e : Option Exit) (l : Option Limit) (w : Option Num)
          → trigger_val c (render_step (record s { exit = e; limit = l; weight = w }))
            ≡ ok (exit_value e)
      go none none none = refl
      go none none (some w) = refl
      go none (some l) none = refl
      go none (some l) (some w) = refl
      go (some e) l w = refl

  weight_of-render : (s : Step) → weight_of c (render_step s) ≡ ok s.weight
  unfolding get contains float
  weight_of-render s = go s.exit s.limit s.weight
    where
      go :
          (e : Option Exit) (l : Option Limit) (w : Option Num)
          → weight_of c (render_step (record s { exit = e; limit = l; weight = w })) ≡ ok w
      go none none none = refl
      go none none (some w) = refl
      go none (some l) none = refl
      go none (some l) (some w) = refl
      go (some e) none none = refl
      go (some e) none (some w) = refl
      go (some e) (some l) none = refl
      go (some e) (some l) (some w) = refl

  ext_frame-limited :
      (s : Step) (e : Option Exit) (l : Limit)
      → IsLimit (some l)
      → ext_frame c (render_step (record s { exit = e; limit = some l })) ≡ ok (limit_of (some l))
  unfolding ext_frame get contains float Frame.ext_set
  ext_frame-limited s none l (p, v, r) = rw (p, v, r) refl
  ext_frame-limited s (some e) l (p, v, r) = rw (p, v, r) refl

  ext_frame-render :
      (s : Step) → IsLimit s.limit → ext_frame c (render_step s) ≡ ok (limit_of s.limit)
  unfolding ext_frame get contains float Frame.ext_set
  ext_frame-render s h = go s.exit s.limit s.weight h
    where
      go :
          (e : Option Exit) (l : Option Limit) (w : Option Num)
          → IsLimit l
          → ext_frame c (render_step (record s { exit = e; limit = l; weight = w }))
            ≡ ok (limit_of l)
      go none none none h = refl
      go none none (some w) h = refl
      go (some e) none none h = refl
      go (some e) none (some w) h = refl
      go e (some l) w h = ext_frame-limited (record s { weight = w }) e l h

  -- What a step adds to the profile.
  abbrev pub with_step : Step → List (Option Num) → Profile → Profile
  with_step s weights p = record p {
    move_on_weight_list = some (weights ++ (s.weight ∷ []));
    shot_frames = p.shot_frames ++ (frame_of s ∷ []);
    shot_ext_frames = p.shot_ext_frames ++ (limit_of s.limit ∷ []);
  }

  pub read_step-render :
      (s : Step) (weights : List (Option Num)) (p : Profile)
      → IsInRange s
      → read_step c (render_step s) (record p { move_on_weight_list = some weights })
        ≡ (with_step s weights p, none)
  unfolding read_step get float
  read_step-render s weights p h =
      let (_, _, _, _, _, limit) = h in
      rw
        (
          weight_of-render s,
          flags-render s,
          set_val-render s,
          trigger_val-render s,
          init-frame_of s h,
          ext_frame-render s limit,
        )
        refl
