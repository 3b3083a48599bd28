-- ===== src/Profile/Recipes.antt =====
-- A whole profile, and what src/pyDE1/de1/profile.py makes of it.
use mathlib.Core.List.{append_assoc, append-nil}
use py_de.Base.{
  ℕ, suc, ◌%◌, ◌≤◌, ◌<◌, ◌≡◌, refl, ap, ◌∙◌, true, false, Option, none, some, List, [], ◌∷◌, ◌++◌,
  map, ok, ◌>>◌, ◌>>=◌, continue, All, length, and_then, arith, ltb,
}
use py_de.PyNum.{ℤ, pos, Num, int, round_ℕ, round_scaled}
use py_de.Json.{
  Json, Items, num, str, array, object, no_items, item, no_fields, field, Conversions, get,
  of_items, contains, iterate, float,
}
use py_de.Profile.{Profile, empty}
use py_de.Profile.Reading.{
  read_step, read_steps, read_header, read_rest, from_json, strip_last, set_number_of_frames,
}
use py_de.Profile.Steps.{Step, render_step, frame_of, limit_of}
use py_de.Profile.Steps.Frames.{IsInRange, read_step-render, with_step}
use py_de.CApi.Fixed.{validate_u_p_noneok, validate_u_p}
use py_de.CApi.Header
use py_de.CApi.Header.{Header}
use py_de.CApi.Frame
use py_de.CApi.Frame.{ShotTail}

pub record Recipe : Type 0 where
  pub title : Json
  pub preinfuse_frames : ℕ
  pub target_volume : ℕ
  pub steps : List Step

abbrev render_items : List Step → Items
render_items [] = no_items
render_items (s ∷ ss) = item (render_step s) (render_items ss)

abbrev pub render : Recipe → Json
render r = object (
    field "version" (str "2") (
      field "title" r.title (
        field "target_volume" (num (int r.target_volume)) (
          field "target_volume_count_start" (num (int r.preinfuse_frames))
            (field "steps" (array (render_items r.steps)) no_fields)))))

abbrev weight_of : Step → Option Num
weight_of s = s.weight

abbrev with_steps : List Step → List (Option Num) → Profile → Profile
with_steps ss weights p = record p {
  move_on_weight_list = some (weights ++ map weight_of ss);
  shot_frames = p.shot_frames ++ map frame_of ss;
  shot_ext_frames = p.shot_ext_frames ++ map (λ (s : Step). limit_of s.limit) ss;
}

rounded_int : (n : ℕ) → round_scaled (int n) 1 1 ≡ pos n
unfolding round_scaled round_ℕ
rounded_int n = ap pos (ground arith)

abbrev header_of : (number : Option ℤ) → ℕ → Header
header_of number n = record {
  arrival_time = none;
  header_v = some (pos 1);
  number_of_frames = number;
  number_of_preinfuse_frames = some (pos n);
  minimum_pressure = some (int 0);
  maximum_flow = some (int 10);
}

init-header_of :
    (n : ℕ)
    → n ≤ 20
    → Header.init (some (pos 1)) none (some (pos n)) (some (int 0)) (some (int 10))
      ≡ ok (header_of none n)
unfolding Header.init Header.check_frame_numbers Header.set_header_v Header.set_minimum_pressure
    Header.set_maximum_flow validate_u_p_noneok validate_u_p round_scaled round_ℕ
init-header_of n h = let few : ltb 20 n ≡ false = ground arith in rw few refl

number-header_of :
    (n m : ℕ)
    → n ≤ m
    → m ≤ 20
    → Header.set_number_of_frames (some (pos m)) (header_of none n)
      ≡ (header_of (some (pos m)) n, none)
unfolding Header.set_number_of_frames Header.check_frame_numbers
number-header_of n m h k =
    let a : ltb 20 n ≡ false = ground arith in
    let b : ltb m n ≡ false = ground arith in
    let c : ltb 20 m ≡ false = ground arith in rw (a, b, c) refl

abbrev tail_of : ℕ → ShotTail
tail_of n = record { arrival_time = none; max_total_volume = some (int n); ignore_pi = some true }

volume-taken : (n : ℕ) → n < 1024 → validate_u_p_noneok (some (int n)) 10 0 ≡ ok (some (int n))
unfolding validate_u_p_noneok validate_u_p round_scaled round_ℕ
volume-taken n h = ground arith

init-tail_of :
    (n : ℕ) → n < 1024 → Frame.tail_init (some (int n)) (Frame.Value.bool true) ≡ ok (tail_of n)
unfolding Frame.tail_init Frame.tail_set_max_total_volume Frame.tail_set_ignore_pi
init-tail_of n h = let low : n % 1024 ≡ n = omega arith in rw (low, volume-taken n h) refl

-- What a recipe is read as.
abbrev pub profile_of : Recipe → Profile
profile_of r = record empty {
  is_json_v2 = true;
  title = some r.title;
  move_on_weight_list = some (strip_last (map weight_of r.steps));
  header = some (header_of (some (pos (length r.steps))) r.preinfuse_frames);
  shot_frames = map frame_of r.steps;
  shot_ext_frames = map (λ (s : Step). limit_of s.limit) r.steps;
  tail = some (tail_of r.target_volume);
  target_volume = some (int r.target_volume);
  number_of_preinfuse_frames = some (pos r.preinfuse_frames);
}

length-map : (ss : List Step) → length (map frame_of ss) ≡ length ss
length-map [] = refl
length-map (s ∷ ss) = ap suc (length-map ss)

module _ (c : Conversions) where
  read_header-render :
      (r : Recipe)
      → r.preinfuse_frames ≤ 20
      → read_header c (render r) empty ≡ (
        record empty {
          move_on_weight_list = some [];
          is_json_v2 = true;
          header = some (header_of none r.preinfuse_frames);
        },
        none,
      )
  unfolding read_header get float
  read_header-render r h =
      rw (rounded_int r.preinfuse_frames, init-header_of r.preinfuse_frames h) refl

  read_steps-render :
      (ss : List Step) (weights : List (Option Num)) (p : Profile)
      → All IsInRange ss
      → read_steps c (map render_step ss) (record p { move_on_weight_list = some weights })
        ≡ (with_steps ss weights p, none)
  unfolding read_step
  read_steps-render [] weights p h =
      rw (append-nil weights, append-nil p.shot_frames, append-nil p.shot_ext_frames) refl
  read_steps-render (s ∷ ss) weights p h =
      let first = read_step-render c s weights p h.0 in
      let rest = read_steps-render ss (weights ++ (s.weight ∷ [])) (with_step c s weights p) h.1 in
      ap (λ r. continue r.1 (read_steps c (map render_step ss)) r.0) first ∙ rest ∙ λ i. (
        record p {
          move_on_weight_list = some (append_assoc weights (s.weight ∷ []) (map weight_of ss) i);
          shot_frames = append_assoc p.shot_frames (frame_of s ∷ []) (map frame_of ss) i;
          shot_ext_frames =
              append_assoc p.shot_ext_frames (limit_of s.limit ∷ [])
                (map (λ (s : Step). limit_of s.limit) ss) i;
        },
        none,
      )

  -- What the rest of the method adds to a profile whose frames have been read.
  abbrev with_rest : Recipe → List (Option Num) → Profile → Profile
  with_rest r weights p = record p {
    title = some r.title;
    move_on_weight_list = some (strip_last weights);
    header = some (header_of (some (pos (length p.shot_frames))) r.preinfuse_frames);
    tail = some (tail_of r.target_volume);
    target_volume = some (int r.target_volume);
    number_of_preinfuse_frames = some (pos r.preinfuse_frames);
  }

  read_rest-render :
      (r : Recipe) (weights : List (Option Num)) (p : Profile)
      → r.preinfuse_frames ≤ length p.shot_frames
      → length p.shot_frames ≤ 20
      → r.target_volume < 1024
      → read_rest c (render r) (record p {
        move_on_weight_list = some weights;
        header = some (header_of none r.preinfuse_frames);
      })
        ≡ (with_rest r weights p, none)
  unfolding read_rest set_number_of_frames get contains float
  read_rest-render r weights p h k v =
      rw
        (
          number-header_of r.preinfuse_frames (length p.shot_frames) h k,
          rounded_int r.target_volume,
          init-tail_of r.target_volume v,
          rounded_int r.preinfuse_frames,
        )
        refl

  from_json-header :
      (r : Recipe)
      → r.preinfuse_frames ≤ 20
      → from_json c (render r) empty
        ≡ ((and_then (get (render r) "steps") iterate) >>= λ steps.
              read_steps c steps >> read_rest c (render r))
            (record empty {
              move_on_weight_list = some [];
              is_json_v2 = true;
              header = some (header_of none r.preinfuse_frames);
            })
  unfolding from_json
  from_json-header r h =
      ap
        (λ q.
          continue q.1
            ((and_then (get (render r) "steps") iterate) >>= λ steps.
              read_steps c steps >> read_rest c (render r))
            q.0)
        (read_header-render r h)

  steps-render :
      (r : Recipe) → and_then (get (render r) "steps") iterate ≡ ok (map render_step r.steps)
  unfolding get iterate
  steps-render r = ap ok (items r.steps)
    where
      items : (ss : List Step) → of_items (render_items ss) ≡ map render_step ss
      items [] = refl
      items (s ∷ ss) = ap (λ l. render_step s ∷ l) (items ss)

  -- A recipe is read without an exception, and what is read has a frame for each step with the step's
  -- values and flags, an extension frame where the step has a limit, the weights to move on at, and
  -- the header and tail of the recipe: if the values are in range, there are 20 steps at most and no
  -- fewer than the preinfusion has.
  pub from_json-render :
      (r : Recipe)
      → All IsInRange r.steps
      → r.preinfuse_frames ≤ length r.steps
      → length r.steps ≤ 20
      → r.target_volume < 1024
      → from_json c (render r) empty ≡ (profile_of r, none)
  from_json-render r a h k v =
      let p : Profile = record empty {
        is_json_v2 = true;
        header = some (header_of none r.preinfuse_frames);
      } in
      let q : Profile = with_steps r.steps [] p in
      let same : length (map frame_of r.steps) ≡ length r.steps = length-map r.steps in
      from_json-header r (omega (arith, h, k))
      ∙ ap
          (λ m.
            (m >>= λ steps. read_steps c steps >> read_rest c (render r))
              (record p { move_on_weight_list = some [] }))
          (steps-render r)
      ∙ ap (λ o. continue o.1 (read_rest c (render r)) o.0) (read_steps-render r.steps [] p a)
      ∙ read_rest-render r (map weight_of r.steps) q (omega (arith, same, h))
          (omega (arith, same, k)) v
      ∙ ap
          (λ n. (
            record (profile_of r) { header = some (header_of (some (pos n)) r.preinfuse_frames) },
            none,
          ))
          same
