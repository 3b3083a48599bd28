-- ===== src/Sequencer/Controls/Frames.antt =====
-- The weights to move on at, in src/pyDE1/flow_sequencer.py.
use py_de.Base.{
  ℕ, zero, suc, ◌-◌, ◌≤◌, ◌<◌, ◌≡◌, ◌≢◌, refl, ap, ◌∙◌, false, Option, none, some, List, [], ◌∷◌,
  ◌++◌, ok, index_error, arith, length, length-append, length-replicate, replicate, ltb,
}
use mathlib.Core.List.{append-nil}
use py_de.PyNum.{pos, Num}
use py_de.Sequencer.Controls.{
  Control, validate_stop_at, item, put, put_frame, fill, mow_get_frame, mow_set_frame,
}

abbrev Replaces : List (Option Num) → ℕ → Option Num → List (Option Num) → Type 0
Replaces l n v r = (put l n v ≡ some r) × (item r n ≡ v) × ((j : ℕ) → j ≢ n → item r j ≡ item l j)

put-Replaces :
    (l : List (Option Num)) (n : ℕ) (v : Option Num)
    → n < length l
    → (r : List (Option Num)) × Replaces l n v r
put-Replaces [] n v h = absurd (omega arith)
put-Replaces (w ∷ l) zero v h = (v ∷ l, (refl, refl, λ j d. others j d))
  where
    others : (j : ℕ) → j ≢ 0 → item (v ∷ l) j ≡ item (w ∷ l) j
    others zero d = absurd (d refl)
    others (suc j) d = refl
put-Replaces (w ∷ l) (suc n) v h =
    let (r, (e, at, others)) = put-Replaces l n v (omega arith) in
    (w ∷ r, (rw e refl, at, λ j d. step r others j d))
  where
    step :
        (r : List (Option Num))
        → ((j : ℕ) → j ≢ n → item r j ≡ item l j)
        → (j : ℕ) → j ≢ suc n
        → item (w ∷ r) j ≡ item (w ∷ l) j
    step r others zero d = refl
    step r others (suc j) d = others j (λ e. d (ap suc e))

put-none : (l : List (Option Num)) (n : ℕ) (v : Option Num) → length l ≤ n → put l n v ≡ none
put-none [] n v h = refl
put-none (w ∷ l) zero v h = absurd (omega arith)
put-none (w ∷ l) (suc n) v h = rw (put-none l n v (omega arith)) refl

fill-long : (n : ℕ) (l : List (Option Num)) → n < length l → fill n l ≡ l
fill-long n l h = let e : n - length l ≡ 0 = omega arith in rw e (append-nil l)

length-fill : (n : ℕ) (l : List (Option Num)) → length l ≤ n → length (fill n l) ≡ n
length-fill n l h =
    let rest : List (Option Num) = replicate (n - length l) none in
    let e : length rest ≡ n - length l = length-replicate (n - length l) none in
    omega (arith, e, length-append l rest)

item-replicate : (k j : ℕ) → item (replicate k none) j ≡ none
item-replicate zero j = refl
item-replicate (suc k) zero = refl
item-replicate (suc k) (suc j) = item-replicate k j

-- Filling up with none changes nothing that is read.
item-fill : (k : ℕ) (l : List (Option Num)) (j : ℕ) → item (l ++ replicate k none) j ≡ item l j
item-fill k [] j = item-replicate k j
item-fill k (w ∷ l) zero = refl
item-fill k (w ∷ l) (suc j) = item-fill k l j

-- What `mow_set_frame` comes to on a valid weight.
set_frame-put :
    (n : ℕ) (v w : Option Num) (s : Control)
    → n ≤ 20
    → validate_stop_at v ≡ ok w
    → mow_set_frame (some (pos n)) v s
      ≡ put_frame n v (record s { mow_all_frames = fill n s.mow_all_frames })
unfolding mow_set_frame
set_frame-put n v w s h e = let few : ltb 20 n ≡ false = ground arith in rw (few, e) refl

abbrev pub IsStored : ℕ → Option Num → Control → Type 0
IsStored n v s =
    (l : List (Option Num)) × (mow_set_frame (some (pos n)) v s
      ≡ (record s { mow_all_frames = l }, none))
    × (mow_get_frame (some (pos n)) (record s { mow_all_frames = l }) ≡ v)
    × ((j : ℕ)
        → j ≢ n
        → mow_get_frame (some (pos j)) (record s { mow_all_frames = l })
          ≡ mow_get_frame (some (pos j)) s)

abbrev pub IsRefused : ℕ → Option Num → Control → Type 0
IsRefused n v s =
    (l : List (Option Num)) × (mow_set_frame (some (pos n)) v s
      ≡ (record s { mow_all_frames = l }, some index_error))
    × ((j : ℕ)
        → mow_get_frame (some (pos j)) (record s { mow_all_frames = l })
          ≡ mow_get_frame (some (pos j)) s)

-- A valid weight is set for a frame below the length of the list, and for that frame alone; for any
-- other frame up to number 20 the call raises `IndexError`, and what is read for every frame is as it
-- was.
pub mow_set_frame_lem :
    (n : ℕ) (v w : Option Num) (s : Control)
    → n ≤ 20
    → validate_stop_at v ≡ ok w
    → (n < length s.mow_all_frames → IsStored n v s)
      × (length s.mow_all_frames ≤ n → IsRefused n v s)
unfolding mow_get_frame
mow_set_frame_lem n v w s h e = (
  (λ below.
      let (r, (p, at, others)) = put-Replaces s.mow_all_frames n v below in
      (
        r,
        set_frame-put n v w s h e
            ∙ rw (fill-long n s.mow_all_frames below) (rw (put_frame, p) refl),
        at,
        others,
      )),
  λ above.
      let l = fill n s.mow_all_frames in
      let missing : put l n v ≡ none =
        put-none l n v (omega (arith, length-fill n s.mow_all_frames above)) in
      (
        l,
        set_frame-put n v w s h e ∙ rw (put_frame, missing) refl,
        item-fill (n - length s.mow_all_frames) s.mow_all_frames,
      ),
)
