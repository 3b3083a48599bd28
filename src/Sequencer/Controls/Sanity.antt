-- ===== src/Sequencer/Controls/Sanity.antt =====
-- What the setters of the controls in src/pyDE1/flow_sequencer.py let through.
use mathlib.Core.Path.{subst}
use py_de.Base.{
  ℕ, ◌≡◌, refl, Bool, true, false, Option, none, some, List, [], ◌∷◌, Result, ok, err,
  de1_api_value_error, Method, assign, ◌>>◌, ◌>>=◌, Keeps, Keeps-then, Keeps-finish, Option-cases,
  ok-injective, Bool-cases, inl, inr, ltb, if◌then◌else◌,
}
use py_de.PyNum.{ℤ, pos, negsuc, Num, num_lt}
use py_de.Json.{Json}
use py_de.Sequencer.Controls.{
  Control, is_zero, is_bad_threshold, only_bool, validate_stop_at, set_stop_at_time,
  set_stop_at_volume, set_stop_at_weight, set_disable_auto_tare, set_override_stop_limits,
  set_override_tank_temperature, set_first_drops_threshold, set_last_drops_minimum_time,
  set_mow_all_frames, mow_set_frame, put, put_frame, fill, init, blank,
}

-- None, or more than zero.
abbrev pub IsStop : Option Num → Type 0
IsStop none = Unit
IsStop (some v) = (is_zero v ≡ false) × (num_lt v 0 1 ≡ false)

-- The stops are none or positive, the threshold is none or between 0 and 10, and the time is not
-- negative.
abbrev pub IsSane : Control → Type 0
IsSane s =
    IsStop s.stop_at_time
    × IsStop s.stop_at_volume
    × IsStop s.stop_at_weight
    × (is_bad_threshold s.first_drops_threshold ≡ false)
    × (num_lt s.last_drops_minimum_time 0 1 ≡ false)

-- The calls that set something.
pub data Call : Type 0 where
  time volume weight threshold : Option Num → Call
  drops : Num → Call
  tare limits temperature : Json → Call
  frames : Option (List (Option Num)) → Call
  frame : Option ℤ → Option Num → Call

unfoldable pub call : Call → Method Control
unfolding set_stop_at_time set_stop_at_volume set_stop_at_weight set_first_drops_threshold
    set_last_drops_minimum_time set_disable_auto_tare set_override_stop_limits
    set_override_tank_temperature set_mow_all_frames mow_set_frame
call (time v) = set_stop_at_time v
call (volume v) = set_stop_at_volume v
call (weight v) = set_stop_at_weight v
call (threshold v) = set_first_drops_threshold v
call (drops v) = set_last_drops_minimum_time v
call (tare v) = set_disable_auto_tare v
call (limits v) = set_override_stop_limits v
call (temperature v) = set_override_tank_temperature v
call (frames l) = set_mow_all_frames l
call (frame n v) = mow_set_frame n v

-- An exception ends the call that raises it only.
unfoldable pub calls : List Call → Control → Control
unfolding call
calls [] s = s
calls (c ∷ cs) s = calls cs (call c s).0

checked-IsStop :
    (v : Num) (w : Option Num) (a b : Bool)
    → is_zero v ≡ a
    → num_lt v 0 1 ≡ b
    → (if a then ok none else if b then err de1_api_value_error else ok (some v)) ≡ ok w
    → IsStop w
checked-IsStop v w true b p q e = subst IsStop (ok-injective e) tt
checked-IsStop v w false true p q e = absurd (cc)
checked-IsStop v w false false p q e = subst IsStop (ok-injective e) (p, q)

validate_stop_at-IsStop : (v w : Option Num) → validate_stop_at v ≡ ok w → IsStop w
unfolding validate_stop_at
validate_stop_at-IsStop none w e = subst IsStop (ok-injective e) tt
validate_stop_at-IsStop (some v) w e = checked-IsStop v w (is_zero v) (num_lt v 0 1) refl refl e

bind-Keeps {ℓ} :
    {A : Type ℓ} (r : Result A) (f : A → Method Control)
    → ((a : A) → r ≡ ok a → Keeps IsSane (f a))
    → Keeps IsSane (r >>= f)
bind-Keeps (ok a) f k = k a refl
bind-Keeps (err e) f k = λ s p. p

bool-Keeps :
    (v : Json) (set : Bool → Control → Control)
    → ((b : Bool) (s : Control) → IsSane s → IsSane (set b s))
    → Keeps IsSane (only_bool v set)
bool-Keeps (Json.bool b) set k = k b
bool-Keeps v set k = λ s p. p

time-Keeps : (v : Option Num) → Keeps IsSane (set_stop_at_time v)
unfolding set_stop_at_time
time-Keeps v =
    bind-Keeps (validate_stop_at v) _
      λ w e s (t, u, x, y, d). (validate_stop_at-IsStop v w e, u, x, y, d)

volume-Keeps : (v : Option Num) → Keeps IsSane (set_stop_at_volume v)
unfolding set_stop_at_volume
volume-Keeps v =
    bind-Keeps (validate_stop_at v) _
      λ w e s (t, u, x, y, d). (t, validate_stop_at-IsStop v w e, x, y, d)

weight-Keeps : (v : Option Num) → Keeps IsSane (set_stop_at_weight v)
unfolding set_stop_at_weight
weight-Keeps v =
    bind-Keeps (validate_stop_at v) _
      λ w e s (t, u, x, y, d). (t, u, validate_stop_at-IsStop v w e, y, d)

threshold-Keeps : (v : Option Num) → Keeps IsSane (set_first_drops_threshold v)
unfolding set_first_drops_threshold
threshold-Keeps v s p = elim (Bool-cases (is_bad_threshold v)) [
  | inl bad ↦ rw bad p
  | inr good ↦ let (t, u, x, y, d) = p in rw good (t, u, x, good, d)
]

drops-Keeps : (v : Num) → Keeps IsSane (set_last_drops_minimum_time v)
unfolding set_last_drops_minimum_time
drops-Keeps v s p = elim (Bool-cases (num_lt v 0 1)) [
  | inl bad ↦ rw bad p
  | inr good ↦ let (t, u, x, y, d) = p in rw good (t, u, x, y, good)
]

put_frame-Keeps : (n : ℕ) (v : Option Num) → Keeps IsSane (put_frame n v)
put_frame-Keeps n v s p = elim (Option-cases (put s.mow_all_frames n v)) [
  | inl missing ↦ rw (put_frame, missing) p
  | inr (l, found) ↦ rw (put_frame, found) p
]

frame-Keeps : (n : Option ℤ) (v : Option Num) → Keeps IsSane (mow_set_frame n v)
unfolding mow_set_frame
frame-Keeps none v s p = p
frame-Keeps (some (negsuc n)) v s p = p
frame-Keeps (some (pos n)) v s p = elim (Bool-cases (ltb 20 n)) [
  | inl many ↦ rw many p
  | inr few ↦ rw few (
      bind-Keeps (validate_stop_at v) _
        (λ w e.
          Keeps-then IsSane (assign (λ s. record s { mow_all_frames = fill n s.mow_all_frames }))
            (put_frame n v) (λ s p. p) (put_frame-Keeps n v))
        s p)
]

mow-Keeps : Keeps IsSane (set_mow_all_frames none)
unfolding set_mow_all_frames
mow-Keeps s p = p

tare-Keeps : (v : Json) → Keeps IsSane (set_disable_auto_tare v)
unfolding set_disable_auto_tare
tare-Keeps v = bool-Keeps v _ (λ b s p. p)

call-Keeps : (c : Call) → Keeps IsSane (call c)
unfolding call
call-Keeps (time v) = time-Keeps v
call-Keeps (volume v) = volume-Keeps v
call-Keeps (weight v) = weight-Keeps v
call-Keeps (threshold v) = threshold-Keeps v
call-Keeps (drops v) = drops-Keeps v
call-Keeps (tare v) = tare-Keeps v
call-Keeps (limits v) = bool-Keeps v _ (λ b s p. p)
call-Keeps (temperature v) = bool-Keeps v _ (λ b s p. p)
call-Keeps (frames l) = λ s p. p
call-Keeps (frame n v) = frame-Keeps n v

calls-Keeps : (cs : List Call) (s : Control) → IsSane s → IsSane (calls cs s)
unfolding calls
calls-Keeps [] s p = p
calls-Keeps (c ∷ cs) s p = calls-Keeps cs (call c s).0 (call-Keeps c s p)

blank-IsSane : IsSane blank
unfolding num_lt
blank-IsSane = (tt, tt, tt, refl, refl)

init-IsSane :
    (t : Json) (a b c d : Option Num) (e : Num) (x y : Bool) (s : Control)
    → init t a b c d e x y ≡ ok s
    → IsSane s
unfolding init
init-IsSane t a b c d e x y s h =
    let m7 : Method Control = set_last_drops_minimum_time e >> assign rest in
    let m6 : Method Control = set_first_drops_threshold d >> m7 in
    let m5 : Method Control = set_mow_all_frames none >> m6 in
    let m4 : Method Control = set_stop_at_weight c >> m5 in
    let m3 : Method Control = set_stop_at_volume b >> m4 in
    let m2 : Method Control = set_stop_at_time a >> m3 in
    let k7 =
      Keeps-then IsSane (set_last_drops_minimum_time e) (assign rest) (drops-Keeps e) (λ s p. p) in
    let k6 = Keeps-then IsSane (set_first_drops_threshold d) m7 (threshold-Keeps d) k7 in
    let k5 = Keeps-then IsSane (set_mow_all_frames none) m6 mow-Keeps k6 in
    let k4 = Keeps-then IsSane (set_stop_at_weight c) m5 (weight-Keeps c) k5 in
    let k3 = Keeps-then IsSane (set_stop_at_volume b) m4 (volume-Keeps b) k4 in
    let k2 = Keeps-then IsSane (set_stop_at_time a) m3 (time-Keeps a) k3 in
    let k1 = Keeps-then IsSane (set_disable_auto_tare t) m2 (tare-Keeps t) k2 in
    Keeps-finish IsSane (set_disable_auto_tare t >> m2) blank s k1 blank-IsSane h
  where
    rest : Control → Control
    rest s = record s {
      profile_can_override_stop_limits = x;
      profile_can_override_tank_temperature = y;
    }

-- Whatever is set on a control that has been constructed, also by calls that raise, its stops are
-- none or positive, the threshold for the first drops is none or between 0 and 10, and the time for
-- the last drops is not negative.
pub calls-init-IsSane :
    (t : Json) (a b c d : Option Num) (e : Num) (x y : Bool) (s : Control) (cs : List Call)
    → init t a b c d e x y ≡ ok s
    → IsSane (calls cs s)
calls-init-IsSane t a b c d e x y s cs h = calls-Keeps cs s (init-IsSane t a b c d e x y s h)
