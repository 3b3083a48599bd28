-- ===== src/CApi/Sample.antt =====
-- ShotState and ShotSample of c_api.py: the readings during a shot, which are never written.
pub mod Laws
use py_de.Base.{
  ℕ, ◌+◌, ◌*◌, Option, none, some, List, [], ◌∷◌, Result, ok, err, value_error,
  not_implemented_error, Method, assign, raise, finish, set_all, take, drop, ◌>>◌, ◌>>=◌,
}
use py_de.PyNum.{ℤ, Num, frac, nat}
use py_de.Struct.{big, Code, b, h, unpack}
use py_de.CApi.Fixed.{validate_u_p_noneok, over}

pub record ShotState : Type 0 where
  pub arrival_time : Option Num
  pub group_pressure : Option Num
  pub group_flow : Option Num
  pub mix_temp : Option Num
  pub head_temp : Option Num
  pub set_mix_temp : Option Num
  pub set_head_temp : Option Num
  pub set_group_pressure : Option Num
  pub set_group_flow : Option Num
  pub frame_number : Option Num
  pub steam_temp : Option Num

abbrev pub blank : ShotState
blank = record {
  arrival_time = none;
  group_pressure = none;
  group_flow = none;
  mix_temp = none;
  head_temp = none;
  set_mix_temp = none;
  set_head_temp = none;
  set_group_pressure = none;
  set_group_flow = none;
  frame_number = none;
  steam_temp = none;
}

pub data Field : Type 0 where
  group_pressure group_flow mix_temp head_temp set_mix_temp set_head_temp : Field
  set_group_pressure set_group_flow frame_number steam_temp : Field

abbrev put : Field → Option Num → ShotState → ShotState
put group_pressure v s = record s { group_pressure = v }
put group_flow v s = record s { group_flow = v }
put mix_temp v s = record s { mix_temp = v }
put head_temp v s = record s { head_temp = v }
put set_mix_temp v s = record s { set_mix_temp = v }
put set_head_temp v s = record s { set_head_temp = v }
put set_group_pressure v s = record s { set_group_pressure = v }
put set_group_flow v s = record s { set_group_flow = v }
put frame_number v s = record s { frame_number = v }
put steam_temp v s = record s { steam_temp = v }

-- The width and the fraction bits that a setter checks for.
abbrev format_of : Field → ℕ × ℕ
format_of group_pressure = (16, 12)
format_of group_flow = (16, 12)
format_of mix_temp = (16, 8)
format_of head_temp = (24, 16)
format_of set_mix_temp = (16, 8)
format_of set_head_temp = (16, 8)
format_of set_group_pressure = (8, 4)
format_of set_group_flow = (8, 4)
format_of frame_number = (8, 0)
format_of steam_temp = (8, 0)

unfoldable pub set : Field → Option Num → Method ShotState
set f v = do w ← validate_u_p_noneok v (format_of f).0 (format_of f).1; assign (put f w)

-- `__init__`, the arguments in its order
unfoldable pub init : (gp gf mt ht smt sht sgp sgf fn st : Option Num) → Result ShotState
init gp gf mt ht smt sht sgp sgf fn st = finish (
    set_all set
      ((group_pressure, gp)
        ∷ (group_flow, gf)
        ∷ (mix_temp, mt)
        ∷ (head_temp, ht)
        ∷ (set_mix_temp, smt)
        ∷ (set_head_temp, sht)
        ∷ (set_group_pressure, sgp)
        ∷ (set_group_flow, sgf)
        ∷ (frame_number, fn)
        ∷ (steam_temp, st)
        ∷ [])
      blank)

abbrev pub format : List Code
format = h ∷ h ∷ h ∷ b ∷ h ∷ h ∷ h ∷ b ∷ b ∷ b ∷ b ∷ []

-- The head's temperature is a byte and a 16-bit fraction, `hth + htl / 2 ** 16`.
abbrev pub store : List ℤ → Method ShotState
store (gp ∷ gf ∷ mt ∷ hth ∷ htl ∷ smt ∷ sht ∷ sgp ∷ sgf ∷ fn ∷ st ∷ []) = assign λ s. record s {
  group_pressure = some (over gp 4096);
  group_flow = some (over gf 4096);
  mix_temp = some (over mt 256);
  head_temp = some (frac (nat hth * 65536 + nat htl) 65536);
  set_mix_temp = some (over smt 256);
  set_head_temp = some (over sht 256);
  set_group_pressure = some (over sgp 16);
  set_group_flow = some (over sgf 16);
  frame_number = some (over fn 1);
  steam_temp = some (over st 1);
}
store _ = raise value_error

unfoldable pub from_wire_bytes : List ℕ → Option Num → Method ShotState
from_wire_bytes bs t = do
  assign (λ s. record s { arrival_time = t })
  vs ← unpack big format bs
  store vs

unfoldable pub as_wire_bytes : ShotState → Result (List ℕ)
as_wire_bytes s = err not_implemented_error

pub record ShotSample : Type 0 where
  pub arrival_time : Option Num
  pub sample_time : Option Num
  pub state : ShotState

unfoldable pub set_sample_time : Option Num → Method ShotSample
set_sample_time v = do w ← validate_u_p_noneok v 16 0; assign (λ s. record s { sample_time = w })

-- `None` stands for a new state.
unfoldable pub set_shot_state : Option ShotState → Method ShotSample
set_shot_state none = assign (λ s. record s { state = blank })
set_shot_state (some st) = assign (λ s. record s { state = st })

abbrev first : List ℤ → Option Num
first [] = none
first (v ∷ vs) = some (over v 1)

unfoldable pub sample_from_wire_bytes : List ℕ → Option Num → Method ShotSample
unfolding set_sample_time set_shot_state
sample_from_wire_bytes bs t = do
  assign (λ s. record s { arrival_time = t })
  v ← unpack big (h ∷ []) (take 2 bs)
  set_sample_time (first v)
  st ← finish (from_wire_bytes (drop 2 bs) t blank)
  set_shot_state (some st)
