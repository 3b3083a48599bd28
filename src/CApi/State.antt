-- ===== src/CApi/State.antt =====
-- API_MachineStates, API_Substates, StateInfo and RequestedState of c_api.py.
pub mod Enums
pub mod Laws
use py_de.Base.{
  ℕ, Bool, Option, none, some, List, [], ◌∷◌, Result, ok, err, value_error, attribute_error,
  and_then, Method, assign, raise, ◌>>◌, ◌>>=◌, ltb, if◌then◌else◌,
}
use py_de.PyNum.{ℤ, Num, nat}
use py_de.Struct.{big, Code, b, pack, unpack}
use py_de.CApi.State.Enums.{MachineState, Substate, machine_state?, substate?, machine_value}

pub record StateInfo : Type 0 where
  pub arrival_time : Option Num
  pub state : Option MachineState
  pub substate : Option Substate

abbrev pub known_state : Option MachineState → MachineState
known_state none = MachineState.unknown
known_state (some s) = s

abbrev pub known_substate : ℕ → Option Substate → Substate
known_substate n none = if ltb n 200 then Substate.unknown else Substate.error_unknown
known_substate n (some s) = s

abbrev pub store : List ℤ → Method StateInfo
store (s ∷ u ∷ []) = assign λ r. record r {
  state = some (known_state (machine_state? (nat s)));
  substate = some (known_substate (nat u) (substate? (nat u)));
}
store _ = raise value_error

unfoldable pub from_wire_bytes : List ℕ → Option Num → Method StateInfo
from_wire_bytes bs t = do
  assign (λ s. record s { arrival_time = t })
  vs ← unpack big (b ∷ b ∷ []) bs
  store vs

pub record RequestedState : Type 0 where
  pub arrival_time : Option Num
  pub state : Option MachineState

-- `None` has no `value`.
unfoldable pub requested_as_wire_bytes : RequestedState → Result (List ℕ)
requested_as_wire_bytes s = elim s.state [
  | none ↦ err attribute_error
  | some m ↦ pack big (b ∷ []) (machine_value m ∷ [])
]

abbrev pub state_of_value : ℕ → Result MachineState
state_of_value n = elim (machine_state? n) [ none ↦ err value_error | some m ↦ ok m ]

abbrev pub requested_store : List ℤ → Method RequestedState
requested_store (v ∷ []) = do m ← state_of_value (nat v); assign (λ s. record s { state = some m })
requested_store _ = raise value_error

unfoldable pub requested_from_wire_bytes : List ℕ → Option Num → Method RequestedState
requested_from_wire_bytes bs t = do
  assign (λ s. record s { arrival_time = t })
  vs ← unpack big (b ∷ []) bs
  requested_store vs
