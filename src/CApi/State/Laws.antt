-- ===== src/CApi/State/Laws.antt =====
-- What is read of a state packet, known code or not, and how a requested state is written.
use mathlib.Core.Path.{subst₂}
use py_de.Base.{
  ℕ, ◌≡◌, ◌≢◌, ◌⊎◌, inl, inr, refl, Option, none, some, List, [], ◌∷◌, arith, ok, err, struct_error,
  All, Bool-cases, leb, ◌==◌,
}
use py_de.PyNum.{pos, Num, nat}
use py_de.Struct.{pack, unpack}
use py_de.CApi.State.{
  StateInfo, RequestedState, known_state, known_substate, from_wire_bytes, requested_as_wire_bytes,
  requested_from_wire_bytes,
}
use py_de.CApi.State.Enums.{
  MachineState, Substate, machine_value, machine_state?, substate?, substate_value, is_error,
  machine_states, substates, find,
}

machine_state?-machine_value :
    (m : MachineState) → m ≢ MachineState.unknown → machine_state? (nat (machine_value m)) ≡ some m
unfolding machine_state? machine_value
machine_state?-machine_value MachineState.unknown n = absurd (n refl)
machine_state?-machine_value _ n = refl

-- `find` gives a member with the value that was asked for.
find_value {ℓ κ} :
    {A : Type ℓ} (R : A → ℕ → Type κ) (l : List (A × ℕ)) (n : ℕ) (a : A)
    → All (λ p. R p.0 p.1) l
    → find l n ≡ some a
    → R a n
find_value R [] n a h e = absurd (cc)
find_value R ((a', m) ∷ r) n a h e = elim (Bool-cases (m == n)) [
  | inl same ↦
      let found : some a' ≡ some a = rw same at e in
      let at_n : m ≡ n = ground arith in
      let same_member : a' ≡ a = cc in subst₂ R same_member at_n h.0
  | inr other ↦ find_value R r n a h.1 (rw other at e)
]

abbrev HasCode : MachineState → ℕ → Type 0
HasCode m n = machine_value m ≡ pos n

abbrev HasSubcode : Substate → ℕ → Type 0
HasSubcode m n = substate_value m ≡ n

substate_value-substate? : (n : ℕ) (m : Substate) → substate? n ≡ some m → substate_value m ≡ n
unfolding substate? substate_value
substate_value-substate? n m e = find_value HasSubcode substates n m (ground arith) e

machine_value-machine_state? :
    (n : ℕ) (m : MachineState) → machine_state? n ≡ some m → machine_value m ≡ pos n
unfolding machine_state? machine_value
machine_value-machine_state? n m e = find_value HasCode machine_states n m (ground arith) e

known_state_lem :
    (n : ℕ) (o : Option MachineState)
    → machine_state? n ≡ o
    → (machine_value (known_state o) ≡ pos n)
      ⊎ ((known_state o ≡ MachineState.unknown) × (machine_state? n ≡ none))
known_state_lem n none e = inr (refl, e)
known_state_lem n (some m) e = inl (machine_value-machine_state? n m e)

known_substate_lem :
    (n : ℕ) (o : Option Substate) → substate? n ≡ o → is_error (known_substate n o) ≡ leb 200 n
unfolding is_error
known_substate_lem n none e = ground arith
known_substate_lem n (some u) e = rw (substate_value-substate? n u e)

-- A state packet of two bytes is always taken: a state code that is not known reads as `UNKNOWN`,
-- and every substate reads as one that is an error exactly if its code is 200 or more.
pub StateInfo-total :
    (x y : ℕ) (t : Option Num) (s : StateInfo)
    → (m : MachineState) × (u : Substate) × (from_wire_bytes (x ∷ y ∷ []) t s
        ≡ (record { arrival_time = t; state = some m; substate = some u }, none))
      × ((machine_value m ≡ pos x) ⊎ ((m ≡ MachineState.unknown) × (machine_state? x ≡ none)))
      × (is_error u ≡ leb 200 y)
unfolding from_wire_bytes unpack
StateInfo-total x y t s = (
  known_state (machine_state? x),
  known_substate y (substate? y),
  ground arith,
  known_state_lem x (machine_state? x) refl,
  known_substate_lem y (substate? y) refl,
)

requested_round_trip :
    (m : MachineState) (s s' : RequestedState) (t : Option Num)
    → s.state ≡ some m
    → m ≢ MachineState.unknown
    → let bs = nat (machine_value m) ∷ [] in
      (requested_as_wire_bytes s ≡ ok bs)
      × (requested_from_wire_bytes bs t s' ≡ (record { arrival_time = t; state = some m }, none))
unfolding requested_as_wire_bytes requested_from_wire_bytes pack unpack machine_value machine_state?
requested_round_trip MachineState.unknown s s' t e n = absurd (n refl)
requested_round_trip _ s s' t e n = (ground arith, refl)

-- A requested state is written as its code, and reads back as the same state. `UNKNOWN` is refused.
pub RequestedState-round_trip :
    (m : MachineState) (s s' : RequestedState) (t : Option Num)
    → s.state ≡ some m
    → ((m ≡ MachineState.unknown) × (requested_as_wire_bytes s ≡ err struct_error))
      ⊎ ((bs : List ℕ) × (requested_as_wire_bytes s ≡ ok bs)
          × (requested_from_wire_bytes bs t s'
              ≡ (record { arrival_time = t; state = some m }, none)))
RequestedState-round_trip MachineState.unknown s s' t e =
    inl (refl, unfold requested_as_wire_bytes pack machine_value in ground arith)
RequestedState-round_trip m s s' t e =
    (let r = requested_round_trip m s s' t e (λ p. cc) in
      inr (nat (machine_value m) ∷ [], r.0, r.1))
