-- ===== src/CApi/Firmware/Requests.antt =====
-- What holds of a firmware request however it is assigned to, and its round trip.
use py_de.Base.{
  ℕ, ◌/◌, ◌%◌, ◌<◌, ◌≤◌, ◌^◌, ◌≡◌, ◌⊎◌, refl, true, false, Option, none, some, List, [], ◌∷◌, Error,
  ok, err, Result-cases, inl, inr, type_error, de1_api_value_error, arith, Method,
}
use py_de.PyNum.{ℤ, pos, Num}
use py_de.Struct.{big, pack}
use py_de.Struct.RoundTrip.{unpack-pack}
use py_de.CApi.Mmr.Laws.{check_u_fits}
use py_de.CApi.Firmware.{
  MapRequest, ignore, set_window_increment, set_fw_to_erase, set_fw_to_map, set_first_error, fresh,
  map_init, map_format, map_store, map_from_wire_bytes, map_as_wire_bytes,
}

-- Not both an erasing and a search for errors, where both are set.
abbrev pub NotBoth : Option ℕ → Option ℕ → Type 0
NotBoth (some e) (some f) = (e ≡ 0) ⊎ (f ≡ ignore)
NotBoth _ _ = Unit

abbrev pub IsErase : Option ℕ → Type 0
IsErase none = Unit
IsErase (some n) = n ≤ 2

abbrev pub IsImage : Option ℕ → Type 0
IsImage none = Unit
IsImage (some n) = (n ≡ 1) ⊎ (n ≡ 2)

pub record IsRequest (s : MapRequest) : Type 0 where
  pub outgoing : s.from_response ≡ false
  pub erase : IsErase s.fw_to_erase
  pub image : IsImage s.fw_to_map
  pub exclusive : NotBoth s.fw_to_erase s.first_error

pub data Call : Type 0 where
  window_increment fw_to_erase fw_to_map first_error : Option ℤ → Call

unfoldable pub call : Call → Method MapRequest
unfolding set_window_increment set_fw_to_erase set_fw_to_map set_first_error
call (window_increment v) = set_window_increment v
call (fw_to_erase v) = set_fw_to_erase v
call (fw_to_map v) = set_fw_to_map v
call (first_error v) = set_first_error v

call-IsRequest : (c : Call) (s : MapRequest) → IsRequest s → IsRequest (call c s).0
unfolding call
call-IsRequest c s h = ground arith

unfoldable pub calls : List Call → MapRequest → MapRequest
calls [] s = s
calls (c ∷ cs) s = calls cs (call c s).0

calls-IsRequest : (cs : List Call) (s : MapRequest) → IsRequest s → IsRequest (calls cs s)
unfolding calls
calls-IsRequest [] s h = h
calls-IsRequest (c ∷ cs) s h = calls-IsRequest cs (call c s).0 (call-IsRequest c s h)

map_init-IsRequest :
    (wi e m f : Option ℤ) (t : Option Num) (s : MapRequest)
    → map_init wi e m f t false ≡ ok s
    → IsRequest s
unfolding map_init
map_init-IsRequest wi e m f t s h = ground arith

-- A request is not written, or it has an image to map.
abbrev pub MapsOrFails : MapRequest → Type 0
MapsOrFails s =
    ((e : Error) × (map_as_wire_bytes s ≡ err e))
    ⊎ ((m : ℕ) × (s.fw_to_map ≡ some m) × ((m ≡ 1) ⊎ (m ≡ 2)))

IsRequest-MapsOrFails : (s : MapRequest) → IsRequest s → MapsOrFails s
unfolding map_as_wire_bytes
IsRequest-MapsOrFails s r = elim (Result-cases (map_as_wire_bytes s)) [
  | inl (bs, h) ↦ ground arith
  | inr (e, h) ↦ inl (e, h)
]

-- However an outgoing request that was built is assigned to afterwards, and whichever assignments
-- are refused: what it erases is unset, or nothing or one of the two images; what it maps is unset or
-- one of them; and where both are set, it does not erase and search for errors. While the image to map
-- is unset, the request is not written but raises.
pub calls-map_init-IsRequest :
    (wi e m f : Option ℤ) (t : Option Num) (s : MapRequest) (cs : List Call)
    → map_init wi e m f t false ≡ ok s
    → IsRequest (calls cs s) × MapsOrFails (calls cs s)
calls-map_init-IsRequest wi e m f t s cs h =
    let r = calls-IsRequest cs s (map_init-IsRequest wi e m f t s h) in
    (r, IsRequest-MapsOrFails (calls cs s) r)

-- A request with no erase setting takes no value for the first error: one that is known raises
-- `TypeError` in the comparison, and any other is refused.
pub set_first_error-no_erase :
    (n : ℕ) (s : MapRequest)
    → s.from_response ≡ false
    → s.fw_to_erase ≡ none
    → ((set_first_error (some (pos n)) s).1 ≡ some type_error)
      ⊎ ((set_first_error (some (pos n)) s).1 ≡ some de1_api_value_error)
unfolding set_first_error
set_first_error-no_erase n s r e = ground arith

map_store_lem :
    (wi e m f : ℕ) (s : MapRequest)
    → s.from_response ≡ true
    → s.first_error ≡ none
    → wi < 2 ^ 16
    → e ≤ 2
    → (m ≡ 1) ⊎ (m ≡ 2)
    → map_store (pos wi ∷ pos e ∷ pos m ∷ pos (f / 65536) ∷ pos (f % 65536) ∷ []) s ≡ (
      record s {
        window_increment = some wi;
        fw_to_erase = some e;
        fw_to_map = some m;
        first_error = some f;
      },
      none,
    )
unfolding set_window_increment set_fw_to_erase set_fw_to_map set_first_error
map_store_lem wi e m f s r n hw he hm = ground (arith, check_u_fits wi 16 hw)

-- A complete request that was written reads back, as a response, with the four values that it had.
pub MapRequest-round_trip :
    (s : MapRequest) (wi e m f : ℕ) (bs : List ℕ) (t t' : Option Num)
    → s.window_increment ≡ some wi
    → s.fw_to_erase ≡ some e
    → s.fw_to_map ≡ some m
    → s.first_error ≡ some f
    → IsRequest s
    → wi < 2 ^ 16
    → map_as_wire_bytes s ≡ ok bs
    → map_from_wire_bytes bs t true (fresh t' true)
      ≡ (record s { arrival_time = t; from_response = true }, none)
unfolding map_as_wire_bytes map_from_wire_bytes
MapRequest-round_trip s wi e m f bs t t' hw he hm hf r lw written =
    let vs = pos wi ∷ pos e ∷ pos m ∷ pos (f / 65536) ∷ pos (f % 65536) ∷ [] in
    let ep : pack big map_format vs ≡ ok bs = ground (arith, written) in
    let erase : e ≤ 2 = rw he at r.erase in
    let image : (m ≡ 1) ⊎ (m ≡ 2) = rw hm at r.image in
    rw (unpack-pack big map_format vs bs ep)
      (rw (map_store_lem wi e m f (fresh t' true) refl refl lw erase image) (ground arith))
