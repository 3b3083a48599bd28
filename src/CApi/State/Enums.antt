-- ===== src/CApi/State/Enums.antt =====
-- The enumerations of c_api.py: machine states and substates, their codes and classifications.
use py_de.Base.{ℕ, Bool, true, false, Option, none, some, List, [], ◌∷◌, leb, ◌==◌, if◌then◌else◌}
use py_de.PyNum.{ℤ, pos, negsuc}

pub data MachineState : Type 0 where
  sleep going_to_sleep idle busy espresso steam hot_water short_cal self_test : MachineState
  long_cal descale fatal_error init no_request skip_to_next hot_water_rinse : MachineState
  steam_rinse refill clean in_boot_loader air_purge sched_idle unknown : MachineState

unfoldable pub machine_value : MachineState → ℤ
machine_value sleep = pos 0
machine_value going_to_sleep = pos 1
machine_value idle = pos 2
machine_value busy = pos 3
machine_value espresso = pos 4
machine_value steam = pos 5
machine_value hot_water = pos 6
machine_value short_cal = pos 7
machine_value self_test = pos 8
machine_value long_cal = pos 9
machine_value descale = pos 10
machine_value fatal_error = pos 11
machine_value init = pos 12
machine_value no_request = pos 13
machine_value skip_to_next = pos 14
machine_value hot_water_rinse = pos 15
machine_value steam_rinse = pos 16
machine_value refill = pos 17
machine_value clean = pos 18
machine_value in_boot_loader = pos 19
machine_value air_purge = pos 20
machine_value sched_idle = pos 21
machine_value MachineState.unknown = negsuc 0

unfoldable pub is_flow_state : MachineState → Bool
is_flow_state espresso = true
is_flow_state steam = true
is_flow_state hot_water = true
is_flow_state hot_water_rinse = true
is_flow_state _ = false

pub data Substate : Type 0 where
  no_state heat_water_tank heat_water_heater stabilize_mix_temp pre_infuse pour : Substate
  flush steaming descale_init descale_fill_group descale_return descale_group : Substate
  descale_steam clean_init clean_fill_group clean_soak clean_group paused_refill : Substate
  paused_steam user_not_present steam_puff unknown error_nan error_inf error_generic : Substate
  error_acc error_tsensor error_psensor error_wlevel error_dip error_assertion : Substate
  error_unsafe error_invalid_parm error_flash error_oom error_deadline : Substate
  error_hi_current error_lo_current error_boot_fill error_unknown : Substate

unfoldable pub substate_value : Substate → ℕ
substate_value no_state = 0
substate_value heat_water_tank = 1
substate_value heat_water_heater = 2
substate_value stabilize_mix_temp = 3
substate_value pre_infuse = 4
substate_value pour = 5
substate_value flush = 6
substate_value steaming = 7
substate_value descale_init = 8
substate_value descale_fill_group = 9
substate_value descale_return = 10
substate_value descale_group = 11
substate_value descale_steam = 12
substate_value clean_init = 13
substate_value clean_fill_group = 14
substate_value clean_soak = 15
substate_value clean_group = 16
substate_value paused_refill = 17
substate_value paused_steam = 18
substate_value user_not_present = 19
substate_value steam_puff = 20
substate_value Substate.unknown = 199
substate_value error_nan = 200
substate_value error_inf = 201
substate_value error_generic = 202
substate_value error_acc = 203
substate_value error_tsensor = 204
substate_value error_psensor = 205
substate_value error_wlevel = 206
substate_value error_dip = 207
substate_value error_assertion = 208
substate_value error_unsafe = 209
substate_value error_invalid_parm = 210
substate_value error_flash = 211
substate_value error_oom = 212
substate_value error_deadline = 213
substate_value error_hi_current = 214
substate_value error_lo_current = 215
substate_value error_boot_fill = 216
substate_value error_unknown = 299

unfoldable pub is_error : Substate → Bool
unfolding substate_value
is_error s = leb 200 (substate_value s)

pub data Phase : Type 0 where
  before during after : Phase

abbrev pub flow_phase : Substate → Option Phase
flow_phase heat_water_tank = some before
flow_phase heat_water_heater = some before
flow_phase stabilize_mix_temp = some before
flow_phase pre_infuse = some during
flow_phase pour = some during
flow_phase steaming = some during
flow_phase paused_steam = some during
flow_phase flush = some after
flow_phase _ = none

-- `cls(n)`: the member with the value n, if there is one. No member that is found by a byte has a
-- negative value.
abbrev pub find {ℓ} : {A : Type ℓ} → List (A × ℕ) → ℕ → Option A
find [] n = none
find ((a, m) ∷ r) n = if m == n then some a else find r n

abbrev pub machine_states : List (MachineState × ℕ)
machine_states =
    (sleep, 0)
    ∷ (going_to_sleep, 1)
    ∷ (idle, 2)
    ∷ (busy, 3)
    ∷ (espresso, 4)
    ∷ (steam, 5)
    ∷ (hot_water, 6)
    ∷ (short_cal, 7)
    ∷ (self_test, 8)
    ∷ (long_cal, 9)
    ∷ (descale, 10)
    ∷ (fatal_error, 11)
    ∷ (init, 12)
    ∷ (no_request, 13)
    ∷ (skip_to_next, 14)
    ∷ (hot_water_rinse, 15)
    ∷ (steam_rinse, 16)
    ∷ (refill, 17)
    ∷ (clean, 18)
    ∷ (in_boot_loader, 19)
    ∷ (air_purge, 20)
    ∷ (sched_idle, 21)
    ∷ []

unfoldable pub machine_state? : ℕ → Option MachineState
machine_state? = find machine_states

abbrev pub substates : List (Substate × ℕ)
substates =
    (no_state, 0)
    ∷ (heat_water_tank, 1)
    ∷ (heat_water_heater, 2)
    ∷ (stabilize_mix_temp, 3)
    ∷ (pre_infuse, 4)
    ∷ (pour, 5)
    ∷ (flush, 6)
    ∷ (steaming, 7)
    ∷ (descale_init, 8)
    ∷ (descale_fill_group, 9)
    ∷ (descale_return, 10)
    ∷ (descale_group, 11)
    ∷ (descale_steam, 12)
    ∷ (clean_init, 13)
    ∷ (clean_fill_group, 14)
    ∷ (clean_soak, 15)
    ∷ (clean_group, 16)
    ∷ (paused_refill, 17)
    ∷ (paused_steam, 18)
    ∷ (user_not_present, 19)
    ∷ (steam_puff, 20)
    ∷ (Substate.unknown, 199)
    ∷ (error_nan, 200)
    ∷ (error_inf, 201)
    ∷ (error_generic, 202)
    ∷ (error_acc, 203)
    ∷ (error_tsensor, 204)
    ∷ (error_psensor, 205)
    ∷ (error_wlevel, 206)
    ∷ (error_dip, 207)
    ∷ (error_assertion, 208)
    ∷ (error_unsafe, 209)
    ∷ (error_invalid_parm, 210)
    ∷ (error_flash, 211)
    ∷ (error_oom, 212)
    ∷ (error_deadline, 213)
    ∷ (error_hi_current, 214)
    ∷ (error_lo_current, 215)
    ∷ (error_boot_fill, 216)
    ∷ (error_unknown, 299)
    ∷ []

unfoldable pub substate? : ℕ → Option Substate
substate? = find substates
