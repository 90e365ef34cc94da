-- ===== src/Shutdown.antt =====
-- src/common/bts_shutdown_fsm.c: the shutdown of a base station, which ramps its transceivers
-- down, closes them and leaves the process. A handler yields the state that it asks for; the
-- dispatch itself belongs to libosmocore.
pub mod Proofs
mod Tests
use osmo_bts.Base.{
  ℕ, zero, ◌+◌, Bool, true, false, Option, none, some, List, [], ◌∷◌, ◌++◌, ◌==◌, ◌&&◌,
  if◌then◌else◌,
}
use osmo_bts.Base.Int.{ℤ, pos, negsuc, ltb_ℤ}
use osmo_bts.TxPower.Types.{Trx}
use osmo_bts.TxPower.Ramp.{Effect, power_ramp_start, power_ramp_abort}

-- The states BTS_SHUTDOWN_ST_* and the events BTS_SHUTDOWN_EV_*.
pub data State : Type 0 where
  st_none wait_ramp_down_compl wait_trx_closed st_exit : State

pub data Event : Type 0 where
  ev_start trx_ramp_compl trx_closed : Event

-- A transceiver of the list: whether its object is enabled, and its power.
pub record Transceiver : Type 0 where
  pub enabled : Bool
  pub power : Trx

-- What a handler calls outside of this file; a transceiver is given by its position.
pub data Call : Type 0 where
  shutdown_start shutdown_finish exit_process : Call
  ramp_effect : Effect → Call
  deact_rf close : ℕ → Call

-- The state that is asked for, the transceivers and the calls, in order.
pub record Reaction : Type 0 where
  pub next : Option State
  pub units : List Transceiver
  pub calls : List Call

abbrev quiet : List Transceiver → Reaction
quiet us = record { next = none; units = us; calls = [] }

-- The state table: the events that a state takes and the states that may follow it.
unfoldable pub in_event_mask : State → Event → Bool
in_event_mask st_none ev_start = true
in_event_mask wait_ramp_down_compl trx_ramp_compl = true
in_event_mask wait_trx_closed trx_closed = true
in_event_mask _ _ = false

unfoldable pub out_state_mask : State → State → Bool
out_state_mask st_none wait_ramp_down_compl = true
out_state_mask st_none wait_trx_closed = true
out_state_mask wait_ramp_down_compl wait_trx_closed = true
out_state_mask wait_trx_closed st_exit = true
out_state_mask st_exit st_none = true
out_state_mask _ _ = false

unfoldable pub count_trx_operational : List Transceiver → ℕ
count_trx_operational [] = 0
count_trx_operational (u ∷ us) =
    let rest = count_trx_operational us in if u.enabled then rest + 1 else rest

-- BTS_SHUTDOWN_POWER_RAMP_TGT as it is compared, and by to_mdB as the target of the ramps.
abbrev pub compared_power : ℤ
compared_power = negsuc 9

abbrev pub target_power : ℤ
target_power = negsuc 9999

-- The transceivers that are not yet down, as the completion of a ramp counts them.
unfoldable pub remaining : List Transceiver → ℕ
remaining [] = 0
remaining (u ∷ us) =
    let rest = remaining us in
    if u.enabled && ltb_ℤ compared_power (u.power.p_total_cur_mdbm) then rest + 1 else rest

unfoldable pub abort_all : List Transceiver → List Transceiver
abort_all [] = []
abort_all (u ∷ us) = record u { power = power_ramp_abort (u.power) } ∷ abort_all us

unfoldable pub action : State → Event → List Transceiver → Reaction
action st_none ev_start us = record {
  next = some (if count_trx_operational us == 0 then wait_trx_closed else wait_ramp_down_compl);
  units = us;
  calls = shutdown_start ∷ [];
}
action wait_ramp_down_compl trx_ramp_compl us =
    if remaining us == 0
    then record { next = some wait_trx_closed; units = abort_all us; calls = [] }
    else quiet us
action wait_trx_closed trx_closed us =
    if count_trx_operational us == 0
    then record { next = some st_exit; units = us; calls = [] }
    else quiet us
action _ _ us = quiet us

-- The start of one ramp; -ERANGE would leave the transceiver as it is.
unfoldable pub ramped : Transceiver → Option (Trx × Effect) → Transceiver × List Call
ramped u none = (u, [])
ramped u (some (t, e)) = (record u { power = t }, ramp_effect e ∷ [])

unfoldable pub ramp_down : Bool → List Transceiver → List Transceiver × List Call
ramp_down skip [] = ([], [])
ramp_down skip (u ∷ us) =
    let rest = ramp_down skip us in
    let r =
      (if u.enabled
        then ramped u (power_ramp_start (u.power) target_power true true skip)
        else (u, [])) in
    (r.0 ∷ rest.0, r.1 ++ rest.1)

-- A call for each position below `n`, the last one first.
unfoldable pub backwards : (ℕ → Call) → ℕ → List Transceiver → List Call
backwards call i [] = []
backwards call i (u ∷ us) = backwards call (i + 1) us ++ call i ∷ []

-- The entry into a state; `exit_proc` is bts->shutdown_fi_exit_proc.
unfoldable pub on_enter : State → Bool → Bool → List Transceiver → Reaction
on_enter wait_ramp_down_compl skip exit_proc us =
    let r = ramp_down skip us in record { next = none; units = r.0; calls = r.1 }
on_enter wait_trx_closed skip exit_proc us = record {
  next = none;
  units = us;
  calls = backwards deact_rf 0 us ++ backwards close 0 us;
}
on_enter st_exit skip exit_proc us = record {
  next = (if exit_proc then none else some st_none);
  units = us;
  calls = shutdown_finish ∷ (if exit_proc then exit_process ∷ [] else []);
}
on_enter st_none skip exit_proc us = quiet us

-- The expiry of a state's timer; none where the assertion fails.
unfoldable pub timer_cb : State → Option State
timer_cb wait_ramp_down_compl = some wait_trx_closed
timer_cb wait_trx_closed = some st_exit
timer_cb _ = none
