-- ===== src/Shutdown/Proofs.antt =====
-- The state machine of src/common/bts_shutdown_fsm.c with the ramps of src/common/tx_power.c.
use osmo_bts.Base.{
  ◌≡◌, refl, Bool, true, false, Option, none, some, List, [], ◌==◌, ◌&&◌, if◌then◌else◌, if_elim,
}
use osmo_bts.Base.Int.{ltb_ℤ}
use osmo_bts.TxPower.Ramp.{power_ramp_start}
use osmo_bts.Shutdown.{
  State, st_none, wait_ramp_down_compl, wait_trx_closed, st_exit, Event, ev_start, trx_ramp_compl,
  trx_closed, Transceiver, Call, Reaction, action, on_enter, timer_cb, out_state_mask, remaining,
  ramped, compared_power, target_power, count_trx_operational,
}

-- A state asked for is one that the table lets follow.
abbrev pub IsAllowed : State → Option State → Type 0
IsAllowed s none = true ≡ true
IsAllowed s (some t) = out_state_mask s t ≡ true

action-IsAllowed :
    (s : State) (e : Event) (us : List Transceiver) → IsAllowed s ((action s e us).next)
unfolding action out_state_mask
action-IsAllowed st_none ev_start us =
    if_elim (λ (t : State). out_state_mask st_none t ≡ true) (count_trx_operational us == 0)
      wait_trx_closed wait_ramp_down_compl (λ e. refl) (λ e. refl)
action-IsAllowed st_none trx_ramp_compl us = refl
action-IsAllowed st_none trx_closed us = refl
action-IsAllowed wait_ramp_down_compl ev_start us = refl
action-IsAllowed wait_ramp_down_compl trx_ramp_compl us =
    if_elim (λ (r : Reaction). IsAllowed wait_ramp_down_compl (r.next)) (remaining us == 0) _ _
      (λ e. refl) (λ e. refl)
action-IsAllowed wait_ramp_down_compl trx_closed us = refl
action-IsAllowed wait_trx_closed ev_start us = refl
action-IsAllowed wait_trx_closed trx_ramp_compl us = refl
action-IsAllowed wait_trx_closed trx_closed us =
    if_elim (λ (r : Reaction). IsAllowed wait_trx_closed (r.next)) (count_trx_operational us == 0) _
      _ (λ e. refl) (λ e. refl)
action-IsAllowed st_exit e us = refl

on_enter-IsAllowed :
    (s : State) (skip exit_proc : Bool) (us : List Transceiver)
    → IsAllowed s ((on_enter s skip exit_proc us).next)
unfolding on_enter out_state_mask
on_enter-IsAllowed st_none skip exit_proc us = refl
on_enter-IsAllowed wait_ramp_down_compl skip exit_proc us = refl
on_enter-IsAllowed wait_trx_closed skip exit_proc us = refl
on_enter-IsAllowed st_exit skip true us = refl
on_enter-IsAllowed st_exit skip false us = refl

timer_cb-IsAllowed : (s : State) → IsAllowed s (timer_cb s)
unfolding timer_cb out_state_mask
timer_cb-IsAllowed st_none = refl
timer_cb-IsAllowed wait_ramp_down_compl = refl
timer_cb-IsAllowed wait_trx_closed = refl
timer_cb-IsAllowed st_exit = refl

-- No handler of an event, no entry into a state and no timer asks for a state that the table of
-- the machine does not let follow, whatever the transceivers do.
pub transitions-IsAllowed :
    (s : State) (e : Event) (skip exit_proc : Bool) (us : List Transceiver)
    → IsAllowed s ((action s e us).next)
      × IsAllowed s ((on_enter s skip exit_proc us).next)
      × IsAllowed s (timer_cb s)
transitions-IsAllowed s e skip exit_proc us =
    (action-IsAllowed s e us, on_enter-IsAllowed s skip exit_proc us, timer_cb-IsAllowed s)

-- Whether the completion of a ramp counts a transceiver as remaining.
abbrev is_remaining : Transceiver → Bool
is_remaining u = u.enabled && ltb_ℤ compared_power (u.power.p_total_cur_mdbm)

abbrev entry : Transceiver → Transceiver × List Call
entry u =
    if u.enabled then ramped u (power_ramp_start (u.power) target_power true true true) else (u, [])
