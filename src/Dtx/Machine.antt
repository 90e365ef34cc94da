-- ===== src/Dtx/Machine.antt =====
-- The machine for discontinuous downlink transmission with AMR: src/common/dtx_dl_amr_fsm.c, with the
-- states and events of include/osmo-bts/dtx_dl_amr_fsm.h. The dispatcher is libosmocore's: it refuses
-- an event outside of the state's mask, and a change to a state outside of the other mask.
use osmo_bts.Base.{Bool, true, false, Option, none, some, if◌then◌else◌}

-- enum dtx_dl_amr_fsm_states
pub data State : Type 0 where
  st_voice st_sid_f1 st_sid_f2 st_f1_inh_v st_f1_inh_f st_u_inh_v st_u_inh_f st_u_noinh : State
  st_f1_inh_v_rec st_f1_inh_f_rec st_u_inh_v_rec st_u_inh_f_rec st_sid_u st_onset_v : State
  st_onset_f st_onset_v_rec st_onset_f_rec st_facch : State

-- enum dtx_dl_amr_fsm_events
pub data Event : Type 0 where
  e_voice e_onset e_facch e_compl e_first e_inhib e_sid_f e_sid_u : Event

-- What an action does: nothing, a change of state, or an assertion that fails.
pub data Act : Type 0 where
  nothing fails : Act
  go : State → Act

unfoldable pub dtx_fsm_voice : Event → Act
dtx_fsm_voice e_voice = nothing
dtx_fsm_voice e_facch = nothing
dtx_fsm_voice e_sid_f = go st_sid_f1
dtx_fsm_voice e_sid_u = go st_u_noinh
dtx_fsm_voice e_inhib = go st_f1_inh_v
dtx_fsm_voice _ = fails

unfoldable pub dtx_fsm_sid_f1 : Event → Act
dtx_fsm_sid_f1 e_sid_f = nothing
dtx_fsm_sid_f1 e_sid_u = go st_u_noinh
dtx_fsm_sid_f1 e_facch = go st_f1_inh_f
dtx_fsm_sid_f1 e_first = go st_sid_f2
dtx_fsm_sid_f1 e_onset = go st_onset_v
dtx_fsm_sid_f1 _ = fails

unfoldable pub dtx_fsm_sid_f2 : Event → Act
dtx_fsm_sid_f2 e_compl = go st_u_noinh
dtx_fsm_sid_f2 e_facch = go st_onset_f
dtx_fsm_sid_f2 e_onset = go st_onset_v
dtx_fsm_sid_f2 _ = fails

unfoldable pub dtx_fsm_f1_inh_v : Event → Act
dtx_fsm_f1_inh_v e_compl = go st_f1_inh_v_rec
dtx_fsm_f1_inh_v _ = fails

unfoldable pub dtx_fsm_f1_inh_f : Event → Act
dtx_fsm_f1_inh_f e_compl = go st_f1_inh_f_rec
dtx_fsm_f1_inh_f _ = fails

unfoldable pub dtx_fsm_u_inh_v : Event → Act
dtx_fsm_u_inh_v e_compl = go st_u_inh_v_rec
dtx_fsm_u_inh_v _ = fails

unfoldable pub dtx_fsm_u_inh_f : Event → Act
dtx_fsm_u_inh_f e_compl = go st_u_inh_f_rec
dtx_fsm_u_inh_f _ = fails

unfoldable pub dtx_fsm_u_noinh : Event → Act
dtx_fsm_u_noinh e_facch = go st_onset_f
dtx_fsm_u_noinh e_voice = go st_voice
dtx_fsm_u_noinh e_compl = go st_sid_u
dtx_fsm_u_noinh e_sid_u = nothing
dtx_fsm_u_noinh e_sid_f = nothing
dtx_fsm_u_noinh e_onset = go st_onset_v
dtx_fsm_u_noinh _ = fails

unfoldable pub dtx_fsm_f1_inh_v_rec : Event → Act
dtx_fsm_f1_inh_v_rec e_voice = go st_voice
dtx_fsm_f1_inh_v_rec e_compl = go st_voice
dtx_fsm_f1_inh_v_rec _ = fails

unfoldable pub dtx_fsm_f1_inh_f_rec : Event → Act
dtx_fsm_f1_inh_f_rec e_facch = go st_facch
dtx_fsm_f1_inh_f_rec e_compl = go st_facch
dtx_fsm_f1_inh_f_rec _ = fails

unfoldable pub dtx_fsm_u_inh_v_rec : Event → Act
dtx_fsm_u_inh_v_rec e_voice = go st_voice
dtx_fsm_u_inh_v_rec e_compl = go st_voice
dtx_fsm_u_inh_v_rec _ = fails

unfoldable pub dtx_fsm_u_inh_f_rec : Event → Act
dtx_fsm_u_inh_f_rec e_facch = go st_facch
dtx_fsm_u_inh_f_rec e_compl = go st_facch
dtx_fsm_u_inh_f_rec _ = fails

unfoldable pub dtx_fsm_sid_upd : Event → Act
dtx_fsm_sid_upd e_facch = go st_u_inh_f
dtx_fsm_sid_upd e_voice = go st_voice
dtx_fsm_sid_upd e_inhib = go st_u_inh_v
dtx_fsm_sid_upd e_sid_u = go st_u_noinh
dtx_fsm_sid_upd e_sid_f = go st_u_noinh
dtx_fsm_sid_upd _ = fails

unfoldable pub dtx_fsm_onset_v : Event → Act
dtx_fsm_onset_v e_compl = go st_onset_v_rec
dtx_fsm_onset_v _ = fails

unfoldable pub dtx_fsm_onset_f : Event → Act
dtx_fsm_onset_f e_compl = go st_onset_f_rec
dtx_fsm_onset_f _ = fails

unfoldable pub dtx_fsm_onset_v_rec : Event → Act
dtx_fsm_onset_v_rec e_compl = go st_voice
dtx_fsm_onset_v_rec _ = fails

unfoldable pub dtx_fsm_onset_f_rec : Event → Act
dtx_fsm_onset_f_rec e_compl = go st_facch
dtx_fsm_onset_f_rec _ = fails

unfoldable pub dtx_fsm_facch : Event → Act
dtx_fsm_facch e_sid_u = nothing
dtx_fsm_facch e_sid_f = nothing
dtx_fsm_facch e_facch = nothing
dtx_fsm_facch e_voice = go st_voice
dtx_fsm_facch e_compl = go st_sid_f1
dtx_fsm_facch _ = fails

-- The table: the action of a state.
unfoldable pub action : State → Event → Act
action st_voice e = dtx_fsm_voice e
action st_sid_f1 e = dtx_fsm_sid_f1 e
action st_sid_f2 e = dtx_fsm_sid_f2 e
action st_f1_inh_v e = dtx_fsm_f1_inh_v e
action st_f1_inh_f e = dtx_fsm_f1_inh_f e
action st_u_inh_v e = dtx_fsm_u_inh_v e
action st_u_inh_f e = dtx_fsm_u_inh_f e
action st_u_noinh e = dtx_fsm_u_noinh e
action st_f1_inh_v_rec e = dtx_fsm_f1_inh_v_rec e
action st_f1_inh_f_rec e = dtx_fsm_f1_inh_f_rec e
action st_u_inh_v_rec e = dtx_fsm_u_inh_v_rec e
action st_u_inh_f_rec e = dtx_fsm_u_inh_f_rec e
action st_sid_u e = dtx_fsm_sid_upd e
action st_onset_v e = dtx_fsm_onset_v e
action st_onset_f e = dtx_fsm_onset_f e
action st_onset_v_rec e = dtx_fsm_onset_v_rec e
action st_onset_f_rec e = dtx_fsm_onset_f_rec e
action st_facch e = dtx_fsm_facch e

-- The table: the events of a state.
unfoldable pub in_event_mask : State → Event → Bool
in_event_mask st_voice e_sid_f = true
in_event_mask st_voice e_sid_u = true
in_event_mask st_voice e_voice = true
in_event_mask st_voice e_facch = true
in_event_mask st_voice e_inhib = true
in_event_mask st_sid_f1 e_sid_f = true
in_event_mask st_sid_f1 e_sid_u = true
in_event_mask st_sid_f1 e_facch = true
in_event_mask st_sid_f1 e_first = true
in_event_mask st_sid_f1 e_onset = true
in_event_mask st_sid_f2 e_compl = true
in_event_mask st_sid_f2 e_facch = true
in_event_mask st_sid_f2 e_onset = true
in_event_mask st_f1_inh_v e_compl = true
in_event_mask st_f1_inh_f e_compl = true
in_event_mask st_u_inh_v e_compl = true
in_event_mask st_u_inh_f e_compl = true
in_event_mask st_u_noinh e_facch = true
in_event_mask st_u_noinh e_voice = true
in_event_mask st_u_noinh e_compl = true
in_event_mask st_u_noinh e_sid_u = true
in_event_mask st_u_noinh e_sid_f = true
in_event_mask st_u_noinh e_onset = true
in_event_mask st_f1_inh_v_rec e_compl = true
in_event_mask st_f1_inh_v_rec e_voice = true
in_event_mask st_f1_inh_f_rec e_compl = true
in_event_mask st_f1_inh_f_rec e_facch = true
in_event_mask st_u_inh_v_rec e_compl = true
in_event_mask st_u_inh_v_rec e_voice = true
in_event_mask st_u_inh_f_rec e_compl = true
in_event_mask st_u_inh_f_rec e_facch = true
in_event_mask st_sid_u e_facch = true
in_event_mask st_sid_u e_voice = true
in_event_mask st_sid_u e_inhib = true
in_event_mask st_sid_u e_sid_u = true
in_event_mask st_sid_u e_sid_f = true
in_event_mask st_onset_v e_compl = true
in_event_mask st_onset_f e_compl = true
in_event_mask st_onset_v_rec e_compl = true
in_event_mask st_onset_f_rec e_compl = true
in_event_mask st_facch e_facch = true
in_event_mask st_facch e_voice = true
in_event_mask st_facch e_compl = true
in_event_mask st_facch e_sid_u = true
in_event_mask st_facch e_sid_f = true
in_event_mask _ _ = false

-- The table: the states that may follow a state.
unfoldable pub out_state_mask : State → State → Bool
out_state_mask st_voice st_sid_f1 = true
out_state_mask st_voice st_u_noinh = true
out_state_mask st_voice st_f1_inh_v = true
out_state_mask st_sid_f1 st_u_noinh = true
out_state_mask st_sid_f1 st_onset_f = true
out_state_mask st_sid_f1 st_sid_f2 = true
out_state_mask st_sid_f1 st_onset_v = true
out_state_mask st_sid_f2 st_u_noinh = true
out_state_mask st_sid_f2 st_onset_f = true
out_state_mask st_sid_f2 st_onset_v = true
out_state_mask st_f1_inh_v st_f1_inh_v_rec = true
out_state_mask st_f1_inh_f st_f1_inh_f_rec = true
out_state_mask st_u_inh_v st_u_inh_v_rec = true
out_state_mask st_u_inh_f st_u_inh_f_rec = true
out_state_mask st_u_noinh st_onset_f = true
out_state_mask st_u_noinh st_voice = true
out_state_mask st_u_noinh st_sid_u = true
out_state_mask st_u_noinh st_onset_v = true
out_state_mask st_f1_inh_v_rec st_voice = true
out_state_mask st_f1_inh_f_rec st_facch = true
out_state_mask st_u_inh_v_rec st_voice = true
out_state_mask st_u_inh_f_rec st_facch = true
out_state_mask st_sid_u st_onset_f = true
out_state_mask st_sid_u st_voice = true
out_state_mask st_sid_u st_u_inh_v = true
out_state_mask st_sid_u st_u_inh_f = true
out_state_mask st_sid_u st_u_noinh = true
out_state_mask st_onset_v st_onset_v_rec = true
out_state_mask st_onset_f st_onset_f_rec = true
out_state_mask st_onset_v_rec st_voice = true
out_state_mask st_onset_f_rec st_facch = true
out_state_mask st_facch st_voice = true
out_state_mask st_facch st_sid_f1 = true
out_state_mask _ _ = false

-- The state after an action; none for the assertion.
unfoldable pub settle : State → Act → Option State
settle s nothing = some s
settle s fails = none
settle s (go t) = some (if out_state_mask s t then t else s)

-- Whether the value returned is 0.
unfoldable pub accepted : State → Event → Bool
accepted s e = in_event_mask s e

-- osmo_fsm_inst_dispatch: the state after an event, none for an assertion that fails.
unfoldable pub dispatch : State → Event → Option State
dispatch s e = if accepted s e then settle s (action s e) else some s
