-- ===== src/Dtx/Talk.antt =====
-- A talk spurt after a silence: dtx_dl_amr_fsm_step and dtx_int_signal of src/common/msg_utils.c over the
-- machine of src/common/dtx_dl_amr_fsm.c.
use osmo_bts.Base.{ℕ, ◌≤◌, ◌<◌, ◌≡◌, sym, Bool, true, Option, none, some, List, ◌∷◌, arith}
use mathlib.Core.Path.{subst}
use osmo_bts.Dtx.Machine.{
  State, st_f1_inh_v, st_f1_inh_v_rec, st_u_inh_v, st_u_inh_v_rec, st_onset_v, st_onset_v_rec,
  st_voice, st_sid_f1, st_sid_f2, st_u_noinh, st_sid_u, st_facch, dispatch, accepted, settle,
  action, in_event_mask, out_state_mask, dtx_fsm_voice, dtx_fsm_sid_f1, dtx_fsm_sid_f2,
  dtx_fsm_f1_inh_v, dtx_fsm_u_inh_v, dtx_fsm_u_noinh, dtx_fsm_f1_inh_v_rec, dtx_fsm_u_inh_v_rec,
  dtx_fsm_sid_upd, dtx_fsm_onset_v, dtx_fsm_onset_v_rec, dtx_fsm_facch,
}
use osmo_bts.Dtx.Payload.{
  is_tch_h, Lchan, Kind, speech_amr, dispatch_to, dtx_dispatch, with_state, dtx_int_signal,
  dtx_is_first_p1, dtx_recursion, is_recursive, dtx_dl_amr_enabled,
}
use osmo_bts.Dtx.Step.{
  Decoded, speech, Output, success, with_lchan, rc_of, send, step_speech, step_by_type, prepared,
  step_decoded, step_payload, dtx_dl_amr_fsm_step,
}

-- The states between two frames: no second response is pending.
abbrev pub IsSteady : State → Type 0
IsSteady st_voice = 0 ≤ 0
IsSteady st_sid_f1 = 0 ≤ 0
IsSteady st_sid_f2 = 0 ≤ 0
IsSteady st_u_noinh = 0 ≤ 0
IsSteady st_sid_u = 0 ≤ 0
IsSteady st_facch = 0 ≤ 0
IsSteady _ = 0 < 0

-- An AMR channel with DTX on and its machine in a state.
abbrev pub running : Lchan → Kind → State → Lchan
running l k s = record l { dtxd = true; tch_mode = speech_amr; kind = k; dl_amr_fsm = some s }

unfoldable pub signal_in : Option Lchan → Option Lchan
signal_in none = none
signal_in (some l) = dtx_int_signal l

abbrev state_of : Option Lchan → Option State
state_of none = none
state_of (some l) = l.dl_amr_fsm

-- What the frame puts in front of the speech: the inhibition of the SID FIRST that may follow speech
-- or of a half rate channel's SID UPDATE, an onset, or nothing. The state that has the first
-- response to send, and the one for the second.
abbrev pub lead : State → Bool → State
lead st_voice half = st_f1_inh_v
lead st_sid_f1 half = st_onset_v
lead st_sid_f2 half = st_onset_v
lead st_u_noinh half = st_onset_v
lead st_sid_u true = st_u_inh_v
lead _ _ = st_voice

abbrev pub lead_rec : State → Bool → State
lead_rec st_voice half = st_f1_inh_v_rec
lead_rec st_sid_f1 half = st_onset_v_rec
lead_rec st_sid_f2 half = st_onset_v_rec
lead_rec st_u_noinh half = st_onset_v_rec
lead_rec st_sid_u true = st_u_inh_v_rec
lead_rec _ _ = st_voice

-- The frame was accepted, and the states after it and after each of the two next requests of the
-- physical layer are the two of the lead and the voice state.
abbrev pub IsTalking : State → Bool → Option Output → Type 0
IsTalking s half none = 0 < 0
IsTalking s half (some o) =
    (o.rc ≡ success)
    × (o.lchan.dl_amr_fsm ≡ some (lead s half))
    × (state_of (signal_in (some (o.lchan))) ≡ some (lead_rec s half))
    × (state_of (signal_in (signal_in (some (o.lchan)))) ≡ some st_voice)

talk_lem :
    (l : Lchan) (k : Kind) (s : State) (pl : List ℕ) (fn cmr cmi mode : ℕ) (sti : Bool)
    → IsSteady s
    → IsTalking s (is_tch_h k) (
        step_decoded
          (running l k s)
          pl
          fn
          true
          (some (record { cmr = cmr; cmi = cmi; ft = speech mode; sti = sti })))
unfolding step_decoded prepared step_by_type step_speech send rc_of with_lchan dispatch_to
    with_state signal_in dtx_int_signal dtx_dispatch dtx_is_first_p1 dtx_recursion is_recursive
    dtx_dl_amr_enabled dispatch accepted settle action in_event_mask out_state_mask dtx_fsm_voice
    dtx_fsm_sid_f1 dtx_fsm_sid_f2 dtx_fsm_f1_inh_v dtx_fsm_u_inh_v dtx_fsm_u_noinh
    dtx_fsm_f1_inh_v_rec dtx_fsm_u_inh_v_rec dtx_fsm_sid_upd dtx_fsm_onset_v dtx_fsm_onset_v_rec
    dtx_fsm_facch
talk_lem l k s pl fn cmr cmi mode sti h = ground arith

-- On an AMR channel with DTX on, between two frames, a marked speech frame is accepted in every
-- state of the machine. In the voice state, and in st_sid_u on a half rate channel, it leads to the
-- state for the inhibition of the SID frame; in st_sid_f1, st_sid_f2 and st_u_noinh to the state
-- for an onset. From there the next request of the physical layer leads to the state for the second
-- response, and the one after that to the voice state. In st_sid_u on another channel, and in
-- st_facch, it leads to the voice state at once, which the two requests keep.
pub talk_spurt :
    (amr_rtp_dec : List ℕ → Option Decoded) (l : Lchan) (k : Kind) (s : State) (x : ℕ) (xs : List ℕ)
    (fn cmr cmi mode : ℕ) (sti : Bool)
    → amr_rtp_dec (x ∷ xs) ≡ some (record { cmr = cmr; cmi = cmi; ft = speech mode; sti = sti })
    → IsSteady s
    → IsTalking s
        (is_tch_h k)
        (dtx_dl_amr_fsm_step amr_rtp_dec (running l k s) (some (x ∷ xs)) fn true)
unfolding dtx_dl_amr_fsm_step step_payload
talk_spurt dec l k s x xs fn cmr cmi mode sti e h =
    subst
      (λ (d : Option Decoded).
        IsTalking s (is_tch_h k) (step_decoded (running l k s) (x ∷ xs) fn true d))
      (sym e) (talk_lem l k s (x ∷ xs) fn cmr cmi mode sti h)
