-- ===== src/Dtx/Tests.antt =====
-- Runs of discontinuous transmission at concrete inputs, and instances of its theorems.
use osmo_bts.Base.{ℕ, ◌≡◌, refl, true, false, Option, some, List, [], ◌∷◌, replicate, arith}
use osmo_bts.Amr.Conf.{AmrMode}
use osmo_bts.Dtx.Machine.{
  st_sid_f1, st_sid_u, dispatch, e_facch, e_sid_u, accepted, settle, action, in_event_mask,
  out_state_mask, dtx_fsm_sid_f1,
}
use osmo_bts.Dtx.Payload.{Lchan, dtx_dl_amr_enabled, tch_h, speech_amr}
use osmo_bts.Dtx.Step.{Decoded, speech, sid, dtx_dl_amr_fsm_step}
use osmo_bts.Dtx.Repeat.{repeat_last_sid, dx26, dtx_amr_sid_optional}
use osmo_bts.Dtx.Safety.{IsValid, IsNext, dispatch-IsNext}
use osmo_bts.Dtx.Steps.{IsOutput, fsm_step-IsOutput}
use osmo_bts.Dtx.Spacing.{IsRepeat}
use osmo_bts.Dtx.Apart.{IsApart, repeat_last_sid-IsRepeat-IsApart}
use osmo_bts.Dtx.Talk.{IsTalking, running, talk_spurt}

abbrev mode : AmrMode
mode = record { mode = 2; threshold = 0; hysteresis = 0 }

-- A half rate channel in silence, with a SID frame of seven octets.
abbrev lchan : Lchan
lchan = record {
  dtxd = true;
  kind = tch_h;
  nr = 0;
  tch_mode = speech_amr;
  amr_mr = record { ie0 = 0; ie1 = 4; modes = mode ∷ mode ∷ mode ∷ mode ∷ []; num_modes = 1 };
  dl_amr_fsm = some st_sid_u;
  cache = replicate 20 7;
  len = 9;
  fn = 1000;
  is_update = true;
  ul_sid = false;
  rtp_tx_marker = false;
}

abbrev speech_frame : Decoded
speech_frame = record { cmr = 2; cmi = 2; ft = speech 2; sti = false }

abbrev speech_dec : List ℕ → Option Decoded
speech_dec pl = some speech_frame

abbrev sid_dec : List ℕ → Option Decoded
sid_dec pl = some (record { cmr = 2; cmi = 2; ft = sid; sti = true })

lchan-IsValid : IsValid lchan
lchan-IsValid = (refl, omega arith, omega arith)

dispatch-IsNext_example : IsNext (dispatch st_sid_u e_sid_u)
dispatch-IsNext_example = dispatch-IsNext st_sid_u e_sid_u (omega arith)

-- A FACCH frame at the start of a silence is not taken note of.
facch_ignored : dispatch st_sid_f1 e_facch ≡ some st_sid_f1
unfolding dispatch accepted settle action in_event_mask out_state_mask dtx_fsm_sid_f1
facch_ignored = refl

fsm_step-IsOutput_example :
    IsOutput (dtx_dl_amr_fsm_step sid_dec lchan (some (1 ∷ 2 ∷ 3 ∷ [])) 1010 false)
fsm_step-IsOutput_example =
    fsm_step-IsOutput sid_dec lchan (some (1 ∷ 2 ∷ 3 ∷ [])) 1010 false lchan-IsValid

-- A SID frame at frame 1040 and a request 36 frames later.
repeat_last_sid-IsRepeat-IsApart_example :
    IsRepeat 1040 (repeat_last_sid 20 lchan 1040)
    × IsApart 20 1040 1076 (repeat_last_sid 20 lchan 1040)
repeat_last_sid-IsRepeat-IsApart_example =
    repeat_last_sid-IsRepeat-IsApart 20 lchan 1040 1076 (omega arith) lchan-IsValid refl refl
      (omega arith) (omega arith)

-- At the wrap of the hyperframe a SID frame is due one frame after the last one.
wrap_due :
    dtx_amr_sid_optional 20 (record lchan { fn = 2715647 }) 0
    ≡ some (false, record lchan { fn = 2715647 })
unfolding dtx_amr_sid_optional dtx_dl_amr_enabled dx26
wrap_due = refl

talk_spurt_example :
    IsTalking st_sid_u true
      (dtx_dl_amr_fsm_step speech_dec (running lchan tch_h st_sid_u) (some (1 ∷ [])) 5 true)
talk_spurt_example =
    talk_spurt speech_dec lchan tch_h st_sid_u 1 [] 5 2 2 2 false refl (omega arith)
