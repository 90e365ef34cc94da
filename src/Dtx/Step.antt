-- ===== src/Dtx/Step.antt =====
-- A payload from the network or a request without one: dtx_dl_amr_fsm_step of src/common/msg_utils.c.
use osmo_bts.Base.{
  ℕ, ◌+◌, ◌%◌, Bool, not, ◌&&◌, ◌||◌, Option, none, some, List, [], ◌∷◌, length, get_or, set,
  if◌then◌else◌,
}
use osmo_bts.Base.Int.{pos}
use osmo_bts.Amr.Conf.{amr_set_mode_pref}
use osmo_bts.Dtx.Machine.{
  State, Event, e_voice, e_onset, e_compl, e_inhib, e_sid_f, e_sid_u, accepted,
}
use osmo_bts.Dtx.Payload.{
  Lchan, is_tch_h, in_voice, in_sid_f1, in_sid_f2, in_sid_u, in_u_noinh, in_facch,
  dtx_dl_amr_enabled, dispatch_to, dtx_dispatch, dtx_cache_payload,
}

-- enum osmo_amr_type, the frame types that the source tells apart; a speech frame with its mode.
pub data FrameType : Type 0 where
  speech : ℕ → FrameType
  sid no_data : FrameType
  unsupported : ℕ → FrameType

-- What osmo_amr_rtp_dec stores; `cmi` is converted to uint8_t, and `sti` is not 0.
pub record Decoded : Type 0 where
  pub cmr : ℕ
  pub cmi : ℕ
  pub ft : FrameType
  pub sti : Bool

-- The value returned: 0, -EBADMSG, that of the decoder, -ENOTSUP, or that of a refused event.
pub data Rc : Type 0 where
  success bad_msg not_decoded not_sup refused : Rc

-- The channel and the output: the first two octets of the payload, its length and frame type,
-- where they are written.
pub record Output : Type 0 where
  pub rc : Rc
  pub lchan : Lchan
  pub prefix : Option (ℕ × ℕ)
  pub len : Option ℕ
  pub ft_out : Option FrameType

unfoldable pub error_of : Rc → Lchan → Output
error_of rc l = record { rc = rc; lchan = l; prefix = none; len = none; ft_out = none }

unfoldable pub with_lchan : Output → Option Lchan → Option Output
with_lchan o none = none
with_lchan o (some l) = some (record o { lchan = l })

-- The value that the dispatcher returns.
unfoldable pub rc_of : Option State → Event → Rc
rc_of none e = refused
rc_of (some s) e = if accepted s e then success else refused

-- return osmo_fsm_inst_dispatch(...)
unfoldable pub send : Output → Event → Option Output
send o e =
    let s = o.lchan.dl_amr_fsm in
    with_lchan (record o { rc = rc_of s e }) (dispatch_to (o.lchan) s e)

-- A request of gen_empty_tch_msg on a half rate channel.
unfoldable pub step_empty : Lchan → Option Output
step_empty l =
    if in_sid_f2 (l.dl_amr_fsm)
    then with_lchan
        (record {
          rc = success;
          lchan = l;
          prefix = some (get_or (l.cache) 0 0, get_or (l.cache) 1 0);
          len = some 3;
          ft_out = none;
        })
        (dtx_dispatch l e_compl)
    else if in_sid_u (l.dl_amr_fsm)
    then with_lchan (error_of bad_msg l) (dtx_dispatch l e_sid_u)
    else some (error_of bad_msg l)

-- None where the source follows a null pointer: there is no machine.
unfoldable pub step_speech : Output → Bool → Option Output
step_speech o marker =
    let s = o.lchan.dl_amr_fsm in
    if marker && in_voice s
    then send o e_inhib
    else if marker && (is_tch_h (o.lchan.kind) && in_sid_u s)
    then send o e_inhib
    else if marker && (in_sid_f1 s || (in_sid_f2 s || in_u_noinh s))
    then send o e_onset
    else if not (in_voice s)
    then send o e_voice
    else some o

unfoldable pub step_sid : Output → List ℕ → ℕ → Bool → Option Output
step_sid o rtp_pl fn sti =
    let l = o.lchan in
    let s = l.dl_amr_fsm in
    let event = if sti then e_sid_u else e_sid_f in
    let update = if sti then pos 1 else pos 0 in
    let cached = record o { lchan = dtx_cache_payload l rtp_pl fn update } in
    let c = if in_facch s then o else cached in
    if in_voice s
    then send (record o { lchan = dtx_cache_payload l rtp_pl fn (pos 0) }) event
    else send c (if in_sid_f2 s then e_compl else event)

-- A frame without data resumes speech if it is marked; the return value of the dispatcher is
-- dropped.
unfoldable pub step_no_data : Output → Bool → Option Output
step_no_data o marker =
    let quiet = record o { len = some 0 } in
    if marker
    then with_lchan quiet (dispatch_to (o.lchan) (o.lchan.dl_amr_fsm) e_voice)
    else some quiet

unfoldable pub step_by_type : Output → List ℕ → ℕ → Bool → Decoded → FrameType → Option Output
step_by_type o rtp_pl fn marker d (speech mode) = step_speech o marker
step_by_type o rtp_pl fn marker d sid = step_sid o rtp_pl fn (d.sti)
step_by_type o rtp_pl fn marker d no_data = step_no_data o marker
step_by_type o rtp_pl fn marker d (unsupported t) = some (record o { rc = not_sup })

-- The codec mode of a speech frame is its frame type.
unfoldable pub cmi_of : Decoded → FrameType → ℕ
cmi_of d (speech mode) = mode
cmi_of d _ = d.cmi

-- The output once the payload is decoded: the prefix goes to the payload and to the cache.
unfoldable pub prepared : Lchan → List ℕ → Decoded → Output
prepared l rtp_pl d =
    let p = amr_set_mode_pref (l.amr_mr) (cmi_of d (d.ft)) (d.cmr) in
    record {
      rc = success;
      lchan = record l { cache = set (set (l.cache) 0 (p.0)) 1 (p.1) };
      prefix = some p;
      len = some ((3 + length rtp_pl) % 256);
      ft_out = some (d.ft);
    }

unfoldable pub step_decoded : Lchan → List ℕ → ℕ → Bool → Option Decoded → Option Output
step_decoded l rtp_pl fn marker none = some (error_of not_decoded l)
step_decoded l rtp_pl fn marker (some d) =
    let o = prepared l rtp_pl d in
    if l.dtxd then step_by_type o rtp_pl fn marker d (d.ft) else some o

-- The payload is decoded unless it is empty.
unfoldable pub step_payload : (List ℕ → Option Decoded) → Lchan → List ℕ → ℕ → Bool → Option Output
step_payload amr_rtp_dec l [] fn marker = some (error_of bad_msg l)
step_payload amr_rtp_dec l (x ∷ xs) fn marker =
    step_decoded l (x ∷ xs) fn marker (amr_rtp_dec (x ∷ xs))

-- `rtp_pl` is none for a null pointer. None for a failed assertion or a missing machine.
unfoldable pub dtx_dl_amr_fsm_step :
    (List ℕ → Option Decoded) → Lchan → Option (List ℕ) → ℕ → Bool → Option Output
dtx_dl_amr_fsm_step amr_rtp_dec l none fn marker =
    if dtx_dl_amr_enabled l && is_tch_h (l.kind) then step_empty l else some (error_of bad_msg l)
dtx_dl_amr_fsm_step amr_rtp_dec l (some rtp_pl) fn marker =
    step_payload amr_rtp_dec l rtp_pl fn marker
