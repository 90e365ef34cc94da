-- ===== src/Dtx/Steps.antt =====
-- Every call of the functions of src/common/msg_utils.c that drive discontinuous transmission ends
-- with a valid channel.
use osmo_bts.Base.{
  ℕ, ◌<◌, ◌≡◌, refl, ◌∙◌, Bool, true, false, not, ◌&&◌, ◌||◌, Option, none, some, List, [], ◌∷◌,
  set, get_or, if◌then◌else◌, if_elim, length-set,
}
use osmo_bts.Base.Int.{ℤ, pos}
use osmo_bts.Dtx.Machine.{Event, e_voice, e_compl, e_sid_f, e_sid_u, e_inhib, e_onset}
use osmo_bts.Dtx.Payload.{
  Lchan, dtx_cache_payload, dispatch_to, dtx_dispatch, dtx_dl_amr_enabled, in_voice, in_facch,
  in_sid_f2, in_sid_f1, in_sid_u, in_u_noinh, is_tch_h,
}
use osmo_bts.Dtx.Step.{
  FrameType, Rc, speech, sid, no_data, unsupported, Decoded, Output, error_of, with_lchan, send,
  step_empty, step_speech, step_sid, step_no_data, step_by_type, prepared, step_decoded,
  step_payload, dtx_dl_amr_fsm_step, bad_msg, not_decoded, success,
}
use osmo_bts.Dtx.Safety.{
  IsValid, IsKept, IsReady-on, dispatch_to-IsKept, dtx_dispatch-IsKept, dtx_cache_payload-IsValid,
}

-- The call returns, with a valid channel.
unfoldable pub IsOutput : Option Output → Type 0
IsOutput none = 0 < 0
IsOutput (some o) = IsValid (o.lchan)

-- What a value, a call and a test come to.
some-IsOutput : (o : Output) → IsValid (o.lchan) → IsOutput (some o)
unfolding IsOutput
some-IsOutput o v = v

error_IsOutput : (rc : Rc) (l : Lchan) → IsValid l → IsOutput (some (error_of rc l))
unfolding IsOutput error_of
error_IsOutput rc l v = v

if_IsOutput :
    (b : Bool) (x y : Option Output) → IsOutput x → IsOutput y → IsOutput (if b then x else y)
if_IsOutput true x y h k = h
if_IsOutput false x y h k = k

with_lchan-IsOutput : (o : Output) (l : Option Lchan) → IsKept l → IsOutput (with_lchan o l)
unfolding with_lchan IsOutput IsKept
with_lchan-IsOutput o none h = h
with_lchan-IsOutput o (some l) h = h

-- DTX is on.
send-IsOutput :
    (o : Output) (e : Event) → o.lchan.dtxd ≡ true → IsValid (o.lchan) → IsOutput (send o e)
unfolding send
send-IsOutput o e d (c, n, r) =
    with_lchan-IsOutput _ (dispatch_to (o.lchan) (o.lchan.dl_amr_fsm) e) (
      dispatch_to-IsKept (o.lchan) (o.lchan.dl_amr_fsm) e c n
        (IsReady-on _ (o.lchan.dl_amr_fsm) d r))

step_empty-IsOutput : (l : Lchan) → IsValid l → IsOutput (step_empty l)
unfolding step_empty
step_empty-IsOutput l v =
    let done : Output = record {
      rc = success;
      lchan = l;
      prefix = some (get_or (l.cache) 0 0, get_or (l.cache) 1 0);
      len = some 3;
      ft_out = none;
    } in
    let bad = error_of bad_msg l in
    if_IsOutput (in_sid_f2 (l.dl_amr_fsm)) _ _
      (with_lchan-IsOutput done (dtx_dispatch l e_compl) (dtx_dispatch-IsKept l e_compl v))
      (if_IsOutput (in_sid_u (l.dl_amr_fsm)) _ _
        (with_lchan-IsOutput bad (dtx_dispatch l e_sid_u) (dtx_dispatch-IsKept l e_sid_u v))
        (error_IsOutput bad_msg l v))

step_speech-IsOutput :
    (o : Output) (marker : Bool)
    → o.lchan.dtxd ≡ true
    → IsValid (o.lchan)
    → IsOutput (step_speech o marker)
unfolding step_speech
step_speech-IsOutput o marker d v =
    let inhib = send-IsOutput o e_inhib d v in
    let onset = send-IsOutput o e_onset d v in
    let voice = send-IsOutput o e_voice d v in
    let s = o.lchan.dl_amr_fsm in
    if_IsOutput (marker && in_voice s) _ _ inhib (
      if_IsOutput (marker && (is_tch_h (o.lchan.kind) && in_sid_u s)) _ _ inhib (
        if_IsOutput (marker && (in_sid_f1 s || (in_sid_f2 s || in_u_noinh s))) _ _ onset
          (if_IsOutput (not (in_voice s)) _ _ voice (some-IsOutput o v))))

-- The channel of one of two outputs.
if_lchan :
    (b : Bool) (o p : Output)
    → (o.lchan.dtxd ≡ true) × IsValid (o.lchan)
    → (p.lchan.dtxd ≡ true) × IsValid (p.lchan)
    → ((if b then o else p).lchan.dtxd ≡ true) × IsValid ((if b then o else p).lchan)
if_lchan true o p h k = h
if_lchan false o p h k = k

cache_dtxd :
    (l : Lchan) (pl : List ℕ) (fn : ℕ) (update : ℤ)
    → (dtx_cache_payload l pl fn update).dtxd ≡ l.dtxd
unfolding dtx_cache_payload
cache_dtxd l pl fn update = refl

step_sid-IsOutput :
    (o : Output) (pl : List ℕ) (fn : ℕ) (sti : Bool)
    → o.lchan.dtxd ≡ true
    → IsValid (o.lchan)
    → IsOutput (step_sid o pl fn sti)
unfolding step_sid
step_sid-IsOutput o pl fn sti d v =
    let l = o.lchan in
    let first = dtx_cache_payload l pl fn (pos 0) in
    let update = if sti then pos 1 else pos 0 in
    let cached = dtx_cache_payload l pl fn update in
    let event = if sti then e_sid_u else e_sid_f in
    let w1 = dtx_cache_payload-IsValid l pl fn (pos 0) v in
    let w2 = dtx_cache_payload-IsValid l pl fn update v in
    let c =
      if_lchan (in_facch (l.dl_amr_fsm)) o (record o { lchan = cached }) (d, v)
        (cache_dtxd l pl fn update ∙ d, w2) in
    if_IsOutput (in_voice (l.dl_amr_fsm)) _ _
      (send-IsOutput (record o { lchan = first }) event (cache_dtxd l pl fn (pos 0) ∙ d) w1)
      (send-IsOutput _ (if in_sid_f2 (l.dl_amr_fsm) then e_compl else event) (c.0) (c.1))

step_no_data-IsOutput :
    (o : Output) (marker : Bool)
    → o.lchan.dtxd ≡ true
    → IsValid (o.lchan)
    → IsOutput (step_no_data o marker)
unfolding step_no_data
step_no_data-IsOutput o marker d (c, n, r) =
    if_IsOutput marker _ _
      (with_lchan-IsOutput _ (dispatch_to (o.lchan) (o.lchan.dl_amr_fsm) e_voice) (
        dispatch_to-IsKept (o.lchan) (o.lchan.dl_amr_fsm) e_voice c n
          (IsReady-on _ (o.lchan.dl_amr_fsm) d r)))
      (some-IsOutput _ (c, n, r))

by_type-IsOutput :
    (o : Output) (pl : List ℕ) (fn : ℕ) (marker : Bool) (d : Decoded) (t : FrameType)
    → o.lchan.dtxd ≡ true
    → IsValid (o.lchan)
    → IsOutput (step_by_type o pl fn marker d t)
unfolding step_by_type
by_type-IsOutput o pl fn marker d (speech mode) on v = step_speech-IsOutput o marker on v
by_type-IsOutput o pl fn marker d sid on v = step_sid-IsOutput o pl fn (d.sti) on v
by_type-IsOutput o pl fn marker d no_data on v = step_no_data-IsOutput o marker on v
by_type-IsOutput o pl fn marker d (unsupported t) on v = some-IsOutput _ v

decoded-IsOutput :
    (l : Lchan) (pl : List ℕ) (fn : ℕ) (marker : Bool) (d : Option Decoded)
    → IsValid l
    → IsOutput (step_decoded l pl fn marker d)
unfolding step_decoded prepared
decoded-IsOutput l pl fn marker none v = error_IsOutput not_decoded l v
decoded-IsOutput l pl fn marker (some d) (c, n, r) =
    let o = prepared l pl d in
    let v : IsValid (o.lchan) =
      (length-set (set (l.cache) 0 _) 1 _ ∙ length-set (l.cache) 0 _ ∙ c, n, r) in
    if_elim IsOutput (l.dtxd) _ _ (λ h. by_type-IsOutput o pl fn marker d (d.ft) h v)
      (λ h. some-IsOutput o v)

-- For every decoder of payloads, a payload of any content, or none, is handled without a failed
-- assertion and without a missing machine, if with DTX on there is a machine in a state that it
-- uses; that stays so, and the cache keeps its 20 octets with at most that many used.
pub fsm_step-IsOutput :
    (amr_rtp_dec : List ℕ → Option Decoded) (l : Lchan) (pl : Option (List ℕ)) (fn : ℕ)
    (marker : Bool)
    → IsValid l
    → IsOutput (dtx_dl_amr_fsm_step amr_rtp_dec l pl fn marker)
unfolding dtx_dl_amr_fsm_step step_payload
fsm_step-IsOutput dec l none fn marker v =
    if_IsOutput (dtx_dl_amr_enabled l && is_tch_h (l.kind)) _ _ (step_empty-IsOutput l v)
      (error_IsOutput bad_msg l v)
fsm_step-IsOutput dec l (some []) fn marker v = error_IsOutput bad_msg l v
fsm_step-IsOutput dec l (some (x ∷ xs)) fn marker v =
    decoded-IsOutput l (x ∷ xs) fn marker (dec (x ∷ xs)) v
