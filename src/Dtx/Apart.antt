-- ===== src/Dtx/Apart.antt =====
-- Two SID frames that repeat_last_sid of src/common/msg_utils.c sends one after the other.
use osmo_bts.Base.{
  ℕ, ◌-◌, ◌*◌, ◌≤◌, ◌<◌, ◌≡◌, refl, Bool, false, ◌||◌, Option, none, some, List, [], ◌==◌, if_elim,
  arith, inl, inr, ◌⊎◌,
}
use mathlib.Core.Path.{subst}
use osmo_bts.Dtx.Machine.{
  dispatch, accepted, settle, action, in_event_mask, out_state_mask, dtx_fsm_sid_f1, dtx_fsm_sid_f2,
  dtx_fsm_u_noinh,
}
use osmo_bts.Dtx.Payload.{
  Lchan, Mode, speech_v1, speech_efr, other_mode, speech_amr, dispatch_to, with_state, in_facch,
  dtx_sti_set, dtx_sti_unset,
}
use osmo_bts.Dtx.Repeat.{
  advanced, unset_in, updated_in, sent_from, repeat_with, repeat_last_sid, dx26, is_optional,
  dtx_amr_sid_optional,
}
use osmo_bts.Dtx.Safety.{IsValid}
use osmo_bts.Dtx.Spacing.{
  IsRepeat, IsSpaced, IsAnswer, interval, is_optional-IsAnswer, advanced-IsKept, sent_from-IsRepeat,
  repeat_last_sid-IsRepeat, repeat_last_sid-IsSpaced,
}

-- An AMR channel outside of a FACCH interruption.
unfoldable pub IsQuiet : Option Lchan → Type 0
IsQuiet none = 0 ≤ 0
IsQuiet (some l) = (l.tch_mode ≡ speech_amr) × (in_facch (l.dl_amr_fsm) ≡ false)

advanced-IsQuiet :
    (l : Lchan) → l.tch_mode ≡ speech_amr → in_facch (l.dl_amr_fsm) ≡ false → IsQuiet (advanced l)
unfolding IsQuiet advanced unset_in updated_in dispatch_to with_state dtx_sti_set dtx_sti_unset
    dispatch accepted settle action in_event_mask out_state_mask dtx_fsm_sid_f1 dtx_fsm_sid_f2
    dtx_fsm_u_noinh
advanced-IsQuiet l m h = ground arith

-- Frame numbers of one hyperframe do not wrap.
dx26_lem : (a b : ℕ) → a ≤ b → b < 2715648 → dx26 b a ≡ 120 * (b - a)
unfolding dx26
dx26_lem a b h k = omega arith

-- What follows a call at frame `a`: when it sent a SID frame, a call at frame `b` returns, and sends
-- the next one only if the interval between the two frames is over.
unfoldable pub IsApart : ℕ → ℕ → ℕ → Option (Lchan × (List ℕ × ℕ)) → Type 0
IsApart frame_ms a b none = 0 < 0
IsApart frame_ms a b (some (l, (octets, n))) =
    (n ≡ 0)
    ⊎ (IsRepeat b (repeat_last_sid frame_ms l b)
        × IsSpaced b (interval frame_ms l - 120 * (b - a)) (repeat_last_sid frame_ms l b))

sent-IsApart :
    (frame_ms a b : ℕ) (o : Option Lchan)
    → a ≤ b
    → b < 2715648
    → IsRepeat a (sent_from a o)
    → IsQuiet o
    → IsApart frame_ms a b (sent_from a o)
unfolding IsApart sent_from IsQuiet IsRepeat
sent-IsApart frame_ms a b none h k r q = r
sent-IsApart frame_ms a b (some l) h k r (m, f) =
    let t = record l { fn = a } in
    inr (
      repeat_last_sid-IsRepeat frame_ms t b (r.0),
      subst (λ d. IsSpaced b (interval frame_ms t - d) (repeat_last_sid frame_ms t b))
          (dx26_lem a b h k) (repeat_last_sid-IsSpaced frame_ms t b m f),
    )

-- The answer of the test with a channel outside of a FACCH interruption.
unfoldable IsQuietAnswer : Option (Bool × Lchan) → Type 0
IsQuietAnswer none = 0 ≤ 0
IsQuietAnswer (some r) = (r.1.tch_mode ≡ speech_amr) × (in_facch (r.1.dl_amr_fsm) ≡ false)

amr_optional-IsQuietAnswer :
    (frame_ms : ℕ) (l : Lchan) (fn : ℕ)
    → l.tch_mode ≡ speech_amr
    → in_facch (l.dl_amr_fsm) ≡ false
    → IsQuietAnswer (dtx_amr_sid_optional frame_ms l fn)
unfolding IsQuietAnswer dtx_amr_sid_optional
amr_optional-IsQuietAnswer frame_ms l fn m h = ground arith

optional-IsQuietAnswer :
    (frame_ms : ℕ) (l : Lchan) (mode : Mode) (fn : ℕ)
    → mode ≡ speech_amr
    → l.tch_mode ≡ speech_amr
    → in_facch (l.dl_amr_fsm) ≡ false
    → IsQuietAnswer (is_optional frame_ms l mode fn)
unfolding is_optional
optional-IsQuietAnswer frame_ms l speech_amr fn e m h = amr_optional-IsQuietAnswer frame_ms l fn m h
optional-IsQuietAnswer frame_ms l speech_v1 fn e m h = absurd (ground arith)
optional-IsQuietAnswer frame_ms l speech_efr fn e m h = absurd (ground arith)
optional-IsQuietAnswer frame_ms l other_mode fn e m h = absurd (ground arith)

nothing-IsApart : (frame_ms a b : ℕ) (l : Lchan) → IsApart frame_ms a b (some (l, ([], 0)))
unfolding IsApart
nothing-IsApart frame_ms a b l = inl refl

repeat_with-IsApart :
    (frame_ms a b : ℕ) (o : Option (Bool × Lchan))
    → a ≤ b
    → b < 2715648
    → IsAnswer o
    → IsQuietAnswer o
    → IsApart frame_ms a b (repeat_with a o)
unfolding repeat_with IsAnswer IsQuietAnswer IsApart
repeat_with-IsApart frame_ms a b none h k v q = v
repeat_with-IsApart frame_ms a b (some r) h k v (m, f) =
    let kept = advanced-IsKept (r.1) v in
    if_elim (IsApart frame_ms a b) (r.0 || r.1.len == 0) (some (r.1, ([], 0)))
      (sent_from a (advanced (r.1))) (λ e. nothing-IsApart frame_ms a b (r.1))
      (λ e.
        sent-IsApart frame_ms a b (advanced (r.1)) h k (sent_from-IsRepeat a (advanced (r.1)) kept)
          (advanced-IsQuiet (r.1) m f))

-- On a valid AMR channel outside of a FACCH interruption, with speech frames of any duration but 0, a
-- request to repeat returns a valid channel, and what it sends has the announced length, at most 20
-- octets. If it sends a SID frame at frame `a`, the next request, at frame `b` from `a` on in the same
-- hyperframe, returns as well, and sends another one only when the interval from `a` to `b` is at
-- least 3 speech frames after a SID FIRST or 8 after a SID UPDATE, less one TDMA frame.
pub repeat_last_sid-IsRepeat-IsApart :
    (frame_ms : ℕ) (l : Lchan) (a b : ℕ)
    → 0 < frame_ms
    → IsValid l
    → l.tch_mode ≡ speech_amr
    → in_facch (l.dl_amr_fsm) ≡ false
    → a ≤ b
    → b < 2715648
    → IsRepeat a (repeat_last_sid frame_ms l a)
      × IsApart frame_ms a b (repeat_last_sid frame_ms l a)
unfolding repeat_last_sid
repeat_last_sid-IsRepeat-IsApart frame_ms l a b d v m f h k = (
  repeat_last_sid-IsRepeat frame_ms l a v,
  repeat_with-IsApart frame_ms a b _ h k (is_optional-IsAnswer frame_ms l (l.tch_mode) a v)
      (optional-IsQuietAnswer frame_ms l (l.tch_mode) a m m f),
)
