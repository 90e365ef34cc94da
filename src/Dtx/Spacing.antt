-- ===== src/Dtx/Spacing.antt =====
-- The repetition of SID frames by repeat_last_sid of src/common/msg_utils.c: what is sent, when, and the
-- channel after it.
use mathlib.Core.Path.{subst}
use osmo_bts.Base.{
  length-take_le, ℕ, ◌+◌, ◌-◌, ◌*◌, ◌≤◌, ◌<◌, ◌≡◌, refl, Bool, true, false, not, ◌&&◌, ◌||◌, Option,
  none, some, List, [], length, ◌==◌, if◌then◌else◌, if_elim, arith, inl, inr, ◌⊎◌, sym,
}
use osmo_bts.Dtx.Machine.{e_compl, e_sid_u}
use osmo_bts.Dtx.Payload.{
  Lchan, Mode, speech_v1, speech_efr, speech_amr, other_mode, dispatch_to, dtx_dispatch,
  dtx_dl_amr_enabled, in_voice, in_facch, in_sid_f2, in_sid_f1, in_u_noinh, is_tch_h, is_tch_f,
  dtx_sti_set, dtx_sti_unset, dtx_is_update,
}
use osmo_bts.Dtx.Repeat.{
  after_facch, resumed, dtx_amr_sid_optional, is_optional, unset_in, updated_in, advanced,
  sent_from, repeat_with, repeat_last_sid, dx26, lchan_fn_dummy, lchan_fn_wait,
}
use osmo_bts.Dtx.Safety.{
  IsValid, IsKept, some-IsKept, if_IsKept, enabled_to-IsKept, dtx_dispatch-IsKept, sti_set-IsValid,
  sti_unset-IsValid,
}

-- The call returns: the channel is valid, and what is sent has the length that is announced, at
-- most 20 octets.
unfoldable pub IsRepeat : ℕ → Option (Lchan × (List ℕ × ℕ)) → Type 0
IsRepeat fn none = 0 < 0
IsRepeat fn (some (l, (octets, n))) =
    IsValid l × (length octets ≤ 20) × (n ≡ (if n == 0 then 0 else length octets + 1)) × (n ≤ 21)

-- The answer of the test with a valid channel.
unfoldable pub IsAnswer : Option (Bool × Lchan) → Type 0
IsAnswer none = 0 < 0
IsAnswer (some r) = IsValid (r.1)

some-IsAnswer : (b : Bool) (l : Lchan) → IsValid l → IsAnswer (some (b, l))
unfolding IsAnswer
some-IsAnswer b l v = v

if_IsAnswer :
    (b : Bool) (x y : Option (Bool × Lchan))
    → IsAnswer x
    → IsAnswer y
    → IsAnswer (if b then x else y)
if_IsAnswer true x y h k = h
if_IsAnswer false x y h k = k

resumed-IsAnswer : (o : Option Lchan) → IsKept o → IsAnswer (resumed o)
unfolding resumed IsAnswer IsKept
resumed-IsAnswer none h = h
resumed-IsAnswer (some l) h = h

after_facch-IsAnswer : (l : Lchan) (fn : ℕ) → IsValid l → IsAnswer (after_facch l fn)
unfolding after_facch
after_facch-IsAnswer l fn v =
    let u = record (dtx_sti_unset l) { is_update = false } in
    let w = sti_unset-IsValid l v in
    let over = resumed-IsAnswer (dtx_dispatch u e_compl) (dtx_dispatch-IsKept u e_compl w) in
    let f = l.fn in
    let here = some-IsAnswer true (record u { fn = fn }) w in
    let dummy = some-IsAnswer true (record u { fn = lchan_fn_wait }) w in
    if_IsAnswer (is_tch_h (l.kind)) _ _
      (if_IsAnswer (f == lchan_fn_dummy) _ _ dummy (if_IsAnswer (f == lchan_fn_wait) _ _ here over))
      (if_IsAnswer (is_tch_f (l.kind)) _ _ (if_IsAnswer (f == lchan_fn_dummy) _ _ here over)
        (some-IsAnswer true u w))

optional-IsAnswer :
    (frame_ms : ℕ) (l : Lchan) (fn : ℕ) → IsValid l → IsAnswer (dtx_amr_sid_optional frame_ms l fn)
unfolding dtx_amr_sid_optional
optional-IsAnswer frame_ms l fn v =
    let same = some-IsAnswer true l v in
    if_IsAnswer (not (dtx_dl_amr_enabled l)) _ _ same (
      if_IsAnswer (in_facch (l.dl_amr_fsm)) _ _ (after_facch-IsAnswer l fn v)
        (if_IsAnswer (in_voice (l.dl_amr_fsm)) _ _ same (some-IsAnswer _ l v)))

pub is_optional-IsAnswer :
    (frame_ms : ℕ) (l : Lchan) (m : Mode) (fn : ℕ)
    → IsValid l
    → IsAnswer (is_optional frame_ms l m fn)
unfolding is_optional
is_optional-IsAnswer frame_ms l speech_amr fn v = optional-IsAnswer frame_ms l fn v
is_optional-IsAnswer frame_ms l speech_v1 fn v = some-IsAnswer _ l v
is_optional-IsAnswer frame_ms l speech_efr fn v = some-IsAnswer _ l v
is_optional-IsAnswer frame_ms l other_mode fn v = some-IsAnswer _ l v

unset_in-IsKept : (o : Option Lchan) → IsKept o → IsKept (unset_in o)
unfolding unset_in IsKept
unset_in-IsKept none h = h
unset_in-IsKept (some l) h = sti_unset-IsValid l h

updated_in-IsKept : (o : Option Lchan) → IsKept o → IsKept (updated_in o)
unfolding updated_in IsKept
updated_in-IsKept none h = h
updated_in-IsKept (some l) h = h

not-true : (b : Bool) → not b ≡ false → b ≡ true
not-true b h = ground arith

-- The machine of the channel gets an event, with the cache changed before.
marked-IsKept :
    (l : Lchan)
    → dtx_dl_amr_enabled l ≡ true
    → IsValid l
    → IsKept (dispatch_to (dtx_sti_set l) (l.dl_amr_fsm) e_compl)
unfolding dtx_sti_set dtx_dl_amr_enabled
marked-IsKept l h v = enabled_to-IsKept (dtx_sti_set l) e_compl h (sti_set-IsValid l v)

pub advanced-IsKept : (l : Lchan) → IsValid l → IsKept (advanced l)
unfolding advanced
advanced-IsKept l v =
    let s = l.dl_amr_fsm in
    let u = dtx_sti_set l in
    let same = some-IsKept l v in
    if_elim IsKept (not (dtx_dl_amr_enabled l)) (some l)
      (if (is_tch_h (l.kind) && in_sid_f2 s) || (is_tch_f (l.kind) && in_sid_f1 s)
        then unset_in (dispatch_to l s e_sid_u)
        else if dtx_is_update l
        then updated_in
            (if is_tch_h (l.kind) && in_u_noinh s then dispatch_to u s e_compl else some u)
        else some l)
      (λ h. same)
      (λ h.
        let on = not-true (dtx_dl_amr_enabled l) h in
        if_IsKept _ _ _
          (unset_in-IsKept (dispatch_to l s e_sid_u) (enabled_to-IsKept l e_sid_u on v))
          (if_IsKept (dtx_is_update l) _ _
            (updated_in-IsKept _ (
              if_IsKept (is_tch_h (l.kind) && in_u_noinh s) _ _ (marked-IsKept l on v)
                (some-IsKept u (sti_set-IsValid l v))))
            same))

none-IsRepeat : (fn : ℕ) → 0 < 0 → IsRepeat fn none
unfolding IsRepeat
none-IsRepeat fn h = h

nothing-IsRepeat : (l : Lchan) (fn : ℕ) → IsValid l → IsRepeat fn (some (l, ([], 0)))
unfolding IsRepeat
nothing-IsRepeat l fn v = (v, omega arith, refl, omega arith)

pub sent_from-IsRepeat : (fn : ℕ) (o : Option Lchan) → IsKept o → IsRepeat fn (sent_from fn o)
unfolding IsRepeat IsKept sent_from
sent_from-IsRepeat fn none h = h
sent_from-IsRepeat fn (some l) (c, n, r) =
    let t = length-take_le (l.len) (l.cache) (omega arith) in
    ((c, n, r), omega arith, ground arith, omega arith)

repeat_with-IsRepeat :
    (fn : ℕ) (o : Option (Bool × Lchan)) → IsAnswer o → IsRepeat fn (repeat_with fn o)
unfolding repeat_with IsAnswer
repeat_with-IsRepeat fn none h = none-IsRepeat fn h
repeat_with-IsRepeat fn (some r) h =
    if_elim (IsRepeat fn) (r.0 || r.1.len == 0) (some (r.1, ([], 0)))
      (sent_from fn (advanced (r.1))) (λ e. nothing-IsRepeat (r.1) fn h)
      (λ e. sent_from-IsRepeat fn (advanced (r.1)) (advanced-IsKept (r.1) h))

-- What is sent fits the announced length.
pub repeat_last_sid-IsRepeat :
    (frame_ms : ℕ) (l : Lchan) (fn : ℕ) → IsValid l → IsRepeat fn (repeat_last_sid frame_ms l fn)
unfolding repeat_last_sid
repeat_last_sid-IsRepeat frame_ms l fn v =
    repeat_with-IsRepeat fn _ (is_optional-IsAnswer frame_ms l (l.tch_mode) fn v)

-- The least distance of the next SID frame, in 26ths of a millisecond.
abbrev pub interval : ℕ → Lchan → ℕ
interval frame_ms l = frame_ms * (if l.is_update then 8 else 3) * 26 - 120

unfoldable pub IsDue : ℕ → Option (Bool × Lchan) → Type 0
IsDue d none = 0 ≤ 0
IsDue d (some r) = (r.0 ≡ true) ⊎ (d ≡ 0)

-- Nothing is sent, or the frame is due and its number is stored.
unfoldable pub IsSpaced : ℕ → ℕ → Option (Lchan × (List ℕ × ℕ)) → Type 0
IsSpaced fn early none = 0 ≤ 0
IsSpaced fn early (some (l, (octets, n))) = (n ≡ 0) ⊎ ((early ≡ 0) × (l.fn ≡ fn))

optional-IsDue :
    (frame_ms : ℕ) (l : Lchan) (fn : ℕ)
    → in_facch (l.dl_amr_fsm) ≡ false
    → IsDue (interval frame_ms l - dx26 fn (l.fn)) (dtx_amr_sid_optional frame_ms l fn)
unfolding dtx_amr_sid_optional IsDue
optional-IsDue frame_ms l fn h = ground arith

none-IsSpaced : (fn early : ℕ) → IsSpaced fn early none
unfolding IsSpaced
none-IsSpaced fn early = omega arith

nothing-IsSpaced : (l : Lchan) (fn early : ℕ) → IsSpaced fn early (some (l, ([], 0)))
unfolding IsSpaced
nothing-IsSpaced l fn early = inl refl

sent_from-IsSpaced :
    (fn early : ℕ) (o : Option Lchan) → early ≡ 0 → IsSpaced fn early (sent_from fn o)
unfolding IsSpaced sent_from
sent_from-IsSpaced fn early none e = omega arith
sent_from-IsSpaced fn early (some l) e = inr (e, refl)

repeat_with-IsSpaced :
    (fn early : ℕ) (o : Option (Bool × Lchan))
    → IsDue early o
    → IsSpaced fn early (repeat_with fn o)
unfolding repeat_with IsDue
repeat_with-IsSpaced fn early none h = none-IsSpaced fn early
repeat_with-IsSpaced fn early (some r) h =
    if_elim (IsSpaced fn early) (r.0 || r.1.len == 0) (some (r.1, ([], 0)))
      (sent_from fn (advanced (r.1))) (λ e. nothing-IsSpaced (r.1) fn early)
      (λ e. sent_from-IsSpaced fn early (advanced (r.1)) (ground arith))

amr_optional :
    (frame_ms : ℕ) (l : Lchan) (m : Mode) (fn : ℕ)
    → m ≡ speech_amr
    → is_optional frame_ms l m fn ≡ dtx_amr_sid_optional frame_ms l fn
unfolding is_optional
amr_optional frame_ms l speech_amr fn e = refl
amr_optional frame_ms l speech_v1 fn e = absurd (ground arith)
amr_optional frame_ms l speech_efr fn e = absurd (ground arith)
amr_optional frame_ms l other_mode fn e = absurd (ground arith)

-- The distance of two frames that are sent.
pub repeat_last_sid-IsSpaced :
    (frame_ms : ℕ) (l : Lchan) (fn : ℕ)
    → l.tch_mode ≡ speech_amr
    → in_facch (l.dl_amr_fsm) ≡ false
    → IsSpaced fn (interval frame_ms l - dx26 fn (l.fn)) (repeat_last_sid frame_ms l fn)
unfolding repeat_last_sid
repeat_last_sid-IsSpaced frame_ms l fn m h =
    let early = interval frame_ms l - dx26 fn (l.fn) in
    repeat_with-IsSpaced fn early _ (
      subst (IsDue early) (sym (amr_optional frame_ms l (l.tch_mode) fn m))
        (optional-IsDue frame_ms l fn h))
