-- ===== src/Dtx/Repeat.antt =====
-- When the last SID frame is sent again: repeat_last_sid of src/common/msg_utils.c.
use osmo_bts.Base.{
  ℕ, ◌+◌, ◌-◌, ◌*◌, ◌%◌, Bool, true, false, not, ◌&&◌, ◌||◌, Option, none, some, List, [], ◌∷◌,
  take, ltb, ◌==◌, if◌then◌else◌,
}
use osmo_bts.Dtx.Machine.{e_compl, e_sid_u}
use osmo_bts.Dtx.Payload.{
  Lchan, Mode, speech_v1, speech_efr, speech_amr, is_tch_f, is_tch_h, in_voice, in_sid_f1,
  in_sid_f2, in_u_noinh, in_facch, dtx_dl_amr_enabled, dtx_is_update, dispatch_to, dtx_dispatch,
  dtx_sti_set, dtx_sti_unset,
}

-- LCHAN_FN_DUMMY and LCHAN_FN_WAIT of include/osmo-bts/rsl.h
abbrev pub lchan_fn_dummy : ℕ
lchan_fn_dummy = 4294967295

abbrev pub lchan_fn_wait : ℕ
lchan_fn_wait = 4294967294

-- 120 * (fn - lchan->tch.dtx.fn) in 32 bits.
unfoldable pub dx26 : ℕ → ℕ → ℕ
dx26 fn last = 120 * ((fn + 4294967296 - last) % 4294967296) % 4294967296

-- The end of an interruption by FACCH: the answer false with the channel.
unfoldable pub resumed : Option Lchan → Option (Bool × Lchan)
resumed none = none
resumed (some l) = some (false, l)

-- A channel that is resuming after FACCH.
unfoldable pub after_facch : Lchan → ℕ → Option (Bool × Lchan)
after_facch l fn =
    let u = record (dtx_sti_unset l) { is_update = false } in
    if is_tch_h (l.kind)
    then (if l.fn == lchan_fn_dummy
        then some (true, record u { fn = lchan_fn_wait })
        else if l.fn == lchan_fn_wait
        then some (true, record u { fn = fn })
        else resumed (dtx_dispatch u e_compl))
    else if is_tch_f (l.kind)
    then (if l.fn == lchan_fn_dummy
        then some (true, record u { fn = fn })
        else resumed (dtx_dispatch u e_compl))
    else some (true, u)

-- True if the transmission can be left out; `frame_ms` is GSM_RTP_FRAME_DURATION_MS of libosmotrau.
unfoldable pub dtx_amr_sid_optional : ℕ → Lchan → ℕ → Option (Bool × Lchan)
dtx_amr_sid_optional frame_ms l fn =
    if not (dtx_dl_amr_enabled l)
    then some (true, l)
    else if in_facch (l.dl_amr_fsm)
    then after_facch l fn
    else if in_voice (l.dl_amr_fsm)
    then some (true, l)
    else some (ltb (dx26 fn (l.fn)) (frame_ms * (if l.is_update then 8 else 3) * 26 - 120), l)

-- True if the frame number is none of the table.
unfoldable pub fn_chk : List ℕ → ℕ → Bool
fn_chk [] fn = true
fn_chk (t ∷ ts) fn = let rest = fn_chk ts fn in if fn % 104 == t then false else rest

unfoldable pub dtx_sched_optional : Lchan → Mode → ℕ → Bool
dtx_sched_optional l speech_v1 fn =
    if is_tch_f (l.kind)
    then fn_chk (52 ∷ 53 ∷ 54 ∷ 55 ∷ 56 ∷ 57 ∷ 58 ∷ 59 ∷ []) fn
    else if l.nr == 0
    then fn_chk (0 ∷ 2 ∷ 4 ∷ 6 ∷ 52 ∷ 54 ∷ 56 ∷ 58 ∷ []) fn
    else fn_chk (14 ∷ 16 ∷ 18 ∷ 20 ∷ 66 ∷ 68 ∷ 70 ∷ 72 ∷ []) fn
dtx_sched_optional l speech_efr fn = fn_chk (52 ∷ 53 ∷ 54 ∷ 55 ∷ 56 ∷ 57 ∷ 58 ∷ 59 ∷ []) fn
dtx_sched_optional l _ fn = false

-- The first test of the function, with what it changes.
unfoldable pub is_optional : ℕ → Lchan → Mode → ℕ → Option (Bool × Lchan)
is_optional frame_ms l speech_amr fn = dtx_amr_sid_optional frame_ms l fn
is_optional frame_ms l mode fn = some (dtx_sched_optional l mode fn, l)

unfoldable pub unset_in : Option Lchan → Option Lchan
unset_in none = none
unset_in (some l) = some (dtx_sti_unset l)

unfoldable pub updated_in : Option Lchan → Option Lchan
updated_in none = none
updated_in (some l) = some (record l { is_update = true })

-- The machine and the cache before the frame is sent again.
unfoldable pub advanced : Lchan → Option Lchan
advanced l =
    let s = l.dl_amr_fsm in
    let u = dtx_sti_set l in
    if not (dtx_dl_amr_enabled l)
    then some l
    else if (is_tch_h (l.kind) && in_sid_f2 s) || (is_tch_f (l.kind) && in_sid_f1 s)
    then unset_in (dispatch_to l s e_sid_u)
    else if dtx_is_update l
    then updated_in (if is_tch_h (l.kind) && in_u_noinh s then dispatch_to u s e_compl else some u)
    else some l

-- What is copied to the buffer, with the value returned: one more than its length, or 0 for none.
unfoldable pub sent_from : ℕ → Option Lchan → Option (Lchan × (List ℕ × ℕ))
sent_from fn none = none
sent_from fn (some l) = some (record l { fn = fn }, (take (l.len) (l.cache), (l.len + 1) % 256))

unfoldable pub repeat_with : ℕ → Option (Bool × Lchan) → Option (Lchan × (List ℕ × ℕ))
repeat_with fn none = none
repeat_with fn (some r) =
    if r.0 || r.1.len == 0 then some (r.1, ([], 0)) else sent_from fn (advanced (r.1))

unfoldable pub repeat_last_sid : ℕ → Lchan → ℕ → Option (Lchan × (List ℕ × ℕ))
repeat_last_sid frame_ms l fn = repeat_with fn (is_optional frame_ms l (l.tch_mode) fn)
