-- ===== src/Dtx/Safety.antt =====
-- No sequence of frames and requests makes the machine of src/common/dtx_dl_amr_fsm.c fail, and the cache
-- of src/common/msg_utils.c stays within its bounds.
use osmo_bts.Base.{
  ℕ, ◌+◌, ◌-◌, ◌≤◌, ◌<◌, ◌≡◌, ◌∙◌, Bool, true, false, Option, none, some, List, ◌++◌, take, drop,
  length, if◌then◌else◌, if_elim, arith, length-set, length-append, length-drop, length-take_le,
}
use osmo_bts.Base.Int.{ℤ, pos, ltb_ℤ}
use osmo_bts.Dtx.Machine.{
  State, Event, e_compl, st_f1_inh_f, st_f1_inh_f_rec, dispatch, accepted, settle, action,
  in_event_mask, out_state_mask, dtx_fsm_voice, dtx_fsm_sid_f1, dtx_fsm_sid_f2, dtx_fsm_f1_inh_v,
  dtx_fsm_f1_inh_f, dtx_fsm_u_inh_v, dtx_fsm_u_inh_f, dtx_fsm_u_noinh, dtx_fsm_f1_inh_v_rec,
  dtx_fsm_f1_inh_f_rec, dtx_fsm_u_inh_v_rec, dtx_fsm_u_inh_f_rec, dtx_fsm_sid_upd, dtx_fsm_onset_v,
  dtx_fsm_onset_f, dtx_fsm_onset_v_rec, dtx_fsm_onset_f_rec, dtx_fsm_facch,
}
use osmo_bts.Dtx.Payload.{
  Lchan, copied, dtx_cache_payload, dtx_sti_set, dtx_sti_unset, dispatch_to, dtx_dispatch,
  with_state, smaller, cache_size, dtx_dl_amr_enabled, dtx_int_signal,
}

-- The states that a FACCH frame at the start of a silence is meant to lead to are never entered.
abbrev pub IsUsed : State → Type 0
IsUsed st_f1_inh_f = 0 < 0
IsUsed st_f1_inh_f_rec = 0 < 0
IsUsed _ = 0 ≤ 0

abbrev pub IsReady : Bool → Option State → Type 0
IsReady true none = 0 < 0
IsReady false none = 0 ≤ 0
IsReady dtxd (some s) = IsUsed s

-- The cache has its 20 octets, the length of the frame in it is at most that, and with DTX there is
-- a machine in one of the states that are used.
abbrev pub IsValid : Lchan → Type 0
IsValid l = (length (l.cache) ≡ 20) × (l.len ≤ 20) × IsReady (l.dtxd) (l.dl_amr_fsm)

abbrev pub IsNext : Option State → Type 0
IsNext none = 0 < 0
IsNext (some s) = IsUsed s

-- In every state but the two for a FACCH frame at the start of a silence, no event makes an
-- assertion fail, and no event leads to those two states.
pub dispatch-IsNext : (s : State) (e : Event) → IsUsed s → IsNext (dispatch s e)
unfolding dispatch accepted settle action in_event_mask out_state_mask dtx_fsm_voice dtx_fsm_sid_f1
    dtx_fsm_sid_f2 dtx_fsm_f1_inh_v dtx_fsm_f1_inh_f dtx_fsm_u_inh_v dtx_fsm_u_inh_f dtx_fsm_u_noinh
    dtx_fsm_f1_inh_v_rec dtx_fsm_f1_inh_f_rec dtx_fsm_u_inh_v_rec dtx_fsm_u_inh_f_rec
    dtx_fsm_sid_upd dtx_fsm_onset_v dtx_fsm_onset_f dtx_fsm_onset_v_rec dtx_fsm_onset_f_rec
    dtx_fsm_facch
dispatch-IsNext s e h = ground arith

-- A valid channel comes out.
unfoldable pub IsKept : Option Lchan → Type 0
IsKept none = 0 < 0
IsKept (some l) = IsValid l

pub IsReady-some : (b : Bool) (s : State) → IsUsed s → IsReady b (some s)
IsReady-some true s h = h
IsReady-some false s h = h

pub some-IsKept : (l : Lchan) → IsValid l → IsKept (some l)
unfolding IsKept
some-IsKept l v = v

pub if_IsKept : (b : Bool) (x y : Option Lchan) → IsKept x → IsKept y → IsKept (if b then x else y)
if_IsKept true x y h k = h
if_IsKept false x y h k = k

with_state-IsKept :
    (l : Lchan) (s : Option State)
    → length (l.cache) ≡ 20
    → l.len ≤ 20
    → IsNext s
    → IsKept (with_state l s)
unfolding with_state IsKept
with_state-IsKept l none c n h = h
with_state-IsKept l (some s) c n h = (c, n, IsReady-some (l.dtxd) s h)

-- An event for a machine that there is.
pub dispatch_to-IsKept :
    (l : Lchan) (o : Option State) (e : Event)
    → length (l.cache) ≡ 20
    → l.len ≤ 20
    → IsReady true o
    → IsKept (dispatch_to l o e)
unfolding dispatch_to IsKept
dispatch_to-IsKept l none e c n r = r
dispatch_to-IsKept l (some s) e c n r =
    with_state-IsKept l (dispatch s e) c n (dispatch-IsNext s e r)

-- With DTX on, or with a machine, the machine is ready.
pub IsReady-on : (b : Bool) (o : Option State) → b ≡ true → IsReady b o → IsReady true o
IsReady-on true o h r = r
IsReady-on false o h r = absurd (ground arith)

enabled_on : (l : Lchan) → dtx_dl_amr_enabled l ≡ true → l.dtxd ≡ true
unfolding dtx_dl_amr_enabled
enabled_on l h = ground arith

pub enabled_to-IsKept :
    (l : Lchan) (e : Event)
    → dtx_dl_amr_enabled l ≡ true
    → IsValid l
    → IsKept (dispatch_to l (l.dl_amr_fsm) e)
enabled_to-IsKept l e h (c, n, r) =
    dispatch_to-IsKept l (l.dl_amr_fsm) e c n
      (IsReady-on (l.dtxd) (l.dl_amr_fsm) (enabled_on l h) r)

pub dtx_dispatch-IsKept : (l : Lchan) (e : Event) → IsValid l → IsKept (dtx_dispatch l e)
unfolding dtx_dispatch
dtx_dispatch-IsKept l e v =
    if_elim IsKept (dtx_dl_amr_enabled l) (dispatch_to l (l.dl_amr_fsm) e) (some l)
      (λ h. enabled_to-IsKept l e h v) (λ h. some-IsKept l v)

pub dtx_int_signal-IsKept : (l : Lchan) → IsValid l → IsKept (dtx_int_signal l)
unfolding dtx_int_signal
dtx_int_signal-IsKept l v =
    if_elim IsKept _ (dtx_dispatch l e_compl) (some l) (λ h. dtx_dispatch-IsKept l e_compl v)
      (λ h. some-IsKept l v)

-- A copy within the bounds of both buffers.
pub length-copied :
    (buf : List ℕ) (at : ℕ) (octets : List ℕ) (n : ℕ)
    → n ≤ length octets
    → at + n ≤ length buf
    → length (copied buf at octets n) ≡ length buf
unfolding copied
length-copied buf at octets n h k =
    let a = length-take_le at buf (omega arith) in
    let b = length-take_le n octets h in
    let c = length-drop (at + n) buf in
    let d = length-append (take n octets) (drop (at + n) buf) in
    let e = length-append (take at buf) (take n octets ++ drop (at + n) buf) in omega arith

pub dtx_cache_payload-IsValid :
    (l : Lchan) (octets : List ℕ) (fn : ℕ) (update : ℤ)
    → IsValid l
    → IsValid (dtx_cache_payload l octets fn update)
unfolding dtx_cache_payload
dtx_cache_payload-IsValid l octets fn update (c, n, r) =
    let amr = if ltb_ℤ update (pos 0) then 0 else 2 in
    let copy_len = smaller (length octets) (cache_size - amr) in
    let m : copy_len ≤ length octets = ground arith in
    let k : amr + copy_len ≤ 20 = ground arith in
    (length-copied (l.cache) amr octets copy_len m (omega (arith, k)) ∙ c, omega (arith, k), r)

pub sti_set-IsValid : (l : Lchan) → IsValid l → IsValid (dtx_sti_set l)
unfolding dtx_sti_set
sti_set-IsValid l (c, n, r) = (length-set (l.cache) 8 _ ∙ c, n, r)

pub sti_unset-IsValid : (l : Lchan) → IsValid l → IsValid (dtx_sti_unset l)
unfolding dtx_sti_unset
sti_unset-IsValid l (c, n, r) = (length-set (l.cache) 8 _ ∙ c, n, r)
