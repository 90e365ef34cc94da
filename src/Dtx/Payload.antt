-- ===== src/Dtx/Payload.antt =====
-- The functions of src/common/msg_utils.c that drive the machine of `Machine` and keep the last SID
-- frame. The decoder of AMR payloads is libosmocodec's, a parameter.
use osmo_bts.Base.{
  ℕ, ◌+◌, ◌-◌, ◌/◌, ◌%◌, Bool, true, false, not, ◌&&◌, ◌||◌, Option, none, some, List, ◌++◌, take,
  drop, length, get_or, set, ltb, ◌==◌, if◌then◌else◌,
}
use osmo_bts.Base.Int.{ℤ, pos, ltb_ℤ, eqb_ℤ}
use osmo_bts.Amr.Conf.{AmrConf}
use osmo_bts.Dtx.Machine.{
  State, st_voice, st_sid_f1, st_sid_f2, st_f1_inh_v, st_f1_inh_f, st_u_inh_v, st_u_inh_f,
  st_u_noinh, st_f1_inh_v_rec, st_f1_inh_f_rec, st_u_inh_v_rec, st_u_inh_f_rec, st_sid_u,
  st_onset_v, st_onset_f, st_onset_v_rec, st_onset_f_rec, st_facch, Event, e_compl, dispatch,
}

-- The modes and types of a channel that the functions tell apart.
pub data Mode : Type 0 where
  speech_v1 speech_efr speech_amr other_mode : Mode

pub data Kind : Type 0 where
  tch_f tch_h other_kind : Kind

-- `struct gsm_lchan` as far as DTX concerns it; `dtxd` is that of the station, `dl_amr_fsm` the
-- state of the machine, none for no machine.
pub record Lchan : Type 0 where
  pub dtxd : Bool
  pub kind : Kind
  pub nr : ℕ
  pub tch_mode : Mode
  pub amr_mr : AmrConf
  pub dl_amr_fsm : Option State
  pub cache : List ℕ
  pub len : ℕ
  pub fn : ℕ
  pub is_update : Bool
  pub ul_sid : Bool
  pub rtp_tx_marker : Bool

abbrev is_amr : Mode → Bool
is_amr speech_amr = true
is_amr _ = false

abbrev pub is_tch_f : Kind → Bool
is_tch_f tch_f = true
is_tch_f _ = false

abbrev pub is_tch_h : Kind → Bool
is_tch_h tch_h = true
is_tch_h _ = false

abbrev pub has_machine : Option State → Bool
has_machine none = false
has_machine (some s) = true

unfoldable pub dtx_dl_amr_enabled : Lchan → Bool
dtx_dl_amr_enabled l = l.dtxd && (has_machine (l.dl_amr_fsm) && is_amr (l.tch_mode))

abbrev pub in_silence : Option State → Bool
in_silence (some st_sid_u) = true
in_silence (some st_u_noinh) = true
in_silence _ = false

abbrev pub in_voice : Option State → Bool
in_voice (some st_voice) = true
in_voice _ = false

abbrev pub in_sid_f1 : Option State → Bool
in_sid_f1 (some st_sid_f1) = true
in_sid_f1 _ = false

abbrev pub in_sid_f2 : Option State → Bool
in_sid_f2 (some st_sid_f2) = true
in_sid_f2 _ = false

abbrev pub in_sid_u : Option State → Bool
in_sid_u (some st_sid_u) = true
in_sid_u _ = false

abbrev pub in_u_noinh : Option State → Bool
in_u_noinh (some st_u_noinh) = true
in_u_noinh _ = false

abbrev pub in_facch : Option State → Bool
in_facch (some st_facch) = true
in_facch _ = false

unfoldable pub dtx_is_update : Lchan → Bool
dtx_is_update l = dtx_dl_amr_enabled l && in_silence (l.dl_amr_fsm)

unfoldable pub dtx_is_first_p1 : Lchan → Bool
dtx_is_first_p1 l = dtx_dl_amr_enabled l && (is_tch_h (l.kind) && in_sid_f1 (l.dl_amr_fsm))

unfoldable pub lchan_set_marker : Bool → Lchan → Lchan
lchan_set_marker t l =
    if t
    then record l { ul_sid = true }
    else if l.ul_sid
    then record l { ul_sid = false; rtp_tx_marker = true }
    else l

-- The states in which one request of the physical layer needs a second response.
unfoldable pub is_recursive : Option State → Bool
is_recursive (some st_u_inh_v) = true
is_recursive (some st_u_inh_f) = true
is_recursive (some st_u_inh_v_rec) = true
is_recursive (some st_u_inh_f_rec) = true
is_recursive (some st_f1_inh_v) = true
is_recursive (some st_f1_inh_f) = true
is_recursive (some st_f1_inh_v_rec) = true
is_recursive (some st_f1_inh_f_rec) = true
is_recursive (some st_onset_f) = true
is_recursive (some st_onset_v) = true
is_recursive (some st_onset_f_rec) = true
is_recursive (some st_onset_v_rec) = true
is_recursive _ = false

unfoldable pub dtx_recursion : Lchan → Bool
dtx_recursion l = dtx_dl_amr_enabled l && is_recursive (l.dl_amr_fsm)

-- The channel with the machine's next state; none for an assertion that failed.
unfoldable pub with_state : Lchan → Option State → Option Lchan
with_state l none = none
with_state l (some s) = some (record l { dl_amr_fsm = some s })

-- osmo_fsm_inst_dispatch, none also for a call without a machine.
unfoldable pub dispatch_to : Lchan → Option State → Event → Option Lchan
dispatch_to l none e = none
dispatch_to l (some s) e = with_state l (dispatch s e)

unfoldable pub dtx_dispatch : Lchan → Event → Option Lchan
dtx_dispatch l e = if dtx_dl_amr_enabled l then dispatch_to l (l.dl_amr_fsm) e else some l

unfoldable pub dtx_int_signal : Lchan → Option Lchan
dtx_int_signal l =
    if dtx_dl_amr_enabled l && (dtx_is_first_p1 l || dtx_recursion l)
    then dtx_dispatch l e_compl
    else some l

-- The size of the cache.
abbrev pub cache_size : ℕ
cache_size = 20

abbrev pub smaller : ℕ → ℕ → ℕ
smaller a b = if ltb a b then a else b

-- memcpy (buf + at, octets, n)
unfoldable pub copied : List ℕ → ℕ → List ℕ → ℕ → List ℕ
copied buf at octets n = take at buf ++ (take n octets ++ drop (at + n) buf)

-- `update` is -1 for a frame that is not of AMR.
unfoldable pub dtx_cache_payload : Lchan → List ℕ → ℕ → ℤ → Lchan
dtx_cache_payload l l1_payload fn update =
    let amr = if ltb_ℤ update (pos 0) then 0 else 2 in
    let copy_len = smaller (length l1_payload) (cache_size - amr) in
    let first = eqb_ℤ update (pos 0) in
    record l {
      len = copy_len + amr;
      is_update = if first then false else l.is_update;
      fn = if first && (amr == 0 || not (dtx_is_update l)) then fn else l.fn;
      cache = copied (l.cache) amr l1_payload copy_len;
    }

abbrev pub sti_bit_mask : ℕ
sti_bit_mask = 16

-- cache[6 + 2] |= 16
unfoldable pub dtx_sti_set : Lchan → Lchan
dtx_sti_set l =
    let v = get_or (l.cache) 8 0 in
    record l { cache = set (l.cache) 8 (if v / sti_bit_mask % 2 == 1 then v else v + sti_bit_mask) }

-- cache[6 + 2] &= ~16
unfoldable pub dtx_sti_unset : Lchan → Lchan
dtx_sti_unset l =
    let v = get_or (l.cache) 8 0 in
    record l { cache = set (l.cache) 8 (if v / sti_bit_mask % 2 == 1 then v - sti_bit_mask else v) }
