-- ===== src/Nm/Types.antt =====
-- The states and events of include/osmo-bts/nm_common_fsm.h, the administrative state of an object
-- and oml_mo_state_chg of src/common/oml.c.
use osmo_bts.Base.{Bool, true, false, not, ◌||◌, Option, none, some, List, [], ◌∷◌, if◌then◌else◌}

-- The states of the machines; a radio channel and the objects of the packet service have `dependency`.
pub data State : Type 0 where
  not_installed dependency offline enabled : State

-- enum nm_fsm_events
pub data Event : Type 0 where
  sw_act rx_setattr rx_opstart opstart_ack opstart_nack : Event
  shutdown_start shutdown_finish oml_up rsl_up rsl_down phylink_up phylink_down : Event
  disable bbtransc_enabled bbtransc_disabled rcarrier_enabled rcarrier_disabled : Event

-- NM_OPSTATE_*, NM_AVSTATE_* and NM_STATE_*, as far as the machines set them.
pub data OpState : Type 0 where
  op_disabled op_enabled : OpState

pub data AvState : Type 0 where
  av_ok av_not_installed av_off_line av_dependency : AvState

pub data AdmState : Type 0 where
  adm_locked adm_unlocked adm_shutdown : AdmState

-- struct gsm_abis_mo
pub record Mo : Type 0 where
  pub operational : OpState
  pub availability : AvState
  pub administrative : AdmState
  pub setattr_success : Bool
  pub opstart_success : Bool

-- NM_NACK_CANT_PERFORM, or the cause that came with the event.
pub data Cause : Type 0 where
  cant_perform reported : Cause

-- What a handler calls outside of its machine, in order. An event for the children is one call
-- for each kind of child.
pub data Call : Type 0 where
  tx_sw_act_rep tx_state_changed setattr_ack setattr_nack ack_opstart model_opstart : Call
  nack_opstart : Cause → Call
  new_op_state : OpState → OpState → Call
  to_bts to_nse to_cell to_nsvc to_trx to_bb_transc to_ts : Event → Call
  free_attr clear_si clear_bsic cbch_reset asci_reset clear_c0_power_red release_ts : Call
  open_closed_phy_links rsl_connect : Call

-- What a machine asks of the rest of the program: the results of bts_model_apply_oml and of the
-- RSL connect, the links, the station's variant and configuration, and the other objects.
pub record Env : Type 0 where
  pub apply_ok : Bool
  pub rsl_connect_ok : Bool
  pub phy_connected : Bool
  pub rsl_link : Bool
  pub is_omldummy : Bool
  pub c0_reduced : Bool
  pub bb_transc_enabled : Bool
  pub depends_rcarrier : Bool
  pub carrier_enabled : Bool
  pub bts_enabled : Bool
  pub nse_enabled : Bool

abbrev same_op : OpState → OpState → Bool
same_op op_disabled op_disabled = true
same_op op_enabled op_enabled = true
same_op _ _ = false

abbrev same_av : AvState → AvState → Bool
same_av av_ok av_ok = true
same_av av_not_installed av_not_installed = true
same_av av_off_line av_off_line = true
same_av av_dependency av_dependency = true
same_av _ _ = false

abbrev same_adm : AdmState → AdmState → Bool
same_adm adm_locked adm_locked = true
same_adm adm_unlocked adm_unlocked = true
same_adm adm_shutdown adm_shutdown = true
same_adm _ _ = false

-- A new operational and availability state; `adm` is none for -1.
abbrev set_states : Mo → OpState → AvState → Option AdmState → Mo
set_states mo op av none = record mo { operational = op; availability = av }
set_states mo op av (some adm) = record mo {
  operational = op;
  availability = av;
  administrative = adm;
}

abbrev adm_differs : Mo → Option AdmState → Bool
adm_differs mo none = false
adm_differs mo (some adm) = not (same_adm mo.administrative adm)

-- oml_mo_state_chg with an operational and an availability state: it sets and reports the states
-- only where one of them differs.
unfoldable pub oml_mo_state_chg : Mo → OpState → AvState → Option AdmState → Mo × List Call
oml_mo_state_chg mo op av adm =
    if not (same_op mo.operational op) || (not (same_av mo.availability av) || adm_differs mo adm)
    then (set_states mo op av adm, new_op_state mo.operational op ∷ tx_state_changed ∷ [])
    else (mo, [])

-- oml_mo_state_chg (mo, -1, -1, adm)
unfoldable pub oml_mo_adm_chg : Mo → AdmState → Mo × List Call
oml_mo_adm_chg mo adm =
    if same_adm mo.administrative adm
    then (mo, [])
    else (record mo { administrative = adm }, tx_state_changed ∷ [])

-- The reset of both results at the entry into a state.
abbrev pub forget_results : Mo → Mo
forget_results mo = record mo { setattr_success = false; opstart_success = false }
