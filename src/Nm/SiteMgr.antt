-- ===== src/Nm/SiteMgr.antt =====
-- The machine of the site manager, src/common/nm_bts_sm_fsm.c.
use osmo_bts.Base.{Bool, true, false, Option, none, some, List, [], ◌∷◌, ◌++◌}
use osmo_bts.Nm.Types.{
  State, not_installed, dependency, offline, enabled, Event, rx_setattr, rx_opstart, opstart_ack,
  opstart_nack, shutdown_start, shutdown_finish, oml_up, op_disabled, op_enabled, av_ok,
  av_not_installed, av_off_line, adm_locked, adm_shutdown, Mo, reported, Call, tx_sw_act_rep,
  setattr_ack, ack_opstart, model_opstart, nack_opstart, to_bts, to_nse, Env, oml_mo_state_chg,
  oml_mo_adm_chg, forget_results,
}
use osmo_bts.Nm.Machine.{Machine, Reaction, stay}

-- ev_dispatch_children
unfoldable pub to_children : Event → List Call
to_children e = to_nse e ∷ to_bts e ∷ []

unfoldable pub on_enter : Env → State → State → Mo → Mo × List Call
on_enter env not_installed prev mo =
    oml_mo_state_chg (forget_results mo) op_disabled av_not_installed (some adm_locked)
on_enter env offline prev mo = oml_mo_state_chg (forget_results mo) op_disabled av_off_line none
on_enter env enabled prev mo = oml_mo_state_chg mo op_enabled av_ok none
on_enter env dependency prev mo = (mo, [])

unfoldable pub offline_action : Event → Mo → Option Reaction
offline_action rx_setattr mo = stay (record mo { setattr_success = true }) (setattr_ack ∷ [])
offline_action rx_opstart mo = stay mo (model_opstart ∷ [])
offline_action opstart_ack mo = some (record {
  next = some enabled;
  mo = record mo { opstart_success = true };
  before = ack_opstart ∷ [];
  after = [];
})
offline_action opstart_nack mo =
    stay (record mo { opstart_success = false }) (nack_opstart reported ∷ [])
offline_action _ mo = none

unfoldable pub action : Env → State → Event → Mo → Option Reaction
action env not_installed oml_up mo = some (record {
  next = some offline;
  mo = mo;
  before = tx_sw_act_rep ∷ [];
  after = to_children oml_up;
})
action env not_installed _ mo = none
action env offline e mo = offline_action e mo
action env enabled e mo = stay mo []
action env dependency e mo = none

unfoldable pub has_state : State → Bool
has_state dependency = false
has_state _ = true

unfoldable pub in_event_mask : State → Event → Bool
in_event_mask not_installed oml_up = true
in_event_mask offline rx_setattr = true
in_event_mask offline rx_opstart = true
in_event_mask offline opstart_ack = true
in_event_mask offline opstart_nack = true
in_event_mask _ _ = false

unfoldable pub out_state_mask : State → State → Bool
out_state_mask not_installed not_installed = true
out_state_mask not_installed offline = true
out_state_mask offline not_installed = true
out_state_mask offline enabled = true
out_state_mask enabled not_installed = true
out_state_mask _ _ = false

unfoldable pub allstate_event_mask : Event → Bool
allstate_event_mask shutdown_start = true
allstate_event_mask shutdown_finish = true
allstate_event_mask _ = false

unfoldable pub allstate_action : Event → Mo → Option Reaction
allstate_action shutdown_start mo =
    let r = oml_mo_adm_chg mo adm_shutdown in stay r.0 (r.1 ++ to_children shutdown_start)
allstate_action shutdown_finish mo = some (record {
  next = some not_installed;
  mo = mo;
  before = to_children shutdown_finish;
  after = [];
})
allstate_action _ mo = none

unfoldable pub site_mgr : Machine
site_mgr = record {
  has_state = has_state;
  in_event_mask = in_event_mask;
  allstate_event_mask = allstate_event_mask;
  out_state_mask = out_state_mask;
  action = action;
  allstate_action = allstate_action;
  on_enter = on_enter;
}
