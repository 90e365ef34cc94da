-- ===== src/Nm/GprsCell.antt =====
-- The machine of the packet service's cell, src/common/nm_gprs_cell_fsm.c.
use osmo_bts.Base.{Bool, true, false, Option, none, some, List, [], ◌∷◌, if◌then◌else◌}
use osmo_bts.Nm.Types.{
  State, not_installed, dependency, offline, enabled, Event, rx_setattr, rx_opstart, opstart_ack,
  opstart_nack, shutdown_start, shutdown_finish, oml_up, op_disabled, op_enabled, av_ok,
  av_not_installed, av_off_line, av_dependency, adm_locked, adm_shutdown, Mo, cant_perform,
  reported, Call, tx_sw_act_rep, setattr_ack, setattr_nack, ack_opstart, model_opstart,
  nack_opstart, Env, oml_mo_state_chg, oml_mo_adm_chg, forget_results,
}
use osmo_bts.Nm.Machine.{Machine, Reaction, stay}

unfoldable pub gprs_cell_can_be_enabled : Env → Bool
gprs_cell_can_be_enabled env = env.nse_enabled

unfoldable pub on_enter : Env → State → State → Mo → Mo × List Call
on_enter env not_installed prev mo =
    oml_mo_state_chg (forget_results mo) op_disabled av_not_installed (some adm_locked)
on_enter env dependency prev mo =
    oml_mo_state_chg (forget_results mo) op_disabled av_dependency none
on_enter env offline prev mo =
    oml_mo_state_chg (record mo { opstart_success = false }) op_disabled av_off_line none
on_enter env enabled prev mo = oml_mo_state_chg mo op_enabled av_ok none

unfoldable pub not_installed_action : Env → Event → Mo → Option Reaction
not_installed_action env oml_up mo = some (record {
  next = some (if gprs_cell_can_be_enabled env then offline else dependency);
  mo = mo;
  before = tx_sw_act_rep ∷ [];
  after = [];
})
not_installed_action env _ mo = none

unfoldable pub dependency_action : Env → Event → Mo → Option Reaction
dependency_action env rx_setattr mo =
    stay (record mo { setattr_success = env.apply_ok })
      ((if env.apply_ok then setattr_ack else setattr_nack) ∷ [])
dependency_action env rx_opstart mo =
    stay mo ((if mo.setattr_success then model_opstart else nack_opstart cant_perform) ∷ [])
dependency_action env opstart_ack mo = some (record {
  next = some enabled;
  mo = record mo { opstart_success = true };
  before = ack_opstart ∷ [];
  after = [];
})
dependency_action env opstart_nack mo =
    stay (record mo { opstart_success = false }) (nack_opstart reported ∷ [])
dependency_action env _ mo = none

-- The two disabled states answer alike, but for the object that they hand to the model.
unfoldable pub offline_action : Env → Event → Mo → Option Reaction
offline_action env e mo = dependency_action env e mo

unfoldable pub action : Env → State → Event → Mo → Option Reaction
action env not_installed e mo = not_installed_action env e mo
action env dependency e mo = dependency_action env e mo
action env offline e mo = offline_action env e mo
action env enabled e mo = stay mo []

unfoldable pub has_state : State → Bool
has_state _ = true

unfoldable pub in_event_mask : State → Event → Bool
in_event_mask not_installed oml_up = true
in_event_mask dependency rx_setattr = true
in_event_mask dependency rx_opstart = true
in_event_mask dependency opstart_ack = true
in_event_mask dependency opstart_nack = true
in_event_mask offline rx_setattr = true
in_event_mask offline rx_opstart = true
in_event_mask offline opstart_ack = true
in_event_mask offline opstart_nack = true
in_event_mask _ _ = false

unfoldable pub out_state_mask : State → State → Bool
out_state_mask not_installed not_installed = true
out_state_mask not_installed dependency = true
out_state_mask not_installed offline = true
out_state_mask dependency not_installed = true
out_state_mask dependency offline = true
out_state_mask dependency enabled = true
out_state_mask offline not_installed = true
out_state_mask offline enabled = true
out_state_mask enabled not_installed = true
out_state_mask _ _ = false

unfoldable pub allstate_event_mask : Event → Bool
allstate_event_mask shutdown_start = true
allstate_event_mask shutdown_finish = true
allstate_event_mask _ = false

unfoldable pub allstate_action : Event → Mo → Option Reaction
allstate_action shutdown_start mo = let r = oml_mo_adm_chg mo adm_shutdown in stay r.0 r.1
allstate_action shutdown_finish mo =
    some (record { next = some not_installed; mo = mo; before = []; after = [] })
allstate_action _ mo = none

unfoldable pub gprs_cell : Machine
gprs_cell = record {
  has_state = has_state;
  in_event_mask = in_event_mask;
  allstate_event_mask = allstate_event_mask;
  out_state_mask = out_state_mask;
  action = action;
  allstate_action = allstate_action;
  on_enter = on_enter;
}
