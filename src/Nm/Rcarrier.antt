-- ===== src/Nm/Rcarrier.antt =====
-- The machine of the radio carrier, src/common/nm_radio_carrier_fsm.c.
use osmo_bts.Base.{
  Bool, true, false, ◌&&◌, ◌||◌, Option, none, some, List, [], ◌∷◌, ◌++◌, if◌then◌else◌,
}
use osmo_bts.Nm.Types.{
  State, not_installed, dependency, offline, enabled, Event, sw_act, rx_setattr, rx_opstart,
  opstart_ack, opstart_nack, shutdown_start, shutdown_finish, oml_up, rsl_up, rsl_down, phylink_up,
  phylink_down, disable, rcarrier_enabled, rcarrier_disabled, op_disabled, op_enabled, av_ok,
  av_not_installed, av_off_line, adm_locked, adm_shutdown, Mo, cant_perform, reported, Call,
  tx_sw_act_rep, tx_state_changed, setattr_ack, setattr_nack, ack_opstart, model_opstart,
  nack_opstart, to_ts, free_attr, Env, oml_mo_state_chg, oml_mo_adm_chg, forget_results,
}
use osmo_bts.Nm.Machine.{Machine, Reaction, stay}

-- The links that the change to the enabled state waits for; an OML dummy has none.
unfoldable pub links_up : Env → Bool
links_up env = env.is_omldummy || (env.rsl_link && env.phy_connected)

unfoldable pub on_enter : Env → State → State → Mo → Mo × List Call
on_enter env not_installed prev mo =
    let r = oml_mo_state_chg (forget_results mo) op_disabled av_not_installed (some adm_locked) in
    (r.0, free_attr ∷ r.1)
on_enter env offline enabled mo =
    let r = oml_mo_state_chg (forget_results mo) op_disabled av_off_line none in
    (r.0, r.1 ++ to_ts rcarrier_disabled ∷ [])
on_enter env offline prev mo = oml_mo_state_chg (forget_results mo) op_disabled av_off_line none
on_enter env enabled prev mo =
    let r = oml_mo_state_chg mo op_enabled av_ok none in (r.0, r.1 ++ to_ts rcarrier_enabled ∷ [])
on_enter env dependency prev mo = (mo, [])

-- The check for the enabled state at the end of the action.
unfoldable pub check_enabled : Env → Mo → List Call → Option Reaction
check_enabled env mo calls =
    if links_up env && (mo.setattr_success && mo.opstart_success)
    then some (record { next = some enabled; mo = mo; before = calls; after = [] })
    else stay mo calls

unfoldable pub not_installed_action : Event → Mo → Option Reaction
not_installed_action sw_act mo =
    some (record { next = some offline; mo = mo; before = tx_sw_act_rep ∷ []; after = [] })
not_installed_action oml_up mo = stay mo (tx_state_changed ∷ [])
not_installed_action rsl_up mo = stay mo []
not_installed_action rsl_down mo = stay mo []
not_installed_action phylink_up mo = stay mo []
not_installed_action phylink_down mo = stay mo []
not_installed_action disable mo = stay mo []
not_installed_action _ mo = none

unfoldable pub offline_action : Env → Event → Mo → Option Reaction
offline_action env oml_up mo = stay mo (tx_state_changed ∷ [])
offline_action env rx_setattr mo =
    check_enabled env (record mo { setattr_success = env.apply_ok })
      ((if env.apply_ok then setattr_ack else setattr_nack) ∷ [])
offline_action env rx_opstart mo =
    stay mo ((if mo.setattr_success then model_opstart else nack_opstart cant_perform) ∷ [])
offline_action env opstart_ack mo =
    check_enabled env (record mo { opstart_success = true }) (ack_opstart ∷ [])
offline_action env opstart_nack mo =
    stay (record mo { opstart_success = false }) (nack_opstart reported ∷ [])
offline_action env rsl_up mo = check_enabled env mo []
offline_action env rsl_down mo = stay mo []
offline_action env phylink_up mo = check_enabled env mo []
offline_action env phylink_down mo = stay mo []
offline_action env disable mo = stay mo []
offline_action env _ mo = none

unfoldable pub enabled_action : Event → Mo → Option Reaction
enabled_action rsl_down mo = some (record { next = some offline; mo = mo; before = []; after = [] })
enabled_action phylink_down mo =
    some (record { next = some offline; mo = mo; before = []; after = [] })
enabled_action disable mo = some (record { next = some offline; mo = mo; before = []; after = [] })
enabled_action _ mo = none

unfoldable pub action : Env → State → Event → Mo → Option Reaction
action env not_installed e mo = not_installed_action e mo
action env offline e mo = offline_action env e mo
action env enabled e mo = enabled_action e mo
action env dependency e mo = none

unfoldable pub has_state : State → Bool
has_state dependency = false
has_state _ = true

unfoldable pub in_event_mask : State → Event → Bool
in_event_mask not_installed sw_act = true
in_event_mask not_installed oml_up = true
in_event_mask not_installed rsl_up = true
in_event_mask not_installed rsl_down = true
in_event_mask not_installed phylink_up = true
in_event_mask not_installed phylink_down = true
in_event_mask not_installed disable = true
in_event_mask offline oml_up = true
in_event_mask offline rx_setattr = true
in_event_mask offline rx_opstart = true
in_event_mask offline opstart_ack = true
in_event_mask offline opstart_nack = true
in_event_mask offline rsl_up = true
in_event_mask offline rsl_down = true
in_event_mask offline phylink_up = true
in_event_mask offline phylink_down = true
in_event_mask offline disable = true
in_event_mask enabled rsl_down = true
in_event_mask enabled phylink_down = true
in_event_mask enabled disable = true
in_event_mask _ _ = false

unfoldable pub out_state_mask : State → State → Bool
out_state_mask not_installed not_installed = true
out_state_mask not_installed offline = true
out_state_mask offline not_installed = true
out_state_mask offline enabled = true
out_state_mask enabled not_installed = true
out_state_mask enabled offline = true
out_state_mask _ _ = false

unfoldable pub allstate_event_mask : Event → Bool
allstate_event_mask shutdown_start = true
allstate_event_mask shutdown_finish = true
allstate_event_mask _ = false

unfoldable pub allstate_action : Event → Mo → Option Reaction
allstate_action shutdown_start mo = let r = oml_mo_adm_chg mo adm_shutdown in stay r.0 r.1
allstate_action shutdown_finish mo =
    some (record { next = some not_installed; mo = mo; before = []; after = [] })
allstate_action _ mo = none

unfoldable pub rcarrier : Machine
rcarrier = record {
  has_state = has_state;
  in_event_mask = in_event_mask;
  allstate_event_mask = allstate_event_mask;
  out_state_mask = out_state_mask;
  action = action;
  allstate_action = allstate_action;
  on_enter = on_enter;
}
