-- ===== src/Nm/Tests.antt =====
-- Runs of managed objects at concrete states.
use osmo_bts.Base.{none, refl, true, false, some, [], ◌∷◌}
use osmo_bts.Nm.Types.{
  enabled, av_off_line, av_ok, op_enabled, rx_setattr, opstart_ack, setattr_ack, ack_opstart,
  oml_mo_state_chg, not_installed, offline, sw_act, Mo, Env, op_disabled, av_not_installed,
  adm_locked, tx_sw_act_rep,
}
use osmo_bts.Nm.Machine.{Reaction, Object, by_state, Reach, here, next, settle}
use osmo_bts.Nm.Rcarrier
use osmo_bts.Nm.Channel
use osmo_bts.Nm.Runs.{IsFit, IsConfigured, carrier_run-IsFit-IsConfigured}

abbrev waiting : Env
waiting = record {
  apply_ok = true;
  rsl_connect_ok = true;
  phy_connected = true;
  rsl_link = true;
  is_omldummy = false;
  c0_reduced = false;
  bb_transc_enabled = false;
  depends_rcarrier = true;
  carrier_enabled = true;
  bts_enabled = false;
  nse_enabled = false;
}

abbrev both_up : Env
both_up = record waiting { bb_transc_enabled = true }

abbrev fresh_mo : Mo
fresh_mo = record {
  operational = op_disabled;
  availability = av_not_installed;
  administrative = adm_locked;
  setattr_success = false;
  opstart_success = false;
}

abbrev fresh_object : Object
fresh_object = record { state = not_installed; mo = fresh_mo }

abbrev offline_mo : Mo
offline_mo = record fresh_mo { availability = av_off_line }

abbrev set_up_mo : Mo
set_up_mo = record offline_mo { setattr_success = true }

abbrev started_mo : Mo
started_mo = record set_up_mo { opstart_success = true }

abbrev enabled_object : Object
enabled_object = record {
  state = enabled;
  mo = record started_mo { operational = op_enabled; availability = av_ok };
}

-- The software is activated, the attributes are set and the start is acknowledged.
started : Reach Rcarrier.rcarrier fresh_object enabled_object
unfolding settle Rcarrier.rcarrier Rcarrier.in_event_mask Rcarrier.action
    Rcarrier.not_installed_action Rcarrier.offline_action Rcarrier.check_enabled Rcarrier.links_up
    Rcarrier.on_enter oml_mo_state_chg
started =
    let r1 : Reaction = record {
      next = some offline;
      mo = fresh_mo;
      before = tx_sw_act_rep ∷ [];
      after = [];
    } in
    let r2 : Reaction = record {
      next = none;
      mo = set_up_mo;
      before = setattr_ack ∷ [];
      after = [];
    } in
    let r3 : Reaction = record {
      next = some enabled;
      mo = started_mo;
      before = ack_opstart ∷ [];
      after = [];
    } in
    let o1 : Object = record { state = offline; mo = offline_mo } in
    let o2 : Object = record { state = offline; mo = set_up_mo } in
    next
      (next (next here (by_state fresh_object waiting sw_act r1 refl refl))
        (by_state o1 waiting rx_setattr r2 refl refl))
      (by_state o2 waiting opstart_ack r3 refl refl)

carrier_run-IsFit-IsConfigured_example :
    IsFit Rcarrier.rcarrier enabled_object × IsConfigured enabled (enabled_object.mo)
carrier_run-IsFit-IsConfigured_example = carrier_run-IsFit-IsConfigured refl (refl, refl) started
