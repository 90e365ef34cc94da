-- ===== src/Nm/GprsObjects.antt =====
-- The laws of a machine for the three machines of the packet service, src/common/nm_gprs_*_fsm.c.
use osmo_bts.Base.{◌≡◌, true, arith}
use osmo_bts.Nm.Types.{
  State, not_installed, dependency, offline, enabled, Event, Mo, Env, oml_mo_state_chg,
  oml_mo_adm_chg,
}
use osmo_bts.Nm.Machine.{Reports, IsAnswer, MachineLaws}
use osmo_bts.Nm.GprsNse
use osmo_bts.Nm.GprsCell
use osmo_bts.Nm.GprsNsvc

pub gprs_nse-MachineLaws : MachineLaws GprsNse.gprs_nse
unfolding GprsNse.gprs_nse GprsNse.in_event_mask GprsNse.action GprsNse.not_installed_action
    GprsNse.dependency_action GprsNse.offline_action GprsNse.on_enter GprsNse.out_state_mask
    GprsNse.allstate_event_mask GprsNse.allstate_action GprsNse.has_state GprsNse.nse_can_be_enabled
    oml_mo_state_chg oml_mo_adm_chg
gprs_nse-MachineLaws = record { answers = answers; answers_all = answers_all }
  where
    answers :
        (env : Env) (s : State) (e : Event) (mo : Mo)
        → GprsNse.has_state s ≡ true
        → Reports s mo
        → GprsNse.in_event_mask s e ≡ true
        → IsAnswer GprsNse.gprs_nse env s (GprsNse.action env s e mo)
    answers env not_installed e mo q r h = ground arith
    answers env dependency e mo q r h = ground arith
    answers env offline e mo q r h = ground arith
    answers env enabled e mo q r h = ground arith

    answers_all :
        (env : Env) (s : State) (e : Event) (mo : Mo)
        → GprsNse.has_state s ≡ true
        → Reports s mo
        → GprsNse.allstate_event_mask e ≡ true
        → IsAnswer GprsNse.gprs_nse env s (GprsNse.allstate_action e mo)
    answers_all env s e mo q r h = ground arith

pub gprs_cell-MachineLaws : MachineLaws GprsCell.gprs_cell
unfolding GprsCell.gprs_cell GprsCell.in_event_mask GprsCell.action GprsCell.not_installed_action
    GprsCell.dependency_action GprsCell.offline_action GprsCell.on_enter GprsCell.out_state_mask
    GprsCell.allstate_event_mask GprsCell.allstate_action GprsCell.has_state
    GprsCell.gprs_cell_can_be_enabled oml_mo_state_chg oml_mo_adm_chg
gprs_cell-MachineLaws = record { answers = answers; answers_all = answers_all }
  where
    answers :
        (env : Env) (s : State) (e : Event) (mo : Mo)
        → GprsCell.has_state s ≡ true
        → Reports s mo
        → GprsCell.in_event_mask s e ≡ true
        → IsAnswer GprsCell.gprs_cell env s (GprsCell.action env s e mo)
    answers env not_installed e mo q r h = ground arith
    answers env dependency e mo q r h = ground arith
    answers env offline e mo q r h = ground arith
    answers env enabled e mo q r h = ground arith

    answers_all :
        (env : Env) (s : State) (e : Event) (mo : Mo)
        → GprsCell.has_state s ≡ true
        → Reports s mo
        → GprsCell.allstate_event_mask e ≡ true
        → IsAnswer GprsCell.gprs_cell env s (GprsCell.allstate_action e mo)
    answers_all env s e mo q r h = ground arith

pub gprs_nsvc-MachineLaws : MachineLaws GprsNsvc.gprs_nsvc
unfolding GprsNsvc.gprs_nsvc GprsNsvc.in_event_mask GprsNsvc.action GprsNsvc.not_installed_action
    GprsNsvc.dependency_action GprsNsvc.offline_action GprsNsvc.on_enter GprsNsvc.out_state_mask
    GprsNsvc.allstate_event_mask GprsNsvc.allstate_action GprsNsvc.has_state
    GprsNsvc.gprs_nsvc_can_be_enabled oml_mo_state_chg oml_mo_adm_chg
gprs_nsvc-MachineLaws = record { answers = answers; answers_all = answers_all }
  where
    answers :
        (env : Env) (s : State) (e : Event) (mo : Mo)
        → GprsNsvc.has_state s ≡ true
        → Reports s mo
        → GprsNsvc.in_event_mask s e ≡ true
        → IsAnswer GprsNsvc.gprs_nsvc env s (GprsNsvc.action env s e mo)
    answers env not_installed e mo q r h = ground arith
    answers env dependency e mo q r h = ground arith
    answers env offline e mo q r h = ground arith
    answers env enabled e mo q r h = ground arith

    answers_all :
        (env : Env) (s : State) (e : Event) (mo : Mo)
        → GprsNsvc.has_state s ≡ true
        → Reports s mo
        → GprsNsvc.allstate_event_mask e ≡ true
        → IsAnswer GprsNsvc.gprs_nsvc env s (GprsNsvc.allstate_action e mo)
    answers_all env s e mo q r h = ground arith
