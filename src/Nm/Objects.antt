-- ===== src/Nm/Objects.antt =====
-- The laws of a machine for the machines of src/common/nm_*_fsm.c.
use osmo_bts.Base.{◌≡◌, true, arith}
use osmo_bts.Nm.Types.{
  State, not_installed, dependency, offline, enabled, Event, Mo, Env, oml_mo_state_chg,
  oml_mo_adm_chg,
}
use osmo_bts.Nm.Machine.{Reports, IsAnswer, MachineLaws}
use osmo_bts.Nm.SiteMgr
use osmo_bts.Nm.Bts
use osmo_bts.Nm.BbTransc
use osmo_bts.Nm.Rcarrier
use osmo_bts.Nm.Channel
use osmo_bts.Nm.GprsNse
use osmo_bts.Nm.GprsCell
use osmo_bts.Nm.GprsNsvc
use osmo_bts.Nm.GprsObjects.{gprs_nse-MachineLaws, gprs_cell-MachineLaws, gprs_nsvc-MachineLaws}

site_mgr-MachineLaws : MachineLaws SiteMgr.site_mgr
unfolding SiteMgr.site_mgr SiteMgr.in_event_mask SiteMgr.action SiteMgr.offline_action
    SiteMgr.on_enter SiteMgr.out_state_mask SiteMgr.allstate_event_mask SiteMgr.allstate_action
    oml_mo_state_chg oml_mo_adm_chg SiteMgr.has_state
site_mgr-MachineLaws = record { answers = answers; answers_all = answers_all }
  where
    answers :
        (env : Env) (s : State) (e : Event) (mo : Mo)
        → SiteMgr.has_state s ≡ true
        → Reports s mo
        → SiteMgr.in_event_mask s e ≡ true
        → IsAnswer SiteMgr.site_mgr env s (SiteMgr.action env s e mo)
    answers env not_installed e mo q r h = ground arith
    answers env dependency e mo q r h = ground arith
    answers env offline e mo q r h = ground arith
    answers env enabled e mo q r h = ground arith

    answers_all :
        (env : Env) (s : State) (e : Event) (mo : Mo)
        → SiteMgr.has_state s ≡ true
        → Reports s mo
        → SiteMgr.allstate_event_mask e ≡ true
        → IsAnswer SiteMgr.site_mgr env s (SiteMgr.allstate_action e mo)
    answers_all env not_installed e mo q r h = ground arith
    answers_all env dependency e mo q r h = ground arith
    answers_all env offline e mo q r h = ground arith
    answers_all env enabled e mo q r h = ground arith

bts-MachineLaws : MachineLaws Bts.bts
unfolding Bts.bts Bts.in_event_mask Bts.action Bts.offline_action Bts.on_enter Bts.out_state_mask
    Bts.allstate_event_mask Bts.allstate_action oml_mo_state_chg oml_mo_adm_chg Bts.has_state
bts-MachineLaws = record { answers = answers; answers_all = answers_all }
  where
    answers :
        (env : Env) (s : State) (e : Event) (mo : Mo)
        → Bts.has_state s ≡ true
        → Reports s mo
        → Bts.in_event_mask s e ≡ true
        → IsAnswer Bts.bts env s (Bts.action env s e mo)
    answers env not_installed e mo q r h = ground arith
    answers env dependency e mo q r h = ground arith
    answers env offline e mo q r h = ground arith
    answers env enabled e mo q r h = ground arith

    answers_all :
        (env : Env) (s : State) (e : Event) (mo : Mo)
        → Bts.has_state s ≡ true
        → Reports s mo
        → Bts.allstate_event_mask e ≡ true
        → IsAnswer Bts.bts env s (Bts.allstate_action e mo)
    answers_all env not_installed e mo q r h = ground arith
    answers_all env dependency e mo q r h = ground arith
    answers_all env offline e mo q r h = ground arith
    answers_all env enabled e mo q r h = ground arith

bb_transc-MachineLaws : MachineLaws BbTransc.bb_transc
unfolding BbTransc.bb_transc BbTransc.in_event_mask BbTransc.action BbTransc.not_installed_action
    BbTransc.offline_action BbTransc.enabled_action BbTransc.check_enabled BbTransc.on_enter
    BbTransc.out_state_mask BbTransc.allstate_event_mask BbTransc.allstate_action oml_mo_state_chg
    oml_mo_adm_chg BbTransc.has_state
bb_transc-MachineLaws = record { answers = answers; answers_all = answers_all }
  where
    answers :
        (env : Env) (s : State) (e : Event) (mo : Mo)
        → BbTransc.has_state s ≡ true
        → Reports s mo
        → BbTransc.in_event_mask s e ≡ true
        → IsAnswer BbTransc.bb_transc env s (BbTransc.action env s e mo)
    answers env not_installed e mo q r h = ground arith
    answers env dependency e mo q r h = ground arith
    answers env offline e mo q r h = ground arith
    answers env enabled e mo q r h = ground arith

    answers_all :
        (env : Env) (s : State) (e : Event) (mo : Mo)
        → BbTransc.has_state s ≡ true
        → Reports s mo
        → BbTransc.allstate_event_mask e ≡ true
        → IsAnswer BbTransc.bb_transc env s (BbTransc.allstate_action e mo)
    answers_all env not_installed e mo q r h = ground arith
    answers_all env dependency e mo q r h = ground arith
    answers_all env offline e mo q r h = ground arith
    answers_all env enabled e mo q r h = ground arith

pub rcarrier-MachineLaws : MachineLaws Rcarrier.rcarrier
unfolding Rcarrier.rcarrier Rcarrier.in_event_mask Rcarrier.action Rcarrier.not_installed_action
    Rcarrier.offline_action Rcarrier.enabled_action Rcarrier.check_enabled Rcarrier.on_enter
    Rcarrier.out_state_mask Rcarrier.allstate_event_mask Rcarrier.allstate_action oml_mo_state_chg
    oml_mo_adm_chg Rcarrier.has_state
rcarrier-MachineLaws = record { answers = answers; answers_all = answers_all }
  where
    answers :
        (env : Env) (s : State) (e : Event) (mo : Mo)
        → Rcarrier.has_state s ≡ true
        → Reports s mo
        → Rcarrier.in_event_mask s e ≡ true
        → IsAnswer Rcarrier.rcarrier env s (Rcarrier.action env s e mo)
    answers env not_installed e mo q r h = ground arith
    answers env dependency e mo q r h = ground arith
    answers env offline e mo q r h = ground arith
    answers env enabled e mo q r h = ground arith

    answers_all :
        (env : Env) (s : State) (e : Event) (mo : Mo)
        → Rcarrier.has_state s ≡ true
        → Reports s mo
        → Rcarrier.allstate_event_mask e ≡ true
        → IsAnswer Rcarrier.rcarrier env s (Rcarrier.allstate_action e mo)
    answers_all env not_installed e mo q r h = ground arith
    answers_all env dependency e mo q r h = ground arith
    answers_all env offline e mo q r h = ground arith
    answers_all env enabled e mo q r h = ground arith

channel-MachineLaws : MachineLaws Channel.channel
unfolding Channel.channel Channel.in_event_mask Channel.action Channel.not_installed_action
    Channel.offline_action Channel.enabled_action Channel.dependency_action Channel.disabled_action
    Channel.go Channel.go_if Channel.ready_state Channel.on_enter Channel.out_state_mask
    Channel.allstate_event_mask Channel.allstate_action oml_mo_state_chg oml_mo_adm_chg
    Channel.has_state
channel-MachineLaws = record { answers = answers; answers_all = answers_all }
  where
    answers :
        (env : Env) (s : State) (e : Event) (mo : Mo)
        → Channel.has_state s ≡ true
        → Reports s mo
        → Channel.in_event_mask s e ≡ true
        → IsAnswer Channel.channel env s (Channel.action env s e mo)
    answers env not_installed e mo q r h = ground arith
    answers env dependency e mo q r h = ground arith
    answers env offline e mo q r h = ground arith
    answers env enabled e mo q r h = ground arith

    answers_all :
        (env : Env) (s : State) (e : Event) (mo : Mo)
        → Channel.has_state s ≡ true
        → Reports s mo
        → Channel.allstate_event_mask e ≡ true
        → IsAnswer Channel.channel env s (Channel.allstate_action e mo)
    answers_all env not_installed e mo q r h = ground arith
    answers_all env dependency e mo q r h = ground arith
    answers_all env offline e mo q r h = ground arith
    answers_all env enabled e mo q r h = ground arith

-- Each of the eight machines, in every state and for every event that its masks let in, hits no
-- failed assertion and asks only for a state that its table lets follow, and what the object then
-- reports fits the state: disabled or enabled, the availability, and the acknowledged start.
pub machines-MachineLaws :
    MachineLaws SiteMgr.site_mgr
    × MachineLaws Bts.bts
    × MachineLaws BbTransc.bb_transc
    × MachineLaws Rcarrier.rcarrier
    × MachineLaws Channel.channel
    × MachineLaws GprsNse.gprs_nse
    × MachineLaws GprsCell.gprs_cell
    × MachineLaws GprsNsvc.gprs_nsvc
machines-MachineLaws = (
  site_mgr-MachineLaws, bts-MachineLaws, bb_transc-MachineLaws, rcarrier-MachineLaws,
  channel-MachineLaws, gprs_nse-MachineLaws, gprs_cell-MachineLaws, gprs_nsvc-MachineLaws,
)
