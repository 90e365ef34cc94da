-- ===== src/Nm/Runs.antt =====
-- Runs of the machines of the managed objects: the steps that the dispatcher makes, in any order.
use mathlib.Core.Path.{subst}
use osmo_bts.Base.{◌≡◌, true, Option, none, some, arith}
use osmo_bts.Nm.Types.{
  State, not_installed, dependency, offline, enabled, Event, Mo, Env, oml_mo_state_chg,
  oml_mo_adm_chg,
}
use osmo_bts.Nm.Rcarrier
use osmo_bts.Nm.Objects.{rcarrier-MachineLaws}
use osmo_bts.Nm.Machine.{
  Machine, Reaction, Object, Step, by_state, by_all, Reach, here, next, settle, Reports, IsAnswer,
  MachineLaws,
}

-- The state is one of the machine's, and the report fits it.
abbrev pub IsFit : Machine → Object → Type 0
IsFit m o = (m.has_state o.state ≡ true) × Reports o.state o.mo

settle-IsFit :
    (m : Machine) (env : Env) (o : Object) (r : Reaction)
    → IsFit m o
    → IsAnswer m env o.state (some r)
    → IsFit m (settle m env o r)
unfolding settle
settle-IsFit m env o r f a = ground arith

Step-IsFit : {m : Machine} {o p : Object} → MachineLaws m → Step m o p → IsFit m o → IsFit m p
Step-IsFit {m = m} laws (by_state o env e r h k) f =
    settle-IsFit m env o r f
      (subst (IsAnswer m env o.state) k (laws.answers env o.state e o.mo f.0 f.1 h))
Step-IsFit {m = m} laws (by_all o env e r h k) f =
    settle-IsFit m env o r f
      (subst (IsAnswer m env o.state) k (laws.answers_all env o.state e o.mo f.0 f.1 h))

Reach-IsFit : {m : Machine} {o p : Object} → MachineLaws m → IsFit m o → Reach m o p → IsFit m p
Reach-IsFit laws f here = f
Reach-IsFit laws f (next r s) = Step-IsFit laws s (Reach-IsFit laws f r)

-- An enabled carrier has its attributes set and its start acknowledged.
abbrev pub IsConfigured : State → Mo → Type 0
IsConfigured enabled mo = (mo.setattr_success ≡ true) × (mo.opstart_success ≡ true)
IsConfigured _ mo = true ≡ true

-- What a reaction of the carrier leaves.
abbrev StaysConfigured : Env → State → Option Reaction → Type 0
StaysConfigured env s none = true ≡ true
StaysConfigured env s (some r) = elim r.next [
  | none ↦ IsConfigured s r.mo
  | some t ↦ IsConfigured t (Rcarrier.on_enter env t s r.mo).0
]

action-StaysConfigured :
    (env : Env) (s : State) (e : Event) (mo : Mo)
    → IsConfigured s mo
    → StaysConfigured env s (Rcarrier.action env s e mo)
unfolding Rcarrier.action Rcarrier.not_installed_action Rcarrier.offline_action
    Rcarrier.enabled_action Rcarrier.check_enabled Rcarrier.on_enter oml_mo_state_chg
action-StaysConfigured env not_installed e mo h = ground arith
action-StaysConfigured env dependency e mo h = ground arith
action-StaysConfigured env offline e mo h = ground arith
action-StaysConfigured env enabled e mo h = ground arith

allstate-StaysConfigured :
    (env : Env) (s : State) (e : Event) (mo : Mo)
    → IsConfigured s mo
    → StaysConfigured env s (Rcarrier.allstate_action e mo)
unfolding Rcarrier.allstate_action Rcarrier.on_enter oml_mo_state_chg oml_mo_adm_chg
allstate-StaysConfigured env not_installed e mo h = ground arith
allstate-StaysConfigured env dependency e mo h = ground arith
allstate-StaysConfigured env offline e mo h = ground arith
allstate-StaysConfigured env enabled e mo h = ground arith

settle-IsConfigured :
    (env : Env) (o : Object) (r : Reaction)
    → StaysConfigured env o.state (some r)
    → let p = settle Rcarrier.rcarrier env o r in IsConfigured p.state p.mo
unfolding settle Rcarrier.rcarrier
settle-IsConfigured env o r h = ground arith

Step-IsConfigured :
    {o p : Object}
    → Step Rcarrier.rcarrier o p
    → IsConfigured o.state o.mo
    → IsConfigured p.state p.mo
unfolding Rcarrier.rcarrier
Step-IsConfigured (by_state o env e r h k) c =
    settle-IsConfigured env o r
      (subst (StaysConfigured env o.state) k (action-StaysConfigured env o.state e o.mo c))
Step-IsConfigured (by_all o env e r h k) c =
    settle-IsConfigured env o r
      (subst (StaysConfigured env o.state) k (allstate-StaysConfigured env o.state e o.mo c))

Reach-IsConfigured :
    {o p : Object}
    → IsConfigured o.state o.mo
    → Reach Rcarrier.rcarrier o p
    → IsConfigured p.state p.mo
Reach-IsConfigured c here = c
Reach-IsConfigured c (next r s) = Step-IsConfigured s (Reach-IsConfigured c r)

-- A carrier that was not installed and reported so: after any run of its machine, whatever the
-- events, the links and the results of the calls, it is in a state of its table and reports what
-- fits it, and when it is enabled its attributes are set and its start is acknowledged.
pub carrier_run-IsFit-IsConfigured :
    {o p : Object}
    → o.state ≡ not_installed
    → Reports not_installed o.mo
    → Reach Rcarrier.rcarrier o p
    → IsFit Rcarrier.rcarrier p × IsConfigured p.state p.mo
unfolding Rcarrier.rcarrier Rcarrier.has_state
carrier_run-IsFit-IsConfigured {o = o} e m r =
    (Reach-IsFit rcarrier-MachineLaws (ground arith) r, Reach-IsConfigured (ground arith) r)
