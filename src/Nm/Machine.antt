-- ===== src/Nm/Machine.antt =====
-- A machine as its table and handlers give it, and the steps that libosmocore's dispatcher makes
-- of them: it calls the action of the present state for an event of the state's mask and the
-- action for all states for the two shutdown events, and a change of state runs the entry of
-- the new state before the action goes on.
use osmo_bts.Base.{◌≡◌, Bool, true, false, Option, none, some, List, []}
use osmo_bts.Nm.Types.{
  State, not_installed, dependency, offline, enabled, Event, Mo, Call, Env, op_disabled, op_enabled,
  av_ok, av_not_installed, av_off_line, av_dependency,
}

-- What an action does: the state that it asks for, what it does to the object, and the calls that
-- it makes before and after the change of state.
pub record Reaction : Type 0 where
  pub next : Option State
  pub mo : Mo
  pub before : List Call
  pub after : List Call

-- A reaction without a change of state.
abbrev pub stay : Mo → List Call → Option Reaction
stay mo calls = some (record { next = none; mo = mo; before = calls; after = [] })

pub record Machine : Type 0 where
  pub has_state : State → Bool  -- the entries of the table
  pub in_event_mask : State → Event → Bool
  pub allstate_event_mask : Event → Bool
  pub out_state_mask : State → State → Bool
  pub action : Env → State → Event → Mo → Option Reaction  -- none where an assertion fails
  pub allstate_action : Event → Mo → Option Reaction
  pub on_enter : Env → State → State → Mo → Mo × List Call  -- the new state, then the old one

-- An object: the state of its machine and what it reports.
pub record Object : Type 0 where
  pub state : State
  pub mo : Mo

unfoldable pub settle : Machine → Env → Object → Reaction → Object
settle m env o r = elim r.next [
  | none ↦ record { state = o.state; mo = r.mo }
  | some s ↦ record { state = s; mo = (m.on_enter env s o.state r.mo).0 }
]

pub data Step (m : Machine) : Object → Object → Type 0 where
  by_state :
      (o : Object) (env : Env) (e : Event) (r : Reaction)
      → m.in_event_mask o.state e ≡ true
      → m.action env o.state e o.mo ≡ some r
      → Step m o (settle m env o r)
  by_all :
      (o : Object) (env : Env) (e : Event) (r : Reaction)
      → m.allstate_event_mask e ≡ true
      → m.allstate_action e o.mo ≡ some r
      → Step m o (settle m env o r)

pub data Reach (m : Machine) (o : Object) : Object → Type 0 where
  here : Reach m o o
  next : {p q : Object} → Reach m o p → Step m p q → Reach m o q

-- What an object reports fits the state of its machine.
abbrev pub Reports : State → Mo → Type 0
Reports not_installed mo = (mo.operational ≡ op_disabled) × (mo.availability ≡ av_not_installed)
Reports dependency mo = (mo.operational ≡ op_disabled) × (mo.availability ≡ av_dependency)
Reports offline mo = (mo.operational ≡ op_disabled) × (mo.availability ≡ av_off_line)
Reports enabled mo =
    (mo.operational ≡ op_enabled) × (mo.availability ≡ av_ok) × (mo.opstart_success ≡ true)

-- A state asked for is one that the table allows and whose entry makes the report fit; without
-- one, the report still fits.
abbrev pub IsAnswer : Machine → Env → State → Option Reaction → Type 0
IsAnswer m env s none = true ≡ false
IsAnswer m env s (some r) = elim r.next [
  | none ↦ Reports s r.mo
  | some t ↦
      (m.has_state t ≡ true) × (m.out_state_mask s t ≡ true) × Reports t (m.on_enter env t s r.mo).0
]

-- What a machine keeps: where its masks let an event in, no assertion fails and the answer is as
-- it must be.
pub record MachineLaws (m : Machine) : Type 0 where
  pub answers :
      (env : Env) (s : State) (e : Event) (mo : Mo)
      → m.has_state s ≡ true
      → Reports s mo
      → m.in_event_mask s e ≡ true
      → IsAnswer m env s (m.action env s e mo)
  pub answers_all :
      (env : Env) (s : State) (e : Event) (mo : Mo)
      → m.has_state s ≡ true
      → Reports s mo
      → m.allstate_event_mask e ≡ true
      → IsAnswer m env s (m.allstate_action e mo)
