-- ===== src/Nm/Dependency.antt =====
-- A radio channel of src/common/nm_channel_fsm.c with the radio carrier and the baseband transceiver
-- that it depends on. The two send the channel an event whenever they are enabled or disabled.
use osmo_bts.Base.{◌≡◌, true, false, Option, none, some, if◌then◌else◌}
use osmo_bts.Nm.Types.{
  State, dependency, offline, Event, bbtransc_enabled, bbtransc_disabled, rcarrier_enabled,
  rcarrier_disabled, Mo, Env,
}
use osmo_bts.Nm.Machine.{Reaction}
use osmo_bts.Nm.Channel

-- A channel in the state `s` with the objects that it depends on as `env` has them: it is offline
-- only where it may be started, and waits only where it may not.
abbrev pub IsPlaced : Env → State → Type 0
IsPlaced env offline = Channel.ts_can_be_enabled env ≡ true
IsPlaced env dependency = Channel.ts_can_be_enabled env ≡ false
IsPlaced env _ = true ≡ true

-- The event that announces the change of one of the two objects.
pub data Announces : Env → Env → Event → Type 0 where
  bb_up :
      (env env' : Env)
      → env'.bb_transc_enabled ≡ true
      → env'.depends_rcarrier ≡ env.depends_rcarrier
      → env'.carrier_enabled ≡ env.carrier_enabled
      → Announces env env' bbtransc_enabled
  bb_down :
      (env env' : Env)
      → env'.bb_transc_enabled ≡ false
      → env'.depends_rcarrier ≡ env.depends_rcarrier
      → env'.carrier_enabled ≡ env.carrier_enabled
      → Announces env env' bbtransc_disabled
  carrier_up :
      (env env' : Env)
      → env'.carrier_enabled ≡ true
      → env'.depends_rcarrier ≡ env.depends_rcarrier
      → env'.bb_transc_enabled ≡ env.bb_transc_enabled
      → Announces env env' rcarrier_enabled
  carrier_down :
      (env env' : Env)
      → env'.carrier_enabled ≡ false
      → env'.depends_rcarrier ≡ env.depends_rcarrier
      → env'.bb_transc_enabled ≡ env.bb_transc_enabled
      → Announces env env' rcarrier_disabled

-- The state after a reaction.
abbrev after_reaction : State → Option Reaction → State
after_reaction s none = s
after_reaction s (some r) = elim r.next [ none ↦ s | some t ↦ t ]

-- The state of the channel after an event, which is handled where the mask lets it in.
unfoldable pub after_event : Env → State → Event → Mo → State
after_event env s e mo =
    if Channel.in_event_mask s e then after_reaction s (Channel.action env s e mo) else s
