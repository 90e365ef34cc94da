-- ===== src/Cbch/Tests.antt =====
-- The cell broadcast channel of src/common/cbch.c on concrete commands.
use osmo_bts.Base.{◌≡◌, refl, true, false, none, some, [], ◌∷◌, ◌++◌, replicate, arith}
use osmo_bts.Base.Int.{pos}
use osmo_bts.Cbch.Types.{Message, Smscb, Station}
use osmo_bts.Cbch.Command.{CmdType, Cmd, normal, bts_process_smscb_cmd}
use osmo_bts.Cbch.Memory.{in_freed, in_list}
use osmo_bts.Cbch.Ownership.{command, get, reset, perform_all, IsOwned, perform_all-IsOwned}
use osmo_bts.Cbch.Fifo.{listen, in_order, padded, listen-in_order, command_received}

abbrev empty : Smscb
empty = record { queue = []; queue_len = 0; cur_msg = none; default_msg = none }

abbrev fresh_station : Station
fresh_station = record {
  basic = empty;
  extended = empty;
  smscb_queue_tgt_len = pos 2;
  smscb_queue_max_len = pos 15;
  smscb_queue_hyst = pos 2;
  heap = record { freed = []; next_address = 0 };
}

abbrev normal_cmd : Cmd
normal_cmd = record { command = normal; def_bcast_normal = true; last_block = 2 }

abbrev default_cmd : Cmd
default_cmd = record { command = CmdType.default; def_bcast_normal = true; last_block = 1 }

fresh_station-IsOwned : IsOwned fresh_station
unfolding in_freed in_list
fresh_station-IsOwned = record { is_single = λ a. omega arith; is_given = λ a l. refl }

perform_all-IsOwned_example : IsOwned (
    perform_all fresh_station (
      command true normal_cmd false (7 ∷ [])
      ∷ get 0
      ∷ get 51
      ∷ command true default_cmd true []
      ∷ get 204
      ∷ reset
      ∷ []))
perform_all-IsOwned_example =
    perform_all-IsOwned fresh_station
      (command true normal_cmd false (7 ∷ [])
        ∷ get 0
        ∷ get 51
        ∷ command true default_cmd true []
        ∷ get 204
        ∷ reset
        ∷ [])
      fresh_station-IsOwned

abbrev greeting : Message
greeting = record { address = 0; is_schedule = true; octets = replicate 88 5; num_segs = 3 }

abbrev warning : Message
warning = record { address = 1; is_schedule = false; octets = replicate 88 6; num_segs = 1 }

abbrev busy_station : Station
busy_station = record fresh_station {
  extended = record {
    queue = greeting ∷ [];
    queue_len = 1;
    cur_msg = none;
    default_msg = some warning;
  };
  heap = record { freed = []; next_address = 2 };
}

listen-in_order_example : listen busy_station 204 3 ≡ in_order (greeting ∷ []) (some warning) 3
listen-in_order_example =
    listen-in_order busy_station true 204 3 (greeting ∷ []) (some warning) refl refl refl refl refl

command_received_example :
    listen (bts_process_smscb_cmd busy_station true normal_cmd true (8 ∷ 9 ∷ [])).0 204 2
    ≡ in_order (greeting ∷ []) (some warning) 1 ++ some (padded normal_cmd (8 ∷ 9 ∷ [])) ∷ []
command_received_example =
    command_received busy_station normal_cmd true (8 ∷ 9 ∷ []) 204 refl (omega arith) refl refl refl
      refl
