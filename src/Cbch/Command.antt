-- ===== src/Cbch/Command.antt =====
-- bts_process_smscb_cmd of src/common/cbch.c: a command of the BSC queues a message or replaces the
-- default message. `memory` is whether talloc_zero finds room.
use osmo_bts.Base.{
  ℕ, ◌+◌, ◌-◌, ◌%◌, Bool, true, false, Option, none, some, List, [], ◌∷◌, ◌++◌, length, replicate,
  ltb, ◌==◌, if◌then◌else◌,
}
use osmo_bts.Base.Int.{pos, leb_ℤ}
use osmo_bts.Cbch.Types.{
  Message, Smscb, Heap, Station, Call, ctr_rcvd_dropped, ctr_rcvd_queued, Limits, limits_of, free,
  free_option, is_same,
}
use osmo_bts.Cbch.Block.{check_and_send_cbch_load}

-- RSL_CB_CMD_TYPE_*
pub data CmdType : Type 0 where
  normal schedule default null_cmd unknown : CmdType

-- struct rsl_ie_cb_cmd_type; `def_bcast_normal` is def_bcast == RSL_CB_CMD_DEFBCAST_NORMAL.
pub record Cmd : Type 0 where
  pub command : CmdType
  pub def_bcast_normal : Bool
  pub last_block : ℕ

pub data Status : Type 0 where
  success einval no_memory : Status

-- The table last_block_rsl2um, which is read at the lower two bits of the field.
abbrev pub last_block_rsl2um : ℕ → ℕ
last_block_rsl2um n = if n == 0 then 4 else n

abbrev is_schedule_cmd : CmdType → Bool
is_schedule_cmd schedule = true
is_schedule_cmd _ = false

-- The message that is allocated: padded with 0x2b to 88 octets.
unfoldable pub new_message : ℕ → Cmd → List ℕ → Message
new_message address cmd msg = record {
  address = address;
  is_schedule = is_schedule_cmd cmd.command;
  octets = msg ++ replicate (88 - length msg) 0x2b;
  num_segs = last_block_rsl2um (cmd.last_block % 4);
}

unfoldable pub queue_message : Limits → Smscb → Heap → Message → Smscb × Heap × List Call
queue_message l s h m =
    if leb_ℤ l.max_len (pos s.queue_len) then (s, free m h, ctr_rcvd_dropped ∷ []) else (
      record s { queue = s.queue ++ m ∷ []; queue_len = s.queue_len + 1 },
      h,
      check_and_send_cbch_load l (s.queue_len + 1) ++ ctr_rcvd_queued ∷ [],
    )

-- The current message is forgotten where it is the old default message.
unfoldable pub forget_default : Smscb → Option Message → Smscb
forget_default s none = s
forget_default s (some c) = if is_same c s.default_msg then record s { cur_msg = none } else s

unfoldable pub set_default : Bool → Smscb → Heap → Message → Smscb × Heap × List Call
set_default is_normal s h m =
    let s' = forget_default s s.cur_msg in
    let h' = free_option s.default_msg h in
    if is_normal
    then (record s' { default_msg = some m }, h', [])
    else (record s' { default_msg = none }, free m h', [])

unfoldable pub by_command :
    Cmd → CmdType → Limits → Smscb → Heap → Message → Smscb × Heap × List Call
by_command cmd default l s h m = set_default cmd.def_bcast_normal s h m
by_command cmd unknown l s h m = (s, free m h, [])
by_command cmd _ l s h m = queue_message l s h m

abbrev status_of : CmdType → Status
status_of unknown = einval
status_of _ = success

-- What a command leaves of a channel and of the heap, its calls and its result.
pub record Done : Type 0 where
  pub smscb : Smscb
  pub heap : Heap
  pub calls : List Call
  pub status : Status

unfoldable pub process : Limits → Smscb → Heap → Bool → Cmd → List ℕ → Done
process l s h memory cmd msg =
    let m = new_message h.next_address cmd msg in
    let r = by_command cmd cmd.command l s (record h { next_address = h.next_address + 1 }) m in
    if ltb 88 (length msg)
    then record { smscb = s; heap = h; calls = []; status = einval }
    else if memory
    then record { smscb = r.0; heap = r.1; calls = r.2; status = status_of cmd.command }
    else record { smscb = s; heap = h; calls = []; status = no_memory }

unfoldable pub bts_process_smscb_cmd : Station → Bool → Cmd → Bool → List ℕ → Station × Status
bts_process_smscb_cmd b memory cmd extended_cbch msg =
    let x = process (limits_of false b) b.basic b.heap memory cmd msg in
    let y = process (limits_of true b) b.extended b.heap memory cmd msg in
    if extended_cbch
    then (record b { extended = y.smscb; heap = y.heap }, y.status)
    else (record b { basic = x.smscb; heap = x.heap }, x.status)
