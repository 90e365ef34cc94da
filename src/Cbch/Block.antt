-- ===== src/Cbch/Block.antt =====
-- The blocks of a message: check_and_send_cbch_load, get_smscb_null_block, get_smscb_block,
-- select_next_smscb, bts_cbch_get and bts_cbch_reset of src/common/cbch.c.
use osmo_bts.Base.{
  ℕ, ◌+◌, ◌-◌, ◌*◌, ◌/◌, ◌%◌, Bool, true, false, Option, none, some, List, [], ◌∷◌, ◌++◌, take,
  drop, replicate, ltb, leb, ◌==◌, if◌then◌else◌,
}
use osmo_bts.Base.Int.{pos, ◌-ℤ◌, ltb_ℤ, pos_part, neg_part}
use osmo_bts.Cbch.Types.{
  Message, Smscb, Heap, Station, Call, load_indication, ctr_sent_single, ctr_sent_default,
  ctr_sent_null, Limits, limits_of, free, free_option, is_same,
}

abbrev min_15 : ℕ → ℕ
min_15 n = if ltb n 15 then n else 15

unfoldable pub check_and_send_cbch_load : Limits → ℕ → List Call
check_and_send_cbch_load l queue_len =
    let delta = pos queue_len -ℤ l.tgt_len in
    if ltb_ℤ (pos (pos_part delta + neg_part delta)) l.hyst
    then []
    else if ltb_ℤ delta (pos 0)
    then load_indication l.is_extended false (min_15 (neg_part delta)) ∷ []
    else load_indication l.is_extended true (min_15 (pos_part delta)) ∷ []

-- A block on the air: the sequence number, the last block flag and the 22 octets.
pub record AirBlock : Type 0 where
  pub seq_nr : ℕ
  pub lb : Bool
  pub payload : List ℕ

-- GSM412_SEQ_NULL_MSG and 22 octets of padding.
unfoldable pub null_block : AirBlock
null_block = record { seq_nr = 15; lb = false; payload = replicate 22 0x2b }

-- What a function leaves of a channel and of the heap, and the block.
pub record Got : Type 0 where
  pub smscb : Smscb
  pub heap : Heap
  pub block : AirBlock

unfoldable pub block_of : Message → ℕ → AirBlock
block_of m block_nr = record {
  seq_nr = (if block_nr == 0 then (if m.is_schedule then 8 else block_nr) else block_nr);
  lb = block_nr + 1 == m.num_segs;
  payload = take 22 (drop (block_nr * 22) m.octets);
}

-- A message that was sent whole is freed, unless it is the default message.
unfoldable pub finish : Smscb → Heap → Message → Bool → Smscb × Heap
finish s h m last =
    if last
    then if is_same m s.default_msg then (s, h) else (record s { cur_msg = none }, free m h)
    else (s, h)

unfoldable pub block_from : Smscb → Heap → ℕ → Option Message → Got
block_from s h block_nr none = record { smscb = s; heap = h; block = null_block }
block_from s h block_nr (some m) =
    let b = block_of m block_nr in
    let r = finish s h m b.lb in
    if leb m.num_segs block_nr
    then record { smscb = s; heap = h; block = null_block }
    else record { smscb = r.0; heap = r.1; block = b }

unfoldable pub get_smscb_block : Smscb → Heap → ℕ → Got
get_smscb_block s h tb = block_from s h (tb % 4) s.cur_msg

-- The default message, if there is one, is the current one without a queued one.
unfoldable pub select_from : Limits → Smscb → List Message → Smscb × List Call
select_from l s (m ∷ ms) = (
  record s { queue = ms; queue_len = s.queue_len - 1; cur_msg = some m },
  check_and_send_cbch_load l (s.queue_len - 1) ++ ctr_sent_single ∷ [],
)
select_from l s [] = (
  record s { cur_msg = s.default_msg },
  check_and_send_cbch_load l s.queue_len
      ++ (elim s.default_msg [ none ↦ ctr_sent_null | some d ↦ ctr_sent_default ]) ∷ [],
)

unfoldable pub select_next_smscb : Limits → Smscb → Smscb × List Call
select_next_smscb l s = select_from l s s.queue

-- One channel's part of bts_cbch_get: the multiframes 0 and 4 select a message first.
unfoldable pub get_at : Limits → Smscb → Heap → ℕ → Got × List Call
get_at l s h tb =
    let r = select_next_smscb l s in
    if tb % 4 == 0 then (get_smscb_block r.0 h tb, r.1) else (get_smscb_block s h tb, [])

unfoldable pub bts_cbch_get : Station → ℕ → Station × AirBlock × List Call
bts_cbch_get b fn =
    let tb = fn / 51 % 8 in
    let x = get_at (limits_of false b) b.basic b.heap tb in
    let y = get_at (limits_of true b) b.extended b.heap tb in
    if ltb tb 4
    then (record b { basic = x.0.smscb; heap = x.0.heap }, x.0.block, x.1)
    else (record b { extended = y.0.smscb; heap = y.0.heap }, y.0.block, y.1)

unfoldable pub free_all : List Message → Heap → Heap
free_all [] h = h
free_all (m ∷ ms) h = free_all ms (free m h)

-- The current message is freed where it is not the default one, which is freed after it.
unfoldable pub free_current : Smscb → Option Message → Heap → Heap
free_current s none h = h
free_current s (some m) h = if is_same m s.default_msg then h else free m h

unfoldable pub bts_smscb_state_reset : Smscb → Heap → Smscb × Heap
bts_smscb_state_reset s h = (
  record { queue = []; queue_len = 0; cur_msg = none; default_msg = none },
  free_option s.default_msg (free_current s s.cur_msg (free_all s.queue h)),
)

unfoldable pub bts_cbch_reset : Station → Station
bts_cbch_reset b =
    let x = bts_smscb_state_reset b.basic b.heap in
    let y = bts_smscb_state_reset b.extended x.1 in
    record b { basic = x.0; extended = y.0; heap = y.1 }
