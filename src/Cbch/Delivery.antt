-- ===== src/Cbch/Delivery.antt =====
-- The four multiframes of a channel of src/common/cbch.c, in which it sends one message.
use osmo_bts.Base.{
  ℕ, ◌+◌, ◌-◌, ◌/◌, ◌%◌, ◌<◌, ◌≡◌, refl, Bool, true, false, Option, none, some, List, [], ◌∷◌, leb,
  if◌then◌else◌, arith,
}
use osmo_bts.Cbch.Types.{Message, Smscb, Heap, Station, Limits, limits_of, is_same}
use osmo_bts.Cbch.Block.{
  block_of, finish, block_from, get_smscb_block, select_from, select_next_smscb, get_at,
  bts_cbch_get,
}
use osmo_bts.Cbch.Phone.{air}

abbrev pub channel : Bool → Station → Smscb
channel true b = b.extended
channel false b = b.basic

-- The multiframe of the period of eight in which a channel begins, and what follows.
abbrev pub first_tb : Bool → ℕ
first_tb true = 4
first_tb false = 0

-- A channel that sends the message m, of which i blocks are out.
abbrev pub sending : Smscb → Message → ℕ → Smscb
sending s m i = record s {
  cur_msg = if leb m.num_segs i then (if is_same m s.default_msg then some m else none) else some m;
}

-- The next message: the first of the queue, else the default one.
abbrev pub head_or : List Message → Option Message → Option Message
head_or (m ∷ ms) d = some m
head_or [] d = d

abbrev pub tail : List Message → List Message
tail [] = []
tail (m ∷ ms) = ms

get_smscb_block-sending :
    (s : Smscb) (h : Heap) (m : Message) (tb i : ℕ)
    → tb % 4 ≡ i
    → (get_smscb_block (sending s m i) h tb).block ≡ air m i
      × (get_smscb_block (sending s m i) h tb).smscb ≡ sending s m (i + 1)
unfolding get_smscb_block block_from finish air block_of
get_smscb_block-sending s h m tb i e = ground arith

-- One multiframe of a channel, in which it sends a block.
pub station_step :
    (b : Station) (ext : Bool) (fn i : ℕ)
    → fn / 51 % 8 ≡ first_tb ext + i
    → i < 4
    → channel ext (bts_cbch_get b fn).0
        ≡ (get_at (limits_of ext b) (channel ext b) b.heap (first_tb ext + i)).0.smscb
      × (bts_cbch_get b fn).1
        ≡ (get_at (limits_of ext b) (channel ext b) b.heap (first_tb ext + i)).0.block
unfolding bts_cbch_get
station_step b true fn i e l = ground arith
station_step b false fn i e l = ground arith

pub next_step :
    (b : Station) (ext : Bool) (fn i : ℕ) (s : Smscb) (m : Message)
    → fn / 51 % 8 ≡ first_tb ext + i
    → 0 < i
    → i < 4
    → channel ext b ≡ sending s m i
    → channel ext (bts_cbch_get b fn).0 ≡ sending s m (i + 1) × (bts_cbch_get b fn).1 ≡ air m i
unfolding get_at
next_step b true fn i s m e p l c =
    let t = station_step b true fn i e l in
    let g = get_smscb_block-sending s b.heap m (4 + i) i (omega arith) in ground arith
next_step b false fn i s m e p l c =
    let t = station_step b false fn i e l in
    let g = get_smscb_block-sending s b.heap m (0 + i) i (omega arith) in ground arith

abbrev pub advance : Smscb → Smscb
advance s = record s {
  queue = tail s.queue;
  queue_len = (elim s.queue [ [] ↦ s.queue_len | m ∷ ms ↦ s.queue_len - 1 ]);
}

select_lem :
    (l : Limits) (s : Smscb)
    → (select_next_smscb l s).0 ≡ record (advance s) { cur_msg = head_or s.queue s.default_msg }
unfolding select_next_smscb select_from
select_lem l s = ground arith

pub first_step :
    (b : Station) (ext : Bool) (fn : ℕ) (m : Message)
    → fn / 51 % 8 ≡ first_tb ext
    → head_or (channel ext b).queue (channel ext b).default_msg ≡ some m
    → 0 < m.num_segs
    → channel ext (bts_cbch_get b fn).0 ≡ sending (advance (channel ext b)) m 1
      × (bts_cbch_get b fn).1 ≡ air m 0
unfolding get_at
first_step b true fn m e c p =
    let t = station_step b true fn 0 (omega arith) (omega arith) in
    let g = get_smscb_block-sending (advance b.extended) b.heap m 4 0 refl in
    let s = select_lem (limits_of true b) b.extended in ground arith
first_step b false fn m e c p =
    let t = station_step b false fn 0 (omega arith) (omega arith) in
    let g = get_smscb_block-sending (advance b.basic) b.heap m 0 0 refl in
    let s = select_lem (limits_of false b) b.basic in ground arith
