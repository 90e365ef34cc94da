-- ===== src/Cbch/Types.antt =====
-- The messages and the state of src/common/cbch.c. A message carries the number of its allocation,
-- which stands for its address: two pointers are equal when their numbers are. Memory that
-- was freed is logged.
use osmo_bts.Base.{ℕ, Bool, false, Option, none, some, List, ◌∷◌, ◌==◌}
use osmo_bts.Base.Int.{ℤ}

-- struct smscb_msg
pub record Message : Type 0 where
  pub address : ℕ
  pub is_schedule : Bool
  pub octets : List ℕ
  pub num_segs : ℕ

-- struct bts_smscb_state
pub record Smscb : Type 0 where
  pub queue : List Message
  pub queue_len : ℕ
  pub cur_msg : Option Message
  pub default_msg : Option Message

-- The addresses that were freed, in order, and the next one that is given out.
pub record Heap : Type 0 where
  pub freed : List ℕ
  pub next_address : ℕ

-- The queue limits of struct gsm_bts, its two channels, and the heap.
pub record Station : Type 0 where
  pub basic : Smscb
  pub extended : Smscb
  pub smscb_queue_tgt_len : ℤ
  pub smscb_queue_max_len : ℤ
  pub smscb_queue_hyst : ℤ
  pub heap : Heap

-- What the functions call and count outside: a load indication for the extended channel or not, for an
-- overrun or not, with its amount; and the counters.
pub data Call : Type 0 where
  load_indication : Bool → Bool → ℕ → Call
  ctr_rcvd_dropped ctr_rcvd_queued ctr_sent_single ctr_sent_default ctr_sent_null ctr_reset : Call

-- The limits that the check of the load reads.
pub record Limits : Type 0 where
  pub tgt_len : ℤ
  pub max_len : ℤ
  pub hyst : ℤ
  pub is_extended : Bool

abbrev pub limits_of : Bool → Station → Limits
limits_of ext b = record {
  tgt_len = b.smscb_queue_tgt_len;
  max_len = b.smscb_queue_max_len;
  hyst = b.smscb_queue_hyst;
  is_extended = ext;
}

abbrev pub free : Message → Heap → Heap
free m h = record h { freed = m.address ∷ h.freed }

abbrev pub free_option : Option Message → Heap → Heap
free_option none h = h
free_option (some m) h = free m h

-- Whether two pointers are equal, of which the first is not NULL.
abbrev pub is_same : Message → Option Message → Bool
is_same m none = false
is_same m (some n) = m.address == n.address
