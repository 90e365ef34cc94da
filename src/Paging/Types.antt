-- ===== src/Paging/Types.antt =====
-- The state of src/common/paging.c and the fields of `struct gsm_bts` that it reads and writes.
use osmo_bts.Base.{ℕ, ◌^◌, Bool, Option, List}
use osmo_bts.Base.Int.{ℤ}
use osmo_bts.Osmo.{ChanDesc}

-- `struct paging_record`; the union is told apart by `enum paging_record_type`.
pub data PagingRecord : Type 0 where
  normal : (expiration_time chan_needed : ℕ) → (identity_lv : List ℕ) → PagingRecord
  macblock : (msg : List ℕ) → (confirm : Bool) → (msg_id : ℕ) → PagingRecord

-- `bts->etws`; `prim_notif` is `none` for the NULL pointer.
pub record Etws : Type 0 where
  pub prim_notif : Option (List ℕ)
  pub prim_notif_len : ℕ
  pub page_size : ℕ
  pub num_pages : ℕ
  pub next_page : ℕ
  pub pni : Bool

-- The rate counters of `bts->ctrs` that paging counts on.
pub record Counters : Type 0 where
  pub rcvd : ℕ
  pub dropped : ℕ
  pub dropped_ps : ℕ
  pub sent : ℕ
  pub congested : ℕ

-- `struct gsm_bts`, as far as paging goes, with the confirmations handed to the PCU.
pub record Bts : Type 0 where
  pub ctrs : Counters
  pub pch_total : ℕ
  pub pch_used : ℕ
  pub etws : Etws
  pub pos_nch : ℤ
  pub nln : ℕ
  pub nln_status : ℕ
  pub pcu_confirms : List ℕ

-- `struct paging_state`.
pub record Paging : Type 0 where
  pub bts : Bts
  pub chan_desc : ChanDesc
  pub paging_lifetime : ℕ
  pub num_paging_max : ℕ
  pub num_paging : ℕ
  pub paging_queue : List (List PagingRecord)
  pub cs_priority_active : Bool

-- The error numbers that the operations return.
pub data Errno : Type 0 where
  success einval enospc eexist enomem e2big : Errno

-- MAX_PAGING_BLOCKS_CCCH * MAX_BS_PA_MFRMS
abbrev pub num_queues : ℕ
num_queues = 81

abbrev pub gsm_macblock_len : ℕ
gsm_macblock_len = 23

abbrev pub u32_mod : ℕ
u32_mod = 2 ^ 32
