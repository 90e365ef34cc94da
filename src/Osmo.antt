-- ===== src/Osmo.antt =====
-- What src/common/paging.c and src/common/notification.c call of libosmocore and libosmogsm: how
-- a CCCH configuration divides into paging blocks, the type-length-value writers, the sizes of two message headers and
-- the writer of a bit vector. `OsmoLaws` states what their documentation promises.
pub mod Sample
use osmo_bts.Base.{ℕ, Bool, ◌+◌, ◌*◌, ◌≤◌, ◌<◌, ◌≡◌, List, length}

-- The fields of `struct gsm48_control_channel_descr` that the source reads.
pub record ChanDesc : Type 0 where
  pub bs_ag_blks_res : ℕ
  pub bs_pa_mfrms : ℕ

-- One call of the bit vector writer; `low` and `high` are the values relative to the padding.
pub data BitOp : Type 0 where
  bit_zero bit_one low high : BitOp
  uint : ℕ → ℕ → BitOp  -- value, number of bits
  bytes : List ℕ → BitOp

pub record Osmo : Type 0 where
  pub n_pag_blocks : ChanDesc → ℕ  -- gsm0502_get_n_pag_blocks
  pub n_subchannels : ChanDesc → ℕ  -- gsm48_number_of_paging_subchannels
  pub calc_paging_group : ChanDesc → ℕ → ℕ  -- gsm0502_calc_paging_group
  pub lv_put : ℕ → List ℕ → List ℕ  -- what it writes: length, value
  pub tlv_put : ℕ → ℕ → List ℕ → List ℕ  -- what it writes: tag, length, value
  pub bit_pos : List ℕ → ℕ → Bool  -- bitvec_get_bit_pos of the unpacked octets
  pub paging1_size : ℕ  -- offset of `data` in struct gsm48_paging1
  pub paging2_size : ℕ  -- sizeof(struct gsm48_paging2)
  pub nch_size : ℕ  -- offset of `data` in struct gsm48_notification_nch
  pub sh_size : ℕ  -- offset of `data` in struct gsm48_hdr_sh
  pub bitvec_write : List ℕ → List BitOp → List ℕ  -- the buffer after the calls

-- 3GPP TS 45.002 6.5.2: nine blocks of a multiframe at most carry paging, over 2 to 9 multiframes.
pub record OsmoLaws (o : Osmo) : Type 0 where
  pub blocks_le : (c : ChanDesc) → o.n_pag_blocks c ≤ 9
  pub blocks_pos : (c : ChanDesc) → 1 ≤ o.n_pag_blocks c
  pub subchannels_lem : (c : ChanDesc) → o.n_subchannels c ≡ o.n_pag_blocks c * (c.bs_pa_mfrms + 2)
  pub group-lt : (c : ChanDesc) (imsi : ℕ) → o.calc_paging_group c imsi < o.n_subchannels c
  pub length-lv : (n : ℕ) (v : List ℕ) → length (o.lv_put n v) ≡ n + 1
  pub length-tlv : (t n : ℕ) (v : List ℕ) → length (o.tlv_put t n v) ≡ n + 2
  pub paging1_lem : o.paging1_size ≡ 4
  pub paging2_lem : o.paging2_size ≡ 12
  pub length-bitvec : (b : List ℕ) (ops : List BitOp) → length (o.bitvec_write b ops) ≡ length b
