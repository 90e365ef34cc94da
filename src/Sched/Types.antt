-- ===== src/Sched/Types.antt =====
-- The data of the scheduler: the logical channels of include/osmo-bts/scheduler.h and one frame of a
-- multiframe table.
use osmo_bts.Base.{ℕ, Bool, ◌==◌}

-- enum trx_chan_type
pub data TrxChan : Type 0 where
  trxc_idle trxc_fcch trxc_sch trxc_bcch trxc_rach trxc_ccch trxc_cbch : TrxChan
  trxc_pdtch trxc_ptcch trxc_tchf trxc_tchh_0 trxc_tchh_1 trxc_sdcch4_0 trxc_sdcch4_1 : TrxChan
  trxc_sdcch4_2 trxc_sdcch4_3 trxc_sdcch8_0 trxc_sdcch8_1 trxc_sdcch8_2 trxc_sdcch8_3
        trxc_sdcch8_4 :
      TrxChan
  trxc_sdcch8_5 trxc_sdcch8_6 trxc_sdcch8_7 trxc_sacchtf trxc_sacchth_0 trxc_sacchth_1
        trxc_sacch4_0 :
      TrxChan
  trxc_sacch4_1 trxc_sacch4_2 trxc_sacch4_3 trxc_sacch8_0 trxc_sacch8_1 trxc_sacch8_2
        trxc_sacch8_3 :
      TrxChan
  trxc_sacch8_4 trxc_sacch8_5 trxc_sacch8_6 trxc_sacch8_7 : TrxChan

-- struct trx_sched_frame
pub record Frame : Type 0 where
  pub dl_chan : TrxChan
  pub dl_bid : ℕ
  pub ul_chan : TrxChan
  pub ul_bid : ℕ

abbrev pub burst : TrxChan → ℕ → TrxChan → ℕ → Frame
burst dl dl_bid ul ul_bid = record { dl_chan = dl; dl_bid = dl_bid; ul_chan = ul; ul_bid = ul_bid }

-- The value of the constant.
abbrev pub number : TrxChan → ℕ
number trxc_idle = 0
number trxc_fcch = 1
number trxc_sch = 2
number trxc_bcch = 3
number trxc_rach = 4
number trxc_ccch = 5
number trxc_cbch = 6
number trxc_pdtch = 7
number trxc_ptcch = 8
number trxc_tchf = 9
number trxc_tchh_0 = 10
number trxc_tchh_1 = 11
number trxc_sdcch4_0 = 12
number trxc_sdcch4_1 = 13
number trxc_sdcch4_2 = 14
number trxc_sdcch4_3 = 15
number trxc_sdcch8_0 = 16
number trxc_sdcch8_1 = 17
number trxc_sdcch8_2 = 18
number trxc_sdcch8_3 = 19
number trxc_sdcch8_4 = 20
number trxc_sdcch8_5 = 21
number trxc_sdcch8_6 = 22
number trxc_sdcch8_7 = 23
number trxc_sacchtf = 24
number trxc_sacchth_0 = 25
number trxc_sacchth_1 = 26
number trxc_sacch4_0 = 27
number trxc_sacch4_1 = 28
number trxc_sacch4_2 = 29
number trxc_sacch4_3 = 30
number trxc_sacch8_0 = 31
number trxc_sacch8_1 = 32
number trxc_sacch8_2 = 33
number trxc_sacch8_3 = 34
number trxc_sacch8_4 = 35
number trxc_sacch8_5 = 36
number trxc_sacch8_6 = 37
number trxc_sacch8_7 = 38

abbrev pub same_chan : TrxChan → TrxChan → Bool
same_chan a b = number a == number b
