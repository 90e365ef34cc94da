-- ===== src/Sched/Tchh03.antt =====
-- Multiframe tables of src/common/scheduler_mframe.c: two half rate traffic channels in the timeslots 0 to 3.
use osmo_bts.Base.{List, [], ◌∷◌}
use osmo_bts.Sched.Types.{Frame, burst, trxc_tchh_0, trxc_tchh_1, trxc_sacchth_0, trxc_sacchth_1}

abbrev pub frame_tchh_ts01 : List Frame
frame_tchh_ts01 =
    burst trxc_tchh_0 0 trxc_tchh_0 0
    ∷ burst trxc_tchh_1 0 trxc_tchh_1 0
    ∷ burst trxc_tchh_0 1 trxc_tchh_0 1
    ∷ burst trxc_tchh_1 1 trxc_tchh_1 1
    ∷ burst trxc_tchh_0 0 trxc_tchh_0 0
    ∷ burst trxc_tchh_1 0 trxc_tchh_1 0
    ∷ burst trxc_tchh_0 1 trxc_tchh_0 1
    ∷ burst trxc_tchh_1 1 trxc_tchh_1 1
    ∷ burst trxc_tchh_0 0 trxc_tchh_0 0
    ∷ burst trxc_tchh_1 0 trxc_tchh_1 0
    ∷ burst trxc_tchh_0 1 trxc_tchh_0 1
    ∷ burst trxc_tchh_1 1 trxc_tchh_1 1
    ∷ burst trxc_sacchth_0 0 trxc_sacchth_0 0
    ∷ burst trxc_tchh_0 0 trxc_tchh_0 0
    ∷ burst trxc_tchh_1 0 trxc_tchh_1 0
    ∷ burst trxc_tchh_0 1 trxc_tchh_0 1
    ∷ burst trxc_tchh_1 1 trxc_tchh_1 1
    ∷ burst trxc_tchh_0 0 trxc_tchh_0 0
    ∷ burst trxc_tchh_1 0 trxc_tchh_1 0
    ∷ burst trxc_tchh_0 1 trxc_tchh_0 1
    ∷ burst trxc_tchh_1 1 trxc_tchh_1 1
    ∷ burst trxc_tchh_0 0 trxc_tchh_0 0
    ∷ burst trxc_tchh_1 0 trxc_tchh_1 0
    ∷ burst trxc_tchh_0 1 trxc_tchh_0 1
    ∷ burst trxc_tchh_1 1 trxc_tchh_1 1
    ∷ burst trxc_sacchth_1 0 trxc_sacchth_1 0
    ∷ burst trxc_tchh_0 0 trxc_tchh_0 0
    ∷ burst trxc_tchh_1 0 trxc_tchh_1 0
    ∷ burst trxc_tchh_0 1 trxc_tchh_0 1
    ∷ burst trxc_tchh_1 1 trxc_tchh_1 1
    ∷ burst trxc_tchh_0 0 trxc_tchh_0 0
    ∷ burst trxc_tchh_1 0 trxc_tchh_1 0
    ∷ burst trxc_tchh_0 1 trxc_tchh_0 1
    ∷ burst trxc_tchh_1 1 trxc_tchh_1 1
    ∷ burst trxc_tchh_0 0 trxc_tchh_0 0
    ∷ burst trxc_tchh_1 0 trxc_tchh_1 0
    ∷ burst trxc_tchh_0 1 trxc_tchh_0 1
    ∷ burst trxc_tchh_1 1 trxc_tchh_1 1
    ∷ burst trxc_sacchth_0 1 trxc_sacchth_0 1
    ∷ burst trxc_tchh_0 0 trxc_tchh_0 0
    ∷ burst trxc_tchh_1 0 trxc_tchh_1 0
    ∷ burst trxc_tchh_0 1 trxc_tchh_0 1
    ∷ burst trxc_tchh_1 1 trxc_tchh_1 1
    ∷ burst trxc_tchh_0 0 trxc_tchh_0 0
    ∷ burst trxc_tchh_1 0 trxc_tchh_1 0
    ∷ burst trxc_tchh_0 1 trxc_tchh_0 1
    ∷ burst trxc_tchh_1 1 trxc_tchh_1 1
    ∷ burst trxc_tchh_0 0 trxc_tchh_0 0
    ∷ burst trxc_tchh_1 0 trxc_tchh_1 0
    ∷ burst trxc_tchh_0 1 trxc_tchh_0 1
    ∷ burst trxc_tchh_1 1 trxc_tchh_1 1
    ∷ burst trxc_sacchth_1 1 trxc_sacchth_1 1
    ∷ burst trxc_tchh_0 0 trxc_tchh_0 0
    ∷ burst trxc_tchh_1 0 trxc_tchh_1 0
    ∷ burst trxc_tchh_0 1 trxc_tchh_0 1
    ∷ burst trxc_tchh_1 1 trxc_tchh_1 1
    ∷ burst trxc_tchh_0 0 trxc_tchh_0 0
    ∷ burst trxc_tchh_1 0 trxc_tchh_1 0
    ∷ burst trxc_tchh_0 1 trxc_tchh_0 1
    ∷ burst trxc_tchh_1 1 trxc_tchh_1 1
    ∷ burst trxc_tchh_0 0 trxc_tchh_0 0
    ∷ burst trxc_tchh_1 0 trxc_tchh_1 0
    ∷ burst trxc_tchh_0 1 trxc_tchh_0 1
    ∷ burst trxc_tchh_1 1 trxc_tchh_1 1
    ∷ burst trxc_sacchth_0 2 trxc_sacchth_0 2
    ∷ burst trxc_tchh_0 0 trxc_tchh_0 0
    ∷ burst trxc_tchh_1 0 trxc_tchh_1 0
    ∷ burst trxc_tchh_0 1 trxc_tchh_0 1
    ∷ burst trxc_tchh_1 1 trxc_tchh_1 1
    ∷ burst trxc_tchh_0 0 trxc_tchh_0 0
    ∷ burst trxc_tchh_1 0 trxc_tchh_1 0
    ∷ burst trxc_tchh_0 1 trxc_tchh_0 1
    ∷ burst trxc_tchh_1 1 trxc_tchh_1 1
    ∷ burst trxc_tchh_0 0 trxc_tchh_0 0
    ∷ burst trxc_tchh_1 0 trxc_tchh_1 0
    ∷ burst trxc_tchh_0 1 trxc_tchh_0 1
    ∷ burst trxc_tchh_1 1 trxc_tchh_1 1
    ∷ burst trxc_sacchth_1 2 trxc_sacchth_1 2
    ∷ burst trxc_tchh_0 0 trxc_tchh_0 0
    ∷ burst trxc_tchh_1 0 trxc_tchh_1 0
    ∷ burst trxc_tchh_0 1 trxc_tchh_0 1
    ∷ burst trxc_tchh_1 1 trxc_tchh_1 1
    ∷ burst trxc_tchh_0 0 trxc_tchh_0 0
    ∷ burst trxc_tchh_1 0 trxc_tchh_1 0
    ∷ burst trxc_tchh_0 1 trxc_tchh_0 1
    ∷ burst trxc_tchh_1 1 trxc_tchh_1 1
    ∷ burst trxc_tchh_0 0 trxc_tchh_0 0
    ∷ burst trxc_tchh_1 0 trxc_tchh_1 0
    ∷ burst trxc_tchh_0 1 trxc_tchh_0 1
    ∷ burst trxc_tchh_1 1 trxc_tchh_1 1
    ∷ burst trxc_sacchth_0 3 trxc_sacchth_0 3
    ∷ burst trxc_tchh_0 0 trxc_tchh_0 0
    ∷ burst trxc_tchh_1 0 trxc_tchh_1 0
    ∷ burst trxc_tchh_0 1 trxc_tchh_0 1
    ∷ burst trxc_tchh_1 1 trxc_tchh_1 1
    ∷ burst trxc_tchh_0 0 trxc_tchh_0 0
    ∷ burst trxc_tchh_1 0 trxc_tchh_1 0
    ∷ burst trxc_tchh_0 1 trxc_tchh_0 1
    ∷ burst trxc_tchh_1 1 trxc_tchh_1 1
    ∷ burst trxc_tchh_0 0 trxc_tchh_0 0
    ∷ burst trxc_tchh_1 0 trxc_tchh_1 0
    ∷ burst trxc_tchh_0 1 trxc_tchh_0 1
    ∷ burst trxc_tchh_1 1 trxc_tchh_1 1
    ∷ burst trxc_sacchth_1 3 trxc_sacchth_1 3
    ∷ []

abbrev pub frame_tchh_ts23 : List Frame
frame_tchh_ts23 =
    burst trxc_tchh_0 0 trxc_tchh_0 0
    ∷ burst trxc_tchh_1 0 trxc_tchh_1 0
    ∷ burst trxc_tchh_0 1 trxc_tchh_0 1
    ∷ burst trxc_tchh_1 1 trxc_tchh_1 1
    ∷ burst trxc_tchh_0 0 trxc_tchh_0 0
    ∷ burst trxc_tchh_1 0 trxc_tchh_1 0
    ∷ burst trxc_tchh_0 1 trxc_tchh_0 1
    ∷ burst trxc_tchh_1 1 trxc_tchh_1 1
    ∷ burst trxc_tchh_0 0 trxc_tchh_0 0
    ∷ burst trxc_tchh_1 0 trxc_tchh_1 0
    ∷ burst trxc_tchh_0 1 trxc_tchh_0 1
    ∷ burst trxc_tchh_1 1 trxc_tchh_1 1
    ∷ burst trxc_sacchth_0 3 trxc_sacchth_0 3
    ∷ burst trxc_tchh_0 0 trxc_tchh_0 0
    ∷ burst trxc_tchh_1 0 trxc_tchh_1 0
    ∷ burst trxc_tchh_0 1 trxc_tchh_0 1
    ∷ burst trxc_tchh_1 1 trxc_tchh_1 1
    ∷ burst trxc_tchh_0 0 trxc_tchh_0 0
    ∷ burst trxc_tchh_1 0 trxc_tchh_1 0
    ∷ burst trxc_tchh_0 1 trxc_tchh_0 1
    ∷ burst trxc_tchh_1 1 trxc_tchh_1 1
    ∷ burst trxc_tchh_0 0 trxc_tchh_0 0
    ∷ burst trxc_tchh_1 0 trxc_tchh_1 0
    ∷ burst trxc_tchh_0 1 trxc_tchh_0 1
    ∷ burst trxc_tchh_1 1 trxc_tchh_1 1
    ∷ burst trxc_sacchth_1 3 trxc_sacchth_1 3
    ∷ burst trxc_tchh_0 0 trxc_tchh_0 0
    ∷ burst trxc_tchh_1 0 trxc_tchh_1 0
    ∷ burst trxc_tchh_0 1 trxc_tchh_0 1
    ∷ burst trxc_tchh_1 1 trxc_tchh_1 1
    ∷ burst trxc_tchh_0 0 trxc_tchh_0 0
    ∷ burst trxc_tchh_1 0 trxc_tchh_1 0
    ∷ burst trxc_tchh_0 1 trxc_tchh_0 1
    ∷ burst trxc_tchh_1 1 trxc_tchh_1 1
    ∷ burst trxc_tchh_0 0 trxc_tchh_0 0
    ∷ burst trxc_tchh_1 0 trxc_tchh_1 0
    ∷ burst trxc_tchh_0 1 trxc_tchh_0 1
    ∷ burst trxc_tchh_1 1 trxc_tchh_1 1
    ∷ burst trxc_sacchth_0 0 trxc_sacchth_0 0
    ∷ burst trxc_tchh_0 0 trxc_tchh_0 0
    ∷ burst trxc_tchh_1 0 trxc_tchh_1 0
    ∷ burst trxc_tchh_0 1 trxc_tchh_0 1
    ∷ burst trxc_tchh_1 1 trxc_tchh_1 1
    ∷ burst trxc_tchh_0 0 trxc_tchh_0 0
    ∷ burst trxc_tchh_1 0 trxc_tchh_1 0
    ∷ burst trxc_tchh_0 1 trxc_tchh_0 1
    ∷ burst trxc_tchh_1 1 trxc_tchh_1 1
    ∷ burst trxc_tchh_0 0 trxc_tchh_0 0
    ∷ burst trxc_tchh_1 0 trxc_tchh_1 0
    ∷ burst trxc_tchh_0 1 trxc_tchh_0 1
    ∷ burst trxc_tchh_1 1 trxc_tchh_1 1
    ∷ burst trxc_sacchth_1 0 trxc_sacchth_1 0
    ∷ burst trxc_tchh_0 0 trxc_tchh_0 0
    ∷ burst trxc_tchh_1 0 trxc_tchh_1 0
    ∷ burst trxc_tchh_0 1 trxc_tchh_0 1
    ∷ burst trxc_tchh_1 1 trxc_tchh_1 1
    ∷ burst trxc_tchh_0 0 trxc_tchh_0 0
    ∷ burst trxc_tchh_1 0 trxc_tchh_1 0
    ∷ burst trxc_tchh_0 1 trxc_tchh_0 1
    ∷ burst trxc_tchh_1 1 trxc_tchh_1 1
    ∷ burst trxc_tchh_0 0 trxc_tchh_0 0
    ∷ burst trxc_tchh_1 0 trxc_tchh_1 0
    ∷ burst trxc_tchh_0 1 trxc_tchh_0 1
    ∷ burst trxc_tchh_1 1 trxc_tchh_1 1
    ∷ burst trxc_sacchth_0 1 trxc_sacchth_0 1
    ∷ burst trxc_tchh_0 0 trxc_tchh_0 0
    ∷ burst trxc_tchh_1 0 trxc_tchh_1 0
    ∷ burst trxc_tchh_0 1 trxc_tchh_0 1
    ∷ burst trxc_tchh_1 1 trxc_tchh_1 1
    ∷ burst trxc_tchh_0 0 trxc_tchh_0 0
    ∷ burst trxc_tchh_1 0 trxc_tchh_1 0
    ∷ burst trxc_tchh_0 1 trxc_tchh_0 1
    ∷ burst trxc_tchh_1 1 trxc_tchh_1 1
    ∷ burst trxc_tchh_0 0 trxc_tchh_0 0
    ∷ burst trxc_tchh_1 0 trxc_tchh_1 0
    ∷ burst trxc_tchh_0 1 trxc_tchh_0 1
    ∷ burst trxc_tchh_1 1 trxc_tchh_1 1
    ∷ burst trxc_sacchth_1 1 trxc_sacchth_1 1
    ∷ burst trxc_tchh_0 0 trxc_tchh_0 0
    ∷ burst trxc_tchh_1 0 trxc_tchh_1 0
    ∷ burst trxc_tchh_0 1 trxc_tchh_0 1
    ∷ burst trxc_tchh_1 1 trxc_tchh_1 1
    ∷ burst trxc_tchh_0 0 trxc_tchh_0 0
    ∷ burst trxc_tchh_1 0 trxc_tchh_1 0
    ∷ burst trxc_tchh_0 1 trxc_tchh_0 1
    ∷ burst trxc_tchh_1 1 trxc_tchh_1 1
    ∷ burst trxc_tchh_0 0 trxc_tchh_0 0
    ∷ burst trxc_tchh_1 0 trxc_tchh_1 0
    ∷ burst trxc_tchh_0 1 trxc_tchh_0 1
    ∷ burst trxc_tchh_1 1 trxc_tchh_1 1
    ∷ burst trxc_sacchth_0 2 trxc_sacchth_0 2
    ∷ burst trxc_tchh_0 0 trxc_tchh_0 0
    ∷ burst trxc_tchh_1 0 trxc_tchh_1 0
    ∷ burst trxc_tchh_0 1 trxc_tchh_0 1
    ∷ burst trxc_tchh_1 1 trxc_tchh_1 1
    ∷ burst trxc_tchh_0 0 trxc_tchh_0 0
    ∷ burst trxc_tchh_1 0 trxc_tchh_1 0
    ∷ burst trxc_tchh_0 1 trxc_tchh_0 1
    ∷ burst trxc_tchh_1 1 trxc_tchh_1 1
    ∷ burst trxc_tchh_0 0 trxc_tchh_0 0
    ∷ burst trxc_tchh_1 0 trxc_tchh_1 0
    ∷ burst trxc_tchh_0 1 trxc_tchh_0 1
    ∷ burst trxc_tchh_1 1 trxc_tchh_1 1
    ∷ burst trxc_sacchth_1 2 trxc_sacchth_1 2
    ∷ []
