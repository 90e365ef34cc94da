-- ===== src/Sched/Tchh47.antt =====
-- Multiframe tables of src/common/scheduler_mframe.c: two half rate traffic channels in the timeslots 4 to 7.
use osmo_bts.Base.{List, [], ◌∷◌}
use osmo_bts.Sched.Types.{Frame, burst, trxc_tchh_0, trxc_tchh_1, trxc_sacchth_0, trxc_sacchth_1}

abbrev pub frame_tchh_ts45 : List Frame
frame_tchh_ts45 =
    burst trxc_tchh_0 0 trxc_tchh_0 0
    ∷ burst trxc_tchh_1 0 trxc_tchh_1 0
    ∷ burst trxc_tchh_0 1 trxc_tchh_0 1
    ∷ burst trxc_tchh_1 1 trxc_tchh_1 1
    ∷ burst trxc_tchh_0 0 trxc_tchh_0 0
    ∷ burst trxc_tchh_1 0 trxc_tchh_1 0
    ∷ burst trxc_tchh_0 1 trxc_tchh_0 1
    ∷ burst trxc_tchh_1 1 trxc_tchh_1 1
    ∷ burst trxc_tchh_0 0 trxc_tchh_0 0
    ∷ burst trxc_tchh_1 0 trxc_tchh_1 0
    ∷ burst trxc_tchh_0 1 trxc_tchh_0 1
    ∷ burst trxc_tchh_1 1 trxc_tchh_1 1
    ∷ burst trxc_sacchth_0 2 trxc_sacchth_0 2
    ∷ burst trxc_tchh_0 0 trxc_tchh_0 0
    ∷ burst trxc_tchh_1 0 trxc_tchh_1 0
    ∷ burst trxc_tchh_0 1 trxc_tchh_0 1
    ∷ burst trxc_tchh_1 1 trxc_tchh_1 1
    ∷ burst trxc_tchh_0 0 trxc_tchh_0 0
    ∷ burst trxc_tchh_1 0 trxc_tchh_1 0
    ∷ burst trxc_tchh_0 1 trxc_tchh_0 1
    ∷ burst trxc_tchh_1 1 trxc_tchh_1 1
    ∷ burst trxc_tchh_0 0 trxc_tchh_0 0
    ∷ burst trxc_tchh_1 0 trxc_tchh_1 0
    ∷ burst trxc_tchh_0 1 trxc_tchh_0 1
    ∷ burst trxc_tchh_1 1 trxc_tchh_1 1
    ∷ burst trxc_sacchth_1 2 trxc_sacchth_1 2
    ∷ burst trxc_tchh_0 0 trxc_tchh_0 0
    ∷ burst trxc_tchh_1 0 trxc_tchh_1 0
    ∷ burst trxc_tchh_0 1 trxc_tchh_0 1
    ∷ burst trxc_tchh_1 1 trxc_tchh_1 1
    ∷ burst trxc_tchh_0 0 trxc_tchh_0 0
    ∷ burst trxc_tchh_1 0 trxc_tchh_1 0
    ∷ burst trxc_tchh_0 1 trxc_tchh_0 1
    ∷ burst trxc_tchh_1 1 trxc_tchh_1 1
    ∷ burst trxc_tchh_0 0 trxc_tchh_0 0
    ∷ burst trxc_tchh_1 0 trxc_tchh_1 0
    ∷ burst trxc_tchh_0 1 trxc_tchh_0 1
    ∷ burst trxc_tchh_1 1 trxc_tchh_1 1
    ∷ burst trxc_sacchth_0 3 trxc_sacchth_0 3
    ∷ burst trxc_tchh_0 0 trxc_tchh_0 0
    ∷ burst trxc_tchh_1 0 trxc_tchh_1 0
    ∷ burst trxc_tchh_0 1 trxc_tchh_0 1
    ∷ burst trxc_tchh_1 1 trxc_tchh_1 1
    ∷ burst trxc_tchh_0 0 trxc_tchh_0 0
    ∷ burst trxc_tchh_1 0 trxc_tchh_1 0
    ∷ burst trxc_tchh_0 1 trxc_tchh_0 1
    ∷ burst trxc_tchh_1 1 trxc_tchh_1 1
    ∷ burst trxc_tchh_0 0 trxc_tchh_0 0
    ∷ burst trxc_tchh_1 0 trxc_tchh_1 0
    ∷ burst trxc_tchh_0 1 trxc_tchh_0 1
    ∷ burst trxc_tchh_1 1 trxc_tchh_1 1
    ∷ burst trxc_sacchth_1 3 trxc_sacchth_1 3
    ∷ burst trxc_tchh_0 0 trxc_tchh_0 0
    ∷ burst trxc_tchh_1 0 trxc_tchh_1 0
    ∷ burst trxc_tchh_0 1 trxc_tchh_0 1
    ∷ burst trxc_tchh_1 1 trxc_tchh_1 1
    ∷ burst trxc_tchh_0 0 trxc_tchh_0 0
    ∷ burst trxc_tchh_1 0 trxc_tchh_1 0
    ∷ burst trxc_tchh_0 1 trxc_tchh_0 1
    ∷ burst trxc_tchh_1 1 trxc_tchh_1 1
    ∷ burst trxc_tchh_0 0 trxc_tchh_0 0
    ∷ burst trxc_tchh_1 0 trxc_tchh_1 0
    ∷ burst trxc_tchh_0 1 trxc_tchh_0 1
    ∷ burst trxc_tchh_1 1 trxc_tchh_1 1
    ∷ burst trxc_sacchth_0 0 trxc_sacchth_0 0
    ∷ burst trxc_tchh_0 0 trxc_tchh_0 0
    ∷ burst trxc_tchh_1 0 trxc_tchh_1 0
    ∷ burst trxc_tchh_0 1 trxc_tchh_0 1
    ∷ burst trxc_tchh_1 1 trxc_tchh_1 1
    ∷ burst trxc_tchh_0 0 trxc_tchh_0 0
    ∷ burst trxc_tchh_1 0 trxc_tchh_1 0
    ∷ burst trxc_tchh_0 1 trxc_tchh_0 1
    ∷ burst trxc_tchh_1 1 trxc_tchh_1 1
    ∷ burst trxc_tchh_0 0 trxc_tchh_0 0
    ∷ burst trxc_tchh_1 0 trxc_tchh_1 0
    ∷ burst trxc_tchh_0 1 trxc_tchh_0 1
    ∷ burst trxc_tchh_1 1 trxc_tchh_1 1
    ∷ burst trxc_sacchth_1 0 trxc_sacchth_1 0
    ∷ burst trxc_tchh_0 0 trxc_tchh_0 0
    ∷ burst trxc_tchh_1 0 trxc_tchh_1 0
    ∷ burst trxc_tchh_0 1 trxc_tchh_0 1
    ∷ burst trxc_tchh_1 1 trxc_tchh_1 1
    ∷ burst trxc_tchh_0 0 trxc_tchh_0 0
    ∷ burst trxc_tchh_1 0 trxc_tchh_1 0
    ∷ burst trxc_tchh_0 1 trxc_tchh_0 1
    ∷ burst trxc_tchh_1 1 trxc_tchh_1 1
    ∷ burst trxc_tchh_0 0 trxc_tchh_0 0
    ∷ burst trxc_tchh_1 0 trxc_tchh_1 0
    ∷ burst trxc_tchh_0 1 trxc_tchh_0 1
    ∷ burst trxc_tchh_1 1 trxc_tchh_1 1
    ∷ burst trxc_sacchth_0 1 trxc_sacchth_0 1
    ∷ burst trxc_tchh_0 0 trxc_tchh_0 0
    ∷ burst trxc_tchh_1 0 trxc_tchh_1 0
    ∷ burst trxc_tchh_0 1 trxc_tchh_0 1
    ∷ burst trxc_tchh_1 1 trxc_tchh_1 1
    ∷ burst trxc_tchh_0 0 trxc_tchh_0 0
    ∷ burst trxc_tchh_1 0 trxc_tchh_1 0
    ∷ burst trxc_tchh_0 1 trxc_tchh_0 1
    ∷ burst trxc_tchh_1 1 trxc_tchh_1 1
    ∷ burst trxc_tchh_0 0 trxc_tchh_0 0
    ∷ burst trxc_tchh_1 0 trxc_tchh_1 0
    ∷ burst trxc_tchh_0 1 trxc_tchh_0 1
    ∷ burst trxc_tchh_1 1 trxc_tchh_1 1
    ∷ burst trxc_sacchth_1 1 trxc_sacchth_1 1
    ∷ []

abbrev pub frame_tchh_ts67 : List Frame
frame_tchh_ts67 =
    burst trxc_tchh_0 0 trxc_tchh_0 0
    ∷ burst trxc_tchh_1 0 trxc_tchh_1 0
    ∷ burst trxc_tchh_0 1 trxc_tchh_0 1
    ∷ burst trxc_tchh_1 1 trxc_tchh_1 1
    ∷ burst trxc_tchh_0 0 trxc_tchh_0 0
    ∷ burst trxc_tchh_1 0 trxc_tchh_1 0
    ∷ burst trxc_tchh_0 1 trxc_tchh_0 1
    ∷ burst trxc_tchh_1 1 trxc_tchh_1 1
    ∷ burst trxc_tchh_0 0 trxc_tchh_0 0
    ∷ burst trxc_tchh_1 0 trxc_tchh_1 0
    ∷ burst trxc_tchh_0 1 trxc_tchh_0 1
    ∷ burst trxc_tchh_1 1 trxc_tchh_1 1
    ∷ burst trxc_sacchth_0 1 trxc_sacchth_0 1
    ∷ burst trxc_tchh_0 0 trxc_tchh_0 0
    ∷ burst trxc_tchh_1 0 trxc_tchh_1 0
    ∷ burst trxc_tchh_0 1 trxc_tchh_0 1
    ∷ burst trxc_tchh_1 1 trxc_tchh_1 1
    ∷ burst trxc_tchh_0 0 trxc_tchh_0 0
    ∷ burst trxc_tchh_1 0 trxc_tchh_1 0
    ∷ burst trxc_tchh_0 1 trxc_tchh_0 1
    ∷ burst trxc_tchh_1 1 trxc_tchh_1 1
    ∷ burst trxc_tchh_0 0 trxc_tchh_0 0
    ∷ burst trxc_tchh_1 0 trxc_tchh_1 0
    ∷ burst trxc_tchh_0 1 trxc_tchh_0 1
    ∷ burst trxc_tchh_1 1 trxc_tchh_1 1
    ∷ burst trxc_sacchth_1 1 trxc_sacchth_1 1
    ∷ burst trxc_tchh_0 0 trxc_tchh_0 0
    ∷ burst trxc_tchh_1 0 trxc_tchh_1 0
    ∷ burst trxc_tchh_0 1 trxc_tchh_0 1
    ∷ burst trxc_tchh_1 1 trxc_tchh_1 1
    ∷ burst trxc_tchh_0 0 trxc_tchh_0 0
    ∷ burst trxc_tchh_1 0 trxc_tchh_1 0
    ∷ burst trxc_tchh_0 1 trxc_tchh_0 1
    ∷ burst trxc_tchh_1 1 trxc_tchh_1 1
    ∷ burst trxc_tchh_0 0 trxc_tchh_0 0
    ∷ burst trxc_tchh_1 0 trxc_tchh_1 0
    ∷ burst trxc_tchh_0 1 trxc_tchh_0 1
    ∷ burst trxc_tchh_1 1 trxc_tchh_1 1
    ∷ burst trxc_sacchth_0 2 trxc_sacchth_0 2
    ∷ burst trxc_tchh_0 0 trxc_tchh_0 0
    ∷ burst trxc_tchh_1 0 trxc_tchh_1 0
    ∷ burst trxc_tchh_0 1 trxc_tchh_0 1
    ∷ burst trxc_tchh_1 1 trxc_tchh_1 1
    ∷ burst trxc_tchh_0 0 trxc_tchh_0 0
    ∷ burst trxc_tchh_1 0 trxc_tchh_1 0
    ∷ burst trxc_tchh_0 1 trxc_tchh_0 1
    ∷ burst trxc_tchh_1 1 trxc_tchh_1 1
    ∷ burst trxc_tchh_0 0 trxc_tchh_0 0
    ∷ burst trxc_tchh_1 0 trxc_tchh_1 0
    ∷ burst trxc_tchh_0 1 trxc_tchh_0 1
    ∷ burst trxc_tchh_1 1 trxc_tchh_1 1
    ∷ burst trxc_sacchth_1 2 trxc_sacchth_1 2
    ∷ burst trxc_tchh_0 0 trxc_tchh_0 0
    ∷ burst trxc_tchh_1 0 trxc_tchh_1 0
    ∷ burst trxc_tchh_0 1 trxc_tchh_0 1
    ∷ burst trxc_tchh_1 1 trxc_tchh_1 1
    ∷ burst trxc_tchh_0 0 trxc_tchh_0 0
    ∷ burst trxc_tchh_1 0 trxc_tchh_1 0
    ∷ burst trxc_tchh_0 1 trxc_tchh_0 1
    ∷ burst trxc_tchh_1 1 trxc_tchh_1 1
    ∷ burst trxc_tchh_0 0 trxc_tchh_0 0
    ∷ burst trxc_tchh_1 0 trxc_tchh_1 0
    ∷ burst trxc_tchh_0 1 trxc_tchh_0 1
    ∷ burst trxc_tchh_1 1 trxc_tchh_1 1
    ∷ burst trxc_sacchth_0 3 trxc_sacchth_0 3
    ∷ burst trxc_tchh_0 0 trxc_tchh_0 0
    ∷ burst trxc_tchh_1 0 trxc_tchh_1 0
    ∷ burst trxc_tchh_0 1 trxc_tchh_0 1
    ∷ burst trxc_tchh_1 1 trxc_tchh_1 1
    ∷ burst trxc_tchh_0 0 trxc_tchh_0 0
    ∷ burst trxc_tchh_1 0 trxc_tchh_1 0
    ∷ burst trxc_tchh_0 1 trxc_tchh_0 1
    ∷ burst trxc_tchh_1 1 trxc_tchh_1 1
    ∷ burst trxc_tchh_0 0 trxc_tchh_0 0
    ∷ burst trxc_tchh_1 0 trxc_tchh_1 0
    ∷ burst trxc_tchh_0 1 trxc_tchh_0 1
    ∷ burst trxc_tchh_1 1 trxc_tchh_1 1
    ∷ burst trxc_sacchth_1 3 trxc_sacchth_1 3
    ∷ burst trxc_tchh_0 0 trxc_tchh_0 0
    ∷ burst trxc_tchh_1 0 trxc_tchh_1 0
    ∷ burst trxc_tchh_0 1 trxc_tchh_0 1
    ∷ burst trxc_tchh_1 1 trxc_tchh_1 1
    ∷ burst trxc_tchh_0 0 trxc_tchh_0 0
    ∷ burst trxc_tchh_1 0 trxc_tchh_1 0
    ∷ burst trxc_tchh_0 1 trxc_tchh_0 1
    ∷ burst trxc_tchh_1 1 trxc_tchh_1 1
    ∷ burst trxc_tchh_0 0 trxc_tchh_0 0
    ∷ burst trxc_tchh_1 0 trxc_tchh_1 0
    ∷ burst trxc_tchh_0 1 trxc_tchh_0 1
    ∷ burst trxc_tchh_1 1 trxc_tchh_1 1
    ∷ burst trxc_sacchth_0 0 trxc_sacchth_0 0
    ∷ burst trxc_tchh_0 0 trxc_tchh_0 0
    ∷ burst trxc_tchh_1 0 trxc_tchh_1 0
    ∷ burst trxc_tchh_0 1 trxc_tchh_0 1
    ∷ burst trxc_tchh_1 1 trxc_tchh_1 1
    ∷ burst trxc_tchh_0 0 trxc_tchh_0 0
    ∷ burst trxc_tchh_1 0 trxc_tchh_1 0
    ∷ burst trxc_tchh_0 1 trxc_tchh_0 1
    ∷ burst trxc_tchh_1 1 trxc_tchh_1 1
    ∷ burst trxc_tchh_0 0 trxc_tchh_0 0
    ∷ burst trxc_tchh_1 0 trxc_tchh_1 0
    ∷ burst trxc_tchh_0 1 trxc_tchh_0 1
    ∷ burst trxc_tchh_1 1 trxc_tchh_1 1
    ∷ burst trxc_sacchth_1 0 trxc_sacchth_1 0
    ∷ []
