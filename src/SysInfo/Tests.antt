-- ===== src/SysInfo/Tests.antt =====
-- The choice of the system information of src/common/sysinfo.c for concrete stations.
use osmo_bts.Base.{◌≡◌, refl, true, length, all, arith}
use osmo_bts.SysInfo.Choice.{si13, SysInfo, tc4_sub, only_if}
use osmo_bts.SysInfo.Turns.{run, sends}
use osmo_bts.SysInfo.Mapping.{sends-needed}
use osmo_bts.SysInfo.Soundness.{is_allowed, run-allowed}

-- A station with all messages, three of them of type 2quater.
abbrev full : SysInfo
full = record { has = λ t. true; tc4_ctr = 2; si2q_index = 1; si2q_count = 2 }

four_share : length (tc4_sub full true) ≡ 4
unfolding tc4_sub only_if
four_share = refl

sends-needed_example : sends si13 (run full true 0 32) ≡ true
sends-needed_example = sends-needed full true si13 refl

run-allowed_example :
    (length (run full true 3 9) ≡ 9) × (all (is_allowed full true) (run full true 3 9) ≡ true)
run-allowed_example = run-allowed full true 3 9 (omega arith) (omega arith)
