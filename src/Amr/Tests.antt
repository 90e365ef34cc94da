-- ===== src/Amr/Tests.antt =====
-- The adaptive multi-rate codec of src/common/amr.c and src/osmo-bts-trx/amr_loop.c on concrete
-- configurations.
use osmo_bts.Base.{◌+◌, ◌≡◌, ◌<◌, refl, List, [], ◌∷◌, some, arith, true}
use osmo_bts.Base.Int.{pos}
use osmo_bts.Amr.Conf.{
  AmrConf, amr_fr_bts_mode_def, amr_parse_mr_conf, count_codecs, bit, codecs, amr_get_initial_mode,
  get_amr_mode_idx, mode_idx_from,
}
use osmo_bts.Amr.Loop.{ChanState}
use osmo_bts.Amr.Codecs.{members}
use osmo_bts.Amr.Coding.{Limit, encode, active_codecs, active_limits, parse-encode}
use osmo_bts.Amr.Windows.{blocks, blocks-settle}

abbrev default_conf : AmrConf
default_conf = record { ie0 = 32; ie1 = 149; modes = amr_fr_bts_mode_def; num_modes = 4 }

abbrev three_limits : List Limit
three_limits =
    record { threshold = 13; hysteresis = 4 }
    ∷ record { threshold = 25; hysteresis = 4 }
    ∷ record { threshold = 63; hysteresis = 15 }
    ∷ []

four_codecs : count_codecs 149 codecs ≡ 4
unfolding count_codecs bit
four_codecs = refl

third_codec : get_amr_mode_idx default_conf 5 ≡ some 2
unfolding get_amr_mode_idx mode_idx_from
third_codec = refl

-- The initial mode that a BSC names is taken as it is, also where there is no such mode.
initial_mode_unchecked : amr_get_initial_mode true 3 2 ≡ 3
unfolding amr_get_initial_mode
initial_mode_unchecked = refl

parse-encode_example :
    (d : AmrConf) × (amr_parse_mr_conf default_conf (encode 4 149 three_limits) ≡ some d)
    × (active_codecs d ≡ members 149 codecs)
    × (active_limits d ≡ three_limits)
parse-encode_example =
    parse-encode default_conf 4 149 three_limits refl (omega arith) four_codecs (omega arith) refl

abbrev start : ChanState
start = record { lqual_cb_num = 0; lqual_cb_sum = pos 0; ul_ft = 2; dl_cmr = 0; num_codecs = 4 }

blocks-settle_example :
    ((blocks amr_fr_bts_mode_def (pos 150) (144 + 30) start).dl_cmr
      ≡ (blocks amr_fr_bts_mode_def (pos 150) 144 start).dl_cmr)
    × ((blocks amr_fr_bts_mode_def (pos 150) 144 start).dl_cmr < 4)
blocks-settle_example =
    blocks-settle amr_fr_bts_mode_def (pos 150) start 30 refl refl (omega arith) (omega arith)
