-- ===== src/Paging/Sample.antt =====
-- A station and a frame, for tests.
use osmo_bts.Base.{[], none, false}
use osmo_bts.Base.Int.{negsuc}
use osmo_bts.Osmo.{ChanDesc}
use osmo_bts.Paging.Types.{Etws, Bts}
use osmo_bts.Paging.Time.{GsmTime}

abbrev pub off : Etws
off = record {
  prim_notif = none;
  prim_notif_len = 0;
  page_size = 0;
  num_pages = 0;
  next_page = 0;
  pni = false;
}

abbrev pub bts0 : Bts
bts0 = record {
  ctrs = record { rcvd = 0; dropped = 0; dropped_ps = 0; sent = 0; congested = 0 };
  pch_total = 0;
  pch_used = 0;
  etws = off;
  pos_nch = negsuc 0;
  nln = 0;
  nln_status = 0;
  pcu_confirms = [];
}

abbrev pub desc0 : ChanDesc
desc0 = record { bs_ag_blks_res = 1; bs_pa_mfrms = 2 }

-- Frame 6 of the second multiframe is block 1 of the paging channel's first two.
abbrev pub time0 : GsmTime
time0 = record { fn = 63; t3 = 12 }
