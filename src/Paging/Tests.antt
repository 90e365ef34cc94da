-- ===== src/Paging/Tests.antt =====
-- The theorems on paging at concrete states.
use osmo_bts.Base.{
  ℕ, ◌+◌, ◌^◌, ◌≤◌, ◌≡◌, refl, Bool, true, false, List, [], ◌∷◌, ◌++◌, replicate, ltb, arith,
}
use osmo_bts.Osmo.Sample.{libosmo, libosmo-laws}
use osmo_bts.Paging.Types.{PagingRecord, normal, macblock, Paging, eexist, num_queues}
use osmo_bts.Paging.Sample.{off, bts0, desc0, time0}
use osmo_bts.Paging.Queue.{
  add_checked, after_search, enqueue, refresh, add_identity, queue_of, init, stored_identity,
  check_congestion,
}
use osmo_bts.Paging.Gen.{gen_msg, pr_is_imsi, sort_pr_tmsi_imsi}
use osmo_bts.Paging.Sorting.{tmsis, imsis, sort_pr_tmsi_imsi_lem}
use osmo_bts.Paging.Counting.{count, count_all}
use osmo_bts.Paging.Invariant.{IsValid}
use osmo_bts.Paging.Delivery.{pages, blocks, serves, run, run-init-IsValid}
use osmo_bts.Paging.NoLoss.{SelectsPending, gen_msg_keeps_pages}
use osmo_bts.Paging.Duplicates.{add_identity_twice}
use osmo_bts.Paging.Etws.{etws_cmd, page_bytes}
use osmo_bts.Paging.Pages.{IsCut, pages_roundtrip, etws_cmd_stale, etws_rest_fits, etws_cmd-IsCut}
use osmo_bts.Paging.Pages

abbrev tmsi : List ℕ
tmsi = 5 ∷ 0xf4 ∷ 1 ∷ 2 ∷ 3 ∷ 4 ∷ []

abbrev imsi : List ℕ
imsi = 8 ∷ 0x29 ∷ 1 ∷ 2 ∷ 3 ∷ 4 ∷ 5 ∷ 6 ∷ 7 ∷ []

abbrev page_tmsi : PagingRecord
page_tmsi = normal 100 0 (5 ∷ 0xf4 ∷ 1 ∷ 2 ∷ 3 ∷ 4 ∷ 0 ∷ 0 ∷ 0 ∷ [])

abbrev page_imsi : PagingRecord
page_imsi = normal 20 1 imsi

abbrev mac : PagingRecord
mac = macblock [] true 7

-- One page of each kind, in group 8, and a block of the PCU behind them.
abbrev queued : Paging
queued = record (init_state) {
  paging_queue = replicate 8 [] ++ ((page_imsi ∷ page_tmsi ∷ []) ∷ ((mac ∷ []) ∷ replicate 71 []));
  num_paging = 2;
}
  where
    init_state : Paging
    init_state = record {
      bts = bts0;
      chan_desc = desc0;
      paging_lifetime = 10;
      num_paging_max = 200;
      num_paging = 0;
      paging_queue = [];
      cs_priority_active = false;
    }

queued-IsValid : IsValid queued
unfolding count_all count
queued-IsValid = record {
  queues = refl;
  counted = refl;
  limit = omega arith;
  bounded = omega arith;
  mfrms = omega arith;
}

run-init-IsValid_example : IsValid (
    run libosmo
      (init bts0 200 10)
      (pages true 5 8 tmsi 0 ∷ blocks true 7 [] true [] ∷ serves 6 time0 ∷ []))
run-init-IsValid_example =
    run-init-IsValid libosmo bts0 200 10
      (pages true 5 8 tmsi 0 ∷ blocks true 7 [] true [] ∷ serves 6 time0 ∷ []) libosmo-laws
      (omega arith)

-- The pages that expire after 50.
abbrev late : PagingRecord → Bool
late (normal e n lv) = ltb 50 e
late (macblock m c i) = false

late-SelectsPending : SelectsPending 50 late
late-SelectsPending (normal e n lv) h = (refl, ground arith)
late-SelectsPending (macblock m c i) h = absurd (ground arith)

gen_msg_keeps_pages_example :
    count late (queue_of (gen_msg libosmo 50 time0 queued).state 8) ≡ count late (queue_of queued 8)
gen_msg_keeps_pages_example =
    gen_msg_keeps_pages libosmo 50 time0 queued late 8 libosmo-laws queued-IsValid
      late-SelectsPending

sort_pr_tmsi_imsi_lem_example :
    sort_pr_tmsi_imsi (page_imsi ∷ page_tmsi ∷ []) ≡ page_tmsi ∷ page_imsi ∷ []
unfolding tmsis imsis pr_is_imsi
sort_pr_tmsi_imsi_lem_example = sort_pr_tmsi_imsi_lem (page_imsi ∷ page_tmsi ∷ [])

abbrev fresh : Paging
fresh = record queued { paging_queue = replicate num_queues []; num_paging = 0 }

abbrev fresh_queued : Paging
fresh_queued = (add_identity libosmo true 5 8 tmsi 0 fresh).0

add_identity_twice_example :
    ((add_identity libosmo true 7 8 tmsi 0 fresh_queued).1 ≡ eexist)
    × (queue_of (add_identity libosmo true 7 8 tmsi 0 fresh_queued).0 8
        ≡ normal (7 + fresh_queued.paging_lifetime) 0 (stored_identity tmsi) ∷ queue_of fresh 8)
    × ((add_identity libosmo true 7 8 tmsi 0 fresh_queued).0.num_paging ≡ fresh_queued.num_paging)
unfolding add_identity check_congestion add_checked after_search enqueue refresh
add_identity_twice_example =
    add_identity_twice libosmo true true 5 7 8 5 (0xf4 ∷ 1 ∷ 2 ∷ 3 ∷ 4 ∷ []) 0 0 fresh fresh_queued
      refl (omega arith) (omega arith) (omega arith)

abbrev warning : List ℕ
warning = replicate 20 0xaa

pages_roundtrip_example :
    Pages.pages (etws_cmd warning off).num_pages (etws_cmd warning off) ≡ warning
pages_roundtrip_example = pages_roundtrip warning off refl (omega arith) (omega arith)

etws_cmd_stale_example : 2 ^ 63 ≤ page_bytes (etws_cmd warning (record off { next_page = 3 }))
etws_cmd_stale_example =
    etws_cmd_stale warning (record off { next_page = 3 }) (omega arith) (omega arith) (omega arith)
