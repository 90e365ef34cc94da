-- ===== src/Paging/Etws.antt =====
-- The primary notification of the earthquake and tsunami warning system: rsl_rx_osmo_etws_cmd of
-- src/common/rsl.c, which stores it, and build_p1_rest_octets of src/common/paging.c, which cuts
-- the next page from it.
use osmo_bts.Base.{
  ℕ, ◌+◌, ◌-◌, ◌*◌, ◌/◌, ◌%◌, ◌^◌, true, false, not, Option, none, some, List, [], length, take,
  drop, ltb, ◌==◌, if◌then◌else◌,
}
use osmo_bts.Paging.Types.{Etws}
use osmo_bts.Paging.Rest.{NlnPch, P1RestOctets}

-- The branch of rsl_rx_osmo_etws_cmd behind the checks of the message: an empty notification turns
-- the warning off. `num_pages` is a uint8_t.
unfoldable pub etws_cmd : List ℕ → Etws → Etws
etws_cmd notif e =
    if length notif == 0
    then record e {
      prim_notif = none;
      prim_notif_len = 0;
      page_size = 0;
      num_pages = 0;
      next_page = 0;
    }
    else record e {
      prim_notif = some notif;
      prim_notif_len = length notif;
      page_size = 14;
      num_pages =
          (if length notif % 14 == 0
            then length notif / 14 % 256
            else (length notif / 14 % 256 + 1) % 256);
      pni = not e.pni;
    }

abbrev no_nln : NlnPch
no_nln = record { present = false; nln = 0; nln_status = 0 }

-- The octets of the stored notification; there are none behind the NULL pointer.
abbrev pub octets_of : Option (List ℕ) → List ℕ
octets_of none = []
octets_of (some l) = l

-- The size of the page that starts at `offset`; the source's size_t wraps where the offset lies
-- behind the end.
abbrev pub page_bytes : Etws → ℕ
page_bytes e =
    if ltb e.next_page (e.num_pages - 1)
    then e.page_size
    else (e.prim_notif_len + 2 ^ 64 - e.page_size * e.next_page) % 2 ^ 64

-- build_p1_rest_octets; it runs while a notification is stored, so `num_pages` is not 0.
unfoldable pub build_p1_rest_octets : Etws → P1RestOctets × Etws
build_p1_rest_octets e =
    let offset = e.page_size * e.next_page in
    (
      record {
        nln_pch = no_nln;
        page_ind_0 = false;
        page_ind_1 = false;
        r8_present = true;
        prio_ul_access = false;
        etws = some (record {
          is_first = e.next_page == 0;
          page_nr = (if e.next_page == 0 then e.num_pages else e.next_page + 1);
          page = take (page_bytes e) (drop offset (octets_of e.prim_notif));
          page_bytes = page_bytes e;
        });
      },
      record e { next_page = (e.next_page + 1) % e.num_pages },
    )
