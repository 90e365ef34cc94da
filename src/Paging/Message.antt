-- ===== src/Paging/Message.antt =====
-- fill_paging_type_1/2/3 of src/common/paging.c: a paging request of 23 octets, as the fields of
-- its header, the octets of its mobile identities and its rest octets.
use Prim.Native.Nat.{bit_and}
use osmo_bts.Base.{
  ℕ, ◌+◌, ◌-◌, ◌*◌, ◌%◌, Option, none, some, List, [], ◌++◌, length, take, drop, get_or, replicate,
  ltb, ◌==◌, if◌then◌else◌,
}
use osmo_bts.Osmo.{Osmo}
use osmo_bts.Notification.{Notification}
use osmo_bts.Paging.Types.{gsm_macblock_len}
use osmo_bts.Paging.Rest.{
  P1RestOctets, P2RestOctets, P3RestOctets, append_p1_rest_octets, append_p2_rest_octets,
  append_p3_rest_octets,
}

-- L2_PLEN
abbrev pub l2_plen : ℕ → ℕ
l2_plen len = (len - 1) * 4 + 1

-- GSM_MACBLOCK_PADDING
abbrev padding : ℕ
padding = 0x2b

-- The `mobile identity` element of 3GPP TS 24.008: its tag and the codes of its types.
abbrev mobile_id_tag : ℕ
mobile_id_tag = 0x17

abbrev pub mi_type_imsi : ℕ
mi_type_imsi = 1

abbrev pub mi_type_tmsi : ℕ
mi_type_tmsi = 4

-- What `out_buf` holds: `len` is what the pointer `cur` has come to before the padding, `tail` the
-- identities behind the header's fields and `rest` what follows up to 23 octets.
pub data OutBuf : Type 0 where
  type_1 : (plen cneed1 cneed2 : ℕ) → (tail rest : List ℕ) → OutBuf
  type_2 :
      (plen cneed1 cneed2 : ℕ) → (tmsi1 tmsi2 : Option (List ℕ)) → (tail rest : List ℕ) → OutBuf
  type_3 :
      (plen cneed1 cneed2 : ℕ)
      → (tmsi1 tmsi2 tmsi3 tmsi4 : Option (List ℕ)) → (rest : List ℕ) → OutBuf
  mac_block : (msg : List ℕ) → OutBuf
  untouched : OutBuf

-- tmsi_mi_to_uint: the four octets of the TMSI, or `none` for -EINVAL.
unfoldable pub tmsi_mi_to_uint : List ℕ → Option (List ℕ)
tmsi_mi_to_uint lv =
    if ltb (get_or lv 0 0) 5
    then none
    else if get_or lv 1 0 % 8 == mi_type_tmsi
    then some (take 4 (drop 2 lv))
    else none

module _ (o : Osmo) where
  abbrev put_lv : List ℕ → List ℕ
  put_lv lv = o.lv_put (get_or lv 0 0) (drop 1 lv)

  abbrev put_tlv : Option (List ℕ) → List ℕ
  put_tlv none = []
  put_tlv (some lv) = o.tlv_put mobile_id_tag (get_or lv 0 0) (drop 1 lv)

  -- The octets that the rest octets are written over.
  abbrev pub padded_rest : ℕ → List ℕ
  padded_rest len = replicate (gsm_macblock_len - len) padding

  -- The octets of the two identities of a request of type 1.
  unfoldable pub identities_1 : List ℕ → Option (List ℕ) → List ℕ
  identities_1 id1 id2 = put_lv id1 ++ put_tlv id2

  abbrev rest_1 : ℕ → Option P1RestOctets → Option Notification → List ℕ
  unfolding append_p1_rest_octets
  rest_1 len none notif = padded_rest len
  rest_1 len (some p) notif = o.bitvec_write (padded_rest len) (append_p1_rest_octets o p notif)

  unfoldable pub fill_paging_type_1 :
      List ℕ → ℕ → Option (List ℕ) → ℕ → Option P1RestOctets → Option Notification → OutBuf
  unfolding identities_1 rest_1
  fill_paging_type_1 id1 chan1 id2 chan2 p1ro notif =
      let tail = identities_1 id1 id2 in
      let len = o.paging1_size + length tail in
      type_1 (l2_plen len) (bit_and chan1 3) (bit_and chan2 3) tail (rest_1 len p1ro notif)

  unfoldable pub identity_2 : Option (List ℕ) → List ℕ
  identity_2 id3 = put_tlv id3

  unfoldable pub fill_paging_type_2 :
      List ℕ → ℕ → List ℕ → ℕ → Option (List ℕ) → Option P2RestOctets → OutBuf
  unfolding identity_2 tmsi_mi_to_uint append_p2_rest_octets
  fill_paging_type_2 tmsi1 cneed1 tmsi2 cneed2 id3 p2ro =
      let tail = identity_2 id3 in
      let len = o.paging2_size + length tail in
      type_2 (l2_plen len) cneed1 cneed2 (tmsi_mi_to_uint tmsi1) (tmsi_mi_to_uint tmsi2) tail
        (elim p2ro [
          | none ↦ padded_rest len
          | some p ↦ o.bitvec_write (padded_rest len) (append_p2_rest_octets p)
        ])

  unfoldable pub fill_paging_type_3 :
      List ℕ → ℕ → List ℕ → ℕ → List ℕ → List ℕ → Option P3RestOctets → OutBuf
  unfolding tmsi_mi_to_uint append_p3_rest_octets
  fill_paging_type_3 tmsi1 cneed1 tmsi2 cneed2 tmsi3 tmsi4 p3ro =
      type_3 (l2_plen 20) cneed1 cneed2 (tmsi_mi_to_uint tmsi1) (tmsi_mi_to_uint tmsi2)
        (tmsi_mi_to_uint tmsi3) (tmsi_mi_to_uint tmsi4)
        (elim p3ro [
          | none ↦ padded_rest 20
          | some p ↦ o.bitvec_write (padded_rest 20) (append_p3_rest_octets p)
        ])
