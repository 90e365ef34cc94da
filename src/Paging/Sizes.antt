-- ===== src/Paging/Sizes.antt =====
-- What the messages of src/common/paging.c need of their 23 octets.
use osmo_bts.Base.{
  ℕ, ◌+◌, ◌*◌, ◌≤◌, ◌≡◌, true, false, none, some, List, [], ◌∷◌, ◌++◌, length, get_or, drop, arith,
  length-append,
}
use osmo_bts.Osmo.{Osmo, OsmoLaws, BitOp, bit_zero, bit_one, low, high, uint, bytes}
use osmo_bts.Paging.Types.{gsm_macblock_len}
use osmo_bts.Paging.Rest.{
  EtwsPage, P1RestOctets, P2RestOctets, P3RestOctets, append_p1_rest_octets, append_p2_rest_octets,
  append_p3_rest_octets, append_etws_prim_notif,
}
use osmo_bts.Paging.Message.{identities_1, identity_2}

-- The bits that a call of the writer takes, and those of all calls.
abbrev pub width : BitOp → ℕ
width bit_zero = 1
width bit_one = 1
width low = 1
width high = 1
width (uint v n) = n
width (bytes l) = length l * 8

pub bits_of : List BitOp → ℕ
bits_of [] = 0
bits_of (op ∷ ops) = width op + bits_of ops

bits_of-append : (xs ys : List BitOp) → bits_of (xs ++ ys) ≡ bits_of xs + bits_of ys
unfolding bits_of
bits_of-append [] ys = omega arith
bits_of-append (x ∷ xs) ys = omega (arith, bits_of-append xs ys)

-- A length-value identity of at most nine octets.
abbrev pub IsIdentity : List ℕ → Type 0
IsIdentity id = get_or id 0 0 ≤ 8

-- With identities of at most nine octets, a request of type 1 fits in 23 octets and one of type 2
-- leaves an octet of them.
pub type_1_fits :
    (o : Osmo) (id1 id2 : List ℕ)
    → OsmoLaws o
    → IsIdentity id1
    → IsIdentity id2
    → (o.paging1_size + length (identities_1 o id1 none) ≤ gsm_macblock_len)
      × (o.paging1_size + length (identities_1 o id1 (some id2)) ≤ gsm_macblock_len)
      × (o.paging2_size + length (identity_2 o (some id1)) + 1 ≤ gsm_macblock_len)
unfolding identities_1 identity_2
type_1_fits o id1 id2 laws h1 h2 =
    let lv = laws.length-lv (get_or id1 0 0) (drop 1 id1) in
    let tlv1 = laws.length-tlv 0x17 (get_or id1 0 0) (drop 1 id1) in
    let tlv2 = laws.length-tlv 0x17 (get_or id2 0 0) (drop 1 id2) in
    (
      omega
          (arith, laws.paging1_lem, lv, length-append (o.lv_put (get_or id1 0 0) (drop 1 id1)) []),
      omega (
        arith,
        laws.paging1_lem,
        lv,
        tlv2,
        length-append (o.lv_put (get_or id1 0 0) (drop 1 id1))
            (o.tlv_put 0x17 (get_or id2 0 0) (drop 1 id2)),
      ),
      omega (arith, laws.paging2_lem, tlv1),
    )

-- The rest octets of type 2 fit in the one octet that a nine octet identity leaves, those of type 3
-- in its three octets.
pub p2_p3_fit :
    (p : P2RestOctets) (q : P3RestOctets)
    → (bits_of (append_p2_rest_octets p) ≤ 8) × (bits_of (append_p3_rest_octets q) ≤ 24)
unfolding append_p2_rest_octets append_p3_rest_octets bits_of
p2_p3_fit p q = ground arith

-- The rest octets of type 1 with a page of a warning, no list number and no group call take 24 bits
-- besides the page.
pub p1_etws_bits :
    (o : Osmo) (p : P1RestOctets) (e : EtwsPage)
    → p.nln_pch.present ≡ false
    → p.r8_present ≡ true
    → p.etws ≡ some e
    → bits_of (append_p1_rest_octets o p none) ≡ 24 + length e.page * 8
unfolding append_p1_rest_octets append_etws_prim_notif bits_of
p1_etws_bits o p e h r s = ground arith
