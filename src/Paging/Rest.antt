-- ===== src/Paging/Rest.antt =====
-- The rest octets of the three paging request types (append_*_rest_octets of src/common/paging.c
-- and the structures of include/osmo-bts/paging.h), as the calls of the bit vector writer.
use osmo_bts.Base.{ℕ, ◌*◌, Bool, Option, none, some, List, [], ◌∷◌, ◌++◌, if◌then◌else◌}
use osmo_bts.Osmo.{Osmo, BitOp, bit_zero, bit_one, low, high, uint, bytes}
use osmo_bts.Notification.{Notification, group_call_of}

-- The `nln_pch` part that the three structures share.
pub record NlnPch : Type 0 where
  pub present : Bool
  pub nln : ℕ
  pub nln_status : ℕ

pub record EtwsPage : Type 0 where
  pub is_first : Bool
  pub page_nr : ℕ
  pub page : List ℕ
  pub page_bytes : ℕ

pub record P1RestOctets : Type 0 where
  pub nln_pch : NlnPch
  pub page_ind_0 : Bool
  pub page_ind_1 : Bool
  pub r8_present : Bool
  pub prio_ul_access : Bool
  pub etws : Option EtwsPage  -- `none` where etws_present is false

pub record P2RestOctets : Type 0 where
  pub cneed_present : Bool
  pub cn3 : ℕ
  pub nln_pch : NlnPch

pub record P3RestOctets : Type 0 where
  pub cneed_present : Bool
  pub cn3 : ℕ
  pub cn4 : ℕ
  pub nln_pch : NlnPch

abbrev flag : Bool → BitOp
flag b = if b then high else low

abbrev binary : Bool → BitOp
binary b = if b then bit_one else bit_zero

-- append_etws_prim_notif, behind its assertion that the page has less than 128 / 8 octets.
unfoldable pub append_etws_prim_notif : EtwsPage → List BitOp
append_etws_prim_notif e =
    (if e.is_first then bit_zero else bit_one)
    ∷ uint e.page_nr 4
    ∷ bit_zero
    ∷ uint (e.page_bytes * 8) 7
    ∷ bytes e.page
    ∷ []

abbrev nln_item : NlnPch → List BitOp
nln_item n = if n.present then high ∷ uint n.nln 2 ∷ uint n.nln_status 1 ∷ [] else low ∷ []

abbrev group_call_item : Osmo → Option Notification → List BitOp
group_call_item o none = low ∷ []
group_call_item o (some n) = high ∷ group_call_of o n

abbrev etws_item : Option EtwsPage → List BitOp
unfolding append_etws_prim_notif
etws_item none = bit_zero ∷ []
etws_item (some e) = bit_one ∷ append_etws_prim_notif e

unfoldable pub append_p1_rest_octets : Osmo → P1RestOctets → Option Notification → List BitOp
unfolding etws_item
append_p1_rest_octets o p notif =
    nln_item p.nln_pch
    ++ (low
        ∷ low
        ∷ (group_call_item o notif
            ++ (flag p.page_ind_0
                ∷ flag p.page_ind_1
                ∷ low
                ∷ low
                ∷ (if p.r8_present
                    then high ∷ binary p.prio_ul_access ∷ etws_item p.etws
                    else []))))

unfoldable pub append_p2_rest_octets : P2RestOctets → List BitOp
append_p2_rest_octets p =
    (if p.cneed_present then high ∷ uint p.cn3 2 ∷ [] else low ∷ []) ++ nln_item p.nln_pch

unfoldable pub append_p3_rest_octets : P3RestOctets → List BitOp
append_p3_rest_octets p =
    (if p.cneed_present then high ∷ uint p.cn3 2 ∷ uint p.cn4 2 ∷ [] else low ∷ [])
    ++ nln_item p.nln_pch
