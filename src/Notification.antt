-- ===== src/Notification.antt =====
-- src/common/notification.c: the list of ongoing voice group and broadcast calls (ASCI) and the
-- messages that announce them on the notification channel (NCH) and on FACCH.
pub mod Cycle
mod Tests
use osmo_bts.Base.{
  ℕ, zero, suc, ◌+◌, ◌-◌, ◌*◌, ◌%◌, ◌≡◌, Bool, true, false, ◌&&◌, Option, none, some, List, [], ◌∷◌,
  ◌++◌, length, replicate, map, leb, ◌==◌, if◌then◌else◌,
}
use osmo_bts.Osmo.{Osmo, BitOp, bit_zero, bit_one, low, high, uint, bytes}

-- The outcome of an operation: the error numbers that the source returns.
pub data Status : Type 0 where
  done exists no_memory no_device : Status

pub record Notification : Type 0 where
  pub group_call_ref : List ℕ
  pub chan_present : Bool
  pub chan_value : List ℕ
  pub chan_len : ℕ

-- `bts->asci`; `drx_info` is not read by this file and has no field here.
pub record Asci : Type 0 where
  pub notifications : List Notification
  pub entries : ℕ  -- notification_entries
  pub count : ℕ  -- notification_count
  pub nln : ℕ
  pub nln_status : ℕ

-- memcmp over two octet strings of one length
abbrev pub same_octets : List ℕ → List ℕ → Bool
same_octets [] [] = true
same_octets [] (y ∷ ys) = false
same_octets (x ∷ xs) [] = false
same_octets (x ∷ xs) (y ∷ ys) = (x == y) && same_octets xs ys

-- bts_asci_notification_find
unfoldable pub find : List ℕ → List Notification → Option Notification
find ref [] = none
find ref (n ∷ ns) = if same_octets n.group_call_ref ref then some n else find ref ns

-- llist_del of the first entry that `find` returns
pub remove : List ℕ → List Notification → List Notification
remove ref [] = []
remove ref (n ∷ ns) = if same_octets n.group_call_ref ref then ns else n ∷ remove ref ns

abbrev fresh_notification : List ℕ → Option (List ℕ) → Notification
fresh_notification ref none = record {
  group_call_ref = ref;
  chan_present = false;
  chan_value = [];
  chan_len = 0;
}
fresh_notification ref (some d) =
    if length d == 0
    then record { group_call_ref = ref; chan_present = false; chan_value = []; chan_len = 0 }
    else record { group_call_ref = ref; chan_present = true; chan_value = d; chan_len = length d }

-- bts_asci_notification_add; `memory` is whether talloc_zero finds room.
pub add : Bool → List ℕ → Option (List ℕ) → Asci → Asci × Status
unfolding find
add memory ref desc a = elim (find ref a.notifications) [
  | some n ↦ (a, exists)
  | none ↦
      if memory
      then (
        record a {
          notifications = fresh_notification ref desc ∷ a.notifications;
          entries = a.entries + 1;
          count = 0;
          nln = (a.nln + 1) % 4;
        },
        done,
      )
      else (a, no_memory)
]

-- bts_asci_notification_del
pub del : List ℕ → Asci → Asci × Status
unfolding find remove
del ref a = elim (find ref a.notifications) [
  | none ↦ (a, no_device)
  | some n ↦ (
    record a {
      notifications = remove ref a.notifications;
      entries = a.entries - 1;
      count = 0;
      nln_status = (a.nln_status + 1) % 2;
    },
    done,
  )
]

-- bts_asci_notification_reset
pub reset : Asci → Asci
reset a = record a {
  notifications = [];
  entries = 0;
  count = 0;
  nln_status = (a.nln_status + 1) % 2;
}

-- bts_asci_notification_get_next: the first entry, which moves to the end.
abbrev rotate : List Notification → List Notification
rotate [] = []
rotate (n ∷ ns) = ns ++ n ∷ []

abbrev pub first : List Notification → Option Notification
first [] = none
first (n ∷ ns) = some n

pub get_next : Asci → Asci × Option Notification
get_next a = (record a { notifications = rotate a.notifications }, first a.notifications)

module _ (o : Osmo) where
  -- The first `n` bits of an octet string, as single writes.
  unfoldable pub bits : ℕ → ℕ → List ℕ → List BitOp
  bits zero i octets = []
  bits (suc n) i octets = (if o.bit_pos octets i then bit_one else bit_zero) ∷ bits n (i + 1) octets

  -- append_group_call_information; a channel description of `none` is the NULL pointer.
  unfoldable pub append_group_call_information : List ℕ → Option (List ℕ) → ℕ → List BitOp
  unfolding bits
  append_group_call_information gcr none len = bits 36 0 gcr ++ bit_zero ∷ []
  append_group_call_information gcr (some d) len =
      bits 36 0 gcr
      ++ (if len == 0 then bit_zero ∷ [] else bit_one ∷ (bits (len * 8) 0 d ++ bit_zero ∷ []))

  -- `notif->chan_desc.present ? notif->chan_desc.value : NULL`
  unfoldable pub group_call_of : Notification → List BitOp
  unfolding append_group_call_information
  group_call_of n =
      append_group_call_information n.group_call_ref
        (if n.chan_present then some n.chan_value else none) n.chan_len

  abbrev listed : Option Notification → List BitOp
  unfolding group_call_of
  listed none = []
  listed (some n) = bit_one ∷ group_call_of n

  -- The first item: the NLN, if this message is the last of a round.
  abbrev pub nln_item : Asci → List BitOp
  nln_item a = if leb a.entries (a.count + 1) then bit_one ∷ uint a.nln 2 ∷ [] else bit_zero ∷ []

  abbrev pub count_up : Asci → Asci
  count_up a =
      if leb a.entries (a.count + 1)
      then record a { count = 0 }
      else record a { count = a.count + 1 }

  -- bts_asci_notify_nch_gen_msg: the new state and what is written behind the header, `gsm_macblock_len`
  -- octets less the header's.
  pub nch_gen_msg : Asci → Asci × List BitOp
  unfolding get_next listed
  nch_gen_msg a =
      let (a', notif) = get_next a in (count_up a', nln_item a' ++ (listed notif ++ bit_zero ∷ []))

  -- The octets behind the header of a message of 23 octets.
  pub nch_rest : Asci → List ℕ
  unfolding nch_gen_msg
  nch_rest a = o.bitvec_write (replicate (23 - o.nch_size) 0x2b) (nch_gen_msg a).1

  -- bts_asci_notify_facch_gen_msg
  pub facch_gen_msg : List ℕ → Option (List ℕ) → ℕ → List ℕ
  unfolding append_group_call_information
  facch_gen_msg ref desc len =
      o.bitvec_write (replicate (23 - o.sh_size) 0x2b)
        (bit_zero ∷ append_group_call_information ref desc len)
