-- ===== src/Paging/Gen.antt =====
-- paging_gen_msg of src/common/paging.c: what the paging channel sends in a block, and what becomes
-- of the records that it took from the queue.
use osmo_bts.Base.{
  ℕ, zero, suc, ◌+◌, ◌-◌, ◌%◌, Bool, true, false, not, ◌&&◌, Option, none, some, List, [], ◌∷◌,
  ◌++◌, length, get_or, leb, ◌==◌, if◌then◌else◌,
}
use osmo_bts.Base.Int.{pos, leb_ℤ}
use osmo_bts.Osmo.{Osmo}
use osmo_bts.Paging.Types.{
  PagingRecord, normal, macblock, Counters, Bts, Paging, gsm_macblock_len, u32_mod,
}
use osmo_bts.Paging.Rest.{NlnPch, P1RestOctets}
use osmo_bts.Paging.Message.{
  OutBuf, mac_block, untouched, fill_paging_type_1, fill_paging_type_2, fill_paging_type_3,
  mi_type_imsi,
}
use osmo_bts.Paging.Time.{GsmTime, get_pag_subch_nr}
use osmo_bts.Paging.Queue.{check_congestion, count_on, queue_of, put_queue}
use osmo_bts.Paging.Etws.{build_p1_rest_octets}

-- `pr->u.normal`, which the code below reads of normal records only.
abbrev pub identity_lv : PagingRecord → List ℕ
identity_lv (normal e n lv) = lv
identity_lv (macblock m c i) = []

abbrev pub chan_needed : PagingRecord → ℕ
chan_needed (normal e n lv) = n
chan_needed (macblock m c i) = 0

abbrev pub expiration_time : PagingRecord → ℕ
expiration_time (normal e n lv) = e
expiration_time (macblock m c i) = 0

-- `pr_is_imsi`
unfoldable pub pr_is_imsi : PagingRecord → Bool
pr_is_imsi r = get_or (identity_lv r) 1 0 % 8 == mi_type_imsi

-- `pr_is_imsi(a) > pr_is_imsi(b)`
abbrev pub out_of_order : PagingRecord → PagingRecord → Bool
out_of_order a b = pr_is_imsi a && not (pr_is_imsi b)

-- The inner loop of sort_pr_tmsi_imsi: `k` comparisons of neighbours, from the front.
unfoldable pub bubble : ℕ → List PagingRecord → List PagingRecord
bubble zero xs = xs
bubble (suc k) [] = []
bubble (suc k) (a ∷ []) = a ∷ []
bubble (suc k) (a ∷ b ∷ xs) =
    (if out_of_order a b then b else a) ∷ bubble k ((if out_of_order a b then a else b) ∷ xs)

-- The outer loop: one comparison less in each round.
unfoldable pub bubble_rounds : ℕ → List PagingRecord → List PagingRecord
bubble_rounds zero xs = xs
bubble_rounds (suc k) xs = bubble_rounds k (bubble (suc k) xs)

-- sort_pr_tmsi_imsi
unfoldable pub sort_pr_tmsi_imsi : List PagingRecord → List PagingRecord
sort_pr_tmsi_imsi xs = bubble_rounds (length xs - 1) xs

-- What the first loop takes from the queue: the normal records in order, the MAC block that ended
-- it, and what it leaves.
pub record Taken : Type 0 where
  pub records : List PagingRecord
  pub block : Option PagingRecord
  pub rest : List PagingRecord

abbrev take_more : PagingRecord → Taken → Taken
take_more r t = record t { records = r ∷ t.records }

unfoldable pub collect : ℕ → List PagingRecord → Taken
collect zero q = record { records = []; block = none; rest = q }
collect (suc n) [] = record { records = []; block = none; rest = [] }
collect (suc n) (macblock m c i ∷ q) = record {
  records = [];
  block = some (macblock m c i);
  rest = q;
}
collect (suc n) (normal e c lv ∷ q) = take_more (normal e c lv) (collect n q)

unfoldable pub count_imsi : List PagingRecord → ℕ
count_imsi [] = 0
count_imsi (r ∷ rs) = (if pr_is_imsi r then 1 else 0) + count_imsi rs

-- llist_add of each record in turn.
unfoldable pub add_heads : List PagingRecord → List PagingRecord → List PagingRecord
add_heads [] q = q
add_heads (r ∷ rs) q = add_heads rs (r ∷ q)

-- `bts->asci`, in the rest octets of each type.
abbrev nln_pch : Bts → NlnPch
nln_pch b = record { present = leb_ℤ (pos 0) b.pos_nch; nln = b.nln; nln_status = b.nln_status }

-- memset(&p1ro, 0, sizeof(p1ro)), and the NLN
abbrev empty_p1 : Bts → P1RestOctets
empty_p1 b = record {
  nln_pch = nln_pch b;
  page_ind_0 = false;
  page_ind_1 = false;
  r8_present = false;
  prio_ul_access = false;
  etws = none;
}

-- empty_id_lv
abbrev empty_id_lv : List ℕ
empty_id_lv = 0x01 ∷ 0xf0 ∷ []

-- The choice of the type by the number of records and of IMSIs among them: the message, the records
-- that it pages and those that wait for the next time. No list here has more than four entries.
pub record Choice : Type 0 where
  pub msg : OutBuf
  pub paged : List PagingRecord
  pub kept : List PagingRecord

module _ (o : Osmo) where
  type_1_of : PagingRecord → PagingRecord → OutBuf
  type_1_of a b =
      fill_paging_type_1 o (identity_lv a) (chan_needed a) (some (identity_lv b)) (chan_needed b)
        none none

  unfoldable pub choose : Bts → ℕ → List PagingRecord → Choice
  unfolding type_1_of
  choose bts n_imsi (a ∷ b ∷ c ∷ d ∷ xs) =
      if n_imsi == 0
      then record {
        msg =
            fill_paging_type_3 o (identity_lv a) (chan_needed a) (identity_lv b) (chan_needed b)
              (identity_lv c) (identity_lv d)
              (some (record {
                cneed_present = true;
                cn3 = chan_needed c;
                cn4 = chan_needed d;
                nln_pch = nln_pch bts;
              }));
        paged = a ∷ b ∷ c ∷ d ∷ xs;
        kept = [];
      }
      else if leb n_imsi 1
      then record {
        msg =
            fill_paging_type_2 o (identity_lv a) (chan_needed a) (identity_lv b) (chan_needed b)
              (some (identity_lv c))
              (some (record { cneed_present = true; cn3 = chan_needed c; nln_pch = nln_pch bts }));
        paged = a ∷ b ∷ c ∷ [];
        kept = d ∷ xs;
      }
      else record { msg = type_1_of a b; paged = a ∷ b ∷ []; kept = c ∷ d ∷ xs }
  choose bts n_imsi (a ∷ b ∷ c ∷ []) =
      if leb n_imsi 1
      then record {
        msg =
            fill_paging_type_2 o (identity_lv a) (chan_needed a) (identity_lv b) (chan_needed b)
              (some (identity_lv c))
              (some (record { cneed_present = true; cn3 = chan_needed c; nln_pch = nln_pch bts }));
        paged = a ∷ b ∷ c ∷ [];
        kept = [];
      }
      else record { msg = type_1_of a b; paged = a ∷ b ∷ []; kept = c ∷ [] }
  choose bts n_imsi (a ∷ b ∷ []) = record { msg = type_1_of a b; paged = a ∷ b ∷ []; kept = [] }
  choose bts n_imsi (a ∷ []) = record {
    msg = fill_paging_type_1 o (identity_lv a) (chan_needed a) none 0 none none;
    paged = a ∷ [];
    kept = [];
  }
  choose bts n_imsi [] = record { msg = untouched; paged = []; kept = [] }

-- The last loop: a record that was paged goes to the end of the queue, or is freed once its time is
-- over; `num_paging` is an unsigned int.
unfoldable pub retire : ℕ → List PagingRecord → List PagingRecord → ℕ → List PagingRecord × ℕ
retire now [] q num = (q, num)
retire now (r ∷ rs) q num =
    retire now rs (if leb (expiration_time r) now then q else q ++ r ∷ [])
      (if leb (expiration_time r) now then (num + (u32_mod - 1)) % u32_mod else num)

-- What a call of paging_gen_msg leaves: `len` is `none` for -1.
pub record Result : Type 0 where
  pub state : Paging
  pub len : Option ℕ
  pub is_empty : Bool
  pub out : OutBuf

abbrev count_sent : ℕ → Counters → Counters
count_sent n c = record c { sent = c.sent + n }

abbrev confirm_of : Option PagingRecord → List ℕ
confirm_of none = []
confirm_of (some (normal e n lv)) = []
confirm_of (some (macblock m c i)) = if c then i ∷ [] else []

abbrev msg_of : Option PagingRecord → OutBuf
msg_of none = untouched
msg_of (some (normal e n lv)) = untouched
msg_of (some (macblock m c i)) = mac_block m

-- The MAC block is sent and the normal records go back to the head.
abbrev pub send_block : Paging → ℕ → Taken → Result
send_block p group t =
    let p' = put_queue p group (add_heads t.records t.rest) in
    record {
      state = record p' {
        bts = record (p'.bts) { pcu_confirms = p'.bts.pcu_confirms ++ confirm_of t.block };
      };
      len = some gsm_macblock_len;
      is_empty = false;
      out = msg_of t.block;
    }

-- A paging request for the records taken.
abbrev pub send_request : Osmo → ℕ → Paging → ℕ → Taken → Result
send_request o now p group t =
    let c = choose o p.bts (count_imsi t.records) (sort_pr_tmsi_imsi t.records) in
    let done = retire now c.paged (add_heads c.kept t.rest) p.num_paging in
    record {
      state = record (put_queue (count_on p (count_sent (length c.paged))) group done.0) {
        num_paging = done.1;
      };
      len = some gsm_macblock_len;
      is_empty = false;
      out = c.msg;
    }

unfoldable pub send_queue : Osmo → ℕ → Paging → ℕ → Result
send_queue o now p group =
    let t = collect 4 (queue_of p group) in
    elim t.block [ none ↦ send_request o now p group t | some b ↦ send_block p group t ]

-- A request of type 1 with the next page of a warning.
unfoldable pub send_etws : Osmo → Paging → Result
send_etws o p =
    let (p1ro, etws) = build_p1_rest_octets p.bts.etws in
    record {
      state = record p { bts = record (p.bts) { etws = etws } };
      len = some gsm_macblock_len;
      is_empty = false;
      out = fill_paging_type_1 o empty_id_lv 0 none 0 (some p1ro) none;
    }

-- A request of type 1 with two empty identities.
unfoldable pub send_empty : Osmo → Paging → Result
send_empty o p = record {
  state = p;
  len = some gsm_macblock_len;
  is_empty = true;
  out = fill_paging_type_1 o empty_id_lv 0 none 0 (some (empty_p1 p.bts)) none;
}

abbrev pub count_block : Paging → Paging
count_block p = record p { bts = record (p.bts) { pch_total = p.bts.pch_total + 1 } }

abbrev pub count_used : Paging → Paging
count_used p = record p { bts = record (p.bts) { pch_used = p.bts.pch_used + 1 } }

-- A block of group `group`, by whether a warning is on and by what the group's queue holds.
unfoldable pub serve : Osmo → ℕ → Paging → ℕ → Option (List ℕ) → List PagingRecord → Result
serve o now p group (some notif) q = send_etws o p
serve o now p group none [] = send_empty o p
serve o now p group none (r ∷ q) = send_queue o now (count_used p) group

unfoldable pub serve_at : Osmo → ℕ → Paging → Option ℕ → Result
serve_at o now p none = record { state = p; len = none; is_empty = false; out = untouched }
serve_at o now p (some group) = serve o now p group p.bts.etws.prim_notif (queue_of p group)

-- paging_gen_msg. Each message has 23 octets, so the source's last memset writes none.
unfoldable pub gen_msg : Osmo → ℕ → GsmTime → Paging → Result
gen_msg o now gt p0 =
    let p = count_block (check_congestion p0) in
    serve_at o now p (get_pag_subch_nr o p.chan_desc gt)
