-- ===== src/Cbch/Memory.antt =====
-- The messages of src/common/cbch.c in memory: where an address is reachable or freed.
use osmo_bts.Base.{
  ℕ, ◌+◌, ◌≤◌, ◌≡◌, refl, Bool, Option, none, some, List, [], ◌∷◌, ◌++◌, ltb, leb, ◌==◌, ◌%◌,
  if◌then◌else◌, arith,
}
use osmo_bts.Cbch.Types.{Message, Smscb, Heap, Limits, free, is_same}
use osmo_bts.Cbch.Block.{
  finish, block_of, block_from, get_smscb_block, select_from, select_next_smscb, get_at, free_all,
  free_current, bts_smscb_state_reset,
}
use osmo_bts.Cbch.Command.{
  CmdType, normal, schedule, default, null_cmd, unknown, Cmd, new_message, queue_message,
  forget_default, set_default, by_command, process,
}

-- 1 for a message at the address `a`, and the number of those in a list.
abbrev at : ℕ → Message → ℕ
at a m = if m.address == a then 1 else 0

unfoldable pub in_list : ℕ → List Message → ℕ
in_list a [] = 0
in_list a (m ∷ ms) = at a m + in_list a ms

abbrev in_option : ℕ → Option Message → ℕ
in_option a none = 0
in_option a (some m) = at a m

unfoldable pub in_freed : ℕ → List ℕ → ℕ
in_freed a [] = 0
in_freed a (x ∷ xs) = (if x == a then 1 else 0) + in_freed a xs

-- The current message where it is not the default one, which is counted by itself.
abbrev in_current : ℕ → Smscb → Option Message → ℕ
in_current a s none = 0
in_current a s (some m) = if is_same m s.default_msg then 0 else at a m

-- How often a channel holds the address.
abbrev pub held : ℕ → Smscb → ℕ
held a s = in_list a s.queue + (in_current a s s.cur_msg + in_option a s.default_msg)

-- How often the address is held by a channel, or was freed.
abbrev pub uses : ℕ → Smscb → Heap → ℕ
uses a s h = in_freed a h.freed + held a s

in_list-append : (a : ℕ) (xs ys : List Message) → in_list a (xs ++ ys) ≡ in_list a xs + in_list a ys
unfolding in_list
in_list-append a [] ys = omega arith
in_list-append a (x ∷ xs) ys = omega (arith, in_list-append a xs ys)

-- A step of a channel uses the address no more than before, but for `k` messages allocated there.
abbrev pub IsFrugal : ℕ → ℕ → Smscb → Heap → Smscb → Heap → Type 0
IsFrugal a k s h s' h' = uses a s' h' ≤ uses a s h + k

finish-IsFrugal :
    (a : ℕ) (s : Smscb) (h : Heap) (m : Message) (b : Bool)
    → s.cur_msg ≡ some m
    → IsFrugal a 0 s h (finish s h m b).0 (finish s h m b).1
unfolding finish in_freed
finish-IsFrugal a s h m b e = ground arith

block_from-IsFrugal :
    (a : ℕ) (s : Smscb) (h : Heap) (n : ℕ) (o : Option Message)
    → s.cur_msg ≡ o
    → IsFrugal a 0 s h (block_from s h n o).smscb (block_from s h n o).heap
unfolding block_from
block_from-IsFrugal a s h n none e = omega arith
block_from-IsFrugal a s h n (some m) e =
    let f = finish-IsFrugal a s h m (block_of m n).lb e in ground arith

select_from-IsFrugal :
    (a : ℕ) (l : Limits) (s : Smscb) (h : Heap) (q : List Message)
    → s.queue ≡ q
    → IsFrugal a 0 s h (select_from l s q).0 h
unfolding select_from in_list
select_from-IsFrugal a l s h [] e = ground arith
select_from-IsFrugal a l s h (m ∷ ms) e = ground arith

queue_message-IsFrugal :
    (a : ℕ) (l : Limits) (s : Smscb) (h : Heap) (m : Message)
    → IsFrugal a (at a m) s h (queue_message l s h m).0 (queue_message l s h m).1
unfolding queue_message in_freed in_list
queue_message-IsFrugal a l s h m = ground (arith, in_list-append a s.queue (m ∷ []))

set_default-IsFrugal :
    (a : ℕ) (b : Bool) (s : Smscb) (h : Heap) (m : Message)
    → IsFrugal a (at a m) s h (set_default b s h m).0 (set_default b s h m).1
unfolding set_default forget_default in_freed
set_default-IsFrugal a b s h m = ground arith

by_command-IsFrugal :
    (a : ℕ) (cmd : Cmd) (c : CmdType) (l : Limits) (s : Smscb) (h : Heap) (m : Message)
    → IsFrugal a (at a m) s h (by_command cmd c l s h m).0 (by_command cmd c l s h m).1
unfolding by_command in_freed
by_command-IsFrugal a cmd normal l s h m = queue_message-IsFrugal a l s h m
by_command-IsFrugal a cmd schedule l s h m = queue_message-IsFrugal a l s h m
by_command-IsFrugal a cmd null_cmd l s h m = queue_message-IsFrugal a l s h m
by_command-IsFrugal a cmd default l s h m = set_default-IsFrugal a cmd.def_bcast_normal s h m
by_command-IsFrugal a cmd unknown l s h m = ground arith

next_after-command :
    (cmd : Cmd) (c : CmdType) (l : Limits) (s : Smscb) (h : Heap) (m : Message)
    → (by_command cmd c l s h m).1.next_address ≡ h.next_address
unfolding by_command queue_message set_default
next_after-command cmd c l s h m = ground arith

-- 1 for an address that a step allocates.
abbrev pub fresh : ℕ → Heap → Heap → ℕ
fresh a h h' = if leb h.next_address a then (if ltb a h'.next_address then 1 else 0) else 0

-- A step of a channel gives addresses out in order, and uses an address no more often than before,
-- or once if it is given out.
pub record IsThrifty (s : Smscb) (h : Heap) (s' : Smscb) (h' : Heap) : Type 0 where
  pub is_ordered : h.next_address ≤ h'.next_address
  pub is_frugal : (a : ℕ) → IsFrugal a (fresh a h h') s h s' h'

pub process-IsThrifty :
    (l : Limits) (s : Smscb) (h : Heap) (memory : Bool) (cmd : Cmd) (msg : List ℕ)
    → IsThrifty s h (process l s h memory cmd msg).smscb (process l s h memory cmd msg).heap
unfolding process new_message
process-IsThrifty l s h memory cmd msg = record {
  is_ordered =
      (let n =
          next_after-command cmd cmd.command l s (record h { next_address = h.next_address + 1 })
            (new_message h.next_address cmd msg) in
        ground arith);
  is_frugal = λ a.
      let n =
        next_after-command cmd cmd.command l s (record h { next_address = h.next_address + 1 })
          (new_message h.next_address cmd msg) in
      let f =
        by_command-IsFrugal a cmd cmd.command l s (record h { next_address = h.next_address + 1 })
          (new_message h.next_address cmd msg) in
      ground arith;
}

select_next_smscb-IsFrugal :
    (a : ℕ) (l : Limits) (s : Smscb) (h : Heap) → IsFrugal a 0 s h (select_next_smscb l s).0 h
unfolding select_next_smscb
select_next_smscb-IsFrugal a l s h = select_from-IsFrugal a l s h s.queue refl

get_smscb_block-IsFrugal :
    (a : ℕ) (s : Smscb) (h : Heap) (tb : ℕ)
    → IsFrugal a 0 s h (get_smscb_block s h tb).smscb (get_smscb_block s h tb).heap
unfolding get_smscb_block
get_smscb_block-IsFrugal a s h tb = block_from-IsFrugal a s h (tb % 4) s.cur_msg refl

next_after-block :
    (s : Smscb) (h : Heap) (tb : ℕ) → (get_smscb_block s h tb).heap.next_address ≡ h.next_address
unfolding get_smscb_block block_from finish
next_after-block s h tb = ground arith

pub get_at-IsThrifty :
    (l : Limits) (s : Smscb) (h : Heap) (tb : ℕ)
    → IsThrifty s h (get_at l s h tb).0.smscb (get_at l s h tb).0.heap
unfolding get_at
get_at-IsThrifty l s h tb = record {
  is_ordered =
      (let n = next_after-block s h tb in
        let n' = next_after-block (select_next_smscb l s).0 h tb in ground arith);
  is_frugal = λ a.
      let f = select_next_smscb-IsFrugal a l s h in
      let g = get_smscb_block-IsFrugal a (select_next_smscb l s).0 h tb in
      let g' = get_smscb_block-IsFrugal a s h tb in ground arith;
}

in_freed-free_all :
    (a : ℕ) (ms : List Message) (h : Heap)
    → in_freed a (free_all ms h).freed ≡ in_freed a h.freed + in_list a ms
unfolding free_all in_freed in_list
in_freed-free_all a [] h = omega arith
in_freed-free_all a (m ∷ ms) h = let r = in_freed-free_all a ms (free m h) in ground arith

next_after-free_all : (ms : List Message) (h : Heap) → (free_all ms h).next_address ≡ h.next_address
unfolding free_all
next_after-free_all [] h = refl
next_after-free_all (m ∷ ms) h = next_after-free_all ms (free m h)

pub reset-IsThrifty :
    (s : Smscb) (h : Heap)
    → IsThrifty s h (bts_smscb_state_reset s h).0 (bts_smscb_state_reset s h).1
unfolding bts_smscb_state_reset free_current in_list in_freed
reset-IsThrifty s h = record {
  is_ordered = (let n = next_after-free_all s.queue h in ground arith);
  is_frugal = λ a.
      let n = next_after-free_all s.queue h in
      let f = in_freed-free_all a s.queue h in ground arith;
}
