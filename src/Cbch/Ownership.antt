-- ===== src/Cbch/Ownership.antt =====
-- The messages of both channels of src/common/cbch.c in memory, over any sequence of its calls.
use osmo_bts.Base.{
  ℕ, ◌+◌, ◌≤◌, ◌≡◌, Bool, true, false, List, [], ◌∷◌, ltb, ◌/◌, ◌%◌, if_elim, arith,
}
use osmo_bts.Cbch.Types.{Smscb, Heap, Station, Call, limits_of}
use osmo_bts.Cbch.Block.{AirBlock, get_at, bts_cbch_get, bts_smscb_state_reset, bts_cbch_reset}
use osmo_bts.Cbch.Command.{Cmd, bts_process_smscb_cmd}
use osmo_bts.Cbch.Memory.{
  held, uses, IsThrifty, process-IsThrifty, get_at-IsThrifty, reset-IsThrifty,
}

-- The calls of the component: a command of the BSC, a block for a frame, and a reset.
pub data Op : Type 0 where
  command : Bool → Cmd → Bool → List ℕ → Op
  get : ℕ → Op
  reset : Op

unfoldable pub perform : Station → Op → Station
perform b (command memory cmd extended msg) = (bts_process_smscb_cmd b memory cmd extended msg).0
perform b (get fn) = (bts_cbch_get b fn).0
perform b reset = bts_cbch_reset b

unfoldable pub perform_all : Station → List Op → Station
perform_all b [] = b
perform_all b (op ∷ ops) = perform_all (perform b op) ops

-- How often an address is in the station: freed, or held by one of the channels as a queued, a
-- current or a default message.
abbrev pub total : ℕ → Station → ℕ
total a b = uses a b.basic b.heap + held a b.extended

-- No address is in the station twice, so what is held was not freed and nothing was freed
-- twice; and an address that was not given out is not in it at all.
pub record IsOwned (b : Station) : Type 0 where
  pub is_single : (a : ℕ) → total a b ≤ 1
  pub is_given : (a : ℕ) → b.heap.next_address ≤ a → total a b ≡ 0

basic_step :
    (b : Station) (s : Smscb) (h : Heap)
    → IsThrifty b.basic b.heap s h
    → IsOwned b
    → IsOwned (record b { basic = s; heap = h })
basic_step b s h t o = record {
  is_single =
      λ a. let f = t.is_frugal a in let g = o.is_single a in let n = o.is_given a in ground arith;
  is_given =
      λ a l. let f = t.is_frugal a in let m = t.is_ordered in let n = o.is_given a in ground arith;
}

extended_step :
    (b : Station) (s : Smscb) (h : Heap)
    → IsThrifty b.extended b.heap s h
    → IsOwned b
    → IsOwned (record b { extended = s; heap = h })
extended_step b s h t o = record {
  is_single =
      λ a. let f = t.is_frugal a in let g = o.is_single a in let n = o.is_given a in ground arith;
  is_given =
      λ a l. let f = t.is_frugal a in let m = t.is_ordered in let n = o.is_given a in ground arith;
}

command-IsOwned :
    (b : Station) (memory : Bool) (cmd : Cmd) (ext : Bool) (msg : List ℕ)
    → IsOwned b
    → IsOwned (bts_process_smscb_cmd b memory cmd ext msg).0
unfolding bts_process_smscb_cmd
command-IsOwned b memory cmd true msg o =
    extended_step b _ _ (process-IsThrifty (limits_of true b) b.extended b.heap memory cmd msg) o
command-IsOwned b memory cmd false msg o =
    basic_step b _ _ (process-IsThrifty (limits_of false b) b.basic b.heap memory cmd msg) o

get-IsOwned : (b : Station) (fn : ℕ) → IsOwned b → IsOwned (bts_cbch_get b fn).0
unfolding bts_cbch_get
get-IsOwned b fn o =
    let tb = fn / 51 % 8 in
    let x = get_at (limits_of false b) b.basic b.heap tb in
    let y = get_at (limits_of true b) b.extended b.heap tb in
    if_elim (λ (r : Station × AirBlock × List Call). IsOwned r.0) (ltb tb 4)
      (record b { basic = x.0.smscb; heap = x.0.heap }, x.0.block, x.1)
      (record b { extended = y.0.smscb; heap = y.0.heap }, y.0.block, y.1)
      (λ e. basic_step b _ _ (get_at-IsThrifty (limits_of false b) b.basic b.heap tb) o)
      (λ e. extended_step b _ _ (get_at-IsThrifty (limits_of true b) b.extended b.heap tb) o)

reset-IsOwned : (b : Station) → IsOwned b → IsOwned (bts_cbch_reset b)
unfolding bts_cbch_reset
reset-IsOwned b o =
    let x = bts_smscb_state_reset b.basic b.heap in
    extended_step (record b { basic = x.0; heap = x.1 }) _ _ (reset-IsThrifty b.extended x.1)
      (basic_step b _ _ (reset-IsThrifty b.basic b.heap) o)

perform-IsOwned : (b : Station) (op : Op) → IsOwned b → IsOwned (perform b op)
unfolding perform
perform-IsOwned b (command memory cmd ext msg) o = command-IsOwned b memory cmd ext msg o
perform-IsOwned b (get fn) o = get-IsOwned b fn o
perform-IsOwned b reset o = reset-IsOwned b o

-- After any commands, blocks and resets, no message of a station that was in order is freed
-- twice, held in two places or held after it was freed, and what is held or freed was allocated.
pub perform_all-IsOwned : (b : Station) (ops : List Op) → IsOwned b → IsOwned (perform_all b ops)
unfolding perform_all
perform_all-IsOwned b [] o = o
perform_all-IsOwned b (op ∷ ops) o = perform_all-IsOwned (perform b op) ops (perform-IsOwned b op o)
