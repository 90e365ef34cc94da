-- ===== src/Sched/Order.antt =====
-- The bursts of every logical channel in the multiframe tables of src/common/scheduler_mframe.c.
use mathlib.Core.Path.{subst}
use native.Mathlib.Nat.{mod-add-mod, mod-mod, mod-lt}
use osmo_bts.Base.{
  all_below, all_below_sound, ℕ, zero, suc, ◌+◌, ◌%◌, ◌<◌, ◌≡◌, refl, sym, ◌∙◌, ap, Bool, true,
  false, ◌&&◌, Option, none, some, get_or, all, get_or-all, ==_iff, ◌==◌, if◌then◌else◌, arith,
}
use osmo_bts.Sched.Types.{
  TrxChan, Frame, same_chan, trxc_idle, trxc_fcch, trxc_sch, trxc_rach, trxc_tchh_0, trxc_tchh_1,
}
use osmo_bts.Sched.Mframe.{
  Multiframe, trx_sched_multiframes, no_mframe, idle_frame, frame_at, chan_of, bid_of,
}

-- The number of bursts of a block.
unfoldable pub bursts_of : TrxChan → ℕ
bursts_of trxc_idle = 1
bursts_of trxc_fcch = 1
bursts_of trxc_sch = 1
bursts_of trxc_rach = 1
bursts_of trxc_tchh_0 = 2
bursts_of trxc_tchh_1 = 2
bursts_of _ = 4

-- The burst of the channel in the first of `k` frames from `fn` on that it has.
unfoldable pub next_burst : Multiframe → Bool → TrxChan → ℕ → ℕ → Option ℕ
next_burst m ul c zero fn = none
next_burst m ul c (suc k) fn =
    let rest = next_burst m ul c k (fn + 1) in
    if same_chan (chan_of ul (frame_at m fn)) c then some (bid_of ul (frame_at m fn)) else rest

abbrev is_some_of : ℕ → Option ℕ → Bool
is_some_of n none = false
is_some_of n (some k) = n == k

-- The test of one position; idle frames have no bursts to order.
abbrev follows : Multiframe → Bool → ℕ → Bool
follows m ul i =
    let f = frame_at m i in
    let c = chan_of ul f in
    if same_chan c trxc_idle
    then true
    else is_some_of ((bid_of ul f + 1) % bursts_of c) (next_burst m ul c (m.period) (i + 1))

abbrev ordered : Multiframe → Bool
ordered m = all_below (m.period) (follows m true) && all_below (m.period) (follows m false)

tables_ordered : all ordered trx_sched_multiframes ≡ true
unfolding next_burst frame_at chan_of bid_of bursts_of
tables_ordered = refl

pub if_false : {A : Type 0} {b : Bool} (x y : A) → b ≡ false → (if b then x else y) ≡ y
if_false x y h = ground arith

is_some_of-eq : (n : ℕ) (o : Option ℕ) → is_some_of n o ≡ true → o ≡ some n
is_some_of-eq n none h = absurd (ground arith)
is_some_of-eq n (some k) h = ap some (sym ((==_iff n k).0 h))

next_mod : (a b p : ℕ) → a % p ≡ b % p → (a + 1) % p ≡ (b + 1) % p
next_mod a b p h = sym (mod-add-mod a p 1) ∙ ap (λ n. (n + 1) % p) h ∙ mod-add-mod b p 1

pub next_burst_mod :
    (m : Multiframe) (ul : Bool) (c : TrxChan) (k a b : ℕ)
    → a % m.period ≡ b % m.period
    → next_burst m ul c k a ≡ next_burst m ul c k b
unfolding next_burst frame_at
next_burst_mod m ul c zero a b h = refl
next_burst_mod m ul c (suc k) a b h =
    let e = ap (λ n. get_or (m.frames) n idle_frame) h in
    ap
      (λ (f : Frame).
        if same_chan (chan_of ul f) c then some (bid_of ul f) else next_burst m ul c k (a + 1))
      e
    ∙ ap
        (λ r.
          if same_chan (chan_of ul (frame_at m b)) c then some (bid_of ul (frame_at m b)) else r)
        (next_burst_mod m ul c k (a + 1) (b + 1) (next_mod a b (m.period) h))

-- The burst after that of a frame, within a period.
abbrev pub IsFollowed : Multiframe → Bool → ℕ → Type 0
IsFollowed m ul fn =
    next_burst m ul (chan_of ul (frame_at m fn)) (m.period) (fn + 1)
    ≡ some ((bid_of ul (frame_at m fn) + 1) % bursts_of (chan_of ul (frame_at m fn)))

follows_lem :
    (m : Multiframe) (ul : Bool) (i : ℕ)
    → same_chan (chan_of ul (frame_at m i)) trxc_idle ≡ false
    → follows m ul i ≡ true
    → IsFollowed m ul i
follows_lem m ul i h f = is_some_of-eq _ _ (sym (if_false _ _ h) ∙ f)

direction :
    (m : Multiframe) (ul : Bool) → ordered m ≡ true → all_below (m.period) (follows m ul) ≡ true
direction m true h = ground arith
direction m false h = ground arith

frame_at_mod : (m : Multiframe) (fn : ℕ) → frame_at m (fn % m.period) ≡ frame_at m fn
unfolding frame_at
frame_at_mod m fn = ap (λ n. get_or (m.frames) n idle_frame) (mod-mod fn (m.period))

-- From the positions of one period to all frame numbers.
ordered_lem :
    (m : Multiframe) (ul : Bool) (fn : ℕ)
    → ordered m ≡ true
    → 0 < m.period
    → same_chan (chan_of ul (frame_at m fn)) trxc_idle ≡ false
    → IsFollowed m ul fn
ordered_lem m ul fn o p h =
    let i = fn % m.period in
    let e = frame_at_mod m fn in
    let Idle = λ (f : Frame). same_chan (chan_of ul f) trxc_idle ≡ false in
    let t = all_below_sound (m.period) (follows m ul) i (direction m ul o) (mod-lt fn p) in
    let f = follows_lem m ul i (subst Idle (sym e) h) t in
    let n = next_mod i fn (m.period) (mod-mod fn (m.period)) in
    subst
      (λ (f : Frame).
        next_burst m ul (chan_of ul f) (m.period) (fn + 1)
        ≡ some ((bid_of ul f + 1) % bursts_of (chan_of ul f)))
      e (next_burst_mod m ul (chan_of ul (frame_at m i)) (m.period) (fn + 1) (i + 1) (sym n) ∙ f)

-- The entry of the table with an index.
unfoldable pub multiframe : ℕ → Multiframe
multiframe j = get_or trx_sched_multiframes j no_mframe

multiframe-ordered : (j : ℕ) → ordered (multiframe j) ≡ true
unfolding multiframe
multiframe-ordered j = get_or-all ordered trx_sched_multiframes j no_mframe tables_ordered refl

-- In every multiframe of the table and in both directions, the burst of a channel is followed,
-- within one period, by the channel's next burst: the numbers go up by one within a block, and
-- the first burst of a block follows the last. Idle frames are left out.
pub multiframe-IsFollowed :
    (j : ℕ) (ul : Bool) (fn : ℕ)
    → 0 < (multiframe j).period
    → same_chan (chan_of ul (frame_at (multiframe j) fn)) trxc_idle ≡ false
    → IsFollowed (multiframe j) ul fn
multiframe-IsFollowed j ul fn p h = ordered_lem (multiframe j) ul fn (multiframe-ordered j) p h
