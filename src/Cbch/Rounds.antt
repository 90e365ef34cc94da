-- ===== src/Cbch/Rounds.antt =====
-- Rounds of four multiframes of a channel of src/common/cbch.c: what phones receive, against a queue
-- in the order of its commands.
use osmo_bts.Base.{
  ℕ, ◌+◌, ◌-◌, ◌*◌, ◌/◌, ◌%◌, ◌<◌, ◌≡◌, refl, ◌∙◌, ap, Bool, true, false, ◌&&◌, Option, none, some,
  List, [], ◌∷◌, all, ltb, leb, arith, take,
}
use osmo_bts.Cbch.Types.{Message, Smscb, Station}
use osmo_bts.Cbch.Block.{
  AirBlock, null_block, bts_cbch_get, get_smscb_block, block_from, select_next_smscb, select_from,
  get_at,
}
use osmo_bts.Cbch.Phone.{airs, receive, receive-airs, is_numbered, text}
use osmo_bts.Cbch.Delivery.{
  channel, first_tb, sending, head_or, tail, advance, first_step, next_step, station_step,
}

-- The four blocks from a frame on, one in each multiframe.
unfoldable pub round : Station → ℕ → Station × List AirBlock
round b fn =
    let x = bts_cbch_get b fn in
    let y = bts_cbch_get x.0 (fn + 51) in
    let z = bts_cbch_get y.0 (fn + 102) in
    let w = bts_cbch_get z.0 (fn + 153) in (w.0, x.1 ∷ y.1 ∷ z.1 ∷ w.1 ∷ [])

abbrev pub option_text : Option Message → Option (List ℕ)
option_text none = none
option_text (some m) = some (text m)

-- One to four segments.
abbrev pub is_sendable : Message → Bool
is_sendable m = ltb 0 m.num_segs && leb m.num_segs 4

abbrev pub is_sendable_option : Option Message → Bool
is_sendable_option none = true
is_sendable_option (some m) = is_sendable m

pub head_or-sendable :
    (q : List Message) (d : Option Message)
    → all is_sendable q ≡ true
    → is_sendable_option d ≡ true
    → is_sendable_option (head_or q d) ≡ true × all is_sendable (tail q) ≡ true
head_or-sendable [] d h h' = (h', refl)
head_or-sendable (m ∷ ms) d h h' = ground arith

-- The multiframes after the first one of a channel.
later :
    (ext : Bool) (fn i d : ℕ)
    → i * 51 ≡ d
    → fn / 51 % 8 ≡ first_tb ext
    → i < 4
    → (fn + d) / 51 % 8 ≡ first_tb ext + i
later true fn i d e h l = omega arith
later false fn i d e h l = omega arith

-- A round with a message: its blocks, and the channel behind them.
round-some :
    (b : Station) (ext : Bool) (fn : ℕ) (m : Message)
    → fn / 51 % 8 ≡ first_tb ext
    → head_or (channel ext b).queue (channel ext b).default_msg ≡ some m
    → 0 < m.num_segs
    → channel ext (round b fn).0 ≡ sending (advance (channel ext b)) m 4
      × (round b fn).1 ≡ airs m 0 4
unfolding round airs
round-some b ext fn m e c p =
    let s = advance (channel ext b) in
    let r1 = first_step b ext fn m e c p in
    let b1 = (bts_cbch_get b fn).0 in
    let r2 =
      next_step b1 ext (fn + 51) 1 s m (later ext fn 1 51 refl e (omega arith)) (omega arith)
        (omega arith) r1.0 in
    let b2 = (bts_cbch_get b1 (fn + 51)).0 in
    let r3 =
      next_step b2 ext (fn + 102) 2 s m (later ext fn 2 102 refl e (omega arith)) (omega arith)
        (omega arith) r2.0 in
    let b3 = (bts_cbch_get b2 (fn + 102)).0 in
    let r4 =
      next_step b3 ext (fn + 153) 3 s m (later ext fn 3 153 refl e (omega arith)) (omega arith)
        (omega arith) r3.0 in
    (r4.0, cc)

-- A channel without a message.
abbrev idle : Smscb → Smscb
idle s = record s { cur_msg = none }

-- Without a message a channel sends null blocks and keeps its queue.
null_first :
    (b : Station) (ext : Bool) (fn : ℕ)
    → fn / 51 % 8 ≡ first_tb ext
    → (channel ext b).queue ≡ []
    → (channel ext b).default_msg ≡ none
    → channel ext (bts_cbch_get b fn).0 ≡ idle (channel ext b) × (bts_cbch_get b fn).1 ≡ null_block
unfolding get_at get_smscb_block block_from select_next_smscb select_from
null_first b true fn e q d =
    let t = station_step b true fn 0 (omega arith) (omega arith) in ground arith
null_first b false fn e q d =
    let t = station_step b false fn 0 (omega arith) (omega arith) in ground arith

null_next :
    (b : Station) (ext : Bool) (fn i : ℕ) (s : Smscb)
    → fn / 51 % 8 ≡ first_tb ext + i
    → 0 < i
    → i < 4
    → channel ext b ≡ idle s
    → channel ext (bts_cbch_get b fn).0 ≡ idle s × (bts_cbch_get b fn).1 ≡ null_block
unfolding get_at get_smscb_block block_from
null_next b true fn i s e p l c = let t = station_step b true fn i e l in ground arith
null_next b false fn i s e p l c = let t = station_step b false fn i e l in ground arith

round-none :
    (b : Station) (ext : Bool) (fn : ℕ)
    → fn / 51 % 8 ≡ first_tb ext
    → (channel ext b).queue ≡ []
    → (channel ext b).default_msg ≡ none
    → channel ext (round b fn).0 ≡ idle (channel ext b)
      × (round b fn).1 ≡ null_block ∷ null_block ∷ null_block ∷ null_block ∷ []
unfolding round
round-none b ext fn e q d =
    let s = channel ext b in
    let r1 = null_first b ext fn e q d in
    let b1 = (bts_cbch_get b fn).0 in
    let r2 =
      null_next b1 ext (fn + 51) 1 s (later ext fn 1 51 refl e (omega arith)) (omega arith)
        (omega arith) r1.0 in
    let b2 = (bts_cbch_get b1 (fn + 51)).0 in
    let r3 =
      null_next b2 ext (fn + 102) 2 s (later ext fn 2 102 refl e (omega arith)) (omega arith)
        (omega arith) r2.0 in
    let b3 = (bts_cbch_get b2 (fn + 102)).0 in
    let r4 =
      null_next b3 ext (fn + 153) 3 s (later ext fn 3 153 refl e (omega arith)) (omega arith)
        (omega arith) r3.0 in
    (r4.0, cc)

received_none : receive 0 (null_block ∷ null_block ∷ null_block ∷ null_block ∷ []) ≡ none
unfolding receive is_numbered null_block
received_none = refl

received_some : (m : Message) → is_sendable m ≡ true → receive 0 (airs m 0 4) ≡ some (text m)
unfolding text
received_some m h =
    let r = receive-airs m 4 0 (ground arith) (ground arith) (ground arith) in
    let e : (m.num_segs - 0) * 22 ≡ m.num_segs * 22 = omega arith in
    r ∙ ap (λ n. some (take n m.octets)) e

-- What a round leaves in the queue and as the default message, and what phones receive in it.
pub round_lem :
    (b : Station) (ext : Bool) (fn : ℕ) (q : List Message) (d : Option Message)
    → fn / 51 % 8 ≡ first_tb ext
    → (channel ext b).queue ≡ q
    → (channel ext b).default_msg ≡ d
    → is_sendable_option (head_or q d) ≡ true
    → (channel ext (round b fn).0).queue ≡ tail q
      × (channel ext (round b fn).0).default_msg ≡ d
      × receive 0 (round b fn).1 ≡ option_text (head_or q d)
round_lem b ext fn [] none e h h' g =
    let r = round-none b ext fn e h h' in
    (
      ap (λ s. s.queue) r.0 ∙ h,
      ap (λ s. s.default_msg) r.0 ∙ h',
      ap (receive 0) r.1 ∙ received_none,
    )
round_lem b ext fn [] (some m) e h h' g =
    let p : 0 < m.num_segs = ground arith in
    let c : head_or (channel ext b).queue (channel ext b).default_msg ≡ some m = ground arith in
    let r = round-some b ext fn m e c p in
    (
      ap (λ s. s.queue) r.0 ∙ ap tail h,
      ap (λ s. s.default_msg) r.0 ∙ h',
      ap (receive 0) r.1 ∙ received_some m g,
    )
round_lem b ext fn (m ∷ ms) d e h h' g =
    let p : 0 < m.num_segs = ground arith in
    let c : head_or (channel ext b).queue (channel ext b).default_msg ≡ some m = ground arith in
    let r = round-some b ext fn m e c p in
    (
      ap (λ s. s.queue) r.0 ∙ ap tail h,
      ap (λ s. s.default_msg) r.0 ∙ h',
      ap (receive 0) r.1 ∙ received_some m g,
    )
