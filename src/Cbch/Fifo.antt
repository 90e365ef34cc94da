-- ===== src/Cbch/Fifo.antt =====
-- The queue of a channel of src/common/cbch.c over many rounds: what phones receive, against a plain
-- queue of messages.
use osmo_bts.Base.{
  ℕ, zero, suc, ◌+◌, ◌-◌, ◌*◌, ◌/◌, ◌%◌, ◌≤◌, ◌≡◌, refl, ◌∙◌, ap, Bool, true, false, Option, some,
  List, [], ◌∷◌, ◌++◌, all, arith, take, length, replicate,
}
use osmo_bts.Base.Int.{pos, leb_ℤ}
use osmo_bts.Cbch.Types.{Message, Station}
use osmo_bts.Cbch.Command.{
  normal, Cmd, last_block_rsl2um, new_message, queue_message, by_command, process,
  bts_process_smscb_cmd,
}
use osmo_bts.Cbch.Phone.{receive, text}
use osmo_bts.Cbch.Delivery.{channel, first_tb, head_or, tail}
use osmo_bts.Cbch.Rounds.{
  round, option_text, is_sendable, is_sendable_option, head_or-sendable, round_lem,
}

-- What phones put together in a number of rounds, which are eight multiframes apart.
unfoldable pub listen : Station → ℕ → ℕ → List (Option (List ℕ))
listen b fn zero = []
listen b fn (suc k) = receive 0 (round b fn).1 ∷ listen (round b fn).0 (fn + 408) k

-- The messages of a queue in order, and then the default message over and over.
unfoldable pub in_order : List Message → Option Message → ℕ → List (Option (List ℕ))
in_order q d zero = []
in_order q d (suc k) = option_text (head_or q d) ∷ in_order (tail q) d k

-- In rounds that begin in its first multiframe, a channel whose messages have one to four segments
-- lets phones receive the queued messages in their order and then the default message over and over, or
-- nothing without one.
pub listen-in_order :
    (b : Station) (ext : Bool) (fn k : ℕ) (q : List Message) (d : Option Message)
    → fn / 51 % 8 ≡ first_tb ext
    → (channel ext b).queue ≡ q
    → (channel ext b).default_msg ≡ d
    → all is_sendable q ≡ true
    → is_sendable_option d ≡ true
    → listen b fn k ≡ in_order q d k
unfolding listen in_order
listen-in_order b ext fn zero q d e h h' g g' = refl
listen-in_order b ext fn (suc k) q d e h h' g g' =
    let s = head_or-sendable q d g g' in
    let r = round_lem b ext fn q d e h h' s.0 in
    let n : (fn + 408) / 51 % 8 ≡ first_tb ext = omega arith in
    let i = listen-in_order (round b fn).0 ext (fn + 408) k (tail q) d n r.0 r.1 s.1 g' in
    ap (λ x. x ∷ listen (round b fn).0 (fn + 408) k) r.2 ∙ ap (λ l. option_text (head_or q d) ∷ l) i

in_order-append :
    (q : List Message) (d : Option Message) (m : Message)
    → in_order (q ++ m ∷ []) d (suc (length q)) ≡ in_order q d (length q) ++ some (text m) ∷ []
unfolding in_order
in_order-append [] d m = refl
in_order-append (x ∷ q) d m = ap (λ l. some (text x) ∷ l) (in_order-append q d m)

all-sendable-append :
    (q : List Message) (m : Message)
    → all is_sendable q ≡ true
    → is_sendable m ≡ true
    → all is_sendable (q ++ m ∷ []) ≡ true
all-sendable-append [] m h g = ground arith
all-sendable-append (x ∷ q) m h g = let r = all-sendable-append q m (ground arith) g in ground arith

take-replicate : (n k p : ℕ) → n ≤ k → take n (replicate k p) ≡ replicate n p
take-replicate zero k p l = refl
take-replicate (suc n) zero p l = absurd (omega arith)
take-replicate (suc n) (suc k) p l = ap (λ xs. p ∷ xs) (take-replicate n k p (omega arith))

take-append_long :
    (xs ys : List ℕ) (n : ℕ) → length xs ≤ n → take n (xs ++ ys) ≡ xs ++ take (n - length xs) ys
take-append_long [] ys n h = ap (λ n. take n ys) (omega arith)
take-append_long (x ∷ xs) ys zero h = absurd (omega arith)
take-append_long (x ∷ xs) ys (suc n) h =
    let e : n - length xs ≡ suc n - length (x ∷ xs) = omega arith in
    ap (λ l. x ∷ l) (take-append_long xs ys n (omega arith) ∙ ap (λ n. xs ++ take n ys) e)

take-padded :
    (xs : List ℕ) (n k p : ℕ)
    → length xs ≤ n
    → n ≤ k
    → take n (xs ++ replicate (k - length xs) p) ≡ xs ++ replicate (n - length xs) p
take-padded xs n k p h l =
    take-append_long xs (replicate (k - length xs) p) n h
    ∙ ap (λ l. xs ++ l) (take-replicate (n - length xs) (k - length xs) p (omega arith))

-- The segments of a command.
abbrev pub segments : Cmd → ℕ
segments cmd = last_block_rsl2um (cmd.last_block % 4)

-- A command with a message that fits its segments, padded as it is received.
abbrev pub padded : Cmd → List ℕ → List ℕ
padded cmd msg = msg ++ replicate (segments cmd * 22 - length msg) 0x2b

text-new_message :
    (a : ℕ) (cmd : Cmd) (msg : List ℕ)
    → length msg ≤ segments cmd * 22
    → text (new_message a cmd msg) ≡ padded cmd msg × is_sendable (new_message a cmd msg) ≡ true
unfolding text new_message
text-new_message a cmd msg h =
    (take-padded msg (segments cmd * 22) 88 0x2b h (ground arith), ground arith)

-- A normal command that finds room in the queue joins it.
command-queue :
    (b : Station) (cmd : Cmd) (ext : Bool) (msg : List ℕ)
    → cmd.command ≡ normal
    → length msg ≤ 88
    → leb_ℤ b.smscb_queue_max_len (pos (channel ext b).queue_len) ≡ false
    → (channel ext (bts_process_smscb_cmd b true cmd ext msg).0).queue
        ≡ (channel ext b).queue ++ new_message b.heap.next_address cmd msg ∷ []
      × (channel ext (bts_process_smscb_cmd b true cmd ext msg).0).default_msg
        ≡ (channel ext b).default_msg
unfolding bts_process_smscb_cmd process by_command queue_message
command-queue b cmd true msg c h l = ground arith
command-queue b cmd false msg c h l = ground arith

-- A normal command with a message of at most 22 octets for each of its segments, which finds room in the queue,
-- is received, padded, after the messages that were queued before it, in rounds that begin in the
-- channel's first multiframe, if the messages there and the default message have one to four segments.
pub command_received :
    (b : Station) (cmd : Cmd) (ext : Bool) (msg : List ℕ) (fn : ℕ)
    → cmd.command ≡ normal
    → length msg ≤ segments cmd * 22
    → leb_ℤ b.smscb_queue_max_len (pos (channel ext b).queue_len) ≡ false
    → all is_sendable (channel ext b).queue ≡ true
    → is_sendable_option (channel ext b).default_msg ≡ true
    → fn / 51 % 8 ≡ first_tb ext
    → listen (bts_process_smscb_cmd b true cmd ext msg).0 fn (suc (length (channel ext b).queue))
      ≡ in_order (channel ext b).queue (channel ext b).default_msg (length (channel ext b).queue)
        ++ some (padded cmd msg) ∷ []
command_received b cmd ext msg fn c h l g g' e =
    let q = (channel ext b).queue in
    let d = (channel ext b).default_msg in
    let m = new_message b.heap.next_address cmd msg in
    let w : length msg ≤ 88 = ground arith in
    let r = command-queue b cmd ext msg c w l in
    let t = text-new_message b.heap.next_address cmd msg h in
    listen-in_order (bts_process_smscb_cmd b true cmd ext msg).0 ext fn (suc (length q))
      (q ++ m ∷ []) d e r.0 r.1 (all-sendable-append q m g t.1) g'
    ∙ in_order-append q d m
    ∙ ap (λ x. in_order q d (length q) ++ some x ∷ []) t.0
