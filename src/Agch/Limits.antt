-- ===== src/Agch/Limits.antt =====
-- The length of the access grant queue of src/common/bts.c and what becomes of its messages.
use native.Mathlib.Nat.{zero-mul, zero-div}
use osmo_bts.Base.{
  ℕ, suc, ◌+◌, ◌-◌, ◌*◌, ◌/◌, ◌%◌, ◌≤◌, ◌<◌, ◌≡◌, inl, inr, refl, sym, ap, ◌∙◌, Bool, true, false,
  List, [], ◌∷◌, ◌++◌, length, ltb→lt, Bool-cases, ltb, leb, if_elim, arith, length-append,
}
use osmo_bts.Osmo.{Osmo}
use osmo_bts.Paging.Time.{GsmTime}
use osmo_bts.Paging.Gen.{Result}
use osmo_bts.Agch.Reject.{Body, Merged}
use osmo_bts.Agch.Queue.{
  Msg, Agch, merge_last, append_msg, after_merge, bts_agch_enqueue, dequeue_from, bts_agch_dequeue,
  Compacted, drop_loop, compact_agch_queue, max_len_of, offs_of,
}
use osmo_bts.Agch.Ccch.{
  Kind, nch, pch, agch_kind, Ccch, Sent, nothing, page, grant, Block, grant_or, page_or_grant, fill,
  bts_ccch_copy_msg,
}

-- The length is counted right and within the hard limit.
abbrev pub IsCounted : Agch → Type 0
IsCounted a = (a.agch_length ≡ length a.queue) × (a.agch_length ≤ 101)

length-merge_last : (b : Body) (ms : List Msg) → length (merge_last b ms).0 ≡ length ms
unfolding merge_last
length-merge_last b [] = refl
length-merge_last b (m ∷ []) = refl
length-merge_last b (m ∷ n ∷ ms) = ap suc (length-merge_last b (n ∷ ms))

length-append_one : (ms : List Msg) (m : Msg) → length (ms ++ m ∷ []) ≡ length ms + 1
length-append_one ms m = length-append ms (m ∷ [])

after_merge-IsCounted :
    (m : Msg) (a : Agch) (r : List Msg × Merged)
    → length r.0 ≡ length a.queue
    → a.agch_length ≡ length a.queue
    → a.agch_length ≤ 100
    → IsCounted (after_merge m a r)
unfolding after_merge append_msg
after_merge-IsCounted m a r e f le =
    ground (arith, length-append_one r.0 (record m { body = r.1.new_rej }))

enqueue-IsCounted : (m : Msg) (a : Agch) → IsCounted a → IsCounted (bts_agch_enqueue m a).0
unfolding bts_agch_enqueue append_msg
enqueue-IsCounted m a v = ground (
  arith,
  length-append_one a.queue m,
  after_merge-IsCounted m a (merge_last m.body a.queue) (length-merge_last m.body a.queue),
)

-- What the loop of the compaction keeps, for a queue of `ms`.
abbrev pub IsCompacted : ℕ → ℕ → List Msg → Compacted → Type 0
IsCompacted offs len ms c =
    (ms ≡ c.dropped ++ c.rest)
    × (c.rest_length ≡ length c.rest)
    × (c.rest_length ≤ len)
    × (offs ≤ len → offs ≤ c.rest_length)

no_drop : (d slope max_len : ℕ) → d ≡ 0 → d * slope / max_len ≡ 0
no_drop d slope max_len e =
    ap (λ n. n * slope / max_len) e ∙ ap (λ n. n / max_len) (zero-mul slope) ∙ zero-div max_len

above_low :
    (len offs slope max_len r : ℕ) → leb ((len - offs) * slope / max_len) r ≡ false → offs < len
above_low len offs slope max_len r e = elim (Bool-cases (ltb offs len)) [
  | inl h ↦ ltb→lt offs len h
  | inr h ↦ absurd (let z = no_drop (len - offs) slope max_len (at_most len offs h) in ground arith)
]
  where
    at_most : (len offs : ℕ) → ltb offs len ≡ false → len - offs ≡ 0
    at_most len offs h = ground arith

drop_loop-IsCompacted :
    (random : ℕ → ℕ) (i max_len offs slope len : ℕ) (ms : List Msg)
    → len ≡ length ms
    → IsCompacted offs len ms (drop_loop random i max_len offs slope len ms)
unfolding drop_loop
drop_loop-IsCompacted random i max_len offs slope len [] e = (refl, e, omega arith, λ h. h)
drop_loop-IsCompacted random i max_len offs slope len (m ∷ ms) e =
    let p_drop = (len - offs) * slope / max_len in
    let r = drop_loop random (i + 1) max_len offs slope (len - 1) ms in
    let h = drop_loop-IsCompacted random (i + 1) max_len offs slope (len - 1) ms (omega arith) in
    if_elim (IsCompacted offs len (m ∷ ms)) (leb p_drop (random i % 65536))
      (record { rest = m ∷ ms; rest_length = len; dropped = [] })
      (record r { dropped = m ∷ r.dropped }) (λ t. (refl, e, omega arith, λ z. z))
      (λ t. (
        ap (λ l. m ∷ l) h.0,
        h.1,
        omega arith,
        λ z. h.3 (let k = above_low len offs slope max_len _ t in omega arith),
      ))

IsCompaction : Agch → Agch × List Msg → Type 0
IsCompaction a r =
    IsCounted r.0
    × (a.queue ≡ r.1 ++ r.0.queue)
    × (offs_of a ≤ a.agch_length → offs_of a ≤ r.0.agch_length)

compact_agch_queue-IsCompaction :
    (random : ℕ → ℕ) (a : Agch) → IsCounted a → IsCompaction a (compact_agch_queue random a)
unfolding compact_agch_queue IsCompaction
compact_agch_queue-IsCompaction random a v =
    if_elim (IsCompaction a) (ltb a.agch_length (max_len_of a * a.thresh_level / 100)) _ _
      (λ t. (v, refl, λ z. z))
      (λ t.
        let h =
          drop_loop-IsCompacted random 0 (max_len_of a) (offs_of a) _ a.agch_length a.queue v.0 in
        ((h.1, omega arith), h.0, h.3))

-- The access grants among what is sent.
abbrev pub grants : Sent → List Msg
grants (grant m) = m ∷ []
grants _ = []

-- A block takes nothing from the access grant queue but what it drops and sends, in order.
abbrev pub IsServed : Agch → Block → Type 0
IsServed a b =
    IsCounted b.after.agch × (a.queue ≡ b.dropped ++ (grants b.sent ++ b.after.agch.queue))

dequeue_from-IsServed :
    (as_agch : Bool) (s : Sent) (c : Ccch) (a : Agch) (dropped ms : List Msg) (b : Agch)
    → grants s ≡ []
    → IsCounted a
    → b.queue ≡ dropped ++ a.queue
    → a.queue ≡ ms
    → IsServed b (grant_or as_agch s c dropped (dequeue_from a ms))
unfolding dequeue_from grant_or
dequeue_from-IsServed as_agch s c a dropped [] b g v e f =
    (v, e ∙ sym (ap (λ l. dropped ++ (l ++ a.queue)) g))
dequeue_from-IsServed true s c a dropped (m ∷ ms) b g v e f =
    let l = ap length f in ((omega arith, omega arith), e ∙ ap (λ q. dropped ++ q) f)
dequeue_from-IsServed false s c a dropped (m ∷ ms) b g v e f =
    let l = ap length f in ((omega arith, omega arith), e ∙ ap (λ q. dropped ++ q) f)

page_or_grant-IsServed :
    (c : Ccch) (b : Agch) (dropped : List Msg) (r : Result)
    → IsCounted c.agch
    → b.queue ≡ dropped ++ c.agch.queue
    → IsServed b (page_or_grant c dropped r)
unfolding page_or_grant bts_agch_dequeue
page_or_grant-IsServed c b dropped r v e =
    if_elim (IsServed b) r.is_empty _ _
      (λ t.
        dequeue_from-IsServed false (page r.len r.out) _ c.agch dropped c.agch.queue b refl v e
          refl)
      (λ t. (v, e))

fill-IsServed :
    (o : Osmo) (now : ℕ) (gt : GsmTime) (k : Kind) (c : Ccch) (b : Agch) (dropped : List Msg)
    → IsCounted c.agch
    → b.queue ≡ dropped ++ c.agch.queue
    → IsServed b (fill o now gt k c dropped)
unfolding fill bts_agch_dequeue
fill-IsServed o now gt nch c b dropped v e = (v, e)
fill-IsServed o now gt pch c b dropped v e = page_or_grant-IsServed c b dropped _ v e
fill-IsServed o now gt agch_kind c b dropped v e =
    dequeue_from-IsServed true nothing c c.agch dropped c.agch.queue b refl v e refl

-- From a queue that is counted right, a block of any kind drops messages from the front of the access
-- grant queue and then sends the next one or none; all others stay, in their order, and counted.
pub bts_ccch_copy_msg-IsServed :
    (o : Osmo) (random : ℕ → ℕ) (now : ℕ) (gt : GsmTime) (k : Kind) (c : Ccch)
    → IsCounted c.agch
    → IsServed c.agch (bts_ccch_copy_msg o random now gt k c)
unfolding bts_ccch_copy_msg IsCompaction
bts_ccch_copy_msg-IsServed o random now gt k c v =
    let h = compact_agch_queue-IsCompaction random c.agch v in
    fill-IsServed o now gt k _ c.agch _ h.0 h.1

-- The compaction of a queue that is counted right, whatever the random numbers are, drops messages
-- from its front only and never below the low level.
pub compact_agch_queue-offs_of :
    (random : ℕ → ℕ) (a : Agch)
    → IsCounted a
    → offs_of a ≤ a.agch_length
    → (a.queue ≡ (compact_agch_queue random a).1 ++ (compact_agch_queue random a).0.queue)
      × (offs_of a ≤ (compact_agch_queue random a).0.agch_length)
unfolding IsCompaction
compact_agch_queue-offs_of random a v le =
    let h = compact_agch_queue-IsCompaction random a v in (h.1, h.2 le)

-- A use of the queue: a message that is enqueued, or a block that is filled.
pub data Use : Type 0 where
  enqueues : Msg → Use
  sends : Osmo → (ℕ → ℕ) → ℕ → GsmTime → Kind → Use

unfoldable pub use_queue : Ccch → Use → Ccch
use_queue c (enqueues m) = record c { agch = (bts_agch_enqueue m c.agch).0 }
use_queue c (sends o random now gt k) = (bts_ccch_copy_msg o random now gt k c).after

unfoldable pub use_all : Ccch → List Use → Ccch
use_all c [] = c
use_all c (u ∷ us) = use_all (use_queue c u) us

use_queue-IsCounted : (c : Ccch) (u : Use) → IsCounted c.agch → IsCounted (use_queue c u).agch
unfolding use_queue
use_queue-IsCounted c (enqueues m) v = enqueue-IsCounted m c.agch v
use_queue-IsCounted c (sends o random now gt k) v =
    (bts_ccch_copy_msg-IsServed o random now gt k c v).0

-- After any messages and blocks, in any order, the length of the access grant queue is counted right
-- and at most 101.
pub use_all-IsCounted :
    (us : List Use) (c : Ccch) → IsCounted c.agch → IsCounted (use_all c us).agch
unfolding use_all
use_all-IsCounted [] c v = v
use_all-IsCounted (u ∷ us) c v = use_all-IsCounted us (use_queue c u) (use_queue-IsCounted c u v)
