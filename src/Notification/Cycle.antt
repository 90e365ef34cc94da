-- ===== src/Notification/Cycle.antt =====
-- How the notifications of src/common/notification.c are kept and announced.
use osmo_bts.Base.{
  ℕ, zero, suc, ◌+◌, ◌≤◌, ◌<◌, ◌≡◌, ◌⊎◌, inl, inr, refl, sym, ap, ◌∙◌, Bool, Option, none, some,
  List, [], ◌∷◌, ◌++◌, length, arith, length-append, Option-cases,
}
use mathlib.Core.List.{append-nil, append_assoc}
use osmo_bts.Osmo.{Osmo, BitOp, bit_zero, bit_one, uint}
use osmo_bts.Notification.{
  Notification, Asci, find, remove, add, del, reset, rotate, nch_gen_msg, group_call_of,
}

-- The counter of the entries is the length of the list, and the counter of a round stays below it.
pub record IsValid (a : Asci) : Type 0 where
  pub entries_lem : a.entries ≡ length a.notifications
  pub within : (a.count ≡ 0) ⊎ (a.count < a.entries)

-- A call of this file's interface.
pub data Call : Type 0 where
  adds : Bool → List ℕ → Option (List ℕ) → Call
  deletes : List ℕ → Call
  resets : Call
  announces : Call

pub step : Osmo → Asci → Call → Asci
unfolding add del reset nch_gen_msg
step o a (adds memory ref desc) = (add memory ref desc a).0
step o a (deletes ref) = (del ref a).0
step o a resets = reset a
step o a announces = (nch_gen_msg o a).0

length-rotate : (ns : List Notification) → length (rotate ns) ≡ length ns
length-rotate [] = refl
length-rotate (n ∷ ns) = omega (arith, length-append ns (n ∷ []))

length-remove :
    (ref : List ℕ) (ns : List Notification) (n : Notification)
    → find ref ns ≡ some n
    → suc (length (remove ref ns)) ≡ length ns
unfolding find remove
length-remove ref [] n h = cc
length-remove ref (x ∷ xs) n h = ground (arith, length-remove ref xs n)

add-IsValid :
    (memory : Bool) (ref : List ℕ) (desc : Option (List ℕ)) (a : Asci)
    → IsValid a
    → IsValid (add memory ref desc a).0
unfolding add
add-IsValid memory ref desc a v = ground arith

del-IsValid : (ref : List ℕ) (a : Asci) → IsValid a → IsValid (del ref a).0
unfolding del
del-IsValid ref a v = elim (Option-cases (find ref a.notifications)) [
  | inl e ↦ rw (e, del) v
  | inr (n, e) ↦
      rw (e, del)
        (record {
          entries_lem = omega (arith, v.entries_lem, length-remove ref a.notifications n e);
          within = inl refl;
        })
]

nch_gen_msg-IsValid : (o : Osmo) (a : Asci) → IsValid a → IsValid (nch_gen_msg o a).0
unfolding nch_gen_msg
nch_gen_msg-IsValid o a v = ground (arith, length-rotate a.notifications)

-- Every call of the interface keeps a valid list valid: the entries are counted right and the
-- round's counter stays below them.
pub step-IsValid : (o : Osmo) (a : Asci) (c : Call) → IsValid a → IsValid (step o a c)
unfolding step
step-IsValid o a (adds memory ref desc) v = add-IsValid memory ref desc a v
step-IsValid o a (deletes ref) v = del-IsValid ref a v
step-IsValid o a resets v = record { entries_lem = refl; within = inl refl }
step-IsValid o a announces v = nch_gen_msg-IsValid o a v

-- What `k` messages in a row leave and write.
pub round : Osmo → ℕ → Asci → Asci × List (List BitOp)
round o zero a = (a, [])
round o (suc k) a =
    let (a', msg) = nch_gen_msg o a in let (b, msgs) = round o k a' in (b, msg ∷ msgs)

-- The message that announces a call, with the list number if it is the last one.
pub announce : Osmo → Option ℕ → Notification → List BitOp
announce o none n = bit_zero ∷ ((bit_one ∷ group_call_of o n) ++ bit_zero ∷ [])
announce o (some nln) n =
    (bit_one ∷ uint nln 2 ∷ []) ++ ((bit_one ∷ group_call_of o n) ++ bit_zero ∷ [])

-- Every call once, the list number with the last.
pub announcements : Osmo → ℕ → List Notification → List (List BitOp)
unfolding announce
announcements o nln [] = []
announcements o nln (n ∷ []) = announce o (some nln) n ∷ []
announcements o nln (n ∷ m ∷ ns) = announce o none n ∷ announcements o nln (m ∷ ns)

-- One message, of a round that goes on or that ends with it.
nch_gen_msg-inner :
    (o : Osmo) (n : Notification) (ns : List Notification) (a : Asci)
    → a.notifications ≡ n ∷ ns
    → a.count + 1 < a.entries
    → nch_gen_msg o a
      ≡ (record a { notifications = ns ++ n ∷ []; count = a.count + 1 }, announce o none n)
unfolding nch_gen_msg announce
nch_gen_msg-inner o n ns a h lt = ground arith

nch_gen_msg-last :
    (o : Osmo) (n : Notification) (ns : List Notification) (a : Asci)
    → a.notifications ≡ n ∷ ns
    → a.entries ≤ a.count + 1
    → nch_gen_msg o a
      ≡ (record a { notifications = ns ++ n ∷ []; count = 0 }, announce o (some a.nln) n)
unfolding nch_gen_msg announce
nch_gen_msg-last o n ns a h le = ground arith

round-next :
    (o : Osmo) (k : ℕ) (a b c : Asci) (m : List BitOp) (ms : List (List BitOp))
    → nch_gen_msg o a ≡ (b, m)
    → round o k b ≡ (c, ms)
    → round o (suc k) a ≡ (c, m ∷ ms)
unfolding round
round-next o k a b c m ms e f = cc (e, f, ap (λ r. r.0) e, ap (λ r. r.1) e)

round-suffix :
    (o : Osmo) (x : Notification) (xs ys : List Notification) (a : Asci)
    → a.notifications ≡ (x ∷ xs) ++ ys
    → a.entries ≡ a.count + length (x ∷ xs)
    → round o (length (x ∷ xs)) a
      ≡ (record a { notifications = ys ++ x ∷ xs; count = 0 }, announcements o a.nln (x ∷ xs))
unfolding round announcements
round-suffix o x [] ys a h e =
    round-next o 0 a _ _ _ [] (nch_gen_msg-last o x ys a h (omega (arith, e))) refl
round-suffix o x (y ∷ xs) ys a h e =
    round-next o (length (y ∷ xs)) a
      (record a { notifications = ((y ∷ xs) ++ ys) ++ x ∷ []; count = a.count + 1 }) _ _ _
      (nch_gen_msg-inner o x ((y ∷ xs) ++ ys) a h (omega (arith, e)))
      (round-suffix o y xs (ys ++ x ∷ [])
          (record a { notifications = ((y ∷ xs) ++ ys) ++ x ∷ []; count = a.count + 1 })
          (append_assoc (y ∷ xs) ys (x ∷ [])) (omega (arith, e))
        ∙ ap (λ l. (record a { notifications = l; count = 0 }, announcements o a.nln (y ∷ xs)))
            (append_assoc ys (x ∷ []) (y ∷ xs)))

round-whole :
    (o : Osmo) (ns : List Notification) (a : Asci)
    → a.notifications ≡ ns
    → a.entries ≡ length ns
    → a.count ≡ 0
    → round o (length ns) a ≡ (a, announcements o a.nln ns)
unfolding round announcements
round-whole o [] a h e start = refl
round-whole o (n ∷ ns) a h e start =
    rw (round-suffix o n ns [] a (rw append-nil h) (omega (arith, e, start))) (cc (h, sym start))

-- From the start of a round, as many messages as there are calls announce each call once, in order
-- and the list number with the last, and leave the state as it was.
pub nch_round :
    (o : Osmo) (a : Asci)
    → IsValid a
    → a.count ≡ 0
    → round o a.entries a ≡ (a, announcements o a.nln a.notifications)
nch_round o a v start =
    ap (λ n. round o n a) v.entries_lem ∙ round-whole o a.notifications a refl v.entries_lem start
