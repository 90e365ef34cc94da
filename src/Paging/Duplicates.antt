-- ===== src/Paging/Duplicates.antt =====
-- paging_add_identity of src/common/paging.c on a page that is already in its group's queue.
use osmo_bts.Base.{
  ℕ, zero, suc, ◌+◌, ◌-◌, ◌%◌, ◌≤◌, ◌<◌, ◌≡◌, refl, ap, ◌∙◌, Bool, true, none, some, List, [], ◌∷◌,
  ◌++◌, length, get_or, set, take, replicate, arith, Option-cases, get_or-set_self, length-set,
}
use osmo_bts.Osmo.{Osmo}
use osmo_bts.Notification.{same_octets}
use osmo_bts.Paging.Types.{PagingRecord, normal, Paging, success, eexist, u32_mod}
use osmo_bts.Paging.Queue.{
  check_congestion, queue_of, put_queue, add_identity, add_checked, after_search, enqueue, refresh,
  same_identity, stored_identity, count_on, count_rcvd,
}

-- What a success says of the state before and after.
pub record IsAdded (o : Osmo) (now group : ℕ) (id : List ℕ) (chan_needed : ℕ) (p p' : Paging)
    : Type 0 where
  pub in_range : group < o.n_subchannels p.chan_desc
  pub room : p.num_paging < p.num_paging_max
  pub short : get_or id 0 0 ≤ 8
  pub is_new : refresh id (now + p.paging_lifetime) (queue_of p group) ≡ none
  pub queues :
      p'.paging_queue
      ≡ set p.paging_queue group
          (normal (now + p.paging_lifetime) chan_needed (stored_identity id) ∷ queue_of p group)
  pub num : p'.num_paging ≡ (p.num_paging + 1) % u32_mod
  pub desc : p'.chan_desc ≡ p.chan_desc
  pub limit : p'.num_paging_max ≡ p.num_paging_max

add_checked-IsAdded :
    (o : Osmo) (memory : Bool) (now group : ℕ) (id : List ℕ) (chan_needed : ℕ) (p p' : Paging)
    → add_checked o memory now group id chan_needed p ≡ (p', success)
    → IsAdded o now group id chan_needed p p'
unfolding add_checked after_search enqueue
add_checked-IsAdded o memory now group id chan_needed p p' h =
    ground (arith, Option-cases (refresh id (now + p.paging_lifetime) (queue_of p group)))

same_octets_refl : (xs : List ℕ) → same_octets xs xs ≡ true
same_octets_refl [] = refl
same_octets_refl (x ∷ xs) = ground (arith, same_octets_refl xs)

take_prefix : (n : ℕ) (xs ys : List ℕ) → n ≤ length xs → take n (take n xs ++ ys) ≡ take n xs
take_prefix zero xs ys h = refl
take_prefix (suc n) [] ys h = absurd (omega arith)
take_prefix (suc n) (x ∷ xs) ys h = ap (λ l. x ∷ l) (take_prefix n xs ys (omega arith))

-- What is stored of an identity is found again under it.
pub same_identity-stored :
    (n : ℕ) (body : List ℕ)
    → n ≤ length body
    → same_identity (n ∷ body) (stored_identity (n ∷ body)) ≡ true
same_identity-stored n body h =
    ground (arith, same_octets_refl (take n body), take_prefix n body (replicate (8 - n) 0) h)

-- The check for congestion changes its flag and a counter alone.
check_congestion_same :
    (p : Paging)
    → ((check_congestion p).chan_desc ≡ p.chan_desc)
      × ((check_congestion p).paging_lifetime ≡ p.paging_lifetime)
      × ((check_congestion p).num_paging_max ≡ p.num_paging_max)
      × ((check_congestion p).num_paging ≡ p.num_paging)
      × ((check_congestion p).paging_queue ≡ p.paging_queue)
unfolding check_congestion
check_congestion_same p = (ground arith, ground arith, ground arith, ground arith, ground arith)

add_identity-IsAdded :
    (o : Osmo) (memory : Bool) (now group : ℕ) (id : List ℕ) (chan_needed : ℕ) (p p' : Paging)
    → add_identity o memory now group id chan_needed p ≡ (p', success)
    → IsAdded o now group id chan_needed p p'
unfolding add_identity
add_identity-IsAdded o memory now group id chan_needed p p' h =
    settle (add_checked-IsAdded o memory now group id chan_needed _ p' h)
  where
    settle :
        IsAdded o now group id chan_needed (count_on (check_congestion p) count_rcvd) p'
        → IsAdded o now group id chan_needed p p'
    settle a = ground (arith, check_congestion_same p)

refresh_head :
    (id : List ℕ) (expires e n : ℕ) (lv : List ℕ) (q : List PagingRecord)
    → same_identity id lv ≡ true
    → refresh id expires (normal e n lv ∷ q) ≡ some (normal expires n lv ∷ q)
unfolding refresh
refresh_head id expires e n lv q h = rw h

add_checked_known :
    (o : Osmo) (memory : Bool) (now group : ℕ) (id : List ℕ) (c : ℕ) (p : Paging)
    (q : List PagingRecord)
    → group < o.n_subchannels p.chan_desc
    → p.num_paging < p.num_paging_max
    → refresh id (now + p.paging_lifetime) (queue_of p group) ≡ some q
    → add_checked o memory now group id c p ≡ (put_queue p group q, eexist)
unfolding add_checked after_search
add_checked_known o memory now group id c p q h room e = ground arith

module _ (o : Osmo) (now group n : ℕ) (body : List ℕ) (c : ℕ) (p p' : Paging)
    (added : IsAdded o now group (n ∷ body) c p p') (le : n ≤ length body)
    (lt : group < length p.paging_queue) where
  -- The page at the head of its group's queue.
  abbrev page : ℕ → PagingRecord
  page expires = normal expires c (stored_identity (n ∷ body))

  queue_added : queue_of p' group ≡ page (now + p.paging_lifetime) ∷ queue_of p group
  queue_added =
      ap (λ qs. get_or qs group []) added.queues ∙ get_or-set_self p.paging_queue group _ [] lt

  found :
      (expires : ℕ)
      → refresh (n ∷ body) expires (queue_of p' group) ≡ some (page expires ∷ queue_of p group)
  found expires =
      ap (refresh (n ∷ body) expires) queue_added
      ∙ refresh_head (n ∷ body) expires (now + p.paging_lifetime) c (stored_identity (n ∷ body))
          (queue_of p group) (same_identity-stored n body le)

  again :
      (memory' : Bool) (now' c' : ℕ) (q : Paging)
      → p'.num_paging < p'.num_paging_max
      → q.chan_desc ≡ p'.chan_desc
      → q.paging_lifetime ≡ p'.paging_lifetime
      → q.num_paging_max ≡ p'.num_paging_max
      → q.num_paging ≡ p'.num_paging
      → q.paging_queue ≡ p'.paging_queue
      → add_checked o memory' now' group (n ∷ body) c' q
        ≡ (put_queue q group (page (now' + p'.paging_lifetime) ∷ queue_of p group), eexist)
  again memory' now' c' q room d l m k e =
      add_checked_known o memory' now' group (n ∷ body) c' q _
        (ground (arith, added.in_range, added.desc)) (ground arith)
        (ap (λ qs. refresh (n ∷ body) (now' + q.paging_lifetime) (get_or qs group [])) e
          ∙ found (now' + q.paging_lifetime)
          ∙ ap (λ t. some (page (now' + t) ∷ queue_of p group)) l)

-- A page that was just queued is found again: a second request for it in the group, while there is
-- room, is answered with -EEXIST and starts its time anew at the head of the queue.
pub add_identity_twice :
    (o : Osmo) (memory memory' : Bool) (now now' group n : ℕ) (body : List ℕ) (c c' : ℕ)
    (p p' : Paging)
    → add_identity o memory now group (n ∷ body) c p ≡ (p', success)
    → n ≤ length body
    → group < length p.paging_queue
    → p'.num_paging < p'.num_paging_max
    → ((add_identity o memory' now' group (n ∷ body) c' p').1 ≡ eexist)
      × (queue_of (add_identity o memory' now' group (n ∷ body) c' p').0 group
          ≡ normal (now' + p'.paging_lifetime) c (stored_identity (n ∷ body)) ∷ queue_of p group)
      × ((add_identity o memory' now' group (n ∷ body) c' p').0.num_paging ≡ p'.num_paging)
unfolding add_identity
add_identity_twice o memory memory' now now' group n body c c' p p' h le lt room =
    let added = add_identity-IsAdded o memory now group (n ∷ body) c p p' h in
    let same = check_congestion_same p' in
    let e =
      again o now group n body c p p' added le lt memory' now' c'
        (count_on (check_congestion p') count_rcvd) room same.0 same.1 same.2 same.3 same.4 in
    (
      ap (λ r. r.1) e,
      ap (λ r. queue_of r.0 group) e
          ∙ get_or-set_self (check_congestion p').paging_queue group _ [] (
              ground (
                arith,
                same.4,
                added.queues,
                length-set p.paging_queue group (
                    normal (now + p.paging_lifetime) c (stored_identity (n ∷ body))
                    ∷ queue_of p group),
              )),
      ap (λ r. r.0.num_paging) e ∙ same.3,
    )
