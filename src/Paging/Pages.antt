-- ===== src/Paging/Pages.antt =====
-- The pages into which src/common/paging.c cuts a warning that src/common/rsl.c stored.
use osmo_bts.Base.{
  ℕ, zero, suc, ◌+◌, ◌-◌, ◌*◌, ◌^◌, ◌≤◌, ◌<◌, ◌≡◌, ◌⊎◌, inl, inr, refl, sym, ap, ◌∙◌, none, some,
  List, [], ◌++◌, length, take, drop, ltb, if_elim, arith, take-append-drop, drop-drop, take_all,
  length-take, length-drop,
}
use mathlib.Core.Path.{ap₂}
use mathlib.Core.List.{append-nil}
use native.Mathlib.Nat.{mod-eq_of_lt}
use osmo_bts.Osmo.{Osmo}
use osmo_bts.Paging.Types.{Etws}
use osmo_bts.Paging.Rest.{P1RestOctets, append_p1_rest_octets}
use osmo_bts.Paging.Sizes.{bits_of, p1_etws_bits}
use osmo_bts.Paging.Etws.{etws_cmd, build_p1_rest_octets, page_bytes, octets_of}

-- A stored warning, cut into pages of 14 octets, with a page of it next.
pub record IsCut (notif : List ℕ) (e : Etws) : Type 0 where
  pub stored : e.prim_notif ≡ some notif
  pub len_lem : e.prim_notif_len ≡ length notif
  pub size_lem : e.page_size ≡ 14
  pub last_starts : 14 * (e.num_pages - 1) < length notif
  pub last_ends : length notif ≤ 14 * e.num_pages
  pub next-lt : e.next_page < e.num_pages
  pub small : e.num_pages < 256

-- A warning that comes where none is on the air is cut right, page 0 first.
pub etws_cmd-IsCut :
    (notif : List ℕ) (e : Etws)
    → e.next_page ≡ 0
    → 0 < length notif
    → length notif ≤ 14 * 255
    → IsCut notif (etws_cmd notif e)
unfolding etws_cmd
etws_cmd-IsCut notif e start pos le = ground arith

build-IsCut : (notif : List ℕ) (e : Etws) → IsCut notif e → IsCut notif (build_p1_rest_octets e).1
unfolding build_p1_rest_octets
build-IsCut notif e c = ground arith

-- The octets of the page in the rest octets.
abbrev pub page_of : P1RestOctets → List ℕ
page_of p = elim p.etws [ none ↦ [] | some x ↦ x.page ]

-- The octets of the next `k` pages.
pub pages : ℕ → Etws → List ℕ
pages zero e = []
pages (suc k) e = let (p, e') = build_p1_rest_octets e in page_of p ++ pages k e'

-- A page that is not the last has 14 octets; the last has what is left.
page_bytes-inner :
    (notif : List ℕ) (e : Etws) → IsCut notif e → e.next_page + 1 < e.num_pages → page_bytes e ≡ 14
page_bytes-inner notif e c h = ground arith

page_bytes-last :
    (notif : List ℕ) (e : Etws)
    → IsCut notif e
    → e.next_page + 1 ≡ e.num_pages
    → page_bytes e ≡ length notif - 14 * e.next_page
page_bytes-last notif e c h =
    if_elim (λ n. n ≡ length notif - 14 * e.next_page) (ltb e.next_page (e.num_pages - 1)) _ _
      (λ lt. absurd (ground arith)) (λ ge. rw (c.size_lem, c.len_lem) (omega (arith, c)))

page_as_take :
    (notif : List ℕ) (e : Etws)
    → IsCut notif e
    → page_of (build_p1_rest_octets e).0 ≡ take (page_bytes e) (drop (14 * e.next_page) notif)
unfolding build_p1_rest_octets
page_as_take notif e c =
    ap (λ o. take (page_bytes e) (drop (e.page_size * e.next_page) (octets_of o))) c.stored
    ∙ ap (λ s. take (page_bytes e) (drop (s * e.next_page) notif)) c.size_lem

page_next :
    (notif : List ℕ) (e : Etws)
    → IsCut notif e
    → e.next_page + 1 < e.num_pages
    → (build_p1_rest_octets e).1 ≡ record e { next_page = e.next_page + 1 }
unfolding build_p1_rest_octets
page_next notif e c h = ground (arith, mod-eq_of_lt h)

pages_lem :
    (k : ℕ) (notif : List ℕ) (e : Etws)
    → IsCut notif e
    → e.next_page + suc k ≡ e.num_pages
    → pages (suc k) e ≡ drop (14 * e.next_page) notif
unfolding pages
pages_lem zero notif e c h =
    append-nil _
    ∙ page_as_take notif e c
    ∙ ap (λ n. take n (drop (14 * e.next_page) notif))
        (page_bytes-last notif e c (omega (arith, h)))
    ∙ take_all (length notif - 14 * e.next_page) (drop (14 * e.next_page) notif)
        (omega (arith, length-drop (14 * e.next_page) notif))
pages_lem (suc k) notif e c h =
    let more : e.next_page + 1 < e.num_pages = omega (arith, h) in
    let rest : pages (suc k) (build_p1_rest_octets e).1 ≡ drop (14 * e.next_page + 14) notif =
      ap (pages (suc k)) (page_next notif e c more)
      ∙ pages_lem k notif (record e { next_page = e.next_page + 1 }) (ground arith)
          (omega (arith, h))
      ∙ ap (λ n. drop n notif) (omega arith) in
    ap₂ (◌++◌)
      (page_as_take notif e c
        ∙ ap (λ n. take n (drop (14 * e.next_page) notif)) (page_bytes-inner notif e c more))
      (rest ∙ sym (drop-drop 14 (14 * e.next_page) notif))
    ∙ take-append-drop 14 (drop (14 * e.next_page) notif)

etws_cmd-next_page :
    (notif : List ℕ) (e : Etws) → e.next_page ≡ 0 → (etws_cmd notif e).next_page ≡ 0
unfolding etws_cmd
etws_cmd-next_page notif e start = ground arith

-- The pages of one cycle, from page 0, put together are the warning, for a warning of 1 to 3570
-- octets that finds page 0 next.
pub pages_roundtrip :
    (notif : List ℕ) (e : Etws)
    → e.next_page ≡ 0
    → 0 < length notif
    → length notif ≤ 14 * 255
    → pages (etws_cmd notif e).num_pages (etws_cmd notif e) ≡ notif
pages_roundtrip notif e start pos le =
    ap (λ n. pages n cmd) whole
    ∙ pages_lem (cmd.num_pages - 1) notif cmd cut (omega (arith, first, cut.next-lt))
    ∙ ap (λ n. drop (14 * n) notif) first
  where
    cmd : Etws
    cmd = etws_cmd notif e

    cut : IsCut notif cmd
    cut = etws_cmd-IsCut notif e start pos le

    first : cmd.next_page ≡ 0
    first = etws_cmd-next_page notif e start

    whole : cmd.num_pages ≡ suc (cmd.num_pages - 1)
    whole = omega (arith, cut.next-lt)

-- A warning that is not empty and replaces one on the air, whose next page starts behind the end
-- of the new one, gets a next page of 2 ^ 63 octets or more.
pub etws_cmd_stale :
    (notif : List ℕ) (e : Etws)
    → 0 < length notif
    → length notif < 14 * e.next_page
    → e.next_page < 256
    → 2 ^ 63 ≤ page_bytes (etws_cmd notif e)
unfolding etws_cmd
etws_cmd_stale notif e pos lt small = ground arith

page_bytes-le : (notif : List ℕ) (e : Etws) → IsCut notif e → page_bytes e ≤ 14
page_bytes-le notif e c = elim (inner_or_last e.next_page e.num_pages c.next-lt) [
  | inl h ↦ omega (arith, page_bytes-inner notif e c h)
  | inr h ↦ omega (arith, c, page_bytes-last notif e c h)
]
  where
    inner_or_last : (i n : ℕ) → i < n → (i + 1 < n) ⊎ (i + 1 ≡ n)
    inner_or_last i n h = grind arith

-- A request of type 1 with a page of a well cut warning and no group call writes its rest octets within the 17 octets that a
-- header of four and an empty identity of two leave.
pub etws_rest_fits :
    (o : Osmo) (notif : List ℕ) (e : Etws)
    → IsCut notif e
    → bits_of (append_p1_rest_octets o (build_p1_rest_octets e).0 none) ≤ 17 * 8
unfolding build_p1_rest_octets
etws_rest_fits o notif e c = omega (
  arith,
  p1_etws_bits o (build_p1_rest_octets e).0 _ refl refl refl,
  page_bytes-le notif e c,
  length-take (page_bytes e) (drop (e.page_size * e.next_page) (octets_of e.prim_notif)),
)
