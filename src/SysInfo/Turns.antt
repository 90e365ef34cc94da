-- ===== src/SysInfo/Turns.antt =====
-- The blocks of the BCCH in turn, one in each multiframe, against the rules of 3GPP TS 45.002 that
-- src/common/sysinfo.c quotes.
use osmo_bts.Base.{
  ℕ, zero, suc, ◌+◌, ◌%◌, ◌≤◌, ◌≡◌, refl, ◌∙◌, ap, Bool, true, false, ◌||◌, none, some, List, [],
  ◌∷◌, ◌++◌, length, get_or, ◌==◌, if◌then◌else◌, arith, Bool-cases, inl, inr,
}
use osmo_bts.SysInfo.Choice.{
  SiType, si1, si2, si2bis, si2ter, si2quater, si3, si4, si9, si13, SysInfo, Sent, si, si2q,
  get_si2q_inc_index, tc4_sub, send, at_tc4, at_tc5, bts_sysinfo_get,
}

-- The blocks that are sent from a TC on.
unfoldable pub run : SysInfo → Bool → ℕ → ℕ → List Sent
run b pcu tc zero = []
run b pcu tc (suc k) = elim (bts_sysinfo_get b pcu tc) [
  | none ↦ []
  | some r ↦ r.1 ∷ run r.0 pcu ((tc + 1) % 8) k
]

abbrev pub code : SiType → ℕ
code si1 = 0
code si2 = 1
code si2bis = 2
code si2ter = 3
code si2quater = 4
code si3 = 5
code si4 = 6
code si9 = 7
code si13 = 8

unfoldable pub same_type : SiType → SiType → Bool
same_type t u = code t == code u

abbrev pub kind : Sent → SiType
kind (si t) = t
kind (si2q i) = si2quater

unfoldable pub sends : SiType → List Sent → Bool
sends t [] = false
sends t (x ∷ xs) = same_type t (kind x) || sends t xs

abbrev pub map_si : List SiType → List Sent
map_si [] = []
map_si (t ∷ ts) = si t ∷ map_si ts

abbrev pub first_block : SysInfo → Sent
first_block b = si (if b.has si1 then si1 else si2)

-- One cycle of eight multiframes.
pub run-cycle :
    (b : SysInfo) (pcu : Bool) (k : ℕ)
    → run b pcu 0 (suc (suc (suc (suc (suc (suc (suc (suc k))))))))
      ≡ first_block b
        ∷ si si2
        ∷ si si3
        ∷ si si4
        ∷ (at_tc4 b (tc4_sub b pcu)).1
        ∷ (at_tc5 (at_tc4 b (tc4_sub b pcu)).0).1
        ∷ si si3
        ∷ si si4
        ∷ run (at_tc5 (at_tc4 b (tc4_sub b pcu)).0).0 pcu 0 k
unfolding run bts_sysinfo_get
run-cycle b pcu k = refl

send_lem :
    (b : SysInfo) (t : SiType)
    → kind (send b t).1 ≡ t × (send b t).0.tc4_ctr ≡ b.tc4_ctr × (send b t).0.has ≡ b.has
unfolding send get_si2q_inc_index
send_lem b t = ground arith

-- What TC 4 sends, and what it leaves.
pub at_tc4_lem :
    (b : SysInfo) (t : SiType) (ts : List SiType)
    → kind (at_tc4 b (t ∷ ts)).1 ≡ get_or (t ∷ ts) ((b.tc4_ctr + 1) % length (t ∷ ts)) t
      × (at_tc4 b (t ∷ ts)).0.tc4_ctr ≡ (b.tc4_ctr + 1) % length (t ∷ ts)
      × (at_tc4 b (t ∷ ts)).0.has ≡ b.has
unfolding at_tc4
at_tc4_lem b t ts =
    send_lem (record b { tc4_ctr = (b.tc4_ctr + 1) % length (t ∷ ts) })
      (get_or (t ∷ ts) ((b.tc4_ctr + 1) % length (t ∷ ts)) t)

pub at_tc5_lem : (b : SysInfo) → (at_tc5 b).0.tc4_ctr ≡ b.tc4_ctr × (at_tc5 b).0.has ≡ b.has
unfolding at_tc5 get_si2q_inc_index
at_tc5_lem b = ground arith

-- The station after a cycle.
abbrev pub after : SysInfo → Bool → SysInfo
after b pcu = (at_tc5 (at_tc4 b (tc4_sub b pcu)).0).0

sends-suffix : (u : SiType) (xs ys : List Sent) → sends u ys ≡ true → sends u (xs ++ ys) ≡ true
unfolding sends
sends-suffix u [] ys h = h
sends-suffix u (x ∷ xs) ys h = let r = sends-suffix u xs ys h in ground arith

pub sends-here :
    (u : SiType) (xs : List Sent) (x : Sent) (ys : List Sent)
    → same_type u (kind x) ≡ true
    → sends u (xs ++ x ∷ ys) ≡ true
unfolding sends
sends-here u [] x ys h = ground arith
sends-here u (z ∷ xs) x ys h = let r = sends-here u xs x ys h in ground arith

abbrev pub early : SysInfo → List Sent
early b = first_block b ∷ si si2 ∷ si si3 ∷ si si4 ∷ []

pub sends-later :
    (u : SiType) (b : SysInfo) (pcu : Bool) (k : ℕ)
    → sends u (run (after b pcu) pcu 0 k) ≡ true
    → sends u (run b pcu 0 (suc (suc (suc (suc (suc (suc (suc (suc k))))))))) ≡ true
sends-later u b pcu k h =
    ap (sends u) (run-cycle b pcu k)
    ∙ sends-suffix u
        (early b
          ++ (at_tc4 b (tc4_sub b pcu)).1
            ∷ (at_tc5 (at_tc4 b (tc4_sub b pcu)).0).1
            ∷ si si3
            ∷ si si4
            ∷ [])
        (run (after b pcu) pcu 0 k) h

-- The messages that share TC 4 depend on what is valid only.
pub tc4_sub-has : (b c : SysInfo) (pcu : Bool) → c.has ≡ b.has → tc4_sub c pcu ≡ tc4_sub b pcu
unfolding tc4_sub
tc4_sub-has b c pcu h = ground arith

-- A cycle sends the next of the messages that share TC 4.
pub after_lem :
    (b : SysInfo) (pcu : Bool) (t : SiType) (ts : List SiType)
    → tc4_sub b pcu ≡ t ∷ ts
    → (after b pcu).tc4_ctr ≡ (b.tc4_ctr + 1) % length (t ∷ ts)
      × (after b pcu).has ≡ b.has
      × tc4_sub (after b pcu) pcu ≡ t ∷ ts
after_lem b pcu t ts h =
    let x = at_tc4_lem b t ts in
    let y = at_tc5_lem (at_tc4 b (tc4_sub b pcu)).0 in
    let e : (after b pcu).has ≡ b.has = y.1 ∙ ap (λ l. (at_tc4 b l).0.has) h ∙ x.2 in
    (y.0 ∙ ap (λ l. (at_tc4 b l).0.tc4_ctr) h ∙ x.1, e, tc4_sub-has b (after b pcu) pcu e ∙ h)

pub sends-turn :
    (u : SiType) (b : SysInfo) (pcu : Bool) (k : ℕ) (t : SiType) (ts : List SiType)
    → tc4_sub b pcu ≡ t ∷ ts
    → same_type u (get_or (t ∷ ts) ((b.tc4_ctr + 1) % length (t ∷ ts)) t) ≡ true
    → sends u (run b pcu 0 (suc (suc (suc (suc (suc (suc (suc (suc k))))))))) ≡ true
sends-turn u b pcu k t ts h e =
    let x = at_tc4_lem b t ts in
    let f : kind (at_tc4 b (tc4_sub b pcu)).1
        ≡ get_or (t ∷ ts) ((b.tc4_ctr + 1) % length (t ∷ ts)) t =
      ap (λ l. kind (at_tc4 b l).1) h ∙ x.0 in
    ap (sends u) (run-cycle b pcu k)
    ∙ sends-here u (early b) (at_tc4 b (tc4_sub b pcu)).1
        ((at_tc5 (at_tc4 b (tc4_sub b pcu)).0).1 ∷ si si3 ∷ si si4 ∷ run (after b pcu) pcu 0 k)
        (ap (same_type u) f ∙ e)

-- Of one to four messages, each has its turn in four steps of the counter.
pub turn-cases :
    (u : SiType) (t : SiType) (ts : List SiType) (c : ℕ)
    → length ts ≤ 3
    → sends u (map_si (t ∷ ts)) ≡ true
    → (same_type u (get_or (t ∷ ts) ((c + 1) % length (t ∷ ts)) t)
        || (same_type u (get_or (t ∷ ts) ((c + 2) % length (t ∷ ts)) t)
            || (same_type u (get_or (t ∷ ts) ((c + 3) % length (t ∷ ts)) t)
                || same_type u (get_or (t ∷ ts) ((c + 4) % length (t ∷ ts)) t))))
      ≡ true
unfolding sends
turn-cases u t [] c l h = ground arith
turn-cases u t (t2 ∷ []) c l h = elim (Bool-cases (c % 2 == 0)) [
  | inl z ↦
      (let e1 : (c + 1) % 2 ≡ 1 = ground arith in
        let e2 : (c + 2) % 2 ≡ 0 = ground arith in
        let e3 : (c + 3) % 2 ≡ 1 = ground arith in
        let e4 : (c + 4) % 2 ≡ 0 = ground arith in ground arith)
  | inr z0 ↦
      (let e1 : (c + 1) % 2 ≡ 0 = ground arith in
        let e2 : (c + 2) % 2 ≡ 1 = ground arith in
        let e3 : (c + 3) % 2 ≡ 0 = ground arith in
        let e4 : (c + 4) % 2 ≡ 1 = ground arith in ground arith)
]
turn-cases u t (t2 ∷ t3 ∷ []) c l h = elim (Bool-cases (c % 3 == 0)) [
  | inl z ↦
      (let e1 : (c + 1) % 3 ≡ 1 = ground arith in
        let e2 : (c + 2) % 3 ≡ 2 = ground arith in
        let e3 : (c + 3) % 3 ≡ 0 = ground arith in
        let e4 : (c + 4) % 3 ≡ 1 = ground arith in ground arith)
  | inr z0 ↦ (elim (Bool-cases (c % 3 == 1)) [
    | inl z ↦
        (let e1 : (c + 1) % 3 ≡ 2 = ground arith in
          let e2 : (c + 2) % 3 ≡ 0 = ground arith in
          let e3 : (c + 3) % 3 ≡ 1 = ground arith in
          let e4 : (c + 4) % 3 ≡ 2 = ground arith in ground arith)
    | inr z1 ↦
        (let e1 : (c + 1) % 3 ≡ 0 = ground arith in
          let e2 : (c + 2) % 3 ≡ 1 = ground arith in
          let e3 : (c + 3) % 3 ≡ 2 = ground arith in
          let e4 : (c + 4) % 3 ≡ 0 = ground arith in ground arith)
  ])
]
turn-cases u t (t2 ∷ t3 ∷ t4 ∷ []) c l h = elim (Bool-cases (c % 4 == 0)) [
  | inl z ↦
      (let e1 : (c + 1) % 4 ≡ 1 = ground arith in
        let e2 : (c + 2) % 4 ≡ 2 = ground arith in
        let e3 : (c + 3) % 4 ≡ 3 = ground arith in
        let e4 : (c + 4) % 4 ≡ 0 = ground arith in ground arith)
  | inr z0 ↦ (elim (Bool-cases (c % 4 == 1)) [
    | inl z ↦
        (let e1 : (c + 1) % 4 ≡ 2 = ground arith in
          let e2 : (c + 2) % 4 ≡ 3 = ground arith in
          let e3 : (c + 3) % 4 ≡ 0 = ground arith in
          let e4 : (c + 4) % 4 ≡ 1 = ground arith in ground arith)
    | inr z1 ↦ (elim (Bool-cases (c % 4 == 2)) [
      | inl z ↦
          (let e1 : (c + 1) % 4 ≡ 3 = ground arith in
            let e2 : (c + 2) % 4 ≡ 0 = ground arith in
            let e3 : (c + 3) % 4 ≡ 1 = ground arith in
            let e4 : (c + 4) % 4 ≡ 2 = ground arith in ground arith)
      | inr z2 ↦
          (let e1 : (c + 1) % 4 ≡ 0 = ground arith in
            let e2 : (c + 2) % 4 ≡ 1 = ground arith in
            let e3 : (c + 3) % 4 ≡ 2 = ground arith in
            let e4 : (c + 4) % 4 ≡ 3 = ground arith in ground arith)
    ])
  ])
]
turn-cases u t (t2 ∷ t3 ∷ t4 ∷ t5 ∷ ts) c l h = absurd (omega arith)
