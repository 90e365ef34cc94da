-- ===== src/SysInfo/Mapping.antt =====
-- What bts_sysinfo_get of src/common/sysinfo.c sends in four cycles of eight multiframes, against the rules
-- of 3GPP TS 45.002 that its comments quote.
use osmo_bts.Base.{
  ℕ, zero, suc, ◌+◌, ◌%◌, ◌≤◌, ◌<◌, ◌≡◌, refl, ◌∙◌, ap, Bool, true, false, ◌&&◌, ◌||◌, List, [],
  ◌∷◌, ◌++◌, length, get_or, arith, Bool-cases, inl, inr, ◌⊎◌,
}
use osmo_bts.SysInfo.Choice.{
  SiType, si1, si2, si2bis, si2ter, si2quater, si3, si4, si9, si13, SysInfo, si, get_si2q_inc_index,
  only_if, tc4_sub, at_tc4, at_tc5,
}
use osmo_bts.SysInfo.Turns.{
  run, same_type, sends, first_block, kind, map_si, early, after, after_lem, sends-turn,
  sends-later, turn-cases, run-cycle, at_tc4_lem, sends-here,
}

-- The messages that the rules ask for: those that are valid, and 13 only with a PCU.
abbrev pub needed : SysInfo → Bool → SiType → Bool
needed b pcu si2 = true
needed b pcu si3 = true
needed b pcu si4 = true
needed b pcu si13 = b.has si13 && pcu
needed b pcu t = b.has t

next_mod : (c n : ℕ) → 0 < n → n ≤ 4 → (c % n + 1) % n ≡ (c + 1) % n
next_mod c zero p l = absurd (omega arith)
next_mod c (suc zero) p l = omega arith
next_mod c (suc (suc zero)) p l = omega arith
next_mod c (suc (suc (suc zero))) p l = omega arith
next_mod c (suc (suc (suc (suc zero)))) p l = omega arith
next_mod c (suc (suc (suc (suc (suc n))))) p l = absurd (omega arith)

-- The counter one cycle on.
turn_at :
    (t : SiType) (ts : List SiType) (b : SysInfo) (pcu : Bool) (c i j : ℕ)
    → length ts ≤ 3
    → i + 1 ≡ j
    → tc4_sub b pcu ≡ t ∷ ts
    → (b.tc4_ctr + 1) % length (t ∷ ts) ≡ (c + i) % length (t ∷ ts)
    → ((after b pcu).tc4_ctr + 1) % length (t ∷ ts) ≡ (c + j) % length (t ∷ ts)
turn_at t ts b pcu c i j l s h e =
    let x = after_lem b pcu t ts h in
    let n : c + i + 1 ≡ c + j = omega arith in
    ap (λ n. (n + 1) % length (t ∷ ts)) (x.0 ∙ e)
    ∙ next_mod (c + i) (length (t ∷ ts)) (omega arith) (omega arith)
    ∙ ap (λ m. m % length (t ∷ ts)) n

or_cases : (a b : Bool) → (a || b) ≡ true → (a ≡ true) ⊎ (b ≡ true)
or_cases true b h = inl refl
or_cases false b h = inr h

turn :
    (u t : SiType) (ts : List SiType) (b : SysInfo) (pcu : Bool) (k m : ℕ)
    → tc4_sub b pcu ≡ t ∷ ts
    → (b.tc4_ctr + 1) % length (t ∷ ts) ≡ m
    → same_type u (get_or (t ∷ ts) m t) ≡ true
    → sends u (run b pcu 0 (suc (suc (suc (suc (suc (suc (suc (suc k))))))))) ≡ true
turn u t ts b pcu k m h e s =
    sends-turn u b pcu k t ts h (ap (λ n. same_type u (get_or (t ∷ ts) n t)) e ∙ s)

-- Each message that shares TC 4 has a turn in four cycles.
shared_lem :
    (u : SiType) (b : SysInfo) (pcu : Bool) (t : SiType) (ts : List SiType)
    → tc4_sub b pcu ≡ t ∷ ts
    → length ts ≤ 3
    → sends u (map_si (t ∷ ts)) ≡ true
    → sends u (run b pcu 0 32) ≡ true
shared_lem u b pcu t ts h l m =
    let c = b.tc4_ctr in
    let n = length (t ∷ ts) in
    let b2 = after b pcu in
    let b3 = after b2 pcu in
    let b4 = after b3 pcu in
    let h2 = (after_lem b pcu t ts h).2 in
    let h3 = (after_lem b2 pcu t ts h2).2 in
    let h4 = (after_lem b3 pcu t ts h3).2 in
    let e2 = turn_at t ts b pcu c 1 2 l refl h refl in
    let e3 = turn_at t ts b2 pcu c 2 3 l refl h2 e2 in
    let e4 = turn_at t ts b3 pcu c 3 4 l refl h3 e3 in
    elim (or_cases _ _ (turn-cases u t ts c l m)) [
      | inl d ↦ turn u t ts b pcu 24 _ h refl d
      | inr d ↦ elim (or_cases _ _ d) [
        | inl d ↦ sends-later u b pcu 24 (turn u t ts b2 pcu 16 _ h2 e2 d)
        | inr d ↦ elim (or_cases _ _ d) [
          | inl d ↦
              sends-later u b pcu 24 (sends-later u b2 pcu 16 (turn u t ts b3 pcu 8 _ h3 e3 d))
          | inr d ↦
              sends-later u b pcu 24
                (sends-later u b2 pcu 16 (sends-later u b3 pcu 8 (turn u t ts b4 pcu 0 _ h4 e4 d)))
        ]
      ]
    ]

tc4_sub-length : (b : SysInfo) (pcu : Bool) → length (tc4_sub b pcu) ≤ 4
unfolding tc4_sub only_if
tc4_sub-length b pcu = ground arith

-- A message that is among those of TC 4 is sent in four cycles.
sends-shared :
    (u : SiType) (b : SysInfo) (pcu : Bool) (l : List SiType)
    → tc4_sub b pcu ≡ l
    → sends u (map_si l) ≡ true
    → sends u (run b pcu 0 32) ≡ true
unfolding sends
sends-shared u b pcu [] h m = absurd (ground arith)
sends-shared u b pcu (t ∷ ts) h m =
    let n = tc4_sub-length b pcu in
    let n' : length (t ∷ ts) ≤ 4 = ground arith in shared_lem u b pcu t ts h (omega arith) m

-- A message that the first cycle sends outside of TC 4.
sends-first :
    (u : SiType) (b : SysInfo) (pcu : Bool)
    → (same_type u (kind (first_block b))
        || (same_type u si2 || (same_type u si3 || same_type u si4)))
      ≡ true
    → sends u (run b pcu 0 32) ≡ true
unfolding sends
sends-first u b pcu h = ap (sends u) (run-cycle b pcu 24) ∙ ground arith

sends-tc5 :
    (u : SiType) (b : SysInfo) (pcu : Bool)
    → same_type u (kind (at_tc5 (at_tc4 b (tc4_sub b pcu)).0).1) ≡ true
    → sends u (run b pcu 0 32) ≡ true
sends-tc5 u b pcu h =
    ap (sends u) (run-cycle b pcu 24)
    ∙ sends-here u (early b ++ (at_tc4 b (tc4_sub b pcu)).1 ∷ [])
        (at_tc5 (at_tc4 b (tc4_sub b pcu)).0).1 (si si3 ∷ si si4 ∷ run (after b pcu) pcu 0 24) h

tc4-has : (b : SysInfo) (l : List SiType) → (at_tc4 b l).0.has ≡ b.has
unfolding at_tc4
tc4-has b [] = refl
tc4-has b (t ∷ ts) = (at_tc4_lem b t ts).2

nine_lem : (b : SysInfo) (pcu : Bool) → b.has si9 ≡ true → sends si9 (map_si (tc4_sub b pcu)) ≡ true
unfolding sends tc4_sub only_if same_type
nine_lem b pcu h = ground arith

thirteen_lem :
    (b : SysInfo) (pcu : Bool)
    → (b.has si13 && pcu) ≡ true
    → sends si13 (map_si (tc4_sub b pcu)) ≡ true
unfolding sends tc4_sub only_if same_type
thirteen_lem b pcu h = ground arith

ter_lem :
    (b : SysInfo) (pcu : Bool)
    → b.has si2ter ≡ true
    → b.has si2bis ≡ true
    → sends si2ter (map_si (tc4_sub b pcu)) ≡ true
unfolding sends tc4_sub only_if same_type
ter_lem b pcu h h' = ground arith

quater_lem :
    (b : SysInfo) (pcu : Bool)
    → b.has si2quater ≡ true
    → (b.has si2bis || b.has si2ter) ≡ true
    → sends si2quater (map_si (tc4_sub b pcu)) ≡ true
unfolding sends tc4_sub only_if same_type
quater_lem b pcu h h' = ground arith

-- TC 5 sends 2bis where it is valid, else 2ter, else 2quater.
tc5_bis : (b : SysInfo) → b.has si2bis ≡ true → same_type si2bis (kind (at_tc5 b).1) ≡ true
unfolding at_tc5 same_type
tc5_bis b h = ground arith

tc5_ter :
    (b : SysInfo)
    → b.has si2bis ≡ false
    → b.has si2ter ≡ true
    → same_type si2ter (kind (at_tc5 b).1) ≡ true
unfolding at_tc5 same_type
tc5_ter b h h' = ground arith

tc5_quater :
    (b : SysInfo)
    → (b.has si2bis || b.has si2ter) ≡ false
    → b.has si2quater ≡ true
    → same_type si2quater (kind (at_tc5 b).1) ≡ true
unfolding at_tc5 get_si2q_inc_index same_type
tc5_quater b h h' = ground arith

-- Four cycles of eight multiframes send every message that the rules ask for: 2, 3 and 4, those of 1,
-- 2bis, 2ter, 2quater and 9 that are valid, and 13 if it is valid and the PCU is connected.
pub sends-needed :
    (b : SysInfo) (pcu : Bool) (u : SiType)
    → needed b pcu u ≡ true
    → sends u (run b pcu 0 32) ≡ true
unfolding same_type
sends-needed b pcu si1 h = sends-first si1 b pcu (ground arith)
sends-needed b pcu si2 h = sends-first si2 b pcu (ground arith)
sends-needed b pcu si3 h = sends-first si3 b pcu (ground arith)
sends-needed b pcu si4 h = sends-first si4 b pcu (ground arith)
sends-needed b pcu si2bis h =
    let e = tc4-has b (tc4_sub b pcu) in
    sends-tc5 si2bis b pcu (tc5_bis (at_tc4 b (tc4_sub b pcu)).0 (ap (λ f. f si2bis) e ∙ h))
sends-needed b pcu si2ter h =
    let e = tc4-has b (tc4_sub b pcu) in
    elim (Bool-cases (b.has si2bis)) [
      | inl z ↦ sends-shared si2ter b pcu (tc4_sub b pcu) refl (ter_lem b pcu h z)
      | inr z ↦ sends-tc5 si2ter b pcu (
          tc5_ter (at_tc4 b (tc4_sub b pcu)).0 (ap (λ f. f si2bis) e ∙ z)
            (ap (λ f. f si2ter) e ∙ h))
    ]
sends-needed b pcu si2quater h =
    let e = tc4-has b (tc4_sub b pcu) in
    elim (Bool-cases (b.has si2bis || b.has si2ter)) [
      | inl z ↦ sends-shared si2quater b pcu (tc4_sub b pcu) refl (quater_lem b pcu h z)
      | inr z ↦ sends-tc5 si2quater b pcu (
          tc5_quater (at_tc4 b (tc4_sub b pcu)).0 (ap (λ f. f si2bis || f si2ter) e ∙ z)
            (ap (λ f. f si2quater) e ∙ h))
    ]
sends-needed b pcu si9 h = sends-shared si9 b pcu (tc4_sub b pcu) refl (nine_lem b pcu h)
sends-needed b pcu si13 h = sends-shared si13 b pcu (tc4_sub b pcu) refl (thirteen_lem b pcu h)
