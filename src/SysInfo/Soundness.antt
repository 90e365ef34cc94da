-- ===== src/SysInfo/Soundness.antt =====
-- What bts_sysinfo_get of src/common/sysinfo.c may send.
use osmo_bts.Base.{
  ℕ, zero, suc, ◌+◌, ◌%◌, ◌≤◌, ◌<◌, ◌≡◌, refl, ◌∙◌, ap, Bool, true, false, ◌&&◌, Option, none, some,
  List, [], ◌∷◌, length, get_or, get_or-all, all, leb, arith, Option-cases, inl, inr,
}
use osmo_bts.SysInfo.Choice.{
  SiType, si1, si2, si2bis, si2ter, si2quater, si3, si4, si9, si13, SysInfo, Sent, si, si2q,
  get_si2q_inc_index, only_if, tc4_sub, send, at_tc4, at_tc5, bts_sysinfo_get,
}
use osmo_bts.SysInfo.Turns.{run}
use osmo_bts.SysInfo.Mapping.{needed}

-- A message that the rules ask for; one of type 2quater has an index up to the last one.
abbrev pub is_allowed : SysInfo → Bool → Sent → Bool
is_allowed b pcu (si t) = needed b pcu t
is_allowed b pcu (si2q i) = b.has si2quater && leb i b.si2q_count

-- The index of 2quater is in range, and what is valid stays.
IsKept : SysInfo → SysInfo → Type 0
IsKept b c = (c.has ≡ b.has) × (c.si2q_count ≡ b.si2q_count) × (c.si2q_index ≤ c.si2q_count)

IsFine : SysInfo → Bool → SysInfo × Sent → Type 0
IsFine b pcu r = (is_allowed b pcu r.1 ≡ true) × IsKept b r.0

needed-has :
    (b c : SysInfo) (pcu : Bool) (t : SiType) → c.has ≡ b.has → needed c pcu t ≡ needed b pcu t
needed-has b c pcu si1 h = ap (λ f. f si1) h
needed-has b c pcu si2 h = refl
needed-has b c pcu si2bis h = ap (λ f. f si2bis) h
needed-has b c pcu si2ter h = ap (λ f. f si2ter) h
needed-has b c pcu si2quater h = ap (λ f. f si2quater) h
needed-has b c pcu si3 h = refl
needed-has b c pcu si4 h = refl
needed-has b c pcu si9 h = ap (λ f. f si9) h
needed-has b c pcu si13 h = ap (λ f. f si13 && pcu) h

send-IsFine :
    (b : SysInfo) (pcu : Bool) (t : SiType)
    → b.si2q_index ≤ b.si2q_count
    → needed b pcu t ≡ true
    → IsFine b pcu (send b t)
unfolding send get_si2q_inc_index IsFine IsKept
send-IsFine b pcu t l h = ground arith

all-needed : (b : SysInfo) (pcu : Bool) → all (needed b pcu) (tc4_sub b pcu) ≡ true
unfolding tc4_sub only_if
all-needed b pcu = ground arith

at_tc4-IsFine :
    (b : SysInfo) (pcu : Bool) (l : List SiType)
    → b.si2q_index ≤ b.si2q_count
    → all (needed b pcu) l ≡ true
    → IsFine b pcu (at_tc4 b l)
unfolding at_tc4 IsFine IsKept
at_tc4-IsFine b pcu [] l h = ground arith
at_tc4-IsFine b pcu (t ∷ ts) l h =
    let ctr = (b.tc4_ctr + 1) % length (t ∷ ts) in
    let n : needed b pcu t ≡ true = ground arith in
    send-IsFine (record b { tc4_ctr = ctr }) pcu (get_or (t ∷ ts) ctr t) l
      (needed-has b (record b { tc4_ctr = ctr }) pcu (get_or (t ∷ ts) ctr t) refl
        ∙ get_or-all (needed b pcu) (t ∷ ts) ctr t h n)

at_tc5-IsFine : (b : SysInfo) (pcu : Bool) → b.si2q_index ≤ b.si2q_count → IsFine b pcu (at_tc5 b)
unfolding at_tc5 get_si2q_inc_index IsFine IsKept
at_tc5-IsFine b pcu l = ground arith

FineOption : SysInfo → Bool → Option (SysInfo × Sent) → Type 0
FineOption b pcu none = true ≡ false
FineOption b pcu (some r) = IsFine b pcu r

get-IsFine :
    (b : SysInfo) (pcu : Bool) (tc : ℕ)
    → tc < 8
    → b.si2q_index ≤ b.si2q_count
    → FineOption b pcu (bts_sysinfo_get b pcu tc)
unfolding bts_sysinfo_get FineOption IsFine IsKept
get-IsFine b pcu tc t l =
    let x = at_tc4-IsFine b pcu (tc4_sub b pcu) l (all-needed b pcu) in
    let y = at_tc5-IsFine b pcu l in ground arith

allowed-has :
    (b c : SysInfo) (pcu : Bool) (x : Sent) → IsKept b c → is_allowed c pcu x ≡ is_allowed b pcu x
unfolding IsKept
allowed-has b c pcu (si t) h = needed-has b c pcu t h.0
allowed-has b c pcu (si2q i) h =
    ap (λ f. f si2quater && leb i c.si2q_count) h.0 ∙ ap (λ n. b.has si2quater && leb i n) h.1

all-allowed-has :
    (b c : SysInfo) (pcu : Bool) (xs : List Sent)
    → IsKept b c
    → all (is_allowed c pcu) xs ≡ all (is_allowed b pcu) xs
all-allowed-has b c pcu [] h = refl
all-allowed-has b c pcu (x ∷ xs) h =
    let r = all-allowed-has b c pcu xs h in let s = allowed-has b c pcu x h in cc

none_lem :
    (b : SysInfo) (pcu : Bool) (o : Option (SysInfo × Sent)) → o ≡ none → ¬ FineOption b pcu o
unfolding FineOption IsFine IsKept
none_lem b pcu none e f = ground arith
none_lem b pcu (some r) e f = ground arith

some_lem :
    (b : SysInfo) (pcu : Bool) (o : Option (SysInfo × Sent)) (r : SysInfo × Sent)
    → o ≡ some r
    → FineOption b pcu o
    → IsFine b pcu r
unfolding FineOption IsFine IsKept
some_lem b pcu none r e f = absurd (ground arith)
some_lem b pcu (some x) r e f = ground arith

-- From any TC on, every multiframe has a block, and it carries a message that the rules ask for: one
-- that is valid, 2, 3 or 4, and 13 only with a PCU; one of type 2quater has an index up to the last one, if the index
-- was so at first.
pub run-allowed :
    (b : SysInfo) (pcu : Bool) (tc k : ℕ)
    → tc < 8
    → b.si2q_index ≤ b.si2q_count
    → (length (run b pcu tc k) ≡ k) × (all (is_allowed b pcu) (run b pcu tc k) ≡ true)
unfolding run IsFine IsKept
run-allowed b pcu tc zero t l = (refl, refl)
run-allowed b pcu tc (suc k) t l =
    let f = get-IsFine b pcu tc t l in
    elim (Option-cases (bts_sysinfo_get b pcu tc)) [
      | inl e ↦ absurd (none_lem b pcu (bts_sysinfo_get b pcu tc) e f)
      | inr s ↦
          (let g : IsFine b pcu s.0 = some_lem b pcu (bts_sysinfo_get b pcu tc) s.0 s.1 f in
            let i = run-allowed s.0.0 pcu ((tc + 1) % 8) k (omega arith) g.1.2 in
            let a = all-allowed-has b s.0.0 pcu (run s.0.0 pcu ((tc + 1) % 8) k) g.1 in
            ground arith)
    ]
