-- ===== src/Cbch/Phone.antt =====
-- What a phone puts together from the four blocks that a channel of src/common/cbch.c sends for a
-- message.
use osmo_bts.Base.{
  ℕ, zero, suc, ◌+◌, ◌-◌, ◌*◌, ◌≤◌, ◌<◌, ◌≡◌, refl, sym, ◌∙◌, ap, Bool, true, ◌&&◌, ◌||◌, Option,
  none, some, List, [], ◌∷◌, ◌++◌, take, drop, drop-drop, leb, ◌==◌, if◌then◌else◌, arith,
  Bool-cases, inl, inr,
}
use native.Mathlib.Nat.{suc-add}
use osmo_bts.Cbch.Types.{Message}
use osmo_bts.Cbch.Block.{AirBlock, null_block, block_of}

-- The first block has the number 0, or 8 for a schedule, and the others count on.
unfoldable pub is_numbered : ℕ → AirBlock → Bool
is_numbered i b = b.seq_nr == i || (i == 0 && b.seq_nr == 8)

unfoldable pub prepend : List ℕ → Option (List ℕ) → Option (List ℕ)
prepend xs none = none
prepend xs (some ys) = some (xs ++ ys)

-- The payloads up to the last block, or nothing if there is none or a number is wrong.
unfoldable pub receive : ℕ → List AirBlock → Option (List ℕ)
receive i [] = none
receive i (b ∷ bs) =
    let rest = receive (suc i) bs in
    if is_numbered i b then (if b.lb then some b.payload else prepend b.payload rest) else none

-- The segments of a message.
unfoldable pub text : Message → List ℕ
text m = take (m.num_segs * 22) m.octets

-- Block i of a message, or a null block behind its end; and j blocks from there.
unfoldable pub air : Message → ℕ → AirBlock
air m i = if leb m.num_segs i then null_block else block_of m i

unfoldable pub airs : Message → ℕ → ℕ → List AirBlock
airs m i zero = []
airs m i (suc j) = air m i ∷ airs m (suc i) j

take_nil : (n : ℕ) → take {A = ℕ} n [] ≡ []
take_nil zero = refl
take_nil (suc n) = refl

take_add : (a b : ℕ) (xs : List ℕ) → take (a + b) xs ≡ take a xs ++ take b (drop a xs)
take_add zero b xs = ap (λ n. take n xs) (omega arith)
take_add (suc a) b [] = ap (λ n. take n []) (suc-add a b) ∙ sym (take_nil b)
take_add (suc a) b (x ∷ xs) =
    ap (λ n. take n (x ∷ xs)) (suc-add a b) ∙ ap (λ l. x ∷ l) (take_add a b xs)

air_lem : (m : Message) (i : ℕ) → i < m.num_segs → air m i ≡ block_of m i
unfolding air
air_lem m i l = ground arith

numbered_lem :
    (m : Message) (i : ℕ) → i < m.num_segs → m.num_segs ≤ 7 → is_numbered i (air m i) ≡ true
unfolding is_numbered air block_of
numbered_lem m i l h = ground arith

pub receive-airs :
    (m : Message) (j i : ℕ)
    → i < m.num_segs
    → m.num_segs ≤ i + j
    → m.num_segs ≤ 7
    → receive i (airs m i j) ≡ some (take ((m.num_segs - i) * 22) (drop (i * 22) m.octets))
unfolding receive airs air block_of is_numbered prepend
receive-airs m zero i l h h' = absurd (omega arith)
receive-airs m (suc j) i l h h' =
    let n = numbered_lem m i l h' in
    let a = air_lem m i l in
    elim (Bool-cases (suc i == m.num_segs)) [
      | inl e ↦
          (let k : m.num_segs - i ≡ 1 = ground arith in
            let w : (m.num_segs - i) * 22 ≡ 22 = omega arith in ground arith)
      | inr e ↦
          (let r = receive-airs m j (suc i) (ground arith) (omega arith) h' in
            let s : suc i < m.num_segs = ground arith in
            let k : (m.num_segs - i) * 22 ≡ 22 + (m.num_segs - suc i) * 22 = omega arith in
            let d = drop-drop 22 (i * 22) m.octets in
            let d' : i * 22 + 22 ≡ suc i * 22 = omega arith in
            let t = take_add 22 ((m.num_segs - suc i) * 22) (drop (i * 22) m.octets) in
            ground arith)
    ]
