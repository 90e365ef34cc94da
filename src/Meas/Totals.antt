-- ===== src/Meas/Totals.antt =====
-- The loop of lchan_meas_check_compute in src/common/measurement.c against totals over the list of the
-- samples that count.
use osmo_bts.Base.{
  ℕ, zero, suc, ◌+◌, ◌-◌, ◌*◌, ◌≤◌, ◌<◌, ◌≡◌, refl, sym, ◌∙◌, ap, Bool, true, false, List, [], ◌∷◌,
  ltb, leb, if◌then◌else◌, get_or, take, drop, length, arith, inr, lt→ltb, ◌⊎◌,
}
use osmo_bts.Base.Int.{ℤ, pos, ◌+ℤ◌, pos_part, +ℤ_parts, eq_of_parts}
use osmo_bts.Meas.Types.{UlMeas, Meas}
use osmo_bts.Meas.Compute.{
  Sums, no_sums, add_received, add_dummy, add_up, excess, measurement_dummy,
}
use native.Mathlib.Nat.{zero-add, suc-add}

-- The samples of the period that count: of those stored, the last `expect` ones.
unfoldable pub used : Meas → ℕ → List UlMeas
used m expect = drop (excess (m.num_ul_meas) expect) (take (m.num_ul_meas) (m.uplink))

-- Those marked SUB.
unfoldable pub subs : List UlMeas → List UlMeas
subs [] = []
subs (u ∷ us) = let rest = subs us in if u.is_sub then u ∷ rest else rest

unfoldable pub total : (UlMeas → ℕ) → List UlMeas → ℕ
total f [] = 0
total f (u ∷ us) = f u + total f us

unfoldable pub total_ℤ : (UlMeas → ℤ) → List UlMeas → ℤ
total_ℤ f [] = pos 0
total_ℤ f (u ∷ us) = f u +ℤ total_ℤ f us

abbrev pub smaller : ℕ → ℕ → ℕ
smaller a b = if leb a b then a else b

-- What the loop adds for the samples.
unfoldable pub with_samples : Sums → List UlMeas → Sums
with_samples s us = record {
  ber_full = s.ber_full + total (λ u. u.ber10k) us;
  irssi_full = s.irssi_full + total (λ u. u.inv_rssi) us;
  ci_full = s.ci_full +ℤ total_ℤ (λ u. u.ci_cb) us;
  ber_sub = s.ber_sub + total (λ u. u.ber10k) (subs us);
  irssi_sub = s.irssi_sub + total (λ u. u.inv_rssi) (subs us);
  ci_sub = s.ci_sub +ℤ total_ℤ (λ u. u.ci_cb) (subs us);
  ta256b = s.ta256b +ℤ total_ℤ (λ u. u.ta_offs_256bits) us;
  num_sub = s.num_sub + length (subs us);
  num_sub_actual = s.num_sub_actual + length (subs us);
  num_actual = s.num_actual + length us;
}

-- What it adds for `n` missing samples: each is an error, and as many as the exact number of SUB
-- samples lacks are counted as SUB.
unfoldable pub with_missing : ℤ → ℕ → Sums → Sums
with_missing sub_expect n s =
    let filled = smaller n (pos_part sub_expect - s.num_sub) in
    record s {
      ber_full = s.ber_full + 10000 * n;
      ber_sub = s.ber_sub + 10000 * filled;
      num_sub = s.num_sub + filled;
    }

unfoldable add_all : List UlMeas → Sums → Sums
add_all [] s = s
add_all (u ∷ us) s = add_all us (add_received u s)

unfoldable add_dummies : ℤ → ℕ → Sums → Sums
add_dummies e zero s = s
add_dummies e (suc n) s = add_dummies e n (add_dummy e s)

pub +ℤ_zero : (a : ℤ) → a +ℤ pos 0 ≡ a
unfolding ◌+ℤ◌
+ℤ_zero a = ground arith

pub zero_+ℤ : (a : ℤ) → pos 0 +ℤ a ≡ a
unfolding ◌+ℤ◌
zero_+ℤ a = ground arith

pub +ℤ_assoc : (a b c : ℤ) → a +ℤ b +ℤ c ≡ a +ℤ (b +ℤ c)
+ℤ_assoc a b c =
    let x = +ℤ_parts a b in
    let y = +ℤ_parts (a +ℤ b) c in
    let z = +ℤ_parts b c in
    let w = +ℤ_parts a (b +ℤ c) in eq_of_parts (a +ℤ b +ℤ c) (a +ℤ (b +ℤ c)) (omega arith)

eq_sums :
    (s t : Sums)
    → s.ber_full ≡ t.ber_full
    → s.irssi_full ≡ t.irssi_full
    → s.ci_full ≡ t.ci_full
    → s.ber_sub ≡ t.ber_sub
    → s.irssi_sub ≡ t.irssi_sub
    → s.ci_sub ≡ t.ci_sub
    → s.ta256b ≡ t.ta256b
    → s.num_sub ≡ t.num_sub
    → s.num_sub_actual ≡ t.num_sub_actual
    → s.num_actual ≡ t.num_actual
    → s ≡ t
eq_sums s t a b c d e f g h i j = λ k. record {
  ber_full = a k;
  irssi_full = b k;
  ci_full = c k;
  ber_sub = d k;
  irssi_sub = e k;
  ci_sub = f k;
  ta256b = g k;
  num_sub = h k;
  num_sub_actual = i k;
  num_actual = j k;
}

add_received-with :
    (u : UlMeas) (us : List UlMeas) (s : Sums)
    → with_samples (add_received u s) us ≡ with_samples s (u ∷ us)
unfolding with_samples add_received subs total total_ℤ
add_received-with u us s =
    let c = +ℤ_assoc (s.ci_full) (u.ci_cb) (total_ℤ (λ u. u.ci_cb) us) in
    let d = +ℤ_assoc (s.ci_sub) (u.ci_cb) (total_ℤ (λ u. u.ci_cb) (subs us)) in
    let t = +ℤ_assoc (s.ta256b) (u.ta_offs_256bits) (total_ℤ (λ u. u.ta_offs_256bits) us) in
    eq_sums (with_samples (add_received u s) us) (with_samples s (u ∷ us)) (ground arith)
      (ground arith) (ground arith) (ground arith) (ground arith) (ground arith) (ground arith)
      (ground arith) (ground arith) (ground arith)

add_all_lem : (us : List UlMeas) (s : Sums) → add_all us s ≡ with_samples s us
unfolding add_all with_samples subs total total_ℤ
add_all_lem [] s =
    let c = +ℤ_zero (s.ci_full) in
    let d = +ℤ_zero (s.ci_sub) in
    let t = +ℤ_zero (s.ta256b) in
    eq_sums s (with_samples s []) (ground arith) (ground arith) (ground arith) (ground arith)
      (ground arith) (ground arith) (ground arith) (ground arith) (ground arith) (ground arith)
add_all_lem (u ∷ us) s = add_all_lem us (add_received u s) ∙ add_received-with u us s

add_dummies_lem : (e : ℤ) (n : ℕ) (s : Sums) → add_dummies e n s ≡ with_missing e n s
unfolding add_dummies with_missing add_dummy
add_dummies_lem e zero s = ground arith
add_dummies_lem e (suc n) s = add_dummies_lem e n (add_dummy e s) ∙ ground arith

take_nil : {A : Type 0} (k : ℕ) → take {A = A} k [] ≡ []
take_nil zero = refl
take_nil (suc k) = refl

drop-take : {A : Type 0} (e k : ℕ) (xs : List A) → drop e (take (e + k) xs) ≡ take k (drop e xs)
drop-take zero k xs = rw zero-add
drop-take (suc e) k [] = rw suc-add (sym (take_nil k))
drop-take (suc e) k (x ∷ xs) = rw suc-add (drop-take e k xs)

pub take-drop :
    {A : Type 0} (k i : ℕ) (xs : List A) (d : A)
    → i < length xs
    → take (suc k) (drop i xs) ≡ get_or xs i d ∷ take k (drop (suc i) xs)
take-drop k i [] d h = absurd (omega arith)
take-drop k zero (x ∷ xs) d h = refl
take-drop k (suc i) (x ∷ xs) d h = take-drop k i xs d (omega arith)

pub if_true : {A : Type 0} {b : Bool} (x y : A) → b ≡ true → (if b then x else y) ≡ x
if_true x y h = ground arith

pub if_false : {A : Type 0} {b : Bool} (x y : A) → b ≡ false → (if b then x else y) ≡ y
if_false x y h = ground arith

pub not_ltb : (a b : ℕ) → b ≤ a → ltb a b ≡ false
not_ltb a b h = ground arith

-- The rounds with a sample left.
first_rounds :
    (m : Meas) (exc : ℕ) (e : ℤ) (k j i : ℕ) (s : Sums)
    → i + k ≤ m.num_ul_meas
    → i + exc + k ≤ length (m.uplink)
    → add_up m exc e (k + j) i s
      ≡ add_up m exc e j (i + k) (add_all (take k (drop (i + exc) (m.uplink))) s)
unfolding add_up add_all
first_rounds m exc e zero j i s h l =
    let n : zero + j ≡ j = omega arith in
    let n2 : i ≡ i + zero = omega arith in
    ap (λ n. add_up m exc e n i s) n ∙ ap (λ n. add_up m exc e j n s) n2
first_rounds m exc e (suc k) j i s h l =
    let up = m.uplink in
    let u = get_or up (i + exc) measurement_dummy in
    let n : suc k + j ≡ suc (k + j) = omega arith in
    let n2 : suc i + k ≡ i + suc k = omega arith in
    let n3 : suc i + exc ≡ suc (i + exc) = omega arith in
    let t = take-drop k (i + exc) up measurement_dummy (omega arith) in
    ap (λ n. add_up m exc e n i s) n
    ∙ ap (add_up m exc e (k + j) (suc i)) (if_true _ _ (lt→ltb i (m.num_ul_meas) (omega arith)))
    ∙ first_rounds m exc e k j (suc i) (add_received u s) (omega arith) (omega arith)
    ∙ ap (λ n. add_up m exc e j n (add_all (take k (drop (suc i + exc) up)) (add_received u s))) n2
    ∙ ap (λ n. add_up m exc e j (i + suc k) (add_all (take k (drop n up)) (add_received u s))) n3
    ∙ ap (λ us. add_up m exc e j (i + suc k) (add_all us s)) (sym t)

-- The rounds without one.
last_rounds :
    (m : Meas) (exc : ℕ) (e : ℤ) (k i : ℕ) (s : Sums)
    → (k ≡ 0) ⊎ (m.num_ul_meas ≤ i)
    → add_up m exc e k i s ≡ add_dummies e k s
unfolding add_up add_dummies
last_rounds m exc e zero i s h = refl
last_rounds m exc e (suc k) i s h =
    ap (add_up m exc e k (suc i)) (if_false _ _ (not_ltb i (m.num_ul_meas) (ground arith)))
    ∙ last_rounds m exc e k (suc i) (add_dummy e s) (inr (ground arith))

-- The two ways to cut the samples that count out of the buffer.
pub used_lem :
    (m : Meas) (expect : ℕ)
    → take (smaller (m.num_ul_meas) expect) (drop (zero + excess (m.num_ul_meas) expect) (m.uplink))
      ≡ used m expect
unfolding used excess
used_lem m expect =
    let num = m.num_ul_meas in
    let up = m.uplink in
    let exc = excess num expect in
    let k = smaller num expect in
    let n2 : exc + k ≡ num = ground arith in
    let n3 : zero + exc ≡ exc = omega arith in
    ap (λ n. take k (drop n up)) n3 ∙ sym (drop-take exc k up) ∙ ap (λ n. drop exc (take n up)) n2

-- Over a buffer that holds the samples it counts, the loop comes to the totals over the last
-- expected samples, and over those that are missing.
pub add_up-used :
    (m : Meas) (expect : ℕ) (e : ℤ)
    → m.num_ul_meas ≤ length (m.uplink)
    → add_up m (excess (m.num_ul_meas) expect) e expect 0 no_sums
      ≡ with_missing e (expect - m.num_ul_meas) (with_samples no_sums (used m expect))
unfolding used excess
add_up-used m expect e h =
    let num = m.num_ul_meas in
    let up = m.uplink in
    let exc = excess num expect in
    let k = smaller num expect in
    let j = expect - num in
    let n1 : k + j ≡ expect = ground arith in
    let n2 : exc + k ≡ num = ground arith in
    let n4 : (j ≡ 0) ⊎ (num ≤ zero + k) = ground arith in
    let s = add_all (take k (drop (zero + exc) up)) no_sums in
    ap (λ n. add_up m exc e n 0 no_sums) (sym n1)
    ∙ first_rounds m exc e k j 0 no_sums (ground arith) (omega arith)
    ∙ last_rounds m exc e j (0 + k) s n4
    ∙ add_dummies_lem e j s
    ∙ ap (with_missing e j) (
        add_all_lem (take k (drop (zero + exc) up)) no_sums
        ∙ ap (with_samples no_sums) (used_lem m expect))
