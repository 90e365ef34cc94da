-- ===== src/Amr/Codecs.antt =====
-- The active codecs that the loops of amr_parse_mr_conf, src/common/amr.c, store in the first entries.
use osmo_bts.Base.{
  ℕ, zero, suc, ◌+◌, ◌*◌, ◌/◌, ◌%◌, ◌≤◌, ◌<◌, ◌≡◌, refl, sym, ◌∙◌, ap, Bool, true, false, List, [],
  ◌∷◌, ◌++◌, length, length-set, get_or, take, leb, if◌then◌else◌, arith, Bool-cases, inl, inr,
}
use mathlib.Core.List.{append-nil}
use osmo_bts.Amr.Conf.{
  AmrMode, no_mode, bit, count_codecs, set_mode, store_codecs, set_limits, store_limits,
}

-- The codecs of the set in ascending order.
unfoldable pub members : ℕ → List ℕ → List ℕ
members b [] = []
members b (i ∷ is) = if bit b i then i ∷ members b is else members b is

-- The codecs of some entries.
unfoldable pub codes : List AmrMode → List ℕ
codes [] = []
codes (m ∷ ms) = m.mode ∷ codes ms

append_one : {A : Type 0} → (xs ys : List A) (x : A) → (xs ++ x ∷ []) ++ ys ≡ xs ++ x ∷ ys
append_one [] ys x = refl
append_one (z ∷ xs) ys x = ap (λ l. z ∷ l) (append_one xs ys x)

length-set_mode : (j i : ℕ) (ms : List AmrMode) → length (set_mode j i ms) ≡ length ms
unfolding set_mode
length-set_mode j i ms = length-set ms j (record (get_or ms j no_mode) { mode = i })

codes-set_mode :
    (j i : ℕ) (ms : List AmrMode)
    → j < length ms
    → codes (take (suc j) (set_mode j i ms)) ≡ codes (take j ms) ++ i ∷ []
unfolding set_mode codes
codes-set_mode j i [] l = absurd (omega arith)
codes-set_mode zero i (m ∷ ms) l = refl
codes-set_mode (suc j) i (m ∷ ms) l = ap (λ l. m.mode ∷ l) (codes-set_mode j i ms (omega arith))

-- The codecs of the set stand in the first entries.
pub codes-store_codecs :
    (b : ℕ) (is : List ℕ) (j : ℕ) (ms : List AmrMode)
    → j + count_codecs b is ≤ length ms
    → codes (take (j + count_codecs b is) (store_codecs b is j ms))
        ≡ codes (take j ms) ++ members b is
      × length (store_codecs b is j ms) ≡ length ms
unfolding store_codecs members count_codecs
codes-store_codecs b [] j ms l =
    let e : j + 0 ≡ j = omega arith in
    (ap (λ n. codes (take n ms)) e ∙ sym (append-nil (codes (take j ms))), refl)
codes-store_codecs b (i ∷ is) j ms l = elim (Bool-cases (bit b i)) [
  | inl h ↦
      (let p = length-set_mode j i ms in
        let n : j + 1 + count_codecs b is ≤ length (set_mode j i ms) = ground arith in
        let r = codes-store_codecs b is (j + 1) (set_mode j i ms) n in
        let k : j < length ms = ground arith in
        let s = codes-set_mode j i ms k in
        let a = append_one (codes (take j ms)) (members b is) i in
        let e : j + (1 + count_codecs b is) ≡ j + 1 + count_codecs b is = omega arith in
        let f : j + 1 ≡ suc j = omega arith in ground arith)
  | inr h ↦
      (let n : j + count_codecs b is ≤ length ms = ground arith in
        let r = codes-store_codecs b is j ms n in
        let e : j + (0 + count_codecs b is) ≡ j + count_codecs b is = omega arith in ground arith)
]

codes-set_limits : (j t h : ℕ) (ms : List AmrMode) → codes (set_limits j t h ms) ≡ codes ms
unfolding codes set_limits
codes-set_limits j t h [] = refl
codes-set_limits zero t h (m ∷ ms) = refl
codes-set_limits (suc j) t h (m ∷ ms) = ap (λ l. m.mode ∷ l) (codes-set_limits j t h ms)

pub codes-take : (k : ℕ) (ms : List AmrMode) → codes (take k ms) ≡ take k (codes ms)
unfolding codes
codes-take zero ms = refl
codes-take (suc k) [] = refl
codes-take (suc k) (m ∷ ms) = ap (λ l. m.mode ∷ l) (codes-take k ms)

codes_if :
    (b : Bool) (j t h : ℕ) (ms : List AmrMode)
    → codes (if b then set_limits j t h ms else ms) ≡ codes ms
codes_if true j t h ms = codes-set_limits j t h ms
codes_if false j t h ms = refl

-- Storing the limits keeps the codecs.
pub codes-store_limits :
    (n : ℕ) (o : ℕ → ℕ) (ms : List AmrMode) → codes (store_limits n o ms) ≡ codes ms
unfolding store_limits
codes-store_limits n o ms =
    codes_if (leb 4 n) 2 (o 2 % 4 * 16 + o 3 / 16) (o 3 % 16) _
    ∙ codes_if (leb 3 n) 1 (o 1 % 16 * 4 + o 2 / 64) (o 2 / 4 % 16) _
    ∙ codes_if (leb 2 n) 0 (o 0 % 64) (o 1 / 16) ms
