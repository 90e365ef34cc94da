-- ===== src/Meas/Repetition.antt =====
-- When the FACCH is repeated and when the associated channels get more power: the two decisions of
-- src/common/measurement.c, and runs of them over the reports of a phone.
use osmo_bts.Base.{
  ℕ, ◌-◌, ◌≤◌, ◌<◌, ◌≡◌, refl, ap, ◌∙◌, Bool, true, false, not, ◌&&◌, ◌||◌, Option, none, some,
  List, [], ◌∷◌, ltb, leb, ◌==◌, if◌then◌else◌, arith,
}
use osmo_bts.Power.Loop.{MeasRes}

-- `struct gsm48_meas_res` with its downlink DTX flag.
pub record GsmMeasRes : Type 0 where
  pub dtx_used : Bool
  pub levels : MeasRes

-- struct abis_rsl_osmo_rep_acch_cap, the fields of the downlink.
pub record RepAcchCap : Type 0 where
  pub dl_facch_cmd : Bool
  pub dl_facch_all : Bool
  pub rxqual : ℕ

-- struct abis_rsl_osmo_temp_ovp_acch_cap
pub record TopAcchCap : Type 0 where
  pub overpower_db : ℕ
  pub rxqual : ℕ

unfoldable pub lower_of : ℕ → ℕ
lower_of upper = if ltb 2 upper then upper - 2 else 0

unfoldable pub rxqual_of : GsmMeasRes → ℕ
rxqual_of mr = if mr.dtx_used then mr.levels.rxqual_sub else mr.levels.rxqual_full

-- The two comparisons at the end of both decisions.
unfoldable pub by_rxqual : Bool → ℕ → ℕ → Bool
by_rxqual active upper rxqual =
    if leb upper rxqual then true else if leb rxqual (lower_of upper) then false else active

unfoldable pub by_report : (GsmMeasRes → Bool) → Bool → ℕ → Option GsmMeasRes → Bool
by_report is_valid active upper none = active
by_report is_valid active upper (some mr) =
    if is_valid mr then by_rxqual active upper (rxqual_of mr) else active

-- The new value of rep_acch.dl_facch_active; `srr` is the request in the SACCH header.
unfoldable pub repeated_dl_facch_active_decision :
    (GsmMeasRes → Bool) → RepAcchCap → Bool → Bool → Option GsmMeasRes → Bool
repeated_dl_facch_active_decision is_valid cap srr active mr =
    if not (cap.dl_facch_cmd) && not (cap.dl_facch_all)
    then false
    else if cap.rxqual == 0 || srr
    then true
    else by_report is_valid active (cap.rxqual) mr

-- The new value of top_acch_active.
unfoldable pub acch_overpower_active_decision : TopAcchCap → Bool → GsmMeasRes → Bool
acch_overpower_active_decision cap active mr =
    if cap.overpower_db == 0 || cap.rxqual == 0
    then active
    else by_rxqual active (cap.rxqual) (rxqual_of mr)

-- The decision after each of a sequence of reports.
unfoldable pub facch_run : (GsmMeasRes → Bool) → RepAcchCap → Bool → List GsmMeasRes → Bool
facch_run is_valid cap active [] = active
facch_run is_valid cap active (mr ∷ mrs) =
    facch_run is_valid cap (repeated_dl_facch_active_decision is_valid cap false active (some mr))
      mrs

-- The quality of each report is in the range, bounds excluded.
abbrev pub AllInside : ℕ → ℕ → List GsmMeasRes → Type 0
AllInside lo hi [] = 0 ≤ 0
AllInside lo hi (mr ∷ mrs) = (lo < rxqual_of mr) × (rxqual_of mr < hi) × AllInside lo hi mrs

by_rxqual_keeps :
    (active : Bool) (upper q : ℕ)
    → lower_of upper < q
    → q < upper
    → by_rxqual active upper q ≡ active
unfolding by_rxqual
by_rxqual_keeps active upper q h l = ground arith

-- One report inside the band.
facch_keeps :
    (is_valid : GsmMeasRes → Bool) (cap : RepAcchCap) (active : Bool) (mr : GsmMeasRes)
    → (cap.dl_facch_cmd || cap.dl_facch_all) ≡ true
    → lower_of (cap.rxqual) < rxqual_of mr
    → rxqual_of mr < cap.rxqual
    → repeated_dl_facch_active_decision is_valid cap false active (some mr) ≡ active
unfolding repeated_dl_facch_active_decision by_report
facch_keeps is_valid cap active mr c h l =
    let k = by_rxqual_keeps active (cap.rxqual) (rxqual_of mr) h l in ground arith

-- A report at a bound or beyond it.
abbrev pub IsOutside : ℕ → Bool → ℕ → Type 0
IsOutside upper true q = upper ≤ q
IsOutside upper false q = (q ≤ lower_of upper) × (q < upper)

facch_changes :
    (is_valid : GsmMeasRes → Bool) (cap : RepAcchCap) (active b : Bool) (mr : GsmMeasRes)
    → (cap.dl_facch_cmd || cap.dl_facch_all) ≡ true
    → 0 < cap.rxqual
    → is_valid mr ≡ true
    → IsOutside (cap.rxqual) b (rxqual_of mr)
    → repeated_dl_facch_active_decision is_valid cap false active (some mr) ≡ b
unfolding repeated_dl_facch_active_decision by_report by_rxqual
facch_changes is_valid cap active true mr c p v h = ground arith
facch_changes is_valid cap active false mr c p v h = ground arith

run_keeps :
    (is_valid : GsmMeasRes → Bool) (cap : RepAcchCap) (active : Bool) (mrs : List GsmMeasRes)
    → (cap.dl_facch_cmd || cap.dl_facch_all) ≡ true
    → AllInside (lower_of (cap.rxqual)) (cap.rxqual) mrs
    → facch_run is_valid cap active mrs ≡ active
unfolding facch_run
run_keeps is_valid cap active [] c h = refl
run_keeps is_valid cap active (mr ∷ mrs) c (l, u, h) =
    ap (λ a. facch_run is_valid cap a mrs) (facch_keeps is_valid cap active mr c l u)
    ∙ run_keeps is_valid cap active mrs c h

-- With repetition permitted and a quality threshold, a valid report at the threshold or above it
-- switches the repetition of the FACCH on, one at the lower bound or below it switches it off, and
-- any number of reports strictly between the two then leave it so.
pub facch_run-hysteresis :
    (is_valid : GsmMeasRes → Bool) (cap : RepAcchCap) (active b : Bool) (mr : GsmMeasRes)
    (mrs : List GsmMeasRes)
    → (cap.dl_facch_cmd || cap.dl_facch_all) ≡ true
    → 0 < cap.rxqual
    → is_valid mr ≡ true
    → IsOutside (cap.rxqual) b (rxqual_of mr)
    → AllInside (lower_of (cap.rxqual)) (cap.rxqual) mrs
    → facch_run is_valid cap active (mr ∷ mrs) ≡ b
unfolding facch_run
facch_run-hysteresis is_valid cap active b mr mrs c p v o h =
    ap (λ a. facch_run is_valid cap a mrs) (facch_changes is_valid cap active b mr c p v o)
    ∙ run_keeps is_valid cap b mrs c h
