-- ===== src/SysInfo/Choice.antt =====
-- bts_sysinfo_get and get_si2q_inc_index of src/common/sysinfo.c. `pcu` is pcu_connected ().
use osmo_bts.Base.{
  ℕ, ◌+◌, ◌%◌, Bool, not, ◌&&◌, ◌||◌, Option, none, some, List, [], ◌∷◌, ◌++◌, length, get_or, ◌==◌,
  if◌then◌else◌,
}

-- enum osmo_sysinfo_type, as far as the BCCH sends it.
pub data SiType : Type 0 where
  si1 si2 si2bis si2ter si2quater si3 si4 si9 si13 : SiType

-- The fields of struct gsm_bts that the choice reads: which messages are valid, the counter of
-- TC 4, and the index and the last index of the messages 2quater.
pub record SysInfo : Type 0 where
  pub has : SiType → Bool
  pub tc4_ctr : ℕ
  pub si2q_index : ℕ
  pub si2q_count : ℕ

-- A message, or the one of those of type 2quater with an index.
pub data Sent : Type 0 where
  si : SiType → Sent
  si2q : ℕ → Sent

unfoldable pub get_si2q_inc_index : SysInfo → SysInfo × Sent
get_si2q_inc_index b =
    (record b { si2q_index = (b.si2q_index + 1) % (b.si2q_count + 1) }, si2q b.si2q_index)

unfoldable pub only_if : Bool → SiType → List SiType
only_if b t = if b then t ∷ [] else []

-- The messages that share TC 4.
unfoldable pub tc4_sub : SysInfo → Bool → List SiType
tc4_sub b pcu =
    only_if (b.has si2ter && b.has si2bis) si2ter
    ++ only_if (b.has si2quater && (b.has si2bis || b.has si2ter)) si2quater
    ++ only_if (b.has si13 && pcu) si13
    ++ only_if (b.has si9) si9

unfoldable pub send : SysInfo → SiType → SysInfo × Sent
send b si2quater = get_si2q_inc_index b
send b t = (b, si t)

-- TC 4 with the messages that share it.
unfoldable pub at_tc4 : SysInfo → List SiType → SysInfo × Sent
at_tc4 b [] = (b, si si2)
at_tc4 b (t ∷ ts) =
    let ctr = (b.tc4_ctr + 1) % length (t ∷ ts) in
    send (record b { tc4_ctr = ctr }) (get_or (t ∷ ts) ctr t)

unfoldable pub at_tc5 : SysInfo → SysInfo × Sent
at_tc5 b =
    if b.has si2bis && not (b.has si2ter)
    then (b, si si2bis)
    else if b.has si2ter && not (b.has si2bis)
    then (b, si si2ter)
    else if b.has si2bis && b.has si2ter
    then (b, si si2bis)
    else if b.has si2quater && (not (b.has si2bis) && not (b.has si2ter))
    then get_si2q_inc_index b
    else (b, si si2)

-- The block of a multiframe by its TC, which is fn / 51 % 8; another TC fails an assertion.
unfoldable pub bts_sysinfo_get : SysInfo → Bool → ℕ → Option (SysInfo × Sent)
bts_sysinfo_get b pcu tc =
    if tc == 0
    then some (b, si (if b.has si1 then si1 else si2))
    else if tc == 1
    then some (b, si si2)
    else if tc == 2
    then some (b, si si3)
    else if tc == 3
    then some (b, si si4)
    else if tc == 4
    then some (at_tc4 b (tc4_sub b pcu))
    else if tc == 5
    then some (at_tc5 b)
    else if tc == 6
    then some (b, si si3)
    else if tc == 7
    then some (b, si si4)
    else none
