-- ===== src/Gnss/Receiver.antt =====
-- The configuration of the receiver in src/gnss.c: opening the serial link, the values that the
-- daemon's configuration overrides, and the configuration loop. A call of the `ubloxcfg` library is
-- one answer of a list or function of answers.
mod Setup
mod Tests
use oscillatord.Base.{
  ℕ, zero, suc, ◌+◌, Bool, true, false, not, ◌&&◌, ◌||◌, Option, none, some, List, [], ◌∷◌, ◌==◌,
  if◌then◌else◌,
}
use oscillatord.Base.Int.{ℤ, pos, pos_part, ltb_ℤ, leb_ℤ}

-- GNSS_CONNECT_MAX_TRY
abbrev pub connect_max_try : ℕ
connect_max_try = 5

-- `gnss_connect` with the tries left: `opens k` is the answer of the k-th `rxOpen`. The second
-- part counts the calls made.
unfoldable pub connect_from : ℕ → ℕ → (ℕ → Bool) → Bool × ℕ
connect_from zero k opens = (false, k)
connect_from (suc left) k opens =
    let rest = connect_from left (k + 1) opens in if opens k then (true, k + 1) else rest

unfoldable pub connect : (ℕ → Bool) → Bool × ℕ
unfolding connect_from
connect opens = connect_from connect_max_try 0 opens

-- The words that `gnss-preferred-time-scale` knows.
pub data Grid : Type 0 where
  grid_gps grid_gal grid_glo grid_bds grid_utc : Grid

-- `strncmp (value, word, 3) == 0`: the first three characters.
abbrev starts_with : ℕ → ℕ → ℕ → List ℕ → Bool
starts_with a b c (x ∷ y ∷ z ∷ rest) = x == a && (y == b && z == c)
starts_with a b c _ = false

pub grid_of : List ℕ → Option Grid
grid_of w =
    if starts_with b'G' b'P' b'S' w
    then some grid_gps
    else if starts_with b'G' b'A' b'L' w
    then some grid_gal
    else if starts_with b'G' b'L' b'O' w
    then some grid_glo
    else if starts_with b'B' b'D' b'S' w
    then some grid_bds
    else if starts_with b'U' b'T' b'C' w
    then some grid_utc
    else none

-- A key and its value, as the receiver's configuration is a list of.
pub record KeyVal : Type 0 where
  pub id : ℕ
  pub val : ℕ

-- `while (pair --> keyValuePairs)`: from the end, the first pair with the key takes the value.
-- The flag says if there was one.
pub set_last : ℕ → ℕ → List KeyVal → List KeyVal × Bool
set_last key v [] = ([], false)
set_last key v (kv ∷ kvs) =
    let (rest, found) = set_last key v kvs in
    if found
    then (kv ∷ rest, true)
    else if kv.id == key
    then (record kv { val = v } ∷ kvs, true)
    else (kv ∷ kvs, false)

-- `set_preferred_time_scale`; `code` gives the library's number for a time grid.
pub set_preferred_time_scale : ℕ → (Grid → ℕ) → Option (List ℕ) → List KeyVal → List KeyVal × Bool
unfolding grid_of set_last
set_preferred_time_scale key code none kvs = (kvs, false)
set_preferred_time_scale key code (some w) kvs = elim (grid_of w) [
  | none ↦ (kvs, false)
  | some g ↦ set_last key (code g) kvs
]

-- INT16_MAX
abbrev pub int16_max : ℕ
int16_max = 32767

-- `set_cable_delay`. The configured text is given by what `strtol` makes of it: none if it sets
-- `errno`, else the number, and if a character was used.
pub set_cable_delay : ℕ → Option (Option (ℤ × Bool)) → List KeyVal → List KeyVal × Bool
unfolding set_last
set_cable_delay key none kvs = (kvs, false)
set_cable_delay key (some none) kvs = (kvs, false)
set_cable_delay key (some (some (value, used))) kvs =
    if leb_ℤ value (pos 0) || (ltb_ℤ (pos int16_max) value || not used)
    then (kvs, false)
    else set_last key (pos_part value) kvs

-- GNSS_RECONFIGURE_MAX_TRY
abbrev pub reconfigure_max_try : ℕ
reconfigure_max_try = 5

-- The loop of `gnss_set_configuration` at `tries`, with what is left until the counter's limit:
-- `sets k` is the answer of the k-th `rxSetConfig`, `resets` that of `rxReset`. The second part
-- counts the calls of `rxSetConfig`. At the limit the round ends in failure, whatever it did.
configure_from : ℕ → ℕ → (ℕ → Bool) → Bool → Bool × ℕ
configure_from zero tries sets resets = (false, tries + 1)
configure_from (suc left) tries sets resets =
    let rest = configure_from left (tries + 1) sets resets in
    if sets tries then (resets, tries + 1) else rest

unfoldable pub set_configuration : Bool → (ℕ → Bool) → Bool → Bool × ℕ
unfolding configure_from
set_configuration already sets resets =
    if already then (true, 0) else configure_from reconfigure_max_try 0 sets resets
