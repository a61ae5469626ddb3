-- ===== src/Gnss/Receiver/Setup.antt =====
-- What the configuration loops of src/gnss.c achieve.
use oscillatord.Base.{
  ℕ, ◌≤◌, ◌≡◌, refl, ◌≢◌, ◌↔◌, ◌⊎◌, inr, Bool, true, false, Option, none, some, List, [], ◌∷◌,
  arith, ◌==◌, if◌then◌else◌,
}
use oscillatord.Base.Int.{ℤ, pos, pos_part, ◌≤ℤ◌, ◌<ℤ◌}
use oscillatord.Gnss.Receiver.{
  connect, KeyVal, set_last, int16_max, set_cable_delay, set_configuration,
}

-- Among the first five.
abbrev pub InFive : (ℕ → Bool) → Type 0
InFive f = (f 0 ≡ true) ⊎ (f 1 ≡ true) ⊎ (f 2 ≡ true) ⊎ (f 3 ≡ true) ⊎ (f 4 ≡ true)

-- The serial link is open exactly if one of five attempts opens it; no more than five are made.
pub connect-InFive :
    (opens : ℕ → Bool) → (((connect opens).0 ≡ true) ↔ InFive opens) × ((connect opens).1 ≤ 5)
unfolding connect
connect-InFive opens = ground arith

-- The receiver is reported configured exactly if it was, or one of the first five attempts wrote
-- the configuration and the hardware reset was done; no more than six attempts are made.
pub set_configuration-InFive :
    (already : Bool) (sets : ℕ → Bool) (resets : Bool)
    → (((set_configuration already sets resets).0 ≡ true)
        ↔ ((already ≡ true) ⊎ (InFive sets × (resets ≡ true))))
      × ((set_configuration already sets resets).1 ≤ 6)
unfolding set_configuration
set_configuration-InFive already sets resets = ground arith

-- A sixth attempt is made after five failures, and is reported as a failure though it writes the
-- configuration.
pub sixth_attempt_lost :
    (sets : ℕ → Bool) (resets : Bool)
    → ¬ InFive sets
    → sets 5 ≡ true
    → set_configuration false sets resets ≡ (false, 6)
unfolding set_configuration
sixth_attempt_lost sets resets n h = ground arith

-- The last value of a key.
abbrev pub last_value : ℕ → List KeyVal → Option ℕ
last_value key [] = none
last_value key (kv ∷ kvs) = elim (last_value key kvs) [
  | some v ↦ some v
  | none ↦ if kv.id == key then some kv.val else none
]

-- The keys, in their order.
abbrev pub ids : List KeyVal → List ℕ
ids [] = []
ids (kv ∷ kvs) = kv.id ∷ ids kvs

-- What `set_last` has done to a list.
pub record Written (key v : ℕ) (kvs : List KeyVal) (out : List KeyVal × Bool) : Type 0 where
  pub keys : ids out.0 ≡ ids kvs
  pub found : (out.1 ≡ true) ↔ (last_value key kvs ≢ none)
  pub value : (last_value key out.0 ≡ some v) ⊎ ((out.1 ≡ false) × (last_value key out.0 ≡ none))
  pub others : (k : ℕ) → (k ≡ key) ⊎ (last_value k out.0 ≡ last_value k kvs)

set_last-keys : (key v : ℕ) (kvs : List KeyVal) → ids (set_last key v kvs).0 ≡ ids kvs
unfolding set_last
set_last-keys key v [] = refl
set_last-keys key v (kv ∷ kvs) = ground (arith, set_last-keys key v kvs)

set_last-found :
    (key v : ℕ) (kvs : List KeyVal) → ((set_last key v kvs).1 ≡ true) ↔ (last_value key kvs ≢ none)
unfolding set_last
set_last-found key v [] = ground arith
set_last-found key v (kv ∷ kvs) = ground (arith, set_last-found key v kvs)

set_last-missing :
    (key v : ℕ) (kvs : List KeyVal)
    → ((set_last key v kvs).1 ≡ true) ⊎ ((set_last key v kvs).0 ≡ kvs)
unfolding set_last
set_last-missing key v [] = inr refl
set_last-missing key v (kv ∷ kvs) = ground (arith, set_last-missing key v kvs)

set_last-value :
    (key v : ℕ) (kvs : List KeyVal)
    → (last_value key (set_last key v kvs).0 ≡ some v)
      ⊎ (((set_last key v kvs).1 ≡ false) × (last_value key (set_last key v kvs).0 ≡ none))
unfolding set_last
set_last-value key v [] = inr (refl, refl)
set_last-value key v (kv ∷ kvs) =
    ground (arith, set_last-value key v kvs, set_last-missing key v kvs, set_last-found key v kvs)

set_last-others :
    (key v k : ℕ) (kvs : List KeyVal)
    → (k ≡ key) ⊎ (last_value k (set_last key v kvs).0 ≡ last_value k kvs)
unfolding set_last
set_last-others key v k [] = inr refl
set_last-others key v k (kv ∷ kvs) = ground (arith, set_last-others key v k kvs)

set_last-Written : (key v : ℕ) (kvs : List KeyVal) → Written key v kvs (set_last key v kvs)
set_last-Written key v kvs = record {
  keys = set_last-keys key v kvs;
  found = set_last-found key v kvs;
  value = set_last-value key v kvs;
  others = λ k. set_last-others key v k kvs;
}

-- A configured cable delay is written to the last pair of its key, and to no other key, exactly if
-- `strtol` reads a number from 1 to INT16_MAX; else nothing changes.
pub set_cable_delay-Written :
    (key : ℕ) (value : ℤ) (used : Bool) (kvs : List KeyVal)
    → let out = set_cable_delay key (some (some (value, used))) kvs in
      ((used ≡ true)
        × (pos 1 ≤ℤ value)
        × (value ≤ℤ pos int16_max)
        × Written key (pos_part value) kvs out)
      ⊎ (((used ≡ false) ⊎ (value ≤ℤ pos 0) ⊎ (pos int16_max <ℤ value)) × (out ≡ (kvs, false)))
unfolding set_cable_delay
set_cable_delay-Written key value used kvs =
    ground (arith, set_last-Written key (pos_part value) kvs)
