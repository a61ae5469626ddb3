-- ===== src/Phasemeter/Pairing.antt =====
-- One pair of timestamps of src/phasemeter.c.
use oscillatord.Base.{ℕ, ◌+◌, ◌*◌, ◌≤◌, ◌<◌, ◌≡◌, ap, ◌∙◌, true, false, Option, some, arith}
use oscillatord.Base.Int.{
  ℤ, pos, pos_part, neg_part, ◌+ℤ◌, ◌-ℤ◌, ◌*ℤ◌, neg, -ℤ_parts, neg_parts, eq_of_parts,
}
use oscillatord.Base.Words.{to_int32, to_int64, to_int32-eq_self, to_int64-eq_self}
use oscillatord.Phasemeter.{
  internal_pps, gnss_pps, milliseconds_500, both_timestamps, ExttsEvent, Stamp, Phasemeter,
  read_extts, first, second, publish, is_far, timestamp_diff, pair,
}

abbrev pub stamp : ℤ → ℤ → Stamp
stamp t i = record { timestamp = t; index = i }

-- A timestamp as an `int64_t`, and two that are less than 2 ^ 63 apart.
abbrev pub Near : ℤ → ℤ → ℕ → Type 0
Near g i d =
    (pos_part g + neg_part i ≤ pos_part i + neg_part g + d)
    × (pos_part i + neg_part g ≤ pos_part g + neg_part i + d)

to_int64-sub : (a b : ℤ) → Near a b 9223372036854775807 → to_int64 (a -ℤ b) ≡ a -ℤ b
to_int64-sub a b h =
    to_int64-eq_self (a -ℤ b) (omega (arith, -ℤ_parts a b)) (omega (arith, -ℤ_parts a b))

neg-sub : (a b : ℤ) → neg (a -ℤ b) ≡ b -ℤ a
neg-sub a b = eq_of_parts _ _ (omega (arith, neg_parts (a -ℤ b), -ℤ_parts a b, -ℤ_parts b a))

-- Both orders of arrival give the GNSS timestamp less the internal one.
pub timestamp_diff_either :
    (g i : ℤ)
    → Near g i 9223372036854775807
    → (timestamp_diff (stamp g gnss_pps) (stamp i internal_pps) ≡ g -ℤ i)
      × (timestamp_diff (stamp i internal_pps) (stamp g gnss_pps) ≡ g -ℤ i)
unfolding timestamp_diff
timestamp_diff_either g i h =
    (ap neg (to_int64-sub i g (omega arith)) ∙ neg-sub i g, to_int64-sub g i h)

-- A reading of the kernel as it should be: `index` is 0 (GNSS) or 5 (internal).
abbrev pub extts : ℕ → ℕ → ℕ → Option ExttsEvent
extts sec nsec index = some (record { sec = pos sec; nsec = nsec; index = index })

abbrev pub nanoseconds : ℕ → ℕ → ℕ
nanoseconds sec nsec = sec * 1000000000 + nsec

pub read_extts-extts :
    (sec nsec index : ℕ) (old : ℤ)
    → sec < 9000000000
    → nsec < 1000000000
    → index < 10
    → read_extts (extts sec nsec index) old ≡ stamp (pos (nanoseconds sec nsec)) (pos index)
unfolding read_extts ◌+ℤ◌ ◌*ℤ◌
read_extts-extts sec nsec index old hs hn hi =
    let time : to_int64 (pos (nanoseconds sec nsec)) ≡ pos (nanoseconds sec nsec) =
      to_int64-eq_self (pos (nanoseconds sec nsec)) (omega arith) (omega arith) in
    let name : to_int32 (pos index) ≡ pos index =
      to_int32-eq_self (pos index) (omega arith) (omega arith) in
    ground (arith, time, name)

module _ (p : Phasemeter) (g i : ℤ) (near : Near g i milliseconds_500) where
  small : is_far (g -ℤ i) ≡ false
  small = ground (arith, -ℤ_parts g i)

  exact : to_int32 (g -ℤ i) ≡ g -ℤ i
  exact = to_int32-eq_self (g -ℤ i) (omega (arith, -ℤ_parts g i)) (omega (arith, -ℤ_parts g i))

  pub pair-internal :
      pair p (stamp i internal_pps) (stamp g gnss_pps)
      ≡ (publish p both_timestamps (g -ℤ i), first p.stop i)
  unfolding pair
  pair-internal = ground (arith, small, exact, timestamp_diff_either g i (omega arith))

  pub pair-gnss :
      pair p (stamp g gnss_pps) (stamp i internal_pps)
      ≡ (publish p both_timestamps (g -ℤ i), first p.stop g)
  unfolding pair
  pair-gnss = ground (arith, small, exact, timestamp_diff_either g i (omega arith))

pub pair-far :
    (p : Phasemeter) (t g : ℤ)
    → is_far (timestamp_diff (stamp t internal_pps) (stamp g gnss_pps)) ≡ true
    → pair p (stamp t internal_pps) (stamp g gnss_pps) ≡ (p, second (stamp g gnss_pps) g)
unfolding pair
pair-far p t g h = rw h
