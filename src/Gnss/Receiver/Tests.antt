-- ===== src/Gnss/Receiver/Tests.antt =====
-- The configuration loops at concrete answers.
use oscillatord.Base.{
  ℕ, ◌≤◌, ◌≡◌, refl, ◌↔◌, ◌⊎◌, Bool, true, false, some, List, [], ◌∷◌, arith, ◌==◌,
}
use oscillatord.Base.Int.{pos, ◌≤ℤ◌, ◌<ℤ◌}
use oscillatord.Gnss.Receiver.{
  connect, grid_gal, KeyVal, set_preferred_time_scale, int16_max, set_cable_delay,
  set_configuration,
}
use oscillatord.Gnss.Receiver.Setup.{
  InFive, connect-InFive, set_configuration-InFive, sixth_attempt_lost, Written,
  set_cable_delay-Written,
}

abbrev third : ℕ → Bool
third k = k == 2

abbrev sixth : ℕ → Bool
sixth k = k == 5

connect-InFive_test : (((connect third).0 ≡ true) ↔ InFive third) × ((connect third).1 ≤ 5)
connect-InFive_test = connect-InFive third

opens_third_time : connect third ≡ (true, 3)
unfolding connect
opens_third_time = refl

set_configuration-InFive_example :
    (((set_configuration false third true).0 ≡ true)
      ↔ ((false ≡ true) ⊎ (InFive third × (true ≡ true))))
    × ((set_configuration false third true).1 ≤ 6)
set_configuration-InFive_example = set_configuration-InFive false third true

sixth_attempt_lost_test : set_configuration false sixth true ≡ (false, 6)
sixth_attempt_lost_test = sixth_attempt_lost sixth true (λ h. ground arith) refl

abbrev pairs : List KeyVal
pairs = record { id = 7; val = 0 } ∷ record { id = 9; val = 0 } ∷ record { id = 7; val = 1 } ∷ []

set_cable_delay-Written_test :
    let out = set_cable_delay 7 (some (some (pos 55, true))) pairs in
    ((true ≡ true) × (pos 1 ≤ℤ pos 55) × (pos 55 ≤ℤ pos int16_max) × Written 7 55 pairs out)
    ⊎ (((true ≡ false) ⊎ (pos 55 ≤ℤ pos 0) ⊎ (pos int16_max <ℤ pos 55)) × (out ≡ (pairs, false)))
set_cable_delay-Written_test = set_cable_delay-Written 7 (pos 55) true pairs

-- The configured word "GALILEO" sets the last of two pairs.
galileo :
    set_preferred_time_scale 7
      (λ g. elim g [ grid_gal ↦ 4 | _ ↦ 0 ])
      (some (b'G' ∷ b'A' ∷ b'L' ∷ b'I' ∷ b'L' ∷ []))
      pairs
    ≡ (
      record { id = 7; val = 0 } ∷ record { id = 9; val = 0 } ∷ record { id = 7; val = 4 } ∷ [],
      true,
    )
unfolding set_preferred_time_scale
galileo = refl
