-- ===== src/Oscillator/Tests.antt =====
-- Runs of the table of drivers on concrete factories.
use oscillatord.Base.{ℕ, ◌≡◌, refl, true, Option, none, some, List, [], ◌∷◌, take}
use oscillatord.Oscillator.Factory.{
  max_oscillator_factories, same_name, OscillatorFactory, is_valid, is_named, get_by_name, register,
  register_all, new_oscillator,
}
use oscillatord.Oscillator.Registered.{valid_ones, register_all-take}

abbrev driver : ℕ → OscillatorFactory ℕ
driver n = record { name = some (n ∷ []); destroys = true; new = some n }

abbrev nameless : OscillatorFactory ℕ
nameless = record { name = none; destroys = true; new = some 0 }

abbrev drivers : List (Option (OscillatorFactory ℕ))
drivers =
    some (driver 1)
    ∷ none
    ∷ some (driver 2)
    ∷ some nameless
    ∷ some (driver 3)
    ∷ some (driver 4)
    ∷ some (driver 5)
    ∷ some (driver 6)
    ∷ []

register_all-take_example :
    register_all drivers [] ≡ take max_oscillator_factories (valid_ones drivers)
register_all-take_example = register_all-take drivers

new_oscillator_test : new_oscillator (register_all drivers []) (some (5 ∷ [])) ≡ some 5
unfolding new_oscillator register_all register is_valid get_by_name is_named same_name
new_oscillator_test = refl

sixth_test : new_oscillator (register_all drivers []) (some (6 ∷ [])) ≡ none
unfolding new_oscillator register_all register is_valid get_by_name is_named same_name
sixth_test = refl
