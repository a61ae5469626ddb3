-- ===== src/Config/Tests.antt =====
-- The getters of common/config.c with a reader of one decimal digit.
use oscillatord.Base.{
  ℕ, ◌-◌, ◌≤◌, ◌<◌, ◌≡◌, refl, ◌≢◌, ◌⊎◌, Bool, true, false, none, some, List, [], ◌∷◌,
}
use oscillatord.Base.Int.{ℤ, pos, ◌<ℤ◌}
use oscillatord.Base.CError.{e_inval}
use oscillatord.Config.{true_text, get_bool_default, get_unsigned_number, get_uint8_t, get_int16_t}
use oscillatord.Config.Ranges.{get_uint8_t-Range}

abbrev digit : List ℕ → ℕ × Bool
digit (c ∷ []) = (c - 48, true)
digit cs = (0, false)

abbrev signed_digit : List ℕ → ℤ × Bool
signed_digit (c ∷ []) = (pos (c - 48), true)
signed_digit cs = (pos 0, false)

abbrev seven : List ℕ
seven = b'7' ∷ []

get_uint8_t-Range_test :
    let out = get_uint8_t digit 0 (some seven) in
    (get_uint8_t digit 0 none <ℤ pos 0)
    × (((out ≡ pos 7) × (seven ≢ []) × (true ≡ true) × (7 ≤ 255))
        ⊎ ((out <ℤ pos 0) × ((seven ≡ []) ⊎ (true ≡ false) ⊎ (255 < 7))))
get_uint8_t-Range_test = get_uint8_t-Range digit 0 seven

get_uint8_t_test : get_uint8_t digit 0 (some (b'7' ∷ [])) ≡ pos 7
unfolding get_uint8_t get_unsigned_number
get_uint8_t_test = refl

get_int16_t_test : get_int16_t signed_digit 0 (some (b'7' ∷ b'7' ∷ [])) (pos 3) ≡ (e_inval, pos 3)
unfolding get_int16_t
get_int16_t_test = refl

get_bool_default_test :
    (get_bool_default (some true_text) false ≡ true)
    × (get_bool_default (some (b'1' ∷ [])) true ≡ true)
unfolding get_bool_default
get_bool_default_test = (refl, refl)
