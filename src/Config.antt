-- ===== src/Config.antt =====
-- The getters of common/config.c. What `envz_get` finds under the key is an argument: the text, or
-- none. `strtoul` and `strtol` are parameters: the number, and whether the whole text was used.
pub mod File
pub mod Ranges
mod Tests
use oscillatord.Base.{
  ℕ, zero, suc, ◌-◌, ◌^◌, Bool, true, false, not, ◌&&◌, ◌||◌, Option, none, some, List, [], ◌∷◌,
  ltb, ◌==◌, if◌then◌else◌,
}
use oscillatord.Base.Int.{ℤ, pos, negsuc, ltb_ℤ}
use oscillatord.Base.CError.{e_inval, success}

-- The texts `true` and `false`.
abbrev pub true_text : List ℕ
true_text = b't' ∷ b'r' ∷ b'u' ∷ b'e' ∷ []

abbrev pub false_text : List ℕ
false_text = b'f' ∷ b'a' ∷ b'l' ∷ b's' ∷ b'e' ∷ []

-- `strcmp(a, b) == 0`
abbrev pub same_text : List ℕ → List ℕ → Bool
same_text [] [] = true
same_text [] (b ∷ bs) = false
same_text (a ∷ cs) [] = false
same_text (a ∷ cs) (b ∷ bs) = (a == b) && same_text cs bs

-- `config_get_bool_default`
unfoldable pub get_bool_default : Option (List ℕ) → Bool → Bool
get_bool_default none default = default
get_bool_default (some v) default =
    if same_text v true_text then true else if same_text v false_text then false else default

-- -ESRCH (3) and -ERANGE (34)
abbrev pub e_srch : ℤ
e_srch = negsuc 2

abbrev pub e_range : ℤ
e_range = negsuc 33

-- LONG_MAX
abbrev pub long_max : ℕ
long_max = 2 ^ 63 - 1

-- The result for a missing key, `-errno` or -ESRCH, with `errno` as it was left.
abbrev pub missing : ℕ → ℤ
missing zero = e_srch
missing (suc n) = negsuc n

-- `*str_value == '\0'`
abbrev pub is_empty : List ℕ → Bool
is_empty [] = true
is_empty (c ∷ cs) = false

-- `config_get_unsigned_number`
pub get_unsigned_number : (List ℕ → ℕ × Bool) → ℕ → Option (List ℕ) → ℤ
get_unsigned_number strtoul errno none = missing errno
get_unsigned_number strtoul errno (some v) =
    let (value, used) = strtoul v in
    if is_empty v || not used then e_inval else if ltb long_max value then e_range else pos value

-- `config_get_uint8_t`
pub get_uint8_t : (List ℕ → ℕ × Bool) → ℕ → Option (List ℕ) → ℤ
unfolding get_unsigned_number
get_uint8_t strtoul errno v =
    let value = get_unsigned_number strtoul errno v in
    if ltb_ℤ (pos 255) value then e_range else value

-- `config_get_int16_t`: the result, and `*val` after it.
pub get_int16_t : (List ℕ → ℤ × Bool) → ℕ → Option (List ℕ) → ℤ → ℤ × ℤ
get_int16_t strtol errno none val = (missing errno, val)
get_int16_t strtol errno (some v) val =
    let (value, used) = strtol v in
    if is_empty v || not used
    then (e_inval, val)
    else if ltb_ℤ (pos 32767) value || ltb_ℤ value (negsuc 32767)
    then (e_range, val)
    else (success, value)
