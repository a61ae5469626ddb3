-- ===== src/Gnss/Version/Tests.antt =====
-- Versions of the receiver, among them those of the tests of common/utils.c.
use oscillatord.Base.{ℕ, ◌≡◌, refl, true, false, some, List, [], ◌∷◌, arith}
use oscillatord.Base.Int.{pos}
use oscillatord.Mro50.Hex.{digit_value}
use oscillatord.Gnss.Version.{
  skip_spaces, skip_letters, skip_word, digit_in, scan_rest, scan_number, scan_based, positive,
  scan_integer, scan_int, parse_minor, parse_numbers, parse_receiver_version,
}
use oscillatord.Gnss.Version.Spelled.{decimal, octal, spell, parse_receiver_version-spelled}
use oscillatord.Base.Words.{to_int32}

-- K 5.006
abbrev k_5_006 : List ℕ
k_5_006 = b'K' ∷ b' ' ∷ b'5' ∷ b'.' ∷ b'0' ∷ b'0' ∷ b'6' ∷ []

k_5_006_test : parse_receiver_version (some k_5_006) (pos 0) (pos 0) ≡ (true, pos 5, pos 6)
unfolding parse_receiver_version parse_numbers parse_minor skip_word skip_spaces skip_letters
    scan_int scan_integer positive to_int32 scan_based scan_number scan_rest digit_in digit_value
k_5_006_test = refl

-- `  nm   1.2(mmh)`: white space before the word, and more of it after.
abbrev nm_1_2 : List ℕ
nm_1_2 =
    b' ' ∷ b' ' ∷ b'n' ∷ b'm' ∷ b' ' ∷ b' ' ∷ b' ' ∷ b'1' ∷ b'.' ∷ b'2' ∷ b'(' ∷ b'm' ∷ b')' ∷ []

nm_1_2_test : parse_receiver_version (some nm_1_2) (pos 0) (pos 0) ≡ (true, pos 1, pos 2)
unfolding parse_receiver_version parse_numbers parse_minor skip_word skip_spaces skip_letters
    scan_int scan_integer positive to_int32 scan_based scan_number scan_rest digit_in digit_value
nm_1_2_test = refl

-- ` w 320` has no point: the first number is stored all the same.
abbrev w_320 : List ℕ
w_320 = b' ' ∷ b'w' ∷ b' ' ∷ b'3' ∷ b'2' ∷ b'0' ∷ []

w_320_test : parse_receiver_version (some w_320) (pos 0) (pos 0) ≡ (false, pos 320, pos 0)
unfolding parse_receiver_version parse_numbers parse_minor skip_word skip_spaces skip_letters
    scan_int scan_integer positive to_int32 scan_based scan_number scan_rest digit_in digit_value
w_320_test = refl

-- f9d 2.09: the digits of `09` end at the 9.
abbrev f9d_2_09 : List ℕ
f9d_2_09 = b'f' ∷ b'9' ∷ b'd' ∷ b' ' ∷ b'2' ∷ b'.' ∷ b'0' ∷ b'9' ∷ []

f9d_2_09_test : parse_receiver_version (some f9d_2_09) (pos 0) (pos 0) ≡ (true, pos 2, pos 0)
unfolding parse_receiver_version parse_numbers parse_minor skip_word skip_spaces skip_letters
    scan_int scan_integer positive to_int32 scan_based scan_number scan_rest digit_in digit_value
f9d_2_09_test = refl

-- fd 7.010(
abbrev after_fd : List ℕ
after_fd = spell (decimal 7 []) (b'.' ∷ spell (octal (1 ∷ 0 ∷ [])) (b'(' ∷ []))

parse_receiver_version-spelled_example :
    parse_receiver_version (some (b'f' ∷ b'd' ∷ b' ' ∷ after_fd)) (pos 0) (pos 0)
    ≡ (true, pos 7, pos 8)
unfolding digit_value
parse_receiver_version-spelled_example =
    parse_receiver_version-spelled b'f' (b'd' ∷ []) (decimal 7 []) (octal (1 ∷ 0 ∷ [])) (b'(' ∷ [])
      (pos 0) (pos 0) (refl, (refl, tt)) (omega arith, omega arith, tt) (omega arith)
      (omega arith, (omega arith, tt)) (omega arith) (refl, omega arith, omega arith)
