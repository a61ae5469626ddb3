-- ===== src/Gnss/Version/Spelled.antt =====
-- The numbers that `parse_receiver_version` of common/utils.c reads, by their spelling.
use oscillatord.Base.{
  ℕ, ◌+◌, ◌*◌, ◌^◌, ◌≤◌, ◌<◌, ◌≡◌, refl, ap, ◌∙◌, ◌≢◌, true, false, none, some, List, [], ◌∷◌, ◌++◌,
  arith, ltb, if◌then◌else◌,
}
use oscillatord.Base.Int.{ℤ, pos}
use oscillatord.Mro50.Hex.{digit_value, is_space}
use oscillatord.Mro50.HexRoundTrip.{Ends}
use oscillatord.Gnss.Version.{
  skip_spaces, skip_letters, skip_word, digit_in, scan_rest, scan_number, scan_based, with_sign,
  long_max, positive, scan_integer, scan_int, parse_minor, parse_numbers, parse_receiver_version,
}
use oscillatord.Base.Words.{to_int32, to_int32-eq_self}

-- A number spelled without a leading zero, or with one, by the values of its digits.
pub data Numeral : Type 0 where
  decimal : ℕ → List ℕ → Numeral
  octal : List ℕ → Numeral

abbrev pub spell_digits : List ℕ → List ℕ → List ℕ
spell_digits [] rest = rest
spell_digits (d ∷ ds) rest = (b'0' + d) ∷ spell_digits ds rest

-- The text of a number and what follows it.
abbrev pub spell : Numeral → List ℕ → List ℕ
spell (decimal d ds) rest = (b'0' + d) ∷ spell_digits ds rest
spell (octal ds) rest = b'0' ∷ spell_digits ds rest

abbrev pub value_from : ℕ → ℕ → List ℕ → ℕ
value_from base n [] = n
value_from base n (d ∷ ds) = value_from base (base * n + d) ds

-- The number that is meant: a number with a leading zero is octal.
abbrev pub value : Numeral → ℕ
value (decimal d ds) = value_from 10 d ds
value (octal ds) = value_from 8 0 ds

abbrev pub Below : ℕ → List ℕ → Type 0
Below base [] = Unit
Below base (d ∷ ds) = (d < base) × Below base ds

abbrev pub IsNumeral : Numeral → Type 0
IsNumeral (decimal d ds) = (1 ≤ d) × (d < 10) × Below 10 ds
IsNumeral (octal ds) = Below 8 ds

-- A word: at least one byte, none of them white space.
abbrev pub NoSpace : List ℕ → Type 0
NoSpace [] = Unit
NoSpace (c ∷ cs) = (is_space c ≡ false) × NoSpace cs

digit_in-spelled : (base d : ℕ) → base ≤ 10 → d < base → digit_in base (b'0' + d) ≡ some d
unfolding digit_in digit_value
digit_in-spelled base d b l = ground arith

digit_in-Ends : (base c : ℕ) → digit_value c ≡ none → digit_in base c ≡ none
unfolding digit_in
digit_in-Ends base c h =
    ap (λ o. elim o [ none ↦ none | some d ↦ if ltb d base then some d else none ]) h

scan_rest-spelled :
    (base n : ℕ) (ds rest : List ℕ)
    → base ≤ 10
    → Below base ds
    → Ends rest
    → scan_rest base (spell_digits ds rest) n ≡ (value_from base n ds, rest)
unfolding scan_rest
scan_rest-spelled base n [] [] b l e = refl
scan_rest-spelled base n [] (c ∷ rest) b l e = ground (arith, digit_in-Ends base c e.0)
scan_rest-spelled base n (d ∷ ds) rest b l e =
    ground
      (arith, digit_in-spelled base d b l.0, scan_rest-spelled base (base * n + d) ds rest b l.1 e)

-- No `x` follows.
abbrev NoMark : List ℕ → Type 0
NoMark [] = Unit
NoMark (c ∷ cs) = (c ≢ b'x') × (c ≢ b'X')

spelled-NoMark : (ds rest : List ℕ) → Below 8 ds → Ends rest → NoMark (spell_digits ds rest)
spelled-NoMark [] [] l e = tt
spelled-NoMark [] (c ∷ rest) l e = (e.1, e.2)
spelled-NoMark (d ∷ ds) rest l e = ground arith

scan_based-decimal :
    (d : ℕ) (t : List ℕ) → 1 ≤ d → d < 10 → scan_based ((b'0' + d) ∷ t) ≡ some (scan_rest 10 t d)
unfolding scan_based scan_number
scan_based-decimal d [] p l = ground (arith, digit_in-spelled 10 d (omega arith) l)
scan_based-decimal d (x ∷ t) p l = ground (arith, digit_in-spelled 10 d (omega arith) l)

zero_alone : scan_based (b'0' ∷ []) ≡ some (scan_rest 8 [] 0)
unfolding scan_based scan_number scan_rest digit_in digit_value
zero_alone = refl

scan_based-octal : (t : List ℕ) → NoMark t → scan_based (b'0' ∷ t) ≡ some (scan_rest 8 t 0)
unfolding scan_based scan_number
scan_based-octal [] h = zero_alone
scan_based-octal (x ∷ t) h = ground (arith, digit_in-spelled 8 0 (omega arith) (omega arith))

scan_based-spelled :
    (m : Numeral) (rest : List ℕ)
    → IsNumeral m
    → Ends rest
    → scan_based (spell m rest) ≡ some (value m, rest)
scan_based-spelled (decimal d ds) rest (p, l, b) e =
    scan_based-decimal d (spell_digits ds rest) p l
    ∙ ap some (scan_rest-spelled 10 d ds rest (omega arith) b e)
scan_based-spelled (octal ds) rest b e =
    scan_based-octal (spell_digits ds rest) (spelled-NoMark ds rest b e)
    ∙ ap some (scan_rest-spelled 8 0 ds rest (omega arith) b e)

skip_spaces-digit : (d : ℕ) (t : List ℕ) → d < 10 → skip_spaces ((b'0' + d) ∷ t) ≡ (b'0' + d) ∷ t
unfolding skip_spaces
skip_spaces-digit d t l = ground arith

scan_integer-plain :
    (c : ℕ) (t : List ℕ)
    → c ≢ b'-'
    → c ≢ b'+'
    → scan_integer (c ∷ t) ≡ with_sign positive (scan_based (c ∷ t))
unfolding scan_integer
scan_integer-plain c t m p = ground arith

scan_integer-digit :
    (d : ℕ) (t : List ℕ)
    → d < 10
    → scan_int ((b'0' + d) ∷ t) ≡ with_sign positive (scan_based ((b'0' + d) ∷ t))
unfolding scan_int
scan_integer-digit d t l =
    let a = skip_spaces-digit d t l in
    let b = scan_integer-plain (b'0' + d) t (omega arith) (omega arith) in ap scan_integer a ∙ b

small : (n : ℕ) → n < 2 ^ 31 → ltb long_max n ≡ false
small n h = ground arith

positive-fits : (n : ℕ) → n < 2 ^ 31 → positive n ≡ pos n
unfolding positive
positive-fits n h =
    ap (λ b. to_int32 (pos (if b then long_max else n))) (small n h)
    ∙ to_int32-eq_self (pos n) (omega arith) (omega (arith, h))

scan_int-spelled :
    (m : Numeral) (rest : List ℕ)
    → IsNumeral m
    → value m < 2 ^ 31
    → Ends rest
    → scan_int (spell m rest) ≡ some (pos (value m), rest)
scan_int-spelled (decimal d ds) rest h l e =
    scan_integer-digit d (spell_digits ds rest) h.1
    ∙ ap (with_sign positive) (scan_based-spelled (decimal d ds) rest h e)
    ∙ ap (λ k. some (k, rest)) (positive-fits (value (decimal d ds)) l)
scan_int-spelled (octal ds) rest h l e =
    scan_integer-digit 0 (spell_digits ds rest) (omega arith)
    ∙ ap (with_sign positive) (scan_based-spelled (octal ds) rest h e)
    ∙ ap (λ k. some (k, rest)) (positive-fits (value (octal ds)) l)

skip_letters-word : (cs rest : List ℕ) → NoSpace cs → skip_letters (cs ++ b' ' ∷ rest) ≡ b' ' ∷ rest
unfolding skip_letters
skip_letters-word [] rest h = refl
skip_letters-word (c ∷ cs) rest h = ground (arith, h.0, skip_letters-word cs rest h.1)

skip_word-word :
    (c : ℕ) (cs rest : List ℕ)
    → NoSpace (c ∷ cs)
    → skip_word ((c ∷ cs) ++ b' ' ∷ rest) ≡ some (b' ' ∷ rest)
unfolding skip_word skip_spaces
skip_word-word c cs rest h = ground (arith, h.0, skip_letters-word cs rest h.1)

scan_int-space : (text : List ℕ) → scan_int (b' ' ∷ text) ≡ scan_int text
unfolding scan_int skip_spaces
scan_int-space text = refl

point-Ends : (rest : List ℕ) → Ends (b'.' ∷ rest)
unfolding digit_value
point-Ends rest = (refl, omega arith, omega arith)

-- A text of a word, a space, two numbers that fit an `int` with a point between them, and anything
-- that does not go on with the second number: both numbers are read, those with a leading zero in base 8.
pub parse_receiver_version-spelled :
    (c : ℕ) (cs : List ℕ) (m n : Numeral) (rest : List ℕ) (major minor : ℤ)
    → NoSpace (c ∷ cs)
    → IsNumeral m
    → value m < 2 ^ 31
    → IsNumeral n
    → value n < 2 ^ 31
    → Ends rest
    → parse_receiver_version (some ((c ∷ cs) ++ b' ' ∷ spell m (b'.' ∷ spell n rest))) major minor
      ≡ (true, pos (value m), pos (value n))
unfolding parse_receiver_version parse_numbers parse_minor
parse_receiver_version-spelled c cs m n rest major minor w hm lm hn ln e =
    let after = b'.' ∷ spell n rest in
    let word = skip_word-word c cs (spell m after) w in
    let first =
      scan_int-space (spell m after) ∙ scan_int-spelled m after hm lm (point-Ends (spell n rest)) in
    let second = scan_int-spelled n rest hn ln e in
    ap (λ o. elim o [ none ↦ (false, major, minor) | some t ↦ parse_numbers major minor t ]) word
    ∙ ap (λ o. elim o [ none ↦ (false, major, minor) | some (k, t) ↦ parse_minor k minor t ]) first
    ∙ ap
        (λ o. elim o [
          | none ↦ (false, pos (value m), minor)
          | some (k, t) ↦ (true, pos (value m), k)
        ])
        second
