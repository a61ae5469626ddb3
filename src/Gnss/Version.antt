-- ===== src/Gnss/Version.antt =====
-- `parse_receiver_version` of common/utils.c: `sscanf(text, "%*s %i.%i", major, minor) == 2`, on the
-- bytes of the text before its NUL. A number is read as a `long` and stored in an `int`, as glibc does;
-- C leaves the result undefined where it does not fit.
pub mod Spelled
mod Tests
use oscillatord.Base.{
  ℕ, ◌+◌, ◌-◌, ◌*◌, ◌^◌, Bool, true, false, ◌||◌, Option, none, some, List, [], ◌∷◌, ltb, ◌==◌,
  if◌then◌else◌,
}
use oscillatord.Base.Int.{ℤ, pos, neg}
use oscillatord.Mro50.Hex.{digit_value, is_space}
use oscillatord.Base.Words.{to_int32}

-- White space in the format: any number of such bytes.
unfoldable pub skip_spaces : List ℕ → List ℕ
skip_spaces [] = []
skip_spaces (c ∷ cs) = let rest = skip_spaces cs in if is_space c then rest else c ∷ cs

-- The rest of a word.
unfoldable pub skip_letters : List ℕ → List ℕ
skip_letters [] = []
skip_letters (c ∷ cs) = let rest = skip_letters cs in if is_space c then c ∷ cs else rest

-- `%*s`: what follows the first word, none without one.
unfoldable pub skip_word : List ℕ → Option (List ℕ)
skip_word text = elim (skip_spaces text) [ [] ↦ none | c ∷ cs ↦ some (skip_letters cs) ]

unfoldable pub digit_in : ℕ → ℕ → Option ℕ
digit_in base c = elim (digit_value c) [
  | none ↦ none
  | some d ↦ if ltb d base then some d else none
]

-- The digits from here on, after the number `n` so far, and the text after them.
unfoldable pub scan_rest : ℕ → List ℕ → ℕ → ℕ × List ℕ
scan_rest base [] n = (n, [])
scan_rest base (c ∷ cs) n = elim (digit_in base c) [
  | none ↦ (n, c ∷ cs)
  | some d ↦ scan_rest base cs (base * n + d)
]

-- A number of at least one digit.
unfoldable pub scan_number : ℕ → List ℕ → Option (ℕ × List ℕ)
scan_number base [] = none
scan_number base (c ∷ cs) = elim (digit_in base c) [
  | none ↦ none
  | some d ↦ some (scan_rest base cs d)
]

-- The base by the prefix: 16 after `0x`, 8 after `0`, else 10.
unfoldable pub scan_based : List ℕ → Option (ℕ × List ℕ)
scan_based (z ∷ x ∷ cs) =
    if z == b'0'
    then (if (x == b'x') || (x == b'X') then scan_number 16 cs else scan_number 8 (z ∷ x ∷ cs))
    else scan_number 10 (z ∷ x ∷ cs)
scan_based cs = scan_number 10 cs

abbrev pub with_sign : (ℕ → ℤ) → Option (ℕ × List ℕ) → Option (ℤ × List ℕ)
with_sign f none = none
with_sign f (some (n, rest)) = some (f n, rest)

-- `LONG_MAX`
abbrev pub long_max : ℕ
long_max = 2 ^ 63 - 1

-- A number and its negative, within a `long`, stored in an `int`.
unfoldable pub positive : ℕ → ℤ
positive n = to_int32 (pos (if ltb long_max n then long_max else n))

unfoldable pub negative : ℕ → ℤ
negative n = to_int32 (neg (pos (if ltb (2 ^ 63) n then 2 ^ 63 else n)))

-- The number after its white space.
unfoldable pub scan_integer : List ℕ → Option (ℤ × List ℕ)
scan_integer [] = none
scan_integer (c ∷ cs) =
    if c == b'-'
    then with_sign negative (scan_based cs)
    else with_sign positive (scan_based (if c == b'+' then cs else c ∷ cs))

-- `%i`
unfoldable pub scan_int : List ℕ → Option (ℤ × List ℕ)
scan_int text = scan_integer (skip_spaces text)

-- The `.` of the format.
abbrev pub after_point : List ℕ → Option (List ℕ)
after_point [] = none
after_point (c ∷ cs) = if c == b'.' then some cs else none

-- `.%i`: the result, with `*major` and `*minor` after it.
unfoldable pub parse_minor : ℤ → ℤ → List ℕ → Bool × ℤ × ℤ
parse_minor major minor rest = elim (after_point rest) [
  | none ↦ (false, major, minor)
  | some text ↦ elim (scan_int text) [
    | none ↦ (false, major, minor)
    | some (n, more) ↦ (true, major, n)
  ]
]

unfoldable pub parse_numbers : ℤ → ℤ → List ℕ → Bool × ℤ × ℤ
parse_numbers major minor text = elim (scan_int text) [
  | none ↦ (false, major, minor)
  | some (n, rest) ↦ parse_minor n minor rest
]

-- `parse_receiver_version` of a text, or of NULL.
unfoldable pub parse_receiver_version : Option (List ℕ) → ℤ → ℤ → Bool × ℤ × ℤ
unfolding parse_numbers parse_minor
parse_receiver_version none major minor = (false, major, minor)
parse_receiver_version (some text) major minor = elim (skip_word text) [
  | none ↦ (false, major, minor)
  | some rest ↦ parse_numbers major minor rest
]
