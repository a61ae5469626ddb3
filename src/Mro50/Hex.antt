-- ===== src/Mro50/Hex.antt =====
-- The hexadecimal numbers in the texts of src/oscillators/mRo50_oscillator.c: `%X` of `sprintf` with a
-- least width, and `%x` of `sscanf`.
use oscillatord.Base.{
  ℕ, zero, suc, ◌+◌, ◌-◌, ◌*◌, ◌/◌, ◌%◌, ◌^◌, Bool, ◌&&◌, ◌||◌, Option, none, some, List, [], ◌∷◌,
  ltb, leb, ◌==◌, if◌then◌else◌,
}

-- A digit of `%X`.
unfoldable pub hex_digit : ℕ → ℕ
hex_digit d = if ltb d 10 then b'0' + d else b'A' + (d - 10)

-- The digits of a number below `16 ^ n`, `n` of them.
unfoldable pub digits : ℕ → ℕ → List ℕ → List ℕ
unfolding hex_digit
digits zero v out = out
digits (suc n) v out = digits n (v / 16) (hex_digit (v % 16) ∷ out)

-- How many digits a 32-bit number needs, from 1 to 8.
abbrev pub needed_from : ℕ → ℕ → ℕ
needed_from zero v = 1
needed_from (suc n) v = if leb (16 ^ suc n) v then suc (suc n) else needed_from n v

-- `sprintf("%0wX", v)` of a `uint32_t`.
unfoldable pub print_hex : ℕ → ℕ → List ℕ
unfolding digits
print_hex w v = let n = needed_from 7 v in digits (if ltb n w then w else n) v []

-- The value of a hexadecimal digit, of either case.
unfoldable pub digit_value : ℕ → Option ℕ
digit_value c =
    if leb b'0' c && leb c b'9'
    then some (c - b'0')
    else if leb b'A' c && leb c b'F'
    then some (c - b'A' + 10)
    else if leb b'a' c && leb c b'f'
    then some (c - b'a' + 10)
    else none

-- The digits from here on, after the number `n` so far.
unfoldable pub scan_digits : List ℕ → ℕ → ℕ
unfolding digit_value
scan_digits [] n = n
scan_digits (c ∷ cs) n = elim (digit_value c) [ none ↦ n | some d ↦ scan_digits cs (16 * n + d) ]

-- The numbers of `strtoul`, and their conversion to a `uint32_t`.
abbrev pub to_uint32 : ℕ → ℕ
to_uint32 n = (if ltb n (2 ^ 64) then n else 2 ^ 64 - 1) % 2 ^ 32

-- A number without a sign or prefix: none without a digit.
unfoldable pub scan_plain : List ℕ → Option ℕ
unfolding scan_digits
scan_plain [] = none
scan_plain (c ∷ cs) = elim (digit_value c) [ none ↦ none | some d ↦ some (scan_digits cs d) ]

-- The prefix `0x` is passed over, and is a match of its own where no digit follows: none.
unfoldable pub scan_prefixed : List ℕ → Option ℕ
unfolding scan_plain
scan_prefixed (z ∷ x ∷ cs) =
    if (z == b'0') && ((x == b'x') || (x == b'X')) then scan_plain cs else scan_plain (z ∷ x ∷ cs)
scan_prefixed cs = scan_plain cs

-- A minus sign negates modulo 2 ^ 32.
unfoldable pub scan_signed : List ℕ → Option ℕ
unfolding scan_prefixed
scan_signed [] = none
scan_signed (c ∷ cs) =
    if c == b'-'
    then elim (scan_prefixed cs) [
      | none ↦ none
      | some n ↦ some (if ltb n (2 ^ 64) then (2 ^ 32 - n % 2 ^ 32) % 2 ^ 32 else 2 ^ 32 - 1)
    ]
    else elim (scan_prefixed (if c == b'+' then cs else c ∷ cs)) [
      | none ↦ none
      | some n ↦ some (to_uint32 n)
    ]

-- `isspace`
abbrev pub is_space : ℕ → Bool
is_space c = (c == b' ') || (leb 9 c && leb c 13)

-- `sscanf(s, "%x\\r\\n", &v) > 0`, on the text before the first NUL.
unfoldable pub scan_hex : List ℕ → Option ℕ
unfolding scan_signed
scan_hex [] = none
scan_hex (c ∷ cs) = let rest = scan_hex cs in if is_space c then rest else scan_signed (c ∷ cs)
