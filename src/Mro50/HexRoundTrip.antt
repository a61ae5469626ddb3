-- ===== src/Mro50/HexRoundTrip.antt =====
-- A number that src/oscillators/mRo50_oscillator.c prints is the number that it would read.
use oscillatord.Base.{
  ℕ, zero, suc, ◌+◌, ◌*◌, ◌/◌, ◌%◌, ◌^◌, ◌≤◌, ◌<◌, ◌≡◌, refl, sym, ap, ◌∙◌, ◌≢◌, inl, inr, false,
  none, some, List, [], ◌∷◌, ◌++◌, arith, ltb, ◌==◌, if◌then◌else◌, Bool-cases, Option-cases,
  length,
}
use oscillatord.Mro50.Hex.{
  hex_digit, digits, needed_from, print_hex, digit_value, scan_digits, to_uint32, scan_plain,
  scan_prefixed, is_space, scan_hex,
}
use native.Mathlib.Nat.{pow-succ', pow-le-pow_right}

-- What may follow a number: nothing, or a byte that does not go on with it.
abbrev pub Ends : List ℕ → Type 0
Ends [] = Unit
Ends (c ∷ cs) = (digit_value c ≡ none) × (c ≢ b'x') × (c ≢ b'X')

abbrev pub AllDigits : List ℕ → Type 0
AllDigits [] = Unit
AllDigits (c ∷ cs) = (digit_value c ≢ none) × AllDigits cs

digit_value-hex_digit : (d : ℕ) → d < 16 → digit_value (hex_digit d) ≡ some d
unfolding digit_value hex_digit
digit_value-hex_digit d h = ground arith

digits-AllDigits : (n v : ℕ) (out : List ℕ) → AllDigits out → AllDigits (digits n v out)
unfolding digits
digits-AllDigits zero v out h = h
digits-AllDigits (suc n) v out h =
    digits-AllDigits n (v / 16) (hex_digit (v % 16) ∷ out)
      (ground (arith, digit_value-hex_digit (v % 16)), h)

digits-append : (n v : ℕ) (out rest : List ℕ) → digits n v out ++ rest ≡ digits n v (out ++ rest)
unfolding digits
digits-append zero v out rest = refl
digits-append (suc n) v out rest = digits-append n (v / 16) (hex_digit (v % 16) ∷ out) rest

scan_digits-cons :
    (c d n : ℕ) (cs : List ℕ)
    → digit_value c ≡ some d
    → scan_digits (c ∷ cs) n ≡ scan_digits cs (16 * n + d)
unfolding scan_digits
scan_digits-cons c d n cs h = ground arith

scan_digits-digits :
    (n v : ℕ) (out : List ℕ) → v < 16 ^ n → scan_digits (digits n v out) 0 ≡ scan_digits out v
unfolding digits
scan_digits-digits zero v out h = ap (scan_digits out) (omega arith)
scan_digits-digits (suc n) v out h =
    scan_digits-digits n (v / 16) (hex_digit (v % 16) ∷ out) (omega (arith, pow-succ' 16 n, h))
    ∙ scan_digits-cons (hex_digit (v % 16)) (v % 16) (v / 16) out
        (digit_value-hex_digit (v % 16) (omega arith))
    ∙ ap (scan_digits out) (omega arith)

scan_digits-Ends : (rest : List ℕ) (n : ℕ) → Ends rest → scan_digits rest n ≡ n
unfolding scan_digits
scan_digits-Ends [] n h = refl
scan_digits-Ends (c ∷ cs) n h = ground arith

abbrev HeadOk : List ℕ → Type 0
HeadOk [] = Unit
HeadOk (c ∷ cs) = (c ≢ b'x') × (c ≢ b'X')

scan_plain-digit :
    (c d : ℕ) (t : List ℕ) → digit_value c ≡ some d → scan_plain (c ∷ t) ≡ some (scan_digits t d)
unfolding scan_plain
scan_plain-digit c d t h = ground arith

scan_prefixed-plain : (c : ℕ) (t : List ℕ) → HeadOk t → scan_prefixed (c ∷ t) ≡ scan_plain (c ∷ t)
unfolding scan_prefixed
scan_prefixed-plain c [] h = refl
scan_prefixed-plain c (x ∷ t) h = ground arith

digit-plain :
    (c d : ℕ)
    → digit_value c ≡ some d
    → (is_space c ≡ false) × ((c == b'-') ≡ false) × ((c == b'+') ≡ false)
unfolding digit_value
digit-plain c d h = ground arith

-- A text of digits is read without sign or prefix.
scan_hex-digit :
    (c d : ℕ) (t : List ℕ)
    → digit_value c ≡ some d
    → HeadOk t
    → scan_hex (c ∷ t) ≡ some (to_uint32 (scan_digits t d))
unfolding scan_hex
scan_hex-digit c d t h k =
    let (space, minus, plus) = digit-plain c d h in
    rw (space, minus, plus, scan_prefixed-plain c t k, scan_plain-digit c d t h) refl

HeadOk-append : (cs rest : List ℕ) → AllDigits cs → Ends rest → HeadOk (cs ++ rest)
unfolding digit_value
HeadOk-append [] [] h e = tt
HeadOk-append [] (c ∷ rest) h e = (e.1, e.2)
HeadOk-append (c ∷ cs) rest h e = ground arith

scan_hex-digits :
    (cs rest : List ℕ)
    → cs ≢ []
    → AllDigits cs
    → Ends rest
    → scan_hex (cs ++ rest) ≡ some (to_uint32 (scan_digits (cs ++ rest) 0))
scan_hex-digits [] rest n h e = absurd (n refl)
scan_hex-digits (c ∷ cs) rest n h e = elim (Option-cases (digit_value c)) [
  | inl k ↦ absurd (h.0 k)
  | inr (d, k) ↦
      scan_hex-digit c d (cs ++ rest) k (HeadOk-append cs rest h.1 e)
      ∙ ap (λ n. some (to_uint32 n))
          (ap (scan_digits (cs ++ rest)) (omega arith)
            ∙ sym (scan_digits-cons c d 0 (cs ++ rest) k))
]

digits-ne-nil : (n v : ℕ) (out : List ℕ) → out ≢ [] → digits n v out ≢ []
unfolding digits
digits-ne-nil zero v out h = h
digits-ne-nil (suc n) v out h = digits-ne-nil n (v / 16) (hex_digit (v % 16) ∷ out) (λ e. cc)

-- A number below `16 ^ n`, in `n` digits.
scan_hex-fixed :
    (n v : ℕ) (rest : List ℕ)
    → v < 16 ^ suc n
    → v < 2 ^ 32
    → Ends rest
    → scan_hex (digits (suc n) v [] ++ rest) ≡ some v
unfolding digits
scan_hex-fixed n v rest h k e =
    scan_hex-digits (digits (suc n) v []) rest
      (digits-ne-nil n (v / 16) (hex_digit (v % 16) ∷ []) (λ e. cc))
      (digits-AllDigits (suc n) v [] tt) e
    ∙ ap (λ m. some (to_uint32 m))
        (ap (λ l. scan_digits l 0) (digits-append (suc n) v [] rest)
          ∙ scan_digits-digits (suc n) v rest h
          ∙ scan_digits-Ends rest v e)
    ∙ ap some (ground arith)

needed_from-enough : (n v : ℕ) → v < 16 ^ suc n → v < 16 ^ needed_from n v
needed_from-enough zero v h = h
needed_from-enough (suc n) v h = ground (arith, needed_from-enough n v)

needed_from-positive : (n v : ℕ) → 0 < needed_from n v
needed_from-positive zero v = omega arith
needed_from-positive (suc n) v = ground (arith, needed_from-positive n v)

needed_from-bound : (n v : ℕ) → needed_from n v ≤ n + 1
needed_from-bound zero v = omega arith
needed_from-bound (suc n) v = ground (arith, needed_from-bound n v)

length-digits : (n v : ℕ) (out : List ℕ) → length (digits n v out) ≡ n + length out
unfolding digits
length-digits zero v out = omega arith
length-digits (suc n) v out = length-digits n (v / 16) (hex_digit (v % 16) ∷ out) ∙ omega arith

pub length-print_hex : (w v : ℕ) → w ≤ 8 → length (print_hex w v) ≤ 8
unfolding print_hex
length-print_hex w v h =
    ground
      (arith, h, needed_from-bound 7 v, length-digits w v [], length-digits (needed_from 7 v) v [])

pub print_hex-AllDigits : (w v : ℕ) → AllDigits (print_hex w v)
unfolding print_hex
print_hex-AllDigits w v =
    digits-AllDigits (if ltb (needed_from 7 v) w then w else needed_from 7 v) v [] tt

wider : (v m n : ℕ) → m ≤ n → v < 16 ^ m → v < 16 ^ n
wider v m n l h = omega (arith, h, pow-le-pow_right {n = 16} (omega arith) l)

scan_hex-wide :
    (n v : ℕ) (rest : List ℕ)
    → 0 < n
    → v < 16 ^ n
    → v < 2 ^ 32
    → Ends rest
    → scan_hex (digits n v [] ++ rest) ≡ some v
scan_hex-wide zero v rest p h k e = absurd (omega (arith, p))
scan_hex-wide (suc n) v rest p h k e = scan_hex-fixed n v rest h k e

-- A 32-bit number printed by `%0wX`, at any width `w`, is read back by `%x`, whatever text follows
-- that does not go on with the number.
pub scan_hex-print_hex :
    (w v : ℕ) (rest : List ℕ) → v < 2 ^ 32 → Ends rest → scan_hex (print_hex w v ++ rest) ≡ some v
unfolding print_hex
scan_hex-print_hex w v rest k e =
    let enough : v < 16 ^ needed_from 7 v = needed_from-enough 7 v (omega (arith, k)) in
    let some_digit = needed_from-positive 7 v in
    elim (Bool-cases (ltb (needed_from 7 v) w)) [
      | inl l ↦ rw l (
          scan_hex-wide w v rest (ground (arith, some_digit))
            (wider v (needed_from 7 v) w (ground arith) enough) k e)
      | inr l ↦ rw l (scan_hex-wide (needed_from 7 v) v rest some_digit enough k e)
    ]
