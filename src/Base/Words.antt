-- ===== src/Base/Words.antt =====
-- The 32-bit and 64-bit signed integers of C: a value kept in `n` bits, two's complement.
use oscillatord.Base.{ℕ, ◌-◌, ◌%◌, ◌^◌, ◌≡◌, arith, ltb, if◌then◌else◌}
use oscillatord.Base.Int.{ℤ, pos, negsuc, ◌≤ℤ◌}

-- The pattern of an integer modulo 2 ^ 32 and modulo 2 ^ 64.
abbrev pub residue32 : ℤ → ℕ
residue32 (pos n) = n % 2 ^ 32
residue32 (negsuc n) = 2 ^ 32 - 1 - n % 2 ^ 32

abbrev pub residue64 : ℤ → ℕ
residue64 (pos n) = n % 2 ^ 64
residue64 (negsuc n) = 2 ^ 64 - 1 - n % 2 ^ 64

abbrev pub signed32 : ℕ → ℤ
signed32 w = if ltb w (2 ^ 31) then pos w else negsuc (2 ^ 32 - w - 1)

abbrev pub signed64 : ℕ → ℤ
signed64 w = if ltb w (2 ^ 63) then pos w else negsuc (2 ^ 64 - w - 1)

-- Conversion to `int32_t` and to `int64_t`.
unfoldable pub to_int32 : ℤ → ℤ
to_int32 a = signed32 (residue32 a)

unfoldable pub to_int64 : ℤ → ℤ
to_int64 a = signed64 (residue64 a)

pub to_int32-eq_self : (a : ℤ) → negsuc (2 ^ 31 - 1) ≤ℤ a → a ≤ℤ pos (2 ^ 31 - 1) → to_int32 a ≡ a
unfolding to_int32
to_int32-eq_self a lo hi = ground arith

pub to_int64-eq_self : (a : ℤ) → negsuc (2 ^ 63 - 1) ≤ℤ a → a ≤ℤ pos (2 ^ 63 - 1) → to_int64 a ≡ a
unfolding to_int64
to_int64-eq_self a lo hi = ground arith
