-- ===== src/Config/Ranges.antt =====
-- What the getters of common/config.c accept.
use oscillatord.Base.{
  ℕ, zero, suc, ◌≤◌, ◌<◌, ◌≡◌, ◌≢◌, ◌⊎◌, Bool, true, false, none, some, List, [], ◌∷◌, arith,
}
use oscillatord.Base.Int.{ℤ, pos, negsuc, ◌≤ℤ◌, ◌<ℤ◌}
use oscillatord.Base.CError.{success}
use oscillatord.Config.{get_unsigned_number, get_uint8_t, get_int16_t}

-- A missing key is an error, whatever `errno` was.
missing-uint8 : (strtoul : List ℕ → ℕ × Bool) (errno : ℕ) → get_uint8_t strtoul errno none <ℤ pos 0
unfolding get_uint8_t get_unsigned_number
missing-uint8 strtoul zero = ground arith
missing-uint8 strtoul (suc n) = ground arith

-- `config_get_uint8_t` gives a negative error for a missing key. For a text it gives the number that
-- `strtoul` reads where there is some text, all of it was read, and the number is at most 255, and
-- a negative error exactly in the other cases: so an int of 32 bits holds every result.
pub get_uint8_t-Range :
    (strtoul : List ℕ → ℕ × Bool) (errno : ℕ) (t : List ℕ)
    → let out = get_uint8_t strtoul errno (some t) in
      let (n, used) = strtoul t in
      (get_uint8_t strtoul errno none <ℤ pos 0)
      × (((out ≡ pos n) × (t ≢ []) × (used ≡ true) × (n ≤ 255))
          ⊎ ((out <ℤ pos 0) × ((t ≡ []) ⊎ (used ≡ false) ⊎ (255 < n))))
unfolding get_uint8_t get_unsigned_number
get_uint8_t-Range strtoul errno [] = (missing-uint8 strtoul errno, ground arith)
get_uint8_t-Range strtoul errno (c ∷ cs) = (missing-uint8 strtoul errno, ground arith)

-- `config_get_int16_t` stores the number that `strtol` reads, and succeeds, where there is some
-- text, all of it was read, and the number is from -32768 to 32767; in the other cases it gives a
-- negative error and leaves `*val` alone.
pub get_int16_t-Range :
    (strtol : List ℕ → ℤ × Bool) (errno : ℕ) (t : List ℕ) (val : ℤ)
    → let (ret, out) = get_int16_t strtol errno (some t) val in
      let (n, used) = strtol t in
      ((ret ≡ success)
        × (out ≡ n)
        × (t ≢ [])
        × (used ≡ true)
        × (negsuc 32767 ≤ℤ n)
        × (n ≤ℤ pos 32767))
      ⊎ ((ret <ℤ pos 0)
          × (out ≡ val)
          × ((t ≡ []) ⊎ (used ≡ false) ⊎ (n <ℤ negsuc 32767) ⊎ (pos 32767 <ℤ n)))
unfolding get_int16_t
get_int16_t-Range strtol errno [] val = ground arith
get_int16_t-Range strtol errno (c ∷ cs) val = ground arith
