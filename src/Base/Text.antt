-- ===== src/Base/Text.antt =====
-- Texts in buffers: bytes up to the first NUL.
use oscillatord.Base.{
  ℕ, zero, suc, ◌≡◌, refl, ◌≢◌, List, [], ◌∷◌, ◌++◌, arith, ◌==◌, if◌then◌else◌, replicate,
}

unfoldable pub zeros : ℕ → List ℕ
zeros n = replicate n 0

-- The text in a buffer: the bytes before the first NUL. A buffer without one would be read past its
-- end.
unfoldable pub c_string : List ℕ → List ℕ
c_string [] = []
c_string (b ∷ bs) = if b == 0 then [] else b ∷ c_string bs

-- Text: no byte of it is NUL.
abbrev pub IsText : List ℕ → Type 0
IsText [] = Unit
IsText (b ∷ bs) = (b ≢ 0) × IsText bs

pub c_string-text : (xs : List ℕ) (n : ℕ) → IsText xs → c_string (xs ++ zeros n) ≡ xs
unfolding c_string zeros
c_string-text [] zero h = refl
c_string-text [] (suc n) h = refl
c_string-text (b ∷ bs) n h = ground (arith, c_string-text bs n h.1)

pub c_string-append : (xs ys : List ℕ) → IsText xs → c_string (xs ++ ys) ≡ xs ++ c_string ys
unfolding c_string
c_string-append [] ys h = refl
c_string-append (b ∷ bs) ys h = ground (arith, h.0, c_string-append bs ys h.1)
