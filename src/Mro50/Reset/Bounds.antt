-- ===== src/Mro50/Reset/Bounds.antt =====
-- The buffer of the reset in src/oscillators/mRo50_oscillator.c, and its end.
use oscillatord.Base.{
  ℕ, zero, suc, ◌+◌, ◌-◌, ◌≤◌, ◌<◌, ◌≡◌, ◌∙◌, inl, inr, Bool, false, List, [], ◌∷◌, ◌++◌, arith,
  leb, Bool-cases, length, set, take, drop, length-append, length-set, length-take, length-drop,
}
use oscillatord.Mro50.Serial.{
  mro_answer_len, Poll, timed_out, poll_error, read_error, arrived, gives, overwrite,
}
use oscillatord.Mro50.Reset.{
  Round, reset_timeout, Next, goes_on, ends, end_line, examine, hear, round, rounds, rounds-goes_on,
  rounds-ends, round-late, Next-cases,
}

-- The buffer has all its 129 bytes, and there is room for one more byte of text.
abbrev pub HasRoom : ℕ → List ℕ → Type 0
HasRoom n s = (n < mro_answer_len) × (length s ≡ mro_answer_len + 1)

-- What a round leads to still has room, or ends with all its bytes.
abbrev pub KeepsRoom : Next → Type 0
KeepsRoom (goes_on n s) = HasRoom n s
KeepsRoom (ends ok s) = length s ≡ mro_answer_len + 1

take-bound : (n : ℕ) (xs : List ℕ) → length (take n xs) ≤ n
take-bound zero xs = omega arith
take-bound (suc n) [] = omega arith
take-bound (suc n) (x ∷ xs) = omega (arith, take-bound n xs)

length-overwrite :
    (s : List ℕ) (n : ℕ) (bs : List ℕ)
    → n + length bs ≤ length s
    → length (overwrite s n bs) ≡ length s
unfolding overwrite
length-overwrite s n bs h = omega (
  arith,
  h,
  length-append (take n s ++ bs) (drop (n + length bs) s),
  length-append (take n s) bs,
  length-take n s (omega (arith, h)),
  length-drop (n + length bs) s,
)

end_line-KeepsRoom :
    (w : Bool) (n : ℕ) (s : List ℕ) → length s ≡ mro_answer_len + 1 → KeepsRoom (end_line w n s)
unfolding end_line
end_line-KeepsRoom w n s h = ground (arith, h, length-set s (n - 1) 0)

examine-KeepsRoom :
    (w : Bool) (n : ℕ) (s : List ℕ)
    → n ≤ mro_answer_len
    → length s ≡ mro_answer_len + 1
    → KeepsRoom (examine w n s)
unfolding examine
examine-KeepsRoom w n s h l =
    let t = set s n 0 in
    let lt : length t ≡ mro_answer_len + 1 = length-set s n 0 ∙ l in
    let lu : length (set t (n - 1) 0) ≡ mro_answer_len + 1 = length-set t (n - 1) 0 ∙ lt in
    ground (arith, h, l, lt, lu, end_line-KeepsRoom w n t lt)

hear-KeepsRoom : (w : Bool) (e : Poll) (n : ℕ) (s : List ℕ) → HasRoom n s → KeepsRoom (hear w e n s)
unfolding hear
hear-KeepsRoom w (arrived bs) n s h =
    let fits = take-bound (mro_answer_len - n) bs in
    let got = take (mro_answer_len - n) bs in
    examine-KeepsRoom w (n + length got) (overwrite s n got) (omega (arith, h.0, fits))
      (length-overwrite s n got (omega (arith, h.0, h.1, fits)) ∙ h.1)
hear-KeepsRoom w timed_out n s h = h
hear-KeepsRoom w poll_error n s h = h
hear-KeepsRoom w read_error n s h = h

-- A round of the reset that starts with room in the buffer never reads or writes beyond its 129 bytes:
-- it ends with all of them, or goes on with room for at least one byte of the next `read`.
pub round-KeepsRoom :
    (start : ℕ) (r : Round) (n : ℕ) (s : List ℕ) → HasRoom n s → KeepsRoom (round start r n s)
unfolding round
round-KeepsRoom start r n s h = elim (Bool-cases (leb (start + reset_timeout) r.now)) [
  | inl l ↦ rw l h.1
  | inr l ↦ rw l (hear-KeepsRoom r.is_rewritten r.event n s h)
]

-- Whatever the device sends, and whatever the buffer holds, a reset that sees a time of 300 seconds or
-- more after its start has ended by then, with success or not.
pub rounds_end :
    (start : ℕ) (before : List Round) (r : Round) (after : List Round) (n : ℕ) (s : List ℕ)
    → start + reset_timeout ≤ r.now
    → (ok : Bool) × (t : List ℕ) × (rounds start (before ++ r ∷ after) n s ≡ gives ok t)
rounds_end start [] r after n s h =
    (false, s, rounds-ends start r after n s s false (round-late start r n s h))
rounds_end start (b ∷ bs) r after n s h = elim (Next-cases (round start b n s)) [
  | inl (m, t, e) ↦
      (let (ok, u, k) = rounds_end start bs r after m t h in
        (ok, u, rounds-goes_on start b (bs ++ r ∷ after) n m s t e ∙ k))
  | inr (ok, t, e) ↦ (ok, t, rounds-ends start b (bs ++ r ∷ after) n s t ok e)
]
