-- ===== src/Mro50/Reset.antt =====
-- The reset in src/oscillators/mRo50_oscillator.c: the command, then the text of the device until it
-- says that it has started.
pub mod Bounds
pub mod Started
use oscillatord.Base.{
  ℕ, ◌+◌, ◌-◌, ◌≤◌, ◌<◌, ◌≡◌, refl, ap, ◌⊎◌, inl, inr, Bool, true, false, not, ◌&&◌, ◌||◌, List, [],
  ◌∷◌, arith, ltb, leb, ◌==◌, if◌then◌else◌, length, set, take,
}
use oscillatord.Base.Text.{c_string}
use oscillatord.Mro50.Serial.{mro_answer_len, Poll, arrived, waits, gives, Serial, overwrite, byte}

-- What a round of the loop is told: the time in seconds, `poll` and `read`, and whether the command can
-- be written again.
pub record Round : Type 0 where
  pub now : ℕ
  pub event : Poll
  pub is_rewritten : Bool

-- `RESET_TIMEOUT`
abbrev pub reset_timeout : ℕ
reset_timeout = 300

-- "Start done>"
abbrev pub started : List ℕ
started = b'S' ∷ b't' ∷ b'a' ∷ b'r' ∷ b't' ∷ b' ' ∷ b'd' ∷ b'o' ∷ b'n' ∷ b'e' ∷ b'>' ∷ []

unfoldable pub starts_with : List ℕ → List ℕ → Bool
starts_with [] text = true
starts_with (x ∷ xs) [] = false
starts_with (x ∷ xs) (c ∷ cs) = (c == x) && starts_with xs cs

-- `strstr(text, part) != NULL`
unfoldable pub contains : List ℕ → List ℕ → Bool
unfolding starts_with
contains part [] = starts_with part []
contains part (c ∷ cs) = starts_with part (c ∷ cs) || contains part cs

-- What a round leads to: another one, with the bytes read so far, or the end of the reset.
pub data Next : Type 0 where
  goes_on : ℕ → List ℕ → Next
  ends : Bool → List ℕ → Next

-- The end of a line, whose answer is refused where it starts with a question mark.
unfoldable pub end_line : Bool → ℕ → List ℕ → Next
end_line is_rewritten rbytes s =
    if ltb 1 rbytes
    then (let u = set s (rbytes - 1) 0 in
        if (byte u 0 == b'?') && not is_rewritten then ends false u else goes_on 0 u)
    else goes_on 0 s

-- The tests of the bytes read so far.
unfoldable pub examine : Bool → ℕ → List ℕ → Next
unfolding end_line contains c_string
examine is_rewritten rbytes s =
    if ltb rbytes 1
    then goes_on rbytes s
    else (let t = set s rbytes 0 in
        if contains started (c_string t)
        then ends true (set t (rbytes - 1) 0)
        else if byte t (rbytes - 1) == 10
        then end_line is_rewritten rbytes t
        else goes_on (if rbytes == mro_answer_len then 0 else rbytes) t)

unfoldable pub hear : Bool → Poll → ℕ → List ℕ → Next
unfolding examine overwrite
hear is_rewritten (arrived bs) rbytes s =
    let got = take (mro_answer_len - rbytes) bs in
    examine is_rewritten (rbytes + length got) (overwrite s rbytes got)
hear is_rewritten _ rbytes s = goes_on rbytes s

unfoldable pub round : ℕ → Round → ℕ → List ℕ → Next
unfolding hear
round start_reset r rbytes s =
    if leb (start_reset + reset_timeout) r.now
    then ends false s
    else hear r.is_rewritten r.event rbytes s

unfoldable pub rounds : ℕ → List Round → ℕ → Serial Bool
unfolding round
rounds start_reset [] rbytes s = waits
rounds start_reset (r ∷ rs) rbytes s = elim (round start_reset r rbytes s) [
  | goes_on n t ↦ rounds start_reset rs n t
  | ends ok t ↦ gives ok t
]

-- `mRo50_reset`, whose result is whether the device has started.
unfoldable pub reset : Bool → ℕ → List Round → Serial Bool
unfolding rounds
reset is_written start_reset rs s = if is_written then rounds start_reset rs 0 s else gives false s

pub rounds-goes_on :
    (start : ℕ) (r : Round) (rs : List Round) (n m : ℕ) (s t : List ℕ)
    → round start r n s ≡ goes_on m t
    → rounds start (r ∷ rs) n s ≡ rounds start rs m t
unfolding rounds
rounds-goes_on start r rs n m s t h =
    ap (λ o. elim o [ goes_on n t ↦ rounds start rs n t | ends ok t ↦ gives ok t ]) h

pub rounds-ends :
    (start : ℕ) (r : Round) (rs : List Round) (n : ℕ) (s t : List ℕ) (ok : Bool)
    → round start r n s ≡ ends ok t
    → rounds start (r ∷ rs) n s ≡ gives ok t
unfolding rounds
rounds-ends start r rs n s t ok h =
    ap (λ o. elim o [ goes_on n t ↦ rounds start rs n t | ends ok t ↦ gives ok t ]) h

pub round-late :
    (start : ℕ) (r : Round) (n : ℕ) (s : List ℕ)
    → start + reset_timeout ≤ r.now
    → round start r n s ≡ ends false s
unfolding round
round-late start r n s h = ground (arith, h)

pub round-in_time :
    (start : ℕ) (r : Round) (n : ℕ) (s : List ℕ)
    → r.now < start + reset_timeout
    → round start r n s ≡ hear r.is_rewritten r.event n s
unfolding round
round-in_time start r n s h = ground (arith, h)

pub Next-cases :
    (o : Next)
    → ((n : ℕ) × (t : List ℕ) × (o ≡ goes_on n t)) ⊎ ((ok : Bool) × (t : List ℕ) × (o ≡ ends ok t))
Next-cases (goes_on n t) = inl (n, t, refl)
Next-cases (ends ok t) = inr (ok, t, refl)
