-- ===== src/Mro50/Serial.antt =====
-- The exchange of a command and its answer in src/oscillators/mRo50_oscillator.c.
use oscillatord.Base.{
  ℕ, ◌+◌, ◌-◌, Bool, true, false, not, ◌&&◌, ◌||◌, Option, none, some, List, [], ◌∷◌, ◌++◌, ltb,
  ◌==◌, if◌then◌else◌, length, get_elem?, take, drop,
}
use oscillatord.Base.Text.{zeros}

-- `mro_answer_len`; `answer_str` has a byte more.
abbrev pub mro_answer_len : ℕ
mro_answer_len = 128

-- What a round of the loop is told: `poll` times out or fails, or `read` fails or has these bytes to
-- give, of which it gives as many as it is asked for.
pub data Poll : Type 0 where
  timed_out poll_error read_error : Poll
  arrived : List ℕ → Poll

-- One call of `mRo50_oscillator_cmd`: whether the command is written, and the rounds.
pub record Exchange : Type 0 where
  pub is_written : Bool
  pub polls : List Poll

-- A function that uses `answer_str`: it waits when the rounds are used up, or gives a value and
-- leaves the buffer so.
pub data Result (A : Type 0) : Type 0 where
  waits : Result A
  gives : A → List ℕ → Result A

abbrev pub Serial : Type 0 → Type 0
Serial A = List ℕ → Result A

infixl 5 ◌>>=◌ ◌>>◌
abbrev pub ◌>>=◌ : {A B : Type 0} → Serial A → (A → Serial B) → Serial B
◌>>=◌ m f s = elim (m s) [ waits ↦ waits | gives a t ↦ f a t ]

abbrev pub ◌>>◌ : {A B : Type 0} → Serial A → Serial B → Serial B
m >> k = m >>= λ a. k

abbrev pub return : {A : Type 0} → A → Serial A
return a s = gives a s

-- Bytes written over a buffer, from a place on.
unfoldable pub overwrite : List ℕ → ℕ → List ℕ → List ℕ
overwrite buffer i bs = take i buffer ++ bs ++ drop (i + length bs) buffer

-- `memset(answer_str, 0, n)`
unfoldable pub cleared : ℕ → List ℕ → List ℕ
unfolding zeros
cleared n buffer = zeros n ++ drop n buffer

abbrev pub clear : ℕ → Serial (Unit {0})
clear n s = gives tt (cleared n s)

-- The loop, with the bytes read so far: their number once it is over, none on an error.
unfoldable pub receive : List Poll → ℕ → Serial (Option ℕ)
unfolding overwrite cleared
receive [] rbytes s = waits
receive (timed_out ∷ ps) rbytes s = gives (some rbytes) s
receive (poll_error ∷ ps) rbytes s = gives none (cleared rbytes s)
receive (read_error ∷ ps) rbytes s = gives none (cleared rbytes s)
receive (arrived bs ∷ ps) rbytes s =
    let got = take (mro_answer_len - rbytes) bs in
    receive ps (rbytes + length got) (overwrite s rbytes got)

-- A byte of the buffer.
abbrev pub byte : List ℕ → ℕ → ℕ
byte s i = elim (get_elem? s i) [ none ↦ 0 | some b ↦ b ]

-- The tests of an answer of `rbytes` bytes.
unfoldable pub accept : ℕ → Serial (Option ℕ)
unfolding cleared
accept rbytes s =
    if rbytes == 0
    then gives none s
    else if byte s 0 == b'?'
    then gives none (cleared rbytes s)
    else if ltb rbytes 2 || not (byte s (rbytes - 1) == 10) || not (byte s (rbytes - 2) == 10)
    then gives none (cleared rbytes s)
    else gives (some rbytes) s

-- `mRo50_oscillator_cmd`: the number of bytes of the answer, none for -1.
unfoldable pub cmd : Exchange → Serial (Option ℕ)
unfolding receive accept
cmd e s =
    if e.is_written
    then elim (receive e.polls 0 s) [
      | waits ↦ waits
      | gives none t ↦ gives none t
      | gives (some n) t ↦ accept n t
    ]
    else gives none s

-- What `mRo50_clean_serial` is told: whether the device can be opened again and set up, and the
-- exchange of its command.
pub record Reopening : Type 0 where
  pub opens : Bool
  pub is_set_up : Bool
  pub exchange : Exchange

-- `mRo50_clean_serial`, whose result is whether it succeeds.
unfoldable pub clean_serial : Reopening → Serial Bool
unfolding cmd cleared
clean_serial r s =
    if r.opens && r.is_set_up
    then (do cmd r.exchange; clear mro_answer_len; return true) s
    else gives false s
