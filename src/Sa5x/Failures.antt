-- ===== src/Sa5x/Failures.antt =====
-- What src/oscillators/sa5x_oscillator.c makes of queries that fail, and of its latch procedure.
use oscillatord.Base.{ℕ, ◌≡◌, ◌≢◌, ◌↔◌, ◌⊎◌, Bool, true, false, none, some, [], ◌∷◌, arith}
use oscillatord.Base.Int.{ℤ, pos}
use oscillatord.Base.Words.{residue32}
use oscillatord.Base.CError.{fail}
use oscillatord.Sa5x.State.{set_disciplining}
use oscillatord.Sa5x.Attributes.{
  Query, get_gnss_pps, get_alarms, get_phase, Reply, Attributes, low_bit, positive, goes, returns,
  ◌>>=◌, get_pps, get_status, get_phase_error,
}
use oscillatord.Sa5x.Latch.{Attempt, run_latch}

-- A command that is not answered.
abbrev pub Fails : Reply → Type 0
Fails r = r.size ≡ fail

-- An answer from which the number was read.
abbrev pub Answers : Reply → ℤ → Type 0
Answers r n = (positive r.size ≡ true) × (r.scanned ≡ pos 1) × (r.value ≡ n)

-- The phase error is never reported to be missing: where the clock does not answer, what was in
-- memory is handed out as a phase error.
pub get_phase_error-missing :
    (garbage : ℤ) (ask : Query → Reply) (a : Attributes) (val : ℤ)
    → ((get_phase_error garbage ask a val).0 ≡ pos 0)
      × (Fails (ask get_phase) → get_phase_error garbage ask a val ≡ (pos 0, garbage))
      × ((n : ℤ) → Answers (ask get_phase) n → get_phase_error garbage ask a val ≡ (pos 0, n))
unfolding get_phase_error
get_phase_error-missing garbage ask a val =
    (ground arith, (λ h. ground arith), (λ n h. ground arith))

-- Where the query for the alarms is not answered, the number read for the PPS is taken for them.
pub stale_alarms :
    (garbage : ℤ) (ask : Query → Reply) (a : Attributes) (val n : ℤ)
    → Answers (ask get_gnss_pps) n
    → Fails (ask get_alarms)
    → elim (get_pps garbage ask a val >>= get_status garbage ask) as (λ s. Type 0) [
      | goes b v ↦ b.alarms ≡ residue32 n
      | returns e b ↦ ⊥
    ]
unfolding get_pps get_status
stale_alarms garbage ask a val n h f = ground arith

-- An attempt whose command and query are answered, and what the query says.
abbrev pub Answered : Attempt → Type 0
Answered t = (t.is_answered ≡ true) × (t.reply.scanned ≡ pos 1) × (positive t.reply.size ≡ true)

abbrev pub is_on : Attempt → Bool
is_on t = low_bit t.reply.value

-- Where every attempt is answered, and the command {latch} with a number, the latch is made exactly
-- if that number is not 0, and disciplining is off at once or after one or two attempts.
pub run_latch-Off :
    (try : ℕ → Attempt) (outcome : Reply) (now : ℕ) (disciplining : Bool) (val n : ℤ)
    → Answered (try 3)
    → Answered (try 2)
    → Answered (try 1)
    → Answers outcome n
    → ((run_latch try outcome now disciplining val).0 ≡ some now)
      ↔ ((n ≢ pos 0) × ((disciplining ≡ false) ⊎ (is_on (try 3) ≡ false) ⊎ (is_on (try 2) ≡ false)))
unfolding run_latch
run_latch-Off try outcome now disciplining val n a b c h = ground arith

-- A third attempt that switches disciplining off is reported as a failure: the clock is left
-- without a latch, and with disciplining off.
pub third_attempt_lost :
    (try : ℕ → Attempt) (outcome : Reply) (now : ℕ) (val : ℤ)
    → Answered (try 3)
    → Answered (try 2)
    → Answered (try 1)
    → is_on (try 3) ≡ true
    → is_on (try 2) ≡ true
    → is_on (try 1) ≡ false
    → run_latch try outcome now true val
      ≡ (none, set_disciplining false ∷ set_disciplining false ∷ set_disciplining false ∷ [])
unfolding run_latch
third_attempt_lost try outcome now val a b c h k l = ground arith
