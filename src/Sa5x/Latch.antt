-- ===== src/Sa5x/Latch.antt =====
-- `sa5x_oscillator_latch` of src/oscillators/sa5x_oscillator.c.
use oscillatord.Base.{
  ℕ, zero, suc, Bool, false, not, ◌||◌, Option, none, some, List, [], ◌∷◌, ◌++◌, ◌==◌,
  if◌then◌else◌,
}
use oscillatord.Base.Int.{ℤ, pos, eqb_ℤ}
use oscillatord.Base.CError.{fail}
use oscillatord.Sa5x.State.{Command, set_disciplining, latch}
use oscillatord.Sa5x.Attributes.{Reply, low_bit, positive, read_intval}

-- One attempt to switch disciplining off: whether the command is answered, and the query after it.
pub record Attempt : Type 0 where
  pub is_answered : Bool
  pub reply : Reply

-- How the loop ends: an early return, or what is left of `retry`, `a->disciplining` and `val`; and
-- the commands that were sent.
pub data Loop : Type 0 where
  gave_up : List Command → Loop
  left : ℕ → Bool → ℤ → List Command → Loop

abbrev pub sent_before : Command → Loop → Loop
sent_before c (gave_up cs) = gave_up (c ∷ cs)
sent_before c (left n d val cs) = left n d val (c ∷ cs)

-- `while (retry && a->disciplining)`, whose attempts are told by what is left of `retry`.
unfoldable pub switch_off : (ℕ → Attempt) → ℕ → Bool → ℤ → Loop
unfolding read_intval
switch_off try zero disciplining val = left zero disciplining val []
switch_off try (suc n) disciplining val =
    let (e, v) = read_intval (try (suc n)).reply val in
    let rest = switch_off try n (low_bit v) v in
    if not disciplining
    then left (suc n) disciplining val []
    else if not (try (suc n)).is_answered || eqb_ℤ e fail
    then gave_up (set_disciplining false ∷ [])
    else sent_before (set_disciplining false) rest

-- The time of the latch where there is one (else the procedure failed), and the commands. `outcome`
-- is what comes of the command {latch}, and `now` the clock after it.
unfoldable pub run_latch : (ℕ → Attempt) → Reply → ℕ → Bool → ℤ → Option ℕ × List Command
unfolding switch_off read_intval
run_latch try outcome now disciplining val = elim (switch_off try 3 disciplining val) [
  | gave_up cs ↦ (none, cs)
  | left n off v cs ↦
      if n == 0
      then (none, cs)
      else (let (e, w) = read_intval outcome v in
          (
            if eqb_ℤ outcome.size fail || (not (positive e) || eqb_ℤ w (pos 0))
                then none
                else some now,
            cs ++ latch ∷ [],
          ))
]
