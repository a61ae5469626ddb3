-- ===== src/Gnss/PtpClock.antt =====
-- Setting the PHC to the time of the receiver: `gnss_set_ptp_clock_time` of src/gnss.c.
use oscillatord.Base.{
  ◌≡◌, ◌≢◌, ◌⊎◌, ◌++◌, Bool, true, false, ◌&&◌, ◌||◌, Option, none, some, List, [], ◌∷◌, arith,
  if◌then◌else◌,
}
use oscillatord.Base.Int.{ℤ, eqb_ℤ}

-- One wait for an epoch and, where it is valid, for the next TAI time and the PHC's time.
pub record Look : Type 0 where
  pub valid : Bool
  pub gnss_time : ℤ
  pub phc_time : Option ℤ

-- What one iteration of the loop is told: if `loop` still holds before it, the look for setting or
-- checking, the look of `gnss_check_ptp_clock_time`, and the answer of `clock_settime`.
pub record Round : Type 0 where
  pub is_running : Bool
  pub look : Look
  pub check : Look
  pub settime_ok : Bool

-- The PHC shows the receiver's time.
abbrev pub agrees : Look → Bool
agrees k = elim k.phc_time [ none ↦ false | some t ↦ eqb_ℤ t k.gnss_time ]

-- `gnss_check_ptp_clock_time`, with a `gnss` and a clock that are there.
pub check_ptp_clock_time : Look → Bool
check_ptp_clock_time k = k.valid && agrees k

-- How the function ends: with 0, with -1, or not yet.
pub data Outcome : Type 0 where
  done failed pending : Outcome

-- One iteration with a valid epoch and the clock not set: the outcome, and the new `clock_set`.
pub set_clock : Round → Outcome × Bool
set_clock r = elim r.look.phc_time [
  | none ↦ (failed, false)
  | some t ↦ (pending, eqb_ℤ t r.look.gnss_time || r.settime_ok)
]

-- One iteration. `done` is `clock_valid`, and `clock_set` is the flag of that name.
pub round : Bool → Round → Outcome × Bool
unfolding set_clock check_ptp_clock_time
round clock_set r =
    if r.look.valid
    then (if clock_set
        then (if check_ptp_clock_time r.check then (done, true) else (pending, false))
        else set_clock r)
    else (pending, clock_set)

-- The loop over what its iterations are told, with `fd_clock` tested first.
set_loop : Bool → List Round → Outcome
set_loop clock_set [] = pending
set_loop clock_set (r ∷ rs) =
    if r.is_running
    then (let (o, set') = round clock_set r in
        elim o [ done ↦ done | failed ↦ failed | pending ↦ set_loop set' rs ])
    else done

pub set_ptp_clock_time : Bool → List Round → Outcome
unfolding set_loop
set_ptp_clock_time has_clock rs = if has_clock then set_loop false rs else failed

abbrev pub is_done : Outcome → Bool
is_done done = true
is_done _ = false

-- Some round found the clock right while the daemon was running, or the daemon was told to stop.
abbrev pub CheckedOrStopped : List Round → Type 0
CheckedOrStopped [] = ⊥
CheckedOrStopped (r ∷ rs) =
    (r.is_running ≡ false)
    ⊎ ((r.look.valid ≡ true) × (r.check.valid ≡ true) × (agrees r.check ≡ true))
    ⊎ CheckedOrStopped rs

set_loop-checked : (b : Bool) (rs : List Round) → set_loop b rs ≡ done → CheckedOrStopped rs
unfolding set_loop round
set_loop-checked b [] h = cc
set_loop-checked b (r ∷ rs) h = ground (arith, set_loop-checked (round b r).1 rs)

-- Success means that a valid epoch found the PHC at the receiver's time, unless the daemon was
-- told to stop meanwhile.
pub set_ptp_clock_time-checked :
    (has_clock : Bool) (rs : List Round)
    → set_ptp_clock_time has_clock rs ≡ done
    → (has_clock ≡ true) × CheckedOrStopped rs
unfolding set_ptp_clock_time
set_ptp_clock_time-checked has_clock rs h = ground (arith, set_loop-checked false rs)

-- Looks that show a working clock: the epoch is valid, and the PHC is read.
abbrev pub Good : Round → Type 0
Good r =
    (r.is_running ≡ true)
    × (r.look.valid ≡ true)
    × (r.look.phc_time ≢ none)
    × (r.settime_ok ≡ true)
    × (r.check.valid ≡ true)
    × (agrees r.check ≡ true)

-- Rounds in which the daemon runs and the PHC can be read where the epoch is valid.
abbrev pub AllReadable : List Round → Type 0
AllReadable [] = Unit
AllReadable (r ∷ rs) =
    ((r.is_running ≡ true) × ((r.look.valid ≡ false) ⊎ (r.look.phc_time ≢ none))) × AllReadable rs

set_loop-two_rounds :
    (b : Bool) (qs : List Round) (q r : Round) (rs : List Round)
    → AllReadable qs
    → Good q
    → Good r
    → set_loop b (qs ++ q ∷ r ∷ rs) ≡ done
unfolding set_loop round
set_loop-two_rounds b [] q r rs a g h = ground arith
set_loop-two_rounds b (x ∷ qs) q r rs a g h =
    ground (
      arith,
      set_loop-two_rounds true qs q r rs a.1 g h,
      set_loop-two_rounds false qs q r rs a.1 g h,
    )

-- After any rounds in which the daemon runs and the PHC can be read where the epoch is valid,
-- whether the clock was set or a check failed, two rounds in a row in which all goes well end the loop with
-- success: the epochs are valid, and the clock can be read and set and checks.
pub two_rounds_suffice :
    (qs : List Round) (q r : Round) (rs : List Round)
    → AllReadable qs
    → Good q
    → Good r
    → set_ptp_clock_time true (qs ++ q ∷ r ∷ rs) ≡ done
unfolding set_ptp_clock_time
two_rounds_suffice qs q r rs a g h = set_loop-two_rounds false qs q r rs a g h

-- Invalid epochs are waited through, without touching the clock.
pub invalid_waits :
    (r : Round) (rs : List Round)
    → r.is_running ≡ true
    → r.look.valid ≡ false
    → set_ptp_clock_time true (r ∷ rs) ≡ set_ptp_clock_time true rs
unfolding set_ptp_clock_time set_loop round
invalid_waits r rs h v = ground arith
