-- ===== src/Sa5x/Tests.antt =====
-- The theorems on the SA5x driver at a clock that answers.
use oscillatord.Base.{
  ℕ, ◌-◌, ◌*◌, ◌<◌, ◌≡◌, refl, ◌≢◌, ◌↔◌, ◌⊎◌, true, false, none, some, [], ◌∷◌, ◌++◌, arith, ◌==◌,
  if◌then◌else◌,
}
use oscillatord.Base.Int.{ℤ, pos, negsuc}
use oscillatord.Base.CError.{fail}
use oscillatord.Sa5x.State.{
  clock_uncalibrated, clock_calibrating, clock_holdover, clock_lock, tracking, holdover,
  calibration, Sa5x, set_tau, set_disciplining, start,
}
use oscillatord.Sa5x.Attributes.{
  Query, get_discipline_locked, get_gnss_pps, get_digital_tuning, get_locked, get_tau,
  get_last_correction, get_alarms, get_disciplining, get_phase, get_temperature, Reply, Attributes,
  no_attributes, get_attributes, get_phase_error,
}
use oscillatord.Sa5x.Latch.{Attempt, run_latch}
use oscillatord.Sa5x.Ctrl.{in_holdover, update, Call, called, pushed, run}
use oscillatord.Sa5x.Invariant.{IsSound, run-IsSound}
use oscillatord.Sa5x.Convergence.{lock_earned, Steady, Reads, calls, IsReady, convergence_reached}
use oscillatord.Sa5x.Holdover.{update-holdover, holdover_shown_locked, uncalibrated_forgotten}
use oscillatord.Sa5x.Failures.{
  Fails, Answers, get_phase_error-missing, Answered, is_on, run_latch-Off, third_attempt_lost,
}

abbrev answer : ℤ → Reply
answer n = record { size = pos 6; scanned = pos 1; value = n }

abbrev silence : Reply
silence = record { size = fail; scanned = pos 0; value = pos 0 }

abbrev good : Query → Reply
good get_discipline_locked = answer (pos 1)
good get_gnss_pps = answer (pos 1)
good get_digital_tuning = answer (pos 12)
good get_locked = answer (pos 1)
good get_tau = answer (pos 50)
good get_last_correction = answer (negsuc 3)
good get_alarms = answer (pos 0)
good get_disciplining = answer (pos 1)
good get_phase = answer (pos 7)
good get_temperature = answer (pos 41500)

abbrev good_call : ℕ → Call
good_call now = record {
  now = now;
  ask = good;
  try = λ n. record { is_answered = true; reply = answer (pos 0) };
  outcome = answer (pos 1);
  latch_time = now;
  latch_val = pos 0;
}

-- A clock that has just got its fix.
abbrev fresh : Sa5x
fresh = record {
  disciplining_phase = 0;
  clock_class = clock_calibrating;
  status = tracking;
  holdover_ready = false;
  disciplining_start = 100;
  gnss_last_fix = 100;
  mac_last_latch = 0;
  gnss_fix_status = true;
  latch_fixed = true;
}

run-IsSound_example :
    IsSound (run (pos 0) (pos 0) (start true 0).0 (called (good_call 3) ∷ pushed true true 4 ∷ []))
run-IsSound_example =
    run-IsSound (pos 0) (pos 0) true 0 (called (good_call 3) ∷ pushed true true 4 ∷ [])

abbrev followed : Attributes
followed = record no_attributes { disciplinelocked = true; ppsindetected = true }

lock_seen : (update 800 false fresh followed).0.clock_class ≡ clock_lock
unfolding update
lock_seen = refl

lock_earned_example :
    (followed.disciplinelocked ≡ true) × (fresh.clock_class ≡ clock_calibrating) × (600 < 800 - 100)
unfolding in_holdover
lock_earned_example = lock_earned 800 fresh followed refl (λ e. cc) lock_seen

fresh-Steady : Steady 100 fresh
fresh-Steady = record {
  sound = record {
    phase = omega arith;
    lock = λ e. cc;
    calibrating = λ e. refl;
    ready = ground arith;
    agree = tt;
  };
  fix = refl;
  in_sync = refl;
  start = refl;
}

good-Reads : (now : ℕ) → Reads (pos 0) (pos 0) (good_call now)
unfolding get_attributes
good-Reads now = (refl, record { locked = refl; pps = refl; quiet = refl })

convergence_reached_example :
    Steady 100 (run (pos 0) (pos 0) fresh (calls (pos 0) (pos 0) (good_call 101 ∷ [])))
    × IsReady (pos 0) (pos 0) (
        run (pos 0) (pos 0) fresh (
          calls (pos 0) (pos 0) (good_call 101 ∷ [])
          ++ called (good_call 7301) ∷ called (good_call 7302) ∷ []))
convergence_reached_example =
    convergence_reached (pos 0) (pos 0) 100 fresh (good_call 101 ∷ []) (good_call 7301)
      (good_call 7302) fresh-Steady (good-Reads 101, tt) (good-Reads 7301) (good-Reads 7302)
      (omega arith) (omega arith)

-- No PPS at all.
abbrev deaf : Attributes
deaf = no_attributes

update-holdover_test :
    let (t, cs) = update 120 false fresh deaf in
    (cs ≡ [])
    × (t.status ≡ holdover)
    × (t.disciplining_phase ≡ 0)
    × (t.holdover_ready ≡ false)
    × ((t.clock_class ≡ clock_uncalibrated)
        ↔ ((clock_calibrating ≡ clock_calibrating) ⊎ (24 * 3600 < 120 - 100)))
    × ((t.clock_class ≡ clock_uncalibrated) ⊎ (t.clock_class ≡ clock_holdover))
unfolding in_holdover
update-holdover_test = update-holdover 120 fresh deaf refl (ground arith)

holdover_shown_locked_test :
    let (t, cs) = update 800 false fresh deaf in
    (t.clock_class ≡ clock_lock) × (t.status ≡ calibration) × (cs ≡ set_tau 500 ∷ [])
unfolding in_holdover
holdover_shown_locked_test = holdover_shown_locked 800 fresh deaf refl (omega arith, omega arith)

uncalibrated_forgotten_test :
    let t = (update 120 false fresh deaf).0 in
    (t.clock_class ≡ clock_uncalibrated)
    × ((update 121 false t deaf).0.clock_class ≡ clock_holdover)
unfolding in_holdover
uncalibrated_forgotten_test =
    uncalibrated_forgotten 120 121 fresh deaf deaf refl refl refl (ground arith) (ground arith)
      (omega arith)

abbrev mute : Query → Reply
mute q = silence

get_phase_error-missing_test :
    ((get_phase_error (pos 99) mute no_attributes (pos 0)).0 ≡ pos 0)
    × (Fails silence → get_phase_error (pos 99) mute no_attributes (pos 0) ≡ (pos 0, pos 99))
    × ((n : ℤ)
        → Answers silence n
        → get_phase_error (pos 99) mute no_attributes (pos 0) ≡ (pos 0, n))
get_phase_error-missing_test = get_phase_error-missing (pos 99) mute no_attributes (pos 0)

abbrev attempt : ℕ → ℕ → Attempt
attempt last n = record { is_answered = true; reply = answer (if n == last then pos 0 else pos 1) }

attempt-Answered : (last n : ℕ) → Answered (attempt last n)
attempt-Answered last n = (refl, refl, refl)

run_latch-Off_test : ((run_latch (attempt 2) (answer (pos 1)) 50 true (pos 0)).0 ≡ some 50) ↔ (
    (pos 1 ≢ pos 0)
    × ((true ≡ false) ⊎ (is_on (attempt 2 3) ≡ false) ⊎ (is_on (attempt 2 2) ≡ false)))
run_latch-Off_test =
    run_latch-Off (attempt 2) (answer (pos 1)) 50 true (pos 0) (pos 1) (attempt-Answered 2 3)
      (attempt-Answered 2 2) (attempt-Answered 2 1) (refl, refl, refl)

third_attempt_lost_test :
    run_latch (attempt 1) (answer (pos 1)) 50 true (pos 0)
    ≡ (none, set_disciplining false ∷ set_disciplining false ∷ set_disciplining false ∷ [])
third_attempt_lost_test =
    third_attempt_lost (attempt 1) (answer (pos 1)) 50 (pos 0) (attempt-Answered 1 3)
      (attempt-Answered 1 2) (attempt-Answered 1 1) refl refl refl
