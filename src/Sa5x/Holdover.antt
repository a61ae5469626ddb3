-- ===== src/Sa5x/Holdover.antt =====
-- What src/oscillators/sa5x_oscillator.c shows of a clock without GNSS.
use oscillatord.Base.{ℕ, ◌+◌, ◌-◌, ◌*◌, ◌≤◌, ◌<◌, ◌≡◌, ap, ◌↔◌, ◌⊎◌, true, false, [], ◌∷◌, arith}
use oscillatord.Sa5x.State.{
  clock_uncalibrated, clock_calibrating, clock_holdover, clock_lock, holdover, calibration, Sa5x,
  disciplining_phases, tau_value, tau_interval, set_tau,
}
use oscillatord.Sa5x.Attributes.{Attributes}
use oscillatord.Sa5x.Ctrl.{in_holdover, enter_holdover, update}

-- The time for the next phase has come.
abbrev pub Due : ℕ → Sa5x → Type 0
Due now s =
    (s.disciplining_phase < disciplining_phases - 1)
    × (tau_interval s.disciplining_phase < now - s.disciplining_start)

holdover-update :
    (now : ℕ) (s : Sa5x) (a : Attributes)
    → in_holdover now s a ≡ true
    → ¬ Due now s
    → update now false s a ≡ (enter_holdover now s, [])
unfolding update
holdover-update now s a h d = ground arith

-- Without GNSS, when no latch is wanted and no phase is due, the clock is left alone, and shown in
-- holdover: uncalibrated where it was being calibrated, or the last fix is more than a day old.
pub update-holdover :
    (now : ℕ) (s : Sa5x) (a : Attributes)
    → in_holdover now s a ≡ true
    → ¬ Due now s
    → let (t, cs) = update now false s a in
      (cs ≡ [])
      × (t.status ≡ holdover)
      × (t.disciplining_phase ≡ s.disciplining_phase)
      × (t.holdover_ready ≡ s.holdover_ready)
      × ((t.clock_class ≡ clock_uncalibrated)
          ↔ ((s.clock_class ≡ clock_calibrating) ⊎ (24 * 3600 < now - s.gnss_last_fix)))
      × ((t.clock_class ≡ clock_uncalibrated) ⊎ (t.clock_class ≡ clock_holdover))
unfolding update
update-holdover now s a h d = ground arith

-- Without GNSS, but with a phase due, the clock is shown locked and calibrated, and TAU is raised.
pub holdover_shown_locked :
    (now : ℕ) (s : Sa5x) (a : Attributes)
    → in_holdover now s a ≡ true
    → Due now s
    → let (t, cs) = update now false s a in
      (t.clock_class ≡ clock_lock)
      × (t.status ≡ calibration)
      × (cs ≡ set_tau (tau_value (s.disciplining_phase + 1)) ∷ [])
unfolding update
holdover_shown_locked now s a h d = ground arith

entered-holdover :
    (now later : ℕ) (s : Sa5x) (b : Attributes)
    → in_holdover later s b ≡ true
    → ¬ Due later s
    → update later false (enter_holdover now s) b
      ≡ (enter_holdover later (enter_holdover now s), [])
unfolding enter_holdover in_holdover
entered-holdover now later s b k e = holdover-update later (enter_holdover now s) b k e

-- A clock that loses GNSS while it is being calibrated is shown uncalibrated by one call, and in
-- holdover by the next, if no phase is due and the last fix is less than a day old.
pub uncalibrated_forgotten :
    (now later : ℕ) (s : Sa5x) (a b : Attributes)
    → s.clock_class ≡ clock_calibrating
    → in_holdover now s a ≡ true
    → in_holdover later s b ≡ true
    → ¬ Due now s
    → ¬ Due later s
    → later - s.gnss_last_fix ≤ 24 * 3600
    → let t = (update now false s a).0 in
      (t.clock_class ≡ clock_uncalibrated)
      × ((update later false t b).0.clock_class ≡ clock_holdover)
unfolding enter_holdover
uncalibrated_forgotten now later s a b c h k d e l =
    rw (holdover-update now s a h d)
      (ground (arith, ap (λ o. o.0.clock_class) (entered-holdover now later s b k e)))
