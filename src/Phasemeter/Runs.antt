-- ===== src/Phasemeter/Runs.antt =====
-- Whole runs of the thread of src/phasemeter.c.
use oscillatord.Base.{
  ℕ, suc, ◌+◌, ◌≤◌, ◌<◌, ◌≡◌, refl, sym, ap, ◌∙◌, inl, inr, Bool, false, Option, List, [], ◌∷◌,
  ◌++◌, arith, if◌then◌else◌, Bool-cases, length,
}
use oscillatord.Base.Int.{ℤ, pos, ◌-ℤ◌, abs}
use oscillatord.Structs.{both_timestamps}
use oscillatord.Base.Words.{to_int32, to_int32-eq_self}
use oscillatord.Phasemeter.{
  internal_pps, gnss_pps, milliseconds_500, ExttsEvent, Stamp, Phasemeter, read_extts, Point, first,
  second, closed, publish, is_far, timestamp_diff, pair, Event, reading, request_stop, System,
  on_reading, step, run, start, get_phase_error,
}
use oscillatord.Phasemeter.Pairing.{
  stamp, Near, extts, nanoseconds, read_extts-extts, pair-internal, pair-gnss,
}
use mathlib.Core.Path.{subst}
use mathlib.Core.List.{append_assoc}

-- What `get_phase_error` hands out: with both timestamps, at most 500 ms either way.
abbrev pub InRange : Phasemeter → Type 0
InRange p = p.status ≡ both_timestamps → abs p.phase_error ≤ milliseconds_500

abs-to_int32 : (d : ℤ) → is_far d ≡ false → abs (to_int32 d) ≤ milliseconds_500
abs-to_int32 d h = rw (to_int32-eq_self d (ground arith) (ground arith)) (ground arith)

pair-InRange : (p : Phasemeter) (ts1 ts2 : Stamp) → InRange p → InRange (pair p ts1 ts2).0
unfolding pair
pair-InRange p ts1 ts2 h = ground (arith, abs-to_int32 (timestamp_diff ts1 ts2))

on_reading-InRange :
    (p : Phasemeter) (q : Point) (e : Option ExttsEvent) → InRange p → InRange (on_reading p q e).0
unfolding on_reading
on_reading-InRange p (first stop old) e h = ground arith
on_reading-InRange p (second ts1 old) e h = ground (arith, pair-InRange p ts1 (read_extts e old) h)
on_reading-InRange p closed e h = h

step-InRange : (s : System) (e : Event) → InRange s.0 → InRange (step s e).0
unfolding step
step-InRange (p, q) (reading e) h = on_reading-InRange p q e h
step-InRange (p, q) request_stop h = h

run-InRange : (s : System) (es : List Event) → InRange s.0 → InRange (run s es).0
unfolding run
run-InRange s [] h = h
run-InRange s (e ∷ es) h = run-InRange (step s e) es (step-InRange s e h)

-- After any events, whatever was in the memory that the thread found, a status of both timestamps
-- comes with a phase error between -500 ms and 500 ms, both included.
pub phase_error_bounded :
    (a b : Bool) (m t : ℤ) (es : List Event)
    → (get_phase_error (run (start a b m t) es).0).0 ≡ both_timestamps
    → abs (get_phase_error (run (start a b m t) es).0).1 ≤ milliseconds_500
unfolding get_phase_error start
phase_error_bounded a b m t es = run-InRange (start a b m t) es (λ e. cc)

-- One second: the two PPS as the kernel timestamps them, and which comes first.
pub record Pulse : Type 0 where
  pub gnss_sec : ℕ
  pub gnss_nsec : ℕ
  pub internal_sec : ℕ
  pub internal_nsec : ℕ
  pub gnss_first : Bool

abbrev pub gnss_time : Pulse → ℤ
gnss_time u = pos (nanoseconds u.gnss_sec u.gnss_nsec)

abbrev pub internal_time : Pulse → ℤ
internal_time u = pos (nanoseconds u.internal_sec u.internal_nsec)

-- The kernel's fields are in their ranges, and the two PPS are at most 500 ms apart.
pub record IsPulse (u : Pulse) : Type 0 where
  pub gnss_small : (u.gnss_sec < 9000000000) × (u.gnss_nsec < 1000000000)
  pub internal_small : (u.internal_sec < 9000000000) × (u.internal_nsec < 1000000000)
  pub near : Near (gnss_time u) (internal_time u) milliseconds_500

abbrev pub gnss_reading : Pulse → Event
gnss_reading u = reading (extts u.gnss_sec u.gnss_nsec 0)

abbrev pub internal_reading : Pulse → Event
internal_reading u = reading (extts u.internal_sec u.internal_nsec 5)

abbrev pub readings : Pulse → List Event
readings u =
    if u.gnss_first
    then gnss_reading u ∷ internal_reading u ∷ []
    else internal_reading u ∷ gnss_reading u ∷ []

abbrev pub error_of : Pulse → ℤ
error_of u = gnss_time u -ℤ internal_time u

abbrev pub first_time : Pulse → ℤ
first_time u = if u.gnss_first then gnss_time u else internal_time u

run-readings :
    (p : Phasemeter) (old : ℤ) (u : Pulse)
    → IsPulse u
    → run (p, first false old) (readings u)
      ≡ (publish p both_timestamps (error_of u), first p.stop (first_time u))
unfolding run on_reading
run-readings p old u h = elim (Bool-cases u.gnss_first) [
  | inl e ↦ rw (e, gnss old, internal (gnss_time u)) (pair-gnss p _ _ h.near)
  | inr e ↦ rw (e, internal old, gnss (internal_time u)) (pair-internal p _ _ h.near)
]
  where
    gnss : (t : ℤ) → read_extts (extts u.gnss_sec u.gnss_nsec 0) t ≡ stamp (gnss_time u) gnss_pps
    gnss t = read_extts-extts u.gnss_sec u.gnss_nsec 0 t h.gnss_small.0 h.gnss_small.1 (omega arith)

    internal :
        (t : ℤ)
        → read_extts (extts u.internal_sec u.internal_nsec 5) t
          ≡ stamp (internal_time u) internal_pps
    internal t =
        read_extts-extts u.internal_sec u.internal_nsec 5 t h.internal_small.0 h.internal_small.1
          (omega arith)

run-append : (s : System) (es fs : List Event) → run s (es ++ fs) ≡ run (run s es) fs
unfolding run
run-append s [] fs = refl
run-append s (e ∷ es) fs = run-append (step s e) es fs

abbrev pub all_readings : List Pulse → List Event
all_readings [] = []
all_readings (u ∷ us) = readings u ++ all_readings us

abbrev pub ArePulses : List Pulse → Type 0
ArePulses [] = Unit {0}
ArePulses (u ∷ us) = IsPulse u × ArePulses us

run-all_readings :
    (v : Pulse) (us : List Pulse) (es : List Event) (p : Phasemeter) (old : ℤ)
    → p.stop ≡ false
    → IsPulse v
    → run (p, first false old) (all_readings (v ∷ us) ++ es)
      ≡ run
          (publish p both_timestamps (error_of v), first false (first_time v))
          (all_readings us ++ es)
run-all_readings v us es p old q h =
    ap (run (p, first false old)) (append_assoc (readings v) (all_readings us) es)
    ∙ run-append (p, first false old) (readings v) (all_readings us ++ es)
    ∙ ap (λ s. run s (all_readings us ++ es))
        (run-readings p old v h
          ∙ ap (λ b. (publish p both_timestamps (error_of v), first b (first_time v))) q)

abbrev Tracked : Phasemeter → List Pulse → Pulse → Phasemeter → Type 0
Tracked p us u p' =
    (get_phase_error p' ≡ (both_timestamps, error_of u))
    × (p'.published ≡ p.published + suc (length us) + 1)

-- While `stop` is unset, over any number of seconds whose two PPS are at most 500 ms apart, in
-- either order, the thread publishes once a second, and what is read is both timestamps and the
-- GNSS time less the internal time of the last second.
pub pulses_tracked :
    (us : List Pulse) (u : Pulse) (p : Phasemeter) (old : ℤ)
    → p.stop ≡ false
    → ArePulses us
    → IsPulse u
    → let p' = (run (p, first false old) (all_readings us ++ readings u)).0 in
      (get_phase_error p' ≡ (both_timestamps, error_of u))
      × (p'.published ≡ p.published + length us + 1)
unfolding get_phase_error publish
pulses_tracked [] u p old q t h = rw (run-readings p old u h) (refl, omega arith)
pulses_tracked (v ∷ us) u p old q t h =
    let rest =
      pulses_tracked us u (publish p both_timestamps (error_of v)) (first_time v) q t.1 h in
    subst (λ s. Tracked p us u s.0) (sym (run-all_readings v us (readings u) p old q t.0))
      (rest.0, omega (arith, rest.1))
