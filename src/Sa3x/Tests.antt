-- ===== src/Sa3x/Tests.antt =====
-- The SA3x driver of src/oscillators/sa3x_oscillator.c at an input.
use oscillatord.Base.{◌≡◌, refl, true, false, [], ◌∷◌, arith}
use oscillatord.Base.Int.{pos, abs}
use oscillatord.Structs.{OscillatorAttributes}
use oscillatord.Sa3x.{new_sa3x, Telemetry, timed_out, line, parse_attributes}
use oscillatord.Sa3x.Locked.{read_all, never_locked}

-- The telemetry of a clock that says '0', with 25 degrees.
abbrev healthy : Telemetry
healthy = line (record { scanned = pos 12; first = b'0'; degrees = pos 25000 })

abbrev unread : OscillatorAttributes
unread = record { phase_error = pos 0; temperature = 0; locked = true }

first_seconds_test : parse_attributes 6 abs 0 5 5 healthy new_sa3x unread ≡ (unread, new_sa3x)
unfolding parse_attributes
first_seconds_test = refl

telemetry_test : parse_attributes 6 abs 0 10 11 healthy new_sa3x unread ≡ (
  record unread { temperature = 25000; locked = false },
  record { bite = b'0'; temperature = pos 25000; attr_time = 11 },
)
unfolding parse_attributes
telemetry_test = refl

never_locked_example :
    (read_all 6 abs 0
      (record { now = 10; later = 11; telemetry = healthy }
        ∷ record { now = 20; later = 20; telemetry = timed_out }
        ∷ record { now = 30; later = 30; telemetry = healthy }
        ∷ [])
      new_sa3x
      unread).0.locked
    ≡ false
never_locked_example =
    never_locked 6 abs 0 (record { now = 10; later = 11; telemetry = healthy })
      (record { now = 20; later = 20; telemetry = timed_out }
        ∷ record { now = 30; later = 30; telemetry = healthy }
        ∷ [])
      (record { scanned = pos 12; first = b'0'; degrees = pos 25000 }) new_sa3x unread refl
      ((λ e. omega (arith, e)), (tt, ((λ e. omega (arith, e)), tt))) refl (omega arith)
