-- ===== src/Daemon/Outcome.antt =====
-- How the main loop of src/oscillatord.c ends, what a request does, and when parameters are saved.
use oscillatord.Base.{
  ◌+◌, ◌-◌, ◌^◌, ◌≤◌, ◌<◌, ◌≡◌, ◌≢◌, ◌↔◌, ◌⊎◌, inl, inr, true, false, Option, none, some, List, [],
  ◌∷◌, arith, ◌==◌, if◌then◌else◌,
}
use oscillatord.Base.Int.{pos, neg, ltb_ℤ, eqb_ℤ}
use oscillatord.Base.CError.{e_nosys}
use oscillatord.Structs.{
  adjust_coarse, phase_jump, calibrate, Request, gnss_start, gnss_stop, gnss_soft, gnss_hard,
  gnss_cold, mro_coarse_inc, mro_coarse_dec, reset_ublox_serial,
}
use oscillatord.Clock.{phase_offset}
use oscillatord.Gnss.Command.{
  GnssAction, no_action, reset_serial, set_action, rx_gnss_start, rx_gnss_stop, rx_soft, rx_hard,
  rx_cold, Command, rx_reset, reopen_serial, take_action,
}
use oscillatord.Daemon.{
  Loop, Modes, Answers, Call, apply_output, spawn_save, Flow, falls, continues, breaks, exits,
  ◌>>=◌,
}
use oscillatord.Daemon.Discipline.{
  run_process, update_sec, save_periodically, prepare, finish, discipline,
}
use oscillatord.Daemon.Requests.{handle_request, exchange}
use oscillatord.Daemon.Iterate.{monitor_only, iterate}
use oscillatord.Daemon.Process.{state_of}
use mathlib.Core.Path.{subst}

-- The failures of an iteration in disciplining mode that end the program.
abbrev pub Fatal : Modes → Answers → Loop → Type 0
Fatal m a t =
    (ltb_ℤ (a.od_process t.input).0 (pos 0) ≡ true)
    ⊎ ((t.output.action ≡ phase_jump)
        × (ltb_ℤ (a.clock_adjtime (phase_offset (neg t.output.value_phase_ctrl))) (pos 0) ≡ true))
    ⊎ ((t.output.action ≡ calibrate)
        × ((a.has_calibration_parameters ≡ false)
            ⊎ ((a.calibrates ≡ false) × (a.is_running ≡ true))))

finish-Fatal : (m : Modes) (a : Answers) (s t : Loop) → (finish a s).0 ≡ exits t → Fatal m a t
unfolding finish
finish-Fatal m a s t h = ground arith

run_process-Fatal :
    (m : Modes) (a : Answers) (s t : Loop) → (run_process m a s).0 ≡ exits t → Fatal m a t
unfolding run_process
run_process-Fatal m a s t h = ground arith

prepare-exits : (a : Answers) (s t : Loop) → (prepare a s).0 ≢ exits t
unfolding prepare
prepare-exits a s t h = ground arith

bind-exits :
    (w : Flow × List Call) (f : Loop → Flow × List Call) (t : Loop)
    → (w >>= f).0 ≡ exits t
    → (w.0 ≡ exits t) ⊎ ((s : Loop) × ((f s).0 ≡ exits t))
bind-exits (falls s, cs) f t h = inr (s, h)
bind-exits (continues s, cs) f t h = inl h
bind-exits (breaks s, cs) f t h = inl h
bind-exits (exits s, cs) f t h = inl h

exchange-exits : (m : Modes) (a : Answers) (s t : Loop) → (exchange m a s).0 ≢ exits t
unfolding exchange
exchange-exits m a s t h = ground arith

discipline-Fatal :
    (m : Modes) (a : Answers) (s t : Loop) → (discipline m a s).0 ≡ exits t → Fatal m a t
unfolding discipline
discipline-Fatal m a s t h = elim (bind-exits (prepare a s >>= run_process m a) (finish a) t h) [
  | inr (u, e) ↦ finish-Fatal m a u t e
  | inl e ↦ elim (bind-exits (prepare a s) (run_process m a) t e) [
    | inl e' ↦ absurd (prepare-exits a s t e')
    | inr (u, e') ↦ run_process-Fatal m a u t e'
  ]
]

-- In disciplining mode the program is ended by `error` only where the algorithm failed, the phase
-- offset was refused, or a calibration could not be made while the daemon should go on.
pub exits-Fatal :
    (m : Modes) (a : Answers) (s t : Loop)
    → m.disciplining ≡ true
    → (iterate m a s).0 ≡ exits t
    → Fatal m a t
unfolding iterate
exits-Fatal m a s t d h =
    elim (bind-exits (if m.disciplining then discipline m a s else monitor_only m a s)
      (exchange m a) t h) [
        | inl e ↦
            discipline-Fatal m a s t
              (subst (λ b. (if b then discipline m a s else monitor_only m a s).0 ≡ exits t) d e)
        | inr (u, e) ↦ absurd (exchange-exits m a u t e)
      ]

-- In disciplining mode the loop is left by `break` only where the GNSS thread gave no data, or a
-- calibration was given up because the daemon was told to stop.
pub breaks_cause :
    (m : Modes) (a : Answers) (s t : Loop)
    → m.disciplining ≡ true
    → (iterate m a s).0 ≡ breaks t
    → (a.epoch ≡ none)
      ⊎ ((t.output.action ≡ calibrate) × (a.calibrates ≡ false) × (a.is_running ≡ false))
unfolding iterate
breaks_cause m a s t d h = ground arith

-- A failed read of the oscillator ends a program that only monitors, and no other.
pub oscillator_failure :
    (m : Modes) (a : Answers) (s : Loop)
    → ltb_ℤ (a.parse_attributes s.attributes).0 (pos 0) ≡ true
    → eqb_ℤ (a.parse_attributes s.attributes).0 e_nosys ≡ false
    → m.disciplining ≡ false
    → (t : Loop) × (iterate m a s ≡ (exits t, []))
unfolding iterate
oscillator_failure m a s h k d =
    (record s { attributes = (a.parse_attributes s.attributes).1 }, ground arith)

-- What the GNSS thread should do for a request.
abbrev pub command_of : Request → Option Command
command_of gnss_start = some (rx_reset rx_gnss_start)
command_of gnss_stop = some (rx_reset rx_gnss_stop)
command_of gnss_soft = some (rx_reset rx_soft)
command_of gnss_hard = some (rx_reset rx_hard)
command_of gnss_cold = some (rx_reset rx_cold)
command_of _ = none

abbrev pub thread_does : Option GnssAction → List Command
thread_does none = []
thread_does (some g) = (take_action g).1

-- A request for a GNSS command makes the GNSS thread perform exactly that command in its next
-- round, whatever action was waiting, and calls nothing else.
pub gnss_request_performed :
    (r : Request) (c : Command) (s : Loop) (old : GnssAction)
    → command_of r ≡ some c
    → s.gnss_action ≡ some old
    → (thread_does (handle_request r s).0.gnss_action ≡ c ∷ []) × ((handle_request r s).1 ≡ [])
unfolding handle_request set_action take_action
gnss_request_performed r c s old h g = ground arith

-- The request to reset the serial link of the receiver changes nothing at all: `gnss_set_action`
-- refuses the action that the main loop hands it.
pub reset_serial_dropped :
    (s : Loop) (old : GnssAction)
    → s.gnss_action ≡ some old
    → (handle_request reset_ublox_serial s ≡ (s, []))
      × (take_action reset_serial ≡ (no_action, reopen_serial ∷ []))
unfolding handle_request set_action take_action
reset_serial_dropped s old h = ground arith

-- A coarse step asks the oscillator for the value read plus or minus one, in 32 bits: a step down
-- from 0 asks for 2 ^ 32 - 1.
pub coarse_steps :
    (s : Loop)
    → s.ctrl.coarse_ctrl < 2 ^ 32 - 1
    → ((handle_request mro_coarse_inc s).1
        ≡ apply_output (record {
          action = adjust_coarse;
          setpoint = s.ctrl.coarse_ctrl + 1;
          value_phase_ctrl = pos 0;
        })
          ∷ [])
      × ((handle_request mro_coarse_dec s).1
          ≡ apply_output (record {
            action = adjust_coarse;
            setpoint = if s.ctrl.coarse_ctrl == 0 then 2 ^ 32 - 1 else s.ctrl.coarse_ctrl - 1;
            value_phase_ctrl = pos 0;
          })
            ∷ [])
unfolding handle_request
coarse_steps s h = ground arith

-- The periodic save: a saving thread is started exactly when an hour has passed since the last
-- start, so that less than an hour has passed when the step is over.
pub saves_hourly :
    (a : Answers) (s : Loop)
    → s.start_save ≤ a.now
    → let (w, cs) = save_periodically a s in
      (a.now < (state_of w).start_save + update_sec)
      × ((cs ≡ spawn_save ∷ []) ↔ (s.start_save + update_sec ≤ a.now))
unfolding save_periodically
saves_hourly a s h = ground arith
