-- ===== src/Daemon.antt =====
-- The main loop of src/oscillatord.c: what it keeps from one iteration to the next, what an
-- iteration is told by the rest of the system, and what it does to it. The children hold the parts
-- of the loop's body, in its order.
pub mod Startup
pub mod Shutdown
pub mod Balance
pub mod Unsaved
pub mod Discipline
pub mod Requests
pub mod Iterate
pub mod Process
pub mod Inputs
pub mod Flags
pub mod Outcome
mod Tests
mod StartupTests
pub mod Runs
use oscillatord.Base.{ℕ, Bool, Option, List, ◌++◌}
use oscillatord.Base.Int.{ℤ}
use oscillatord.Structs.{
  TimeSpec, Status, OdInput, OdOutput, OscillatorCtrl, OscillatorAttributes, Request,
}
use oscillatord.Gnss.Command.{GnssAction}

-- The local variables of `main` that outlive an iteration, and `gnss->action`.
pub record Loop : Type 0 where
  pub input : OdInput
  pub output : OdOutput
  pub attributes : OscillatorAttributes
  pub ctrl : OscillatorCtrl
  pub ignore_next_irq : Bool
  pub fake_holdover_activated : Bool
  pub start_save : ℕ
  pub gnss_action : Option GnssAction

-- What the configuration fixes before the loop: the modes, `sign`, `phase_error_supported`.
pub record Modes : Type 0 where
  pub disciplining : Bool
  pub monitoring : Bool
  pub sign : ℤ
  pub phase_error_supported : Bool

-- What an iteration is told: by the phasemeter, the GNSS thread, the oscillator, the disciplining
-- library, the kernel and the monitoring thread. A function is a call whose answer depends on, or
-- fills, what it is handed. `is_running` is `loop` as a failed calibration finds it.
pub record Answers : Type 0 where
  pub phasemeter : Status × ℤ
  pub epoch : Option (Bool × Bool × ℤ)
  pub parse_attributes : OscillatorAttributes → ℤ × OscillatorAttributes
  pub get_ctrl : OscillatorCtrl → ℤ × OscillatorCtrl
  pub od_process : OdInput → ℤ × OdOutput
  pub clock_adjtime : TimeSpec → ℤ
  pub has_calibration_parameters : Bool
  pub calibrates : Bool
  pub is_running : Bool
  pub now : ℕ
  pub phase_error : ℤ
  pub request : Request

-- The calls that leave the main thread, in their order.
pub data Call : Type 0 where
  process : OdInput → Call
  adjust_clock : TimeSpec → Call
  oscillator_calibrate od_calibrate : Call
  write_parameters : Call
  disable_calibrate_first : Call
  apply_output : OdOutput → Call
  spawn_save : Call
  push_gnss_info : Call
  publish : OscillatorAttributes → OscillatorCtrl → Call

-- How a part of the body is left: at its end, by `continue`, by `break`, or by `error`, which ends
-- the program.
pub data Flow : Type 0 where
  falls continues breaks exits : Loop → Flow

infixl 5 ◌>>=◌
abbrev pub ◌>>=◌ : Flow × List Call → (Loop → Flow × List Call) → Flow × List Call
(falls s, cs) >>= f = let (w, ds) = f s in (w, cs ++ ds)
(continues s, cs) >>= f = (continues s, cs)
(breaks s, cs) >>= f = (breaks s, cs)
(exits s, cs) >>= f = (exits s, cs)
