-- ===== src/Sa5x/State.antt =====
-- What the driver of src/oscillators/sa5x_oscillator.c keeps. Times are the seconds of the monotonic
-- clock, which never goes back.
use oscillatord.Base.{ℕ, zero, suc, Bool, false, ◌&&◌, List, [], ◌∷◌, if◌then◌else◌}

-- `enum SA5x_ClockClass`
pub data ClockClass : Type 0 where
  clock_uncalibrated clock_calibrating clock_holdover clock_lock : ClockClass

-- `enum SA5x_Disciplining_State`
pub data DiscipliningState : Type 0 where
  init tracking holdover calibration : DiscipliningState

-- `struct sa5x_oscillator`, with the parts of its `status` that change. The seconds of each
-- `struct timespec` are kept, since the code compares nothing else.
pub record Sa5x : Type 0 where
  pub disciplining_phase : ℕ
  pub clock_class : ClockClass
  pub status : DiscipliningState
  pub holdover_ready : Bool
  pub disciplining_start : ℕ
  pub gnss_last_fix : ℕ
  pub mac_last_latch : ℕ
  pub gnss_fix_status : Bool
  pub latch_fixed : Bool

-- DISCIPLINING_PHASES, `tau_values` and `tau_interval`
abbrev pub disciplining_phases : ℕ
disciplining_phases = 3

abbrev pub tau_value : ℕ → ℕ
tau_value zero = 50
tau_value (suc zero) = 500
tau_value (suc (suc n)) = 10000

abbrev pub tau_interval : ℕ → ℕ
tau_interval zero = 600
tau_interval (suc zero) = 7200
tau_interval (suc (suc n)) = 86400

-- The commands that change something in the clock.
pub data Command : Type 0 where
  set_tau : ℕ → Command
  set_disciplining : Bool → Command
  set_phase_limit : ℕ → Command
  latch : Command

-- `sa5x_oscillator_new` once the device is open, at the time `now`: the state, zero but for the
-- status, and the command that resets TAU.
unfoldable pub start : Bool → ℕ → Sa5x × List Command
start latch_fixed now = (
  record {
    disciplining_phase = 0;
    clock_class = clock_calibrating;
    status = init;
    holdover_ready = false;
    disciplining_start = now;
    gnss_last_fix = 0;
    mac_last_latch = 0;
    gnss_fix_status = false;
    latch_fixed = latch_fixed;
  },
  set_tau (tau_value 0) ∷ [],
)

-- `sa5x_oscillator_push_gnss_info`, with the fix, whether a time of it is given, and the time now.
unfoldable pub push_gnss_info : Bool → Bool → ℕ → Sa5x → Sa5x
push_gnss_info fix_ok has_time now s =
    if fix_ok && has_time
    then record s { gnss_fix_status = fix_ok; gnss_last_fix = now }
    else record s { gnss_fix_status = fix_ok }
