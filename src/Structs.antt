-- ===== src/Structs.antt =====
-- The structures that the daemon's parts hand to each other: src/oscillator.h, src/monitoring.h,
-- src/gnss.h, and those of the disciplining library, which the source only fills and reads.
-- A `double` is only copied here, and stands as its bit pattern: 0 is 0.0.
use oscillatord.Base.{ℕ, Bool, false, Option, none}
use oscillatord.Base.Int.{ℤ, pos}

-- `struct timespec`
pub record TimeSpec : Type 0 where
  pub tv_sec : ℤ
  pub tv_nsec : ℤ

-- The phasemeter statuses, the actions and the two structures of the disciplining library.
pub data Status : Type 0 where
  init both_timestamps no_gnss_timestamps no_art_internal_timestamps : Status

pub data Action : Type 0 where
  no_op adjust_fine adjust_coarse phase_jump calibrate save_disciplining_parameters : Action

pub record OdInput : Type 0 where
  pub phase_error : TimeSpec
  pub phasemeter_status : Option Status
  pub valid : Bool
  pub survey_completed : Bool
  pub q_err : ℤ
  pub lock : Bool
  pub fine_setpoint : ℕ
  pub coarse_setpoint : ℕ
  pub temperature : ℕ
  pub calibration_requested : Bool

-- The zero that a reset leaves in `phasemeter_status` is `none`.
abbrev pub empty_input : OdInput
empty_input = record {
  phase_error = record { tv_sec = pos 0; tv_nsec = pos 0 };
  phasemeter_status = none;
  valid = false;
  survey_completed = false;
  q_err = pos 0;
  lock = false;
  fine_setpoint = 0;
  coarse_setpoint = 0;
  temperature = 0;
  calibration_requested = false;
}

-- `setpoint` is a 32-bit unsigned number.
pub record OdOutput : Type 0 where
  pub action : Action
  pub setpoint : ℕ
  pub value_phase_ctrl : ℤ

-- `struct oscillator_ctrl`, without the `dac` of other oscillators.
pub record OscillatorCtrl : Type 0 where
  pub fine_ctrl : ℕ
  pub coarse_ctrl : ℕ

-- `struct oscillator_attributes`
pub record OscillatorAttributes : Type 0 where
  pub phase_error : ℤ
  pub temperature : ℕ
  pub locked : Bool

-- `enum monitoring_request`
pub data Request : Type 0 where
  none_requested calibration gnss_start gnss_stop gnss_soft gnss_hard gnss_cold : Request
  read_eeprom save_eeprom fake_holdover_start fake_holdover_stop : Request
  mro_coarse_inc mro_coarse_dec reset_ublox_serial : Request
