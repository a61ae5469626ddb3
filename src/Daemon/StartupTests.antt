-- ===== src/Daemon/StartupTests.antt =====
-- A start and an end of src/oscillatord.c at concrete inputs.
use oscillatord.Base.{◌≡◌, refl, true, false, some, List, [], ◌∷◌, ◌++◌, arith, if◌then◌else◌}
use oscillatord.Base.Int.{ℤ, pos, negsuc, neg, ◌*ℤ◌}
use oscillatord.Base.CError.{e_nosys}
use oscillatord.Structs.{both_timestamps, no_gnss_timestamps, no_op, empty_input, calibration}
use oscillatord.Clock.{phase_offset}
use oscillatord.Gnss.Command.{no_action}
use oscillatord.Daemon.Startup.{
  Boot, Effect, start_monitoring, new_oscillator, open_clock, start_gnss, new_od, start_phasemeter,
  set_ptp_clock, start_ntp, jump_clock, enable_pps, failure, up, left, first_phase, modes_of, boot,
}
use oscillatord.Daemon.{Loop, Modes, Answers}
use oscillatord.Daemon.Iterate.{run}
use oscillatord.Daemon.Shutdown.{
  Undo, disable_pps, stop_gnss, join_save, stop_phasemeter, get_parameters, save_parameters,
  destroy_od, stop_monitoring, close_clock, destroy_oscillator, cleanup_config, returned,
  joins_nothing, any, stop_inputs, shut_down,
}
use oscillatord.Daemon.Balance.{
  disciplining_effects, devices, outputs, boot_effects, phasemeter_part, stops_part, all_stopped,
}
use oscillatord.Daemon.Unsaved.{has_thread, early_end}

-- The first phase error is read at the second try: 1.5 s.
abbrev disciplined : Boot
disciplined = record {
  has_path = true;
  config = pos 0;
  disciplining = true;
  monitoring = true;
  devices = pos 0;
  monitoring_starts = true;
  oscillator_made = true;
  phase_error_result = e_nosys;
  clock_opens = true;
  gnss_starts = true;
  parameters = pos 0;
  opposite_phase_error = true;
  od_made = true;
  phasemeter_starts = true;
  is_running = λ n. true;
  set_time = λ n. pos 0;
  phases = (no_gnss_timestamps, pos 7) ∷ (both_timestamps, pos 1500000000) ∷ [];
  adjust_time = pos 0;
  has_pps = false;
}

abbrev modes : Modes
modes = record {
  disciplining = true;
  monitoring = true;
  sign = negsuc 0;
  phase_error_supported = true;
}

abbrev started : List Effect
started =
    start_monitoring
    ∷ new_oscillator
    ∷ open_clock
    ∷ start_gnss
    ∷ new_od
    ∷ start_phasemeter
    ∷ set_ptp_clock
    ∷ jump_clock (phase_offset (pos 1500000000))
    ∷ set_ptp_clock
    ∷ enable_pps true
    ∷ start_ntp
    ∷ []

boot_test : boot disciplined ≡ up started modes
unfolding boot ◌*ℤ◌ neg
boot_test = refl

-- The receiver is not found.
deaf_test :
    boot (record disciplined { gnss_starts = false })
    ≡ left failure (start_monitoring ∷ new_oscillator ∷ open_clock ∷ [])
unfolding boot
deaf_test = refl

boot_effects_example :
    (modes ≡ modes_of disciplined)
    × ((phase : ℤ) × (disciplined.disciplining ≡ true
          → disciplined.is_running 1 ≡ true
          → first_phase disciplined.phases ≡ up [] phase)
        × (started
            ≡ devices disciplined
              ++ ((if disciplined.disciplining then disciplining_effects disciplined phase else [])
                  ++ outputs disciplined)))
boot_effects_example = boot_effects disciplined started modes boot_test

-- The end closes the clock twice.
abbrev stopped : List Undo
stopped =
    disable_pps ∷ stop_gnss ∷ join_save ∷ stop_phasemeter ∷ get_parameters ∷ save_parameters
    ∷ destroy_od ∷ stop_monitoring ∷ close_clock ∷ destroy_oscillator ∷ cleanup_config ∷ close_clock
    ∷ []

shut_down_test : shut_down modes started true true ≡ returned stopped
unfolding shut_down
shut_down_test = refl

all_stopped_example : any (stops_part phasemeter_part) stopped ≡ true
all_stopped_example =
    all_stopped disciplined started modes true true stopped phasemeter_part boot_test shut_down_test
      refl

abbrev first : Loop
first = record {
  input = empty_input;
  output = record { action = no_op; setpoint = 0; value_phase_ctrl = pos 0 };
  attributes = record { phase_error = pos 0; temperature = 0; locked = false };
  ctrl = record { fine_ctrl = 0; coarse_ctrl = 0 };
  ignore_next_irq = false;
  fake_holdover_activated = false;
  start_save = 1000;
  gnss_action = some no_action;
}

abbrev answers : Answers
answers = record {
  phasemeter = (both_timestamps, negsuc 99);
  epoch = some (true, true, pos 12);
  parse_attributes = λ o. (pos 0, o);
  get_ctrl = λ c. (pos 0, c);
  od_process = λ i. (pos 0, record { action = no_op; setpoint = 0; value_phase_ctrl = pos 0 });
  clock_adjtime = λ t. pos 0;
  has_calibration_parameters = true;
  calibrates = true;
  is_running = true;
  now = 1600;
  phase_error = pos 0;
  request = calibration;
}

early_end_example :
    shut_down modes started (has_thread (run modes (answers ∷ answers ∷ []) first).calls) true
    ≡ joins_nothing (stop_inputs started)
early_end_example =
    early_end modes (answers ∷ answers ∷ []) first started true refl
      ((omega arith, (λ e. cc)), ((omega arith, (λ e. cc)), tt))
