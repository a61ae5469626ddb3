-- ===== src/Daemon/Tests.antt =====
-- The main loop's theorems at concrete states, and runs of it.
use oscillatord.Base.{
  ◌+◌, ◌-◌, ◌^◌, ◌≤◌, ◌<◌, ◌≡◌, refl, ◌≢◌, ◌↔◌, ◌⊎◌, inl, inr, true, false, none, some, [], ◌∷◌,
  map, arith,
}
use oscillatord.Base.Int.{pos, negsuc}
use oscillatord.Base.CError.{fail}
use oscillatord.Structs.{
  both_timestamps, no_op, adjust_coarse, phase_jump, calibrate, OdInput, empty_input, OdOutput,
  none_requested, gnss_cold, mro_coarse_inc, mro_coarse_dec, reset_ublox_serial,
}
use oscillatord.Gnss.Command.{
  no_action, reset_serial, rx_cold, rx_reset, reopen_serial, take_action,
}
use oscillatord.Daemon.{Loop, Modes, Answers, apply_output, spawn_save, exits}
use oscillatord.Daemon.Discipline.{fill_input, update_sec, save_periodically}
use oscillatord.Daemon.Requests.{handle_request}
use oscillatord.Daemon.Iterate.{iterate, run}
use oscillatord.Daemon.Process.{inputs, state_of}
use oscillatord.Daemon.Inputs.{Tells, All, inputs-Tells}
use oscillatord.Daemon.Flags.{mark_removed}
use oscillatord.Daemon.Outcome.{
  Fatal, exits-Fatal, breaks_cause, oscillator_failure, thread_does, gnss_request_performed,
  reset_serial_dropped, coarse_steps, saves_hourly,
}
use oscillatord.Daemon.Runs.{
  run_inputs, AllInvalid, NoneRequested, RequestedOnce, holdover_invalidates,
  calibration_not_invented, calibration_delivered_once, jump_skips_next,
}

abbrev both : Modes
both = record { disciplining = true; monitoring = true; sign = pos 1; phase_error_supported = true }

abbrev quiet : OdOutput
quiet = record { action = no_op; setpoint = 0; value_phase_ctrl = pos 0 }

abbrev jump : OdOutput
jump = record { action = phase_jump; setpoint = 0; value_phase_ctrl = negsuc 1999999999 }

abbrev begin : Loop
begin = record {
  input = empty_input;
  output = quiet;
  attributes = record { phase_error = pos 0; temperature = 0; locked = false };
  ctrl = record { fine_ctrl = 0; coarse_ctrl = 0 };
  ignore_next_irq = false;
  fake_holdover_activated = false;
  start_save = 1000;
  gnss_action = some no_action;
}

-- A second in which all goes well.
abbrev good : Answers
good = record {
  phasemeter = (both_timestamps, negsuc 99);
  epoch = some (true, true, pos 12);
  parse_attributes =
      λ o. (pos 0, record { phase_error = o.phase_error; temperature = 7; locked = true });
  get_ctrl = λ c. (pos 0, record { fine_ctrl = 1600; coarse_ctrl = 4200 });
  od_process = λ i. (pos 0, quiet);
  clock_adjtime = λ t. pos 0;
  has_calibration_parameters = true;
  calibrates = true;
  is_running = true;
  now = 1001;
  phase_error = pos 0;
  request = none_requested;
}

abbrev jumping : Answers
jumping = record good { od_process = λ i. (pos 0, jump) }

-- The serial link of the oscillator fails.
abbrev deaf : Answers
deaf = record good { parse_attributes = λ o. (fail, o) }

abbrev asked : Loop
asked = record begin { input = record empty_input { calibration_requested = true } }

abbrev held : Loop
held = record begin { fake_holdover_activated = true }

inputs-Tells_example : All (Tells both good begin) (inputs (iterate both good begin).1)
inputs-Tells_example = inputs-Tells both good begin (λ o. refl)

calibration_delivered_once_example :
    RequestedOnce (run_inputs both (deaf ∷ deaf ∷ good ∷ good ∷ []) asked)
calibration_delivered_once_example =
    calibration_delivered_once both (deaf ∷ deaf ∷ good ∷ good ∷ []) asked refl
      ((λ e. cc), ((λ e. cc), ((λ e. cc), ((λ e. cc), tt))))

delivered_third :
    map
      (λ (i : OdInput). i.calibration_requested)
      (run_inputs both (deaf ∷ deaf ∷ good ∷ good ∷ []) asked)
    ≡ true ∷ false ∷ []
unfolding run iterate fill_input
delivered_third = refl

calibration_not_invented_test : NoneRequested (run_inputs both (good ∷ good ∷ []) begin)
calibration_not_invented_test =
    calibration_not_invented both (good ∷ good ∷ []) begin refl ((λ e. cc), ((λ e. cc), tt))

holdover_invalidates_example : AllInvalid (run_inputs both (good ∷ good ∷ []) held)
holdover_invalidates_example =
    holdover_invalidates both (good ∷ good ∷ []) held refl ((λ e. cc), ((λ e. cc), tt))

abbrev after_jump : Loop
after_jump = state_of (iterate both jumping begin).0

jump_skips_next_example : inputs (iterate both good after_jump).1 ≡ []
jump_skips_next_example =
    jump_skips_next both jumping good begin after_jump (unfold iterate in inl refl)
      (unfold iterate in λ e. cc) (unfold iterate in refl)

mark_removed_test : ((good.get_ctrl after_jump.ctrl).0 ≡ pos 0) × (good.epoch ≢ none)
mark_removed_test =
    mark_removed both good after_jump (state_of (iterate both good after_jump).0)
      (unfold iterate in inr refl) (unfold iterate in refl) (unfold iterate in refl)

-- The algorithm fails.
abbrev broken : Answers
broken = record good { od_process = λ i. (fail, quiet) }

exits-Fatal_example : Fatal both broken (state_of (iterate both broken begin).0)
exits-Fatal_example =
    exits-Fatal both broken begin (state_of (iterate both broken begin).0) refl
      (unfold iterate in refl)

breaks_cause_test :
    let a = record good { epoch = none } in
    let t = state_of (iterate both a begin).0 in
    (a.epoch ≡ none)
    ⊎ ((t.output.action ≡ calibrate) × (a.calibrates ≡ false) × (a.is_running ≡ false))
breaks_cause_test =
    let a : Answers = record good { epoch = none } in
    breaks_cause both a begin (state_of (iterate both a begin).0) refl (unfold iterate in refl)

abbrev watching : Modes
watching = record both { disciplining = false }

oscillator_failure_test : (t : Loop) × (iterate watching deaf begin ≡ (exits t, []))
oscillator_failure_test = oscillator_failure watching deaf begin refl refl refl

gnss_request_performed_test :
    (thread_does (handle_request gnss_cold begin).0.gnss_action ≡ rx_reset rx_cold ∷ [])
    × ((handle_request gnss_cold begin).1 ≡ [])
gnss_request_performed_test =
    gnss_request_performed gnss_cold (rx_reset rx_cold) begin no_action refl refl

reset_serial_dropped_test :
    (handle_request reset_ublox_serial begin ≡ (begin, []))
    × (take_action reset_serial ≡ (no_action, reopen_serial ∷ []))
reset_serial_dropped_test = reset_serial_dropped begin no_action refl

coarse_steps_test :
    ((handle_request mro_coarse_inc begin).1
      ≡ apply_output (record { action = adjust_coarse; setpoint = 0 + 1; value_phase_ctrl = pos 0 })
        ∷ [])
    × ((handle_request mro_coarse_dec begin).1
        ≡ apply_output
            (record { action = adjust_coarse; setpoint = 2 ^ 32 - 1; value_phase_ctrl = pos 0 })
          ∷ [])
coarse_steps_test = coarse_steps begin (omega arith)

saves_hourly_test :
    let (w, cs) = save_periodically good begin in
    (1001 < (state_of w).start_save + update_sec)
    × ((cs ≡ spawn_save ∷ []) ↔ (1000 + update_sec ≤ 1001))
saves_hourly_test = saves_hourly good begin (omega arith)
