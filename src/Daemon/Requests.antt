-- ===== src/Daemon/Requests.antt =====
-- The exchange of the main loop of src/oscillatord.c with the monitoring thread.
use oscillatord.Base.{ℕ, ◌+◌, ◌-◌, ◌%◌, ◌^◌, true, false, List, [], ◌∷◌, if◌then◌else◌}
use oscillatord.Base.Int.{pos, ◌*ℤ◌}
use oscillatord.Structs.{
  adjust_coarse, OdOutput, OscillatorAttributes, Request, none_requested, calibration, gnss_start,
  gnss_stop, gnss_soft, gnss_hard, gnss_cold, read_eeprom, save_eeprom, fake_holdover_start,
  fake_holdover_stop, mro_coarse_inc, mro_coarse_dec, reset_ublox_serial,
}
use oscillatord.Daemon.{Loop, Modes, Answers, Call, apply_output, spawn_save, publish, Flow, falls}
use oscillatord.Gnss.Command.{GnssAction, start, stop, soft, hard, cold, reset_serial, set_action}

-- The output that a coarse step asks for; the setpoint is 32 bits wide.
unfoldable pub coarse_output : ℕ → OdOutput
coarse_output n = record { action = adjust_coarse; setpoint = n % 2 ^ 32; value_phase_ctrl = pos 0 }

abbrev pub ask_gnss : GnssAction → Loop → Loop × List Call
ask_gnss g s = (record s { gnss_action = set_action s.gnss_action g }, [])

-- The `switch` on the request.
unfoldable pub handle_request : Request → Loop → Loop × List Call
unfolding coarse_output
handle_request calibration s =
    (record s { input = record (s.input) { calibration_requested = true } }, [])
handle_request gnss_start s = ask_gnss start s
handle_request gnss_stop s = ask_gnss stop s
handle_request gnss_soft s = ask_gnss soft s
handle_request gnss_hard s = ask_gnss hard s
handle_request gnss_cold s = ask_gnss cold s
handle_request save_eeprom s = (s, spawn_save ∷ [])
handle_request fake_holdover_start s = (record s { fake_holdover_activated = true }, [])
handle_request fake_holdover_stop s = (record s { fake_holdover_activated = false }, [])
handle_request reset_ublox_serial s = ask_gnss reset_serial s
handle_request read_eeprom s = (s, [])
handle_request mro_coarse_inc s = (s, apply_output (coarse_output (s.ctrl.coarse_ctrl + 1)) ∷ [])
handle_request mro_coarse_dec s =
    (s, apply_output (coarse_output (s.ctrl.coarse_ctrl + 2 ^ 32 - 1)) ∷ [])
handle_request none_requested s = (s, [])

-- The sign that the monitored phase error has, or the oscillator's own phase error.
unfoldable pub monitored_attributes : Modes → Answers → OscillatorAttributes → OscillatorAttributes
monitored_attributes m a o =
    if m.disciplining
    then record o { phase_error = o.phase_error *ℤ m.sign }
    else if m.phase_error_supported
    then record o { phase_error = a.phase_error }
    else o

-- The `if (monitoring_mode)` at the end of the body. What is taken is the request that the
-- monitoring thread has left, which is none afterwards.
unfoldable pub exchange : Modes → Answers → Loop → Flow × List Call
unfolding handle_request monitored_attributes
exchange m a s =
    if m.monitoring
    then (let o = monitored_attributes m a s.attributes in
        let (t, cs) = handle_request a.request (record s { attributes = o }) in
        (falls t, publish o s.ctrl ∷ cs))
    else (falls s, [])
