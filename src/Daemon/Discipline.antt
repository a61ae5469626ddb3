-- ===== src/Daemon/Discipline.antt =====
-- The disciplining half of the main loop of src/oscillatord.c.
use oscillatord.Base.{ℕ, ◌+◌, true, false, none, some, List, [], ◌∷◌, leb, if◌then◌else◌}
use oscillatord.Base.Int.{pos, neg, ltb_ℤ, eqb_ℤ}
use oscillatord.Base.CError.{e_nosys}
use oscillatord.Structs.{
  Action, no_op, adjust_fine, adjust_coarse, phase_jump, calibrate, save_disciplining_parameters,
  OdInput, empty_input, OscillatorAttributes,
}
use oscillatord.Clock.{phase_offset, split_phase_error}
use oscillatord.Daemon.{
  Loop, Modes, Answers, Call, process, adjust_clock, oscillator_calibrate, od_calibrate,
  write_parameters, disable_calibrate_first, apply_output, spawn_save, Flow, falls, continues,
  breaks, exits, ◌>>=◌,
}

-- `get_phase_error` and `gnss_get_epoch_data`; an error of the latter leaves the loop.
unfoldable pub read_references : Answers → Loop → Flow × List Call
read_references a s =
    let t = record s { attributes = record (s.attributes) { phase_error = a.phasemeter.1 } } in
    elim a.epoch [
      | none ↦ (breaks t, [])
      | some (valid, survey, q_err) ↦ (
        falls (record t {
          input = record (t.input) { valid = valid; survey_completed = survey; q_err = q_err };
        }),
        [],
      )
    ]

-- An oscillator with no attributes reads as 0.0 degrees, unlocked.
abbrev pub no_attributes : OscillatorAttributes → OscillatorAttributes
no_attributes o = record o { temperature = 0; locked = false }

-- `oscillator_parse_attributes`; `failure` is how another error than -ENOSYS leaves this part.
unfoldable pub read_attributes : (Loop → Flow) → Answers → Loop → Flow × List Call
read_attributes failure a s =
    let (ret, o) = a.parse_attributes s.attributes in
    if eqb_ℤ ret e_nosys
    then (falls (record s { attributes = no_attributes o }), [])
    else if ltb_ℤ ret (pos 0)
    then (failure (record s { attributes = o }), [])
    else (falls (record s { attributes = o }), [])

unfoldable pub read_ctrl : Answers → Loop → Flow × List Call
read_ctrl a s =
    let (ret, c) = a.get_ctrl s.ctrl in
    if eqb_ℤ ret (pos 0)
    then (falls (record s { ctrl = c }), [])
    else (continues (record s { ctrl = c }), [])

-- The iteration after a phase jump ends here.
unfoldable pub skip_after_jump : Loop → Flow × List Call
skip_after_jump s =
    if s.ignore_next_irq
    then (continues (record s { ignore_next_irq = false }), [])
    else (falls s, [])

-- What `od_process` is handed.
unfoldable pub fill_input : Modes → Answers → Loop → OdInput
fill_input m a s = record (s.input) {
  phasemeter_status = some a.phasemeter.0;
  coarse_setpoint = s.ctrl.coarse_ctrl;
  fine_setpoint = s.ctrl.fine_ctrl;
  temperature = s.attributes.temperature;
  lock = s.attributes.locked;
  phase_error = split_phase_error m.sign s.attributes.phase_error;
  valid = if s.fake_holdover_activated then false else s.input.valid;
}

-- The `if` on `output.action` after `od_process`.
unfoldable pub apply_action : Answers → Action → Loop → Flow × List Call
apply_action a phase_jump s =
    let offset = phase_offset (neg s.output.value_phase_ctrl) in
    if ltb_ℤ (a.clock_adjtime offset) (pos 0)
    then (exits s, adjust_clock offset ∷ [])
    else (falls (record s { ignore_next_irq = true }), adjust_clock offset ∷ [])
apply_action a calibrate s =
    if a.has_calibration_parameters
    then (if a.calibrates
        then (falls s, oscillator_calibrate ∷ od_calibrate ∷ [])
        else ((if a.is_running then exits s else breaks s), oscillator_calibrate ∷ []))
    else (exits s, [])
apply_action a save_disciplining_parameters s =
    (falls s, write_parameters ∷ disable_calibrate_first ∷ [])
apply_action a no_op s = (falls s, [])
apply_action a adjust_fine s = (falls s, apply_output s.output ∷ [])
apply_action a adjust_coarse s = (falls s, apply_output s.output ∷ [])

-- `od_process`, whose failure ends the program, and the reset of its input.
unfoldable pub run_process : Modes → Answers → Loop → Flow × List Call
run_process m a s =
    let input = fill_input m a s in
    let (ret, output) = a.od_process input in
    if ltb_ℤ ret (pos 0)
    then (exits (record s { input = input; output = output }), process input ∷ [])
    else (falls (record s { input = empty_input; output = output }), process input ∷ [])

-- UPDATE_DISCIPLINING_PARAMETERS_SEC
abbrev pub update_sec : ℕ
update_sec = 3600

-- The periodic save, in a thread of its own; `time` never goes back.
unfoldable pub save_periodically : Answers → Loop → Flow × List Call
save_periodically a s =
    if leb (s.start_save + update_sec) a.now
    then (falls (record s { start_save = a.now }), spawn_save ∷ [])
    else (falls s, [])

-- The body up to `od_process`, and after it.
unfoldable pub prepare : Answers → Loop → Flow × List Call
unfolding read_references read_attributes read_ctrl skip_after_jump
prepare a s =
    read_references a s >>= read_attributes continues a >>= read_ctrl a >>= skip_after_jump

unfoldable pub finish : Answers → Loop → Flow × List Call
unfolding apply_action save_periodically
finish a s = apply_action a s.output.action s >>= save_periodically a

unfoldable pub discipline : Modes → Answers → Loop → Flow × List Call
unfolding prepare run_process finish
discipline m a s = prepare a s >>= run_process m a >>= finish a
