-- ===== src/Daemon/Inputs.antt =====
-- What the disciplining algorithm is told in the main loop of src/oscillatord.c.
use oscillatord.Base.{
  ◌≡◌, refl, sym, ap, ◌∙◌, Bool, true, false, not, ◌&&◌, some, List, [], ◌∷◌, arith, if◌then◌else◌,
}
use oscillatord.Base.Int.{◌*ℤ◌}
use oscillatord.Structs.{OdInput, OscillatorCtrl, OscillatorAttributes}
use oscillatord.Clock.Offset.{total_ns, split_phase_error_exact}
use oscillatord.Daemon.{Loop, Modes, Answers, Flow, falls, continues, breaks, exits}
use oscillatord.Daemon.Discipline.{fill_input, prepare}
use oscillatord.Daemon.Iterate.{iterate}
use oscillatord.Daemon.Process.{inputs, handed, inputs-iterate}
use mathlib.Core.Path.{subst}

-- An oscillator whose `parse_attributes` leaves the phase error alone, as all of the drivers do.
abbrev pub KeepsPhaseError : Answers → Type 0
KeepsPhaseError a =
    (o : OscillatorAttributes) → (a.parse_attributes o).1.phase_error ≡ o.phase_error

-- What holds where the part before `od_process` falls through to it.
record Prepared (a : Answers) (s t : Loop) : Type 0 where
  old_flag : s.ignore_next_irq ≡ false
  new_flag : t.ignore_next_irq ≡ false
  ctrl : t.ctrl ≡ (a.get_ctrl s.ctrl).1
  phase_error : t.attributes.phase_error ≡ a.phasemeter.1
  holdover : t.fake_holdover_activated ≡ s.fake_holdover_activated
  requested : t.input.calibration_requested ≡ s.input.calibration_requested
  epoch : a.epoch ≡ some (t.input.valid, t.input.survey_completed, t.input.q_err)

prepare-Prepared :
    (a : Answers) (s t : Loop) → KeepsPhaseError a → (prepare a s).0 ≡ falls t → Prepared a s t
unfolding prepare
prepare-Prepared a s t k h =
    ground (arith, k (record (s.attributes) { phase_error = a.phasemeter.1 }))

-- The input `i` says what was read in this very iteration.
pub record Tells (m : Modes) (a : Answers) (s : Loop) (i : OdInput) : Type 0 where
  pub status : i.phasemeter_status ≡ some a.phasemeter.0
  pub phase_error : total_ns i.phase_error ≡ m.sign *ℤ a.phasemeter.1
  pub fine : i.fine_setpoint ≡ (a.get_ctrl s.ctrl).1.fine_ctrl
  pub coarse : i.coarse_setpoint ≡ (a.get_ctrl s.ctrl).1.coarse_ctrl
  pub requested : i.calibration_requested ≡ s.input.calibration_requested
  pub epoch :
      (v : Bool) × (a.epoch ≡ some (v, i.survey_completed, i.q_err))
      × (i.valid ≡ not s.fake_holdover_activated && v)
  pub old_flag : s.ignore_next_irq ≡ false

fill_input-Tells :
    (m : Modes) (a : Answers) (s t : Loop) → Prepared a s t → Tells m a s (fill_input m a t)
unfolding fill_input
fill_input-Tells m a s t p = record {
  status = refl;
  phase_error =
      (split_phase_error_exact m.sign t.attributes.phase_error).0
      ∙ ap (λ e. m.sign *ℤ e) p.phase_error;
  fine = ap (λ (c : OscillatorCtrl). c.fine_ctrl) p.ctrl;
  coarse = ap (λ (c : OscillatorCtrl). c.coarse_ctrl) p.ctrl;
  requested = p.requested;
  epoch = (t.input.valid, p.epoch, ground (arith, p.holdover));
  old_flag = p.old_flag;
}

abbrev pub All {ℓ κ} : {A : Type ℓ} → (A → Type κ) → List A → Type κ
All P [] = Unit
All P (x ∷ xs) = P x × All P xs

handed-Tells :
    (m : Modes) (a : Answers) (s : Loop) (w : Flow)
    → KeepsPhaseError a
    → (prepare a s).0 ≡ w
    → All (Tells m a s) (handed m a w)
handed-Tells m a s (falls t) k h = (fill_input-Tells m a s t (prepare-Prepared a s t k h), tt)
handed-Tells m a s (continues t) k h = tt
handed-Tells m a s (breaks t) k h = tt
handed-Tells m a s (exits t) k h = tt

-- Every input that an iteration hands to `od_process` tells what was read in that iteration: the
-- phasemeter's status, the signed phase error split without loss, the oscillator's control values,
-- the GNSS epoch (never valid under fake holdover), and the calibration that was asked for.
-- The oscillator's driver leaves the phase error alone.
pub inputs-Tells :
    (m : Modes) (a : Answers) (s : Loop)
    → KeepsPhaseError a
    → All (Tells m a s) (inputs (iterate m a s).1)
inputs-Tells m a s k = subst (All (Tells m a s)) (sym (inputs-iterate m a s)) (split m.disciplining)
  where
    split : (b : Bool) → All (Tells m a s) (if b then handed m a (prepare a s).0 else [])
    split true = handed-Tells m a s (prepare a s).0 k refl
    split false = tt
