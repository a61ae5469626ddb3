-- ===== src/Daemon/Flags.antt =====
-- The flags of the main loop of src/oscillatord.c, from one iteration to the next.
use oscillatord.Base.{
  ◌≡◌, refl, sym, ◌≢◌, ◌⊎◌, Bool, true, false, none, List, [], ◌∷◌, arith, if◌then◌else◌,
}
use oscillatord.Base.Int.{pos}
use oscillatord.Structs.{phase_jump, OdInput, calibration, fake_holdover_stop}
use oscillatord.Daemon.{Loop, Modes, Answers, Flow, falls, continues, breaks, exits}
use oscillatord.Daemon.Discipline.{fill_input, prepare}
use oscillatord.Daemon.Iterate.{iterate}
use oscillatord.Daemon.Process.{inputs, handed, inputs-iterate}
use mathlib.Core.Path.{subst}

-- The states in which the next iteration may start.
abbrev pub Goes : Flow → Loop → Type 0
Goes w t = (w ≡ falls t) ⊎ (w ≡ continues t)

module _ (m : Modes) (a : Answers) (s t : Loop) (goes : Goes (iterate m a s).0 t) where
  -- Fake holdover lasts until the request that stops it.
  pub holdover_stays :
      a.request ≢ fake_holdover_stop
      → s.fake_holdover_activated ≡ true
      → t.fake_holdover_activated ≡ true
  unfolding iterate
  holdover_stays r h = ground arith

  -- A calibration request waits as long as `od_process` is not called.
  pub request_waits :
      inputs (iterate m a s).1 ≡ []
      → s.input.calibration_requested ≡ true
      → t.input.calibration_requested ≡ true
  unfolding iterate
  request_waits n h = ground arith

  -- Without a request there is none in the input.
  pub request_not_invented :
      a.request ≢ calibration
      → s.input.calibration_requested ≡ false
      → t.input.calibration_requested ≡ false
  unfolding iterate
  request_not_invented r h = ground arith

  -- The call of `od_process` uses the request up.
  pub request_used :
      a.request ≢ calibration
      → inputs (iterate m a s).1 ≢ []
      → t.input.calibration_requested ≡ false
  unfolding iterate
  request_used r n = ground arith

  -- A phase jump marks the next reading.
  pub jump_marks :
      inputs (iterate m a s).1 ≢ [] → t.output.action ≡ phase_jump → t.ignore_next_irq ≡ true
  unfolding iterate
  jump_marks n j = ground arith

  -- The mark that a phase jump leaves, to ignore the next reading, is gone after an iteration only
  -- if the GNSS epoch and the control values of the oscillator were read in it.
  pub mark_removed :
      s.ignore_next_irq ≡ true
      → t.ignore_next_irq ≡ false
      → ((a.get_ctrl s.ctrl).0 ≡ pos 0) × (a.epoch ≢ none)
  unfolding iterate
  mark_removed h n = ground arith

-- A marked iteration does not call `od_process`.
pub marked_skips :
    (m : Modes) (a : Answers) (s : Loop) → s.ignore_next_irq ≡ true → inputs (iterate m a s).1 ≡ []
unfolding iterate
marked_skips m a s h = ground arith

module _ (m : Modes) (a : Answers) (s : Loop) where
  -- At most one input, with the calibration flag of the state and no validity under holdover.
  abbrev pub Single : List OdInput → Type 0
  Single [] = Unit {0}
  Single (i ∷ is) =
      (is ≡ [])
      × (i.calibration_requested ≡ s.input.calibration_requested)
      × ((s.fake_holdover_activated ≡ false) ⊎ (i.valid ≡ false))

  handed-Single : (w : Flow) → (prepare a s).0 ≡ w → Single (handed m a w)
  unfolding prepare fill_input
  handed-Single (falls t) h = ground arith
  handed-Single (continues t) h = tt
  handed-Single (breaks t) h = tt
  handed-Single (exits t) h = tt

  pub inputs-Single : Single (inputs (iterate m a s).1)
  inputs-Single = subst Single (sym (inputs-iterate m a s)) (split m.disciplining)
    where
      split : (b : Bool) → Single (if b then handed m a (prepare a s).0 else [])
      split true = handed-Single (prepare a s).0 refl
      split false = tt
