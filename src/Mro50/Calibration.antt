-- ===== src/Mro50/Calibration.antt =====
-- The calibration of src/oscillators/mRo50_oscillator.c: a fine control value after the other is
-- applied, and the phase error is measured a number of times at each.
pub mod Measures
pub mod Blocks
use oscillatord.Base.{
  ℕ, zero, suc, ◌+◌, ◌*◌, ◌%◌, ◌^◌, Bool, true, false, Option, none, some, List, [], ◌∷◌,
  if◌then◌else◌,
}
use oscillatord.Base.Int.{ℤ, pos}
use oscillatord.Structs.{Status, both_timestamps, adjust_fine, OdOutput, OscillatorCtrl}
use oscillatord.Mro50.Serial.{Exchange, Serial, ◌>>=◌, ◌>>◌, return, Reopening}
use oscillatord.Mro50.Control.{get_ctrl, apply_output}

-- What a measure is told: `loop`, `get_phase_error` and the `qErr` of `gnss_get_epoch_data`, where it
-- has one.
pub record Sample : Type 0 where
  pub is_running : Bool
  pub status : Status
  pub phase_error : ℤ
  pub q_err : Option ℤ

-- What the calibration is told at one control point.
pub record Site : Type 0 where
  pub is_running : Bool
  pub device : List ℕ → Exchange
  pub coarse : Exchange
  pub coarse_reset : Reopening
  pub fine : Exchange
  pub fine_reset : Reopening
  pub sample : ℕ → Sample

-- A control point as the setpoint of an output: converted to 32 bits.
abbrev pub fine_adjustment : ℕ → OdOutput
fine_adjustment p = record { action = adjust_fine; setpoint = p % 2 ^ 32; value_phase_ctrl = pos 0 }

-- A control point is applied, and the control values read, which decide nothing: whether the measures
-- start.
unfoldable pub point : Site → ℕ → OscillatorCtrl → Serial Bool
unfolding apply_output get_ctrl
point site p ctrl =
    if site.is_running
    then (do
      ok ← apply_output site.device (fine_adjustment p)
      elim ok [
        | false ↦ return false
        | true ↦ (do
          get_ctrl site.coarse site.coarse_reset site.fine site.fine_reset ctrl
          return true)
      ])
    else return false

-- A write into memory from the start of the array on: one past its end makes the list longer.
unfoldable pub write_at : {F : Type 0} → List F → ℕ → F → List F
write_at [] zero m = m ∷ []
write_at [] (suc i) m = m ∷ write_at [] i m
write_at (x ∷ xs) zero m = m ∷ xs
write_at (x ∷ xs) (suc i) m = x ∷ write_at xs i m

-- `combine` is the sum of the phase error and the `qErr`, in thousandths, as a `float`.
module _ {F : Type 0} (combine : ℤ → ℤ → F) where
  -- A measure, none where the calibration is given up.
  unfoldable pub reading : Sample → Option F
  reading s =
      if s.is_running
      then elim s.status [
        | both_timestamps ↦ elim s.q_err [ none ↦ none | some q ↦ some (combine s.phase_error q) ]
        | _ ↦ none
      ]
      else none

  -- The measures from `j` on, `n` of them, written into the array from `first` on.
  unfoldable pub measure : (ℕ → Sample) → ℕ → ℕ → ℕ → List F → Option (List F)
  unfolding reading
  measure sample first zero j measures = some measures
  measure sample first (suc n) j measures = elim (reading (sample j)) [
    | none ↦ none
    | some m ↦ measure sample first n (suc j) (write_at measures (first + j) m)
  ]

  -- The control points from `i` on: `start` does what comes before the measures of a point, and
  -- tells whether they are made.
  unfoldable pub measure_points :
      (ℕ → ℕ → Serial Bool) → (ℕ → ℕ → Sample) → ℕ → List ℕ → ℕ → List F → Serial (Option (List F))
  unfolding measure
  measure_points start sample nb_calibration [] i measures = return (some measures)
  measure_points start sample nb_calibration (p ∷ ps) i measures = do
    ok ← start i p
    elim ok [
      | false ↦ return none
      | true ↦ elim (measure (sample i) (i * nb_calibration) nb_calibration 0 measures) [
        | none ↦ return none
        | some m ↦ measure_points start sample nb_calibration ps (suc i) m
      ]
    ]

  -- `mRo50_oscillator_calibrate`: the measures, none for NULL. `malloc` gives the two blocks, or not,
  -- and the measures with any content.
  unfoldable pub run_calibration :
      Bool → List F → (ℕ → Site) → ℕ → OscillatorCtrl → List ℕ → Serial (Option (List F))
  unfolding measure_points point
  run_calibration is_allocated content site nb_calibration ctrl ctrl_points =
      if is_allocated
      then measure_points (λ i p. point (site i) p ctrl) (λ i. (site i).sample) nb_calibration
          ctrl_points 0 content
      else return none
