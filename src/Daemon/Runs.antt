-- ===== src/Daemon/Runs.antt =====
-- Runs of the main loop of src/oscillatord.c: what the monitoring requests do to the inputs of the
-- disciplining algorithm over any number of iterations.
use oscillatord.Base.{◌≡◌, refl, sym, ◌∙◌, ◌≢◌, inl, inr, true, false, List, [], ◌∷◌, ◌++◌, arith}
use oscillatord.Structs.{phase_jump, OdInput, Request, calibration, fake_holdover_stop}
use oscillatord.Daemon.{Loop, Modes, Answers, Call, Flow, falls, continues, breaks, exits}
use oscillatord.Daemon.Iterate.{iterate, follow, run}
use oscillatord.Daemon.Process.{inputs}
use oscillatord.Daemon.Flags.{
  Goes, holdover_stays, request_waits, request_not_invented, request_used, jump_marks, marked_skips,
  Single, inputs-Single,
}
use mathlib.Core.Path.{subst}

-- The inputs of `od_process` over a run.
abbrev pub all_inputs : List (List Call) → List OdInput
all_inputs [] = []
all_inputs (cs ∷ css) = inputs cs ++ all_inputs css

abbrev pub run_inputs : Modes → List Answers → Loop → List OdInput
run_inputs m as_ s = all_inputs (run m as_ s).calls

-- No iteration of the run brings the request.
abbrev pub Without : Request → List Answers → Type 0
Without r [] = Unit {0}
Without r (a ∷ rest) = (a.request ≢ r) × Without r rest

abbrev pub AllInvalid : List OdInput → Type 0
AllInvalid [] = Unit {0}
AllInvalid (i ∷ is) = (i.valid ≡ false) × AllInvalid is

abbrev pub NoneRequested : List OdInput → Type 0
NoneRequested [] = Unit {0}
NoneRequested (i ∷ is) = (i.calibration_requested ≡ false) × NoneRequested is

-- The first of the inputs asks for the calibration, and no other does.
abbrev pub RequestedOnce : List OdInput → Type 0
RequestedOnce [] = Unit {0}
RequestedOnce (i ∷ is) = (i.calibration_requested ≡ true) × NoneRequested is

AllInvalid-append : (is js : List OdInput) → AllInvalid is → AllInvalid js → AllInvalid (is ++ js)
AllInvalid-append [] js h k = k
AllInvalid-append (i ∷ is) js h k = (h.0, AllInvalid-append is js h.1 k)

NoneRequested-append :
    (is js : List OdInput) → NoneRequested is → NoneRequested js → NoneRequested (is ++ js)
NoneRequested-append [] js h k = k
NoneRequested-append (i ∷ is) js h k = (h.0, NoneRequested-append is js h.1 k)

Single-AllInvalid :
    (m : Modes) (a : Answers) (s : Loop) (is : List OdInput)
    → s.fake_holdover_activated ≡ true
    → Single m a s is
    → AllInvalid is
Single-AllInvalid m a s [] h k = tt
Single-AllInvalid m a s (i ∷ is) h k = rw (k.0) (ground arith, tt)

Single-NoneRequested :
    (m : Modes) (a : Answers) (s : Loop) (is : List OdInput)
    → s.input.calibration_requested ≡ false
    → Single m a s is
    → NoneRequested is
Single-NoneRequested m a s [] h k = tt
Single-NoneRequested m a s (i ∷ is) h k = rw (k.0) (k.1 ∙ h, tt)

-- The rest of a run after an iteration, by how it ended.
after : Modes → List Answers → Flow → List OdInput
after m rest (falls t) = run_inputs m rest t
after m rest (continues t) = run_inputs m rest t
after m rest (breaks t) = []
after m rest (exits t) = []

run_inputs-cons :
    (m : Modes) (a : Answers) (rest : List Answers) (s : Loop)
    → run_inputs m (a ∷ rest) s ≡ inputs (iterate m a s).1 ++ after m rest (iterate m a s).0
unfolding run after
run_inputs-cons m a rest s = follow_lem (iterate m a s)
  where
    follow_lem :
        (w : Flow × List Call)
        → all_inputs (follow w (run m rest)).calls ≡ inputs w.1 ++ after m rest w.0
    follow_lem (falls t, cs) = refl
    follow_lem (continues t, cs) = refl
    follow_lem (breaks t, cs) = refl
    follow_lem (exits t, cs) = refl

after_cases :
    (P : List OdInput → Type 0) (m : Modes) (rest : List Answers) (w : Flow)
    → P []
    → ((t : Loop) → Goes w t → P (run_inputs m rest t))
    → P (after m rest w)
unfolding after
after_cases P m rest (falls t) empty next = next t (inl refl)
after_cases P m rest (continues t) empty next = next t (inr refl)
after_cases P m rest (breaks t) empty next = empty
after_cases P m rest (exits t) empty next = empty

-- From the start of fake holdover, and until it is stopped, every input says that GNSS is invalid.
pub holdover_invalidates :
    (m : Modes) (as_ : List Answers) (s : Loop)
    → s.fake_holdover_activated ≡ true
    → Without fake_holdover_stop as_
    → AllInvalid (run_inputs m as_ s)
unfolding run
holdover_invalidates m [] s h r = tt
holdover_invalidates m (a ∷ rest) s h r =
    let next : (t : Loop) → Goes (iterate m a s).0 t → AllInvalid (run_inputs m rest t) =
      λ t g. holdover_invalidates m rest t (holdover_stays m a s t g r.0 h) r.1 in
    subst AllInvalid (sym (run_inputs-cons m a rest s)) (
      AllInvalid-append (inputs (iterate m a s).1) (after m rest (iterate m a s).0)
        (Single-AllInvalid m a s _ h (inputs-Single m a s))
        (after_cases AllInvalid m rest (iterate m a s).0 tt next))

-- With no request pending and none coming, no input asks for a calibration.
pub calibration_not_invented :
    (m : Modes) (as_ : List Answers) (s : Loop)
    → s.input.calibration_requested ≡ false
    → Without calibration as_
    → NoneRequested (run_inputs m as_ s)
unfolding run
calibration_not_invented m [] s h r = tt
calibration_not_invented m (a ∷ rest) s h r =
    let next : (t : Loop) → Goes (iterate m a s).0 t → NoneRequested (run_inputs m rest t) =
      λ t g. calibration_not_invented m rest t (request_not_invented m a s t g r.0 h) r.1 in
    subst NoneRequested (sym (run_inputs-cons m a rest s)) (
      NoneRequested-append (inputs (iterate m a s).1) (after m rest (iterate m a s).0)
        (Single-NoneRequested m a s _ h (inputs-Single m a s))
        (after_cases NoneRequested m rest (iterate m a s).0 tt next))

RequestedOnce-append :
    (m : Modes) (a : Answers) (s : Loop) (is js : List OdInput)
    → s.input.calibration_requested ≡ true
    → Single m a s is
    → (is ≡ [] → RequestedOnce js)
    → (is ≢ [] → NoneRequested js)
    → RequestedOnce (is ++ js)
RequestedOnce-append m a s [] js h k empty used = empty refl
RequestedOnce-append m a s (i ∷ is) js h k empty used = rw (k.0) (k.1 ∙ h, used (λ e. cc))

-- A pending request, with no other coming, reaches the next input that is handed to `od_process`,
-- however many iterations are cut short before, and no input after that one.
pub calibration_delivered_once :
    (m : Modes) (as_ : List Answers) (s : Loop)
    → s.input.calibration_requested ≡ true
    → Without calibration as_
    → RequestedOnce (run_inputs m as_ s)
unfolding run
calibration_delivered_once m [] s h r = tt
calibration_delivered_once m (a ∷ rest) s h r =
    let waits : (n : inputs (iterate m a s).1 ≡ []) (t : Loop)
        → Goes (iterate m a s).0 t
        → RequestedOnce (run_inputs m rest t) =
      λ n t g. calibration_delivered_once m rest t (request_waits m a s t g n h) r.1 in
    let used : (n : inputs (iterate m a s).1 ≢ []) (t : Loop)
        → Goes (iterate m a s).0 t
        → NoneRequested (run_inputs m rest t) =
      λ n t g. calibration_not_invented m rest t (request_used m a s t g r.0 n) r.1 in
    subst RequestedOnce (sym (run_inputs-cons m a rest s)) (
      RequestedOnce-append m a s (inputs (iterate m a s).1) (after m rest (iterate m a s).0) h
        (inputs-Single m a s) (λ n. after_cases RequestedOnce m rest (iterate m a s).0 tt (waits n))
        (λ n. after_cases NoneRequested m rest (iterate m a s).0 tt (used n)))

-- Where `od_process` answers a phase jump, the next iteration does not call it.
pub jump_skips_next :
    (m : Modes) (a b : Answers) (s t : Loop)
    → Goes (iterate m a s).0 t
    → inputs (iterate m a s).1 ≢ []
    → t.output.action ≡ phase_jump
    → inputs (iterate m b t).1 ≡ []
jump_skips_next m a b s t g n j = marked_skips m b t (jump_marks m a s t g n j)
