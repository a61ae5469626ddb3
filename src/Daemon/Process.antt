-- ===== src/Daemon/Process.antt =====
-- The calls of `od_process` in the main loop of src/oscillatord.c: one part of the body at a time.
use oscillatord.Base.{
  ◌≡◌, refl, ap, ◌∙◌, Bool, true, false, List, [], ◌∷◌, ◌++◌, arith, if◌then◌else◌,
}
use oscillatord.Structs.{OdInput}
use oscillatord.Daemon.{
  Loop, Modes, Answers, Call, process, adjust_clock, oscillator_calibrate, od_calibrate,
  write_parameters, disable_calibrate_first, apply_output, spawn_save, push_gnss_info, publish,
  Flow, falls, continues, breaks, exits, ◌>>=◌,
}
use oscillatord.Daemon.Discipline.{fill_input, run_process, prepare, finish, discipline}
use oscillatord.Daemon.Requests.{exchange}
use oscillatord.Daemon.Iterate.{push_fix, monitor_only, iterate}
use mathlib.Core.List.{append-nil}

-- The inputs that `od_process` is handed, in their order.
abbrev pub inputs : List Call → List OdInput
inputs [] = []
inputs (process i ∷ cs) = i ∷ inputs cs
inputs (_ ∷ cs) = inputs cs

abbrev pub state_of : Flow → Loop
state_of (falls s) = s
state_of (continues s) = s
state_of (breaks s) = s
state_of (exits s) = s

pub inputs-append : (cs ds : List Call) → inputs (cs ++ ds) ≡ inputs cs ++ inputs ds
inputs-append [] ds = refl
inputs-append (process i ∷ cs) ds = ap (λ l. i ∷ l) (inputs-append cs ds)
inputs-append (adjust_clock t ∷ cs) ds = inputs-append cs ds
inputs-append (oscillator_calibrate ∷ cs) ds = inputs-append cs ds
inputs-append (od_calibrate ∷ cs) ds = inputs-append cs ds
inputs-append (write_parameters ∷ cs) ds = inputs-append cs ds
inputs-append (disable_calibrate_first ∷ cs) ds = inputs-append cs ds
inputs-append (apply_output o ∷ cs) ds = inputs-append cs ds
inputs-append (spawn_save ∷ cs) ds = inputs-append cs ds
inputs-append (push_gnss_info ∷ cs) ds = inputs-append cs ds
inputs-append (publish o c ∷ cs) ds = inputs-append cs ds

inputs-prepare : (a : Answers) (s : Loop) → (prepare a s).1 ≡ []
unfolding prepare
inputs-prepare a s = ground arith

inputs-finish : (a : Answers) (s : Loop) → inputs (finish a s).1 ≡ []
unfolding finish
inputs-finish a s = ground arith

inputs-exchange : (m : Modes) (a : Answers) (s : Loop) → inputs (exchange m a s).1 ≡ []
unfolding exchange
inputs-exchange m a s = ground arith

-- The input that an iteration in disciplining mode hands over, if it comes to that.
abbrev pub handed : Modes → Answers → Flow → List OdInput
handed m a (falls t) = fill_input m a t ∷ []
handed m a _ = []

inputs-run_process :
    (m : Modes) (a : Answers) (t : Loop) → inputs (run_process m a t).1 ≡ fill_input m a t ∷ []
unfolding run_process
inputs-run_process m a t = ground arith

inputs-bind :
    (w : Flow × List Call) (f : Loop → Flow × List Call)
    → ((s : Loop) → inputs (f s).1 ≡ [])
    → inputs (w >>= f).1 ≡ inputs w.1
inputs-bind (falls s, cs) f h = rw (inputs-append, h s) (append-nil (inputs cs))
inputs-bind (continues s, cs) f h = refl
inputs-bind (breaks s, cs) f h = refl
inputs-bind (exits s, cs) f h = refl

inputs-first :
    (m : Modes) (a : Answers) (w : Flow × List Call)
    → w.1 ≡ []
    → inputs (w >>= run_process m a).1 ≡ handed m a w.0
inputs-first m a (falls s, cs) h = rw (h) (inputs-run_process m a s)
inputs-first m a (continues s, cs) h = ap inputs h
inputs-first m a (breaks s, cs) h = ap inputs h
inputs-first m a (exits s, cs) h = ap inputs h

pub inputs-discipline :
    (m : Modes) (a : Answers) (s : Loop) → inputs (discipline m a s).1 ≡ handed m a (prepare a s).0
unfolding discipline
inputs-discipline m a s =
    inputs-bind (prepare a s >>= run_process m a) (finish a) (inputs-finish a)
    ∙ inputs-first m a (prepare a s) (inputs-prepare a s)

inputs-push_fix : (m : Modes) (s : Loop) → inputs (push_fix m s).1 ≡ []
inputs-push_fix m s = ground arith

inputs-monitor_only : (m : Modes) (a : Answers) (s : Loop) → inputs (monitor_only m a s).1 ≡ []
unfolding monitor_only
inputs-monitor_only m a s = ground arith

pub inputs-iterate :
    (m : Modes) (a : Answers) (s : Loop)
    → inputs (iterate m a s).1 ≡ (if m.disciplining then handed m a (prepare a s).0 else [])
unfolding iterate
inputs-iterate m a s = split m.disciplining
  where
    split :
        (b : Bool)
        → inputs ((if b then discipline m a s else monitor_only m a s) >>= exchange m a).1
          ≡ (if b then handed m a (prepare a s).0 else [])
    split true =
        inputs-bind (discipline m a s) (exchange m a) (inputs-exchange m a)
        ∙ inputs-discipline m a s
    split false =
        inputs-bind (monitor_only m a s) (exchange m a) (inputs-exchange m a)
        ∙ inputs-monitor_only m a s
