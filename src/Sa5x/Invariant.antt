-- ===== src/Sa5x/Invariant.antt =====
-- What always holds of the status that src/oscillators/sa5x_oscillator.c shows.
use oscillatord.Base.{ℕ, ◌-◌, ◌<◌, ◌≡◌, ◌≢◌, ◌↔◌, Bool, true, false, List, [], ◌∷◌, arith}
use oscillatord.Base.Int.{ℤ}
use oscillatord.Sa5x.State.{
  ClockClass, clock_uncalibrated, clock_calibrating, clock_holdover, clock_lock, DiscipliningState,
  init, tracking, holdover, calibration, Sa5x, disciplining_phases, Command, start, push_gnss_info,
}
use oscillatord.Sa5x.Attributes.{Attributes, no_attributes, get_attributes, ctrl_mask}
use oscillatord.Sa5x.Ctrl.{
  needs_latch, update, Call, latch_if, react, get_ctrl, Event, called, pushed, on_event, run,
}

-- The clock class and the disciplining status tell the same story.
abbrev pub Agree : ClockClass → DiscipliningState → Type 0
Agree clock_lock calibration = Unit
Agree clock_calibrating init = Unit
Agree clock_calibrating tracking = Unit
Agree clock_holdover holdover = Unit
Agree clock_uncalibrated holdover = Unit
Agree c d = ⊥

pub record IsSound (s : Sa5x) : Type 0 where
  pub phase : s.disciplining_phase < disciplining_phases
  pub lock : s.clock_class ≡ clock_lock → s.disciplining_phase ≢ 0
  pub calibrating : s.clock_class ≡ clock_calibrating → s.disciplining_phase ≡ 0
  pub ready : (s.holdover_ready ≡ true) ↔ (s.disciplining_phase ≡ disciplining_phases - 1)
  pub agree : Agree s.clock_class s.status

pub update-IsSound :
    (now : ℕ) (latched : Bool) (s : Sa5x) (a : Attributes)
    → IsSound s
    → IsSound (update now latched s a).0
unfolding update
update-IsSound now latched s a h = ground arith

start-IsSound : (latch_fixed : Bool) (now : ℕ) → IsSound (start latch_fixed now).0
unfolding start
start-IsSound latch_fixed now = ground arith

latched-IsSound : (s : Sa5x) (n : ℕ) → IsSound s → IsSound (record s { mac_last_latch = n })
latched-IsSound s n h = record {
  phase = h.phase;
  lock = h.lock;
  calibrating = h.calibrating;
  ready = h.ready;
  agree = h.agree;
}

latch_if-IsSound :
    (wanted : Bool) (c : Call) (s : Sa5x) (a : Attributes)
    → IsSound s
    → IsSound (latch_if wanted c s a).0
unfolding latch_if
latch_if-IsSound false c s a h = h
latch_if-IsSound true c s a h = latched-IsSound s _ h

react-IsSound :
    (c : Call) (s : Sa5x) (err : ℤ) (a : Attributes) (sent : List Command)
    → IsSound s
    → IsSound (react c s (err, a, sent)).1
unfolding react
react-IsSound c s err a sent h =
    let wanted = needs_latch c.now s a in
    let t = (latch_if wanted c s a).0 in
    ground (arith, update-IsSound c.now wanted t a (latch_if-IsSound wanted c s a h))

module _ (garbage val : ℤ) where
  get_ctrl-IsSound : (c : Call) (s : Sa5x) → IsSound s → IsSound (get_ctrl garbage val c s).1
  unfolding get_ctrl
  get_ctrl-IsSound c s h =
      let (err, a, sent) = get_attributes garbage c.ask ctrl_mask no_attributes val in
      react-IsSound c s err a sent h

  run_keeps_invariant : (s : Sa5x) (es : List Event) → IsSound s → IsSound (run garbage val s es)
  unfolding run on_event push_gnss_info
  run_keeps_invariant s [] h = h
  run_keeps_invariant s (called c ∷ es) h =
      run_keeps_invariant (get_ctrl garbage val c s).1 es (get_ctrl-IsSound c s h)
  run_keeps_invariant s (pushed fix_ok has_time now ∷ es) h =
      run_keeps_invariant (push_gnss_info fix_ok has_time now s) es (ground arith)

  -- Whatever the clock answers and whatever the receiver says, from the start on: the phase is in
  -- range, the class is LOCK only after the first phase and CALIBRATING only in it, the clock is shown ready for holdover
  -- exactly in the last phase, and the clock class and the disciplining status go together.
  pub run-IsSound :
      (latch_fixed : Bool) (now : ℕ) (es : List Event)
      → IsSound (run garbage val (start latch_fixed now).0 es)
  run-IsSound latch_fixed now es =
      run_keeps_invariant (start latch_fixed now).0 es (start-IsSound latch_fixed now)
