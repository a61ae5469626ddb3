-- ===== src/Sa5x/Convergence.antt =====
-- How src/oscillators/sa5x_oscillator.c comes to show a clock as locked.
use oscillatord.Base.{
  ℕ, ◌-◌, ◌≤◌, ◌<◌, ◌≡◌, refl, ◌≢◌, ◌⊎◌, true, false, List, [], ◌∷◌, ◌++◌, arith,
}
use oscillatord.Base.Int.{ℤ, pos}
use oscillatord.Sa5x.State.{
  clock_calibrating, clock_lock, calibration, Sa5x, disciplining_phases, tau_interval, Command,
}
use oscillatord.Sa5x.Attributes.{Attributes, no_attributes, get_attributes, ctrl_mask}
use oscillatord.Sa5x.Ctrl.{
  needs_latch, in_holdover, is_out, update, Call, latch_if, react, get_ctrl, Event, called,
  on_event, run,
}
use oscillatord.Sa5x.Invariant.{IsSound, update-IsSound}

-- With GNSS and no latch, a clock that was not shown locked is shown locked by a call only if the
-- clock itself says that it is, it was being calibrated before, and the time of its phase is over.
pub lock_earned :
    (now : ℕ) (s : Sa5x) (a : Attributes)
    → in_holdover now s a ≡ false
    → s.clock_class ≢ clock_lock
    → (update now false s a).0.clock_class ≡ clock_lock
    → (a.disciplinelocked ≡ true)
      × (s.clock_class ≡ clock_calibrating)
      × (tau_interval s.disciplining_phase < now - s.disciplining_start)
unfolding update
lock_earned now s a h n e = ground arith

-- The clock has its PPS, follows it, and raises no alarm.
pub record Follows (a : Attributes) : Type 0 where
  pub locked : a.disciplinelocked ≡ true
  pub pps : a.ppsindetected ≡ true
  pub quiet : a.alarms ≡ 0

-- A clock with a fix that is being calibrated or is locked, `first` the time that this began.
pub record Steady (first : ℕ) (s : Sa5x) : Type 0 where
  pub sound : IsSound s
  pub fix : s.gnss_fix_status ≡ true
  pub in_sync : is_out s.clock_class ≡ false
  pub start : s.disciplining_start ≡ first

update-followed :
    (began now : ℕ) (s : Sa5x) (a : Attributes)
    → Steady began s
    → Follows a
    → let t = (update now false s a).0 in
      (t.gnss_fix_status ≡ true) × (is_out t.clock_class ≡ false) × (t.disciplining_start ≡ began)
unfolding update
update-followed began now s a h f = ground arith

update-Steady :
    (began now : ℕ) (s : Sa5x) (a : Attributes)
    → Steady began s
    → Follows a
    → Steady began (update now false s a).0
update-Steady began now s a h f =
    let (fix, in_sync, start) = update-followed began now s a h f in
    record {
      sound = update-IsSound now false s a h.sound;
      fix = fix;
      in_sync = in_sync;
      start = start;
    }

update-phase :
    (began now : ℕ) (s : Sa5x) (a : Attributes)
    → Steady began s
    → Follows a
    → s.disciplining_phase ≤ (update now false s a).0.disciplining_phase
unfolding update
update-phase began now s a h f = ground arith

update-late :
    (began now : ℕ) (s : Sa5x) (a : Attributes)
    → Steady began s
    → Follows a
    → tau_interval 1 < now - began
    → (s.disciplining_phase ≡ disciplining_phases - 1)
      ⊎ (s.disciplining_phase < (update now false s a).0.disciplining_phase)
unfolding update
update-late began now s a h f l = ground arith

react-update :
    (c : Call) (s : Sa5x) (err : ℤ) (a : Attributes) (sent : List Command)
    → err ≡ pos 0
    → Follows a
    → (react c s (err, a, sent)).1 ≡ (update c.now false s a).0
unfolding react needs_latch latch_if
react-update c s err a sent e f =
    let quiet : needs_latch c.now s a ≡ false = ground arith in rw (e, quiet) refl

module _ (garbage val : ℤ) where
  -- A call that reads such attributes.
  abbrev pub Reads : Call → Type 0
  Reads c =
      let (err, a, sent) = get_attributes garbage c.ask ctrl_mask no_attributes val in
      (err ≡ pos 0) × Follows a

  abbrev attributes_of : Call → Attributes
  attributes_of c = (get_attributes garbage c.ask ctrl_mask no_attributes val).1

  get_ctrl-update :
      (c : Call) (s : Sa5x)
      → Reads c
      → (get_ctrl garbage val c s).1 ≡ (update c.now false s (attributes_of c)).0
  unfolding get_ctrl
  get_ctrl-update c s h =
      let (err, a, sent) = get_attributes garbage c.ask ctrl_mask no_attributes val in
      react-update c s err a sent h.0 h.1

  abbrev pub AllRead : List Call → Type 0
  AllRead [] = Unit
  AllRead (c ∷ cs) = Reads c × AllRead cs

  abbrev pub calls : List Call → List Event
  calls [] = []
  calls (c ∷ cs) = called c ∷ calls cs

  get_ctrl-Steady :
      (began : ℕ) (c : Call) (s : Sa5x)
      → Steady began s
      → Reads c
      → Steady began (get_ctrl garbage val c s).1
  get_ctrl-Steady began c s h r =
      rw (get_ctrl-update c s r) (update-Steady began c.now s (attributes_of c) h r.1)

  run-Steady :
      (began : ℕ) (cs : List Call) (s : Sa5x)
      → Steady began s
      → AllRead cs
      → Steady began (run garbage val s (calls cs))
  unfolding run on_event
  run-Steady began [] s h r = h
  run-Steady began (c ∷ cs) s h r =
      run-Steady began cs (get_ctrl garbage val c s).1 (get_ctrl-Steady began c s h r.0) r.1

  run-append :
      (es fs : List Event) (s : Sa5x)
      → run garbage val s (es ++ fs) ≡ run garbage val (run garbage val s es) fs
  unfolding run
  run-append [] fs s = refl
  run-append (e ∷ es) fs s = run-append es fs (on_event garbage val s e)

  -- What the end looks like.
  pub record IsReady (s : Sa5x) : Type 0 where
    pub clock_class : s.clock_class ≡ clock_lock
    pub status : s.status ≡ calibration
    pub phase : s.disciplining_phase ≡ disciplining_phases - 1
    pub holdover_ready : s.holdover_ready ≡ true

  IsReady-Steady :
      (began : ℕ) (s : Sa5x)
      → Steady began s
      → s.disciplining_phase ≡ disciplining_phases - 1
      → IsReady s
  IsReady-Steady began s h e = ground arith

  two_late :
      (began : ℕ) (c d : Call) (s : Sa5x)
      → Steady began s
      → Reads c
      → Reads d
      → tau_interval 1 < c.now - began
      → tau_interval 1 < d.now - began
      → IsReady (get_ctrl garbage val d (get_ctrl garbage val c s).1).1
  two_late began c d s h r q l m =
      let t = (get_ctrl garbage val c s).1 in
      let u = (get_ctrl garbage val d t).1 in
      let ht = get_ctrl-Steady began c s h r in
      let hu = get_ctrl-Steady began d t ht q in
      IsReady-Steady began u hu (
        ground (
          arith,
          get_ctrl-update c s r,
          get_ctrl-update d t q,
          update-phase began c.now s (attributes_of c) h r.1,
          update-late began c.now s (attributes_of c) h r.1,
          update-phase began d.now t (attributes_of d) ht q.1,
          update-late began d.now t (attributes_of d) ht q.1,
          hu.sound.phase,
        ))

  -- A clock with a fix that is being calibrated, or is locked, stays so through any number of calls
  -- that read a followed PPS and no alarm; and two such calls more than 7200 s after the start of
  -- disciplining leave it locked, calibrated, in the last phase and ready for holdover.
  pub convergence_reached :
      (began : ℕ) (s : Sa5x) (cs : List Call) (c d : Call)
      → Steady began s
      → AllRead cs
      → Reads c
      → Reads d
      → tau_interval 1 < c.now - began
      → tau_interval 1 < d.now - began
      → Steady began (run garbage val s (calls cs))
        × IsReady (run garbage val s (calls cs ++ called c ∷ called d ∷ []))
  unfolding run on_event
  convergence_reached began s cs c d h a r q l m =
      let t = run garbage val s (calls cs) in
      let ht = run-Steady began cs s h a in
      (
        ht,
        rw (run-append (calls cs) (called c ∷ called d ∷ []) s) (two_late began c d t ht r q l m),
      )
