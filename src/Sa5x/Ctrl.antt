-- ===== src/Sa5x/Ctrl.antt =====
-- `sa5x_oscillator_get_ctrl` of src/oscillators/sa5x_oscillator.c.
use oscillatord.Base.{
  ℕ, ◌+◌, ◌-◌, ◌*◌, ◌^◌, Bool, true, false, not, ◌&&◌, ◌||◌, none, some, List, [], ◌∷◌, ◌++◌, ltb,
  leb, ◌==◌, if◌then◌else◌,
}
use oscillatord.Base.Int.{ℤ, pos, abs, eqb_ℤ}
use oscillatord.Base.Words.{residue32}
use oscillatord.Structs.{OscillatorCtrl}
use oscillatord.Sa5x.State.{
  ClockClass, clock_uncalibrated, clock_calibrating, clock_holdover, clock_lock, tracking, holdover,
  calibration, Sa5x, disciplining_phases, tau_value, tau_interval, Command, set_tau, push_gnss_info,
}
use oscillatord.Sa5x.Attributes.{
  Query, Reply, Attributes, no_attributes, has_bit, get_attributes, ctrl_mask,
}
use oscillatord.Sa5x.Latch.{Attempt, run_latch}

-- DIGITAL_TUNING_MAX and NO_GNSS_FIX_TIMEOUT
abbrev pub digital_tuning_max : ℕ
digital_tuning_max = 20000000

abbrev pub no_gnss_fix_timeout : ℕ
no_gnss_fix_timeout = 9

-- Whether the base frequency has to be latched; TAU is adjusted with it.
unfoldable pub needs_latch : ℕ → Sa5x → Attributes → Bool
needs_latch now s a =
    if not (a.alarms == 0)
    then has_bit a.alarms 18 && eqb_ℤ a.lastcorrection (pos 0) && not s.latch_fixed
    else eqb_ℤ a.lastcorrection (pos 0)
      && not a.disciplinelocked
      && (abs a.digitaltuning == digital_tuning_max)
      && ltb (tau_interval 0) (now - s.mac_last_latch)
      && not s.latch_fixed

-- No PPS, or an alarm that says so.
abbrev pub lost_pps : Attributes → Bool
lost_pps a = not a.ppsindetected || has_bit a.alarms 17

-- `holdover`
unfoldable pub in_holdover : ℕ → Sa5x → Attributes → Bool
in_holdover now s a =
    (not s.gnss_fix_status && leb no_gnss_fix_timeout (now - s.gnss_last_fix)) || lost_pps a

abbrev pub is_calibrating : ClockClass → Bool
is_calibrating clock_calibrating = true
is_calibrating _ = false

-- SA5X_CLOCK_CLASS_HOLDOVER or SA5X_CLOCK_CLASS_UNCALIBRATED
abbrev pub is_out : ClockClass → Bool
is_out clock_holdover = true
is_out clock_uncalibrated = true
is_out _ = false

-- The branch for holdover.
unfoldable pub enter_holdover : ℕ → Sa5x → Sa5x
enter_holdover now s = record s {
  clock_class =
      if is_calibrating s.clock_class || ltb (24 * 3600) (now - s.gnss_last_fix)
      then clock_uncalibrated
      else clock_holdover;
  status = holdover;
}

abbrev pub restart : ℕ → Sa5x → Sa5x
restart now s = record s {
  clock_class = clock_calibrating;
  status = tracking;
  disciplining_phase = 0;
  disciplining_start = now;
}

-- The branch for a clock that follows its PPS: the state, and `adjust_tau`.
unfoldable pub follow : ℕ → Sa5x → Attributes → Sa5x × Bool
follow now s a =
    let back = is_out s.clock_class in
    let t = if back then restart now s else s in
    if a.disciplinelocked
    then (t, back)
    else if is_calibrating t.clock_class
    then (record t { disciplining_start = now }, back)
    else (restart now t, true)

-- The three branches, with `latch` and `adjust_tau` as they are before them.
unfoldable pub classify : ℕ → Bool → Sa5x → Attributes → Sa5x × Bool
unfolding in_holdover enter_holdover follow
classify now latched s a =
    if in_holdover now s a
    then (enter_holdover now s, latched)
    else if latched
    then (record s { clock_class = clock_uncalibrated; status = holdover }, latched)
    else follow now s a

-- The next phase, when its time has come.
unfoldable pub advance : ℕ → Sa5x × Bool → Sa5x × Bool
advance now (s, adjust) =
    if ltb s.disciplining_phase (disciplining_phases - 1)
      && ltb (tau_interval s.disciplining_phase) (now - s.disciplining_start)
    then (record s { disciplining_phase = s.disciplining_phase + 1 }, true)
    else (s, adjust)

-- `if (adjust_tau)`: the command, and the status that goes with the phase.
unfoldable pub apply_tau : Sa5x × Bool → Sa5x × List Command
apply_tau (s, false) = (s, [])
apply_tau (s, true) = (
  record s {
    clock_class = if s.disciplining_phase == 0 then clock_calibrating else clock_lock;
    status = if s.disciplining_phase == 0 then tracking else calibration;
    holdover_ready = s.disciplining_phase == (disciplining_phases - 1);
  },
  set_tau (tau_value s.disciplining_phase) ∷ [],
)

-- What the function does with attributes that it could read, once the latch is over. `latched` is
-- whether one was wanted.
unfoldable pub update : ℕ → Bool → Sa5x → Attributes → Sa5x × List Command
unfolding classify advance apply_tau
update now latched s a = apply_tau (advance now (classify now latched s a))

-- What the call is told: the time, the queries, the attempts to switch disciplining off, what comes
-- of the latch, the time after it, and what the local `val` of the latch holds at first.
pub record Call : Type 0 where
  pub now : ℕ
  pub ask : Query → Reply
  pub try : ℕ → Attempt
  pub outcome : Reply
  pub latch_time : ℕ
  pub latch_val : ℤ

-- `if (latch && sa5x_oscillator_latch(sa5x, &a))`: the state, and the commands.
unfoldable pub latch_if : Bool → Call → Sa5x → Attributes → Sa5x × List Command
unfolding run_latch
latch_if false c s a = (s, [])
latch_if true c s a =
    let (at_time, cs) = run_latch c.try c.outcome c.latch_time a.disciplining c.latch_val in
    (record s { mac_last_latch = elim at_time [ none ↦ s.mac_last_latch | some n ↦ n ] }, cs)

-- `-1` as a `uint32_t`
abbrev pub all_ones : ℕ
all_ones = 2 ^ 32 - 1

-- `sa5x_oscillator_get_ctrl` once the attributes are read: `*ctrl`, the state, and the commands. The
-- result is always 0.
unfoldable pub react :
    Call → Sa5x → ℤ × Attributes × List Command → OscillatorCtrl × Sa5x × List Command
unfolding needs_latch latch_if update
react c s (err, a, sent) =
    let wanted = needs_latch c.now s a in
    let (t, latched) = latch_if wanted c s a in
    let (u, cs) = update c.now wanted t a in
    if eqb_ℤ err (pos 0)
    then (
      record { fine_ctrl = residue32 a.lastcorrection; coarse_ctrl = a.tau },
      u,
      sent ++ latched ++ cs,
    )
    else (record { fine_ctrl = all_ones; coarse_ctrl = 0 }, s, sent)

-- `sa5x_oscillator_get_ctrl`. `garbage` and `val` are what the locals of the queries hold before
-- they are set.
unfoldable pub get_ctrl : ℤ → ℤ → Call → Sa5x → OscillatorCtrl × Sa5x × List Command
unfolding react
get_ctrl garbage val c s = react c s (get_attributes garbage c.ask ctrl_mask no_attributes val)

-- What the main loop does with the driver: control values are read, or GNSS news are pushed.
pub data Event : Type 0 where
  called : Call → Event
  pushed : Bool → Bool → ℕ → Event

-- `garbage` and `val` are what the locals of the queries hold before they are set.
module _ (garbage val : ℤ) where
  unfoldable pub on_event : Sa5x → Event → Sa5x
  unfolding get_ctrl push_gnss_info
  on_event s (called c) = (get_ctrl garbage val c s).1
  on_event s (pushed fix_ok has_time now) = push_gnss_info fix_ok has_time now s

  unfoldable pub run : Sa5x → List Event → Sa5x
  unfolding on_event
  run s [] = s
  run s (e ∷ es) = run (on_event s e) es
