-- ===== src/Daemon/Startup.antt =====
-- `main` of src/oscillatord.c before its loop.
use oscillatord.Base.{ℕ, Bool, true, false, not, ◌&&◌, ◌||◌, List, [], ◌∷◌, ◌++◌, if◌then◌else◌}
use oscillatord.Base.Int.{ℤ, pos, negsuc, ◌*ℤ◌, neg, ltb_ℤ, eqb_ℤ}
use oscillatord.Base.CError.{e_nosys}
use oscillatord.Structs.{TimeSpec, Status, both_timestamps}
use oscillatord.Clock.{phase_offset}
use oscillatord.Daemon.{Modes}

-- What the start-up is told. `is_running` is `loop` at its three tests, `set_time` what the two calls of
-- `gnss_set_ptp_clock_time` return, `phases` what the calls of `get_phase_error` give.
pub record Boot : Type 0 where
  pub has_path : Bool
  pub config : ℤ
  pub disciplining : Bool
  pub monitoring : Bool
  pub devices : ℤ
  pub monitoring_starts : Bool
  pub oscillator_made : Bool
  pub phase_error_result : ℤ
  pub clock_opens : Bool
  pub gnss_starts : Bool
  pub parameters : ℤ
  pub opposite_phase_error : Bool
  pub od_made : Bool
  pub phasemeter_starts : Bool
  pub is_running : ℕ → Bool
  pub set_time : ℕ → ℤ
  pub phases : List (Status × ℤ)
  pub adjust_time : ℤ
  pub has_pps : Bool

-- What is started, opened and set. Those of these calls that fail leave nothing behind.
pub data Effect : Type 0 where
  start_monitoring new_oscillator open_clock start_gnss new_od start_phasemeter : Effect
  set_ptp_clock start_ntp start_pps : Effect
  jump_clock : TimeSpec → Effect
  enable_pps : Bool → Effect

-- `error` with EXIT_FAILURE, or `return -EINVAL`.
pub data Exit : Type 0 where
  failure invalid : Exit

-- A part of the start-up: done, left, or waiting for the phasemeter.
pub data Start (A : Type 0) : Type 0 where
  up : List Effect → A → Start A
  left : Exit → List Effect → Start A
  waits : List Effect → Start A

infixl 5 ◌>>=◌ ◌>>◌
abbrev pub ◌>>=◌ : {A B : Type 0} → Start A → (A → Start B) → Start B
up es a >>= f = elim (f a) [
  | up fs b ↦ up (es ++ fs) b
  | left x fs ↦ left x (es ++ fs)
  | waits fs ↦ waits (es ++ fs)
]
left x es >>= f = left x es
waits es >>= f = waits es

abbrev pub ◌>>◌ : {A B : Type 0} → Start A → Start B → Start B
m >> k = m >>= λ a. k

abbrev pub return : {A : Type 0} → A → Start A
return a = up [] a

-- A call that starts something, where it succeeds.
abbrev pub starts : Effect → Bool → Exit → Start (Unit {0})
starts e true x = up (e ∷ []) tt
starts e false x = left x []

abbrev pub check : Bool → Exit → Start (Unit {0})
check true x = up [] tt
check false x = left x []

abbrev pub when : Bool → Start (Unit {0}) → Start (Unit {0})
when true m = m
when false m = up [] tt

abbrev pub emit : Effect → Start (Unit {0})
emit e = up (e ∷ []) tt

abbrev pub is_zero : ℤ → Bool
is_zero n = eqb_ℤ n (pos 0)

abbrev pub is_both : Status → Bool
is_both both_timestamps = true
is_both _ = false

-- `do { } while (phasemeter_status != PHASEMETER_BOTH_TIMESTAMPS)`
unfoldable pub first_phase : List (Status × ℤ) → Start ℤ
first_phase [] = waits []
first_phase ((st, phase) ∷ rest) = if is_both st then up [] phase else first_phase rest

abbrev pub sign_of : Bool → ℤ
sign_of opposite = if opposite then negsuc 0 else pos 1

-- `gnss_set_ptp_clock_time`, the n-th time.
abbrev pub set_clock : Boot → ℕ → Start (Unit {0})
set_clock b n = do emit set_ptp_clock; check (is_zero (b.set_time n)) invalid

-- The initial phase jump, and the time after it.
unfoldable pub align : Boot → Start (Unit {0})
unfolding first_phase
align b = do
  phase ← first_phase b.phases
  emit (jump_clock (phase_offset (neg phase *ℤ sign_of b.opposite_phase_error)))
  check (not (ltb_ℤ b.adjust_time (pos 0))) failure
  set_clock b 1

-- `if (disciplining_mode)` up to the first time of the clock, and whole.
unfoldable pub start_threads : Boot → Start (Unit {0})
start_threads b = do
  check (is_zero b.parameters) invalid
  starts new_od b.od_made failure
  starts start_phasemeter b.phasemeter_starts invalid
  when (b.is_running 0) (set_clock b 0)

unfoldable pub start_disciplining : Boot → Start (Unit {0})
unfolding start_threads align
start_disciplining b = do start_threads b; when (b.is_running 1) (align b)

-- `if (loop)` before the main loop.
unfoldable pub start_outputs : Boot → Start (Unit {0})
start_outputs b =
    when (b.is_running 2)
      (do emit (enable_pps true); emit start_ntp; when b.has_pps (emit start_pps))

-- `phase_error_supported` and `sign` as the start-up leaves them.
unfoldable pub modes_of : Boot → Modes
modes_of b =
    let supported = b.monitoring && not (eqb_ℤ b.phase_error_result e_nosys) in
    record {
      disciplining = b.disciplining;
      monitoring = b.monitoring;
      sign =
          if b.disciplining
          then sign_of b.opposite_phase_error
          else if supported
          then pos 1
          else pos 0;
      phase_error_supported = b.disciplining || supported;
    }

-- Up to the oscillator.
unfoldable pub start_devices : Boot → Start (Unit {0})
start_devices b = do
  check b.has_path failure
  check (is_zero b.config) failure
  check (b.disciplining || b.monitoring) invalid
  check (is_zero b.devices) failure
  when b.monitoring (starts start_monitoring b.monitoring_starts invalid)
  starts new_oscillator b.oscillator_made failure
  when b.clock_opens (emit open_clock)
  check (b.clock_opens || not b.disciplining) failure
  starts start_gnss b.gnss_starts failure

unfoldable pub boot : Boot → Start Modes
unfolding start_devices start_disciplining start_outputs modes_of
boot b = do
  start_devices b
  when b.disciplining (start_disciplining b)
  start_outputs b
  return (modes_of b)
