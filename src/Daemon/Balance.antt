-- ===== src/Daemon/Balance.antt =====
-- What the start-up of src/oscillatord.c does, and what its end undoes.
use oscillatord.Base.{
  ◌≡◌, refl, sym, ap, ◌∙◌, Bool, true, false, List, [], ◌∷◌, ◌++◌, arith, if◌then◌else◌,
}
use oscillatord.Base.Int.{ℤ, pos, ◌*ℤ◌, neg}
use oscillatord.Structs.{Status}
use oscillatord.Clock.{phase_offset}
use oscillatord.Daemon.Startup.{
  Boot, Effect, start_monitoring, new_oscillator, open_clock, start_gnss, new_od, start_phasemeter,
  set_ptp_clock, start_ntp, start_pps, jump_clock, enable_pps, Start, up, left, waits, ◌>>=◌, when,
  first_phase, sign_of, align, start_threads, start_disciplining, start_outputs, modes_of,
  start_devices, boot,
}
use oscillatord.Daemon.{Modes}
use oscillatord.Daemon.Shutdown.{
  Undo, stop_pps, stop_gnss, stop_phasemeter, destroy_od, stop_monitoring, close_clock,
  destroy_oscillator, returned, any, shut_down,
}
use mathlib.Core.List.{append-nil}

abbrev only_effect : Effect → Bool → List Effect
only_effect e true = e ∷ []
only_effect e false = []

bound :
    {B : Type 0} (o : Start B) (fs es : List Effect) (b : B)
    → (elim o as (λ x. Start B) [
      | up gs c ↦ up (fs ++ gs) c
      | left x gs ↦ left x (fs ++ gs)
      | waits gs ↦ waits (fs ++ gs)
    ])
      ≡ up es b
    → (gs : List Effect) × (o ≡ up gs b) × (es ≡ fs ++ gs)
bound (up gs c) fs es b h = (gs, cc, cc)
bound (left x gs) fs es b h = cc
bound (waits gs) fs es b h = cc

bind-up :
    {A B : Type 0} (m : Start A) (f : A → Start B) (es : List Effect) (b : B)
    → (m >>= f) ≡ up es b
    → (fs : List Effect) × (a : A) × (gs : List Effect) × (m ≡ up fs a)
      × (f a ≡ up gs b)
      × (es ≡ fs ++ gs)
bind-up (up fs a) f es b h = let (gs, e, k) = bound (f a) fs es b h in (fs, a, gs, refl, e, k)
bind-up (left x fs) f es b h = cc
bind-up (waits fs) f es b h = cc

devices_effects :
    (b : Boot) (es : List Effect)
    → start_devices b ≡ up es tt
    → es
      ≡ only_effect start_monitoring b.monitoring
        ++ new_oscillator ∷ only_effect open_clock b.clock_opens
        ++ start_gnss ∷ []
unfolding start_devices
devices_effects b es h = ground arith

first_phase-effects :
    (phases : List (Status × ℤ)) (es : List Effect) (phase : ℤ)
    → first_phase phases ≡ up es phase
    → es ≡ []
unfolding first_phase
first_phase-effects [] es phase h = cc
first_phase-effects ((st, p) ∷ rest) es phase h = ground (arith, first_phase-effects rest es phase)

-- The jump, and the time of the clock after it.
abbrev pub jump : Boot → ℤ → List Effect
jump b phase =
    jump_clock (phase_offset (neg phase *ℤ sign_of b.opposite_phase_error)) ∷ set_ptp_clock ∷ []

align_effects :
    (b : Boot) (es : List Effect)
    → align b ≡ up es tt
    → (phase : ℤ) × (first_phase b.phases ≡ up [] phase) × (es ≡ jump b phase)
unfolding align
align_effects b es h =
    let (fs, phase, gs, e, k, sum) = bind-up (first_phase b.phases) _ es tt h in
    let none_yet : fs ≡ [] = first_phase-effects b.phases fs phase e in
    (phase, e ∙ ap (λ l. up l phase) none_yet, ground (arith, k, sum, none_yet))

-- What the start-up for disciplining does.
abbrev pub disciplining_effects : Boot → ℤ → List Effect
disciplining_effects b phase =
    new_od ∷ start_phasemeter ∷ only_effect set_ptp_clock (b.is_running 0)
    ++ (if b.is_running 1 then jump b phase else [])

threads_effects :
    (b : Boot) (es : List Effect)
    → start_threads b ≡ up es tt
    → es ≡ new_od ∷ start_phasemeter ∷ only_effect set_ptp_clock (b.is_running 0)
unfolding start_threads
threads_effects b es h = ground arith

when_effects :
    (b : Boot) (running : Bool) (es : List Effect)
    → when running (align b) ≡ up es tt
    → (phase : ℤ) × (running ≡ true → first_phase b.phases ≡ up [] phase)
      × (es ≡ (if running then jump b phase else []))
when_effects b true es h = let (phase, e, k) = align_effects b es h in (phase, (λ t. e), k)
when_effects b false es h = (pos 0, (λ t. cc), cc)

start_disciplining_effects :
    (b : Boot) (es : List Effect)
    → start_disciplining b ≡ up es tt
    → (phase : ℤ) × (b.is_running 1 ≡ true → first_phase b.phases ≡ up [] phase)
      × (es ≡ disciplining_effects b phase)
unfolding start_disciplining
start_disciplining_effects b es h =
    let (fs, u, gs, e, k, sum) = bind-up (start_threads b) _ es tt h in
    let (phase, first, l) = when_effects b (b.is_running 1) gs k in
    (
      phase,
      first,
      sum
          ∙ ap (λ x. x ++ gs) (threads_effects b fs e)
          ∙ ap (λ x. new_od ∷ start_phasemeter ∷ only_effect set_ptp_clock (b.is_running 0) ++ x) l,
    )

outputs_effects :
    (b : Boot) (es : List Effect)
    → start_outputs b ≡ up es tt
    → es ≡ (
        if b.is_running 2
        then enable_pps true ∷ start_ntp ∷ only_effect start_pps b.has_pps
        else [])
unfolding start_outputs
outputs_effects b es h = ground arith

disciplining_part :
    (b : Boot) (wanted : Bool) (es : List Effect)
    → when wanted (start_disciplining b) ≡ up es tt
    → (phase : ℤ) × (wanted ≡ true → b.is_running 1 ≡ true → first_phase b.phases ≡ up [] phase)
      × (es ≡ (if wanted then disciplining_effects b phase else []))
disciplining_part b true es h =
    let (phase, first, k) = start_disciplining_effects b es h in (phase, (λ t. first), k)
disciplining_part b false es h = (pos 0, (λ t r. cc), cc)

abbrev pub devices : Boot → List Effect
devices b =
    only_effect start_monitoring b.monitoring
    ++ new_oscillator ∷ only_effect open_clock b.clock_opens
    ++ start_gnss ∷ []

abbrev pub outputs : Boot → List Effect
outputs b =
    if b.is_running 2 then enable_pps true ∷ start_ntp ∷ only_effect start_pps b.has_pps else []

-- A start-up that gets to the loop has started the monitoring thread, the oscillator, the clock and the
-- GNSS thread that it is asked for; in disciplining mode then the algorithm and the phasemeter, and the
-- clock is set, shifted by the first phase error of both timestamps with the sign of the loop turned,
-- and set again, as far as the program is not told to end meanwhile; and then the outputs.
pub boot_effects :
    (b : Boot) (es : List Effect) (m : Modes)
    → boot b ≡ up es m
    → (m ≡ modes_of b)
      × ((phase : ℤ) × (b.disciplining ≡ true
            → b.is_running 1 ≡ true
            → first_phase b.phases ≡ up [] phase)
          × (es
              ≡ devices b
                ++ ((if b.disciplining then disciplining_effects b phase else []) ++ outputs b)))
unfolding boot
boot_effects b es m h =
    let (fs, u, gs, e, k, sum) = bind-up (start_devices b) _ es m h in
    let (is, v, js, i, l, rest) = bind-up (when b.disciplining (start_disciplining b)) _ gs m k in
    let (os, w, qs, o, q, end) = bind-up (start_outputs b) _ js m l in
    let (phase, first, body) = disciplining_part b b.disciplining is i in
    let no_more : qs ≡ [] = cc in
    let tail : js ≡ outputs b =
      end ∙ ap (λ l. os ++ l) no_more ∙ append-nil os ∙ outputs_effects b os o in
    let head : fs ≡ devices b = devices_effects b fs e in
    (
      (cc),
      (
        phase,
        first,
        sum
            ∙ ap (λ l. l ++ gs) head
            ∙ ap (λ l. devices b ++ l)
                (rest
                  ∙ ap (λ l. l ++ js) body
                  ∙ ap (λ l. (if b.disciplining then disciplining_effects b phase else []) ++ l)
                      tail),
      ),
    )

-- The parts of the program that are started and stopped. The shared memory of NTP, which `start_ntp`
-- gets, is not one of them: no `Undo` gives it back.
pub data Part : Type 0 where
  monitoring_part oscillator_part clock_part gnss_part od_part phasemeter_part pps_part : Part

abbrev pub starts_part : Part → Effect → Bool
starts_part monitoring_part start_monitoring = true
starts_part oscillator_part new_oscillator = true
starts_part clock_part open_clock = true
starts_part gnss_part start_gnss = true
starts_part od_part new_od = true
starts_part phasemeter_part start_phasemeter = true
starts_part pps_part start_pps = true
starts_part p e = false

abbrev pub stops_part : Part → Undo → Bool
stops_part monitoring_part stop_monitoring = true
stops_part oscillator_part destroy_oscillator = true
stops_part clock_part close_clock = true
stops_part gnss_part stop_gnss = true
stops_part od_part destroy_od = true
stops_part phasemeter_part stop_phasemeter = true
stops_part pps_part stop_pps = true
stops_part p u = false

abbrev effects : Boot → ℤ → List Effect
effects b phase =
    devices b ++ ((if b.disciplining then disciplining_effects b phase else []) ++ outputs b)

effects_stopped :
    (b : Boot) (phase : ℤ) (has_thread got : Bool) (us : List Undo) (p : Part)
    → shut_down (modes_of b) (effects b phase) has_thread got ≡ returned us
    → any (starts_part p) (effects b phase) ≡ true
    → any (stops_part p) us ≡ true
unfolding shut_down modes_of
effects_stopped b phase has_thread got us monitoring_part k h = ground arith
effects_stopped b phase has_thread got us oscillator_part k h = ground arith
effects_stopped b phase has_thread got us clock_part k h = ground arith
effects_stopped b phase has_thread got us gnss_part k h = ground arith
effects_stopped b phase has_thread got us od_part k h = ground arith
effects_stopped b phase has_thread got us phasemeter_part k h = ground arith
effects_stopped b phase has_thread got us pps_part k h = ground arith

-- Of the monitoring thread, the oscillator, the PTP clock, the GNSS session, the disciplining algorithm,
-- the phasemeter and the PPS thread, each that a start-up that got to the loop has started is stopped by
-- a regular end of the program. Nothing is said of the shared memory of NTP (`start_ntp`), which no
-- call ends.
pub all_stopped :
    (b : Boot) (es : List Effect) (m : Modes) (has_thread got : Bool) (us : List Undo) (p : Part)
    → boot b ≡ up es m
    → shut_down m es has_thread got ≡ returned us
    → any (starts_part p) es ≡ true
    → any (stops_part p) us ≡ true
all_stopped b es m has_thread got us p h k started =
    let (modes, (phase, first, all)) = boot_effects b es m h in
    effects_stopped b phase has_thread got us p
      (ap (λ l. shut_down (modes_of b) l has_thread got) (sym all)
        ∙ ap (λ n. shut_down n es has_thread got) (sym modes)
        ∙ k)
      (ap (any (starts_part p)) (sym all) ∙ started)
