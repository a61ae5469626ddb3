-- ===== src/Sa3x.antt =====
-- src/oscillators/sa3x_oscillator.c: the driver of the SA3x atomic clock. `Locked` has what it says of
-- the lock.
pub mod Locked
mod Tests
use oscillatord.Base.{ℕ, ◌-◌, Bool, true, false, ltb, ◌==◌, if◌then◌else◌}
use oscillatord.Base.Int.{ℤ, pos, ltb_ℤ}
use oscillatord.Structs.{OscillatorCtrl, OscillatorAttributes}

-- `struct sa3x_oscillator`: the attributes that the driver hands out, and the seconds of `attr_time`.
-- `bite` is the code of a character.
pub record Sa3x : Type 0 where
  pub bite : ℕ
  pub temperature : ℤ
  pub attr_time : ℕ

-- `calloc`
abbrev pub new_sa3x : Sa3x
new_sa3x = record { bite = 0; temperature = pos 0; attr_time = 0 }

-- `sa3x_timediff`, in seconds.
abbrev pub timediff : ℕ → ℕ → ℕ
timediff t u = if ltb u t then t - u else u - t

-- What `sscanf` does with a line of telemetry: its result, the first character, and the ninth value.
pub record Scan : Type 0 where
  pub scanned : ℤ
  pub first : ℕ
  pub degrees : ℤ

-- What comes of the command: it is not written, `poll` times out or fails, `read` gives nothing, or a
-- line is read.
pub data Telemetry : Type 0 where
  not_written timed_out poll_error nothing_read : Telemetry
  line : Scan → Telemetry

-- What `sscanf` stores: as many values as its result says.
unfoldable pub store : Scan → Sa3x → Sa3x
store l s = record s {
  bite = if ltb_ℤ l.scanned (pos 1) then s.bite else l.first;
  temperature = if ltb_ℤ l.scanned (pos 9) then s.temperature else l.degrees;
}

-- `sa3x_oscillator_get_attributes`, with SETTLING_TIME, the times before and after the command, and
-- what comes of it: whether there are attributes, and the driver.
unfoldable pub get_attributes : ℕ → ℕ → ℕ → Telemetry → Sa3x → Bool × Sa3x
unfolding store
get_attributes settling_time now later t s =
    if ltb (timediff now s.attr_time) settling_time then (true, s) else elim t [
      | line l ↦
          if ltb_ℤ l.scanned (pos 9)
          then (false, store l s)
          else (true, record (store l s) { attr_time = later })
      | _ ↦ (false, s)
    ]

-- `sa3x_oscillator_get_ctrl`
abbrev pub get_ctrl : OscillatorCtrl
get_ctrl = record { fine_ctrl = 0; coarse_ctrl = 0 }

-- `sa3x_oscillator_parse_attributes`, with the conversion from thousandths of a degree and the
-- `double` -400.0. The result is always 0.
unfoldable pub parse_attributes :
    ℕ → (ℤ → ℕ) → ℕ → ℕ → ℕ → Telemetry → Sa3x → OscillatorAttributes → OscillatorAttributes × Sa3x
unfolding get_attributes
parse_attributes settling_time degrees minus_400 now later t s out =
    let (ok, u) = get_attributes settling_time now later t s in
    if ok
    then (record out { temperature = degrees u.temperature; locked = u.bite == 0 }, u)
    else (record out { temperature = minus_400; locked = false }, u)
