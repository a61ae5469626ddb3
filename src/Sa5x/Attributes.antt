-- ===== src/Sa5x/Attributes.antt =====
-- The queries of src/oscillators/sa5x_oscillator.c. The serial line is a function from the query to
-- its reply.
use oscillatord.Base.{
  ℕ, ◌/◌, ◌%◌, ◌^◌, Bool, true, false, not, ◌&&◌, ◌||◌, List, [], ◌∷◌, ◌==◌, if◌then◌else◌,
}
use oscillatord.Base.Int.{ℤ, pos, ltb_ℤ, eqb_ℤ}
use oscillatord.Base.Words.{residue32}
use oscillatord.Base.CError.{e_inval}
use oscillatord.Structs.{OscillatorAttributes}
use oscillatord.Sa5x.State.{Command, set_disciplining}

pub data Query : Type 0 where
  get_discipline_locked get_gnss_pps get_digital_tuning get_locked get_tau : Query
  get_last_correction get_alarms get_disciplining get_phase get_temperature : Query

-- What comes of a query: the result of `sa5x_oscillator_cmd`, that of `sscanf` on the answer (1, or
-- 0 or -1 where it reads nothing), and the number read. The phase is rounded to an `int32_t`.
pub record Reply : Type 0 where
  pub size : ℤ
  pub scanned : ℤ
  pub value : ℤ

-- `struct sa5x_attributes`; the flags have one bit each.
pub record Attributes : Type 0 where
  pub alarms : ℕ
  pub phaseoffset : ℤ
  pub lastcorrection : ℤ
  pub temperature : ℤ
  pub digitaltuning : ℤ
  pub tau : ℕ
  pub ppsindetected : Bool
  pub locked : Bool
  pub disciplinelocked : Bool
  pub disciplining : Bool

-- `= {}`
abbrev pub no_attributes : Attributes
no_attributes = record {
  alarms = 0;
  phaseoffset = pos 0;
  lastcorrection = pos 0;
  temperature = pos 0;
  digitaltuning = pos 0;
  tau = 0;
  ppsindetected = false;
  locked = false;
  disciplinelocked = false;
  disciplining = false;
}

-- The mask, without ATTR_FW_SERIAL.
pub record Mask : Type 0 where
  pub ctrl : Bool
  pub status : Bool
  pub phase : Bool
  pub status_pps : Bool
  pub status_temperature : Bool

-- An `int` in a field of one bit, and `value & BIT(n)`.
abbrev pub low_bit : ℤ → Bool
low_bit n = residue32 n % 2 == 1

abbrev pub has_bit : ℕ → ℕ → Bool
has_bit value n = value / 2 ^ n % 2 == 1

abbrev pub positive : ℤ → Bool
positive n = ltb_ℤ (pos 0) n

-- `sa5x_oscillator_read_intval` and `sa5x_oscillator_read_int64val`: the result, and `*val`.
unfoldable pub read_intval : Reply → ℤ → ℤ × ℤ
read_intval r old =
    if positive r.size
    then (r.scanned, if eqb_ℤ r.scanned (pos 1) then r.value else old)
    else (r.size, old)

-- `sa5x_oscillator_read_phase`, which stores unless the result is 0. `garbage` is the rounding of
-- the local `phase` where nothing was scanned into it.
unfoldable pub read_phase : ℤ → Reply → ℤ → ℤ
read_phase garbage r old =
    if positive r.size
    then (if eqb_ℤ r.scanned (pos 1)
        then r.value
        else if eqb_ℤ r.scanned (pos 0)
        then old
        else garbage)
    else if eqb_ℤ r.size (pos 0)
    then old
    else garbage

-- The attributes and the local `val`, and how a part ends: it goes on, or the function returns.
pub data Step : Type 0 where
  goes : Attributes → ℤ → Step
  returns : ℤ → Attributes → Step

infixl 5 ◌>>=◌
abbrev pub ◌>>=◌ : Step → (Attributes → ℤ → Step) → Step
goes a val >>= f = f a val
returns err a >>= f = returns err a

module _ (garbage : ℤ) (ask : Query → Reply) where
  -- ATTR_STATUS_PPS or ATTR_STATUS
  unfoldable pub get_pps : Attributes → ℤ → Step
  unfolding read_intval
  get_pps a val =
      let (e, v) = read_intval (ask get_discipline_locked) val in
      let b = if positive e then record a { disciplinelocked = low_bit v } else a in
      let (f, w) = read_intval (ask get_gnss_pps) v in
      if positive f then goes (record b { ppsindetected = low_bit w }) w else returns f b

  -- ATTR_CTRL
  unfoldable pub get_tuning : Attributes → ℤ → Step
  unfolding read_intval
  get_tuning a val =
      let (d, tuning) = read_intval (ask get_digital_tuning) a.digitaltuning in
      let (e, v) = read_intval (ask get_locked) val in
      let (f, w) = read_intval (ask get_tau) v in
      let (g, correction) = read_intval (ask get_last_correction) a.lastcorrection in
      goes
        (record a {
          digitaltuning = tuning;
          locked = if positive e then low_bit v else a.locked;
          tau = if positive f then residue32 w else a.tau;
          lastcorrection = correction;
        })
        w

  -- ATTR_STATUS. The alarms are stored unless the result is 0.
  unfoldable pub get_status : Attributes → ℤ → Step
  unfolding read_intval
  get_status a val =
      let (e, v) = read_intval (ask get_alarms) val in
      let (f, w) = read_intval (ask get_disciplining) v in
      goes
        (record a {
          alarms = if eqb_ℤ e (pos 0) then a.alarms else residue32 v;
          disciplining = if positive f then low_bit w else a.disciplining;
        })
        w

  -- ATTR_PHASE, which the status adds where disciplining is off. The command switches it on.
  unfoldable pub get_phase_offset : Attributes → Attributes
  unfolding read_phase
  get_phase_offset a = record a { phaseoffset = read_phase garbage (ask get_phase) a.phaseoffset }

  -- ATTR_STATUS_TEMPERATURE
  unfoldable pub get_degrees : Attributes → ℤ → Step
  unfolding read_intval
  get_degrees a val =
      let (e, t) = read_intval (ask get_temperature) a.temperature in
      if positive e then goes (record a { temperature = t }) val else returns e a

  abbrev part : Bool → (Attributes → ℤ → Step) → Attributes → ℤ → Step
  part true f a val = f a val
  part false f a val = goes a val

  abbrev finish : Step → List Command → ℤ × Attributes × List Command
  finish (goes a val) cs = (pos 0, a, cs)
  finish (returns err a) cs = (err, a, cs)

  -- ATTR_PHASE, which the status adds where it read that disciplining is off (`val` is 0 then), and
  -- the temperature. Where the phase is read with the status, disciplining off and the phase 0, it
  -- is switched on.
  unfoldable pub get_rest : Mask → Attributes → ℤ → ℤ × Attributes × List Command
  unfolding get_phase_offset get_degrees read_intval
  get_rest m a val =
      let off = positive (read_intval (ask get_disciplining) val).0 && eqb_ℤ val (pos 0) in
      let with_phase = m.phase || (m.status && off) in
      let b = if with_phase then get_phase_offset a else a in
      let switch_on = with_phase && m.status && not b.disciplining && eqb_ℤ b.phaseoffset (pos 0) in
      finish (part m.status_temperature get_degrees b val)
        (if switch_on then set_disciplining true ∷ [] else [])

  -- `sa5x_oscillator_get_attributes` without ATTR_FW_SERIAL, with what `val` holds at first: the
  -- result, the attributes, and the commands that were sent.
  unfoldable pub get_attributes : Mask → Attributes → ℤ → ℤ × Attributes × List Command
  unfolding get_pps get_tuning get_status get_rest
  get_attributes m a val =
      elim (part (m.status_pps || m.status) get_pps a val
        >>= part m.ctrl get_tuning
        >>= part m.status get_status) [ returns err b ↦ (err, b, []) | goes b v ↦ get_rest m b v ]

-- The masks of the calls.
abbrev pub ctrl_mask : Mask
ctrl_mask = record {
  ctrl = true;
  status = true;
  phase = true;
  status_pps = false;
  status_temperature = false;
}

abbrev pub temperature_mask : Mask
temperature_mask = record {
  ctrl = false;
  status = false;
  phase = false;
  status_pps = true;
  status_temperature = true;
}

abbrev pub phase_mask : Mask
phase_mask = record {
  ctrl = false;
  status = false;
  phase = true;
  status_pps = false;
  status_temperature = false;
}

-- `sa5x_oscillator_parse_attributes`, with the conversion from thousandths of a degree and the
-- `double` -400.0.
unfoldable pub parse_attributes :
    (ℤ → ℕ) → ℕ → ℤ → (Query → Reply) → ℤ → OscillatorAttributes → ℤ × OscillatorAttributes
unfolding get_attributes
parse_attributes degrees minus_400 garbage ask val out =
    let (err, a, cs) = get_attributes garbage ask temperature_mask no_attributes val in
    if eqb_ℤ err (pos 0)
    then (
      pos 0,
      record out {
        temperature = degrees a.temperature;
        locked = a.ppsindetected && a.disciplinelocked;
      },
    )
    else (pos 0, record out { temperature = minus_400; locked = false })

-- `sa5x_oscillator_get_phase_error`, whose attributes hold anything at first.
unfoldable pub get_phase_error : ℤ → (Query → Reply) → Attributes → ℤ → ℤ × ℤ
unfolding get_attributes
get_phase_error garbage ask a val =
    let (err, b, cs) = get_attributes garbage ask phase_mask a val in
    if eqb_ℤ err (pos 0) then (pos 0, b.phaseoffset) else (e_inval, pos 0)
