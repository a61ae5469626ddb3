-- ===== src/Mro50/Control.antt =====
-- The control values and the attributes of src/oscillators/mRo50_oscillator.c.
use oscillatord.Base.{
  ℕ, ◌-◌, ◌/◌, ◌%◌, Bool, true, false, Option, none, some, List, [], ◌∷◌, ◌++◌, ◌==◌, if◌then◌else◌,
  set, take, drop,
}
use oscillatord.Base.Text.{c_string}
use oscillatord.Structs.{adjust_fine, adjust_coarse, OdOutput, OscillatorCtrl, OscillatorAttributes}
use oscillatord.Mro50.Hex.{print_hex, scan_hex}
use oscillatord.Mro50.Serial.{
  mro_answer_len, Exchange, waits, gives, Serial, ◌>>=◌, ◌>>◌, return, cleared, byte, cmd,
  Reopening, clean_serial,
}

-- STATUS_ANSWER_SIZE, STATUS_EP_TEMPERATURE_INDEX, STATUS_CLOCK_LOCKED_INDEX and
-- STATUS_ANSWER_FIELD_SIZE
abbrev pub status_answer_size : ℕ
status_answer_size = 62

abbrev pub status_ep_temperature_index : ℕ
status_ep_temperature_index = 52

abbrev pub status_clock_locked_index : ℕ
status_clock_locked_index = 56

abbrev pub status_answer_field_size : ℕ
status_answer_field_size = 4

-- One number, in `mRo50_oscillator_get_ctrl`: `%x` of the answer, or the serial line reset.
unfoldable pub read_number : Exchange → Reopening → Serial (Option ℕ)
unfolding cmd clean_serial scan_hex c_string cleared
read_number e r s = elim (cmd e s) [
  | waits ↦ waits
  | gives none t ↦ (do clean_serial r; return none) t
  | gives (some n) t ↦ gives (scan_hex (c_string t)) (cleared n t)
]

-- `read_temperature_compensation_parameters`, whose numbers are only logged.
unfoldable pub read_compensation : Exchange → Reopening → Exchange → Reopening → Serial (Unit {0})
unfolding read_number
read_compensation a r b q = do
  m ← read_number a r
  elim m [ none ↦ return tt | some n ↦ (do read_number b q; return tt) ]

-- `mRo50_oscillator_get_ctrl`: whether it succeeds, and `*ctrl`.
unfoldable pub get_ctrl :
    Exchange → Reopening → Exchange → Reopening → OscillatorCtrl → Serial (Bool × OscillatorCtrl)
unfolding read_number
get_ctrl coarse r fine q ctrl = do
  c ← read_number coarse r
  elim c [
    | none ↦ return (false, ctrl)
    | some n ↦ (do
      f ← read_number fine q
      elim f [
        | none ↦ return (false, record ctrl { coarse_ctrl = n })
        | some m ↦ return (true, record { fine_ctrl = m; coarse_ctrl = n })
      ])
  ]

-- CMD_WRITE_FINE and CMD_WRITE_COARSE
abbrev pub fine_prefix : List ℕ
fine_prefix =
    b'M' ∷ b'O' ∷ b'N' ∷ b'_' ∷ b't' ∷ b'p' ∷ b'c' ∷ b'b' ∷ b' ' ∷ b'P' ∷ b'I' ∷ b'L' ∷ b'_' ∷ b'c'
    ∷ b'f' ∷ b'i' ∷ b'e' ∷ b'l' ∷ b'd' ∷ b' ' ∷ b'C' ∷ b' ' ∷ []

abbrev pub coarse_prefix : List ℕ
coarse_prefix = b'F' ∷ b'D' ∷ b' ' ∷ []

unfoldable pub write_fine : ℕ → List ℕ
unfolding print_hex
write_fine v = fine_prefix ++ print_hex 4 v ++ 13 ∷ []

unfoldable pub write_coarse : ℕ → List ℕ
unfolding print_hex
write_coarse v = coarse_prefix ++ print_hex 8 v ++ 13 ∷ []

-- The command for an output, where there is one.
unfoldable pub command_of : OdOutput → Option (List ℕ)
unfolding write_fine write_coarse
command_of o = elim o.action [
  | adjust_fine ↦ some (write_fine o.setpoint)
  | adjust_coarse ↦ some (write_coarse o.setpoint)
  | _ ↦ none
]

-- `mRo50_oscillator_apply_output`, with the exchange that a command leads to: whether it succeeds.
unfoldable pub apply_output : (List ℕ → Exchange) → OdOutput → Serial Bool
unfolding command_of cmd cleared
apply_output device o s = elim (command_of o) [
  | none ↦ gives true s
  | some text ↦ elim (cmd (device text) s) [
    | waits ↦ waits
    | gives none t ↦ gives false t
    | gives (some n) t ↦ if n == 2 then gives true (cleared mro_answer_len t) else gives false t
  ]
]

-- `mRo50_oscillatord_get_attributes`: the temperature and the lock. `strtoul16` reads the four
-- bytes of the temperature (they have no NUL after them in the source, where it may read on), and
-- `compute_temp` makes degrees of it, none for the dummy value.
unfoldable pub get_attributes :
    (List ℕ → ℕ) → (ℕ → Option ℕ) → Exchange → Reopening → Serial (Option (ℕ × Bool))
unfolding cmd clean_serial cleared
get_attributes strtoul16 compute_temp e r s = elim (cmd e s) [
  | waits ↦ waits
  | gives none t ↦ (do clean_serial r; return none) t
  | gives (some n) t ↦
      if n == status_answer_size
      then (let u = set t (n - 2) 0 in
          let field = take status_answer_field_size (drop status_ep_temperature_index u) in
          elim (compute_temp (strtoul16 field)) [
            | none ↦ gives none u
            | some degrees ↦
                gives (some (degrees, byte u status_clock_locked_index / 4 % 2 == 1))
                  (cleared status_answer_size u)
          ])
      else (do clean_serial r; return none) t
]

-- `mRO50_oscillator_parse_attributes`
unfoldable pub parse_attributes :
    (List ℕ → ℕ)
    → (ℕ → Option ℕ)
    → Exchange
    → Reopening
    → OscillatorAttributes
    → Serial (Bool × OscillatorAttributes)
unfolding get_attributes
parse_attributes strtoul16 compute_temp e r out = do
  a ← get_attributes strtoul16 compute_temp e r
  elim a [
    | none ↦ return (false, out)
    | some (degrees, is_locked) ↦
        return (true, record out { temperature = degrees; locked = is_locked })
  ]
