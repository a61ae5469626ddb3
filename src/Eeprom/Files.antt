-- ===== src/Eeprom/Files.antt =====
-- The functions of common/eeprom_config.c for one file.
use oscillatord.Base.{
  ℕ, ◌-◌, Bool, true, false, not, ◌&&◌, Option, none, some, List, ◌++◌, leb, ◌==◌, if◌then◌else◌,
  length, get_elem?, take, replicate,
}
use oscillatord.Eeprom.Structs.{
  disciplining_config_file_size, temperature_table_file_size, DiscipliningConfig, TemperatureTable,
  Layout,
}

-- A file: its bytes, or none if it cannot be opened for reading.
abbrev pub File : Type 0
File = Option (List ℕ)

-- `read_file`: whether it succeeds, and the buffer after it. Where it fails the buffer has the bytes
-- `old`, of which the code knows nothing.
unfoldable pub read_file : File → ℕ → List ℕ → Bool × List ℕ
read_file none size old = (false, old)
read_file (some bytes) size old =
    if leb size (length bytes) then (true, take size bytes) else (false, old)

-- How an attempt to write goes: whether `fopen` succeeds, and how many bytes `fwrite` can write.
pub record Disk : Type 0 where
  pub opens : Bool
  pub room : ℕ

-- `write_file`: the file is emptied when it is opened.
unfoldable pub write_file : Disk → File → List ℕ → Bool × File
write_file d f bytes =
    if d.opens then (leb (length bytes) d.room, some (take d.room bytes)) else (false, f)

-- A buffer of `size` zeros with a structure copied to its start.
abbrev pub padded : ℕ → List ℕ → List ℕ
padded size bs = bs ++ replicate (size - length bs) 0

-- The byte of a buffer.
abbrev pub byte : List ℕ → ℕ → ℕ
byte bs i = elim (get_elem? bs i) [ none ↦ 0 | some b ↦ b ]

module _ {F : Type 0} (layout : Layout F) where
  -- `check_header_valid`
  unfoldable pub check_header_valid : ℕ → Bool
  check_header_valid header = header == layout.header_magic

  -- `write_disciplining_parameters_to_disciplining_config_file`; `none` is a NULL config.
  unfoldable pub write_config : Disk → File → Option (DiscipliningConfig F) → Bool × File
  unfolding write_file
  write_config d f none = (false, f)
  write_config d f (some c) =
      write_file d f (padded (disciplining_config_file_size) (layout.config_bytes c))

  -- `read_disciplining_parameters_from_disciplining_config_file`: the result, and the structure.
  unfoldable pub read_config : File → List ℕ → DiscipliningConfig F → Bool × DiscipliningConfig F
  unfolding read_file check_header_valid
  read_config f old c =
      let (ok, buffer) = read_file f (disciplining_config_file_size) old in
      if not ok
      then (false, c)
      else if check_header_valid (byte buffer 0) && (byte buffer 1 == 1)
      then (true, layout.config_of buffer)
      else (false, c)

  -- `write_temperature_table_to_temperature_table_file`, which succeeds though nothing was written.
  unfoldable pub write_table : Disk → File → Option (TemperatureTable F) → Bool × File
  unfolding write_file
  write_table d f none = (false, f)
  write_table d f (some t) =
      (true, (write_file d f (padded (temperature_table_file_size) (layout.table_bytes t))).1)

  -- `read_temperature_table_from_temperature_table_file`, which goes on when the file cannot be
  -- read; `none` is a NULL table.
  unfoldable pub read_table :
      File → List ℕ → Option (TemperatureTable F) → Bool × Option (TemperatureTable F)
  unfolding read_file check_header_valid
  read_table f old none = (false, none)
  read_table f old (some t) =
      let (ok, buffer) = read_file f (temperature_table_file_size) old in
      if check_header_valid (byte buffer 0) && (byte buffer 1 == 1)
      then (true, some (layout.table_of buffer))
      else (false, some t)
