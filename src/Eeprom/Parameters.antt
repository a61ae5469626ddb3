-- ===== src/Eeprom/Parameters.antt =====
-- The functions of common/eeprom_config.c for both files.
use oscillatord.Base.{ℕ, not, ◌&&◌, Option, none, some, List, ◌++◌, ◌==◌, if◌then◌else◌, take, drop}
use oscillatord.Eeprom.Structs.{
  disciplining_config_file_size, temperature_table_file_size, Parameters, Parameters0, Layout,
}
use oscillatord.Eeprom.Files.{File, read_file, Disk, write_file, padded, byte, check_header_valid}

-- A loop that copies the first `n` elements of an array over another.
unfoldable pub copy_first {ℓ} : {A : Type ℓ} → ℕ → List A → List A → List A
copy_first n from to = take n from ++ drop n to

-- The answers: success, -1, and -EINVAL.
pub data Outcome : Type 0 where
  done failed invalid : Outcome

-- The two files.
pub record Files : Type 0 where
  pub disciplining_config : File
  pub temperature_table : File

module _ {F : Type 0} (layout : Layout F) where
  -- `convert_disciplining_parameters_V0_to_V1`; `p` is the structure before.
  unfoldable pub convert : Parameters0 F → Parameters F → Parameters F
  unfolding copy_first
  convert v p = record {
    dsc_config = record {
      header = layout.header_magic;
      version = 1;
      ctrl_nodes_length = v.ctrl_nodes_length;
      ctrl_load_nodes =
          copy_first v.ctrl_nodes_length v.ctrl_load_nodes p.dsc_config.ctrl_load_nodes;
      ctrl_drift_coeffs =
          copy_first v.ctrl_nodes_length v.ctrl_drift_coeffs p.dsc_config.ctrl_drift_coeffs;
      coarse_equilibrium = v.coarse_equilibrium;
      ctrl_nodes_length_factory = v.ctrl_nodes_length_factory;
      ctrl_load_nodes_factory =
          copy_first v.ctrl_nodes_length_factory v.ctrl_load_nodes_factory
            p.dsc_config.ctrl_load_nodes_factory;
      ctrl_drift_coeffs_factory =
          copy_first v.ctrl_nodes_length_factory v.ctrl_drift_coeffs_factory
            p.dsc_config.ctrl_drift_coeffs_factory;
      coarse_equilibrium_factory = v.coarse_equilibrium_factory;
      calibration_valid = v.calibration_valid;
      calibration_date = v.calibration_date;
      estimated_equilibrium_es = v.estimated_equilibrium_es;
    };
    temp_table = record {
      header = layout.header_magic;
      version = 1;
      mean_fine_over_temperature =
          copy_first layout.mean_temperature_array_max v.mean_fine_over_temperature
            p.temp_table.mean_fine_over_temperature;
    };
  }

  -- The second half of `read_disciplining_parameters_from_eeprom`, on the two buffers.
  unfoldable pub interpret : List ℕ → List ℕ → Parameters F → Outcome × Parameters F
  unfolding check_header_valid convert
  interpret config table p =
      if check_header_valid layout (byte config 0) && check_header_valid layout (byte table 0)
      then (if not (byte config 1 == byte table 1)
          then (failed, p)
          else if byte config 1 == 1
          then (
            done,
            record { dsc_config = layout.config_of config; temp_table = layout.table_of table },
          )
          else (failed, p))
      else if not (check_header_valid layout (byte config 0))
          && not (check_header_valid layout (byte table 0))
      then (done, convert (layout.parameters0_of (config ++ table)) p)
      else (failed, p)

  -- `read_disciplining_parameters_from_eeprom`: what cannot be read is left in the buffers `a` and
  -- `b`, and interpreted all the same. `none` is a NULL pointer.
  unfoldable pub read_parameters :
      Files → List ℕ → List ℕ → Option (Parameters F) → Outcome × Option (Parameters F)
  unfolding read_file interpret
  read_parameters f a b none = (invalid, none)
  read_parameters f a b (some p) =
      let config = (read_file f.disciplining_config (disciplining_config_file_size) a).1 in
      let table = (read_file f.temperature_table (temperature_table_file_size) b).1 in
      let (result, q) = interpret config table p in (result, some q)

  -- `write_disciplining_parameters_in_eeprom`, which does not report what cannot be written.
  unfoldable pub write_parameters : Disk → Disk → Files → Option (Parameters F) → Outcome × Files
  unfolding write_file
  write_parameters c t f none = (invalid, f)
  write_parameters c t f (some p) = (
    done,
    record {
      disciplining_config =
          (write_file c f.disciplining_config
            (padded (disciplining_config_file_size) (layout.config_bytes p.dsc_config))).1;
      temperature_table =
          (write_file t f.temperature_table
            (padded (temperature_table_file_size) (layout.table_bytes p.temp_table))).1;
    },
  )
