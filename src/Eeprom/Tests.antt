-- ===== src/Eeprom/Tests.antt =====
-- Runs of the functions of common/eeprom_config.c with a small layout: of each structure the bytes
-- have the header, the version and the first lengths.
use oscillatord.Base.{ℕ, ◌≡◌, refl, true, false, none, some, List, [], ◌∷◌, arith, replicate}
use oscillatord.Base.Int.{pos}
use oscillatord.Eeprom.Structs.{
  DiscipliningConfig, TemperatureTable, Parameters, Parameters0, Layout,
}
use oscillatord.Eeprom.Files.{Disk, byte}
use oscillatord.Eeprom.Parameters.{
  copy_first, done, Files, convert, read_parameters, write_parameters,
}
use oscillatord.Eeprom.RoundTrip.{
  both_files, read_parameters-write_parameters, upgrade_once, write_failure_hidden,
}

abbrev small_config : ℕ → ℕ → ℕ → DiscipliningConfig ℕ
small_config h v n = record {
  header = h;
  version = v;
  ctrl_nodes_length = n;
  ctrl_load_nodes = [];
  ctrl_drift_coeffs = [];
  coarse_equilibrium = pos 0;
  ctrl_nodes_length_factory = 0;
  ctrl_load_nodes_factory = [];
  ctrl_drift_coeffs_factory = [];
  coarse_equilibrium_factory = pos 0;
  calibration_valid = false;
  calibration_date = pos 0;
  estimated_equilibrium_es = pos 0;
}

abbrev small_table : ℕ → ℕ → TemperatureTable ℕ
small_table h v = record { header = h; version = v; mean_fine_over_temperature = [] }

abbrev small_parameters0 : ℕ → Parameters0 ℕ
small_parameters0 n = record {
  ctrl_nodes_length = n;
  ctrl_load_nodes = [];
  ctrl_drift_coeffs = [];
  coarse_equilibrium = pos 0;
  ctrl_nodes_length_factory = 0;
  ctrl_load_nodes_factory = [];
  ctrl_drift_coeffs_factory = [];
  coarse_equilibrium_factory = pos 0;
  calibration_valid = false;
  calibration_date = pos 0;
  estimated_equilibrium_es = pos 0;
  mean_fine_over_temperature = [];
}

abbrev config_bytes : DiscipliningConfig ℕ → List ℕ
config_bytes c = c.header ∷ c.version ∷ c.ctrl_nodes_length ∷ []

abbrev table_bytes : TemperatureTable ℕ → List ℕ
table_bytes t = t.header ∷ t.version ∷ []

abbrev config_of : List ℕ → DiscipliningConfig ℕ
config_of (h ∷ v ∷ n ∷ bs) = small_config h v n
config_of bs = small_config 0 0 0

abbrev table_of : List ℕ → TemperatureTable ℕ
table_of (h ∷ v ∷ bs) = small_table h v
table_of bs = small_table 0 0

abbrev small : Layout ℕ
small = record {
  header_magic = 162;
  mean_temperature_array_max = 0;
  config_bytes = config_bytes;
  config_of = config_of;
  table_bytes = table_bytes;
  table_of = table_of;
  parameters0_of = λ bs. small_parameters0 (byte bs 0);
  ConfigFits = λ c. config_of (config_bytes c) ≡ c;
  TableFits = λ t. table_of (table_bytes t) ≡ t;
  config_size = λ c h. omega arith;
  config_header = λ c h. refl;
  config_version = λ c h. refl;
  config_read = λ c bs h. h;
  table_size = λ t h. omega arith;
  table_header = λ t h. refl;
  table_version = λ t h. refl;
  table_read = λ t bs h. h;
}

abbrev parameters : Parameters ℕ
parameters = record { dsc_config = small_config 162 1 3; temp_table = small_table 162 1 }

abbrev blank : Parameters ℕ
blank = record { dsc_config = small_config 0 0 0; temp_table = small_table 0 0 }

abbrev good_disk : Disk
good_disk = record { opens = true; room = 1000 }

abbrev closed_disk : Disk
closed_disk = record { opens = false; room = 0 }

abbrev no_files : Files
no_files = record { disciplining_config = none; temperature_table = none }

read_parameters-write_parameters_example :
    read_parameters small
      (write_parameters small good_disk good_disk no_files (some parameters)).1
      []
      []
      (some blank)
    ≡ (done, some parameters)
read_parameters-write_parameters_example =
    read_parameters-write_parameters small good_disk good_disk no_files [] [] parameters blank
      (refl, omega arith) (refl, omega arith)
      (record {
        config_fits = refl;
        table_fits = refl;
        config_header = refl;
        config_version = refl;
        table_header = refl;
        table_version = refl;
      })

abbrev old_config : List ℕ
old_config = replicate 144 2

abbrev old_table : List ℕ
old_table = replicate 368 5

abbrev upgraded : Parameters ℕ
upgraded = convert small (small_parameters0 2) blank

upgraded-fits : config_of (config_bytes upgraded.dsc_config) ≡ upgraded.dsc_config
unfolding convert copy_first
upgraded-fits = refl

upgraded-table_fits : table_of (table_bytes upgraded.temp_table) ≡ upgraded.temp_table
unfolding convert copy_first
upgraded-table_fits = refl

upgrade_once_test :
    (read_parameters small (both_files old_config old_table) [] [] (some blank)
      ≡ (done, some upgraded))
    × (read_parameters small
          (write_parameters small good_disk good_disk
            (both_files old_config old_table)
            (some upgraded)).1
          []
          []
          (some parameters)
        ≡ (done, some upgraded))
upgrade_once_test =
    upgrade_once small good_disk good_disk old_config old_table [] [] blank parameters
      (refl, omega arith) (refl, omega arith) refl refl (λ e. ground arith) (λ e. ground arith)
      upgraded-fits upgraded-table_fits

write_failure_hidden_test :
    write_parameters small closed_disk closed_disk
      (both_files old_config old_table)
      (some parameters)
    ≡ (done, both_files old_config old_table)
write_failure_hidden_test =
    write_failure_hidden small closed_disk closed_disk (both_files old_config old_table) parameters
      refl refl
