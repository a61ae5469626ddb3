-- ===== src/Eeprom/Structs.antt =====
-- The structures of liboscillator-disciplining that common/eeprom_config.c copies, field by field as
-- far as it names the fields, and their layout in memory as an interface. `F` is the type `float`.
use oscillatord.Base.{ℕ, ◌≤◌, ◌≡◌, Bool, some, List, ◌++◌, length, get_elem?}
use oscillatord.Base.Int.{ℤ}

-- The sizes of the two files.
abbrev pub disciplining_config_file_size : ℕ
disciplining_config_file_size = 144

abbrev pub temperature_table_file_size : ℕ
temperature_table_file_size = 368

module _ (F : Type 0) where
  -- `struct disciplining_config`
  pub record DiscipliningConfig : Type 0 where
    pub header : ℕ
    pub version : ℕ
    pub ctrl_nodes_length : ℕ
    pub ctrl_load_nodes : List F
    pub ctrl_drift_coeffs : List F
    pub coarse_equilibrium : ℤ
    pub ctrl_nodes_length_factory : ℕ
    pub ctrl_load_nodes_factory : List F
    pub ctrl_drift_coeffs_factory : List F
    pub coarse_equilibrium_factory : ℤ
    pub calibration_valid : Bool
    pub calibration_date : ℤ
    pub estimated_equilibrium_es : ℤ

  -- `struct temperature_table`
  pub record TemperatureTable : Type 0 where
    pub header : ℕ
    pub version : ℕ
    pub mean_fine_over_temperature : List ℤ

  -- `struct disciplining_parameters`
  pub record Parameters : Type 0 where
    pub dsc_config : DiscipliningConfig
    pub temp_table : TemperatureTable

  -- `struct disciplining_parameters_V_0`
  pub record Parameters0 : Type 0 where
    pub ctrl_nodes_length : ℕ
    pub ctrl_load_nodes : List F
    pub ctrl_drift_coeffs : List F
    pub coarse_equilibrium : ℤ
    pub ctrl_nodes_length_factory : ℕ
    pub ctrl_load_nodes_factory : List F
    pub ctrl_drift_coeffs_factory : List F
    pub coarse_equilibrium_factory : ℤ
    pub calibration_valid : Bool
    pub calibration_date : ℤ
    pub estimated_equilibrium_es : ℤ
    pub mean_fine_over_temperature : List ℤ

  -- HEADER_MAGIC, MEAN_TEMPERATURE_ARRAY_MAX, and the layout: the bytes of a structure, and the
  -- structure that bytes are when they are copied over it.
  pub record Layout : Type 1 where
    pub header_magic : ℕ
    pub mean_temperature_array_max : ℕ
    pub config_bytes : DiscipliningConfig → List ℕ
    pub config_of : List ℕ → DiscipliningConfig
    pub table_bytes : TemperatureTable → List ℕ
    pub table_of : List ℕ → TemperatureTable
    pub parameters0_of : List ℕ → Parameters0
    -- The structures that the C types can hold.
    pub ConfigFits : DiscipliningConfig → Type 0
    pub TableFits : TemperatureTable → Type 0
    -- They fit in their files, start with their header and version, and are what their bytes say,
    -- whatever follows the bytes.
    pub config_size :
        (c : DiscipliningConfig)
        → ConfigFits c
        → length (config_bytes c) ≤ disciplining_config_file_size
    pub config_header :
        (c : DiscipliningConfig) → ConfigFits c → get_elem? (config_bytes c) 0 ≡ some c.header
    pub config_version :
        (c : DiscipliningConfig) → ConfigFits c → get_elem? (config_bytes c) 1 ≡ some c.version
    pub config_read :
        (c : DiscipliningConfig) (bs : List ℕ) → ConfigFits c → config_of (config_bytes c ++ bs) ≡ c
    pub table_size :
        (t : TemperatureTable) → TableFits t → length (table_bytes t) ≤ temperature_table_file_size
    pub table_header :
        (t : TemperatureTable) → TableFits t → get_elem? (table_bytes t) 0 ≡ some t.header
    pub table_version :
        (t : TemperatureTable) → TableFits t → get_elem? (table_bytes t) 1 ≡ some t.version
    pub table_read :
        (t : TemperatureTable) (bs : List ℕ) → TableFits t → table_of (table_bytes t ++ bs) ≡ t
