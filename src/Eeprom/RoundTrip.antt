-- ===== src/Eeprom/RoundTrip.antt =====
-- What is written to the EEPROM by common/eeprom_config.c is what is read from it.
use oscillatord.Base.{
  ℕ, zero, suc, ◌-◌, ◌≤◌, ◌≡◌, refl, ap, ◌∙◌, ◌≢◌, true, false, some, List, [], ◌∷◌, ◌++◌, arith,
  length, get_elem?, take, replicate, length-append, length-replicate,
}
use oscillatord.Eeprom.Structs.{
  disciplining_config_file_size, temperature_table_file_size, Parameters, Parameters0, Layout,
}
use oscillatord.Eeprom.Files.{File, read_file, Disk, write_file, padded, byte, check_header_valid}
use oscillatord.Eeprom.Parameters.{
  done, Files, convert, interpret, read_parameters, write_parameters,
}
use mathlib.Core.Path.{subst}

take-all : (bs : List ℕ) (n : ℕ) → length bs ≤ n → take n bs ≡ bs
take-all [] zero h = refl
take-all [] (suc n) h = refl
take-all (b ∷ bs) zero h = ground arith
take-all (b ∷ bs) (suc n) h = ap (λ l. b ∷ l) (take-all bs n (omega (arith, h)))

length-padded : (n : ℕ) (bs : List ℕ) → length bs ≤ n → length (padded n bs) ≡ n
length-padded n bs h = omega (
  arith,
  h,
  length-append bs (replicate (n - length bs) 0),
  length-replicate {A = ℕ} (n - length bs) 0,
)

-- A file that was written whole is read back.
read_file-write_file :
    (d : Disk) (f : File) (bs old : List ℕ)
    → d.opens ≡ true
    → length bs ≤ d.room
    → read_file (write_file d f bs).1 (length bs) old ≡ (true, bs)
unfolding read_file write_file
read_file-write_file d f bs old o r =
    rw (o, take-all bs d.room r) (ground (arith, take-all bs (length bs) (omega arith)))

get_elem?-append :
    (bs cs : List ℕ) (i b : ℕ) → get_elem? bs i ≡ some b → get_elem? (bs ++ cs) i ≡ some b
get_elem?-append [] cs i b h = ground arith
get_elem?-append (x ∷ bs) cs zero b h = h
get_elem?-append (x ∷ bs) cs (suc i) b h = get_elem?-append bs cs i b h

byte-padded : (n : ℕ) (bs : List ℕ) (i b : ℕ) → get_elem? bs i ≡ some b → byte (padded n bs) i ≡ b
byte-padded n bs i b h = ground (arith, get_elem?-append bs (replicate (n - length bs) 0) i b h)

-- A disk that takes a whole file of `n` bytes.
abbrev pub Takes : Disk → ℕ → Type 0
Takes d n = (d.opens ≡ true) × (n ≤ d.room)

reads-padded :
    (d : Disk) (f : File) (n : ℕ) (bs old : List ℕ)
    → Takes d n
    → length bs ≤ n
    → (read_file (write_file d f (padded n bs)).1 n old).1 ≡ padded n bs
reads-padded d f n bs old w l =
    subst (λ m. (read_file (write_file d f (padded n bs)).1 m old).1 ≡ padded n bs)
      (length-padded n bs l)
      (ap (λ o. o.1)
        (read_file-write_file d f (padded n bs) old w.0 (omega (arith, w.1, length-padded n bs l))))

abbrev pub both_files : List ℕ → List ℕ → Files
both_files config table = record {
  disciplining_config = some config;
  temperature_table = some table;
}

read_file-sized : (bs old : List ℕ) (n : ℕ) → length bs ≡ n → read_file (some bs) n old ≡ (true, bs)
unfolding read_file
read_file-sized bs old n h = ground (arith, take-all bs n (ground arith))

module _ {F : Type 0} (layout : Layout F) where
  -- Parameters that the C types can hold, with the current headers.
  pub record IsCurrent (p : Parameters F) : Type 0 where
    pub config_fits : layout.ConfigFits p.dsc_config
    pub table_fits : layout.TableFits p.temp_table
    pub config_header : p.dsc_config.header ≡ layout.header_magic
    pub config_version : p.dsc_config.version ≡ 1
    pub table_header : p.temp_table.header ≡ layout.header_magic
    pub table_version : p.temp_table.version ≡ 1

  -- The buffers that parameters are written from.
  abbrev config_buffer : Parameters F → List ℕ
  config_buffer p = padded disciplining_config_file_size (layout.config_bytes p.dsc_config)

  abbrev table_buffer : Parameters F → List ℕ
  table_buffer p = padded temperature_table_file_size (layout.table_bytes p.temp_table)

  interpret-padded :
      (p old : Parameters F)
      → IsCurrent p
      → interpret layout (config_buffer p) (table_buffer p) old ≡ (done, p)
  unfolding interpret check_header_valid
  interpret-padded p old h =
      rw
        (
          byte-padded disciplining_config_file_size (layout.config_bytes p.dsc_config) 0
              p.dsc_config.header (layout.config_header p.dsc_config h.config_fits),
          byte-padded disciplining_config_file_size (layout.config_bytes p.dsc_config) 1
              p.dsc_config.version (layout.config_version p.dsc_config h.config_fits),
          byte-padded temperature_table_file_size (layout.table_bytes p.temp_table) 0
              p.temp_table.header (layout.table_header p.temp_table h.table_fits),
          byte-padded temperature_table_file_size (layout.table_bytes p.temp_table) 1
              p.temp_table.version (layout.table_version p.temp_table h.table_fits),
          layout.config_read p.dsc_config
              (replicate (disciplining_config_file_size - length (layout.config_bytes p.dsc_config))
                0)
              h.config_fits,
          layout.table_read p.temp_table
              (replicate (temperature_table_file_size - length (layout.table_bytes p.temp_table)) 0)
              h.table_fits,
        )
        (ground arith)

  -- Parameters with current headers that are written where both files can be opened and written whole
  -- are what the next reading finds, whatever was in the files and in memory.
  pub read_parameters-write_parameters :
      (c t : Disk) (f : Files) (a b : List ℕ) (p old : Parameters F)
      → Takes c disciplining_config_file_size
      → Takes t temperature_table_file_size
      → IsCurrent p
      → read_parameters layout (write_parameters layout c t f (some p)).1 a b (some old)
        ≡ (done, some p)
  unfolding read_parameters write_parameters
  read_parameters-write_parameters c t f a b p old wc wt h =
      ap (λ o. (o.0, some o.1))
        (ap
            (λ x.
              interpret layout x
                (read_file (write_file t f.temperature_table (table_buffer p)).1
                  temperature_table_file_size b).1
                old)
            (reads-padded c f.disciplining_config disciplining_config_file_size
              (layout.config_bytes p.dsc_config) a wc
              (layout.config_size p.dsc_config h.config_fits))
          ∙ ap (λ x. interpret layout (config_buffer p) x old)
              (reads-padded t f.temperature_table temperature_table_file_size
                (layout.table_bytes p.temp_table) b wt
                (layout.table_size p.temp_table h.table_fits))
          ∙ interpret-padded p old h)

  interpret-old :
      (config table : List ℕ) (old : Parameters F)
      → byte config 0 ≢ layout.header_magic
      → byte table 0 ≢ layout.header_magic
      → interpret layout config table old
        ≡ (done, convert layout (layout.parameters0_of (config ++ table)) old)
  unfolding interpret check_header_valid
  interpret-old config table old hc ht = ground arith

  convert-IsCurrent :
      (v : Parameters0 F) (p : Parameters F)
      → layout.ConfigFits (convert layout v p).dsc_config
      → layout.TableFits (convert layout v p).temp_table
      → IsCurrent (convert layout v p)
  unfolding convert
  convert-IsCurrent v p fc ft = record {
    config_fits = fc;
    table_fits = ft;
    config_header = refl;
    config_version = refl;
    table_header = refl;
    table_version = refl;
  }

  -- Files without headers, of the size that is read, are the old version: reading them converts
  -- them to parameters with current headers, which the C types can hold, so that writing these upgrades the files: another
  -- reading finds the same parameters, with no conversion.
  pub upgrade_once :
      (c t : Disk) (config table a b : List ℕ) (old other : Parameters F)
      → Takes c disciplining_config_file_size
      → Takes t temperature_table_file_size
      → length config ≡ disciplining_config_file_size
      → length table ≡ temperature_table_file_size
      → byte config 0 ≢ layout.header_magic
      → byte table 0 ≢ layout.header_magic
      → layout.ConfigFits (convert layout (layout.parameters0_of (config ++ table)) old).dsc_config
      → layout.TableFits (convert layout (layout.parameters0_of (config ++ table)) old).temp_table
      → let f = both_files config table in
        let p = convert layout (layout.parameters0_of (config ++ table)) old in
        (read_parameters layout f a b (some old) ≡ (done, some p))
        × (read_parameters layout (write_parameters layout c t f (some p)).1 a b (some other)
            ≡ (done, some p))
  unfolding read_parameters
  upgrade_once c t config table a b old other wc wt lc lt hc ht fc ft =
      let f = both_files config table in
      let p = convert layout (layout.parameters0_of (config ++ table)) old in
      (
        ap (λ o. (o.0, some o.1))
            (ap
                (λ x.
                  interpret layout x.1 (read_file (some table) temperature_table_file_size b).1 old)
                (read_file-sized config a disciplining_config_file_size lc)
              ∙ ap (λ x. interpret layout config x.1 old)
                  (read_file-sized table b temperature_table_file_size lt)
              ∙ interpret-old config table old hc ht),
        read_parameters-write_parameters c t f a b p other wc wt
            (convert-IsCurrent (layout.parameters0_of (config ++ table)) old fc ft),
      )

-- Where neither file can be opened, writing leaves both as they were, and still reports success.
pub write_failure_hidden :
    {F : Type 0} (layout : Layout F) (c t : Disk) (f : Files) (p : Parameters F)
    → c.opens ≡ false
    → t.opens ≡ false
    → write_parameters layout c t f (some p) ≡ (done, f)
unfolding write_parameters write_file
write_failure_hidden layout c t f p hc ht = ground arith
