-- ===== src/Eeprom.antt =====
-- common/eeprom_config.c: the disciplining parameters in the two files that the driver exposes.
-- `Structs` has the structures and their layout, `Files` the functions for one file, `Parameters`
-- those for both.
pub mod Structs
pub mod Files
pub mod Parameters
pub mod RoundTrip
mod Tests
