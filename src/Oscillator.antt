-- ===== src/Oscillator.antt =====
-- src/oscillator_factory.c: the table of drivers. `Factory` has its operations, `Registered` what it
-- keeps.
pub mod Factory
pub mod Registered
mod Tests
