-- ===== src/Sa5x.antt =====
-- src/oscillators/sa5x_oscillator.c: the driver of the SA5x atomic clock, which disciplines itself.
-- `State` is what the driver keeps, `Attributes` the queries, `Latch` and `Ctrl` the procedure that
-- the main loop runs once a second; `Invariant`, `Convergence` and `Holdover` have the theorems.
pub mod State
pub mod Attributes
pub mod Latch
pub mod Ctrl
pub mod Invariant
pub mod Convergence
pub mod Holdover
pub mod Failures
mod Tests
