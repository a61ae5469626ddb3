-- ===== src/Mro50.antt =====
-- src/oscillators/mRo50_oscillator.c: the driver of the mRO-50 atomic clock. `Hex` has the numbers in
-- its commands and answers, `Serial` the exchange of a command and its answer, `Reset` the reset,
-- `Control` the control values and the attributes, `Calibration` the measures. `Exchange` and
-- `Commands` have a device that answers, and `HexRoundTrip` the numbers printed and read back.
pub mod Hex
pub mod HexRoundTrip
pub mod Serial
pub mod Reset
pub mod Control
pub mod Calibration
pub mod Exchange
pub mod Commands
mod Tests
