-- ===== src/Gnss.antt =====
-- src/gnss.c: the thread of the GNSS receiver and the functions that the main thread calls.
pub mod Command
pub mod Session
pub mod Messages
pub mod Start
pub mod Thread
pub mod Time
pub mod Validity
pub mod Receiver
pub mod Rtcm
pub mod Version
pub mod PtpClock
mod Tests
