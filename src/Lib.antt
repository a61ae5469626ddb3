-- ===== src/Lib.antt =====
-- oscillatord disciplines an oscillator of a time card to the pulse per second (PPS) of a GNSS
-- receiver. A phasemeter thread pairs the timestamps of the two PPS, a GNSS thread follows the
-- messages of the receiver, and a monitoring thread answers clients on a socket. The main loop reads
-- the phasemeter and the GNSS session, fills the input of the disciplining algorithm (a library),
-- applies its output to the oscillator or to the PHC, and takes the request that the monitoring
-- thread has left for it.
--
-- Which file models which part:
--   Structs         the structures that the parts exchange (src/oscillator.h, src/monitoring.h, and
--                   the input and output of liboscillator-disciplining as the source uses them)
--   Clock           the conversions of times in src/oscillatord.c
--   Phasemeter      src/phasemeter.c: `read_extts`, and `step`, the thread between two reads; `Point`
--                   says where the thread waits, and `pair` is the body of its loop
--   Gnss            src/gnss.c: `Command` the actions, `Session` its state, `Messages` the parsers,
--                   `Thread` a round of `gnss_thread`, `Receiver` the set-up, `PtpClock`
--                   `gnss_set_ptp_clock_time`, `Start` the start and end of a session, `Rtcm` the
--                   clients of the RTCM output, `Version` the version of the receiver; `Time`,
--                   `Validity` and the children of the others have the theorems
--   Monitoring      src/monitoring.c: `Peer` and `Requests` the callbacks of one client, `Link` the
--                   events of one client, `Server` the thread with all of them; `Buffer`, `Protocol`,
--                   `Stuck` and the children of `Server` have the theorems
--   Eeprom          common/eeprom_config.c: `Files`, `Parameters`; `RoundTrip` has the theorems
--   Oscillator      src/oscillator_factory.c: `Factory`; `Registered` has the theorems
--   Sa5x            src/oscillators/sa5x_oscillator.c: `State`, `Attributes` the queries, `Latch`, and
--                   `Ctrl` what the main loop calls; the other children have the theorems
--   Sa3x            src/oscillators/sa3x_oscillator.c; `Locked` has the theorem
--   Mro50           src/oscillators/mRo50_oscillator.c: `Hex` its numbers, `Serial` its commands,
--                   `Reset`, `Control` and `Calibration`; `Commands`, `HexRoundTrip` and the children
--                   of `Reset` and `Calibration` have the theorems
--   Config          the getters of common/config.c, `File` the file and its keys; `Ranges` and the
--                   children of `File` have the theorems
--   Devices         the search for devices in common/config.c and common/utils.c, over a tree of
--                   directories; its children have the theorems
--   Daemon          `main` in src/oscillatord.c: `Startup`, the loop with `Discipline` and `Requests`
--                   its parts, `Iterate` one iteration and a run, and `Shutdown`; the other children
--                   have the theorems
--   Base            the integers, lists, error codes and wrap-around that these share
--
-- State is passed explicitly. What the system, the libraries and the other threads answer is data:
-- `Answers` of an iteration of the main loop, `Event` of the phasemeter, `Input` of the GNSS
-- thread, `Look` and `Round` of the clock, `PollEvent` of the monitoring thread, `Disk` of a file,
-- `Call` of the SA5x, `Poll` and `Round` of the serial line of the mRO-50. Calls that others see
-- are listed as values. A run is a list of such answers, so that every loop ends with its list and
-- no fuel is needed; a theorem about a run holds for every list. The retry loops of the receiver
-- take their attempts as a function of the number of the attempt, and are unrolled as far as the
-- source goes. The threads of the RTCM output are a step relation, whose runs are all interleavings,
-- with the memory that the thread of the receiver frees open to any other use.
-- The loop that deletes comments takes a number of rounds, with a theorem on how many suffice.
-- Integers of 32 and 64 bits wrap as `Base.Words` says.
--
-- Parameters of the model are the JSON parser of json-c, the layout of the structures of
-- liboscillator-disciplining, its disciplining algorithm and its SETTLING_TIME. What sscanf reads
-- from a line of the SA3x or an answer of the SA5x is data; the hexadecimal numbers of the mRO-50
-- are read and printed by the model. The temperature is a number that is only passed on, as is
-- every floating point value.
--
-- Not modelled: the simulated oscillators, the calls of src/oscillator.c through the table of a
-- driver, opening serial lines, the bytes exchanged with the SA5x and the version of its firmware,
-- the creation of the monitoring socket, the text of the answers to clients, the configuration of
-- RTCM in the receiver, the NTP shared memory (a copy of gpsd), logging and the tools under utils/.
pub mod Base
pub mod Structs
pub mod Clock
pub mod Phasemeter
pub mod Gnss
pub mod Monitoring
pub mod Eeprom
pub mod Oscillator
pub mod Config
pub mod Daemon
pub mod Devices
pub mod Sa3x
pub mod Sa5x
pub mod Mro50
