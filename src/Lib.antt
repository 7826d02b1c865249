-- ===== src/Lib.antt =====
-- VorsprungLogger: a telemetry logger for a car. It samples the engine, the GNSS receiver and the
-- motion sensor into slots of memory, turns each slot into one text packet, sends the packets over
-- cellular UDP, and keeps on the SD card what it cannot send, until the link is back. What makes a
-- record useful is its time, so each packet carries the UTC second of its capture, also when the
-- device learns the time only afterwards.
--
-- The parts, and the files that model them:
--
-- * The clock (src/timeanchor.cpp, include/timeanchor.h): `Time`. `Time.Civil` has the conversions
--   between civil time, the epoch and the wire fields of GNSS (`timeCivilToEpoch`,
--   `timeEpochToGps`, and the inverse in `processGPS` of src/main.cpp). `Time.Boot` has the
--   identifier of a boot (`timeAnchorInit`), `Time.Anchor` the anchor of the monotonic clock
--   (`timeAnchorSet`, `timeAnchorIsSet`, `timeAnchorResolve`); `Time.Calendar`, `Time.Inverse`,
--   `Time.Wire`, `Time.Session` and `Time.Resolve` prove what they do.
-- * The packet cache (`CStorage` and `CStorageRAM` of src/telestore.cpp): `Store`, with
--   `Store.Log` and `Store.Floats` for the overloads of `log`. `Store.Restamp` has the sequence by
--   which the drain gives a packet its time; `Store.Bounds` is about the bytes of the cache.
-- * The element slots (`CBuffer` of src/teleclient.cpp): `Buffer`. The slot manager
--   (`CBufferManager`): `Slots`. `Buffer.Room` counts the bytes that calls of `add` take.
-- * The record spool (`RecordSpool` of src/telestore.cpp): `Spool`, with `Spool.Drain` for
--   `drainOneRecord`; `Spool.Frame`, `Spool.Replay` and `Spool.Outage` prove what comes back from
--   it. The spool calls the anchor, the packet cache and the client's `transmit`.
-- * The diagnostic requests (include/uds_dids.h, and `readUDSValue`, `pollUDS`, `readGroup` and
--   `processUDS` of src/main.cpp): `Uds`. They fill the slots. `Uds.Rows`, `Uds.Budget`,
--   `Uds.Room`, `Uds.Group` and, with `Uds.Kept` and `Uds.Rounds`, `Uds.Fair` prove what the table
--   and the scheduler keep to. `Uds.Did` and `Uds.Hex` are the client that asks for one datum
--   (`CUDS` and `udsParseAsciiHex` of libraries/FreematicsPlus/FreematicsUDS.cpp), which the
--   requests take as `read_did`; `Uds.Reply` and `Uds.Answers` prove what it makes of an answer's
--   text.
-- * The live values of the engine (`processOBD` of src/main.cpp): `Obd`. `Obd.Tiers`, `Obd.Kept`
--   and `Obd.Bounds` are about the rows, the cursors and the cost of its walk.
-- * The receiver (`initGPS`, its watchdog in `process`, `processGPS` and `waitMotionGPS` of
--   src/main.cpp): `Gnss`, with `Gnss.Position` for a fix on its way to the anchor and the slot.
--   `Gnss.Watchdog` is about the power of the receiver, `Gnss.Filter` about the fixes that are
--   accepted.
-- * The motion sensor (`processMEMS`, `calibrateMEMS` and `waitMotion` of src/main.cpp): `Motion`,
--   with `Motion.Mean` and `Motion.Calibration`.
-- * The main task (`setup`, `loop`, `initialize`, `standby` and `process` of src/main.cpp):
--   `Process`. `Process.Board` joins the drivers in one record, and gives each part of the program
--   its view of them; `Process.Parts` has the parts of a cycle, `Process.Cycle` the cycle (a wait in
--   `getFree` ends a round, and the next one goes on from it), and
--   `Process.Task` what comes before and between the cycles. A cycle calls the slot manager, the
--   engine's values, the diagnostic requests, the motion sensor and the receiver.
--   `Process.Readings`, `Process.Room` and `Process.Whole` are about the slot that a cycle fills,
--   `Process.Wait` is about the wait at its end, `Process.Startup` and `Process.Runs` about all
--   runs.
-- * The telemetry client (`TeleClientUDP` of src/teleclient.cpp): `Client`, with `Client.Connect`
--   and `Client.NetworkTime` (`networkTime`, the clock of the modem). It builds its event packets
--   with the packet cache, and takes the server's time to the anchor. `Client.Checksum`,
--   `Client.Session` and `Client.Retries` prove what it does.
-- * The telemetry task (`buildPacket`, `spoolQueuedBuffers`, `initCell` and `telemetry` of
--   src/main.cpp): `Telemetry`. It takes the slots that the main loop has filled, and calls all of
--   the above. `Telemetry.Flags` has the state word that both tasks share, `Telemetry.Packet` a
--   slot's packet, `Telemetry.Queue` the spooling of all filled slots, `Telemetry.Task` the state
--   of the task and the making of its link, `Telemetry.Loop` one round of each loop.
--   `Telemetry.OpenText`, `Telemetry.Backstamp`, `Telemetry.Order`, `Telemetry.Kept` and
--   `Telemetry.Link` prove what it does.
-- * What names the car and the device (`vinIsValid` and `genDeviceID` of src/main.cpp):
--   `Identity`, with a child for what is proved of each.
-- * `Text` has what the code uses of the C library's strings and number formats, and `Base` the
--   names that all files share.
-- * `Examples` runs the definitions on concrete data, and applies the theorems to it.
--
-- How code becomes definitions. State is a record that an operation takes and returns. A byte is a
-- natural number below 256, a uint16_t, uint32_t or uint64_t one below its bound, with the
-- wrap-around written out; a signed difference of the code is an integer of `Base.Int`. What a machine
-- makes of the one product that leaves its signed range, the days of `timeCivilToEpoch` from 2038 on,
-- is a parameter. Text is a
-- list of bytes. Lines that the code prints to its console are left out. The packet cache is
-- `text`, the bytes that the code counts, and `after`, the rest of the block: a write past the end
-- of the block makes the two longer than it, so that `IsStore` says that there was none. A slot of
-- elements is its used bytes and the rest in the same way. `digits_text` has fuel: 10 decimal and
-- 8 hexadecimal digits, which is every uint32_t.
--
-- The SD card is the parameter `Card` of `Spool`: its operations, and in `IsCard` what the spool
-- relies on (a file opened for writing is empty if it was not there, a write that reports all its
-- bytes appends them, a read returns the bytes at its position). `Examples.Memory` has a card that
-- satisfies it. Whether the network takes a spooled packet is a parameter too, as is the text of a
-- float.
--
-- The diagnostic bus, the arithmetic of floats, the modem with the clock beside it, and the
-- drivers of the board are parameters as well; the state of each is passed from call to call.
-- Where an operation of the main task calls drivers whose answers one branch only needs, the model
-- names the answers of all branches and then chooses, so that only the state of the branch taken
-- goes on.
--
-- The endless loops of the two tasks are given by their rounds, and what the other task does
-- between two rounds is a change of the state that the next one starts from. The loop over the
-- filled slots runs on fuel, one unit for each slot: a round frees the slot that it takes. The
-- wait after a failed connection has 180 rounds, as each lasts a second of the three minutes. The
-- parser of an answer has one unit for each character, and takes at least one in each round. The
-- walk of `processOBD` has eleven rounds: each takes it a row on, of eight, or to a slower tier,
-- of three. The waits of the main task, for the end of a calibration, of an interval and of a
-- standstill, run on fuel that is an argument, since the clock decides how long they last; 101
-- rounds are enough for a calibration with a sensor that answers, and one for an interval.
--
-- Not modelled: the lines that print, the LED, and the start of the serial line and of the other
-- task; the drivers and the servers under libraries, which are copies of other projects;
-- tools/traccar_baseline.py, a report on a server's data; and src/dataserver.cpp, which only
-- waits.
pub mod Base
pub mod Text
pub mod Store
pub mod Time
pub mod Buffer
pub mod Gnss
pub mod Identity
pub mod Motion
pub mod Obd
pub mod Process
pub mod Slots
pub mod Spool
pub mod Client
pub mod Telemetry
pub mod Uds
mod Examples
