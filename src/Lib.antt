-- ===== src/Lib.antt =====
-- The core of an unmanned ground vehicle: commands come in through a file, are queued and executed by
-- handlers, and change the drives, the emergency stop and the stop of the process; telemetry goes out
-- through another file, and a small state survives in a checksummed file. This library models the
-- C++ program and proves what makes its parts correct.
--
-- The parts, and the modules that model them:
-- - Models: models/enums/. One module per enumeration, with the wire values. A value without an
--   enumerator, which a static_cast lets in, is `unnamed`.
-- - Command.Types: command/CommandTypes.hpp. Command.Router: command/CommandRouter.hpp and .cpp, whose
--   operations take and return the router and the state that handlers change. Outcome, Batch and
--   History prove what one command, one batch and any sequence of critical sections do.
-- - Core.StopController, Core.EStopLatch, Core.StateStore: the files of core/ of these names; Core.Crc32:
--   crc32_ieee of core/StateStore.cpp. EStopLatch.Threads interleaves the steps of `trigger`.
-- - Utils.Base64 and Utils.Logger: utils/Base64.cpp, utils/Logger.hpp and Logger.cpp; Logger.Stamp is its
--   time stamp.
-- - Subsystems: subsystems/Interfaces.hpp, Stubs.hpp and Iceoryx2Bridge.cpp (module Bridge, whose state
--   is the object's, and whose two files are the bytes in them). An abstract class is a record of its
--   operations, and a stub an instance of it; Stubs.Contract is what a user of the drives counts on.
-- - Config: config/UgvConfig.hpp with core/Rate.hpp, and config/UgvCore.hpp and .cpp: Vehicle (the
--   members that handlers change), Handlers (register_default_command_handlers), Ticks (one round of
--   each thread), Boot (`run` up to its wait, and safe_shutdown), Runtime (the threads side by side,
--   round by round, as a step relation, up to the return of `run`), System (the same with every log
--   line, one access to shared data a step).
-- - Main: main.cpp, its arguments and settings, and `main` up to the wait of `run`.
-- - Common and Stdlib: tests, lists, bits and text; std::getline, std::to_string and std::stoull.
-- - Examples: concrete runs.
--
-- Numbers are natural numbers; the width of a machine integer is written out where it matters
-- (uint64_t in the expiry, the offset and the parsed fields, uint32_t in the checksum). No loop of
-- the program needs fuel: each is a recursion on the list it reads or on its bound. The digits of a
-- number are the one recursion on fuel: twenty digits, which hold every uint64_t.
--
-- Parameters stand for what is not in the repository: what the file system answers to one operation
-- (that it fails or throws, and how many bytes a device takes), the printing of a double, the width of
-- `unsigned long`, the clock, and the enumerator RejectReason::SafetyLockout, which
-- config/UgvCore.cpp names and models/enums/RejectReason.hpp does not declare.
--
-- What is not modelled: the Rust client under rust/, the generated cmake-build-debug/, the log
-- lines of the boot and of `main`, the thread names of the logger, its creation of directories,
-- failures to get memory or a thread, and the time zone (the stamp takes the local time). Log lines
-- matter in one place: a fatal one does not come back under the settings of main.cpp
-- (Utils.Logger). Config.Fatal has the code of an emergency stop with these lines, and Boot has as
-- a parameter whether they come back; Handlers, Ticks and Runtime are the program with a logger
-- whose fatal calls come back.
--
-- Config.System is the running program with any logger. `Move` is what each thread and `run` can do
-- from a place in their code, `Pc`, to the next: a test of a flag, an access to the queue, a file
-- or the drives, the exchange of the latch, or a log line. A log call that locks its mutex twice
-- leaves the thread `stuck` and the mutex `held`, and every other log line of a level that is
-- written waits for it. Taking a command and executing its handler up to its first log line is one
-- step, as is reading the whole command file, a telemetry round and a save. In Runtime a round of
-- the emergency-stop, sensor, IO or persist thread is one step, and a control round is one step for
-- each command. Sleeps take any time in both. A client may append to the command file between any
-- two steps of System. The layout of the state file is that of a little-endian machine.
pub mod Common
pub mod Stdlib
pub mod Utils
pub mod Models
pub mod Command
pub mod Core
pub mod Subsystems
pub mod Config
pub mod Main
pub mod Examples
