-- ===== src/Lib.antt =====
-- Verification of the common embedded platform.
--
-- The platform is a library for firmware on microcontrollers: a supervisor that sequences power rails
-- and reset lines, channels between the cores of a device, periodic tasks, a bootloader, and the
-- services of a network device. The parts that are modelled:
--
-- - Supervisor: supervisor/PowerResetSupervisor.cpp and .h (Supervisor/Sequencer.antt),
--   supervisor/RailDescriptor.h (Supervisor/Rail.antt) and supervisor/ResetDescriptor.h
--   (Supervisor/Reset.antt). `turn_on`, `deassert`, `is_ready`, `power_on`, `update_resets`,
--   `monitor_rails`, `iteration` and so on are the functions of those names. A class hierarchy is a
--   data type with one constructor for each class. Pins, timers and the ADC answer through Supervisor/Board.antt: what the
--   code does is a trace of events, and an answer is a function of the trace. Rails and reset lines
--   are the sequencer's two lists.
-- - Multicore: the FIFO of multicore/IPCDescriptorTable.h and .cpp (Multicore/Fifo.antt, and
--   Multicore/Fifo/Interleaving.antt for both cores at once), its table of channels
--   (Multicore/Table.antt), and multicore/MulticoreLogDevice.cpp (Multicore/Log.antt), which pushes
--   its messages through such a FIFO. The IPC controller is the interface `Ipcc` with its laws.
-- - Sensors: supervisor/IBCRegisterReader.cpp and supervisor/TempSensorReader.cpp
--   (Sensors/Reader.antt), `PollIBCSensors` of supervisor/supervisor.cpp, which drives them
--   (Sensors/Poll.antt), and supervisor/SupervisorSPIServer.cpp, which sends the readings
--   (Sensors/Server.antt).
-- - Core: core/TimerTask.cpp and .h with the main loop of core/main.cpp (Core/Timer.antt), and
--   `FormatBuildID` of core/main.cpp (Core/BuildId.antt).
-- - Bootloader: the boot decision of bootloader/bootloader.cpp (Bootloader/Boot.antt), which compares
--   build IDs as `FormatBuildID` writes them.
-- - Access: tcpip/SSHKeyManager.cpp and tcpip/KeyManagerPubkeyAuthenticator.cpp (Access/Keys.antt),
--   and the link state of tcpip/PhyPollTask.cpp (Access/Link.antt).
-- - Fpga: fpga/FPGAFirmwareUpdater.cpp and .h (Fpga/Partition.antt for its state and the erasure of
--   the flash, Fpga/Updater.antt for the rest), which checks a bit file and streams it to a flash. The
--   flash driver answers as a function of the trace of calls.
-- - Services: services/Iperf3Server.cpp and .h (Services/Iperf.antt for its state,
--   Services/Iperf/Json.antt for its parser, Services/Iperf/Channel.antt for a connection,
--   Services/Iperf/Server.antt for the table of connections and the datagrams), whose network stack
--   answers as a function of the trace of what was sent; and of services/STM32NTPClient.cpp the stored
--   configuration and the clock error (Services/Ntp.antt).
-- - Drivers: drivers/TCA6424A.cpp and .h (Drivers/Expander.antt), an I/O expander whose registers are
--   what the trace of its bus wrote to them.
-- - Cli: the parsing of addresses in cli/CommonCommands.cpp and `SetIPAddress` (Cli/Address.antt).
--
-- The FPGA updater and the iperf3 server keep bytes in `CircularFIFO` of the network stack, which is
-- another repository: Buffer.antt states it as an interface with laws.
--
-- Prelude.antt and its children hold the shared helpers. A file Tests.antt of a part runs its
-- definitions at concrete inputs, Services/NtpTests.antt those of the NTP client.
--
-- Numbers are natural numbers; where a machine word can wrap, the definition says so by `u16`, `u32` or
-- `sub32`. Loops are structural recursions on the lists they go through, or on the number of rounds
-- that the source counts. Five loops are bounded by a number of rounds that the source does not count:
--
-- - that of `OnRxData` of the FPGA updater (`process_all`), where six times the bytes received and a rank
--   of the state are enough, since each round takes bytes or lowers the rank;
-- - that of STATE_SYNC_WAIT (`sync_loop`), where each round takes a byte from the receive buffer, so that the
--   bytes in it are enough;
-- - that of `PushWriteData` (`push_blocks`), where each round takes a block from the write buffer, so that
--   the bytes in it are enough, except for blocks of no bytes;
-- - that of the blank check (`blank_check`), where an image of `n` bytes needs `n / 256` rounds, rounded
--   up, except where the 32-bit address wraps;
-- - that of `OnRxData` of the iperf3 server (`turns`), where four turns are enough.
--
-- In the exceptions the loop of the source never ends. The model then sets `is_endless` in the state of the
-- updater, and `OnRxData` has the result `none`. A wait that has no bound, in
-- `Push` of the FIFO, is the result `none`, or a step that is not possible yet in the interleaved model.
--
-- Not modelled: log output, clock and pin setup, the register access of the FPGA, setting the RTC, the
-- commands that only print, hardware identification and the driver of the PHY. Code of other
-- repositories is a parameter wherever it is called: GPIO, timer, ADC, I2C, SPI and flash drivers, the
-- IPC controller, the CRC unit, the network stack, the base64 decoder and the key-value store.
pub mod Prelude
pub mod Supervisor
pub mod Multicore
pub mod Sensors
pub mod Core
pub mod Access
pub mod Bootloader
pub mod Buffer
pub mod Fpga
pub mod Services
pub mod Cli
pub mod Drivers
