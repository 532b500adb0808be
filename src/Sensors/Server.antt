-- ===== src/Sensors/Server.antt =====
-- `SupervisorSPIServer::OnCommand` (supervisor/SupervisorSPIServer.cpp): the bytes sent for a command.
-- A global is sent as it lies in memory, a 16 bit reading with its low byte first.
pub mod Readout
use common_embedded_platform.Prelude.{
  ℕ, ◌/◌, ◌%◌, Bool, true, false, List, [], ◌∷◌, ◌++◌, leb, ◌==◌, if◌then◌else◌,
}
use common_embedded_platform.Sensors.Poll.{Sensors}

-- The version strings, each the array with its terminator.
pub record Versions : Type 0 where
  pub version : List ℕ
  pub ibc_sw_version : List ℕ
  pub ibc_hw_version : List ℕ

abbrev pub bytes_of : ℕ → List ℕ
bytes_of n = (n % 256) ∷ (n / 256 % 256) ∷ []

-- A build without NO_IBC; the registers are those of supervisor/SupervisorSPIRegisters.h, 0x00 to 0x02 and 0x10
-- to 0x19.
unfoldable pub readout : ℕ → Versions → Sensors → List ℕ
readout command v g =
    if command == 0
    then v.version
    else if command == 1
    then v.ibc_sw_version
    else if command == 2
    then v.ibc_hw_version
    else if command == 16
    then bytes_of g.vin48
    else if command == 17
    then bytes_of g.iin
    else if command == 18
    then bytes_of g.ibc_temp
    else if command == 19
    then bytes_of g.vout12
    else if command == 20
    then bytes_of g.iout
    else if command == 21
    then bytes_of g.voutsense
    else if command == 22
    then bytes_of g.ibc_mcu_temp
    else if command == 23
    then bytes_of g.ibc_3v3
    else if command == 24
    then bytes_of g.mcutemp
    else if command == 25
    then bytes_of g.supply_3v3
    else []

-- The whole reply: a dummy byte, then the register. The commands from 0x80 on are the application's:
-- `application` is what its handler sends.
unfoldable pub on_command : (ℕ → List ℕ) → ℕ → Versions → Sensors → List ℕ
on_command application command v g =
    0 ∷ (if leb 128 command then application command else readout command v g)
