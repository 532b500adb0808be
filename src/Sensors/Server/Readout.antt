-- ===== src/Sensors/Server/Readout.antt =====
-- The size of a reply, against the FIFO of the SPI driver.
use common_embedded_platform.Prelude.{ℕ, ◌≤◌, List, arith, length}
use common_embedded_platform.Sensors.Poll.{Sensors}
use common_embedded_platform.Sensors.Server.{Versions, readout, on_command}

length-readout :
    (command : ℕ) (v : Versions) (g : Sensors)
    → length v.version ≤ 20
    → length v.ibc_sw_version ≤ 20
    → length v.ibc_hw_version ≤ 20
    → length (readout command v g) ≤ 20
unfolding readout
length-readout command v g a b c = ground arith

-- A reply of the common registers fits in the 64 bytes of the transmit FIFO, when the version strings have the 20
-- bytes that they are declared with and the application's replies have at most 63.
pub length-on_command :
    (application : ℕ → List ℕ) (command : ℕ) (v : Versions) (g : Sensors)
    → length v.version ≤ 20
    → length v.ibc_sw_version ≤ 20
    → length v.ibc_hw_version ≤ 20
    → ((n : ℕ) → length (application n) ≤ 63)
    → length (on_command application command v g) ≤ 64
unfolding on_command
length-on_command application command v g a b c d =
    let r = length-readout command v g a b c in let s = d command in ground arith
