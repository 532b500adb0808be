-- ===== src/Sensors/Tests.antt =====
-- The sensor parts on a bus that answers at once.
use common_embedded_platform.Prelude.{
  ◌≤◌, ◌<◌, ◌≡◌, refl, true, false, none, some, [], ◌∷◌, arith, length, replicate, ◌%◌,
}
use common_embedded_platform.Sensors.Reader.{
  I2c, Trace, Reader, poll_read, read_data, idle, data_hi, fresh, reset, read_nonblocking,
}
use common_embedded_platform.Sensors.Reader.Reads.{
  received, assembled, IsCoherent, read_nonblocking-IsCoherent, read_nonblocking-assembled, calls,
  five_calls,
}
use common_embedded_platform.Sensors.Poll.{
  Config, no_adc, AdcDriver, Sensors, Poller, poll, dispatch, check_timeout,
}
use common_embedded_platform.Sensors.Poll.Rotation.{IsBounded, poll-IsBounded}
use common_embedded_platform.Sensors.Server.{Versions, on_command, readout}
use common_embedded_platform.Sensors.Server.Readout.{length-on_command}

-- The byte read is the number of events so far, and every transfer is done at the first poll.
abbrev eager : I2c
eager = record {
  start_done = λ t. true;
  write_done = λ t. true;
  read_ready = λ t. true;
  read_byte = λ t. length t % 256;
}

eager_byte : (t : Trace) → eager.read_byte t < 256
eager_byte t = omega arith

-- The second byte is still to come.
abbrev half_read : Reader
half_read = record { state = data_hi; tmpval = 1 }

abbrev half_trace : Trace
half_trace = read_data ∷ poll_read ∷ []

read_nonblocking-IsCoherent_test :
    IsCoherent eager
      (read_nonblocking eager 0x42 7 half_read half_trace).1
      (read_nonblocking eager 0x42 7 half_read half_trace).2
read_nonblocking-IsCoherent_test =
    read_nonblocking-IsCoherent eager 0x42 7 eager_byte half_read half_trace (refl, omega arith)

read_nonblocking-assembled_example :
    assembled (received eager (read_nonblocking eager 0x42 7 half_read half_trace).2) ≡ some 259
unfolding read_nonblocking
read_nonblocking-assembled_example =
    read_nonblocking-assembled eager 0x42 7 eager_byte half_read half_trace 259 (refl, omega arith)
      refl

five_calls_test :
    ((calls eager 0x42 7 4 (record { state = idle; tmpval = 0 }) []).0 ≡ none)
    × ((calls eager 0x42 7 5 (record { state = idle; tmpval = 0 }) []).0
        ≡ assembled
            (received eager (calls eager 0x42 7 5 (record { state = idle; tmpval = 0 }) []).2))
    × ((calls eager 0x42 7 5 (record { state = idle; tmpval = 0 }) []).1.state ≡ idle)
five_calls_test = five_calls eager 0x42 7 (λ t. refl) (λ t. refl) (λ t. refl) eager_byte 0 []

abbrev config : Config
config = record {
  legacy_ibc = false;
  adc = no_adc;
  temp_address = 0x90;
  ibc_address = 0x42;
  reg_vin = 0;
  reg_vout = 1;
  reg_vsense = 2;
  reg_iin = 3;
  reg_iout = 4;
  reg_mcu_temp = 5;
  reg_3v3_sb = 6;
}

abbrev driver : AdcDriver
driver = record { temperature = λ t. 0; temperature_ready = λ t. true; supply_voltage = λ t. 0 }

abbrev zeros : Sensors
zeros = record {
  ibc_temp = 0;
  vin48 = 48000;
  vout12 = 0;
  voutsense = 0;
  iin = 0;
  iout = 0;
  ibc_mcu_temp = 0;
  ibc_3v3 = 0;
  mcutemp = 0;
  supply_3v3 = 0;
}

-- The timeout is reached by the next call.
abbrev overdue : Poller
overdue = record {
  regreader = half_read;
  tempreader = fresh;
  state = 4;
  last_update = 30000;
  sensors = zeros;
  trace = half_trace;
}

poll_test :
    ((poll config eager driver overdue).0.state ≡ 0)
    × ((poll config eager driver overdue).0.last_update ≡ 0)
unfolding poll dispatch check_timeout read_nonblocking reset
poll_test = (refl, refl)

poll-IsBounded_example : IsBounded (poll config eager driver overdue).0
poll-IsBounded_example = poll-IsBounded config eager driver overdue (omega arith, omega arith)

abbrev versions : Versions
versions = record {
  version = replicate 20 65;
  ibc_sw_version = replicate 20 66;
  ibc_hw_version = replicate 20 67;
}

on_command_test : on_command (λ n. []) 0x10 versions zeros ≡ 0 ∷ 128 ∷ 187 ∷ []
unfolding on_command readout
on_command_test = refl

length-on_command_test : length (on_command (λ n. []) 0x10 versions zeros) ≤ 64
length-on_command_test =
    length-on_command (λ n. []) 0x10 versions zeros (omega arith) (omega arith) (omega arith)
      (λ n. omega arith)
