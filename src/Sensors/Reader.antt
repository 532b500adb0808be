-- ===== src/Sensors/Reader.antt =====
-- `IBCRegisterReader` and `TempSensorReader`: the same state machine for a register read over I2C, one
-- step for each call. The I2C driver is of another repository: the calls are events of a trace, and
-- what the driver answers is a function of the trace. A poll is an event too.
pub mod Reads
use common_embedded_platform.Prelude.{
  ℕ, ◌*◌, Bool, true, false, Option, none, some, List, ◌∷◌, bit_or, u16, if◌then◌else◌,
}

pub data Event : Type 0 where
  -- The number of bytes, the device address, and whether it is a read.
  start : ℕ → ℕ → Bool → Event
  write : ℕ → Event
  poll_start poll_write poll_read read_data : Event
  -- `g_i2c.Reset()`, a sleep of the timer, and the readings of the converter.
  i2c_reset adc_temperature adc_supply : Event
  slept : ℕ → Event

abbrev pub Trace : Type 0
Trace = List Event

-- IsStartDone, IsWriteDone, IsReadReady, and the byte of GetReadData.
pub record I2c : Type 0 where
  pub start_done : Trace → Bool
  pub write_done : Trace → Bool
  pub read_ready : Trace → Bool
  pub read_byte : Trace → ℕ

pub data State : Type 0 where
  idle addr_start regid data_lo data_hi : State

pub record Reader : Type 0 where
  pub state : State
  pub tmpval : ℕ

abbrev pub fresh : Reader
fresh = record { state = idle; tmpval = 0 }

unfoldable pub reset : Reader → Reader
reset r = record r { state = idle }

-- What a call returns: the new value of `regval`, if it returns true.
abbrev pub Reply : Type 0
Reply = Option ℕ × Reader × Trace

module _ (i2c : I2c) (address register : ℕ) where
  step_idle : Reader → Trace → Reply
  step_idle r t = (none, record r { state = addr_start }, start 1 address false ∷ t)

  step_addr_start : Reader → Trace → Reply
  step_addr_start r t =
      if i2c.start_done t
      then (none, record r { state = regid }, write register ∷ poll_start ∷ t)
      else (none, r, poll_start ∷ t)

  step_regid : Reader → Trace → Reply
  step_regid r t =
      if i2c.write_done t
      then (none, record r { state = data_lo }, start 2 address true ∷ poll_write ∷ t)
      else (none, r, poll_write ∷ t)

  step_data_lo : Reader → Trace → Reply
  step_data_lo r t =
      if i2c.read_ready t
      then (
        none,
        record r { state = data_hi; tmpval = i2c.read_byte (poll_read ∷ t) },
        read_data ∷ poll_read ∷ t,
      )
      else (none, r, poll_read ∷ t)

  -- `regval = GetReadData() | (m_tmpval << 8);`
  step_data_hi : Reader → Trace → Reply
  step_data_hi r t =
      if i2c.read_ready t
      then (
        some (u16 (bit_or (i2c.read_byte (poll_read ∷ t)) (r.tmpval * 256))),
        record r { state = idle },
        read_data ∷ poll_read ∷ t,
      )
      else (none, r, poll_read ∷ t)

  dispatch : State → Reader → Trace → Reply
  unfolding step_idle step_addr_start step_regid step_data_lo step_data_hi
  dispatch idle r t = step_idle r t
  dispatch addr_start r t = step_addr_start r t
  dispatch regid r t = step_regid r t
  dispatch data_lo r t = step_data_lo r t
  dispatch data_hi r t = step_data_hi r t

  -- `ReadRegisterNonblocking`, and `ReadTempNonblocking`, which asks for register 0.
  unfoldable pub read_nonblocking : Reader → Trace → Reply
  unfolding dispatch
  read_nonblocking r t = dispatch r.state r t
