-- ===== src/Sensors/Poll.antt =====
-- `PollIBCSensors` (supervisor/supervisor.cpp): the rotation over the sensors of the intermediate bus
-- converter, with its timeout. The `static` variables and the globals that hold the readings are fields.
pub mod Rotation
use common_embedded_platform.Prelude.{
  ℕ, suc, ◌+◌, Bool, true, false, Option, none, some, List, ◌∷◌, ltb, ◌==◌, if◌then◌else◌,
}
use common_embedded_platform.Sensors.Reader.{
  I2c, Trace, Reader, Reply, fresh, reset, read_nonblocking, i2c_reset, adc_temperature, adc_supply,
  slept,
}

-- HAVE_ADC undefined, defined, and defined on an STM32L431.
pub data Adc : Type 0 where
  no_adc blocking nonblocking : Adc

-- The build: LEGACY_IBC, the converter, the two I2C addresses, and the IBC_REG_ numbers, which are of
-- another repository.
pub record Config : Type 0 where
  pub legacy_ibc : Bool
  pub adc : Adc
  pub temp_address : ℕ
  pub ibc_address : ℕ
  pub reg_vin : ℕ
  pub reg_vout : ℕ
  pub reg_vsense : ℕ
  pub reg_iin : ℕ
  pub reg_iout : ℕ
  pub reg_mcu_temp : ℕ
  pub reg_3v3_sb : ℕ

-- What the converter answers: GetTemperature, GetTemperatureNonblocking and GetSupplyVoltage.
pub record AdcDriver : Type 0 where
  pub temperature : Trace → ℕ
  pub temperature_ready : Trace → Bool
  pub supply_voltage : Trace → ℕ

pub record Sensors : Type 0 where
  pub ibc_temp : ℕ
  pub vin48 : ℕ
  pub vout12 : ℕ
  pub voutsense : ℕ
  pub iin : ℕ
  pub iout : ℕ
  pub ibc_mcu_temp : ℕ
  pub ibc_3v3 : ℕ
  pub mcutemp : ℕ
  pub supply_3v3 : ℕ

pub record Poller : Type 0 where
  pub regreader : Reader
  pub tempreader : Reader
  pub state : ℕ
  pub last_update : ℕ
  pub sensors : Sensors
  pub trace : Trace

-- The timeout at the start of a call: `iLastUpdate ++` and the reset.
unfoldable pub check_timeout : Poller → Poller
check_timeout p =
    if ltb 30000 (suc p.last_update)
    then record p {
      regreader = reset p.regreader;
      tempreader = reset p.tempreader;
      state = 0;
      last_update = 0;
      trace = slept 2 ∷ i2c_reset ∷ p.trace;
    }
    else record p { last_update = suc p.last_update }

-- One case of the switch that reads a register, from the reply of the reader on. `save` writes the global, `clears` is
-- whether the case sets `iLastUpdate` to 0.
abbrev pub after_register : Reply → (ℕ → Sensors → Sensors) → Bool → Poller → Poller
after_register (none, r, t) save clears p = record p { regreader = r; trace = t }
after_register (some v, r, t) save clears p = record p {
  regreader = r;
  trace = t;
  sensors = save v p.sensors;
  state = suc p.state;
  last_update = if clears then 0 else p.last_update;
}

abbrev pub after_temperature : Reply → Poller → Poller
after_temperature (none, r, t) p = record p { tempreader = r; trace = t }
after_temperature (some v, r, t) p = record p {
  tempreader = r;
  trace = t;
  sensors = record p.sensors { ibc_temp = v };
  state = suc p.state;
  last_update = 0;
}

module _ (config : Config) (i2c : I2c) (driver : AdcDriver) where
  abbrev pub read_register : ℕ → (ℕ → Sensors → Sensors) → Bool → Poller → Poller
  read_register register save clears p =
      after_register (read_nonblocking i2c config.ibc_address register p.regreader p.trace) save
        clears p

  abbrev pub read_temperature : Poller → Poller
  read_temperature p =
      after_temperature (read_nonblocking i2c config.temp_address 0 p.tempreader p.trace) p

  -- State 8.
  abbrev pub read_mcu_temperature : Adc → Poller → Poller × Bool
  read_mcu_temperature no_adc p = (record p { state = 0 }, true)
  read_mcu_temperature blocking p = (
    record p {
      sensors = record p.sensors { mcutemp = driver.temperature p.trace };
      state = suc p.state;
      trace = adc_temperature ∷ p.trace;
    },
    false,
  )
  read_mcu_temperature nonblocking p =
      if driver.temperature_ready p.trace
      then (
        record p {
          sensors = record p.sensors { mcutemp = driver.temperature p.trace };
          state = suc p.state;
          trace = adc_temperature ∷ p.trace;
        },
        false,
      )
      else (record p { trace = adc_temperature ∷ p.trace }, false)

  -- State 9.
  abbrev pub read_supply : Adc → Poller → Poller × Bool
  read_supply no_adc p = (record p { state = 0 }, true)
  read_supply blocking p = (
    record p {
      sensors = record p.sensors { supply_3v3 = driver.supply_voltage p.trace };
      state = suc p.state;
      trace = adc_supply ∷ p.trace;
    },
    false,
  )
  read_supply nonblocking p = (
    record p {
      sensors = record p.sensors { supply_3v3 = driver.supply_voltage p.trace };
      state = suc p.state;
      trace = adc_supply ∷ p.trace;
    },
    false,
  )

  -- The switch: the state afterwards, and whether the rotation has come to its end.
  unfoldable pub dispatch : ℕ → Poller → Poller × Bool
  dispatch n p =
      if n == 0
      then (read_temperature p, false)
      else if n == 1
      then (read_register config.reg_vin (λ v. λ g. record g { vin48 = v }) true p, false)
      else if n == 2
      then (read_register config.reg_vout (λ v. λ g. record g { vout12 = v }) true p, false)
      else if n == 3
      then (read_register config.reg_vsense (λ v. λ g. record g { voutsense = v }) true p, false)
      else if n == 4
      then (read_register config.reg_iin (λ v. λ g. record g { iin = v }) false p, false)
      else if n == 5
      then (read_register config.reg_iout (λ v. λ g. record g { iout = v }) false p, false)
      else if n == 6
      then (if config.legacy_ibc then (record p { state = 8 }, false) else (
        read_register config.reg_mcu_temp (λ v. λ g. record g { ibc_mcu_temp = v }) false p,
        false,
      ))
      else if n == 7
      then (if config.legacy_ibc then (record p { state = 8 }, false) else (
        read_register config.reg_3v3_sb (λ v. λ g. record g { ibc_3v3 = v }) false p,
        false,
      ))
      else if n == 8
      then read_mcu_temperature config.adc p
      else if n == 9
      then read_supply config.adc p
      else (record p { state = 0 }, true)

  unfoldable pub poll : Poller → Poller × Bool
  poll p = let q = check_timeout p in dispatch q.state q
