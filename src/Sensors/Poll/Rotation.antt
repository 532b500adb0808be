-- ===== src/Sensors/Poll/Rotation.antt =====
-- Bounds of the rotation and of its timeout.
use common_embedded_platform.Prelude.{
  ℕ, suc, ◌≤◌, ◌≡◌, refl, Bool, true, false, none, some, arith, ltb, ◌==◌, if◌then◌else◌,
  Bool-cases, inl, inr,
}
use common_embedded_platform.Sensors.Reader.{I2c, Reply, read_nonblocking}
use common_embedded_platform.Sensors.Poll.{
  Adc, no_adc, blocking, nonblocking, Config, AdcDriver, Sensors, Poller, check_timeout,
  after_register, after_temperature, read_register, read_mcu_temperature, read_supply, dispatch,
  poll,
}

-- The counter stays far from the end of an int, and the state is a case of the switch or its default.
abbrev pub IsBounded : Poller → Type 0
IsBounded p = (p.state ≤ 10) × (p.last_update ≤ 30000)

check_timeout-IsBounded : (p : Poller) → IsBounded p → IsBounded (check_timeout p)
unfolding check_timeout
check_timeout-IsBounded p h = elim (Bool-cases (ltb 30000 (suc p.last_update))) [
  | inl x ↦ rw x (omega arith, omega arith)
  | inr y ↦ rw y (h.0, ground arith)
]

after_register-IsBounded :
    (reply : Reply) (save : ℕ → Sensors → Sensors) (clears : Bool) (p : Poller)
    → p.state ≤ 9
    → p.last_update ≤ 30000
    → IsBounded (after_register reply save clears p)
after_register-IsBounded (none, r, t) save clears p h k = (omega (arith, h), k)
after_register-IsBounded (some v, r, t) save true p h k = (omega (arith, h), omega arith)
after_register-IsBounded (some v, r, t) save false p h k = (omega (arith, h), k)

after_temperature-IsBounded :
    (reply : Reply) (p : Poller)
    → p.state ≤ 9
    → p.last_update ≤ 30000
    → IsBounded (after_temperature reply p)
after_temperature-IsBounded (none, r, t) p h k = (omega (arith, h), k)
after_temperature-IsBounded (some v, r, t) p h k = (omega (arith, h), omega arith)

if-IsBounded :
    (b : Bool) (x y : Poller × Bool)
    → (b ≡ true → IsBounded x.0)
    → IsBounded y.0
    → IsBounded (if b then x else y).0
if-IsBounded true x y p q = p refl
if-IsBounded false x y p q = q

module _ (config : Config) (i2c : I2c) (driver : AdcDriver) where
  mcu_temperature-IsBounded :
      (adc : Adc) (p : Poller)
      → p.state ≤ 9
      → p.last_update ≤ 30000
      → IsBounded (read_mcu_temperature config i2c driver adc p).0
  mcu_temperature-IsBounded no_adc p h k = (omega arith, k)
  mcu_temperature-IsBounded blocking p h k = (omega (arith, h), k)
  mcu_temperature-IsBounded nonblocking p h k =
      elim (Bool-cases (driver.temperature_ready p.trace)) [
        | inl x ↦ rw x (omega (arith, h), k)
        | inr y ↦ rw y (omega (arith, h), k)
      ]

  supply-IsBounded :
      (adc : Adc) (p : Poller)
      → p.state ≤ 9
      → p.last_update ≤ 30000
      → IsBounded (read_supply config i2c driver adc p).0
  supply-IsBounded no_adc p h k = (omega arith, k)
  supply-IsBounded blocking p h k = (omega (arith, h), k)
  supply-IsBounded nonblocking p h k = (omega (arith, h), k)

  legacy-IsBounded :
      (legacy : Bool) (p q : Poller)
      → p.last_update ≤ 30000
      → IsBounded q
      → IsBounded
          (if◌then◌else◌ {A = Poller × Bool} legacy (record p { state = 8 }, false) (q, false)).0
  legacy-IsBounded true p q k h = (omega arith, k)
  legacy-IsBounded false p q k h = h

  dispatch-IsBounded :
      (n : ℕ) (p : Poller)
      → p.state ≡ n
      → p.last_update ≤ 30000
      → IsBounded (dispatch config i2c driver n p).0
  unfolding dispatch
  dispatch-IsBounded n p e k =
      let at : (m : ℕ) → m ≤ 9 → (n == m) ≡ true → p.state ≤ 9 = λ m h x. ground arith in
      let register = λ (r : ℕ) (save : ℕ → Sensors → Sensors) (clears : Bool) (h : p.state ≤ 9).
        after_register-IsBounded (read_nonblocking i2c config.ibc_address r p.regreader p.trace)
          save clears p h k in
      if-IsBounded (n == 0) _ _
        (λ x.
          after_temperature-IsBounded
            (read_nonblocking i2c config.temp_address 0 p.tempreader p.trace) p
            (at 0 (omega arith) x) k)
        (if-IsBounded (n == 1) _ _
          (λ x.
            register config.reg_vin (λ v. λ g. record g { vin48 = v }) true (at 1 (omega arith) x))
          (if-IsBounded (n == 2) _ _
            (λ x.
              register config.reg_vout (λ v. λ g. record g { vout12 = v }) true
                (at 2 (omega arith) x))
            (if-IsBounded (n == 3) _ _
              (λ x.
                register config.reg_vsense (λ v. λ g. record g { voutsense = v }) true
                  (at 3 (omega arith) x))
              (if-IsBounded (n == 4) _ _
                (λ x.
                  register config.reg_iin (λ v. λ g. record g { iin = v }) false
                    (at 4 (omega arith) x))
                (if-IsBounded (n == 5) _ _
                  (λ x.
                    register config.reg_iout (λ v. λ g. record g { iout = v }) false
                      (at 5 (omega arith) x))
                  (if-IsBounded (n == 6) _ _
                    (λ x.
                      legacy-IsBounded config.legacy_ibc p
                        (read_register config i2c driver config.reg_mcu_temp
                          (λ v. λ g. record g { ibc_mcu_temp = v }) false p)
                        k
                        (register config.reg_mcu_temp (λ v. λ g. record g { ibc_mcu_temp = v })
                          false (at 6 (omega arith) x)))
                    (if-IsBounded (n == 7) _ _
                      (λ x.
                        legacy-IsBounded config.legacy_ibc p
                          (read_register config i2c driver config.reg_3v3_sb
                            (λ v. λ g. record g { ibc_3v3 = v }) false p)
                          k
                          (register config.reg_3v3_sb (λ v. λ g. record g { ibc_3v3 = v }) false
                            (at 7 (omega arith) x)))
                      (if-IsBounded (n == 8) _ _
                        (λ x. mcu_temperature-IsBounded config.adc p (at 8 (omega arith) x) k)
                        (if-IsBounded (n == 9) _ _
                          (λ x. supply-IsBounded config.adc p (at 9 (omega arith) x) k)
                          (omega arith, k))))))))))

  -- A call keeps the state at 10 or below and the timeout counter at 30000 or below, whichever build it is and
  -- whatever the bus answers.
  pub poll-IsBounded : (p : Poller) → IsBounded p → IsBounded (poll config i2c driver p).0
  unfolding poll
  poll-IsBounded p h =
      let q = check_timeout-IsBounded p h in
      dispatch-IsBounded (check_timeout p).state (check_timeout p) refl q.1
