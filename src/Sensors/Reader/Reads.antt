-- ===== src/Sensors/Reader/Reads.antt =====
-- What a register read returns, against the bytes that went over the bus.
use common_embedded_platform.Prelude.{
  ℕ, zero, suc, ◌+◌, ◌*◌, ◌<◌, ◌≡◌, refl, sym, ap, ◌∙◌, true, false, Option, none, some, List, [],
  ◌∷◌, arith, Bool-cases, inl, inr, u16, bit_or,
}
use common_embedded_platform.Prelude.Bits.{bit_or_byte}
use common_embedded_platform.Sensors.Reader.{
  I2c, Trace, State, Reader, Reply, start, write, poll_start, poll_write, poll_read, i2c_reset,
  adc_temperature, adc_supply, slept, read_data, idle, addr_start, regid, data_lo, data_hi,
  read_nonblocking, dispatch, step_idle, step_addr_start, step_regid, step_data_lo, step_data_hi,
}

-- The bytes read since the last read transfer began, newest first.
abbrev pub received : I2c → Trace → List ℕ
received i2c [] = []
received i2c (read_data ∷ t) = i2c.read_byte t ∷ received i2c t
received i2c (start n a true ∷ t) = []
received i2c (start n a false ∷ t) = received i2c t
received i2c (write b ∷ t) = received i2c t
received i2c (poll_start ∷ t) = received i2c t
received i2c (poll_write ∷ t) = received i2c t
received i2c (poll_read ∷ t) = received i2c t
received i2c (i2c_reset ∷ t) = []
received i2c (adc_temperature ∷ t) = received i2c t
received i2c (adc_supply ∷ t) = received i2c t
received i2c (slept n ∷ t) = received i2c t

-- A register is sent most significant byte first.
abbrev pub assembled : List ℕ → Option ℕ
assembled [] = none
assembled (lo ∷ []) = none
assembled (lo ∷ hi ∷ []) = some (hi * 256 + lo)
assembled (lo ∷ hi ∷ x ∷ bytes) = none

-- What the reader's state says of the bytes so far.
abbrev pub Expects : State → ℕ → List ℕ → Type 0
Expects idle v bytes = v ≡ v
Expects addr_start v bytes = v ≡ v
Expects regid v bytes = v ≡ v
Expects data_lo v bytes = bytes ≡ []
Expects data_hi v bytes = (bytes ≡ v ∷ []) × (v < 256)

abbrev pub IsCoherent : I2c → Reader → Trace → Type 0
IsCoherent i2c r t = Expects r.state r.tmpval (received i2c t)

assemble_byte : (a v : ℕ) → a < 256 → v < 256 → u16 (bit_or a (v * 256)) ≡ v * 256 + a
assemble_byte a v p q =
    let e : bit_or a (v * 256) ≡ a + v * 256 = bit_or_byte a v p in omega (arith, e)

module _ (i2c : I2c) (address register : ℕ) where
  -- A call in any state keeps the state, the saved byte and the bytes that went over the bus in agreement, if
  -- the driver returns bytes below 256.
  pub read_nonblocking-IsCoherent :
      ((t : Trace) → i2c.read_byte t < 256)
      → (r : Reader) (t : Trace) → IsCoherent i2c r t
      → IsCoherent i2c
          (read_nonblocking i2c address register r t).1
          (read_nonblocking i2c address register r t).2
  unfolding read_nonblocking dispatch step_idle step_addr_start step_regid step_data_lo step_data_hi
  read_nonblocking-IsCoherent byte r t ok = go r.state r.tmpval ok
    where
      go :
          (s : State) (v : ℕ)
          → Expects s v (received i2c t)
          → IsCoherent i2c
              (read_nonblocking i2c address register (record { state = s; tmpval = v }) t).1
              (read_nonblocking i2c address register (record { state = s; tmpval = v }) t).2
      go idle v h = refl
      go addr_start v h = elim (Bool-cases (i2c.start_done t)) [
        | inl x ↦ rw x refl
        | inr y ↦ rw y refl
      ]
      go regid v h = elim (Bool-cases (i2c.write_done t)) [ inl x ↦ rw x refl | inr y ↦ rw y refl ]
      go data_lo v h = elim (Bool-cases (i2c.read_ready t)) [
        | inl x ↦ rw x (ap (λ u. i2c.read_byte (poll_read ∷ t) ∷ u) h, byte (poll_read ∷ t))
        | inr y ↦ rw y h
      ]
      go data_hi v h = elim (Bool-cases (i2c.read_ready t)) [ inl x ↦ rw x refl | inr y ↦ rw y h ]

  data_hi_reply :
      (w : ℕ) (t : Trace)
      → i2c.read_ready t ≡ true
      → read_nonblocking i2c address register (record { state = data_hi; tmpval = w }) t ≡ (
        some (u16 (bit_or (i2c.read_byte (poll_read ∷ t)) (w * 256))),
        record { state = idle; tmpval = w },
        read_data ∷ poll_read ∷ t,
      )
  unfolding read_nonblocking dispatch step_idle step_addr_start step_regid step_data_lo step_data_hi
  data_hi_reply w t x = rw x refl

  -- A value that a call returns is the two bytes of the transfer, the first one most significant, if the reader
  -- agrees with the bus before the call and the driver returns bytes below 256.
  pub read_nonblocking-assembled :
      ((t : Trace) → i2c.read_byte t < 256)
      → (r : Reader) (t : Trace) (v : ℕ) → IsCoherent i2c r t
      → (read_nonblocking i2c address register r t).0 ≡ some v
      → assembled (received i2c (read_nonblocking i2c address register r t).2) ≡ some v
  unfolding read_nonblocking dispatch step_idle step_addr_start step_regid step_data_lo step_data_hi
  read_nonblocking-assembled byte r t v ok = go r.state r.tmpval ok
    where
      data_hi_ready :
          (w : ℕ)
          → Expects data_hi w (received i2c t)
          → i2c.read_ready t ≡ true
          → (read_nonblocking i2c address register (record { state = data_hi; tmpval = w }) t).0
            ≡ some v
          → assembled (
              received i2c
                (read_nonblocking i2c address register
                  (record { state = data_hi; tmpval = w })
                  t).2)
            ≡ some v
      data_hi_ready w h x e =
          let reply = data_hi_reply w t x in
          let value : some (u16 (bit_or (i2c.read_byte (poll_read ∷ t)) (w * 256))) ≡ some v =
            sym (ap (λ u. u.0) reply) ∙ e in
          let bytes : received i2c
                (read_nonblocking i2c address register (record { state = data_hi; tmpval = w }) t).2
              ≡ i2c.read_byte (poll_read ∷ t) ∷ w ∷ [] =
            ap (λ u. received i2c u.2) reply ∙ ap (λ u. i2c.read_byte (poll_read ∷ t) ∷ u) h.0 in
          ap assembled bytes
          ∙ ap some
              (sym (assemble_byte (i2c.read_byte (poll_read ∷ t)) w (byte (poll_read ∷ t)) h.1))
          ∙ value

      go :
          (s : State) (w : ℕ)
          → Expects s w (received i2c t)
          → (read_nonblocking i2c address register (record { state = s; tmpval = w }) t).0 ≡ some v
          → assembled (
              received i2c
                (read_nonblocking i2c address register (record { state = s; tmpval = w }) t).2)
            ≡ some v
      go idle w h e = ground arith
      go addr_start w h e = ground arith
      go regid w h e = ground arith
      go data_lo w h e = ground arith
      go data_hi w h e = elim (Bool-cases (i2c.read_ready t)) [
        | inl x ↦ data_hi_ready w h x e
        | inr y ↦ ground arith
      ]

  abbrev pub first_value : Reply → Reply → Reply
  first_value (none, r, t) later = later
  first_value (some v, r, t) later = (some v, r, t)

  -- The calls up to the first value, at most `n` of them.
  abbrev pub calls : ℕ → Reader → Trace → Reply
  calls zero r t = (none, r, t)
  calls (suc n) r t =
      let reply = read_nonblocking i2c address register r t in
      first_value reply (calls n reply.1 reply.2)

  calls-none :
      (n : ℕ) (r s : Reader) (t u : Trace)
      → read_nonblocking i2c address register r t ≡ (none, s, u)
      → calls (suc n) r t ≡ calls n s u
  calls-none n r s t u e = ap (λ q. first_value q (calls n q.1 q.2)) e

  -- On a bus that is ready at every poll, from the idle state: four calls return nothing, the fifth one returns
  -- the two bytes of the transfer, and the reader is idle again.
  pub five_calls :
      ((t : Trace) → i2c.start_done t ≡ true)
      → ((t : Trace) → i2c.write_done t ≡ true)
      → ((t : Trace) → i2c.read_ready t ≡ true)
      → ((t : Trace) → i2c.read_byte t < 256)
      → (v : ℕ) (t : Trace)
      → ((calls 4 (record { state = idle; tmpval = v }) t).0 ≡ none)
        × ((calls 5 (record { state = idle; tmpval = v }) t).0
            ≡ assembled (received i2c (calls 5 (record { state = idle; tmpval = v }) t).2))
        × ((calls 5 (record { state = idle; tmpval = v }) t).1.state ≡ idle)
  unfolding read_nonblocking dispatch step_idle step_addr_start step_regid step_data_lo step_data_hi
  five_calls started written ready byte v t =
      let at = λ (s : State).
        λ (w : ℕ). read_nonblocking i2c address register (record { state = s; tmpval = w }) in
      let t1 = start 1 address false ∷ t in
      let t2 = write register ∷ poll_start ∷ t1 in
      let t3 = start 2 address true ∷ poll_write ∷ t2 in
      let hi = i2c.read_byte (poll_read ∷ t3) in
      let t4 = read_data ∷ poll_read ∷ t3 in
      let second : at addr_start v t1 ≡ (none, record { state = regid; tmpval = v }, t2) =
        rw (started t1) refl in
      let third : at regid v t2 ≡ (none, record { state = data_lo; tmpval = v }, t3) =
        rw (written t2) refl in
      let fourth : at data_lo v t3 ≡ (none, record { state = data_hi; tmpval = hi }, t4) =
        rw (ready t3) refl in
      let waits : (n : ℕ)
          → calls (suc (suc (suc (suc n)))) (record { state = idle; tmpval = v }) t
            ≡ calls n (record { state = data_hi; tmpval = hi }) t4 =
        λ n.
          calls-none (suc (suc (suc n))) (record { state = idle; tmpval = v })
            (record { state = addr_start; tmpval = v }) t t1 refl
          ∙ calls-none (suc (suc n)) (record { state = addr_start; tmpval = v })
              (record { state = regid; tmpval = v }) t1 t2 second
          ∙ calls-none (suc n) (record { state = regid; tmpval = v })
              (record { state = data_lo; tmpval = v }) t2 t3 third
          ∙ calls-none n (record { state = data_lo; tmpval = v })
              (record { state = data_hi; tmpval = hi }) t3 t4 fourth in
      let fifth : calls 5 (record { state = idle; tmpval = v }) t ≡ (
        some (hi * 256 + i2c.read_byte (poll_read ∷ t4)),
        record { state = idle; tmpval = hi },
        read_data ∷ poll_read ∷ t4,
      ) =
        waits 1
        ∙ ap (λ q. first_value q (calls 0 q.1 q.2))
            (data_hi_reply hi t4 (ready t4)
              ∙ ap (λ w. (some w, record { state = idle; tmpval = hi }, read_data ∷ poll_read ∷ t4))
                  (assemble_byte (i2c.read_byte (poll_read ∷ t4)) hi (byte (poll_read ∷ t4))
                    (byte (poll_read ∷ t3)))) in
      (
        ap (λ q. q.0) (waits 0),
        ap (λ q. q.0) fifth ∙ sym (ap (λ q. assembled (received i2c q.2)) fifth),
        ap (λ q. q.1.state) fifth,
      )
