-- ===== src/Fpga/Updater/Failure.antt =====
-- A failed updater leaves the flash alone.
use common_embedded_platform.Prelude.{
  ℕ, zero, suc, ◌≡◌, refl, sym, ap, ◌∙◌, true, false, some, List, if◌then◌else◌, arith, if-either,
}
use common_embedded_platform.Buffer.{ByteFifo}
use common_embedded_platform.Fpga.Partition.{Flash, State, failed, is_failed, Updater}
use common_embedded_platform.Fpga.Updater.{
  process_in, process, push_write_data, process_all, fuel_of, on_rx_data, flush_write_data,
  on_device_closed,
}
use common_embedded_platform.Fpga.Updater.Outcomes.{unless_endless-some}

module _ (flash : Flash) {Q : Type 0} (fifo : ByteFifo Q) where
  pub is_failed_only : (st : State) → is_failed st ≡ true → st ≡ failed
  is_failed_only State.failed h = refl
  is_failed_only State.read_bithdr h = absurd (ground arith)
  is_failed_only State.read_bithdr_records h = absurd (ground arith)
  is_failed_only State.sync_wait h = absurd (ground arith)
  is_failed_only State.bitstream h = absurd (ground arith)
  is_failed_only State.big_write h = absurd (ground arith)
  is_failed_only State.done h = absurd (ground arith)

  abbrev Rests : Updater Q → Updater Q → Type 0
  Rests s r = (r.state ≡ failed) × (r.trace ≡ s.trace)

  push_failed : (s : Updater Q) → s.state ≡ failed → push_write_data flash fifo s ≡ s
  unfolding push_write_data
  push_failed s at = rw at refl

  pub process_all-failed :
      (n : ℕ) (s r : Updater Q) → s.state ≡ failed → process_all flash fifo n s ≡ some r → Rests s r
  unfolding process_all process process_in
  process_all-failed zero s r at e = absurd (ground arith)
  process_all-failed (suc n) s r at e =
      let after = push_write_data flash fifo (process flash fifo s).1 in
      let emptied = record s { rx_buffer = fifo.reset s.rx_buffer } in
      let call : process flash fifo s ≡ (false, emptied) =
        ap (λ st. process_in flash fifo st s) at in
      let ended : some (push_write_data flash fifo emptied) ≡ some r =
        sym (
          ap
            (λ c.
              if c.0
              then process_all flash fifo n (push_write_data flash fifo c.1)
              else some (push_write_data flash fifo c.1))
            call)
        ∙ (unless_endless-some after r
            (if (process flash fifo s).0 then process_all flash fifo n after else some after)
            e).1 in
      let same : push_write_data flash fifo emptied ≡ r = cc in
      let here : emptied ≡ r = sym (push_failed emptied at) ∙ same in
      (sym (ap (λ u. u.state) here) ∙ at, sym (ap (λ u. u.trace) here))

  -- Once it has failed, the updater makes no call of the flash when more data comes, and it is still
  -- failed afterwards; closing the device then does nothing.
  pub on_rx_data-failed :
      (bytes : List ℕ) (s r : Updater Q)
      → s.state ≡ failed
      → on_rx_data flash fifo bytes s ≡ some r
      → (r.state ≡ failed) × (r.trace ≡ s.trace) × (on_device_closed flash fifo r ≡ r)
  unfolding on_rx_data on_device_closed flush_write_data
  on_rx_data-failed bytes s r at e =
      let pushed = fifo.push bytes s.rx_buffer in
      let s' = record s { rx_buffer = pushed.1 } in
      let rests : Rests s r =
        if-either (λ o. o ≡ some r → Rests s r) pushed.0
          (process_all flash fifo (suc (fuel_of flash fifo s')) s') (some s')
          (λ x. process_all-failed (suc (fuel_of flash fifo s')) s' r at)
          (λ y f.
            let same : s' ≡ r = cc in
            (sym (ap (λ u. u.state) same) ∙ at, sym (ap (λ u. u.trace) same)))
          e in
      (rests.0, rests.1, rw rests.0 refl)
