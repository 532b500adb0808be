-- ===== src/Fpga/Updater/Endings.antt =====
-- The handlers of the states start no loop that never ends.
use common_embedded_platform.Prelude.{
  ℕ, zero, suc, ◌+◌, ◌*◌, ◌/◌, ◌≤◌, ◌<◌, ◌≡◌, refl, ◌∙◌, Bool, true, false, not, ◌∷◌, length,
  get_or, replicate, bytes_eq, u32, ltb, leb, ◌==◌, if◌then◌else◌, arith, if-either,
}
use common_embedded_platform.Buffer.{ByteFifo}
use common_embedded_platform.Fpga.Partition.{
  erase_sector, read_data, Flash, State, read_bithdr, read_bithdr_records, sync_wait, bitstream,
  big_write, done, failed, is_failed, Updater, block_count, erase_blocks, blank_check,
  erase_flash_partition,
}
use common_embedded_platform.Fpga.Updater.{
  rx, take_record, process_records, process_bithdr, sync_loop, process_bitstream, process_big_write,
  process_in, write_verified, rank,
}
use common_embedded_platform.Fpga.Updater.Outcomes.{write_verified-outcome}
use common_embedded_platform.Fpga.Updater.Quiet.{
  Quiet, take_record-Quiet, sync-Quiet, bithdr-Quiet, bitstream-Quiet, big_write-Quiet,
}

module _ (flash : Flash) {Q : Type 0} (fifo : ByteFifo Q) where
  -- No loop has run for ever, and none will in a blank check: its address does not wrap.
  abbrev pub IsEnding : Updater Q → Type 0
  IsEnding s = (s.is_endless ≡ false) × (s.image_size ≤ 4294967040)

  Quiet-IsEnding : (s r : Updater Q) → Quiet flash fifo s r → IsEnding s → IsEnding r
  Quiet-IsEnding s r quiet h = (quiet.3 ∙ h.0, omega (arith, quiet.1, h.1))

  erase_blocks-IsEnding :
      (n i : ℕ) (s : Updater Q)
      → IsEnding s
      → IsEnding (erase_blocks flash fifo n i s)
        × ((erase_blocks flash fifo n i s).image_size ≡ s.image_size)
  unfolding erase_blocks
  erase_blocks-IsEnding zero i s h = (h, refl)
  erase_blocks-IsEnding (suc n) i s h =
      let ptr = u32 (s.image_offset + i * flash.erase_block_size) in
      let erased = record s { trace = erase_sector ptr ∷ s.trace } in
      if-either (λ r. IsEnding r × (r.image_size ≡ s.image_size)) (flash.erases s.trace ptr)
        (erase_blocks flash fifo n (i + 1) erased) (record erased { state = failed })
        (λ x. erase_blocks-IsEnding n (i + 1) erased h) (λ x. (h, refl))

  -- As many rounds as are left take the address to the end of the image.
  blank_check-IsEnding :
      (n addr : ℕ) (s : Updater Q)
      → s.image_size ≤ addr + 256 * n
      → IsEnding s
      → IsEnding (blank_check flash fifo n addr s)
  unfolding blank_check
  blank_check-IsEnding zero addr s enough h = ground arith
  blank_check-IsEnding (suc n) addr s enough h =
      let checked = record s { trace = read_data addr 256 ∷ s.trace } in
      let same = bytes_eq (replicate 256 0xff) (flash.reads s.trace addr 256) in
      let more = blank_check flash fifo n (u32 (addr + 256)) checked in
      let bad = record checked { state = failed } in
      if-either (λ r. IsEnding r) (not (ltb addr s.image_size)) s (if same then more else bad)
        (λ x. h)
        (λ x.
          let inside : addr < s.image_size = ground arith in
          if-either (λ r. IsEnding r) same more bad
            (λ y.
              blank_check-IsEnding n (u32 (addr + 256)) checked (omega (arith, enough, inside, h.1))
                h)
            (λ y. h))

  erase-IsEnding : (s : Updater Q) → IsEnding s → IsEnding (erase_flash_partition flash fifo s)
  unfolding erase_flash_partition
  erase-IsEnding s h =
      let erased = erase_blocks flash fifo (block_count s.image_size flash.erase_block_size) 0 s in
      let m = (s.image_size + 255) / 256 in
      let one = erase_blocks-IsEnding (block_count s.image_size flash.erase_block_size) 0 s h in
      if-either (λ r. IsEnding r) (is_failed erased.state) erased
        (blank_check flash fifo m 0 erased) (λ x. one.0)
        (λ x. blank_check-IsEnding m 0 erased (omega (arith, one.1)) one.0)

  records-IsEnding : (s : Updater Q) → IsEnding s → IsEnding (process_records flash fifo s).1
  unfolding process_records
  records-IsEnding s h =
      let opened = record s { rx_buffer = fifo.pop 5 s.rx_buffer; state = sync_wait } in
      let type = get_or (rx flash fifo s) 0 0 in
      let len = get_or (rx flash fifo s) 2 0 in
      let P : Bool × Updater Q → Type 0 = λ r. IsEnding r.1 in
      let text : Bool × Updater Q =
        if leb (3 + len) (length (rx flash fifo s))
        then (true, take_record flash fifo type len s)
        else (false, s) in
      let start : Bool × Updater Q = (true, erase_flash_partition flash fifo opened) in
      if-either P (ltb (length (rx flash fifo s)) 3) (false, s)
        (if type == 101 then start else text) (λ x. h)
        (λ y.
          if-either P (type == 101) start text (λ e. erase-IsEnding opened h)
            (λ f.
              if-either P (leb (3 + len) (length (rx flash fifo s)))
                (true, take_record flash fifo type len s) (false, s)
                (λ room.
                  Quiet-IsEnding s (take_record flash fifo type len s)
                    (take_record-Quiet flash fifo type len s) h)
                (λ short. h)))

  pub process_in-IsEnding :
      (st : State) (s : Updater Q) → IsEnding s → IsEnding (process_in flash fifo st s).1
  unfolding process_in
  process_in-IsEnding read_bithdr s h =
      Quiet-IsEnding s (process_bithdr flash fifo s).1 (bithdr-Quiet flash fifo s) h
  process_in-IsEnding read_bithdr_records s h = records-IsEnding s h
  process_in-IsEnding sync_wait s h =
      Quiet-IsEnding s (sync_loop flash fifo (length (rx flash fifo s)) s).1
        (sync-Quiet flash fifo (length (rx flash fifo s)) s) h
  process_in-IsEnding bitstream s h =
      Quiet-IsEnding s (process_bitstream flash fifo s).1 (bitstream-Quiet flash fifo s) h
  process_in-IsEnding big_write s h =
      Quiet-IsEnding s (process_big_write flash fifo s).1 (big_write-Quiet flash fifo s) h
  process_in-IsEnding done s h = h
  process_in-IsEnding failed s h = h

  pub write_verified-keeps :
      (n : ℕ) (s : Updater Q)
      → ((write_verified flash fifo n s).1.rx_buffer ≡ s.rx_buffer)
        × (rank flash fifo (write_verified flash fifo n s).1.state ≤ rank flash fifo s.state)
        × (IsEnding s → IsEnding (write_verified flash fifo n s).1)
  write_verified-keeps n s =
      write_verified-outcome flash fifo
        (λ r.
          (r.1.rx_buffer ≡ s.rx_buffer)
          × (rank flash fifo r.1.state ≤ rank flash fifo s.state)
          × (IsEnding s → IsEnding r.1))
        n s (refl, omega arith, λ h. h) (refl, omega arith, λ h. h)
        (λ sent matched. (refl, omega arith, λ h. h))
