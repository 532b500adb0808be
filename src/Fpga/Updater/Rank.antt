-- ===== src/Fpga/Updater/Rank.antt =====
-- What the erasure of the partition leaves as it was.
use common_embedded_platform.Prelude.{
  ℕ, zero, suc, ◌+◌, ◌*◌, ◌/◌, ◌≤◌, ◌≡◌, refl, ◌∙◌, ◌∷◌, replicate, bytes_eq, u32, not, ltb,
  if◌then◌else◌, arith, Bool-cases, if-either, inl, inr,
}
use common_embedded_platform.Buffer.{ByteFifo}
use common_embedded_platform.Fpga.Partition.{
  FlashEvent, Flash, failed, is_failed, Updater, block_count, erase_blocks, blank_check,
  erase_flash_partition,
}
use common_embedded_platform.Fpga.Updater.{rank}

module _ (flash : Flash) {Q : Type 0} (fifo : ByteFifo Q) where
  erase_blocks-keeps :
      (n i : ℕ) (s : Updater Q)
      → ((erase_blocks flash fifo n i s).rx_buffer ≡ s.rx_buffer)
        × (rank flash fifo (erase_blocks flash fifo n i s).state ≤ rank flash fifo s.state)
  unfolding erase_blocks
  erase_blocks-keeps zero i s = (refl, omega arith)
  erase_blocks-keeps (suc n) i s =
      let rest = erase_blocks-keeps n (i + 1) (record s {
        trace =
            FlashEvent.erase_sector (u32 (s.image_offset + i * flash.erase_block_size)) ∷ s.trace;
      }) in
      ground arith

  blank_check-keeps :
      (n addr : ℕ) (s : Updater Q)
      → ((blank_check flash fifo n addr s).rx_buffer ≡ s.rx_buffer)
        × (rank flash fifo (blank_check flash fifo n addr s).state ≤ rank flash fifo s.state)
  unfolding blank_check
  blank_check-keeps zero addr s = ground arith
  blank_check-keeps (suc n) addr s =
      let checked = record s { trace = FlashEvent.read_data addr 256 ∷ s.trace } in
      let P : Updater Q → Type 0 =
        λ r. (r.rx_buffer ≡ s.rx_buffer) × (rank flash fifo r.state ≤ rank flash fifo s.state) in
      let blank = bytes_eq (replicate 256 0xff) (flash.reads s.trace addr 256) in
      let rest = blank_check flash fifo n (u32 (addr + 256)) checked in
      let bad = record checked { state = failed } in
      if-either P (not (ltb addr s.image_size)) s (if blank then rest else bad)
        (λ x. (refl, omega arith))
        (λ x.
          if-either P blank rest bad (λ y. blank_check-keeps n (u32 (addr + 256)) checked)
            (λ y. (refl, omega arith)))

  pub erase-keeps :
      (s : Updater Q)
      → ((erase_flash_partition flash fifo s).rx_buffer ≡ s.rx_buffer)
        × (rank flash fifo (erase_flash_partition flash fifo s).state ≤ rank flash fifo s.state)
  unfolding erase_flash_partition
  erase-keeps s =
      let erased = erase_blocks flash fifo (block_count s.image_size flash.erase_block_size) 0 s in
      let a = erase_blocks-keeps (block_count s.image_size flash.erase_block_size) 0 s in
      let b = blank_check-keeps ((s.image_size + 255) / 256) 0 erased in
      elim (Bool-cases (is_failed erased.state)) [
        | inl x ↦ rw x a
        | inr y ↦ rw y (b.0 ∙ a.0, omega (arith, a.1, b.1))
      ]
