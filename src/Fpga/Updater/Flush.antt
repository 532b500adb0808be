-- ===== src/Fpga/Updater/Flush.antt =====
-- What leaves the write buffer for the flash, also when the device is closed.
use common_embedded_platform.Prelude.{
  true, ℕ, zero, suc, ◌+◌, ◌≤◌, ◌≡◌, refl, sym, ap, ◌∙◌, false, [], ◌++◌, append_assoc, append-nil,
  length, take-drop, drop_all, u32, ltb, if◌then◌else◌, arith, if-either,
}
use common_embedded_platform.Buffer.{ByteFifo, IsFifo}
use common_embedded_platform.Fpga.Partition.{Flash, failed, is_failed, Updater}
use common_embedded_platform.Fpga.Updater.{
  write_verified, push_blocks, push_write_data, flush_write_data, on_device_closed,
}
use common_embedded_platform.Fpga.Updater.Outcomes.{block, write_verified-outcome}
use common_embedded_platform.Fpga.Updater.Stream.{stored}

module _ (flash : Flash) {Q : Type 0} (fifo : ByteFifo Q) (capacity : ℕ)
    (law : IsFifo fifo capacity) where
  -- Unless the updater failed on the way: bytes leave the write buffer for the flash only, in order, and
  -- nothing else changes but the write pointer.
  abbrev pub Written : Updater Q → Updater Q → Type 0
  Written s r =
      is_failed r.state ≡ false
      → (stored r.trace ++ fifo.contents r.write_buffer
          ≡ stored s.trace ++ fifo.contents s.write_buffer)
        × (length (fifo.contents r.write_buffer) ≤ length (fifo.contents s.write_buffer))
        × (r.rx_buffer ≡ s.rx_buffer)
        × (r.state ≡ s.state)

  block-Written :
      (s : Updater Q) (n : ℕ)
      → n ≤ length (fifo.contents s.write_buffer)
      → Written s (write_verified flash fifo n s).1
  block-Written s n enough =
      write_verified-outcome flash fifo (λ r. Written s r.1) n s (λ h. absurd (ground arith))
        (λ h. absurd (ground arith))
        (λ sent matched h. (
          append_assoc (stored s.trace) (block flash fifo n s)
                (fifo.contents (fifo.pop n s.write_buffer))
              ∙ ap (λ xs. stored s.trace ++ (block flash fifo n s ++ xs))
                  (law.pop_contents n s.write_buffer enough)
              ∙ ap (λ xs. stored s.trace ++ xs) (take-drop n (fifo.contents s.write_buffer)),
          law.pop_shrinks n s.write_buffer,
          refl,
          refl,
        ))

  -- A block of all bytes leaves none.
  flushed_empty :
      (s : Updater Q)
      → is_failed (write_verified flash fifo (length (fifo.contents s.write_buffer)) s).1.state
        ≡ false
      → fifo.contents
          (write_verified flash fifo (length (fifo.contents s.write_buffer)) s).1.write_buffer
        ≡ []
  flushed_empty s =
      let n = length (fifo.contents s.write_buffer) in
      write_verified-outcome flash fifo
        (λ r. is_failed r.1.state ≡ false → fifo.contents r.1.write_buffer ≡ []) n s
        (λ h. absurd (ground arith)) (λ h. absurd (ground arith))
        (λ sent matched h.
          law.pop_contents n s.write_buffer (omega arith)
          ∙ drop_all n (fifo.contents s.write_buffer) (omega arith))

  Written-trans : (s r t : Updater Q) → Written s r → Written r t → Written s t
  Written-trans s r t first second h =
      let b = second h in
      let a = first (sym (ap is_failed b.3) ∙ h) in
      (b.0 ∙ a.0, omega (arith, a.1, b.1), b.2 ∙ a.2, b.3 ∙ a.3)

  blocks-Written : (n : ℕ) (s : Updater Q) → Written s (push_blocks flash fifo n s)
  unfolding push_blocks
  blocks-Written zero s =
      if-either (λ r. Written s r)
        (ltb (length (fifo.contents s.write_buffer)) flash.max_write_block_size) s
        (record s { is_endless = true }) (λ x h. (refl, omega arith, refl, refl))
        (λ x h. (refl, omega arith, refl, refl))
  blocks-Written (suc n) s =
      let wblock = flash.max_write_block_size in
      let tried = write_verified flash fifo wblock s in
      let next = record (tried.1) { wptr = u32 (tried.1.wptr + wblock) } in
      if-either (λ r. Written s r) (ltb (length (fifo.contents s.write_buffer)) wblock) s
        (if tried.0 then push_blocks flash fifo n next else tried.1)
        (λ x h. (refl, omega arith, refl, refl))
        (λ y.
          let first = block-Written s wblock (ground arith) in
          if-either (λ r. Written s r) tried.0 (push_blocks flash fifo n next) tried.1
            (λ e.
              Written-trans s next (push_blocks flash fifo n next) first (blocks-Written n next))
            (λ e. first))

  pub pushed-Written : (s : Updater Q) → Written s (push_write_data flash fifo s)
  unfolding push_write_data
  pushed-Written s =
      let blocks = push_blocks flash fifo (length (fifo.contents s.write_buffer)) s in
      let bad = record s { state = failed } in
      if-either (λ r. Written s r) (is_failed s.state) s
        (if ltb 512 flash.max_write_block_size then bad else blocks)
        (λ x h. (refl, omega arith, refl, refl))
        (λ y.
          if-either (λ r. Written s r) (ltb 512 flash.max_write_block_size) bad blocks
            (λ e h. absurd (ground arith))
            (λ e. blocks-Written (length (fifo.contents s.write_buffer)) s))

  -- Unless the updater has failed after `OnDeviceClosed`, the write buffer is empty then, and the flash
  -- got what was in it, behind what it had.
  pub on_device_closed-delivers :
      (s : Updater Q)
      → is_failed (on_device_closed flash fifo s).state ≡ false
      → (stored (on_device_closed flash fifo s).trace
          ≡ stored s.trace ++ fifo.contents s.write_buffer)
        × (fifo.contents (on_device_closed flash fifo s).write_buffer ≡ [])
  unfolding on_device_closed flush_write_data
  on_device_closed-delivers s =
      let pushed = push_write_data flash fifo s in
      let n = length (fifo.contents pushed.write_buffer) in
      let last = (write_verified flash fifo n pushed).1 in
      if-either
        (λ r.
          is_failed r.state ≡ false
          → (stored r.trace ≡ stored s.trace ++ fifo.contents s.write_buffer)
            × (fifo.contents r.write_buffer ≡ []))
        (is_failed s.state) s last (λ x h. absurd (ground arith))
        (λ y h.
          let all =
            Written-trans s pushed last (pushed-Written s) (block-Written pushed n (omega arith))
              h in
          let empty = flushed_empty pushed h in
          (
            sym (append-nil (stored last.trace))
                ∙ ap (λ xs. stored last.trace ++ xs) (sym empty)
                ∙ all.0,
            empty,
          ))
