-- ===== src/Fpga/Updater/Erasure.antt =====
-- The erasure of the partition, with its blank check.
use common_embedded_platform.Prelude.{
  ℕ, zero, suc, ◌+◌, ◌*◌, ◌/◌, ◌<◌, ◌≡◌, refl, sym, ap, subst, ◌∙◌, Bool, true, false, not, List,
  ◌∷◌, length, get_or, replicate, bytes_eq, bytes_eq_sound, u32, ltb, leb, ◌==◌, if◌then◌else◌,
  arith, if-either,
}
use common_embedded_platform.Buffer.{ByteFifo}
use common_embedded_platform.Fpga.Partition.{
  erase_sector, read_data, Flash, read_bithdr_records, sync_wait, failed, is_failed, Updater,
  block_count, erase_blocks, blank_check, erase_flash_partition,
}
use common_embedded_platform.Fpga.Updater.{rx, take_record, process_records}
use common_embedded_platform.Fpga.Updater.Quiet.{take_record-Quiet}
use common_embedded_platform.Fpga.Updater.Careful.{
  Phase, erasing, checking, Session, Good, Careful, Quiet-Careful,
}

module _ (flash : Flash) (offset size : ℕ) {Q : Type 0} (fifo : ByteFifo Q) where
  -- From one phase to another, with the image where it was.
  abbrev Goes : Phase → Phase → Updater Q → Updater Q → Type 0
  Goes p q s r =
      (is_failed s.state ≡ true → is_failed r.state ≡ true)
      × (r.image_offset ≡ s.image_offset)
      × (r.image_size ≡ s.image_size)
      × (is_failed r.state ≡ false
          → Session flash offset size p s.trace
          → Session flash offset size q r.trace)

  erase_blocks-Goes :
      (n i j : ℕ) (s : Updater Q)
      → i + n ≡ j
      → s.image_offset ≡ offset
      → Goes (erasing i) (erasing j) s (erase_blocks flash fifo n i s)
  unfolding erase_blocks
  erase_blocks-Goes zero i j s e at =
      let same : i ≡ j = omega arith in
      (λ h. h, refl, refl, λ h k. subst (λ m. Session flash offset size (erasing m) s.trace) same k)
  erase_blocks-Goes (suc n) i j s e at =
      let ptr = u32 (s.image_offset + i * flash.erase_block_size) in
      let erased = record s { trace = erase_sector ptr ∷ s.trace } in
      let rest = erase_blocks-Goes n (i + 1) j erased (omega arith) at in
      if-either (λ r. Goes (erasing i) (erasing j) s r) (flash.erases s.trace ptr)
        (erase_blocks flash fifo n (i + 1) erased) (record erased { state = failed })
        (λ x. (
          rest.0,
          rest.1,
          rest.2,
          λ h k.
              rest.3 h
                (Session.sector i ptr k (ap (λ o. u32 (o + i * flash.erase_block_size)) at) x),
        ))
        (λ x. (λ h. refl, refl, refl, λ h. absurd (ground arith)))

  blank_check-Goes :
      (n i j addr : ℕ) (s : Updater Q)
      → i + n ≡ j
      → j ≡ (size + 255) / 256
      → addr ≡ u32 (256 * i)
      → s.image_size ≡ size
      → Goes (checking i) (checking j) s (blank_check flash fifo n addr s)
  unfolding blank_check
  blank_check-Goes zero i j addr s e last a z =
      let same : i ≡ j = omega arith in
      let P = Goes (checking i) (checking j) s in
      let end = subst (λ m. Session flash offset size (checking m) s.trace) same in
      if-either P (ltb addr s.image_size) (record s { is_endless = true }) s
        (λ x. (λ h. h, refl, refl, λ h k. end k)) (λ x. (λ h. h, refl, refl, λ h k. end k))
  blank_check-Goes (suc n) i j addr s e last a z =
      let checked = record s { trace = read_data addr 256 ∷ s.trace } in
      let ff : List ℕ = replicate 256 0xff in
      let same = bytes_eq ff (flash.reads s.trace addr 256) in
      let more = blank_check flash fifo n (u32 (addr + 256)) checked in
      let bad = record checked { state = failed } in
      let P = Goes (checking i) (checking j) s in
      let inside : addr < s.image_size = omega (arith, e, last, a, z) in
      let rest =
        blank_check-Goes n (i + 1) j (u32 (addr + 256)) checked (omega arith) last
          (omega (arith, a)) z in
      if-either P (not (ltb addr s.image_size)) s (if same then more else bad)
        (λ x. absurd (ground arith))
        (λ x.
          if-either P same more bad
            (λ y. (
              rest.0,
              rest.1,
              rest.2,
              λ h k. rest.3 h (
                  Session.block i addr k a
                    (sym (bytes_eq_sound ff (flash.reads s.trace addr 256) y))),
            ))
            (λ y. (λ h. refl, refl, refl, λ h. absurd (ground arith))))

  erase-Careful :
      (s : Updater Q)
      → Good flash offset size fifo s
      → Careful flash offset size fifo s (erase_flash_partition flash fifo s)
  unfolding erase_flash_partition
  erase-Careful s (at, bytes, session) =
      let n = block_count s.image_size flash.erase_block_size in
      let m = (s.image_size + 255) / 256 in
      let erased = erase_blocks flash fifo n 0 s in
      let checked = blank_check flash fifo m 0 erased in
      let one = erase_blocks-Goes n 0 n s (omega arith) at in
      let two =
        blank_check-Goes m 0 m 0 erased (omega arith) (ap (λ z. (z + 255) / 256) bytes)
          (omega arith) (one.2 ∙ bytes) in
      if-either (λ r. Careful flash offset size fifo s r) (is_failed erased.state) erased checked
        (λ x. (one.0, λ h. absurd (ground arith)))
        (λ x. (
          λ h. two.0 (one.0 h),
          λ h k. (
            two.1 ∙ one.1 ∙ at,
            two.2 ∙ one.2 ∙ bytes,
            Session.blank m
                (two.3 h (
                  Session.erased (
                    subst
                      (λ z.
                        Session flash offset size (erasing (block_count z flash.erase_block_size))
                          erased.trace)
                      bytes (one.3 x (Session.erase k.2)))))
                (omega (arith, bytes)),
          ),
        ))

  pub records-Careful :
      (s : Updater Q)
      → s.state ≡ read_bithdr_records
      → Careful flash offset size fifo s (process_records flash fifo s).1
  unfolding process_records
  records-Careful s at =
      let opened = record s { rx_buffer = fifo.pop 5 s.rx_buffer; state = sync_wait } in
      let type = get_or (rx flash fifo s) 0 0 in
      let len = get_or (rx flash fifo s) 2 0 in
      let fine : is_failed s.state ≡ false = ap is_failed at in
      let P : Bool × Updater Q → Type 0 = λ r. Careful flash offset size fifo s r.1 in
      let text : Bool × Updater Q =
        if leb (3 + len) (length (rx flash fifo s))
        then (true, take_record flash fifo type len s)
        else (false, s) in
      let start : Bool × Updater Q = (true, erase_flash_partition flash fifo opened) in
      if-either P (ltb (length (rx flash fifo s)) 3) (false, s)
        (if type == 101 then start else text) (λ x. (λ h. h, λ h k. k))
        (λ y.
          if-either P (type == 101) start text
            (λ e. (λ h. absurd (ground arith), λ h k. (erase-Careful opened k).1 h k))
            (λ f.
              if-either P (leb (3 + len) (length (rx flash fifo s)))
                (true, take_record flash fifo type len s) (false, s)
                (λ room.
                  Quiet-Careful flash offset size fifo s (take_record flash fifo type len s) fine
                    (take_record-Quiet flash fifo type len s))
                (λ short. (λ h. h, λ h k. k))))
