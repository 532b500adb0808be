-- ===== src/Fpga/Updater/Careful.antt =====
-- How the updater uses the flash: no erasure without a complete blank check, and no write that is not
-- read back.
use common_embedded_platform.Prelude.{
  ℕ, zero, suc, ◌+◌, ◌*◌, ◌≤◌, ◌≡◌, refl, sym, subst, ◌∙◌, true, false, List, [], ◌∷◌, length,
  length-take, take, replicate, u32, ltb, if◌then◌else◌, arith, if-either, Bool-cases, inl, inr,
}
use common_embedded_platform.Buffer.{ByteFifo}
use common_embedded_platform.Fpga.Partition.{
  erase_sector, write_data, read_data, FlashTrace, Flash, State, failed, is_failed, Updater,
  block_count,
}
use common_embedded_platform.Fpga.Updater.{push_blocks, push_write_data, write_verified}
use common_embedded_platform.Fpga.Updater.Outcomes.{write_verified-outcome}
use common_embedded_platform.Fpga.Updater.Quiet.{Quiet}

-- Where a trace stands: `i` sectors are erased, `i` blocks were found blank after an erasure, or neither
-- is under way.
pub data Phase : Type 0 where
  erasing : ℕ → Phase
  checking : ℕ → Phase
  settled : Phase

-- The traces in which the flash of a partition was used with care and did what it was told.
module _ (flash : Flash) (offset size : ℕ) where
  pub data Session : Phase → FlashTrace → Type 0 where
    start : Session settled []
    erase : {t : FlashTrace} → Session settled t → Session (erasing 0) t
    -- The sectors are erased one after the other.
    sector :
        {t : FlashTrace} (i ptr : ℕ)
        → Session (erasing i) t
        → ptr ≡ u32 (offset + i * flash.erase_block_size)
        → flash.erases t ptr ≡ true
        → Session (erasing (i + 1)) (erase_sector ptr ∷ t)
    -- All of them are, so the blank check begins.
    erased :
        {t : FlashTrace}
        → Session (erasing (block_count size flash.erase_block_size)) t
        → Session (checking 0) t
    -- A block of 256 bytes is read, and is blank.
    block :
        {t : FlashTrace} (i addr : ℕ)
        → Session (checking i) t
        → addr ≡ u32 (256 * i)
        → flash.reads t addr 256 ≡ replicate 256 0xff
        → Session (checking (i + 1)) (read_data addr 256 ∷ t)
    -- As many bytes as the image has were.
    blank : {t : FlashTrace} (i : ℕ) → Session (checking i) t → size ≤ 256 * i → Session settled t
    -- A write is accepted, and a read at once after it, of the same place and length, gives what was written.
    write :
        {t : FlashTrace} (ptr n : ℕ) (bytes : List ℕ)
        → Session settled t
        → flash.writes t ptr bytes ≡ true
        → n ≡ length bytes
        → flash.reads (write_data ptr bytes ∷ t) ptr n ≡ bytes
        → Session settled (read_data ptr n ∷ write_data ptr bytes ∷ t)

module _ (flash : Flash) (offset size : ℕ) {Q : Type 0} (fifo : ByteFifo Q) where
  abbrev pub Good : Updater Q → Type 0
  Good u =
      (u.image_offset ≡ offset)
      × (u.image_size ≡ size)
      × Session flash offset size Phase.settled u.trace

  -- An updater that has failed stays failed; one that has not used the flash with care.
  abbrev pub Careful : Updater Q → Updater Q → Type 0
  Careful s r =
      (is_failed s.state ≡ true → is_failed r.state ≡ true)
      × (is_failed r.state ≡ false → Good s → Good r)

  not_failed :
      (u v : State)
      → (is_failed u ≡ true → is_failed v ≡ true)
      → is_failed v ≡ false
      → is_failed u ≡ false
  not_failed u v stays h = elim (Bool-cases (is_failed u)) [
    | inl x ↦ absurd (let y = stays x in ground arith)
    | inr x ↦ x
  ]

  pub Careful-trans : (s r t : Updater Q) → Careful s r → Careful r t → Careful s t
  Careful-trans s r t a b =
      (λ h. b.0 (a.0 h), λ h k. b.1 h (a.1 (not_failed r.state t.state b.0 h) k))

  pub Quiet-Careful :
      (s r : Updater Q) → is_failed s.state ≡ false → Quiet flash fifo s r → Careful s r
  Quiet-Careful s r fine (trace, bytes, at, _) = (
    λ h. absurd (ground arith),
    λ h k. (
      at ∙ k.0,
      bytes ∙ k.1,
      subst (λ t. Session flash offset size Phase.settled t) (sym trace) k.2,
    ),
  )

  pub block-Careful :
      (n : ℕ) (s : Updater Q)
      → n ≤ length (fifo.contents s.write_buffer)
      → Careful s (write_verified flash fifo n s).1
  block-Careful n s enough =
      let bytes = take n (fifo.contents s.write_buffer) in
      write_verified-outcome flash fifo (λ r. Careful s r.1) n s
        (λ h. refl, λ h. absurd (ground arith)) (λ h. refl, λ h. absurd (ground arith))
        (λ sent matched. (
          λ h. h,
          λ h k. (
            k.0,
            k.1,
            Session.write s.wptr n bytes k.2 sent
                (sym (length-take n (fifo.contents s.write_buffer) enough)) matched,
          ),
        ))

  blocks-Careful : (n : ℕ) (s : Updater Q) → Careful s (push_blocks flash fifo n s)
  unfolding push_blocks
  blocks-Careful zero s =
      if-either (λ r. Careful s r)
        (ltb (length (fifo.contents s.write_buffer)) flash.max_write_block_size) s
        (record s { is_endless = true }) (λ x. (λ h. h, λ h k. k)) (λ x. (λ h. h, λ h k. k))
  blocks-Careful (suc n) s =
      let wblock = flash.max_write_block_size in
      let tried = write_verified flash fifo wblock s in
      let next = record (tried.1) { wptr = u32 (tried.1.wptr + wblock) } in
      if-either (λ r. Careful s r) (ltb (length (fifo.contents s.write_buffer)) wblock) s
        (if tried.0 then push_blocks flash fifo n next else tried.1) (λ x. (λ h. h, λ h k. k))
        (λ y.
          let first = block-Careful wblock s (ground arith) in
          if-either (λ r. Careful s r) tried.0 (push_blocks flash fifo n next) tried.1
            (λ e.
              Careful-trans s next (push_blocks flash fifo n next) first (blocks-Careful n next))
            (λ e. first))

  pub push-Careful : (s : Updater Q) → Careful s (push_write_data flash fifo s)
  unfolding push_write_data
  push-Careful s =
      let blocks = push_blocks flash fifo (length (fifo.contents s.write_buffer)) s in
      let bad = record s { state = failed } in
      if-either (λ r. Careful s r) (is_failed s.state) s
        (if ltb 512 flash.max_write_block_size then bad else blocks) (λ x. (λ h. h, λ h k. k))
        (λ y.
          if-either (λ r. Careful s r) (ltb 512 flash.max_write_block_size) bad blocks
            (λ e. (λ h. refl, λ h. absurd (ground arith)))
            (λ e. blocks-Careful (length (fifo.contents s.write_buffer)) s))
