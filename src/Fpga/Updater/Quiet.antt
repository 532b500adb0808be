-- ===== src/Fpga/Updater/Quiet.antt =====
-- The states in which the updater makes no call of the flash.
use common_embedded_platform.Prelude.{
  ℕ, zero, suc, ◌+◌, ◌*◌, ◌/◌, ◌≡◌, refl, Bool, true, false, length, get_or, take, drop, bytes_eq,
  ltb, leb, ◌==◌, if◌then◌else◌, arith, if-either, ◌%◌, ◌^◌, c_string, not, ◌&&◌,
}
use common_embedded_platform.Buffer.{ByteFifo}
use common_embedded_platform.Fpga.Partition.{Flash, bitstream, big_write, done, failed, Updater}
use common_embedded_platform.Fpga.Updater.{
  syncword, be32, rx, pop_rx, take_record, move, process_bithdr, sync_loop, is_desync,
  process_type1, process_bitstream, move_words, process_big_write,
}

module _ (flash : Flash) {Q : Type 0} (fifo : ByteFifo Q) where
  -- No call of the flash, and no loop that does not end.
  abbrev pub Quiet : Updater Q → Updater Q → Type 0
  Quiet s r =
      (r.trace ≡ s.trace)
      × (r.image_size ≡ s.image_size)
      × (r.image_offset ≡ s.image_offset)
      × (r.is_endless ≡ s.is_endless)

  pub sync-Quiet : (n : ℕ) (s : Updater Q) → Quiet s (sync_loop flash fifo n s).1
  unfolding sync_loop move
  sync-Quiet zero s = (refl, refl, refl, refl)
  sync-Quiet (suc n) s =
      let later = sync-Quiet n (move flash fifo 1 s) in
      let P : Bool × Updater Q → Type 0 = λ r. Quiet s r.1 in
      let found : Bool × Updater Q = (true, record (move flash fifo 4 s) { state = bitstream }) in
      let rest = sync_loop flash fifo n (move flash fifo 1 s) in
      let same = bytes_eq (take 4 (rx flash fifo s)) syncword in
      if-either P (leb (length (rx flash fifo s)) 4) (false, s) (if same then found else rest)
        (λ x. (refl, refl, refl, refl))
        (λ y. if-either P same found rest (λ e. (refl, refl, refl, refl)) (λ f. later))

  pub bithdr-Quiet : (s : Updater Q) → Quiet s (process_bithdr flash fifo s).1
  unfolding process_bithdr
  bithdr-Quiet s = ground arith

  type1-Quiet : (s : Updater Q) → Quiet s (process_type1 flash fifo s).1
  unfolding process_type1 move
  type1-Quiet s =
      let size = 4 * (be32 (rx flash fifo s) 0 % 1024 + 1) in
      if-either {A = Bool × Updater Q} (λ r. Quiet s r.1) (ltb (length (rx flash fifo s)) size)
        (false, s)
        (
          true,
          record (move flash fifo size s) {
            state = if is_desync flash fifo (rx flash fifo s) then done else s.state;
          },
        )
        (λ x. (refl, refl, refl, refl)) (λ y. (refl, refl, refl, refl))

  pub bitstream-Quiet : (s : Updater Q) → Quiet s (process_bitstream flash fifo s).1
  unfolding process_bitstream move
  bitstream-Quiet s =
      let P : Bool × Updater Q → Type 0 = λ r. Quiet s r.1 in
      let type = get_or (rx flash fifo s) 0 0 / 32 in
      let big : Bool × Updater Q = (
        true,
        record (move flash fifo 4 s) {
          big_word_len = be32 (rx flash fifo s) 0 % 2 ^ 27;
          state = big_write;
        },
      ) in
      let bad : Bool × Updater Q = (true, record s { state = failed }) in
      let other = if type == 2 then big else bad in
      let one = process_type1 flash fifo s in
      if-either P (ltb (length (rx flash fifo s)) 4) (false, s) (if type == 1 then one else other)
        (λ x. (refl, refl, refl, refl))
        (λ y.
          if-either P (type == 1) one other (λ e. type1-Quiet s)
            (λ e.
              if-either P (type == 2) big bad (λ f. (refl, refl, refl, refl))
                (λ f. (refl, refl, refl, refl))))

  pub big_write-Quiet : (s : Updater Q) → Quiet s (process_big_write flash fifo s).1
  unfolding process_big_write move_words
  big_write-Quiet s = ground arith

  pub take_record-Quiet :
      (type len : ℕ) (s : Updater Q) → Quiet s (take_record flash fifo type len s)
  unfolding take_record
  take_record-Quiet type len s =
      if-either (λ r. Quiet s r)
        ((type == 98)
          && not
              (bytes_eq (c_string (take len (drop 3 (rx flash fifo s)))) (c_string s.device_name)))
        (record s { state = failed; rx_buffer = fifo.pop (3 + len) s.rx_buffer })
        (pop_rx flash fifo (3 + len) s) (λ x. (refl, refl, refl, refl))
        (λ y. (refl, refl, refl, refl))
