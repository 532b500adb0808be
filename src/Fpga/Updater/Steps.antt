-- ===== src/Fpga/Updater/Steps.antt =====
-- What a call of `ProcessDataFromBuffer` leaves to do.
use common_embedded_platform.Prelude.{
  ℕ, zero, suc, ◌+◌, ◌-◌, ◌*◌, ◌/◌, ◌%◌, ◌^◌, ◌≤◌, ◌<◌, ◌≡◌, refl, ap, ◌∙◌, min, Bool, true, false,
  not, ◌&&◌, length, length-drop, get_or, take, drop, bytes_eq, c_string, ltb, leb, ◌==◌,
  if◌then◌else◌, arith, if-either,
}
use common_embedded_platform.Buffer.{ByteFifo, IsFifo}
use common_embedded_platform.Fpga.Partition.{
  Flash, State, read_bithdr, read_bithdr_records, sync_wait, bitstream, big_write, done, failed,
  Updater, erase_flash_partition,
}
use common_embedded_platform.Fpga.Updater.{
  syncword, be32, rx, pop_rx, move, process_bithdr, take_record, process_records, sync_loop,
  is_desync, process_type1, process_bitstream, move_words, process_big_write, process_in, process,
  rank, fuel_of,
}
use common_embedded_platform.Fpga.Updater.Rank.{erase-keeps}

module _ (flash : Flash) {Q : Type 0} (fifo : ByteFifo Q) (capacity : ℕ)
    (law : IsFifo fifo capacity) where
  abbrev pub size : Q → ℕ
  size q = length (fifo.contents q)

  pub size-pop : (n : ℕ) (q : Q) → n ≤ size q → size (fifo.pop n q) ≡ size q - n
  size-pop n q h = ap length (law.pop_contents n q h) ∙ length-drop n (fifo.contents q)

  -- A call that returns true leaves less than `bound` to do.
  abbrev pub Decreases : ℕ → Bool × Updater Q → Type 0
  Decreases bound r = r.0 ≡ true → fuel_of flash fifo r.1 < bound

  bithdr-Decreases :
      (s : Updater Q) → Decreases (6 * length (rx flash fifo s) + 5) (process_bithdr flash fifo s)
  unfolding process_bithdr
  bithdr-Decreases s h = ground (arith, size-pop 13 s.rx_buffer)

  take_record-decreases :
      (type len : ℕ) (s : Updater Q)
      → s.state ≡ read_bithdr_records
      → 3 + len ≤ length (rx flash fifo s)
      → fuel_of flash fifo (take_record flash fifo type len s) < 6 * length (rx flash fifo s) + 4
  unfolding take_record
  take_record-decreases type len s at room =
      let popped = size-pop (3 + len) s.rx_buffer room in
      if-either (λ r. fuel_of flash fifo r < 6 * length (rx flash fifo s) + 4)
        ((type == 98)
          && not
              (bytes_eq (c_string (take len (drop 3 (rx flash fifo s)))) (c_string s.device_name)))
        (record s { state = failed; rx_buffer = fifo.pop (3 + len) s.rx_buffer })
        (pop_rx flash fifo (3 + len) s) (λ x. omega (arith, popped))
        (λ y. rw at (omega (arith, popped)))

  records-Decreases :
      (s : Updater Q)
      → s.state ≡ read_bithdr_records
      → Decreases (6 * length (rx flash fifo s) + 4) (process_records flash fifo s)
  unfolding process_records
  records-Decreases s at =
      let opened = record s { rx_buffer = fifo.pop 5 s.rx_buffer; state = sync_wait } in
      let erased = erase-keeps flash fifo opened in
      let shrinks = law.pop_shrinks 5 s.rx_buffer in
      let rest = ap size erased.0 in
      let type = get_or (rx flash fifo s) 0 0 in
      let len = get_or (rx flash fifo s) 2 0 in
      let P = Decreases (6 * length (rx flash fifo s) + 4) in
      if-either P (ltb (length (rx flash fifo s)) 3) (false, s)
        (if type == 101
          then (true, erase_flash_partition flash fifo opened)
          else if leb (3 + len) (length (rx flash fifo s))
          then (true, take_record flash fifo type len s)
          else (false, s))
        (λ x h. absurd (ground arith))
        (λ y.
          if-either P (type == 101) (true, erase_flash_partition flash fifo opened)
            (if leb (3 + len) (length (rx flash fifo s))
              then (true, take_record flash fifo type len s)
              else (false, s))
            (λ e h. omega (arith, erased.1, shrinks, rest))
            (λ f.
              if-either P (leb (3 + len) (length (rx flash fifo s)))
                (true, take_record flash fifo type len s) (false, s)
                (λ room h. take_record-decreases type len s at (ground arith))
                (λ short h. absurd (ground arith))))

  move-size :
      (n : ℕ) (s : Updater Q)
      → n ≤ length (rx flash fifo s)
      → length (rx flash fifo (move flash fifo n s)) ≡ length (rx flash fifo s) - n
  unfolding move
  move-size n s h = size-pop n s.rx_buffer h

  sync-Decreases :
      (n : ℕ) (s : Updater Q)
      → Decreases (6 * length (rx flash fifo s) + 3) (sync_loop flash fifo n s)
  unfolding sync_loop
  sync-Decreases zero s = λ h. absurd (ground arith)
  sync-Decreases (suc n) s =
      let P = Decreases (6 * length (rx flash fifo s) + 3) in
      if-either P (leb (length (rx flash fifo s)) 4) (false, s)
        (if bytes_eq (take 4 (rx flash fifo s)) syncword
          then (true, record (move flash fifo 4 s) { state = bitstream })
          else sync_loop flash fifo n (move flash fifo 1 s))
        (λ x h. absurd (ground arith))
        (λ y.
          let more : 5 ≤ length (rx flash fifo s) = ground arith in
          if-either P (bytes_eq (take 4 (rx flash fifo s)) syncword)
            (true, record (move flash fifo 4 s) { state = bitstream })
            (sync_loop flash fifo n (move flash fifo 1 s))
            (λ e h. omega (arith, move-size 4 s (omega arith)))
            (λ f h.
              omega (arith, sync-Decreases n (move flash fifo 1 s) h, move-size 1 s (omega arith))))

  type1-Decreases :
      (s : Updater Q)
      → s.state ≡ bitstream
      → Decreases (6 * length (rx flash fifo s) + 1) (process_type1 flash fifo s)
  unfolding process_type1
  type1-Decreases s at =
      let words = be32 (rx flash fifo s) 0 % 1024 in
      if-either (Decreases (6 * length (rx flash fifo s) + 1))
        (ltb (length (rx flash fifo s)) (4 * (words + 1))) (false, s)
        (
          true,
          record (move flash fifo (4 * (words + 1)) s) {
            state = if is_desync flash fifo (rx flash fifo s) then done else s.state;
          },
        )
        (λ x h. absurd (ground arith))
        (λ y h.
          let room : 4 * (words + 1) ≤ length (rx flash fifo s) = ground arith in
          let shorter = move-size (4 * (words + 1)) s room in
          let low =
            if-either (λ st. rank flash fifo st ≤ 1) (is_desync flash fifo (rx flash fifo s)) done
              s.state (λ x. omega arith) (λ x. rw at (omega arith)) in
          omega (arith, shorter, low, room))

  move_words-Decreases :
      (n : ℕ) (s : Updater Q)
      → Decreases (6 * length (rx flash fifo s) + 2) (move_words flash fifo n s)
  unfolding move_words
  move_words-Decreases n s h = ground (arith, law.pop_shrinks (4 * n) s.rx_buffer)

  bitstream-Decreases :
      (s : Updater Q)
      → s.state ≡ bitstream
      → Decreases (6 * length (rx flash fifo s) + 1) (process_bitstream flash fifo s)
  unfolding process_bitstream
  bitstream-Decreases s at =
      let P = Decreases (6 * length (rx flash fifo s) + 1) in
      let type = get_or (rx flash fifo s) 0 0 / 32 in
      let big : Bool × Updater Q = (
        true,
        record (move flash fifo 4 s) {
          big_word_len = be32 (rx flash fifo s) 0 % 2 ^ 27;
          state = big_write;
        },
      ) in
      let bad : Bool × Updater Q = (true, record s { state = failed }) in
      let other = if type == 2 then big else bad in
      if-either P (ltb (length (rx flash fifo s)) 4) (false, s)
        (if type == 1 then process_type1 flash fifo s else other) (λ x h. absurd (ground arith))
        (λ y.
          let more : 4 ≤ length (rx flash fifo s) = ground arith in
          if-either P (type == 1) (process_type1 flash fifo s) other (λ e. type1-Decreases s at)
            (λ e.
              if-either P (type == 2) big bad (λ f h. omega (arith, move-size 4 s more, more))
                (λ f h. omega arith)))

  big_write-Decreases :
      (s : Updater Q)
      → Decreases (6 * length (rx flash fifo s) + 2) (process_big_write flash fifo s)
  unfolding process_big_write
  big_write-Decreases s =
      if-either (Decreases (6 * length (rx flash fifo s) + 2)) (ltb (length (rx flash fifo s)) 4)
        (false, s) (move_words flash fifo (min (length (rx flash fifo s) / 4) s.big_word_len) s)
        (λ x h. absurd (ground arith))
        (λ y. move_words-Decreases (min (length (rx flash fifo s) / 4) s.big_word_len) s)

  process_in-Decreases :
      (st : State) (s : Updater Q)
      → s.state ≡ st
      → Decreases (6 * length (rx flash fifo s) + rank flash fifo st) (process_in flash fifo st s)
  unfolding process_in
  process_in-Decreases read_bithdr s at = bithdr-Decreases s
  process_in-Decreases read_bithdr_records s at = records-Decreases s at
  process_in-Decreases sync_wait s at = sync-Decreases (length (rx flash fifo s)) s
  process_in-Decreases bitstream s at = bitstream-Decreases s at
  process_in-Decreases big_write s at = big_write-Decreases s
  process_in-Decreases done s at = λ h. absurd (ground arith)
  process_in-Decreases failed s at = λ h. absurd (ground arith)

  pub process-Decreases : (s : Updater Q) → Decreases (fuel_of flash fifo s) (process flash fifo s)
  unfolding process
  process-Decreases s = process_in-Decreases s.state s refl
