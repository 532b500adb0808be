-- ===== src/Fpga/Updater/Stream.antt =====
-- The bytes of the image on their way from the receive buffer to the flash.
use common_embedded_platform.Prelude.{
  ℕ, zero, suc, ◌+◌, ◌-◌, ◌*◌, ◌/◌, ◌%◌, ◌^◌, ◌≤◌, ◌≡◌, ◌⊎◌, refl, ap, ◌∙◌, min, Bool, true, false,
  List, [], ◌∷◌, ◌++◌, append_assoc, length, length-append, length-take, take-drop, get_or, take,
  bytes_eq, ltb, leb, ◌==◌, if◌then◌else◌, arith, if-either, inl, inr,
}
use common_embedded_platform.Buffer.{ByteFifo, IsFifo}
use common_embedded_platform.Fpga.Partition.{
  erase_sector, write_data, read_data, FlashTrace, Flash, State, read_bithdr, read_bithdr_records,
  sync_wait, bitstream, big_write, done, failed, Updater,
}
use common_embedded_platform.Fpga.Updater.{
  syncword, be32, rx, move, sync_loop, is_desync, process_type1, process_bitstream, move_words,
  process_big_write, process_in,
}

-- What was written to the flash, in the order in which it was.
abbrev pub stored : FlashTrace → List ℕ
stored [] = []
stored (erase_sector ptr ∷ t) = stored t
stored (write_data ptr bytes ∷ t) = stored t ++ bytes
stored (read_data ptr n ∷ t) = stored t

-- The states behind the header.
abbrev pub on_way : State → Bool
on_way read_bithdr = false
on_way read_bithdr_records = false
on_way _ = true

module _ (flash : Flash) {Q : Type 0} (fifo : ByteFifo Q) (capacity : ℕ)
    (law : IsFifo fifo capacity) where
  abbrev pub pending : Updater Q → List ℕ
  pending s = fifo.contents s.write_buffer ++ rx flash fifo s

  abbrev pub HasRoom : Updater Q → Type 0
  HasRoom s = length (fifo.contents s.write_buffer) + length (rx flash fifo s) ≤ capacity

  -- The same bytes in the two buffers, the same calls of the flash.
  abbrev pub Kept : Updater Q → Updater Q → Type 0
  Kept s r =
      (pending r ≡ pending s)
      × (r.trace ≡ s.trace)
      × (on_way s.state ≡ true → on_way r.state ≡ true)

  moved :
      (n : ℕ) (w r : Q)
      → n ≤ length (fifo.contents r)
      → length (fifo.contents w) + length (fifo.contents r) ≤ capacity
      → (fifo.contents (fifo.push (take n (fifo.contents r)) w).1 ++ fifo.contents (fifo.pop n r)
          ≡ fifo.contents w ++ fifo.contents r)
        × ((fifo.push (take n (fifo.contents r)) w).0 ≡ true)
  moved n w r enough room =
      let bytes = take n (fifo.contents r) in
      let taken = law.push_room bytes w (omega (arith, length-take n (fifo.contents r) enough)) in
      (
        ap (λ xs. xs ++ fifo.contents (fifo.pop n r)) (law.push_contents bytes w taken)
            ∙ append_assoc (fifo.contents w) bytes (fifo.contents (fifo.pop n r))
            ∙ ap (λ xs. fifo.contents w ++ (bytes ++ xs)) (law.pop_contents n r enough)
            ∙ ap (λ xs. fifo.contents w ++ xs) (take-drop n (fifo.contents r)),
        taken,
      )

  behind :
      (s r : Updater Q) (st : State)
      → Kept s r
      → on_way st ≡ true
      → (pending r ≡ pending s) × (r.trace ≡ s.trace) × (on_way s.state ≡ true → on_way st ≡ true)
  behind s r st kept w = (kept.0, kept.1, λ v. w)

  move-Kept :
      (n : ℕ) (s : Updater Q)
      → n ≤ length (rx flash fifo s)
      → HasRoom s
      → Kept s (move flash fifo n s)
  unfolding move
  move-Kept n s enough room = ((moved n s.write_buffer s.rx_buffer enough room).0, refl, λ w. w)

  pub same_room : (s r : Updater Q) → Kept s r → HasRoom s → HasRoom r
  same_room s r kept room = omega (
    arith,
    ap length kept.0,
    length-append (fifo.contents s.write_buffer) (rx flash fifo s),
    length-append (fifo.contents r.write_buffer) (rx flash fifo r),
  )

  sync-Kept : (n : ℕ) (s : Updater Q) → HasRoom s → Kept s (sync_loop flash fifo n s).1
  unfolding sync_loop
  sync-Kept zero s room = (refl, refl, λ w. w)
  sync-Kept (suc n) s room =
      let P : Bool × Updater Q → Type 0 = λ r. Kept s r.1 in
      if-either P (leb (length (rx flash fifo s)) 4) (false, s)
        (if bytes_eq (take 4 (rx flash fifo s)) syncword
          then (true, record (move flash fifo 4 s) { state = bitstream })
          else sync_loop flash fifo n (move flash fifo 1 s))
        (λ x. (refl, refl, λ w. w))
        (λ y.
          let more : 5 ≤ length (rx flash fifo s) = ground arith in
          let one = move-Kept 1 s (omega arith) room in
          let later =
            sync-Kept n (move flash fifo 1 s) (same_room s (move flash fifo 1 s) one room) in
          if-either P (bytes_eq (take 4 (rx flash fifo s)) syncword)
            (true, record (move flash fifo 4 s) { state = bitstream })
            (sync_loop flash fifo n (move flash fifo 1 s))
            (λ e. behind s (move flash fifo 4 s) bitstream (move-Kept 4 s (omega arith) room) refl)
            (λ f. (later.0 ∙ one.0, later.1 ∙ one.1, λ w. later.2 (one.2 w))))

  type1-Kept : (s : Updater Q) → HasRoom s → Kept s (process_type1 flash fifo s).1
  unfolding process_type1
  type1-Kept s room =
      let size = 4 * (be32 (rx flash fifo s) 0 % 1024 + 1) in
      if-either {A = Bool × Updater Q} (λ r. Kept s r.1) (ltb (length (rx flash fifo s)) size)
        (false, s)
        (
          true,
          record (move flash fifo size s) {
            state = if is_desync flash fifo (rx flash fifo s) then done else s.state;
          },
        )
        (λ x. (refl, refl, λ w. w))
        (λ y.
          let kept = move-Kept size s (ground arith) room in
          (
            kept.0,
            kept.1,
            λ w.
                if-either (λ st. on_way st ≡ true) (is_desync flash fifo (rx flash fifo s)) done
                  s.state (λ e. refl) (λ e. w),
          ))

  bitstream-Kept : (s : Updater Q) → HasRoom s → Kept s (process_bitstream flash fifo s).1
  unfolding process_bitstream
  bitstream-Kept s room =
      let P : Bool × Updater Q → Type 0 = λ r. Kept s r.1 in
      let type = get_or (rx flash fifo s) 0 0 / 32 in
      let big : Bool × Updater Q = (
        true,
        record (move flash fifo 4 s) {
          big_word_len = be32 (rx flash fifo s) 0 % 2 ^ 27;
          state = big_write;
        },
      ) in
      let bad : Bool × Updater Q = (true, record s { state = failed }) in
      let other = if type == 2 then big else bad in
      if-either P (ltb (length (rx flash fifo s)) 4) (false, s)
        (if type == 1 then process_type1 flash fifo s else other) (λ x. (refl, refl, λ w. w))
        (λ y.
          if-either P (type == 1) (process_type1 flash fifo s) other (λ e. type1-Kept s room)
            (λ e.
              if-either P (type == 2) big bad
                (λ f.
                  behind s (move flash fifo 4 s) big_write (move-Kept 4 s (ground arith) room) refl)
                (λ f. (refl, refl, λ w. refl))))

  move_words-Kept :
      (n : ℕ) (s : Updater Q)
      → 4 * n ≤ length (rx flash fifo s)
      → HasRoom s
      → Kept s (move_words flash fifo n s).1
  unfolding move_words
  move_words-Kept n s enough room =
      let went = moved (4 * n) s.write_buffer s.rx_buffer enough room in
      let pushed = fifo.push (take (4 * n) (rx flash fifo s)) s.write_buffer in
      let next = record s {
        write_buffer = pushed.1;
        rx_buffer = fifo.pop (4 * n) s.rx_buffer;
        big_word_len = s.big_word_len - n;
        state = if pushed.0 then s.state else failed;
      } in
      if-either {A = Bool × Updater Q} (λ r. Kept s r.1) ((s.big_word_len - n) == 0)
        (true, record next { state = bitstream }) (false, next) (λ e. (went.0, refl, λ w. refl))
        (λ e. (
          went.0,
          refl,
          λ w. if-either (λ st. on_way st ≡ true) pushed.0 s.state failed (λ f. w) (λ f. refl),
        ))

  big_write-Kept : (s : Updater Q) → HasRoom s → Kept s (process_big_write flash fifo s).1
  unfolding process_big_write
  big_write-Kept s room =
      let n = min (length (rx flash fifo s) / 4) s.big_word_len in
      if-either {A = Bool × Updater Q} (λ r. Kept s r.1) (ltb (length (rx flash fifo s)) 4)
        (false, s) (move_words flash fifo n s) (λ x. (refl, refl, λ w. w))
        (λ y. move_words-Kept n s (omega arith) room)

  -- The other case is that the updater is done or has failed.
  pub process_in-Kept :
      (st : State) (s : Updater Q)
      → on_way st ≡ true
      → HasRoom s
      → Kept s (process_in flash fifo st s).1
        ⊎ (((st ≡ done) ⊎ (st ≡ failed))
            × (process_in flash fifo st s
                ≡ (false, record s { rx_buffer = fifo.reset s.rx_buffer })))
  unfolding process_in
  process_in-Kept read_bithdr s w room = absurd (ground arith)
  process_in-Kept read_bithdr_records s w room = absurd (ground arith)
  process_in-Kept sync_wait s w room = inl (sync-Kept (length (rx flash fifo s)) s room)
  process_in-Kept bitstream s w room = inl (bitstream-Kept s room)
  process_in-Kept big_write s w room = inl (big_write-Kept s room)
  process_in-Kept done s w room = inr (inl refl, refl)
  process_in-Kept failed s w room = inr (inr refl, refl)
