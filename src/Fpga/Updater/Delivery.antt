-- ===== src/Fpga/Updater/Delivery.antt =====
-- What `OnRxData` delivers to the flash.
use common_embedded_platform.Prelude.{
  ℕ, zero, suc, ◌+◌, ◌≤◌, ◌≡◌, ◌⊎◌, refl, sym, ap, subst, ◌∙◌, true, false, some, List, [], ◌++◌,
  append_assoc, append-nil, length, length-append, if◌then◌else◌, arith, Bool-cases, if-either, inl,
  inr,
}
use common_embedded_platform.Buffer.{ByteFifo, IsFifo}
use common_embedded_platform.Fpga.Partition.{Flash, done, is_failed, Updater}
use common_embedded_platform.Fpga.Updater.{
  rx, process_in, process, push_write_data, process_all, fuel_of, on_rx_data,
}
use common_embedded_platform.Fpga.Updater.Stream.{
  stored, on_way, pending, Kept, HasRoom, process_in-Kept, same_room,
}
use common_embedded_platform.Fpga.Updater.Flush.{Written, pushed-Written}
use common_embedded_platform.Fpga.Updater.Failure.{is_failed_only, process_all-failed}
use common_embedded_platform.Fpga.Updater.Outcomes.{unless_endless-some}

module _ (flash : Flash) {Q : Type 0} (fifo : ByteFifo Q) (capacity : ℕ)
    (law : IsFifo fifo capacity) where
  abbrev pub total : Updater Q → List ℕ
  total s = stored s.trace ++ pending flash fifo capacity law s

  -- What is dropped stands behind the end of the image.
  abbrev Delivered : Updater Q → Updater Q → Type 0
  Delivered s r =
      is_failed r.state ≡ false
      → (dropped : List ℕ) × (total r ++ dropped ≡ total s) × ((dropped ≡ []) ⊎ (r.state ≡ done))

  total_pushed :
      (s r : Updater Q)
      → Written flash fifo capacity law s r
      → is_failed r.state ≡ false
      → total r ≡ total s
  total_pushed s r written h =
      let w = written h in
      sym (append_assoc (stored r.trace) (fifo.contents r.write_buffer) (rx flash fifo r))
      ∙ ap (λ xs. xs ++ rx flash fifo r) w.0
      ∙ ap (λ q. (stored s.trace ++ fifo.contents s.write_buffer) ++ fifo.contents q) w.2
      ∙ append_assoc (stored s.trace) (fifo.contents s.write_buffer) (rx flash fifo s)

  total-Kept : (s r : Updater Q) → Kept flash fifo capacity law s r → total r ≡ total s
  total-Kept s r kept =
      ap (λ t. stored t ++ pending flash fifo capacity law r) kept.1
      ∙ ap (λ xs. stored s.trace ++ xs) kept.0

  total_emptied :
      (s : Updater Q)
      → total (record s { rx_buffer = fifo.reset s.rx_buffer }) ++ rx flash fifo s ≡ total s
  total_emptied s =
      let w = fifo.contents s.write_buffer in
      ap (λ e. (stored s.trace ++ (w ++ e)) ++ rx flash fifo s) (law.reset_contents s.rx_buffer)
      ∙ ap (λ e. (stored s.trace ++ e) ++ rx flash fifo s) (append-nil w)
      ∙ append_assoc (stored s.trace) w (rx flash fifo s)

  room_pushed :
      (s r : Updater Q)
      → Written flash fifo capacity law s r
      → is_failed r.state ≡ false
      → HasRoom flash fifo capacity law s
      → HasRoom flash fifo capacity law r
  room_pushed s r written h room =
      let w = written h in omega (arith, w.1, ap (λ q. length (fifo.contents q)) w.2)

  -- The call that ends the loop.
  last-Delivered :
      (s : Updater Q)
      → on_way s.state ≡ true
      → HasRoom flash fifo capacity law s
      → Delivered s (push_write_data flash fifo (process flash fifo s).1)
  unfolding process
  last-Delivered s w room h =
      let call = process_in flash fifo s.state s in
      let emptied = record s { rx_buffer = fifo.reset s.rx_buffer } in
      let written = pushed-Written flash fifo capacity law call.1 in
      let all = total_pushed call.1 (push_write_data flash fifo call.1) written h in
      elim (process_in-Kept flash fifo capacity law s.state s w room) [
        | inl kept ↦ (
          [],
          append-nil (total (push_write_data flash fifo call.1)) ∙ all ∙ total-Kept s call.1 kept,
          inl refl,
        )
        | inr idle ↦
            let left : call.1 ≡ emptied = ap (λ c. c.1) idle.1 in
            let ends : (push_write_data flash fifo call.1).state ≡ s.state =
              (written h).3 ∙ ap (λ u. u.state) left in
            (
              rx flash fifo s,
              ap (λ xs. xs ++ rx flash fifo s) (all ∙ ap (λ u. total u) left) ∙ total_emptied s,
              elim (idle.0) [
                | inl d ↦ inr (ends ∙ d)
                | inr f ↦ absurd (let bad = ap is_failed (ends ∙ f) in ground arith)
              ],
            )
      ]

  true-Kept :
      (s : Updater Q)
      → on_way s.state ≡ true
      → HasRoom flash fifo capacity law s
      → (process flash fifo s).0 ≡ true
      → Kept flash fifo capacity law s (process flash fifo s).1
  unfolding process
  true-Kept s w room x = elim (process_in-Kept flash fifo capacity law s.state s w room) [
    | inl kept ↦ kept
    | inr idle ↦ absurd (let no = ap (λ c. c.0) idle.1 in ground arith)
  ]

  process_all-delivers :
      (n : ℕ) (s r : Updater Q)
      → on_way s.state ≡ true
      → HasRoom flash fifo capacity law s
      → process_all flash fifo n s ≡ some r
      → Delivered s r
  unfolding process_all
  process_all-delivers zero s r w room e = λ h. absurd (ground arith)
  process_all-delivers (suc n) s r w room e =
      let call = process flash fifo s in
      let after = push_write_data flash fifo call.1 in
      let written = pushed-Written flash fifo capacity law call.1 in
      if-either (λ o. o ≡ some r → Delivered s r) call.0 (process_all flash fifo n after)
        (some after)
        (λ x f h.
          let kept = true-Kept s w room x in
          elim (Bool-cases (is_failed after.state)) [
            | inl bad ↦ absurd (
                let ends =
                  ap is_failed
                    (process_all-failed flash fifo n after r
                      (is_failed_only flash fifo after.state bad) f).0 in
                ground arith)
            | inr fine ↦
                let rest =
                  process_all-delivers n after r (ap on_way (written fine).3 ∙ kept.2 w)
                    (room_pushed call.1 after written fine
                      (same_room flash fifo capacity law s call.1 kept room))
                    f h in
                (
                  rest.0,
                  rest.1 ∙ total_pushed call.1 after written fine ∙ total-Kept s call.1 kept,
                  rest.2,
                )
          ])
        (λ y f.
          let same : after ≡ r = cc in subst (λ u. Delivered s u) same (last-Delivered s w room))
        (unless_endless-some after r (if call.0 then process_all flash fifo n after else some after)
          e).1

  -- Data arrives behind the header, and the two buffers have room for it. Unless the updater has failed
  -- afterwards: what was written to the flash, the write buffer and the receive buffer, in this
  -- order, are what they were and the data behind it; bytes are missing at its end at most, and only
  -- if the end of the image was found.
  pub on_rx_data-delivers :
      (bytes : List ℕ) (s r : Updater Q)
      → on_way s.state ≡ true
      → length (fifo.contents s.write_buffer) + length (rx flash fifo s) + length bytes ≤ capacity
      → on_rx_data flash fifo bytes s ≡ some r
      → is_failed r.state ≡ false
      → (dropped : List ℕ) × (total r ++ dropped ≡ total s ++ bytes)
        × ((dropped ≡ []) ⊎ (r.state ≡ done))
  unfolding on_rx_data
  on_rx_data-delivers bytes s r w room e h =
      let pushed = fifo.push bytes s.rx_buffer in
      let taken = law.push_room bytes s.rx_buffer (omega (arith, room)) in
      let held = law.push_contents bytes s.rx_buffer taken in
      let s' = record s { rx_buffer = pushed.1 } in
      let longer = ap length held ∙ length-append (fifo.contents s.rx_buffer) bytes in
      let run : process_all flash fifo (suc (fuel_of flash fifo s')) s' ≡ some r =
        sym (
          ap (λ b. if b then process_all flash fifo (suc (fuel_of flash fifo s')) s' else some s')
            taken)
        ∙ e in
      let rest =
        process_all-delivers (suc (fuel_of flash fifo s')) s' r w (omega (arith, room, longer)) run
          h in
      let wr = fifo.contents s.write_buffer in
      (
        rest.0,
        rest.1
            ∙ ap (λ xs. stored s.trace ++ (wr ++ xs)) held
            ∙ ap (λ xs. stored s.trace ++ xs) (sym (append_assoc wr (rx flash fifo s) bytes))
            ∙ sym (append_assoc (stored s.trace) (wr ++ rx flash fifo s) bytes),
        rest.2,
      )
