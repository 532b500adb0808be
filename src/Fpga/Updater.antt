-- ===== src/Fpga/Updater.antt =====
-- `FPGAFirmwareUpdater` (fpga/FPGAFirmwareUpdater.cpp and .h): a bit file comes in pieces, its header is
-- checked and dropped, and the image behind it goes to a SPI flash. Log output is left out, and so is the
-- walk to the first wrong byte, which only prints it.
pub mod Outcomes
pub mod Rank
pub mod Steps
pub mod Endings
pub mod Termination
pub mod Stream
pub mod Flush
pub mod Failure
pub mod Delivery
pub mod Quiet
pub mod Careful
pub mod Erasure
pub mod Verified
use common_embedded_platform.Prelude.{
  ℕ, zero, suc, ◌+◌, ◌-◌, ◌*◌, ◌/◌, ◌%◌, ◌^◌, min, Bool, true, false, not, ◌&&◌, Option, none, some,
  List, [], ◌∷◌, ◌++◌, length, get_or, take, drop, replicate, bytes_eq, c_string, u32, bit_or, ltb,
  leb, ◌==◌, if◌then◌else◌,
}
use common_embedded_platform.Buffer.{ByteFifo}
use common_embedded_platform.Fpga.Partition.{
  FlashEvent, erase_sector, write_data, read_data, FlashTrace, Flash, State, read_bithdr,
  read_bithdr_records, sync_wait, bitstream, big_write, done, failed, is_failed, Updater,
  block_count, erase_blocks, blank_check, erase_flash_partition, unless_endless,
}

-- 13 bytes.
abbrev pub magic : List ℕ
magic =
    0x00 ∷ 0x09 ∷ 0x0f ∷ 0xf0 ∷ 0x0f ∷ 0xf0 ∷ 0x0f ∷ 0xf0 ∷ 0x0f ∷ 0xf0 ∷ 0x00 ∷ 0x00 ∷ 0x01 ∷ []

abbrev pub syncword : List ℕ
syncword = 0xaa ∷ 0x99 ∷ 0x55 ∷ 0x66 ∷ []

-- `__builtin_bswap32` of the word at index `i`.
abbrev pub be32 : List ℕ → ℕ → ℕ
be32 p i =
    get_or p i 0 * 16777216
    + get_or p (i + 1) 0 * 65536
    + get_or p (i + 2) 0 * 256
    + get_or p (i + 3) 0

module _ (flash : Flash) {Q : Type 0} (fifo : ByteFifo Q) where
  -- `OnDeviceOpened`.
  unfoldable pub on_device_opened : Updater Q → Updater Q
  on_device_opened s = record s {
    rx_buffer = fifo.reset s.rx_buffer;
    write_buffer = fifo.reset s.write_buffer;
    state = read_bithdr;
    big_word_len = 0;
    wptr = s.image_offset;
  }

  abbrev pub rx : Updater Q → List ℕ
  rx s = fifo.contents s.rx_buffer

  abbrev pub pop_rx : ℕ → Updater Q → Updater Q
  pop_rx n s = record s { rx_buffer = fifo.pop n s.rx_buffer }

  -- `m_writeBuffer.Push` of the first bytes that were received, whose result is ignored, and their pop.
  unfoldable pub move : ℕ → Updater Q → Updater Q
  move n s = record s {
    write_buffer = (fifo.push (take n (rx s)) s.write_buffer).1;
    rx_buffer = fifo.pop n s.rx_buffer;
  }

  -- `ProcessDataFromBuffer`, one function for each state: whether to call it again.
  unfoldable pub process_bithdr : Updater Q → Bool × Updater Q
  process_bithdr s =
      if leb 13 (length (rx s))
      then (
        true,
        if bytes_eq (take 13 (rx s)) magic
            then record s { rx_buffer = fifo.pop 13 s.rx_buffer; state = read_bithdr_records }
            else record s { state = failed },
      )
      else (false, s)

  -- A record of `len` bytes that is not the start of the image: only the device name matters.
  unfoldable pub take_record : ℕ → ℕ → Updater Q → Updater Q
  take_record type len s =
      let text = c_string (take len (drop 3 (rx s))) in
      if (type == b'b') && not (bytes_eq text (c_string s.device_name))
      then record s { state = failed; rx_buffer = fifo.pop (3 + len) s.rx_buffer }
      else pop_rx (3 + len) s

  unfoldable pub process_records : Updater Q → Bool × Updater Q
  process_records s =
      let type = get_or (rx s) 0 0 in
      let len = get_or (rx s) 2 0 in
      if ltb (length (rx s)) 3
      then (false, s)
      else if type == b'e'
      then (
        true,
        erase_flash_partition flash fifo
            (record s { rx_buffer = fifo.pop 5 s.rx_buffer; state = sync_wait }),
      )
      else if leb (3 + len) (length (rx s))
      then (true, take_record type len s)
      else (false, s)

  -- The loop of STATE_SYNC_WAIT, which ends at the latest when the buffer is empty.
  unfoldable pub sync_loop : ℕ → Updater Q → Bool × Updater Q
  sync_loop zero s = (false, s)
  sync_loop (suc n) s =
      let rest = sync_loop n (move 1 s) in
      if leb (length (rx s)) 4
      then (false, s)
      else if bytes_eq (take 4 (rx s)) syncword
      then (true, record (move 4 s) { state = bitstream })
      else rest

  -- A type 1 packet: whether it is a write of DESYNC to the command register.
  abbrev pub is_desync : List ℕ → Bool
  is_desync p =
      let header = be32 p 0 in
      not (header / 2 ^ 27 % 4 == 0)
      && (header % 1024 == 1)
      && (header / 2 ^ 13 % 256 == 4)
      && (be32 p 4 % 32 == 13)

  unfoldable pub process_type1 : Updater Q → Bool × Updater Q
  process_type1 s =
      let packsize = 4 * (be32 (rx s) 0 % 1024 + 1) in
      if ltb (length (rx s)) packsize
      then (false, s)
      else (true, record (move packsize s) { state = if is_desync (rx s) then done else s.state })

  unfoldable pub process_bitstream : Updater Q → Bool × Updater Q
  process_bitstream s =
      let type = get_or (rx s) 0 0 / 32 in
      if ltb (length (rx s)) 4
      then (false, s)
      else if type == 1
      then process_type1 s
      else if type == 2
      then (true, record (move 4 s) { big_word_len = be32 (rx s) 0 % 2 ^ 27; state = big_write })
      else (true, record s { state = failed })

  -- `wordcount` words go on. Where the write buffer has no room for them the state is STATE_FAILED,
  -- unless they were the last ones of the packet: then STATE_BITSTREAM replaces it.
  unfoldable pub move_words : ℕ → Updater Q → Bool × Updater Q
  move_words wordcount s =
      let pushed = fifo.push (take (4 * wordcount) (rx s)) s.write_buffer in
      let left = s.big_word_len - wordcount in
      let moved = record s {
        write_buffer = pushed.1;
        rx_buffer = fifo.pop (4 * wordcount) s.rx_buffer;
        big_word_len = left;
        state = if pushed.0 then s.state else failed;
      } in
      if left == 0 then (true, record moved { state = bitstream }) else (false, moved)

  unfoldable pub process_big_write : Updater Q → Bool × Updater Q
  process_big_write s =
      if ltb (length (rx s)) 4
      then (false, s)
      else move_words (min (length (rx s) / 4) s.big_word_len) s

  unfoldable pub process_in : State → Updater Q → Bool × Updater Q
  process_in read_bithdr s = process_bithdr s
  process_in read_bithdr_records s = process_records s
  process_in sync_wait s = sync_loop (length (rx s)) s
  process_in bitstream s = process_bitstream s
  process_in big_write s = process_big_write s
  process_in done s = (false, record s { rx_buffer = fifo.reset s.rx_buffer })
  process_in failed s = (false, record s { rx_buffer = fifo.reset s.rx_buffer })

  unfoldable pub process : Updater Q → Bool × Updater Q
  process s = process_in s.state s

  -- Write, read back, compare: `n` bytes from the write buffer. The result says whether it went well.
  unfoldable pub write_verified : ℕ → Updater Q → Bool × Updater Q
  write_verified n s =
      let bytes = take n (fifo.contents s.write_buffer) in
      let written = write_data s.wptr bytes ∷ s.trace in
      let reread = read_data s.wptr n ∷ written in
      if not (flash.writes s.trace s.wptr bytes)
      then (false, record s { trace = written; state = failed })
      else if not (bytes_eq (flash.reads written s.wptr n) bytes)
      then (false, record s { trace = reread; state = failed })
      else (true, record s { trace = reread; write_buffer = fifo.pop n s.write_buffer })

  -- The loop of `PushWriteData`.
  unfoldable pub push_blocks : ℕ → Updater Q → Updater Q
  push_blocks zero s =
      if ltb (length (fifo.contents s.write_buffer)) flash.max_write_block_size
      then s
      else record s { is_endless = true }
  push_blocks (suc n) s =
      let wblock = flash.max_write_block_size in
      let attempt = write_verified wblock s in
      let rest = push_blocks n (record (attempt.1) { wptr = u32 (attempt.1.wptr + wblock) }) in
      if ltb (length (fifo.contents s.write_buffer)) wblock
      then s
      else if attempt.0
      then rest
      else attempt.1

  -- Each round takes a block from the buffer, so its size is enough rounds for blocks of one byte or more;
  -- with blocks of no bytes the loop never ends.
  unfoldable pub push_write_data : Updater Q → Updater Q
  push_write_data s =
      if is_failed s.state
      then s
      else if ltb 512 flash.max_write_block_size
      then record s { state = failed }
      else push_blocks (length (fifo.contents s.write_buffer)) s

  -- `while(ProcessDataFromBuffer()) PushWriteData();`, and the `PushWriteData` after it; `none` when the fuel is
  -- used up, or a loop inside never ends.
  unfoldable pub process_all : ℕ → Updater Q → Option (Updater Q)
  process_all zero s = none
  process_all (suc n) s =
      let call = process s in
      let after = push_write_data call.1 in
      let rest = process_all n after in unless_endless after (if call.0 then rest else some after)

  -- What a call of `ProcessDataFromBuffer` that returns true decreases.
  abbrev pub rank : State → ℕ
  rank read_bithdr = 5
  rank read_bithdr_records = 4
  rank sync_wait = 3
  rank big_write = 2
  rank bitstream = 1
  rank done = 0
  rank failed = 0

  abbrev pub fuel_of : Updater Q → ℕ
  fuel_of s = 6 * length (rx s) + rank s.state

  unfoldable pub on_rx_data : List ℕ → Updater Q → Option (Updater Q)
  on_rx_data bytes s =
      let pushed = fifo.push bytes s.rx_buffer in
      let s' = record s { rx_buffer = pushed.1 } in
      let rest = process_all (suc (fuel_of s')) s' in if pushed.0 then rest else some s'

  unfoldable pub flush_write_data : Updater Q → Updater Q
  flush_write_data s =
      let pushed = push_write_data s in
      if is_failed s.state
      then s
      else (write_verified (length (fifo.contents pushed.write_buffer)) pushed).1

  -- `OnDeviceClosed`.
  unfoldable pub on_device_closed : Updater Q → Updater Q
  on_device_closed s = flush_write_data s
