-- ===== src/Fpga/Partition.antt =====
-- The state of `FPGAFirmwareUpdater` (fpga/FPGAFirmwareUpdater.cpp and .h), the flash that it writes, and
-- the erasure of its partition there. The flash driver is of another repository: what the code does to
-- it is a trace, and its answers are functions of the trace.
use common_embedded_platform.Prelude.{
  ℕ, zero, suc, ◌+◌, ◌-◌, ◌*◌, ◌/◌, Bool, true, false, not, ltb, Option, none, List, ◌∷◌, replicate,
  bytes_eq, u32, bit_or, if◌then◌else◌,
}
use common_embedded_platform.Buffer.{ByteFifo}

pub data FlashEvent : Type 0 where
  erase_sector : ℕ → FlashEvent
  write_data : ℕ → List ℕ → FlashEvent
  read_data : ℕ → ℕ → FlashEvent

-- The newest event comes first.
abbrev pub FlashTrace : Type 0
FlashTrace = List FlashEvent

-- `APB_SpiFlashInterface`: each answer is that to a call made after the trace.
pub record Flash : Type 0 where
  pub erase_block_size : ℕ
  pub max_write_block_size : ℕ
  pub erases : FlashTrace → ℕ → Bool
  pub writes : FlashTrace → ℕ → List ℕ → Bool
  pub reads : FlashTrace → ℕ → ℕ → List ℕ

pub data State : Type 0 where
  read_bithdr read_bithdr_records sync_wait bitstream big_write done failed : State

abbrev pub is_failed : State → Bool
is_failed failed = true
is_failed _ = false

-- `is_endless` is none of the members: it says that a loop has used up the rounds that it needs at most to
-- end, and its condition still holds.
pub record Updater (Q : Type 0) : Type 0 where
  pub state : State
  pub rx_buffer : Q
  pub write_buffer : Q
  pub big_word_len : ℕ
  pub wptr : ℕ
  pub device_name : List ℕ
  pub image_offset : ℕ
  pub image_size : ℕ
  pub trace : FlashTrace
  pub is_endless : Bool

abbrev pub block_count : ℕ → ℕ → ℕ
block_count image_size sector = bit_or image_size (sector - 1) / sector

-- What a caller sees of a loop that goes on for ever: nothing.
abbrev pub unless_endless : {Q : Type 0} → Updater Q → Option (Updater Q) → Option (Updater Q)
unless_endless s o = if s.is_endless then none else o

module _ (flash : Flash) {Q : Type 0} (fifo : ByteFifo Q) where
  -- The two loops of `EraseFlashPartition`, with the number of rounds left.
  unfoldable pub erase_blocks : ℕ → ℕ → Updater Q → Updater Q
  erase_blocks zero i s = s
  erase_blocks (suc n) i s =
      let ptr = u32 (s.image_offset + i * flash.erase_block_size) in
      let erased = record s { trace = erase_sector ptr ∷ s.trace } in
      let rest = erase_blocks n (i + 1) erased in
      if flash.erases s.trace ptr then rest else record erased { state = failed }

  -- The address is 32 bits wide: in an image that is less than one block short of 4 GB it comes round to 0,
  -- below the size of the image.
  unfoldable pub blank_check : ℕ → ℕ → Updater Q → Updater Q
  blank_check zero addr s = if ltb addr s.image_size then record s { is_endless = true } else s
  blank_check (suc n) addr s =
      let checked = record s { trace = read_data addr 256 ∷ s.trace } in
      let rest = blank_check n (u32 (addr + 256)) checked in
      if not (ltb addr s.image_size)
      then s
      else if bytes_eq (replicate 256 0xff) (flash.reads s.trace addr 256)
      then rest
      else record checked { state = failed }

  unfoldable pub erase_flash_partition : Updater Q → Updater Q
  erase_flash_partition s =
      let erased = erase_blocks (block_count s.image_size flash.erase_block_size) 0 s in
      if is_failed erased.state then erased else blank_check ((s.image_size + 255) / 256) 0 erased
