-- ===== src/Multicore/Log.antt =====
-- `MulticoreLogDevice` (multicore/MulticoreLogDevice.h and .cpp): each core collects its log output in
-- a buffer of its own, and pushes it to the other core through its IPC channel.
pub mod Stream
use common_embedded_platform.Prelude.{
  ℕ, ◌+◌, Bool, true, false, none, some, List, [], ◌∷◌, ◌++◌, ◌==◌, ◌&&◌, ltb, get_elem?, set, take,
  replicate, sub32, not, leb, if◌then◌else◌,
}

-- The part of the device that belongs to one core. `is_connected` says that `m_channels` is not null,
-- and `pushed` holds the messages that `Push` of the channel's secondary FIFO took, in order.
pub record CoreLog : Type 0 where
  pub is_connected : Bool
  pub tx_buffer : List ℕ
  pub write_pointer : ℕ
  pub pushed : List (List ℕ)

module _ (log_txbuf_size : ℕ) where
  -- The constructor, for one core.
  unfoldable pub fresh : CoreLog
  fresh = record {
    is_connected = false;
    tx_buffer = replicate log_txbuf_size 0;
    write_pointer = 0;
    pushed = [];
  }

-- `Flush`, on the current core. `fifo_size` is `m_size` of the FIFO: its `Push` drops a longer message.
unfoldable pub flush : ℕ → CoreLog → CoreLog
flush fifo_size c = record c {
  write_pointer = 0;
  pushed =
      if c.is_connected && not (c.write_pointer == 0) && leb c.write_pointer fifo_size
      then c.pushed ++ (take c.write_pointer c.tx_buffer ∷ [])
      else c.pushed;
}

module _ (log_txbuf_size fifo_size : ℕ) where
  -- `PrintBinary`, on the current core. `LOG_TXBUF_SIZE - 128` is compared as a uint32_t.
  unfoldable pub print_char : ℕ → CoreLog → CoreLog
  unfolding flush
  print_char ch c =
      let c1 = record c {
        tx_buffer = set c.tx_buffer c.write_pointer ch;
        write_pointer = c.write_pointer + 1;
      } in
      let c2 = if c1.write_pointer == log_txbuf_size then flush fifo_size c1 else c1 in
      if (ch == b'\n') && ltb (sub32 log_txbuf_size 128) c2.write_pointer
      then flush fifo_size c2
      else c2

  -- The device: one entry for each core. `GetCurrentCore` gives the index.
  unfoldable pub print_binary : ℕ → ℕ → List CoreLog → List CoreLog
  print_binary core ch cores = elim (get_elem? cores core) [
    | none ↦ cores
    | some c ↦ set cores core (print_char ch c)
  ]
