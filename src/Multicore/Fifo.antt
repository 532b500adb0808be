-- ===== src/Multicore/Fifo.antt =====
-- `UnidirectionalIPCFifo` (multicore/IPCDescriptorTable.h and .cpp): a buffer in shared memory that
-- one core fills and another one empties, with a flag of the IPC controller for the hand-over.
pub mod Mailbox
pub mod Interleaving
use common_embedded_platform.Prelude.{
  ℕ, ◌+◌, ◌-◌, ◌^◌, ◌<◌, ◌≡◌, ◌≢◌, Bool, true, false, not, Option, none, some, List, [], ◌++◌, ltb,
  take, drop, length, sub32, u32, if◌then◌else◌,
}

-- The IPC controller, of another repository. A direction is true for primary to secondary. Each
-- channel has a flag for each direction; `clear` masks name a channel by bit `i`, `set` masks by bit
-- `16 + i`, as in the status and set registers of the hardware.
pub record Ipcc (S : Type 0) : Type 0 where
  pub is_free : Bool → ℕ → S → Bool
  pub set_busy : Bool → ℕ → S → S
  pub set_free : Bool → ℕ → S → S
  pub busy_lem :
      (dir : Bool) (i : ℕ) (s : S)
      → i < 16
      → is_free dir (2 ^ i) (set_busy dir (2 ^ (16 + i)) s) ≡ false
  pub free_lem :
      (dir : Bool) (i : ℕ) (s : S) → i < 16 → is_free dir (2 ^ i) (set_free dir (2 ^ i) s) ≡ true

pub record Fifo : Type 0 where
  pub buffer : List ℕ
  pub size : ℕ
  pub write_ptr : ℕ
  pub setmask : ℕ
  pub clearmask : ℕ
  pub primary_tx : Bool

-- The constructor on the primary core.
abbrev pub empty_fifo : Fifo
empty_fifo = record {
  buffer = [];
  size = 0;
  write_ptr = 0;
  setmask = 0;
  clearmask = 0;
  primary_tx = false;
}

-- `Initialize`; the buffer has `size` bytes. The write pointer is left as it is.
unfoldable pub initialize : List ℕ → ℕ → ℕ → Bool → Fifo → Fifo
initialize buf size channel tx f = record f {
  buffer = buf;
  size = size;
  setmask = u32 (2 ^ (16 + channel));
  clearmask = u32 (2 ^ channel);
  primary_tx = tx;
}

unfoldable pub read_size : Fifo → ℕ
read_size f = f.write_ptr

unfoldable pub write_size : Fifo → ℕ
write_size f = sub32 f.size f.write_ptr

-- `memcpy(m_buffer, bytes, n); m_writePtr = n;`
pub fill : List ℕ → Fifo → Fifo
fill bytes f = record f { buffer = bytes ++ drop (length bytes) f.buffer; write_ptr = length bytes }

module _ {S : Type 0} (c : Ipcc S) where
  abbrev pub channel_free : Fifo → S → Bool
  channel_free f s = c.is_free f.primary_tx f.clearmask s

  unfoldable pub peek : Fifo → S → Bool
  peek f s = not (channel_free f s)

  -- `Push`: `none` while it waits for the channel to become free. `memcpy` of `n` bytes reads that
  -- many bytes of the caller's, so the list is the argument and its length.
  unfoldable pub push : List ℕ → Fifo → S → Option (Fifo × S)
  unfolding fill
  push bytes f s =
      if ltb f.size (length bytes)
      then some (f, s)
      else if channel_free f s
      then some (fill bytes f, c.set_busy f.primary_tx f.setmask s)
      else none

  -- `Pop`: the bytes that it copies to the caller, of which it returns the number.
  unfoldable pub pop : Fifo → S → List ℕ × S
  unfolding peek
  pop f s =
      if peek f s
      then (take f.write_ptr f.buffer, c.set_free f.primary_tx f.clearmask s)
      else ([], s)
