-- ===== src/Multicore/Table.antt =====
-- `IPCDescriptorTable` and `IPCDescriptorChannel` (multicore/IPCDescriptorTable.h and .cpp).
pub mod Lookup
use common_embedded_platform.Prelude.{
  ℕ, suc, ◌+◌, Bool, true, false, Option, none, some, List, [], ◌∷◌, leb, length, get_elem?, set,
  if◌then◌else◌,
}
use Prim.Native.String.{String}
use text.Mathlib.Text.{◌==◌ as str_eq}
use common_embedded_platform.Multicore.Fifo.{Fifo, initialize}

-- A null name is `none`.
pub record Channel : Type 0 where
  pub name : Option String
  pub primary_fifo : Fifo
  pub secondary_fifo : Fifo

-- The table has NUM_IPC_CHANNELS channels, the length of the list.
pub record Table : Type 0 where
  pub channels : List Channel
  pub first_free : ℕ

open_channel : String → List ℕ → List ℕ → ℕ → Channel → Channel
unfolding initialize
open_channel name txbuf rxbuf idx ch = record {
  name = some name;
  primary_fifo = initialize txbuf (length txbuf) idx true ch.primary_fifo;
  secondary_fifo = initialize rxbuf (length rxbuf) idx false ch.secondary_fifo;
}

-- `AllocateChannel`; the result is the index of the channel, `none` for a null pointer. The buffers
-- are passed with their sizes, which are the lengths of the lists.
unfoldable pub allocate : String → List ℕ → List ℕ → Table → Option ℕ × Table
unfolding open_channel
allocate name txbuf rxbuf t =
    if leb (length t.channels) t.first_free
    then (none, t)
    else elim (get_elem? t.channels t.first_free) [
      | none ↦ (none, t)
      | some ch ↦ (
        some t.first_free,
        record {
          channels = set t.channels t.first_free (open_channel name txbuf rxbuf t.first_free ch);
          first_free = t.first_free + 1;
        },
      )
    ]

abbrev is_named : String → Option String → Bool
is_named name none = false
is_named name (some cname) = str_eq cname name

-- The loop of `FindChannel`, from index `i` on: an unallocated channel is skipped.
unfoldable pub find_from : String → ℕ → List Channel → Option ℕ
find_from name i [] = none
find_from name i (ch ∷ chs) = if is_named name ch.name then some i else find_from name (suc i) chs

unfoldable pub find : String → Table → Option ℕ
unfolding find_from
find name t = find_from name 0 t.channels
