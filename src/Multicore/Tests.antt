-- ===== src/Multicore/Tests.antt =====
-- An IPC controller with one flag for each direction and channel mask.
use common_embedded_platform.Prelude.{
  ℕ, ◌+◌, ◌^◌, ◌/◌, ◌≤◌, ◌<◌, ◌≡◌, ◌↔◌, ◌⊎◌, refl, Bool, true, false, not, none, some, List, [],
  ◌∷◌, ◌++◌, arith, length, get_elem?, set, replicate, ◌==◌, ==_iff, ==_refl, passes, passes_at,
  ◌&&◌, if◌then◌else◌,
}
use Prim.Native.String.{String}
use text.Mathlib.Text.{◌==◌ as str_eq}
use common_embedded_platform.Multicore.Fifo.{
  Ipcc, Fifo, empty_fifo, initialize, channel_free, peek, push, pop,
}
use common_embedded_platform.Multicore.Fifo.Mailbox.{initialize-IsAttached, pop-push, push_waits}
use common_embedded_platform.Multicore.Fifo.Interleaving.{
  Link, Sender, Receiver, Step, Reach, waits, copies, sized, reads,
}
use common_embedded_platform.Multicore.Fifo.Interleaving.Lossless.{
  IsOpen, no_message_lost, no_torn_message,
}
use common_embedded_platform.Multicore.Table.{Channel, Table, allocate, find}
use common_embedded_platform.Multicore.Table.Lookup.{IsValid, find-allocate, allocate_full, or_else}
use common_embedded_platform.Multicore.Log.{CoreLog, print_char, print_binary}
use common_embedded_platform.Multicore.Log.Stream.{
  stream, print_char-stream, print_char-IsValid, print_binary_other,
}
use common_embedded_platform.Multicore.Log.Stream

-- The flags that are busy, by direction and mask of `clear`.
abbrev Flags : Type 0
Flags = Bool → ℕ → Bool

abbrev same_flag : Bool → Bool → Bool
same_flag true b = b
same_flag false b = not b

same_flag_refl : (b : Bool) → same_flag b b ≡ true
same_flag_refl true = refl
same_flag_refl false = refl

abbrev put_flag : Bool → ℕ → Bool → Flags → Flags
put_flag dir mask v s e n = if same_flag dir e && (mask == n) then v else s e n

high_half_table : passes (λ i. 2 ^ (16 + i) / 65536 == 2 ^ i) 0 16 ≡ true
unfolding passes
high_half_table = refl

high_half : (i : ℕ) → i < 16 → 2 ^ (16 + i) / 65536 ≡ 2 ^ i
high_half i h = (==_iff _ _).0 (
    passes_at (λ i. 2 ^ (16 + i) / 65536 == 2 ^ i) 0 16 i high_half_table (omega arith)
      (omega (arith, h)))

abbrev ipcc : Ipcc Flags
ipcc = record {
  is_free = λ dir mask s. not (s dir mask);
  set_busy = λ dir mask s. put_flag dir (mask / 65536) true s;
  set_free = λ dir mask s. put_flag dir mask false s;
  busy_lem = λ dir i s h. rw (high_half i h, same_flag_refl dir, ==_refl (2 ^ i)) refl;
  free_lem = λ dir i s h. rw (same_flag_refl dir, ==_refl (2 ^ i)) refl;
}

abbrev all_free : Flags
all_free e n = false

abbrev fifo : Fifo
fifo = initialize (replicate 8 0) 8 2 true empty_fifo

pop-push_example :
    (f' : Fifo) × (s' s'' : Flags) × (push ipcc (1 ∷ 2 ∷ 3 ∷ []) fifo all_free ≡ some (f', s'))
    × (peek ipcc f' s' ≡ true)
    × (pop ipcc f' s' ≡ (1 ∷ 2 ∷ 3 ∷ [], s''))
    × (peek ipcc f' s'' ≡ false)
unfolding initialize
pop-push_example =
    pop-push ipcc (1 ∷ 2 ∷ 3 ∷ []) fifo 2 all_free
      (initialize-IsAttached (replicate 8 0) 8 2 true empty_fifo (omega arith)) (omega arith) refl

push_waits_test :
    (push ipcc (1 ∷ []) fifo all_free ≡ none)
    ↔ ((1 ≤ fifo.size) × (channel_free ipcc fifo all_free ≡ false))
push_waits_test = push_waits ipcc (1 ∷ []) fifo all_free

abbrev link : Link Flags
link = record {
  fifo = fifo;
  ipcc = all_free;
  sender = Sender.idle;
  receiver = Receiver.idle;
  sent = [];
  received = [];
}

link-IsOpen : IsOpen ipcc 2 link
unfolding initialize
link-IsOpen = record {
  attached = initialize-IsAttached (replicate 8 0) 8 2 true empty_fifo (omega arith);
  room = refl;
  sender_ok = tt;
  receiver_ok = tt;
  flight = refl;
}

abbrev calling : Link Flags
calling = record link { sender = waits (1 ∷ 2 ∷ []) }

called : Reach ipcc link calling
unfolding initialize
called = Reach.next Reach.here (Step.calls_push (1 ∷ 2 ∷ []) refl (omega arith))

no_message_lost_example :
    (ms : List (List ℕ)) × (calling.sent ≡ calling.received ++ ms) × (length ms ≤ 1)
no_message_lost_example = no_message_lost ipcc 2 link-IsOpen called

-- The steps of one push of a byte, and the start of a pop.
abbrev waiting : Link Flags
waiting = record link { sender = waits (7 ∷ []) }

abbrev copying : Link Flags
copying = record waiting { sender = copies (7 ∷ []) 0 }

abbrev copied : Link Flags
copied = record copying {
  fifo = record (copying.fifo) { buffer = set copying.fifo.buffer 0 7 };
  sender = copies (7 ∷ []) 1;
}

abbrev size_written : Link Flags
size_written = record copied {
  fifo = record (copied.fifo) { write_ptr = 1 };
  sender = sized (7 ∷ []);
}

abbrev pushed : Link Flags
pushed = record size_written {
  ipcc = ipcc.set_busy size_written.fifo.primary_tx size_written.fifo.setmask size_written.ipcc;
  sender = Sender.idle;
  sent = (7 ∷ []) ∷ [];
}

abbrev reading : Link Flags
reading = record pushed { receiver = reads 1 [] }

half_popped : Reach ipcc link reading
unfolding initialize
half_popped =
    Reach.next
      (Reach.next
        (Reach.next
          (Reach.next
            (Reach.next (Reach.next Reach.here (Step.calls_push (7 ∷ []) refl (omega arith)))
              (Step.sees_free (7 ∷ []) refl refl))
            (Step.copies_byte (7 ∷ []) 0 7 refl refl))
          (Step.writes_size (7 ∷ []) 1 refl (omega arith)))
        (Step.marks_busy (7 ∷ []) refl))
      (Step.peeks refl refl)

no_torn_message_example :
    (reading.sender ≡ Sender.idle) ⊎ ((e : List ℕ) × (reading.sender ≡ waits e))
no_torn_message_example = no_torn_message ipcc 2 1 [] link-IsOpen half_popped refl

abbrev named : Channel
named = record { name = some "log"; primary_fifo = empty_fifo; secondary_fifo = empty_fifo }

abbrev unnamed : Channel
unnamed = record { name = none; primary_fifo = empty_fifo; secondary_fifo = empty_fifo }

abbrev table : Table
table = record { channels = named ∷ unnamed ∷ []; first_free = 1 }

table-IsValid : IsValid table
table-IsValid = record { in_range = omega arith; unnamed = (refl, tt) }

find-allocate_example :
    let (chan, t') = allocate "crypto" (0 ∷ []) (0 ∷ []) table in
    (chan ≡ some 1)
    × IsValid t'
    × ((j : String)
        → find j t' ≡ or_else (find j table) (if str_eq "crypto" j then some 1 else none))
find-allocate_example = find-allocate "crypto" (0 ∷ []) (0 ∷ []) table table-IsValid (omega arith)

allocate_full_test :
    ((allocate "crypto" [] [] table).0 ≡ none)
    ↔ ((1 ≡ length table.channels) × (allocate "crypto" [] [] table ≡ (none, table)))
allocate_full_test = allocate_full "crypto" [] [] table table-IsValid

abbrev core_log : CoreLog
core_log = record { is_connected = true; tx_buffer = 97 ∷ 0 ∷ []; write_pointer = 1; pushed = [] }

core_log-IsValid : Stream.IsValid 2 core_log
core_log-IsValid = record { room = refl; below = omega arith; small = tt }

print_char-stream_example : stream (print_char 2 2 98 core_log) ≡ stream core_log ++ (98 ∷ [])
print_char-stream_example = print_char-stream 2 2 98 core_log core_log-IsValid refl (omega arith)

print_char-IsValid_test : Stream.IsValid 2 (print_char 2 2 98 core_log)
print_char-IsValid_test = print_char-IsValid 2 2 98 core_log core_log-IsValid

print_binary_other_test :
    get_elem? (print_binary 2 2 0 98 (core_log ∷ core_log ∷ [])) 1
    ≡ get_elem? (core_log ∷ core_log ∷ []) 1
print_binary_other_test =
    print_binary_other 2 2 0 1 98 (core_log ∷ core_log ∷ []) (λ e. omega (arith, e))
