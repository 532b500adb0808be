-- ===== src/Fpga/Tests.antt =====
-- Runs of the FPGA updater.
use common_embedded_platform.Prelude.{
  false, none, ℕ, ◌≡◌, refl, true, Option, some, List, [], ◌∷◌, ◌++◌, replicate, ◌⊎◌, arith,
}
use common_embedded_platform.Buffer.{list_fifo, list_fifo-IsFifo}
use common_embedded_platform.Fpga.Partition.{
  erase_sector, write_data, read_data, FlashTrace, Flash, sync_wait, done, failed, Updater,
  erase_blocks, blank_check, erase_flash_partition,
}
use common_embedded_platform.Fpga.Updater.{
  magic, syncword, on_device_opened, move, process_bithdr, take_record, process_records, sync_loop,
  process_type1, process_bitstream, move_words, process_big_write, process_in, process,
  write_verified, push_blocks, push_write_data, process_all, on_rx_data, flush_write_data,
  on_device_closed,
}
use common_embedded_platform.Fpga.Updater.Stream.{stored}
use common_embedded_platform.Fpga.Updater.Delivery.{total, on_rx_data-delivers}
use common_embedded_platform.Fpga.Updater.Flush.{on_device_closed-delivers}
use common_embedded_platform.Fpga.Updater.Failure.{on_rx_data-failed}

-- The flash answers a read with what was written last, or with blank bytes.
abbrev reread : FlashTrace → ℕ → ℕ → List ℕ
reread (write_data ptr bytes ∷ t) addr n = bytes
reread _ addr n = replicate n 0xff

abbrev good_flash : Flash
good_flash = record {
  erase_block_size = 256;
  max_write_block_size = 4;
  erases = λ t ptr. true;
  writes = λ t ptr bytes. true;
  reads = reread;
}

abbrev closed_updater : Updater (List ℕ)
closed_updater = record {
  state = done;
  rx_buffer = [];
  write_buffer = [];
  big_word_len = 0;
  wptr = 0;
  device_name = 55 ∷ [];
  image_offset = 256;
  image_size = 256;
  trace = [];
  is_endless = false;
}

abbrev opened : Updater (List ℕ)
opened = on_device_opened good_flash (list_fifo 64) closed_updater

-- The magic number, device "7", the image record.
abbrev header : List ℕ
header = magic ++ (98 ∷ 0 ∷ 2 ∷ 55 ∷ 0 ∷ 101 ∷ 0 ∷ 0 ∷ 0 ∷ 0 ∷ [])

-- Padding, the synchronisation word, a type 2 packet of one word, DESYNC, a word behind the end.
abbrev image : List ℕ
image =
    255 ∷ 255 ∷ syncword
    ++ (0x40 ∷ 0 ∷ 0 ∷ 1 ∷ 1 ∷ 2 ∷ 3 ∷ 4 ∷ 0x30 ∷ 0 ∷ 0x80 ∷ 1 ∷ 0 ∷ 0 ∷ 0 ∷ 13 ∷ 9 ∷ 9 ∷ [])

abbrev run : List ℕ → Updater (List ℕ) → Option (Updater (List ℕ))
run bytes s = on_rx_data good_flash (list_fifo 64) bytes s

abbrev awaiting : Updater (List ℕ)
awaiting = record {
  state = sync_wait;
  rx_buffer = [];
  write_buffer = [];
  big_word_len = 0;
  wptr = 256;
  device_name = 55 ∷ [];
  image_offset = 256;
  image_size = 256;
  trace = read_data 0 256 ∷ erase_sector 256 ∷ [];
  is_endless = false;
}

header_taken : run header opened ≡ some awaiting
unfolding on_rx_data process_all process process_in process_bithdr process_records take_record
    erase_flash_partition erase_blocks blank_check push_write_data push_blocks on_device_opened
    sync_loop
header_taken = refl

-- The same header for the device "8".
refused_run :
    run header (record opened { device_name = 56 ∷ [] })
    ≡ some (record opened { device_name = 56 ∷ []; state = failed })
unfolding on_rx_data process_all process process_in process_bithdr process_records take_record
    push_write_data on_device_opened push_blocks
refused_run = refl

-- Five blocks are in the flash, the last two bytes of the image are not yet.
abbrev arrived : Updater (List ℕ)
arrived = record awaiting {
  state = done;
  write_buffer = 0 ∷ 13 ∷ [];
  wptr = 276;
  trace =
      read_data 272 4
      ∷ write_data 272 (128 ∷ 1 ∷ 0 ∷ 0 ∷ [])
      ∷ read_data 268 4
      ∷ write_data 268 (3 ∷ 4 ∷ 48 ∷ 0 ∷ [])
      ∷ read_data 264 4
      ∷ write_data 264 (0 ∷ 1 ∷ 1 ∷ 2 ∷ [])
      ∷ read_data 260 4
      ∷ write_data 260 (85 ∷ 102 ∷ 64 ∷ 0 ∷ [])
      ∷ read_data 256 4
      ∷ write_data 256 (255 ∷ 255 ∷ 170 ∷ 153 ∷ [])
      ∷ awaiting.trace;
}

image_taken : run image awaiting ≡ some arrived
unfolding on_rx_data process_all process process_in sync_loop process_bitstream process_type1
    process_big_write move_words move push_write_data push_blocks write_verified
image_taken = refl

abbrev broken : Updater (List ℕ)
broken = record awaiting { state = failed }

failed_taken : run image broken ≡ some broken
unfolding on_rx_data process_all process process_in push_write_data
failed_taken = refl

-- With blocks of no bytes the data is not taken in finite time.
endless_test :
    on_rx_data (record good_flash { max_write_block_size = 0 }) (list_fifo 64) image awaiting ≡ none
unfolding on_rx_data process_all process process_in sync_loop process_bitstream process_type1
    process_big_write move_words move push_write_data push_blocks write_verified
endless_test = refl

on_rx_data-delivers_example :
    (dropped : List ℕ) × (total good_flash (list_fifo 64) 64 (list_fifo-IsFifo 64) arrived
        ++ dropped
      ≡ total good_flash (list_fifo 64) 64 (list_fifo-IsFifo 64) awaiting ++ image)
    × ((dropped ≡ []) ⊎ (done ≡ done))
on_rx_data-delivers_example =
    on_rx_data-delivers good_flash (list_fifo 64) 64 (list_fifo-IsFifo 64) image awaiting arrived
      refl (omega arith) image_taken refl

on_rx_data-failed_example :
    (failed ≡ failed)
    × (broken.trace ≡ broken.trace)
    × (on_device_closed good_flash (list_fifo 64) broken ≡ broken)
on_rx_data-failed_example =
    on_rx_data-failed good_flash (list_fifo 64) image broken broken refl failed_taken

-- The two bytes that were left go to the flash.
abbrev flushed : Updater (List ℕ)
flushed = record arrived {
  write_buffer = [];
  trace = read_data 276 2 ∷ write_data 276 (0 ∷ 13 ∷ []) ∷ arrived.trace;
}

closed_run : on_device_closed good_flash (list_fifo 64) arrived ≡ flushed
unfolding on_device_closed flush_write_data push_write_data push_blocks write_verified
closed_run = refl

on_device_closed-delivers_example :
    (stored (on_device_closed good_flash (list_fifo 64) arrived).trace
      ≡ stored arrived.trace ++ arrived.write_buffer)
    × ((on_device_closed good_flash (list_fifo 64) arrived).write_buffer ≡ [])
on_device_closed-delivers_example =
    on_device_closed-delivers good_flash (list_fifo 64) 64 (list_fifo-IsFifo 64) arrived
      (rw closed_run refl)
