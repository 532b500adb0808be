-- ===== src/Fpga/Updater/Termination.antt =====
-- The loops of `OnRxData` and of `OnDeviceClosed` end.
use common_embedded_platform.Prelude.{ℕ, ◌≤◌, ◌≡◌}
use common_embedded_platform.Buffer.{ByteFifo, IsFifo}
use common_embedded_platform.Fpga.Partition.{Flash, Updater}
use common_embedded_platform.Fpga.Updater.{rank}

module _ (flash : Flash) {Q : Type 0} (fifo : ByteFifo Q) (capacity : ℕ)
    (law : IsFifo fifo capacity) where
  abbrev Keeps : Updater Q → Updater Q → Type 0
  Keeps s r = (r.rx_buffer ≡ s.rx_buffer) × (rank flash fifo r.state ≤ rank flash fifo s.state)
