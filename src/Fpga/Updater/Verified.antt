-- ===== src/Fpga/Updater/Verified.antt =====
-- Unless the updater has failed, it used the flash with care, and the flash did what it was told.
use common_embedded_platform.Fpga.Partition.{Updater}
use common_embedded_platform.Fpga.Updater.Careful.{Careful}
