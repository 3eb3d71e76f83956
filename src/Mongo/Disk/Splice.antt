-- ===== src/Mongo/Disk/Splice.antt =====
-- Reads of I-Mongo-Store/src/fs/disk/disk.c after writes.
use tp_2021_1c_en_c_errados.Prelude.{splice}
use tp_2021_1c_en_c_errados.Prelude.{
  ℕ, ◌+◌, ◌≤◌, ◌<◌, ◌≡◌, List, none, some, length, take, drop, arith, copy_from,
}
use tp_2021_1c_en_c_errados.Mongo.Disk.{physical_disk_write, physical_disk_read}

pub physical_disk_write_inside :
    (disk source : List ℕ) (size offset : ℕ)
    → offset + size < length disk
    → length disk < 18446744073709551616
    → size ≤ length source
    → physical_disk_write disk source size offset ≡ some (splice disk offset (take size source))
unfolding physical_disk_write copy_from
physical_disk_write_inside disk source size offset h small enough = ground arith

pub physical_disk_write_past :
    (disk source : List ℕ) (size offset : ℕ)
    → length disk ≤ offset + size
    → offset + size < 18446744073709551616
    → physical_disk_write disk source size offset ≡ none
unfolding physical_disk_write
physical_disk_write_past disk source size offset h small = ground arith

pub physical_disk_read_inside :
    (disk : List ℕ) (size offset : ℕ)
    → offset + size < length disk
    → length disk < 18446744073709551616
    → physical_disk_read disk size offset ≡ some (take size (drop offset disk))
unfolding physical_disk_read copy_from
physical_disk_read_inside disk size offset h small = ground arith

pub physical_disk_read_past :
    (disk : List ℕ) (size offset : ℕ)
    → length disk ≤ offset + size
    → offset + size < 18446744073709551616
    → physical_disk_read disk size offset ≡ none
unfolding physical_disk_read
physical_disk_read_past disk size offset h small = ground arith
