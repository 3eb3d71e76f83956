-- ===== src/Mongo/Disk.antt =====
-- I-Mongo-Store/src/fs/disk/disk.c: the mapped file is a list of bytes. `none` is the abort of the
-- assertion, or a memcpy outside of the source.
pub mod Splice
use tp_2021_1c_en_c_errados.Prelude.{splice}
use tp_2021_1c_en_c_errados.Prelude.{
  ℕ, ◌+◌, ◌%◌, List, ◌++◌, Bool, true, false, Option, none, some, ◌>>=◌, ltb, if◌then◌else◌, length,
  take, drop, replicate, copy_from, u64_mod,
}

-- `fs_physical_disk_init`, for a file of at least `size` bytes unless the start is a clean one: a disk
-- that is mapped already stays, a clean one is all zeros, and else it is the start of the file.
unfoldable pub physical_disk_init : Option (List ℕ) → ℕ → Bool → List ℕ → List ℕ
physical_disk_init (some disk) size is_clean_initialization file = disk
physical_disk_init none size true file = replicate size 0
physical_disk_init none size false file = take size file

unfoldable pub physical_disk_write : List ℕ → List ℕ → ℕ → ℕ → Option (List ℕ)
physical_disk_write disk source size offset =
    if ltb ((offset + size) % u64_mod) (length disk)
    then (do bytes ← copy_from source 0 size; some (splice disk offset bytes))
    else none

unfoldable pub physical_disk_read : List ℕ → ℕ → ℕ → Option (List ℕ)
physical_disk_read disk size offset =
    if ltb ((offset + size) % u64_mod) (length disk) then copy_from disk offset size else none
