-- ===== src/Mongo/Blocks.antt =====
-- I-Mongo-Store/src/fs/blocks/blocks_manager.c: the blocks of the disk and the bitmap of those in
-- use. `none` is an abort, or an access outside of the array of blocks.
pub mod Bitmap
pub mod Contents
pub mod ReadBack
pub mod Integrity
use tp_2021_1c_en_c_errados.Prelude.{
  ℕ, zero, suc, ◌+◌, ◌-◌, ◌*◌, ◌/◌, ◌%◌, List, [], ◌∷◌, Option, none, some, ◌>>=◌, Bool, true,
  false, ◌&&◌, ◌||◌, ltb, leb, ◌==◌, not, if◌then◌else◌, length, get_elem?, u32_mod, u64_mod,
}
use tp_2021_1c_en_c_errados.Mongo.Bitarray.{Bitarray}
use tp_2021_1c_en_c_errados.Mongo.Disk.{physical_disk_init, physical_disk_write, physical_disk_read}

pub record FsBlock : Type 0 where
  pub number : ℕ
  pub disk_offset : ℕ

-- `super_bloque_size` and `super_bloque_count` are BLOCKS_SIZE and BLOCKS_COUNT in the mapped
-- superblock, which a sabotage can change; `blocks_size` and `blocks_count` are what was read at
-- the start.
pub record Manager (Bits : Type 0) : Type 0 where
  pub blocks : List FsBlock
  pub blocks_size : ℕ
  pub blocks_count : ℕ
  pub bitmap : Bits
  pub super_bloque_size : ℕ
  pub super_bloque_count : ℕ
  pub disk : List ℕ

-- `fs_blocks_manager_init_blocks`, from block `i` on.
unfoldable pub init_blocks_from : ℕ → ℕ → ℕ → List FsBlock
init_blocks_from zero i size = []
init_blocks_from (suc left) i size =
    record { number = i + 1; disk_offset = i * size % u32_mod } ∷ init_blocks_from left (i + 1) size

unfoldable pub init_blocks : ℕ → ℕ → List FsBlock
unfolding init_blocks_from
init_blocks count size = init_blocks_from count 0 size

-- The number of bytes that `fs_blocks_manager_get_metadata` gives the bit array: the division is
-- of integers, so `ceil` comes too late.
abbrev pub bitmap_size : ℕ → ℕ
bitmap_size blocks_count = blocks_count / 8

-- `bytes_to_write` and `bytes_to_read`, on uint64_t.
unfoldable pub bytes_in_block : ℕ → ℕ → ℕ → ℕ
bytes_in_block blocks_size data_size offset =
    if ltb ((data_size + offset) % u64_mod) blocks_size
    then data_size
    else (data_size + u64_mod - ((data_size + offset + u64_mod - blocks_size) % u64_mod)) % u64_mod

-- `blocks[block_id - 1]`
unfoldable pub block_at : List FsBlock → ℕ → Option FsBlock
block_at blocks zero = none
block_at blocks (suc index) = get_elem? blocks index

-- Whether the list of blocks in use has the number, and the list without its first occurrence.
unfoldable pub has_value : ℕ → List ℕ → Bool
has_value number [] = false
has_value number (id ∷ ids) = id == number || has_value number ids

unfoldable pub remove_value : ℕ → List ℕ → List ℕ
remove_value number [] = []
remove_value number (id ∷ ids) = if id == number then ids else id ∷ remove_value number ids

module _ {Bits : Type 0} where
  -- `fs_block_write`: the number of bytes written comes with the manager after it.
  unfoldable pub write_in_block : Manager Bits → ℕ → List ℕ → ℕ → ℕ → Option (Manager Bits × ℕ)
  write_in_block m block_id source data_size offset = do
    block ← block_at m.blocks block_id
    let bytes_to_write = bytes_in_block m.blocks_size data_size offset
    disk ← physical_disk_write m.disk source bytes_to_write (block.disk_offset + offset)
    some (record m { disk = disk }, bytes_to_write)

  -- `fs_block_read`: the bytes read.
  unfoldable pub read_in_block : Manager Bits → ℕ → ℕ → ℕ → Option (List ℕ)
  read_in_block m block_id data_size offset = do
    block ← block_at m.blocks block_id
    let bytes_to_read = bytes_in_block m.blocks_size data_size offset
    physical_disk_read m.disk bytes_to_read (block.disk_offset + offset)

  -- `fs_block_manager_verficar_integridad_cantidad_bloques`, with the size of the file of blocks:
  -- `none` is the division by a block size of zero.
  unfoldable pub verificar_integridad_cantidad_bloques :
      Manager Bits → ℕ → Option (Manager Bits × Bool)
  verificar_integridad_cantidad_bloques m tamanio_archivo_bloques =
      let cant_real_bloques = tamanio_archivo_bloques / m.super_bloque_size in
      if m.super_bloque_size == 0
      then none
      else if cant_real_bloques == m.super_bloque_count
      then some (m, false)
      else some (record m { super_bloque_count = cant_real_bloques }, true)

module _ (a : Bitarray) where
  open a use {Bits, test_bit, set_bit, clean_bit, get_max_bit}

  -- The loop of `fs_blocks_manager_get_free_block_index` from `i` on: the number of the block found,
  -- or 0, and the bitmap after it.
  unfoldable pub find_free : ℕ → ℕ → Bits → ℕ × Bits
  find_free zero i bitmap = (0, bitmap)
  find_free (suc left) i bitmap =
      let rest = find_free left (i + 1) bitmap in
      if test_bit bitmap i then rest else (i + 1, set_bit bitmap i)

  unfoldable pub request_block : Manager Bits → Manager Bits × ℕ
  request_block m =
      let (index, bitmap) = find_free m.blocks_count 0 m.bitmap in
      (record m { bitmap = bitmap }, index)

  -- The assertion lets 0 pass, whose bit is outside of the bitmap: `index - 1` is a uint32_t.
  unfoldable pub release_block : Manager Bits → ℕ → Option (Manager Bits)
  release_block m index =
      if index == 0
      then none
      else if leb index m.blocks_count
      then some (record m { bitmap = clean_bit m.bitmap ((index + u32_mod - 1) % u32_mod) })
      else none

  -- The bit of block 0 is outside of the bitmap here too.
  unfoldable pub is_block_requested_and_valid : Manager Bits → ℕ → Option Bool
  is_block_requested_and_valid m block_id =
      let valid = leb block_id m.blocks_count in
      let requested =
        if valid then test_bit m.bitmap ((block_id + u32_mod - 1) % u32_mod) else true in
      if block_id == 0 then none else some (requested && valid)

  -- The loop of `fs_block_manager_verificar_integridad_bitmap` from `i` on.
  unfoldable pub check_bits : ℕ → ℕ → List ℕ → Bits → Bool → Bits × Bool
  unfolding has_value remove_value
  check_bits zero i ids bitmap fue_saboteado = (bitmap, fue_saboteado)
  check_bits (suc left) i ids bitmap fue_saboteado =
      let keep = check_bits left (i + 1) (remove_value (i + 1) ids) bitmap fue_saboteado in
      let clean = check_bits left (i + 1) ids (clean_bit bitmap i) true in
      let skip = check_bits left (i + 1) ids bitmap fue_saboteado in
      if test_bit bitmap i then (if has_value (i + 1) ids then keep else clean) else skip

  -- `ids` is the sorted list of the blocks of all files and logs.
  unfoldable pub verificar_integridad_bitmap : Manager Bits → List ℕ → Manager Bits × Bool
  unfolding check_bits
  verificar_integridad_bitmap m ids =
      let (bitmap, fue_saboteado) = check_bits (get_max_bit m.bitmap) 0 ids m.bitmap false in
      (record m { bitmap = bitmap }, fue_saboteado)

  -- `||` leaves the second check out when the first finds a sabotage.
  unfoldable pub check_integrity : Manager Bits → List ℕ → ℕ → Option (Manager Bits × Bool)
  unfolding verificar_integridad_bitmap verificar_integridad_cantidad_bloques
  check_integrity m ids tamanio_archivo_bloques =
      let (m', fue_saboteado) = verificar_integridad_bitmap m ids in
      let second = verificar_integridad_cantidad_bloques m' tamanio_archivo_bloques in
      if fue_saboteado then some (m', true) else second
