-- ===== src/Mongo/Blocks/Contents.antt =====
-- Reads and writes of blocks, I-Mongo-Store/src/fs/blocks/blocks_manager.c.
use tp_2021_1c_en_c_errados.Mongo.Disk.Splice.{physical_disk_write_inside, physical_disk_write_past}
use tp_2021_1c_en_c_errados.Mongo.Blocks.{
  get_elem?, Manager, init_blocks, init_blocks_from, block_at, bytes_in_block, write_in_block,
}
use tp_2021_1c_en_c_errados.Prelude.{
  ◌%◌, ℕ, zero, suc, ◌+◌, ◌-◌, ◌*◌, ◌≤◌, ◌<◌, ◌≡◌, List, length, take, some, none, arith, min,
}
use tp_2021_1c_en_c_errados.Prelude.{splice}

-- What the start of the file system sets up: the blocks lie one behind the other and fill the
-- disk, whose size is a uint32_t.
pub record IsFormatted {Bits : Type 0} (m : Manager Bits) : Type 0 where
  pub laid_out : m.blocks ≡ init_blocks m.blocks_count m.blocks_size
  pub filled : length m.disk ≡ m.blocks_count * m.blocks_size
  pub small : m.blocks_count * m.blocks_size < 4294967296
  pub sized : 0 < m.blocks_size

init_blocks_from-get :
    (left i size k at : ℕ)
    → k < left
    → at ≡ i + k
    → (i + left) * size < 4294967296
    → get_elem? (init_blocks_from left i size) k
      ≡ some (record { number = at + 1; disk_offset = at * size })
unfolding init_blocks_from
init_blocks_from-get zero i size k at h e small = absurd (omega arith)
init_blocks_from-get (suc left) i size zero at h e small =
    let e' : i ≡ at = omega arith in
    let fits : at * size < 4294967296 = rw (← e') (omega arith) in
    let kept : at * size % 4294967296 ≡ at * size = omega arith in rw (e', kept)
init_blocks_from-get (suc left) i size (suc k) at h e small =
    init_blocks_from-get left (i + 1) size k at (omega arith) (omega arith) (omega arith)

-- Of `n` bytes at an offset inside of a block, with sizes that fit 32 bits, a write or a read takes
-- all up to the end of the block and none past it.
pub bytes_in_block-min :
    (size n offset : ℕ)
    → offset ≤ size
    → size < 4294967296
    → n < 4294967296
    → bytes_in_block size n offset ≡ min n (size - offset)
unfolding bytes_in_block
bytes_in_block-min size n offset h hs hn = ground arith

module _ {Bits : Type 0} where
  pub block_at_lem :
      (m : Manager Bits) (k : ℕ)
      → IsFormatted m
      → k < m.blocks_count
      → block_at m.blocks (suc k)
        ≡ some (record { number = k + 1; disk_offset = k * m.blocks_size })
  unfolding block_at init_blocks
  block_at_lem m k f h = rw (f.laid_out) (
      init_blocks_from-get m.blocks_count 0 m.blocks_size k k h (omega arith)
        (omega (arith, f.small)))

  -- The end of block `k + 1` is on the disk.
  pub block_end :
      (m : Manager Bits) (k : ℕ)
      → IsFormatted m
      → k < m.blocks_count
      → k * m.blocks_size + m.blocks_size ≤ length m.disk
  block_end m k f h = rw (f.filled) (grind arith)

  -- A write of `n` bytes into block `k + 1` at `offset` that stays clear of the last byte of the disk
  -- succeeds. It answers how many bytes it took, as many as fit the block, and changes nothing
  -- but these bytes of the disk.
  pub write_in_block_lem :
      (m : Manager Bits) (k n offset : ℕ) (source : List ℕ)
      → IsFormatted m
      → k < m.blocks_count
      → offset ≤ m.blocks_size
      → n ≤ length source
      → n < 4294967296
      → k * m.blocks_size + offset + min n (m.blocks_size - offset) < length m.disk
      → write_in_block m (suc k) source n offset
        ≡ some (
          record m {
            disk =
                splice m.disk
                  (k * m.blocks_size + offset)
                  (take (min n (m.blocks_size - offset)) source);
          },
          min n (m.blocks_size - offset),
        )
  unfolding write_in_block
  write_in_block_lem m k n offset source f h inside enough short clear =
      let size : m.blocks_size < 4294967296 = omega (arith, block_end m k f h, f.small, f.filled) in
      rw (
        block_at_lem m k f h,
        bytes_in_block-min m.blocks_size n offset inside size short,
        physical_disk_write_inside m.disk source (min n (m.blocks_size - offset))
            (k * m.blocks_size + offset) clear (omega (arith, f.small, f.filled)) (omega arith),
      )

  -- A write that would fill the last block to its end aborts the program: the bound of the disk is
  -- checked with `<`.
  pub write_in_block_last :
      (m : Manager Bits) (k n offset : ℕ) (source : List ℕ)
      → IsFormatted m
      → k + 1 ≡ m.blocks_count
      → offset ≤ m.blocks_size
      → n < 4294967296
      → m.blocks_size ≤ offset + n
      → write_in_block m (suc k) source n offset ≡ none
  unfolding write_in_block
  write_in_block_last m k n offset source f last inside short full =
      let h : k < m.blocks_count = omega arith in
      let size : m.blocks_size < 4294967296 = omega (arith, block_end m k f h, f.small, f.filled) in
      let whole : m.blocks_count * m.blocks_size ≡ k * m.blocks_size + m.blocks_size =
        rw (← last) (omega arith) in
      rw (
        block_at_lem m k f h,
        bytes_in_block-min m.blocks_size n offset inside size short,
        physical_disk_write_past m.disk source (min n (m.blocks_size - offset))
            (k * m.blocks_size + offset) (omega (arith, f.filled, whole))
            (omega (arith, f.small, whole)),
      )
