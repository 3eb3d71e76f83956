-- ===== src/Mongo/Blocks/ReadBack.antt =====
-- What a read of a block gives after a write of it or of another one,
-- I-Mongo-Store/src/fs/blocks/blocks_manager.c.
use tp_2021_1c_en_c_errados.Prelude.{some_injective}
use tp_2021_1c_en_c_errados.Prelude.{
  ap, length-take, ℕ, suc, ◌+◌, ◌-◌, ◌*◌, ◌≤◌, ◌<◌, ◌≡◌, ◌≢◌, refl, sym, ◌∙◌, ◌⊎◌, inl, inr, List,
  length, take, drop, some, arith, min, dec_lt,
}
use tp_2021_1c_en_c_errados.Prelude.{splice}
use tp_2021_1c_en_c_errados.Mongo.Disk.{physical_disk_read}
use tp_2021_1c_en_c_errados.Prelude.{length-splice, slice-splice_self, slice-splice_other}
use tp_2021_1c_en_c_errados.Mongo.Disk.Splice.{physical_disk_read_inside, physical_disk_read_past}
use tp_2021_1c_en_c_errados.Mongo.Blocks.{Manager, write_in_block, read_in_block}
use tp_2021_1c_en_c_errados.Mongo.Blocks.Contents.{
  IsFormatted, bytes_in_block-min, block_at_lem, block_end, write_in_block_lem,
}

module _ {Bits : Type 0} where
  -- A read in terms of the disk alone.
  pub read_in_block_disk :
      (m : Manager Bits) (k n offset : ℕ)
      → IsFormatted m
      → k < m.blocks_count
      → offset ≤ m.blocks_size
      → n < 4294967296
      → read_in_block m (suc k) n offset
        ≡ physical_disk_read m.disk (min n (m.blocks_size - offset)) (k * m.blocks_size + offset)
  unfolding read_in_block
  read_in_block_disk m k n offset f h inside short =
      let size : m.blocks_size < 4294967296 = omega (arith, block_end m k f h, f.small, f.filled) in
      rw (block_at_lem m k f h, bytes_in_block-min m.blocks_size n offset inside size short)

  module _ (m : Manager Bits) (k n offset : ℕ) (source : List ℕ) (f : IsFormatted m)
      (h : k < m.blocks_count) (inside : offset ≤ m.blocks_size) (enough : n ≤ length source)
      (short : n < 4294967296)
      (clear : k * m.blocks_size + offset + min n (m.blocks_size - offset) < length m.disk) where
    abbrev taken : ℕ
    taken = min n (m.blocks_size - offset)

    abbrev start : ℕ
    start = k * m.blocks_size + offset

    abbrev after : Manager Bits
    after = record m { disk = splice m.disk start (take taken source) }

    length-taken : length (take taken source) ≡ taken
    length-taken = omega (arith, length-take taken source)

    length-after : length (splice m.disk start (take taken source)) ≡ length m.disk
    length-after = length-splice m.disk start (take taken source) (omega (arith, length-taken))

    after-IsFormatted : IsFormatted after
    after-IsFormatted = record {
      laid_out = f.laid_out;
      filled = length-after ∙ f.filled;
      small = f.small;
      sized = f.sized;
    }

    -- What was written is read back.
    reads_back : read_in_block after (suc k) n offset ≡ some (take taken source)
    reads_back =
        read_in_block_disk after k n offset after-IsFormatted h inside short
        ∙ physical_disk_read_inside (after.disk) taken start (rw length-after clear)
            (rw length-after (omega (arith, f.small, f.filled)))
        ∙ ap some (
            rw length-taken at
              (slice-splice_self m.disk start (take taken source) (omega (arith, clear))))

    -- The other blocks keep their contents.
    keeps_other :
        (j n' offset' : ℕ)
        → j < m.blocks_count
        → j ≢ k
        → offset' ≤ m.blocks_size
        → n' < 4294967296
        → read_in_block after (suc j) n' offset' ≡ read_in_block m (suc j) n' offset'
    keeps_other j n' offset' hj other inside' short' =
        read_in_block_disk after j n' offset' after-IsFormatted hj inside' short'
        ∙ same
        ∙ sym (read_in_block_disk m j n' offset' f hj inside' short')
      where
        width : ℕ
        width = min n' (m.blocks_size - offset')

        at : ℕ
        at = j * m.blocks_size + offset'

        apart : (at + width ≤ start) ⊎ (start + taken ≤ at)
        apart = elim (dec_lt j k) [
          | yes lt ↦ inl (grind arith)
          | no ge ↦ let lt : k + 1 ≤ j = omega arith in inr (grind arith)
        ]

        slices :
            take width (drop at (splice m.disk start (take taken source)))
            ≡ take width (drop at m.disk)
        slices =
            slice-splice_other m.disk start (take taken source) at width (omega (arith, clear))
              (elim apart [ inl l ↦ inl l | inr r ↦ inr (omega (arith, length-taken)) ])

        same : physical_disk_read after.disk width at ≡ physical_disk_read m.disk width at
        same = elim (dec_lt (at + width) (length m.disk)) [
          | yes lt ↦
              physical_disk_read_inside after.disk width at (rw length-after lt)
                (rw length-after (omega (arith, f.small, f.filled)))
              ∙ ap some slices
              ∙ sym
                  (physical_disk_read_inside m.disk width at lt (omega (arith, f.small, f.filled)))
          | no past ↦
              let bound = block_end m j f hj in
              physical_disk_read_past after.disk width at (rw length-after (omega arith))
                (omega (arith, bound, f.small, f.filled))
              ∙ sym (
                  physical_disk_read_past m.disk width at (omega arith)
                    (omega (arith, bound, f.small, f.filled)))
        ]

  -- A write of the first `n` bytes of `source` into a block that stays inside of the block's bounds
  -- and clear of the disk's last byte succeeds. A read of as many bytes at the same place gives
  -- them back, cut at the end of the block; the disk stays well formed and the bitmap as it was.
  pub read_in_block-write_in_block :
      (m : Manager Bits) (k n offset : ℕ) (source : List ℕ)
      → IsFormatted m
      → k < m.blocks_count
      → offset ≤ m.blocks_size
      → n ≤ length source
      → n < 4294967296
      → k * m.blocks_size + offset + min n (m.blocks_size - offset) < length m.disk
      → (m' : Manager Bits) × (write_in_block m (suc k) source n offset
          ≡ some (m', min n (m.blocks_size - offset)))
        × IsFormatted m'
        × (m'.bitmap ≡ m.bitmap)
        × (read_in_block m' (suc k) n offset ≡ some (take (min n (m.blocks_size - offset)) source))
  read_in_block-write_in_block m k n offset source f h inside enough short clear = (
    after m k n offset source f h inside enough short clear,
    write_in_block_lem m k n offset source f h inside enough short clear,
    after-IsFormatted m k n offset source f h inside enough short clear,
    refl,
    reads_back m k n offset source f h inside enough short clear,
  )

  -- Such a write keeps what the blocks were set up with.
  pub write_in_block-keeps :
      (m : Manager Bits) (k n offset : ℕ) (source : List ℕ)
      → IsFormatted m
      → k < m.blocks_count
      → offset ≤ m.blocks_size
      → n ≤ length source
      → n < 4294967296
      → k * m.blocks_size + offset + min n (m.blocks_size - offset) < length m.disk
      → (m' : Manager Bits) × (write_in_block m (suc k) source n offset
          ≡ some (m', min n (m.blocks_size - offset)))
        × IsFormatted m'
        × (m'.bitmap ≡ m.bitmap)
        × (m'.blocks_count ≡ m.blocks_count)
        × (m'.blocks_size ≡ m.blocks_size)
  write_in_block-keeps m k n offset source f h inside enough short clear = (
    after m k n offset source f h inside enough short clear,
    write_in_block_lem m k n offset source f h inside enough short clear,
    after-IsFormatted m k n offset source f h inside enough short clear,
    refl,
    refl,
    refl,
  )

  -- Such a write leaves every read of every other block, whether it succeeds or aborts, as it was.
  pub read_in_block-write_other :
      (m m' : Manager Bits) (k n offset w : ℕ) (source : List ℕ) (j n' offset' : ℕ)
      → IsFormatted m
      → k < m.blocks_count
      → offset ≤ m.blocks_size
      → n ≤ length source
      → n < 4294967296
      → k * m.blocks_size + offset + min n (m.blocks_size - offset) < length m.disk
      → write_in_block m (suc k) source n offset ≡ some (m', w)
      → j < m.blocks_count
      → j ≢ k
      → offset' ≤ m.blocks_size
      → n' < 4294967296
      → read_in_block m' (suc j) n' offset' ≡ read_in_block m (suc j) n' offset'
  read_in_block-write_other m m' k n offset w source j n' offset' f h inside enough short clear
        written hj other inside' short' =
      let e : after m k n offset source f h inside enough short clear ≡ m' =
        ap (λ (r : Manager Bits × ℕ). r.0)
          (some_injective (
            sym (write_in_block_lem m k n offset source f h inside enough short clear)
            ∙ written)) in
      rw (← e) (
        keeps_other m k n offset source f h inside enough short clear j n' offset' hj other inside'
          short')
