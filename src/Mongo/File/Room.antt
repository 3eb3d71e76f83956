-- ===== src/Mongo/File/Room.antt =====
-- With room on the disk `fs_file_add_fill_char` of I-Mongo-Store/src/fs/file/file.c returns.
use tp_2021_1c_en_c_errados.Prelude.{sub32}
use tp_2021_1c_en_c_errados.Prelude.{length-replicate}
use tp_2021_1c_en_c_errados.Prelude.{Bool-cases, inl, inr, ◌==◌}
use tp_2021_1c_en_c_errados.Prelude.{
  ℕ, zero, suc, ◌+◌, ◌-◌, ◌*◌, ◌%◌, ◌≤◌, ◌<◌, ◌≡◌, refl, sym, ◌∙◌, List, [], ◌∷◌, ◌++◌, length,
  arith, min, All, some, subst, replicate, get_elem?, take, drop,
}
use tp_2021_1c_en_c_errados.Prelude.Run.{done}
use tp_2021_1c_en_c_errados.Mongo.Bitarray.{Bitarray}
use tp_2021_1c_en_c_errados.Mongo.Disk.Splice.{physical_disk_read_inside}
use tp_2021_1c_en_c_errados.Mongo.Blocks.{
  Manager, find_free, request_block, write_in_block, read_in_block,
}
use tp_2021_1c_en_c_errados.Mongo.Blocks.Contents.{IsFormatted}
use tp_2021_1c_en_c_errados.Mongo.Blocks.ReadBack.{read_in_block_disk, write_in_block-keeps}
use tp_2021_1c_en_c_errados.Mongo.File.{
  File, fill_loop, put_sentinel, md5_input, generate_md5, finish_add, add_characters,
}
use native.Mathlib.Nat.{mul-le-mul_right, mod-lt}

-- A block of the disk other than the last.
pub record IsSafe (count id : ℕ) : Type 0 where
  pub index : ℕ
  pub numbered : id ≡ suc index
  pub below : index + 1 < count

All-append_one :
    {count : ℕ} (ids : List ℕ) (id : ℕ)
    → All (IsSafe count) ids
    → IsSafe count id
    → All (IsSafe count) (ids ++ id ∷ [])
All-append_one [] id all one = (one, tt)
All-append_one (x ∷ ids) id all one = (all.0, All-append_one ids id all.1 one)

module _ {Bits : Type 0} where
  ends_before :
      (m : Manager Bits) (k : ℕ)
      → IsFormatted m
      → k + 1 < m.blocks_count
      → k * m.blocks_size + m.blocks_size < length m.disk
  ends_before m k f below =
      let wide : (k + 2) * m.blocks_size ≤ m.blocks_count * m.blocks_size =
        mul-le-mul_right m.blocks_size (omega arith) in
      omega (arith, wide, f.filled, f.sized)

  pub size_below :
      (m : Manager Bits)
      → IsFormatted m
      → (id : ℕ) → IsSafe m.blocks_count id
      → m.blocks_size < 4294967296
  size_below m f id safe = omega (arith, ends_before m safe.index f safe.below, f.small, f.filled)

  pub safe_write :
      (m : Manager Bits) (id n offset : ℕ) (source : List ℕ)
      → IsFormatted m
      → IsSafe m.blocks_count id
      → offset ≤ m.blocks_size
      → n ≤ length source
      → n < 4294967296
      → (m' : Manager Bits) × (write_in_block m id source n offset
          ≡ some (m', min n (m.blocks_size - offset)))
        × IsFormatted m'
        × (m'.bitmap ≡ m.bitmap)
        × (m'.blocks_count ≡ m.blocks_count)
        × (m'.blocks_size ≡ m.blocks_size)
  safe_write m id n offset source f safe inside enough short = rw (safe.numbered) (
      write_in_block-keeps m safe.index n offset source f (omega (arith, safe.below)) inside enough
        short (omega (arith, ends_before m safe.index f safe.below)))

  pub safe_read :
      (m : Manager Bits) (id n : ℕ)
      → IsFormatted m
      → IsSafe m.blocks_count id
      → n < 4294967296
      → (bytes : List ℕ) × (read_in_block m id n 0 ≡ some bytes)
  safe_read m id n f safe short =
      let start : ℕ = safe.index * m.blocks_size + 0 in
      let end = ends_before m safe.index f safe.below in
      (
        take (min n (m.blocks_size - 0)) (drop start m.disk),
        rw (safe.numbered) (
            read_in_block_disk m safe.index n 0 f (omega (arith, safe.below)) (omega arith) short
            ∙ physical_disk_read_inside m.disk (min n (m.blocks_size - 0)) start
                (omega (arith, end)) (omega (arith, f.small, f.filled))),
      )

module _ (a : Bitarray) where
  open a use {Bits}

  -- The next `n` requests of blocks answer safe ones.
  abbrev pub Supplies : ℕ → ℕ → Bits → Type 0
  Supplies count zero bitmap = Unit {0}
  Supplies count (suc n) bitmap =
      IsSafe count (find_free a count 0 bitmap).0 × Supplies count n (find_free a count 0 bitmap).1

  -- The manager after a request has the layout of the one before.
  request_block-IsFormatted : (m : Manager Bits) → IsFormatted m → IsFormatted (request_block a m).0
  unfolding request_block
  request_block-IsFormatted m f = record {
    laid_out = f.laid_out;
    filled = f.filled;
    small = f.small;
    sized = f.sized;
  }

  fill_loop-done :
      (count b fuel n : ℕ) (m : Manager Bits) (blocks : List ℕ) (last : ℕ) (text : List ℕ)
      (amount : ℕ)
      → m.blocks_count ≡ count
      → m.blocks_size ≡ b
      → b < 4294967296
      → IsFormatted m
      → amount < fuel
      → amount ≤ n * b
      → amount ≤ length text
      → amount < 4294967296
      → Supplies count n m.bitmap
      → All (IsSafe count) blocks
      → IsSafe count last
      → (m' : Manager Bits) × (blocks' : List ℕ) × (last' : ℕ) × (fill_loop a fuel m blocks last
            text amount
          ≡ done (m', blocks', last'))
        × IsFormatted m'
        × (m'.blocks_count ≡ count)
        × (m'.blocks_size ≡ b)
        × All (IsSafe count) blocks'
        × IsSafe count last'
  unfolding fill_loop request_block
  fill_loop-done count b zero n m blocks last text amount c s short f fuelled enough long word
        supply safe safe_last =
      absurd (omega arith)
  fill_loop-done count b (suc fuel) n m blocks last text zero c s short f fuelled enough long word
        supply safe safe_last =
      (m, blocks, last, refl, f, c, s, safe, safe_last)
  fill_loop-done count b (suc fuel) zero m blocks last text (suc amount) c s short f fuelled enough
        long word supply safe safe_last =
      absurd (omega arith)
  fill_loop-done count b (suc fuel) (suc n) m blocks last text (suc amount) c s short f fuelled
        enough long word supply safe safe_last =
      let id : ℕ = (request_block a m).1 in
      let given : IsSafe count (request_block a m).1 = rw c (supply.0) in
      let (m1, e, f1, bits, c1, s1) =
        safe_write (request_block a m).0 (request_block a m).1 (suc amount) 0 text
          (request_block-IsFormatted m f)
          (subst (λ x. IsSafe x (request_block a m).1) (sym c) given) (omega arith) long word in
      let w : ℕ = min (suc amount) (m.blocks_size - 0) in
      let (m', blocks', last', done_rest, f', c', s', safe', safe_last') =
        fill_loop-done count b fuel n m1 (blocks ++ (request_block a m).1 ∷ [])
          (request_block a m).1 text (sub32 (suc amount) w) (c1 ∙ c) (s1 ∙ s) short f1
          (omega (arith, f.sized)) (omega arith) (omega arith) (omega arith) (rw (bits, c) supply.1)
          (All-append_one blocks (request_block a m).1 safe given) given in
      (m', blocks', last', rw (e, fill_loop) done_rest, f', c', s', safe', safe_last')

-- What `amount` more characters of a file need: the file's blocks are blocks of the disk other than
-- the last one, `last` is the one that BLOCK_COUNT points to, and as many requests as the
-- characters past its end need answer such blocks too.
pub record HasRoom (a : Bitarray) {Hash : Type 0} (m : Manager (a.Bits)) (file : File Hash)
    (amount : ℕ) : Type 0 where
  pub formatted : IsFormatted m
  pub safe : All (IsSafe m.blocks_count) file.blocks
  pub last : ℕ
  pub found : get_elem? file.blocks (sub32 file.block_count 1) ≡ some last
  pub safe_last : IsSafe m.blocks_count last
  pub requests : ℕ
  pub supplied : Supplies a m.blocks_count requests m.bitmap
  pub enough : amount ≤ requests * m.blocks_size + (m.blocks_size - file.size % m.blocks_size)

module _ (a : Bitarray) {Hash : Type 0} (md5 : List ℕ → Hash) where
  open a use {Bits}

  md5_input-done :
      (m : Manager Bits) (ids : List ℕ) (n : ℕ)
      → IsFormatted m
      → All (IsSafe m.blocks_count) ids
      → n < 4294967296
      → (bytes : List ℕ) × (md5_input a md5 m ids n ≡ done bytes)
  unfolding md5_input
  md5_input-done m [] n f safe short = ([], refl)
  md5_input-done m (id ∷ ids) n f safe short =
      let (bytes, e) = safe_read m id n f safe.0 short in
      let (others, e') = md5_input-done m ids (sub32 n (length bytes)) f safe.1 (omega arith) in
      (bytes ++ others, rw (e, e') refl)

  pub generate_md5-done :
      (m : Manager Bits) (ids : List ℕ) (n : ℕ)
      → IsFormatted m
      → All (IsSafe m.blocks_count) ids
      → n < 4294967296
      → (hash : Hash) × (generate_md5 a md5 m ids n ≡ done hash)
  unfolding generate_md5
  generate_md5-done m ids n f safe short =
      let (bytes, e) = md5_input-done m ids n f safe short in
      elim (Bool-cases (n == 0)) [
        | inl empty ↦ (md5 (0 ∷ []), rw empty refl)
        | inr full ↦ (md5 bytes, rw (full, e) refl)
      ]

  put_sentinel-done :
      (m : Manager Bits) (last offset : ℕ)
      → IsFormatted m
      → IsSafe m.blocks_count last
      → offset ≤ m.blocks_size
      → (m' : Manager Bits) × (put_sentinel m last offset ≡ done m')
        × IsFormatted m'
        × (m'.blocks_count ≡ m.blocks_count)
  unfolding put_sentinel
  put_sentinel-done m last offset f safe inside =
      let (m', e, f', bits, c, s) =
        safe_write m last 1 offset (0 ∷ []) f safe inside (omega arith) (omega arith) in
      elim (Bool-cases (offset == 0)) [
        | inl start ↦ (m, rw start refl, f, refl)
        | inr further ↦ (m', rw (further, e) refl, f', c)
      ]

  finish_add-returned :
      (file : File Hash) (n : ℕ) (m : Manager Bits) (blocks : List ℕ) (last : ℕ)
      → IsFormatted m
      → All (IsSafe m.blocks_count) blocks
      → IsSafe m.blocks_count last
      → n < 4294967296
      → (m' : Manager Bits) × (file' : File Hash) × (finish_add a md5 file n m blocks last
          ≡ done (m', file'))
  unfolding finish_add
  finish_add-returned file n m blocks last f safe safe_last short =
      let (m', e, f', c) =
        put_sentinel-done m last (n % m.blocks_size) f safe_last
          (omega (arith, mod-lt n f.sized)) in
      let (hash, e') =
        generate_md5-done m' blocks n f' (subst (λ x. All (IsSafe x) blocks) (sym c) safe) short in
      (
        m',
        record file { size = n; blocks = blocks; block_count = length blocks; md5_archivo = hash },
        rw (e, e') refl,
      )

  pub add_characters-done :
      (m : Manager Bits) (file : File Hash) (amount : ℕ)
      → HasRoom a m file amount
      → file.size + amount < 4294967296
      → (m' : Manager Bits) × (file' : File Hash) × (add_characters a md5 m file amount
          ≡ done (m', file'))
  unfolding add_characters
  add_characters-done m file amount r short =
      let f : IsFormatted m = r.formatted in
      let last : ℕ = r.last in
      let text : List ℕ = replicate amount file.caracter_llenado in
      let long : length text ≡ amount = length-replicate amount file.caracter_llenado in
      let width : m.blocks_size < 4294967296 = size_below m f last r.safe_last in
      let inside = mod-lt file.size f.sized in
      let (m1, e1, f1, bits, c1, s1) =
        safe_write m last amount (file.size % m.blocks_size) text f r.safe_last
          (omega (arith, inside)) (omega arith) (omega arith) in
      let w : ℕ = min amount (m.blocks_size - file.size % m.blocks_size) in
      let (m2, blocks, last', e2, f2, c2, s2, safe', safe_last') =
        fill_loop-done a m.blocks_count m.blocks_size (suc (sub32 amount w)) r.requests m1
          file.blocks last text (sub32 amount w) c1 s1 width f1 (omega arith)
          (omega (arith, r.enough, inside)) (omega arith) (omega arith) (rw bits r.supplied) r.safe
          r.safe_last in
      let (m3, file', e3) =
        finish_add-returned file ((file.size + amount) % 4294967296) m2 blocks last' f2
          (subst (λ x. All (IsSafe x) blocks) (sym c2) safe')
          (subst (λ x. IsSafe x last') (sym c2) safe_last') (omega arith) in
      (m3, file', rw (r.found, e1, e2) e3)
