-- ===== src/Mongo/File/Ends.antt =====
-- The calls of I-Mongo-Store/src/fs/file/file.c return or abort.
use tp_2021_1c_en_c_errados.Prelude.{sub32}
use tp_2021_1c_en_c_errados.Prelude.Run.{
  or_abort-Ends, if-Ends, done-Ends, >>=-Ends, Ends, or_abort-eq-done, Run, done, ◌>>=◌, or_abort,
}
use tp_2021_1c_en_c_errados.Prelude.{
  ◌∙◌, ℕ, zero, suc, ◌+◌, ◌%◌, ◌<◌, ◌≡◌, List, [], ◌∷◌, length, arith, ◌++◌, ◌==◌,
}
use tp_2021_1c_en_c_errados.Mongo.File.{
  get_elem?, replicate, File, add_characters, fill_loop, finish_add, put_sentinel, generate_md5,
  md5_input,
}
use tp_2021_1c_en_c_errados.Mongo.Blocks.{read_in_block, write_in_block, request_block, Manager}
use native.Mathlib.Nat.{mod-lt}
use tp_2021_1c_en_c_errados.Mongo.File.Loop.{request_block-size, write_in_block_takes}
use tp_2021_1c_en_c_errados.Mongo.Bitarray.{Bitarray}

module _ (a : Bitarray) where
  open a use {Bits}

  -- With more fuel than characters left the loop is over before the fuel is: each turn writes at
  -- least one of them.
  pub fill_loop-Ends :
      (fuel : ℕ) (m : Manager Bits) (blocks : List ℕ) (last : ℕ) (text : List ℕ) (amount : ℕ)
      → amount < fuel
      → 0 < m.blocks_size
      → m.blocks_size < 4294967296
      → amount < 4294967296
      → Ends (fill_loop a fuel m blocks last text amount)
  unfolding fill_loop
  fill_loop-Ends zero m blocks last text amount fuelled pos size short = absurd (omega arith)
  fill_loop-Ends (suc fuel) m blocks last text zero fuelled pos size short =
      done-Ends (m, blocks, last)
  fill_loop-Ends (suc fuel) m blocks last text (suc amount) fuelled pos size short =
      let mr = (request_block a m).0 in
      let id = (request_block a m).1 in
      let written = write_in_block mr id text (suc amount) 0 in
      let kept = request_block-size a m in
      >>=-Ends (or_abort written)
        (λ r. fill_loop a fuel r.0 (blocks ++ id ∷ []) id text (sub32 (suc amount) r.1))
        (or_abort-Ends written)
        (λ r h.
          let (taken, same) =
            write_in_block_takes mr r.0 id (suc amount) 0 r.1 text (or_abort-eq-done written h)
              (omega arith) (rw kept size) short in
          let one : r.0.blocks_size ≡ m.blocks_size = same ∙ kept in
          fill_loop-Ends fuel r.0 (blocks ++ id ∷ []) id text (sub32 (suc amount) r.1) (omega arith)
            (rw one pos) (rw one size) (omega arith))

module _ (a : Bitarray) {Hash : Type 0} (md5 : List ℕ → Hash) where
  open a use {Bits}

  pub put_sentinel-Ends : (m : Manager Bits) (last offset : ℕ) → Ends (put_sentinel m last offset)
  unfolding put_sentinel
  put_sentinel-Ends m last offset =
      let written = write_in_block m last (0 ∷ []) 1 offset in
      if-Ends (offset == 0) (done m) (or_abort written >>= (λ r. done r.0)) (done-Ends m)
        (>>=-Ends (or_abort written) (λ r. done r.0) (or_abort-Ends written) (λ r h. done-Ends r.0))

  md5_input-Ends : (m : Manager Bits) (ids : List ℕ) (n : ℕ) → Ends (md5_input a md5 m ids n)
  unfolding md5_input
  md5_input-Ends m [] n = done-Ends []
  md5_input-Ends m (id ∷ ids) n =
      let bytes = read_in_block m id n 0 in
      >>=-Ends (or_abort bytes)
        (λ bytes.
          md5_input a md5 m ids (sub32 n (length bytes)) >>= (λ others. done (bytes ++ others)))
        (or_abort-Ends bytes)
        (λ bytes h.
          >>=-Ends (md5_input a md5 m ids (sub32 n (length bytes)))
            (λ others. done (bytes ++ others)) (md5_input-Ends m ids (sub32 n (length bytes)))
            (λ others h'. done-Ends (bytes ++ others)))

  pub generate_md5-Ends :
      (m : Manager Bits) (ids : List ℕ) (n : ℕ) → Ends (generate_md5 a md5 m ids n)
  unfolding generate_md5
  generate_md5-Ends m ids n =
      if-Ends (n == 0) (done (md5 (0 ∷ [])))
        (md5_input a md5 m ids n >>= (λ bytes. done (md5 bytes))) (done-Ends (md5 (0 ∷ [])))
        (>>=-Ends (md5_input a md5 m ids n) (λ bytes. done (md5 bytes)) (md5_input-Ends m ids n)
          (λ bytes h. done-Ends (md5 bytes)))

  finish_add-Ends :
      (file : File Hash) (n : ℕ) (m : Manager Bits) (blocks : List ℕ) (last : ℕ)
      → Ends (finish_add a md5 file n m blocks last)
  unfolding finish_add
  finish_add-Ends file n m blocks last =
      let saved : List ℕ → Hash → File Hash = λ ids hash. record file {
        size = n;
        blocks = ids;
        block_count = length ids;
        md5_archivo = hash;
      } in
      >>=-Ends (put_sentinel m last (n % m.blocks_size))
        (λ m1. generate_md5 a md5 m1 blocks n >>= (λ hash. done (m1, saved blocks hash)))
        (put_sentinel-Ends m last (n % m.blocks_size))
        (λ m1 h.
          >>=-Ends (generate_md5 a md5 m1 blocks n) (λ hash. done (m1, saved blocks hash))
            (generate_md5-Ends m1 blocks n) (λ hash h'. done-Ends (m1, saved blocks hash)))

  -- Whatever the file and the disk are, adding characters to an open file returns or aborts: it does
  -- not wait, and the loop that fills blocks comes to an end, for blocks of one byte at least and
  -- sizes that fit 32 bits.
  pub add_characters-Ends :
      (m : Manager Bits) (file : File Hash) (amount : ℕ)
      → 0 < m.blocks_size
      → m.blocks_size < 4294967296
      → amount < 4294967296
      → Ends (add_characters a md5 m file amount)
  unfolding add_characters
  add_characters-Ends m file amount pos size short =
      let text : List ℕ = replicate amount file.caracter_llenado in
      let f3 : Manager Bits × List ℕ × ℕ → Run (Manager Bits × File Hash) =
        λ r. finish_add a md5 file ((file.size + amount) % 4294967296) r.0 r.1 r.2 in
      let f2 : ℕ → Manager Bits × ℕ → Run (Manager Bits × File Hash) = λ last_block r.
        fill_loop a (suc (sub32 amount r.1)) r.0 file.blocks last_block text (sub32 amount r.1)
        >>= f3 in
      let found = get_elem? file.blocks (sub32 file.block_count 1) in
      >>=-Ends (or_abort found)
        (λ last_block.
          or_abort (write_in_block m last_block text amount (file.size % m.blocks_size))
          >>= f2 last_block)
        (or_abort-Ends found)
        (λ last_block h.
          let written = write_in_block m last_block text amount (file.size % m.blocks_size) in
          >>=-Ends (or_abort written) (f2 last_block) (or_abort-Ends written) (λ r h'.
            let (taken, same) =
              write_in_block_takes m r.0 last_block amount (file.size % m.blocks_size) r.1 text
                (or_abort-eq-done written h') (omega (arith, mod-lt file.size pos)) size short in
            >>=-Ends
              (fill_loop a (suc (sub32 amount r.1)) r.0 file.blocks last_block text
                (sub32 amount r.1))
              f3
              (fill_loop-Ends a (suc (sub32 amount r.1)) r.0 file.blocks last_block text
                (sub32 amount r.1) (omega arith) (rw same pos) (rw same size) (omega arith))
              (λ s h''. finish_add-Ends file ((file.size + amount) % 4294967296) s.0 s.1 s.2)))
