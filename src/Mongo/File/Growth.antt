-- ===== src/Mongo/File/Growth.antt =====
-- How many blocks `fs_file_add_fill_char` of I-Mongo-Store/src/fs/file/file.c leaves a file.
use tp_2021_1c_en_c_errados.Prelude.{sub32}
use tp_2021_1c_en_c_errados.Prelude.{
  ◌∙◌, ap, sym, ℕ, suc, ◌+◌, ◌-◌, ◌*◌, ◌%◌, ◌≤◌, ◌<◌, ◌≡◌, List, length, arith, min,
}
use tp_2021_1c_en_c_errados.Mongo.File.Loop.{fill_loop_blocks, write_in_block_takes}
use tp_2021_1c_en_c_errados.Prelude.Run.{>>=-eq-done, or_abort-eq-done, done_injective}
use native.Mathlib.Nat.{mod-lt}
use tp_2021_1c_en_c_errados.Mongo.File.{
  false, generate_md5, get_elem?, put_sentinel, finish_add, replicate, File, add_characters,
  add_fill_char, fill_loop,
}
use tp_2021_1c_en_c_errados.Mongo.Blocks.{write_in_block, Manager}
use tp_2021_1c_en_c_errados.Prelude.Run.{Run, done, ◌>>=◌, or_abort}
use tp_2021_1c_en_c_errados.Mongo.Bitarray.{Bitarray}

move_bounds :
    (amount w rem n k k' b b1 : ℕ)
    → rem ≡ amount - w
    → b1 ≡ b
    → k' ≡ k
    → rem + n * b1 ≤ k * b1
    → k * b1 < rem + n * b1 + b1
    → ((amount - w) + n * b ≤ k' * b) × (k' * b < (amount - w) + n * b + b)
move_bounds amount w rem n k k' b b1 left same count enough few =
    let p : n * b1 ≡ n * b = cc in let q : k * b1 ≡ k' * b = cc in (omega arith, omega arith)

module _ (a : Bitarray) {Hash : Type 0} (md5 : List ℕ → Hash) where
  open a use {Bits}

  finish_add-done :
      (file file' : File Hash) (n : ℕ) (m m' : Manager Bits) (blocks : List ℕ) (last : ℕ)
      → finish_add a md5 file n m blocks last ≡ done (m', file')
      → (file'.size ≡ n) × (file'.blocks ≡ blocks) × (file'.block_count ≡ length blocks)
  unfolding finish_add
  finish_add-done file file' n m m' blocks last e =
      let saved : List ℕ → Hash → File Hash = λ ids hash. record file {
        size = n;
        blocks = ids;
        block_count = length ids;
        md5_archivo = hash;
      } in
      let (m1, put, e1) =
        >>=-eq-done (put_sentinel m last (n % m.blocks_size))
          (λ m1. generate_md5 a md5 m1 blocks n >>= (λ hash. done (m1, saved blocks hash))) e in
      let (hash, hashed, e2) =
        >>=-eq-done (generate_md5 a md5 m1 blocks n) (λ hash. done (m1, saved blocks hash)) e1 in
      let both : ◌≡◌ {A = Manager Bits × File Hash} (m1, saved blocks hash) (m', file') =
        done_injective e2 in
      (
        sym (ap (λ r. r.1.size) both),
        sym (ap (λ r. r.1.blocks) both),
        sym (ap (λ r. r.1.block_count) both),
      )

  pub add_characters_bounds :
      (m m' : Manager Bits) (file file' : File Hash) (amount : ℕ)
      → add_characters a md5 m file amount ≡ done (m', file')
      → 0 < m.blocks_size
      → m.blocks_size < 4294967296
      → file.size + amount < 4294967296
      → (w : ℕ) × (w ≡ min amount (m.blocks_size - file.size % m.blocks_size))
        × (file'.size ≡ file.size + amount)
        × (file'.block_count ≡ length file'.blocks)
        × ((amount - w) + length file.blocks * m.blocks_size ≤ length file'.blocks * m.blocks_size)
        × (length file'.blocks * m.blocks_size
            < (amount - w) + length file.blocks * m.blocks_size + m.blocks_size)
  unfolding add_characters
  add_characters_bounds m m' file file' amount e pos size short =
      let text : List ℕ = replicate amount file.caracter_llenado in
      let f3 : Manager Bits × List ℕ × ℕ → Run (Manager Bits × File Hash) =
        λ r. finish_add a md5 file ((file.size + amount) % 4294967296) r.0 r.1 r.2 in
      let f2 : ℕ → Manager Bits × ℕ → Run (Manager Bits × File Hash) = λ last_block r.
        fill_loop a (suc (sub32 amount r.1)) r.0 file.blocks last_block text (sub32 amount r.1)
        >>= f3 in
      let (last_block, found, e1) =
        >>=-eq-done (or_abort (get_elem? file.blocks (sub32 file.block_count 1)))
          (λ last_block.
            or_abort (write_in_block m last_block text amount (file.size % m.blocks_size))
            >>= f2 last_block)
          e in
      let ((m1, w), written, e2) =
        >>=-eq-done (or_abort (write_in_block m last_block text amount (file.size % m.blocks_size)))
          (f2 last_block) e1 in
      let ((m2, blocks, last), looped, e3) =
        >>=-eq-done
          (fill_loop a (suc (sub32 amount w)) m1 file.blocks last_block text (sub32 amount w)) f3
          e2 in
      let (new_size, new_blocks, new_count) =
        finish_add-done file file' ((file.size + amount) % 4294967296) m2 m' blocks last e3 in
      let (taken, same) =
        write_in_block_takes m m1 last_block amount (file.size % m.blocks_size) w text
          (or_abort-eq-done (write_in_block m last_block text amount (file.size % m.blocks_size))
            written)
          (omega (arith, mod-lt file.size pos)) size (omega arith) in
      let (kept, enough, few) =
        fill_loop_blocks a (suc (sub32 amount w)) m1 m2 file.blocks blocks last_block last text
          (sub32 amount w) looped (rw same pos) (rw same size) (omega arith) in
      let rem : sub32 amount w ≡ amount - w = omega (arith, taken) in
      let (lower, upper) =
        move_bounds amount w (sub32 amount w) (length file.blocks) (length blocks)
          (length file'.blocks) m.blocks_size m1.blocks_size rem same (ap length new_blocks) enough
          few in
      (w, taken, new_size ∙ omega arith, new_count ∙ sym (ap length new_blocks), lower, upper)

  pub add_fill_char_open :
      (m : Manager Bits) (file : File Hash) (amount : ℕ)
      → file.locked ≡ false
      → 0 < amount
      → add_fill_char a md5 m file amount ≡ add_characters a md5 m file amount
  unfolding add_fill_char
  add_fill_char_open m file amount h more = ground arith
