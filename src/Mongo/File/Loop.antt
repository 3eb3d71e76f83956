-- ===== src/Mongo/File/Loop.antt =====
-- The loop of `fs_file_add_fill_char`, I-Mongo-Store/src/fs/file/file.c.
use tp_2021_1c_en_c_errados.Prelude.{sub32}
use tp_2021_1c_en_c_errados.Prelude.Run.{
  or_abort-eq-done, >>=-eq-done, done_injective, Run, done, or_abort,
}
use native.Mathlib.Nat.{mul-le-mul_right, lt_of_mul-lt-mul_right}
use tp_2021_1c_en_c_errados.Prelude.{
  ℕ, zero, suc, ◌+◌, ◌-◌, ◌*◌, ◌≤◌, ◌<◌, ◌≡◌, refl, ap, ◌∙◌, List, [], ◌∷◌, ◌++◌, some, arith,
  length, length-append, min,
}
use tp_2021_1c_en_c_errados.Mongo.Bitarray.{Bitarray}
use tp_2021_1c_en_c_errados.Mongo.Blocks.{Manager, request_block, write_in_block}
use tp_2021_1c_en_c_errados.Mongo.Blocks.Contents.{bytes_in_block-min}
use tp_2021_1c_en_c_errados.Mongo.File.{fill_loop}

-- A write that succeeds takes what fits the block, and the blocks keep their size.
pub write_in_block_takes :
    {Bits : Type 0} (m m' : Manager Bits) (id n offset w : ℕ) (source : List ℕ)
    → write_in_block m id source n offset ≡ some (m', w)
    → offset ≤ m.blocks_size
    → m.blocks_size < 4294967296
    → n < 4294967296
    → (w ≡ min n (m.blocks_size - offset)) × (m'.blocks_size ≡ m.blocks_size)
unfolding write_in_block
write_in_block_takes m m' id n offset w source e inside size short =
    ground (arith, bytes_in_block-min m.blocks_size n offset inside size short)

ended :
    {Bits : Type 0} (m m' : Manager Bits) (blocks blocks' : List ℕ) (last last' : ℕ)
    → ◌≡◌ {A = Run (Manager Bits × List ℕ × ℕ)} (done (m, blocks, last)) (done (m', blocks', last'))
    → (m.blocks_size ≡ m'.blocks_size) × (blocks ≡ blocks')
ended m m' blocks blocks' last last' e =
    let inner = done_injective e in (ap (λ r. r.0.blocks_size) inner, ap (λ r. r.1) inner)

pub mul_le-steps : (x y b : ℕ) → x * b < (y + 1) * b → x * b ≤ y * b
mul_le-steps x y b h = mul-le-mul_right b (omega (arith, lt_of_mul-lt-mul_right b h))

-- What one block more adds up to.
step_bounds :
    (amount w b b1 n n1 k rem : ℕ)
    → w ≡ min amount (b - 0)
    → rem ≡ amount - w
    → 0 < amount
    → b1 ≡ b
    → n1 ≡ n + 1
    → rem + n1 * b1 ≤ k * b1
    → k * b1 < rem + n1 * b1 + b1
    → (amount + n * b ≤ k * b) × (k * b < amount + n * b + b)
step_bounds amount w b b1 n n1 k rem taken left some_left same longer enough few =
    let p : n1 * b1 ≡ (n + 1) * b = cc in
    let q : k * b1 ≡ k * b = cc in
    let last : rem ≡ 0 → k * b ≤ (n + 1) * b = λ none. mul_le-steps k (n + 1) b (omega arith) in
    ground arith

module _ (a : Bitarray) where
  open a use {Bits}

  pub request_block-size : (m : Manager Bits) → (request_block a m).0.blocks_size ≡ m.blocks_size
  unfolding request_block
  request_block-size m = refl

  -- When the loop ends it has put just as many blocks behind the others as the characters need.
  pub fill_loop_blocks :
      (fuel : ℕ) (m m' : Manager Bits) (blocks blocks' : List ℕ) (last last' : ℕ) (text : List ℕ)
      (amount : ℕ)
      → fill_loop a fuel m blocks last text amount ≡ done (m', blocks', last')
      → 0 < m.blocks_size
      → m.blocks_size < 4294967296
      → amount < 4294967296
      → (m'.blocks_size ≡ m.blocks_size)
        × (amount + length blocks * m.blocks_size ≤ length blocks' * m.blocks_size)
        × (length blocks' * m.blocks_size < amount + length blocks * m.blocks_size + m.blocks_size)
  unfolding fill_loop
  fill_loop_blocks zero m m' blocks blocks' last last' text amount e pos size short = cc
  fill_loop_blocks (suc fuel) m m' blocks blocks' last last' text zero e pos size short =
      let (size_kept, kept) = ended m m' blocks blocks' last last' e in
      rw (← size_kept, ← kept) (refl, omega arith, omega arith)
  fill_loop_blocks (suc fuel) m m' blocks blocks' last last' text (suc amount) e pos size short =
      let kept : (request_block a m).0.blocks_size ≡ m.blocks_size = request_block-size m in
      let size' : (request_block a m).0.blocks_size < 4294967296 = rw kept size in
      let ((m1, w), written, rest) =
        >>=-eq-done
          (or_abort
            (write_in_block (request_block a m).0 (request_block a m).1 text (suc amount) 0))
          (λ r.
            fill_loop a fuel r.0 (blocks ++ (request_block a m).1 ∷ []) (request_block a m).1 text
              (sub32 (suc amount) r.1))
          e in
      let (taken, same) =
        write_in_block_takes (request_block a m).0 m1 (request_block a m).1 (suc amount) 0 w text
          (or_abort-eq-done
            (write_in_block (request_block a m).0 (request_block a m).1 text (suc amount) 0)
            written)
          (omega arith) size' short in
      let one : m1.blocks_size ≡ m.blocks_size = same ∙ kept in
      let fits : w ≡ min (suc amount) (m.blocks_size - 0) = taken ∙ rw kept refl in
      let (end, enough, few) =
        fill_loop_blocks fuel m1 m' (blocks ++ (request_block a m).1 ∷ []) blocks'
          (request_block a m).1 last' text (sub32 (suc amount) w) rest (rw one pos) (rw one size)
          (omega arith) in
      let longer : length (blocks ++ (request_block a m).1 ∷ []) ≡ length blocks + 1 =
        length-append blocks ((request_block a m).1 ∷ []) in
      let rem : sub32 (suc amount) w ≡ suc amount - w = omega (arith, taken) in
      let (lower, upper) =
        step_bounds (suc amount) w m.blocks_size m1.blocks_size (length blocks)
          (length (blocks ++ (request_block a m).1 ∷ [])) (length blocks') (sub32 (suc amount) w)
          fits rem (omega arith) one longer enough few in
      (end ∙ one, lower, upper)
