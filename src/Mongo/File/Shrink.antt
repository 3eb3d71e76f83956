-- ===== src/Mongo/File/Shrink.antt =====
-- How many blocks `fs_file_remove_fill_char` of I-Mongo-Store/src/fs/file/file.c leaves a file.
use tp_2021_1c_en_c_errados.Prelude.{All}
use tp_2021_1c_en_c_errados.Mongo.Blocks.Contents.{IsFormatted}
use tp_2021_1c_en_c_errados.Mongo.File.Room.{IsSafe}
use tp_2021_1c_en_c_errados.Mongo.File.CutRoom.{remove_characters-done}
use tp_2021_1c_en_c_errados.Mongo.File.CutRoom.{remove_last-some}
use tp_2021_1c_en_c_errados.Prelude.{max}
use tp_2021_1c_en_c_errados.Mongo.Blocks.{release_block, Manager}
use tp_2021_1c_en_c_errados.Prelude.{
  dec_le, if◌then◌else◌, ◌∙◌, Bool-cases, sym, some_injective, ap, ℕ, zero, suc, ◌+◌, ◌-◌, ◌*◌, ◌/◌,
  ◌≤◌, ◌<◌, ◌≡◌, List, [], ◌∷◌, length, arith, inl, inr,
}
use tp_2021_1c_en_c_errados.Mongo.File.{
  false, generate_md5, ltb, some, File, remove_characters, remove_fill_char, finish_remove,
  cut_blocks, cut_sentinel, release_last, remove_last, last_index, reduced_size,
}
use native.Mathlib.Nat.{div-lt_iff_lt-mul, div-eq_of_lt, div-eq_of_lt-le, mul-le-mul_right}
use tp_2021_1c_en_c_errados.Prelude.Run.{Run, done, abort, ◌>>=◌, or_abort}
use tp_2021_1c_en_c_errados.Mongo.Bitarray.{Bitarray}
use tp_2021_1c_en_c_errados.Prelude.Run.{>>=-eq-done, or_abort-eq-done, done_injective}

length-remove_last :
    (ids kept : List ℕ) (id : ℕ) → remove_last ids ≡ some (kept, id) → length kept + 1 ≡ length ids
unfolding remove_last
length-remove_last [] kept id e = cc
length-remove_last (x ∷ ids) kept id e =
    let (r, e1, l) = remove_last-some x ids in
    let both : ◌≡◌ {A = List ℕ × ℕ} r (kept, id) = some_injective (sym e1 ∙ e) in
    let same : length r.0 ≡ length kept = ap (λ s. length s.0) both in omega arith

module _ (a : Bitarray) where
  open a use {Bits}

  length-release_last :
      (left : ℕ) (m m' : Manager Bits) (blocks blocks' : List ℕ)
      → release_last a left m blocks ≡ done (m', blocks')
      → length blocks' + left ≡ length blocks
  unfolding release_last
  length-release_last zero m m' blocks blocks' e =
      let both : ◌≡◌ {A = Manager Bits × List ℕ} (m, blocks) (m', blocks') = done_injective e in
      rw (← ap (λ r. r.1) both) (omega arith)
  length-release_last (suc left) m m' blocks blocks' e =
      let next : Manager Bits → List ℕ → Run (Manager Bits × List ℕ) =
        λ m1 kept. release_last a left m1 kept in
      let ((kept, id), cut, e1) =
        >>=-eq-done (or_abort (remove_last blocks))
          (λ r. or_abort (release_block a m r.1) >>= (λ m1. next m1 r.0)) e in
      let (m1, released, e2) =
        >>=-eq-done (or_abort (release_block a m id)) (λ m1. next m1 kept) e1 in
      let step = length-remove_last blocks kept id (or_abort-eq-done (remove_last blocks) cut) in
      let rest = length-release_last left m1 m' kept blocks' e2 in omega arith

  length-cut_blocks :
      (m m' : Manager Bits) (blocks blocks' : List ℕ) (indice : ℕ)
      → cut_blocks a m blocks indice ≡ done (m', blocks')
      → length blocks' ≡ indice + 1
  unfolding cut_blocks
  length-cut_blocks m m' blocks blocks' indice e = elim (Bool-cases (ltb indice (length blocks))) [
    | inl less ↦
        let kept =
          sym (
            ap (λ c. if c then release_last a (length blocks - 1 - indice) m blocks else abort)
              less)
          ∙ e in
        ground (arith, length-release_last (length blocks - 1 - indice) m m' blocks blocks' kept)
    | inr more ↦
        let gone : abort ≡ done (m', blocks') =
          sym (
            ap (λ c. if c then release_last a (length blocks - 1 - indice) m blocks else abort)
              more)
          ∙ e in
        cc
  ]

-- `size / (b + 1) + 1` blocks are the right number up to two blocks.
enough_up_to_two :
    (size b : ℕ)
    → 0 < b
    → size ≤ 2 * b
    → (size ≤ (size / (b + 1) + 1) * b) × ((size / (b + 1) + 1) * b < max 1 size + b)
enough_up_to_two size b pos h = elim (dec_le size b) [
  | yes one ↦
      let d : size / (b + 1) ≡ 0 = div-eq_of_lt (omega arith) in rw d (omega arith, ground arith)
  | no two ↦
      let d : size / (b + 1) ≡ 1 = div-eq_of_lt-le (b + 1) (omega arith) (omega arith) in
      rw d (omega arith, ground arith)
]

fits_next : (s size l b : ℕ) → 0 < size → s ≤ size → size ≤ l * b → s < l * (b + 1)
fits_next s size zero b some_chars le held = absurd (omega arith)
fits_next s size (suc l) b some_chars le held = omega arith

too_few : (size b q : ℕ) → q * b < size → size < q * (b + 1) → (size / (b + 1) + 1) * b < size
too_few size b q low high =
    let d : size / (b + 1) < q = (div-lt_iff_lt-mul (omega arith)).1 high in
    omega (arith, mul-le-mul_right b d)

module _ (a : Bitarray) {Hash : Type 0} (md5 : List ℕ → Hash) where
  open a use {Bits}

  remove_characters_count :
      (m m' : Manager Bits) (file file' : File Hash) (amount : ℕ)
      → remove_characters a md5 m file amount ≡ done (m', file')
      → (file'.size ≡ reduced_size file.size amount)
        × (file'.block_count ≡ file'.size / (m.blocks_size + 1) + 1)
        × (length file'.blocks ≡ file'.size / (m.blocks_size + 1) + 1)
  unfolding remove_characters finish_remove
  remove_characters_count m m' file file' amount e =
      let size = reduced_size file.size amount in
      let indice = last_index size m.blocks_size in
      let saved : List ℕ → Hash → File Hash = λ ids hash. record file {
        size = size;
        blocks = ids;
        block_count = indice + 1;
        md5_archivo = hash;
      } in
      let (m1, put, e1) =
        >>=-eq-done (cut_sentinel m file.blocks size indice)
          (λ m1.
            cut_blocks a m1 file.blocks indice
            >>= (λ r. finish_remove a md5 file size indice r.0 r.1))
          e in
      let (r, cut, e2) =
        >>=-eq-done (cut_blocks a m1 file.blocks indice)
          (λ r. finish_remove a md5 file size indice r.0 r.1) e1 in
      let (hash, hashed, e3) =
        >>=-eq-done (generate_md5 a md5 r.0 r.1 size) (λ hash. done (r.0, saved r.1 hash)) e2 in
      let both : ◌≡◌ {A = Manager Bits × File Hash} (r.0, saved r.1 hash) (m', file') =
        done_injective e3 in
      let new_size : file'.size ≡ size = sym (ap (λ s. s.1.size) both) in
      let new_count : file'.block_count ≡ indice + 1 = sym (ap (λ s. s.1.block_count) both) in
      let new_blocks : file'.blocks ≡ r.1 = sym (ap (λ s. s.1.blocks) both) in
      (
        new_size,
        rw new_size new_count,
        rw (new_size, new_blocks) (length-cut_blocks a m1 r.0 file.blocks r.1 indice cut),
      )

  remove_fill_char_open :
      (m : Manager Bits) (file : File Hash) (amount : ℕ)
      → file.locked ≡ false
      → 0 < file.size
      → remove_fill_char a md5 m file amount ≡ remove_characters a md5 m file amount
  unfolding remove_fill_char
  remove_fill_char_open m file amount h more = ground arith

  reduced_size_inside :
      (size amount : ℕ)
      → amount ≤ size
      → size < 2147483648
      → reduced_size size amount ≡ size - amount
  unfolding reduced_size
  reduced_size_inside size amount h small = ground arith

  -- The file's blocks are blocks of the disk other than the last one, and hold its characters.
  remove_characters_returns :
      (m : Manager Bits) (file : File Hash) (amount : ℕ)
      → 0 < file.size
      → file.size < 2147483648
      → amount ≤ file.size
      → IsFormatted m
      → All (IsSafe m.blocks_count) file.blocks
      → file.size ≤ length file.blocks * m.blocks_size
      → (m' : Manager Bits) × (file' : File Hash) × (remove_characters a md5 m file amount
          ≡ done (m', file'))
  remove_characters_returns m file amount some_chars small inside f safe held =
      let size : reduced_size file.size amount ≡ file.size - amount =
        reduced_size_inside file.size amount inside small in
      let low : file.size - amount < length file.blocks * (m.blocks_size + 1) =
        fits_next (file.size - amount) file.size (length file.blocks) m.blocks_size some_chars
          (omega arith) held in
      remove_characters-done a md5 m file amount f safe
        (rw size ((div-lt_iff_lt-mul (omega arith)).1 low)) (rw size (omega arith))

  -- When an open file of fewer than 2^31 characters is cut to at most two blocks' worth of them, and
  -- its blocks are blocks of the disk other than the last one that hold its characters, the call
  -- returns, the size is the difference, BLOCK_COUNT is the number of blocks, and there are as
  -- many blocks as the size needs, at least one, and no more.
  pub remove_fill_char_blocks :
      (m : Manager Bits) (file : File Hash) (amount : ℕ)
      → file.locked ≡ false
      → 0 < file.size
      → file.size < 2147483648
      → amount ≤ file.size
      → IsFormatted m
      → All (IsSafe m.blocks_count) file.blocks
      → file.size ≤ length file.blocks * m.blocks_size
      → file.size - amount ≤ 2 * m.blocks_size
      → (m' : Manager Bits) × (file' : File Hash) × (remove_fill_char a md5 m file amount
          ≡ done (m', file'))
        × (file'.size ≡ file.size - amount)
        × (file'.block_count ≡ length file'.blocks)
        × (file'.size ≤ length file'.blocks * m.blocks_size)
        × (length file'.blocks * m.blocks_size < max 1 file'.size + m.blocks_size)
  remove_fill_char_blocks m file amount open_file some_chars small inside f safe held short =
      let opened = remove_fill_char_open m file amount open_file some_chars in
      let (m', file', e) =
        remove_characters_returns m file amount some_chars small inside f safe held in
      let (new_size, new_count, new_length) = remove_characters_count m m' file file' amount e in
      let size = new_size ∙ reduced_size_inside file.size amount inside small in
      let (enough, few) = enough_up_to_two file'.size m.blocks_size f.sized (rw size short) in
      (
        m',
        file',
        opened ∙ e,
        size,
        new_count ∙ sym new_length,
        rw new_length enough,
        rw new_length few,
      )

  -- When such a file is cut to more than `q` blocks' worth of characters, but fewer than `q` blocks of
  -- one byte more would hold, the call returns, but the file has too few blocks for its size: the
  -- number of the last block is computed as `size / (tamanio_bloques + 1)`.
  pub remove_fill_char_short :
      (m : Manager Bits) (file : File Hash) (amount q : ℕ)
      → file.locked ≡ false
      → 0 < file.size
      → file.size < 2147483648
      → amount ≤ file.size
      → IsFormatted m
      → All (IsSafe m.blocks_count) file.blocks
      → file.size ≤ length file.blocks * m.blocks_size
      → q * m.blocks_size < file.size - amount
      → file.size - amount < q * (m.blocks_size + 1)
      → (m' : Manager Bits) × (file' : File Hash) × (remove_fill_char a md5 m file amount
          ≡ done (m', file'))
        × (file'.size ≡ file.size - amount)
        × (length file'.blocks * m.blocks_size < file'.size)
  remove_fill_char_short m file amount q open_file some_chars small inside f safe held low high =
      let opened = remove_fill_char_open m file amount open_file some_chars in
      let (m', file', e) =
        remove_characters_returns m file amount some_chars small inside f safe held in
      let (new_size, new_count, new_length) = remove_characters_count m m' file file' amount e in
      let size = new_size ∙ reduced_size_inside file.size amount inside small in
      (
        m',
        file',
        opened ∙ e,
        size,
        rw new_length (too_few file'.size m.blocks_size q (rw size low) (rw size high)),
      )
