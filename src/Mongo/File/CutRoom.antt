-- ===== src/Mongo/File/CutRoom.antt =====
-- With blocks that the disk has `fs_file_remove_fill_char` of I-Mongo-Store/src/fs/file/file.c returns.
use tp_2021_1c_en_c_errados.Mongo.File.{
  false, File, remove_last, release_last, cut_sentinel, cut_blocks, finish_remove,
  remove_characters, last_index, reduced_size,
}
use tp_2021_1c_en_c_errados.Prelude.{
  ℕ, zero, suc, ◌+◌, ◌-◌, ◌%◌, ◌≤◌, ◌<◌, ◌≡◌, refl, sym, ap, ◌∙◌, subst, List, [], ◌∷◌, length,
  arith, All, some, get_elem?, true, Bool-cases, inl, inr, ◌==◌, ◌||◌, not, leb, le→leb, lt→ltb,
}
use tp_2021_1c_en_c_errados.Prelude.Run.{done}
use tp_2021_1c_en_c_errados.Mongo.Bitarray.{Bitarray}
use tp_2021_1c_en_c_errados.Mongo.Blocks.{Manager, release_block}
use tp_2021_1c_en_c_errados.Mongo.Blocks.Contents.{IsFormatted}
use tp_2021_1c_en_c_errados.Mongo.File.Room.{IsSafe, safe_write, generate_md5-done}
use native.Mathlib.Nat.{mod-lt}

-- A list that is not empty has a last element.
pub remove_last-some :
    (id : ℕ) (ids : List ℕ)
    → (r : List ℕ × ℕ) × (remove_last (id ∷ ids) ≡ some r) × (length r.0 ≡ length ids)
unfolding remove_last
remove_last-some id [] = (([], id), refl, refl)
remove_last-some id (next ∷ ids) =
    let (r, e, l) = remove_last-some next ids in
    ((id ∷ r.0, r.1), rw (e, remove_last) refl, ap suc l)

remove_last-All :
    {count : ℕ} (ids : List ℕ)
    → 0 < length ids
    → All (IsSafe count) ids
    → (r : List ℕ × ℕ) × (remove_last ids ≡ some r)
      × (length r.0 + 1 ≡ length ids)
      × All (IsSafe count) r.0
      × IsSafe count r.1
unfolding remove_last
remove_last-All [] h safe = absurd (omega arith)
remove_last-All (id ∷ []) h safe = (([], id), refl, refl, tt, safe.0)
remove_last-All (id ∷ next ∷ ids) h safe =
    let (r, e, l, kept, last) = remove_last-All (next ∷ ids) (omega arith) safe.1 in
    ((id ∷ r.0, r.1), rw (e, remove_last) refl, omega arith, (safe.0, kept), last)

get_elem?-All :
    {count : ℕ} (ids : List ℕ) (i : ℕ)
    → i < length ids
    → All (IsSafe count) ids
    → (id : ℕ) × (get_elem? ids i ≡ some id) × IsSafe count id
get_elem?-All [] i h safe = absurd (omega arith)
get_elem?-All (id ∷ ids) zero h safe = (id, refl, safe.0)
get_elem?-All (id ∷ ids) (suc i) h safe = get_elem?-All ids i (omega arith) safe.1

module _ (a : Bitarray) where
  open a use {Bits, clean_bit}

  safe_release :
      (m : Manager Bits) (id : ℕ)
      → IsFormatted m
      → IsSafe m.blocks_count id
      → (m' : Manager Bits) × (release_block a m id ≡ some m')
        × IsFormatted m'
        × (m'.blocks_count ≡ m.blocks_count)
  unfolding release_block
  safe_release m id f safe =
      let some_block : (id == 0) ≡ false = let h = safe.numbered in ground arith in
      let inside : leb id m.blocks_count ≡ true =
        le→leb id m.blocks_count (omega (arith, safe.numbered, safe.below)) in
      (
        record m { bitmap = clean_bit m.bitmap ((id + 4294967296 - 1) % 4294967296) },
        rw (some_block, inside) refl,
        record { laid_out = f.laid_out; filled = f.filled; small = f.small; sized = f.sized },
        refl,
      )

  release_last-done :
      (count left : ℕ) (m : Manager Bits) (blocks : List ℕ)
      → m.blocks_count ≡ count
      → IsFormatted m
      → All (IsSafe count) blocks
      → left ≤ length blocks
      → (m' : Manager Bits) × (blocks' : List ℕ) × (release_last a left m blocks
          ≡ done (m', blocks'))
        × IsFormatted m'
        × (m'.blocks_count ≡ count)
        × All (IsSafe count) blocks'
  unfolding release_last
  release_last-done count zero m blocks c f safe h = (m, blocks, refl, f, c, safe)
  release_last-done count (suc left) m blocks c f safe h =
      let (r, e, l, kept, last) = remove_last-All blocks (omega arith) safe in
      let (m1, e1, f1, c1) = safe_release m r.1 f (subst (λ x. IsSafe x r.1) (sym c) last) in
      let (m', blocks', e', f', c', safe') =
        release_last-done count left m1 r.0 (c1 ∙ c) f1 kept (omega arith) in
      (m', blocks', rw (e, e1) e', f', c', safe')

  cut_blocks-done :
      (m : Manager Bits) (blocks : List ℕ) (indice : ℕ)
      → IsFormatted m
      → All (IsSafe m.blocks_count) blocks
      → indice < length blocks
      → (m' : Manager Bits) × (blocks' : List ℕ) × (cut_blocks a m blocks indice
          ≡ done (m', blocks'))
        × IsFormatted m'
        × (m'.blocks_count ≡ m.blocks_count)
        × All (IsSafe m.blocks_count) blocks'
  unfolding cut_blocks
  cut_blocks-done m blocks indice f safe h =
      let (m', blocks', e, f', c', safe') =
        release_last-done m.blocks_count (length blocks - 1 - indice) m blocks refl f safe
          (omega arith) in
      (m', blocks', rw (lt→ltb indice (length blocks) h) e, f', c', safe')

cut_sentinel-done :
    {Bits : Type 0} (m : Manager Bits) (blocks : List ℕ) (size indice : ℕ)
    → IsFormatted m
    → All (IsSafe m.blocks_count) blocks
    → indice < length blocks
    → (m' : Manager Bits) × (cut_sentinel m blocks size indice ≡ done m')
      × IsFormatted m'
      × (m'.blocks_count ≡ m.blocks_count)
unfolding cut_sentinel
cut_sentinel-done m blocks size indice f safe h =
    let (id, e, one) = get_elem?-All blocks indice h safe in
    let (m', e', f', bits, c, s) =
      safe_write m id 1 (size % m.blocks_size) (0 ∷ []) f one (omega (arith, mod-lt size f.sized))
        (omega arith) (omega arith) in
    elim (Bool-cases (not (size % m.blocks_size == 0) || size == 0)) [
      | inl put ↦ (m', rw (put, e, e') refl, f', c)
      | inr full ↦ (m, rw full refl, f, refl)
    ]

module _ (a : Bitarray) {Hash : Type 0} (md5 : List ℕ → Hash) where
  open a use {Bits}

  pub remove_characters-done :
      (m : Manager Bits) (file : File Hash) (amount : ℕ)
      → IsFormatted m
      → All (IsSafe m.blocks_count) file.blocks
      → last_index (reduced_size file.size amount) m.blocks_size < length file.blocks
      → reduced_size file.size amount < 4294967296
      → (m' : Manager Bits) × (file' : File Hash) × (remove_characters a md5 m file amount
          ≡ done (m', file'))
  unfolding remove_characters finish_remove
  remove_characters-done m file amount f safe h short =
      let size = reduced_size file.size amount in
      let indice = last_index size m.blocks_size in
      let (m1, e1, f1, c1) = cut_sentinel-done m file.blocks size indice f safe h in
      let (m2, blocks, e2, f2, c2, safe2) =
        cut_blocks-done a m1 file.blocks indice f1
          (subst (λ x. All (IsSafe x) file.blocks) (sym c1) safe) h in
      let (hash, e3) =
        generate_md5-done a md5 m2 blocks size f2
          (subst (λ x. All (IsSafe x) blocks) (sym c2) safe2) short in
      (
        m2,
        record file { size = size; blocks = blocks; block_count = indice + 1; md5_archivo = hash },
        rw (e1, e2, e3) refl,
      )
