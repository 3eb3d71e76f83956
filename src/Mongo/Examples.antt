-- ===== src/Mongo/Examples.antt =====
-- Runs of the file system of I-Mongo-Store at small stores.
use tp_2021_1c_en_c_errados.Prelude.{
  suc, ◌⊎◌, ◌+◌, ◌-◌, ◌*◌, ◌/◌, ◌≤◌, min, max, ◌&&◌, take, copy_from, ℕ, ◌<◌, ◌≡◌, refl, arith,
  Bool, true, false, List, [], ◌∷◌, length, replicate, some,
}
use tp_2021_1c_en_c_errados.Mongo.File.Room.{IsSafe}
use tp_2021_1c_en_c_errados.Mongo.ListBits.{test_at, put_at, list_bits}
use tp_2021_1c_en_c_errados.Prelude.{splice}
use tp_2021_1c_en_c_errados.Mongo.Disk.{physical_disk_write, physical_disk_read}
use tp_2021_1c_en_c_errados.Mongo.Blocks.{
  init_blocks_from, bytes_in_block, block_at, has_value, remove_value, write_in_block,
  read_in_block, find_free, check_bits, verificar_integridad_bitmap, check_integrity,
  verificar_integridad_cantidad_bloques, Manager, init_blocks, request_block, release_block,
}
use tp_2021_1c_en_c_errados.Mongo.Blocks.Bitmap.{
  AllUsed, request_block_lem, release_block-request_block,
}
use tp_2021_1c_en_c_errados.Mongo.Blocks.Contents.{IsFormatted}
use tp_2021_1c_en_c_errados.Mongo.Blocks.ReadBack.{
  read_in_block-write_in_block, read_in_block-write_other,
}
use tp_2021_1c_en_c_errados.Mongo.Blocks.Integrity.{
  verificar_integridad_bitmap_lem, check_integrity_quiet,
}
use tp_2021_1c_en_c_errados.Mongo.File.{
  add_characters, fill_loop, finish_add, put_sentinel, generate_md5, md5_input, remove_characters,
  cut_sentinel, reduced_size, cut_blocks, release_last, remove_last, finish_remove, File,
  add_fill_char, remove_fill_char,
}
use tp_2021_1c_en_c_errados.Mongo.File.Shrink.{remove_fill_char_blocks, remove_fill_char_short}
use tp_2021_1c_en_c_errados.Prelude.Run.{Run, done}

-- Six blocks of four bytes, the first two in use.
abbrev store : Manager (List Bool)
store = record {
  blocks = init_blocks 6 4;
  blocks_size = 4;
  blocks_count = 6;
  bitmap = true ∷ true ∷ false ∷ false ∷ false ∷ false ∷ [];
  super_bloque_size = 4;
  super_bloque_count = 6;
  disk = replicate 24 0;
}

-- A file with the blocks 1 and 2 that holds `size` characters.
abbrev file_of : ℕ → File (List ℕ)
file_of n = record {
  size = n;
  blocks = 1 ∷ 2 ∷ [];
  block_count = 2;
  caracter_llenado = 79;
  md5_archivo = [];
  locked = false;
}

abbrev no_hash : List ℕ → List ℕ
no_hash bytes = bytes

abbrev long_file : File (List ℕ)
long_file = record (file_of 12) { blocks = 1 ∷ 2 ∷ 3 ∷ []; block_count = 3 }

store-IsFormatted : IsFormatted store
store-IsFormatted = record {
  laid_out = refl;
  filled = refl;
  small = omega arith;
  sized = omega arith;
}

-- The bitmap after a request, which gets block 3.
abbrev granted : Manager (List Bool)
granted = record store { bitmap = true ∷ true ∷ true ∷ false ∷ false ∷ false ∷ [] }

request_runs : request_block list_bits store ≡ (granted, 3)
unfolding request_block find_free test_at put_at
request_runs = refl

request_runs_again :
    request_block list_bits granted
    ≡ (record store { bitmap = true ∷ true ∷ true ∷ true ∷ false ∷ false ∷ [] }, 4)
unfolding request_block find_free test_at put_at
request_runs_again = refl

sizes_of : Run (Manager (List Bool) × File (List ℕ)) → List ℕ × ℕ
sizes_of (done (m, f)) = (f.blocks, f.size)
sizes_of _ = ([], 0)

-- Characters that need a third block, and, from a full file, one that would need a fourth.
add_runs : sizes_of (add_fill_char list_bits no_hash store (file_of 6) 5) ≡ (1 ∷ 2 ∷ 3 ∷ [], 11)
unfolding sizes_of add_fill_char add_characters write_in_block block_at init_blocks init_blocks_from
    physical_disk_write bytes_in_block copy_from fill_loop request_block find_free test_at put_at
    splice finish_add put_sentinel generate_md5 md5_input read_in_block physical_disk_read
add_runs = refl

add_full_runs :
    sizes_of (add_fill_char list_bits no_hash store (file_of 8) 5) ≡ (1 ∷ 2 ∷ 3 ∷ [], 13)
unfolding sizes_of add_fill_char add_characters write_in_block block_at init_blocks init_blocks_from
    physical_disk_write bytes_in_block copy_from fill_loop request_block find_free test_at put_at
    splice finish_add put_sentinel generate_md5 md5_input read_in_block physical_disk_read
add_full_runs = refl

remove_runs : sizes_of (remove_fill_char list_bits no_hash store (file_of 6) 3) ≡ (1 ∷ [], 3)
unfolding sizes_of remove_fill_char remove_characters cut_sentinel reduced_size write_in_block
    block_at init_blocks init_blocks_from physical_disk_write bytes_in_block copy_from cut_blocks
    release_last remove_last release_block put_at finish_remove splice generate_md5 md5_input
    read_in_block physical_disk_read
remove_runs = refl

-- Three blocks for nine characters, of which two blocks are kept.
remove_short_runs :
    sizes_of (remove_fill_char list_bits no_hash store long_file 3) ≡ (1 ∷ 2 ∷ [], 9)
unfolding sizes_of remove_fill_char remove_characters cut_sentinel reduced_size write_in_block
    block_at init_blocks init_blocks_from physical_disk_write bytes_in_block copy_from cut_blocks
    release_last remove_last release_block put_at finish_remove splice generate_md5 md5_input
    read_in_block physical_disk_read
remove_short_runs = refl

request_block_lem_example :
    (AllUsed list_bits store.bitmap store.blocks_count 0
      × (request_block list_bits store ≡ (store, 0)))
    ⊎ ((k : ℕ) × (k < store.blocks_count)
        × AllUsed list_bits store.bitmap k 0
        × (test_at store.bitmap k ≡ false)
        × (request_block list_bits store
            ≡ (record store { bitmap = put_at true store.bitmap k }, k + 1)))
request_block_lem_example = request_block_lem list_bits store

release_block-request_block_example :
    (m'' : Manager (List Bool)) × (release_block list_bits granted 3 ≡ some m'')
    × ((j : ℕ) → test_at m''.bitmap j ≡ test_at store.bitmap j)
release_block-request_block_example =
    release_block-request_block list_bits store granted 2 (omega arith) (omega arith) request_runs

verificar_integridad_bitmap_lem_example :
    test_at (verificar_integridad_bitmap list_bits store (1 ∷ [])).0.bitmap 1
    ≡ (test_at store.bitmap 1 && has_value 2 (1 ∷ []))
verificar_integridad_bitmap_lem_example =
    verificar_integridad_bitmap_lem list_bits store (1 ∷ []) 1 (omega arith)

check_runs : check_integrity list_bits store (1 ∷ 2 ∷ []) 24 ≡ some (store, false)
unfolding check_integrity verificar_integridad_bitmap check_bits has_value remove_value test_at
    verificar_integridad_cantidad_bloques
check_runs = refl

check_integrity_quiet_example :
    (store ≡ store)
    × (0 < store.super_bloque_size)
    × (store.super_bloque_count ≡ 24 / store.super_bloque_size)
check_integrity_quiet_example =
    check_integrity_quiet list_bits store store (1 ∷ 2 ∷ []) 24 check_runs

-- Three bytes at the second byte of block 2, of which all fit.
read_in_block-write_in_block_example :
    (m' : Manager (List Bool)) × (write_in_block store 2 (7 ∷ 8 ∷ 9 ∷ []) 3 1
      ≡ some (m', min 3 (store.blocks_size - 1)))
    × IsFormatted m'
    × (m'.bitmap ≡ store.bitmap)
    × (read_in_block m' 2 3 1 ≡ some (take (min 3 (store.blocks_size - 1)) (7 ∷ 8 ∷ 9 ∷ [])))
read_in_block-write_in_block_example =
    read_in_block-write_in_block store 1 3 1 (7 ∷ 8 ∷ 9 ∷ []) store-IsFormatted (omega arith)
      (omega arith) (omega arith) (omega arith) (omega arith)

abbrev rewritten : Manager (List Bool)
rewritten = record store { disk = 0 ∷ 0 ∷ 0 ∷ 0 ∷ 0 ∷ 7 ∷ 8 ∷ 9 ∷ replicate 16 0 }

write_runs : write_in_block store 2 (7 ∷ 8 ∷ 9 ∷ []) 3 1 ≡ some (rewritten, 3)
unfolding write_in_block block_at init_blocks init_blocks_from physical_disk_write bytes_in_block
    copy_from splice
write_runs = refl

read_in_block-write_other_example : read_in_block rewritten 1 4 0 ≡ read_in_block store 1 4 0
read_in_block-write_other_example =
    read_in_block-write_other store rewritten 1 3 1 3 (7 ∷ 8 ∷ 9 ∷ []) 0 4 0 store-IsFormatted
      (omega arith) (omega arith) (omega arith) (omega arith) (omega arith) write_runs (omega arith)
      (omega arith) (omega arith) (omega arith)

abbrev safe_block : (id index : ℕ) → id ≡ suc index → index + 1 < 6 → IsSafe 6 id
safe_block id index numbered below = record { index = index; numbered = numbered; below = below }

remove_fill_char_blocks_example :
    (m' : Manager (List Bool)) × (file' : File (List ℕ)) × (remove_fill_char list_bits no_hash store
        (file_of 6)
        3
      ≡ done (m', file'))
    × (file'.size ≡ 6 - 3)
    × (file'.block_count ≡ length file'.blocks)
    × (file'.size ≤ length file'.blocks * 4)
    × (length file'.blocks * 4 < max 1 file'.size + 4)
remove_fill_char_blocks_example =
    remove_fill_char_blocks list_bits no_hash store (file_of 6) 3 refl (omega arith) (omega arith)
      (omega arith) store-IsFormatted
      (safe_block 1 0 refl (omega arith), (safe_block 2 1 refl (omega arith), tt)) (omega arith)
      (omega arith)

remove_fill_char_short_example :
    (m' : Manager (List Bool)) × (file' : File (List ℕ)) × (remove_fill_char list_bits no_hash store
        long_file 3
      ≡ done (m', file'))
    × (file'.size ≡ 12 - 3)
    × (length file'.blocks * 4 < file'.size)
remove_fill_char_short_example =
    remove_fill_char_short list_bits no_hash store long_file 3 2 refl (omega arith) (omega arith)
      (omega arith) store-IsFormatted
      (
        safe_block 1 0 refl (omega arith),
        (safe_block 2 1 refl (omega arith), (safe_block 3 2 refl (omega arith), tt)),
      )
      (omega arith) (omega arith) (omega arith)
