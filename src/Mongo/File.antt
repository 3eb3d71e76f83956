-- ===== src/Mongo/File.antt =====
-- I-Mongo-Store/src/fs/file/file.c: a file of one repeated character. `md5` is openssl's, on the
-- bytes that it is fed. The configuration file is the record of its values.
pub mod Loop
pub mod Ends
pub mod Growth
pub mod Shrink
pub mod Room
pub mod CutRoom
pub mod Sizes
use tp_2021_1c_en_c_errados.Prelude.{
  sub32, not, ℕ, zero, suc, ◌+◌, ◌-◌, ◌*◌, ◌/◌, ◌%◌, List, [], ◌∷◌, ◌++◌, Option, none, some, Bool,
  true, false, ltb, leb, ◌==◌, ◌||◌, if◌then◌else◌, length, get_elem?, take, replicate, u32_mod,
}
use tp_2021_1c_en_c_errados.Prelude.Run.{Run, done, abort, deadlock, stuck, ◌>>=◌, or_abort}
use tp_2021_1c_en_c_errados.Mongo.Bitarray.{Bitarray}
use tp_2021_1c_en_c_errados.Mongo.Blocks.{
  Manager, request_block, release_block, write_in_block, read_in_block,
}

-- `locked` is the state of the mutex MX.
pub record File (Hash : Type 0) : Type 0 where
  pub size : ℕ
  pub blocks : List ℕ
  pub block_count : ℕ
  pub caracter_llenado : ℕ
  pub md5_archivo : Hash
  pub locked : Bool

-- `max(0, (int)(size - amount))`
unfoldable pub reduced_size : ℕ → ℕ → ℕ
reduced_size size amount =
    let difference = sub32 size amount in if ltb difference 2147483648 then difference else 0

-- `list_remove` at the last index.
unfoldable pub remove_last : List ℕ → Option (List ℕ × ℕ)
remove_last [] = none
remove_last (id ∷ []) = some ([], id)
remove_last (id ∷ next ∷ ids) = elim (remove_last (next ∷ ids)) [
  | none ↦ none
  | some (kept, last) ↦ some (id ∷ kept, last)
]

-- The zero byte behind the last character.
unfoldable pub put_sentinel : {Bits : Type 0} → Manager Bits → ℕ → ℕ → Run (Manager Bits)
put_sentinel m last_block offset =
    if offset == 0
    then done m
    else (do (m', _) ← or_abort (write_in_block m last_block (0 ∷ []) 1 offset); done m')

-- The zero byte is written if the new last block is not full, or the file is empty.
unfoldable pub cut_sentinel : {Bits : Type 0} → Manager Bits → List ℕ → ℕ → ℕ → Run (Manager Bits)
cut_sentinel m blocks size indice =
    if not (size % m.blocks_size == 0) || size == 0
    then (do
      id_ultimo_bloque ← or_abort (get_elem? blocks indice)
      (m', _) ← or_abort (write_in_block m id_ultimo_bloque (0 ∷ []) 1 (size % m.blocks_size))
      done m')
    else done m

-- `indice_ultimo_bloque`
abbrev pub last_index : ℕ → ℕ → ℕ
last_index size tamanio_bloques = size / (tamanio_bloques + 1)

module _ (a : Bitarray) where
  open a use {Bits}

  -- The `while(amount)` loop of `fs_file_add_fill_char` on fuel: the manager, the blocks and the last
  -- block after it.
  unfoldable pub fill_loop :
      ℕ → Manager Bits → List ℕ → ℕ → List ℕ → ℕ → Run (Manager Bits × List ℕ × ℕ)
  fill_loop zero m blocks last_block text amount = stuck
  fill_loop (suc fuel) m blocks last_block text zero = done (m, blocks, last_block)
  fill_loop (suc fuel) m blocks last_block text (suc left) = do
    let (m', id) = request_block a m
    (m'', escritos) ← or_abort (write_in_block m' id text (suc left) 0)
    fill_loop fuel m'' (blocks ++ id ∷ []) id text (sub32 (suc left) escritos)

  -- The loop of `fs_file_remove_fill_char`, for the number of blocks that it takes off.
  unfoldable pub release_last : ℕ → Manager Bits → List ℕ → Run (Manager Bits × List ℕ)
  release_last zero m blocks = done (m, blocks)
  release_last (suc left) m blocks = do
    (kept, id) ← or_abort (remove_last blocks)
    m' ← or_abort (release_block a m id)
    release_last left m' kept

  -- The loop takes blocks off until `indice` is the last; past the end of the list it would run into
  -- a null pointer.
  unfoldable pub cut_blocks : Manager Bits → List ℕ → ℕ → Run (Manager Bits × List ℕ)
  cut_blocks m blocks indice =
      if ltb indice (length blocks)
      then release_last (length blocks - 1 - indice) m blocks
      else abort

  -- The loop of `fs_file_delete` over the first BLOCK_COUNT blocks of the list.
  unfoldable pub release_first : ℕ → Manager Bits → List ℕ → Run (Manager Bits)
  release_first zero m blocks = done m
  release_first (suc left) m [] = abort
  release_first (suc left) m (id ∷ ids) = do
    m' ← or_abort (release_block a m id)
    release_first left m' ids

module _ (a : Bitarray) {Hash : Type 0} (md5 : List ℕ → Hash) where
  open a use {Bits}

  -- `list_iterate` with `_actualizar_md5`: the bytes that the hash is fed.
  unfoldable pub md5_input : Manager Bits → List ℕ → ℕ → Run (List ℕ)
  md5_input m [] tamanio_a_leer = done []
  md5_input m (id ∷ ids) tamanio_a_leer = do
    bytes ← or_abort (read_in_block m id tamanio_a_leer 0)
    others ← md5_input m ids (sub32 tamanio_a_leer (length bytes))
    done (bytes ++ others)

  unfoldable pub generate_md5 : Manager Bits → List ℕ → ℕ → Run Hash
  generate_md5 m id_bloques tamanio_a_leer =
      if tamanio_a_leer == 0
      then done (md5 (0 ∷ []))
      else (do bytes ← md5_input m id_bloques tamanio_a_leer; done (md5 bytes))

  -- `fs_file_create` for a file that is not there yet.
  unfoldable pub file_create : Manager Bits → ℕ → Run (Manager Bits × File Hash)
  file_create m fill_char = do
    let (m', block_id) = request_block a m
    hash ← generate_md5 m' [] 0
    (m'', _) ← or_abort (write_in_block m' block_id (0 ∷ []) 1 0)
    done (
      m'',
      record {
        size = 0;
        blocks = block_id ∷ [];
        block_count = 1;
        caracter_llenado = fill_char;
        md5_archivo = hash;
        locked = false;
      },
    )

  -- The part of `fs_file_add_fill_char` after its loop, up to the unlock.
  unfoldable pub finish_add :
      File Hash → ℕ → Manager Bits → List ℕ → ℕ → Run (Manager Bits × File Hash)
  finish_add file nuevo_tamanio_archivo m blocks last = do
    m' ← put_sentinel m last (nuevo_tamanio_archivo % m.blocks_size)
    hash ← generate_md5 m' blocks nuevo_tamanio_archivo
    done (
      m',
      record file {
        size = nuevo_tamanio_archivo;
        blocks = blocks;
        block_count = length blocks;
        md5_archivo = hash;
      },
    )

  -- `fs_file_add_fill_char` on an unlocked file and a positive amount, up to the unlock.
  unfoldable pub add_characters : Manager Bits → File Hash → ℕ → Run (Manager Bits × File Hash)
  add_characters m file amount = do
    last_block ← or_abort (get_elem? file.blocks (sub32 file.block_count 1))
    let caracter_repetido = replicate amount file.caracter_llenado
    (m1, escritos) ←
        or_abort (write_in_block m last_block caracter_repetido amount (file.size % m.blocks_size))
    (m2, blocks, last) ←
        fill_loop a (suc (sub32 amount escritos)) m1 file.blocks last_block caracter_repetido
          (sub32 amount escritos)
    finish_add file ((file.size + amount) % u32_mod) m2 blocks last

  -- `fs_file_add_fill_char`. A request for no characters returns with the mutex locked.
  unfoldable pub add_fill_char : Manager Bits → File Hash → ℕ → Run (Manager Bits × File Hash)
  add_fill_char m file amount =
      if file.locked
      then deadlock
      else if amount == 0
      then done (m, record file { locked = true })
      else add_characters m file amount

  -- The part of `fs_file_remove_fill_char` after its loop, up to the unlock.
  unfoldable pub finish_remove :
      File Hash → ℕ → ℕ → Manager Bits → List ℕ → Run (Manager Bits × File Hash)
  finish_remove file size_archivo_actualizado indice_ultimo_bloque m blocks = do
    hash ← generate_md5 m blocks size_archivo_actualizado
    done (
      m,
      record file {
        size = size_archivo_actualizado;
        blocks = blocks;
        block_count = indice_ultimo_bloque + 1;
        md5_archivo = hash;
      },
    )

  -- `fs_file_remove_fill_char` on an unlocked file with contents, up to the unlock.
  unfoldable pub remove_characters : Manager Bits → File Hash → ℕ → Run (Manager Bits × File Hash)
  remove_characters m file amount = do
    let size_archivo_actualizado = reduced_size file.size amount
    let indice_ultimo_bloque = last_index size_archivo_actualizado m.blocks_size
    m1 ← cut_sentinel m file.blocks size_archivo_actualizado indice_ultimo_bloque
    (m2, blocks) ← cut_blocks a m1 file.blocks indice_ultimo_bloque
    finish_remove file size_archivo_actualizado indice_ultimo_bloque m2 blocks

  -- `fs_file_remove_fill_char`. A request on an empty file returns with the mutex locked.
  unfoldable pub remove_fill_char : Manager Bits → File Hash → ℕ → Run (Manager Bits × File Hash)
  remove_fill_char m file amount =
      if file.locked
      then deadlock
      else if file.size == 0
      then done (m, record file { locked = true })
      else remove_characters m file amount

  unfoldable pub file_delete : Manager Bits → File Hash → Run (Manager Bits)
  file_delete m file = release_first a file.block_count m file.blocks
