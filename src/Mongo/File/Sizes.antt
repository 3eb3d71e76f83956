-- ===== src/Mongo/File/Sizes.antt =====
-- The size of a file and the number of its blocks, I-Mongo-Store/src/fs/file/file.c.
use tp_2021_1c_en_c_errados.Prelude.{ℕ, ◌≡◌, List, arith, true, false}
use tp_2021_1c_en_c_errados.Prelude.Run.{done, deadlock}
use tp_2021_1c_en_c_errados.Mongo.Bitarray.{Bitarray}
use tp_2021_1c_en_c_errados.Mongo.Blocks.{Manager}
use tp_2021_1c_en_c_errados.Mongo.File.{File, add_fill_char, remove_fill_char}

module _ (a : Bitarray) {Hash : Type 0} (md5 : List ℕ → Hash) where
  open a use {Bits}

  -- A request to add no characters to an unlocked file returns and leaves its mutex locked: every
  -- later request to add or remove characters waits forever.
  pub add_fill_char_zero :
      (m : Manager Bits) (file : File Hash) (amount : ℕ)
      → file.locked ≡ false
      → (file' : File Hash) × (add_fill_char a md5 m file 0 ≡ done (m, file'))
        × (add_fill_char a md5 m file' amount ≡ deadlock)
        × (remove_fill_char a md5 m file' amount ≡ deadlock)
  unfolding add_fill_char remove_fill_char
  add_fill_char_zero m file amount h =
      (record file { locked = true }, ground arith, ground arith, ground arith)

  -- A request to remove characters from an unlocked file of size 0 returns and leaves its mutex
  -- locked: every later request to add or remove characters waits forever.
  pub remove_fill_char_empty :
      (m : Manager Bits) (file : File Hash) (amount later : ℕ)
      → file.locked ≡ false
      → file.size ≡ 0
      → (file' : File Hash) × (remove_fill_char a md5 m file amount ≡ done (m, file'))
        × (add_fill_char a md5 m file' later ≡ deadlock)
        × (remove_fill_char a md5 m file' later ≡ deadlock)
  unfolding add_fill_char remove_fill_char
  remove_fill_char_empty m file amount later h e =
      (record file { locked = true }, ground arith, ground arith, ground arith)
