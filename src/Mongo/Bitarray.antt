-- ===== src/Mongo/Bitarray.antt =====
-- What I-Mongo-Store/src/fs/blocks uses of the bit arrays of so-commons-library, which is another
-- project's code. The laws are the documented behaviour of its functions for bits of the array.
use tp_2021_1c_en_c_errados.Prelude.{ℕ, ◌<◌, ◌≡◌, ◌≢◌, Bool, true, false}

pub record Bitarray : Type 1 where
  pub Bits : Type 0
  pub test_bit : Bits → ℕ → Bool
  pub set_bit : Bits → ℕ → Bits
  pub clean_bit : Bits → ℕ → Bits
  pub get_max_bit : Bits → ℕ
  pub test-set_self : (b : Bits) (i : ℕ) → i < get_max_bit b → test_bit (set_bit b i) i ≡ true
  pub test-set_other :
      (b : Bits) (i j : ℕ) → i < get_max_bit b → i ≢ j → test_bit (set_bit b i) j ≡ test_bit b j
  pub test-clean_self : (b : Bits) (i : ℕ) → i < get_max_bit b → test_bit (clean_bit b i) i ≡ false
  pub test-clean_other :
      (b : Bits) (i j : ℕ) → i < get_max_bit b → i ≢ j → test_bit (clean_bit b i) j ≡ test_bit b j
  pub max-set : (b : Bits) (i : ℕ) → get_max_bit (set_bit b i) ≡ get_max_bit b
  pub max-clean : (b : Bits) (i : ℕ) → get_max_bit (clean_bit b i) ≡ get_max_bit b
