-- ===== src/Mongo/ListBits.antt =====
-- A bit array as a list of bits. The bit arrays that I-Mongo-Store/src/fs/blocks uses are
-- so-commons-library's; this one shows that the laws asked of them can hold.
use tp_2021_1c_en_c_errados.Prelude.{
  ℕ, zero, suc, ◌<◌, ◌≡◌, ◌≢◌, refl, ap, arith, Bool, true, false, List, [], ◌∷◌, length,
}
use tp_2021_1c_en_c_errados.Mongo.Bitarray.{Bitarray}

unfoldable pub test_at : List Bool → ℕ → Bool
test_at [] i = false
test_at (b ∷ bs) zero = b
test_at (b ∷ bs) (suc i) = test_at bs i

unfoldable pub put_at : Bool → List Bool → ℕ → List Bool
put_at v [] i = []
put_at v (b ∷ bs) zero = v ∷ bs
put_at v (b ∷ bs) (suc i) = b ∷ put_at v bs i

pub length-put_at : (v : Bool) (bs : List Bool) (i : ℕ) → length (put_at v bs i) ≡ length bs
unfolding put_at
length-put_at v [] i = refl
length-put_at v (b ∷ bs) zero = refl
length-put_at v (b ∷ bs) (suc i) = ap suc (length-put_at v bs i)

pub test_at-put_at :
    (v : Bool) (bs : List Bool) (i : ℕ) → i < length bs → test_at (put_at v bs i) i ≡ v
unfolding put_at test_at
test_at-put_at v [] i h = absurd (omega arith)
test_at-put_at v (b ∷ bs) zero h = refl
test_at-put_at v (b ∷ bs) (suc i) h = test_at-put_at v bs i (omega arith)

pub test_at-put_other :
    (v : Bool) (bs : List Bool) (i j : ℕ) → i ≢ j → test_at (put_at v bs i) j ≡ test_at bs j
unfolding put_at test_at
test_at-put_other v [] i j h = refl
test_at-put_other v (b ∷ bs) zero zero h = absurd (h refl)
test_at-put_other v (b ∷ bs) zero (suc j) h = refl
test_at-put_other v (b ∷ bs) (suc i) zero h = refl
test_at-put_other v (b ∷ bs) (suc i) (suc j) h = test_at-put_other v bs i j (λ e. h (ap suc e))

abbrev pub list_bits : Bitarray
list_bits = record {
  Bits = List Bool;
  test_bit = test_at;
  set_bit = put_at true;
  clean_bit = put_at false;
  get_max_bit = length;
  test-set_self = test_at-put_at true;
  test-set_other = λ b i j h. test_at-put_other true b i j;
  test-clean_self = test_at-put_at false;
  test-clean_other = λ b i j h. test_at-put_other false b i j;
  max-set = length-put_at true;
  max-clean = length-put_at false;
}
