-- ===== src/Mongo/Blocks/Integrity.antt =====
-- The integrity check of I-Mongo-Store/src/fs/blocks/blocks_manager.c: what it repairs.
use tp_2021_1c_en_c_errados.Mongo.Blocks.{
  some, Manager, has_value, remove_value, check_bits, verificar_integridad_bitmap, check_integrity,
}
use tp_2021_1c_en_c_errados.Prelude.{
  ◌/◌, subst, ℕ_discrete, ℕ, zero, suc, ◌+◌, ◌≤◌, ◌<◌, ◌≡◌, ◌≢◌, refl, Bool, true, false, ◌&&◌,
  List, [], ◌∷◌, arith,
}
use tp_2021_1c_en_c_errados.Mongo.Bitarray.{Bitarray}

has_value-remove_value :
    (n k : ℕ) (ids : List ℕ) → n ≢ k → has_value n (remove_value k ids) ≡ has_value n ids
unfolding has_value remove_value
has_value-remove_value n k [] h = refl
has_value-remove_value n k (id ∷ ids) h = ground (arith, has_value-remove_value n k ids h)

module _ (a : Bitarray) where
  open a use {
    Bits, test_bit, set_bit, clean_bit, get_max_bit, test-clean_self, test-clean_other, max-clean,
  }

  -- From `i` on the loop looks at `left` bits. It leaves a bit that it has not looked at as it was,
  -- and of those that it has looked at it leaves exactly those set that stand for a block in `ids`.
  check_bits_below :
      (left i : ℕ) (ids : List ℕ) (bitmap : Bits) (fue : Bool) (j : ℕ)
      → i + left ≤ get_max_bit bitmap
      → j < i
      → test_bit (check_bits a left i ids bitmap fue).0 j ≡ test_bit bitmap j
  unfolding check_bits
  check_bits_below zero i ids bitmap fue j h lt = refl
  check_bits_below (suc left) i ids bitmap fue j h lt = ground (
    arith,
    check_bits_below left (i + 1) (remove_value (i + 1) ids) bitmap fue j,
    check_bits_below left (i + 1) ids bitmap fue j,
    check_bits_below left (i + 1) ids (clean_bit bitmap i) true j,
    max-clean bitmap i,
    test-clean_other bitmap i j (omega arith),
  )

  -- The bit that the loop looks at first.
  check_bits_first :
      (left i : ℕ) (ids : List ℕ) (bitmap : Bits) (fue : Bool)
      → i + suc left ≤ get_max_bit bitmap
      → test_bit (check_bits a (suc left) i ids bitmap fue).0 i
        ≡ (test_bit bitmap i && has_value (i + 1) ids)
  unfolding check_bits
  check_bits_first left i ids bitmap fue h = ground (
    arith,
    check_bits_below left (i + 1) (remove_value (i + 1) ids) bitmap fue i,
    check_bits_below left (i + 1) ids bitmap fue i,
    check_bits_below left (i + 1) ids (clean_bit bitmap i) true i,
    max-clean bitmap i,
    test-clean_self bitmap i (omega arith),
  )

  check_bits_at :
      (left i : ℕ) (ids : List ℕ) (bitmap : Bits) (fue : Bool) (j : ℕ)
      → i + left ≤ get_max_bit bitmap
      → i ≤ j
      → j < i + left
      → test_bit (check_bits a left i ids bitmap fue).0 j
        ≡ (test_bit bitmap j && has_value (j + 1) ids)
  unfolding check_bits
  check_bits_at zero i ids bitmap fue j h le lt = absurd (omega arith)
  check_bits_at (suc left) i ids bitmap fue j h le lt = elim (ℕ_discrete i j) [
    | yes same ↦
        subst
          (λ n.
            test_bit (check_bits a (suc left) i ids bitmap fue).0 n
            ≡ (test_bit bitmap n && has_value (n + 1) ids))
          same (check_bits_first left i ids bitmap fue h)
    | no later ↦ ground (
      arith,
      check_bits_at left (i + 1) (remove_value (i + 1) ids) bitmap fue j,
      check_bits_at left (i + 1) ids bitmap fue j,
      check_bits_at left (i + 1) ids (clean_bit bitmap i) true j,
      has_value-remove_value (j + 1) (i + 1) ids,
      max-clean bitmap i,
      test-clean_other bitmap i j (omega arith) later,
    )
  ]

  -- After the check of the bitmap against the list of the blocks in use, a bit of the bitmap is
  -- set exactly if it was set before and its block (bit `j` stands for block `j + 1`) is in the list.
  -- So no bit stays set for a block that nothing uses, and none is set that was clear.
  pub verificar_integridad_bitmap_lem :
      (m : Manager Bits) (ids : List ℕ) (j : ℕ)
      → j < get_max_bit m.bitmap
      → test_bit (verificar_integridad_bitmap a m ids).0.bitmap j
        ≡ (test_bit m.bitmap j && has_value (j + 1) ids)
  unfolding verificar_integridad_bitmap
  verificar_integridad_bitmap_lem m ids j h =
      check_bits_at (get_max_bit m.bitmap) 0 ids m.bitmap false j (omega arith) (omega arith)
        (omega arith)

  -- The loop reports a sabotage if one was reported before, or if it cleans a bit.
  check_bits_report :
      (left i : ℕ) (ids : List ℕ) (bitmap : Bits) → (check_bits a left i ids bitmap true).1 ≡ true
  unfolding check_bits
  check_bits_report zero i ids bitmap = refl
  check_bits_report (suc left) i ids bitmap = ground (
    arith,
    check_bits_report left (i + 1) (remove_value (i + 1) ids) bitmap,
    check_bits_report left (i + 1) ids bitmap,
    check_bits_report left (i + 1) ids (clean_bit bitmap i),
  )

  check_bits_quiet :
      (left i : ℕ) (ids : List ℕ) (bitmap : Bits)
      → (check_bits a left i ids bitmap false).1 ≡ false
      → (check_bits a left i ids bitmap false).0 ≡ bitmap
  unfolding check_bits
  check_bits_quiet zero i ids bitmap e = refl
  check_bits_quiet (suc left) i ids bitmap e = ground (
    arith,
    check_bits_quiet left (i + 1) (remove_value (i + 1) ids) bitmap,
    check_bits_quiet left (i + 1) ids bitmap,
    check_bits_report left (i + 1) ids (clean_bit bitmap i),
  )

  -- A check of the whole store that returns without reporting a sabotage has changed nothing, the
  -- superblock's block size is not zero, and the number of blocks in the superblock is the size of
  -- the file of blocks divided by it. A division by zero does not return.
  pub check_integrity_quiet :
      (m m' : Manager Bits) (ids : List ℕ) (size : ℕ)
      → check_integrity a m ids size ≡ some (m', false)
      → (m' ≡ m) × (0 < m.super_bloque_size) × (m.super_bloque_count ≡ size / m.super_bloque_size)
  unfolding check_integrity
  check_integrity_quiet m m' ids size e =
      ground (arith, check_bits_quiet (get_max_bit m.bitmap) 0 ids m.bitmap)
