-- ===== src/Mongo/Blocks/Bitmap.antt =====
-- The bitmap of I-Mongo-Store/src/fs/blocks/blocks_manager.c: which block a request gets, and what
-- a release gives back.
use tp_2021_1c_en_c_errados.Prelude.{◌==◌, ◌-◌, ◌%◌}
use tp_2021_1c_en_c_errados.Prelude.{
  sym, ℕ_discrete, ap, if◌then◌else◌, ◌∙◌, subst, ℕ, zero, suc, ◌+◌, ◌≤◌, ◌<◌, ◌≡◌, ◌≢◌, refl, ◌⊎◌,
  inl, inr, true, false, some, arith, Bool-cases,
}
use tp_2021_1c_en_c_errados.Mongo.Bitarray.{Bitarray}
use tp_2021_1c_en_c_errados.Mongo.Blocks.{Manager, find_free, request_block, release_block}

module _ (a : Bitarray) where
  open a use {
    Bits, test_bit, set_bit, clean_bit, get_max_bit, test-set_self, test-set_other, test-clean_self,
    test-clean_other, max-set, max-clean,
  }

  -- The `n` bits from `i` on are all set.
  abbrev pub AllUsed : Bits → ℕ → ℕ → Type 0
  AllUsed bitmap zero i = Unit {0}
  AllUsed bitmap (suc n) i = (test_bit bitmap i ≡ true) × AllUsed bitmap n (i + 1)

  -- The bit array has a bit for every block.
  abbrev pub IsCovered : Manager Bits → Type 0
  IsCovered m = m.blocks_count ≤ get_max_bit m.bitmap

  -- Where the search from `i` on ends.
  abbrev Found : Bits → ℕ → ℕ → ℕ × Bits → Type 0
  Found bitmap left i r =
      (AllUsed bitmap left i × (r ≡ (0, bitmap)))
      ⊎ ((before k : ℕ) × (k ≡ i + before)
          × (before < left)
          × AllUsed bitmap before i
          × (test_bit bitmap k ≡ false)
          × (r ≡ (k + 1, set_bit bitmap k)))

  find_free_lem : (left i : ℕ) (bitmap : Bits) → Found bitmap left i (find_free a left i bitmap)
  unfolding find_free
  find_free_lem zero i bitmap = inl (tt, refl)
  find_free_lem (suc left) i bitmap = elim (Bool-cases (test_bit bitmap i)) [
    | inr free ↦ inr (0, i, omega arith, omega arith, tt, free, rw free)
    | inl used ↦ elim (find_free_lem left (i + 1) bitmap) [
      | inl (all, e) ↦ inl ((used, all), rw used e)
      | inr (before, k, at, within, all, free, e) ↦
          inr (suc before, k, omega arith, omega arith, (used, all), free, rw used e)
    ]
  ]

  -- A request either finds every block in use, answers 0 and leaves the bitmap alone, or answers
  -- the number of the first free block (block `k + 1` has bit `k`) and sets its bit, and no other
  -- field of the manager changes.
  pub request_block_lem :
      (m : Manager Bits)
      → (AllUsed m.bitmap m.blocks_count 0 × (request_block a m ≡ (m, 0)))
        ⊎ ((k : ℕ) × (k < m.blocks_count)
            × AllUsed m.bitmap k 0
            × (test_bit m.bitmap k ≡ false)
            × (request_block a m ≡ (record m { bitmap = set_bit m.bitmap k }, k + 1)))
  unfolding request_block
  request_block_lem m = elim (find_free_lem m.blocks_count 0 m.bitmap) [
    | inl (all, e) ↦ inl (all, rw e)
    | inr (before, k, at, within, all, free, e) ↦
        let e' : before ≡ k = omega arith in
        inr (k, omega arith, subst (λ n. AllUsed m.bitmap n 0) e' all, free, rw e)
  ]

  granted :
      (m m' : Manager Bits) (k : ℕ)
      → request_block a m ≡ (m', k + 1)
      → (k < m.blocks_count)
        × (test_bit m.bitmap k ≡ false)
        × (m' ≡ record m { bitmap = set_bit m.bitmap k })
  granted m m' k e = elim (request_block_lem m) [
    | inl (all, full) ↦
        let none_left : 0 ≡ k + 1 = ap (λ (r : Manager Bits × ℕ). r.1) (sym full ∙ e) in
        absurd (omega arith)
    | inr (k0, within, earlier, free, found) ↦
        let number : k0 + 1 ≡ k + 1 = ap (λ (r : Manager Bits × ℕ). r.1) (sym found ∙ e) in
        let same : k0 ≡ k = omega arith in
        (
          omega arith,
          subst (λ n. test_bit m.bitmap n ≡ false) same free,
          sym (ap (λ (r : Manager Bits × ℕ). r.0) (sym found ∙ e))
              ∙ ap (λ (n : ℕ). record m { bitmap = set_bit m.bitmap n }) same,
        )
  ]

  -- A request that answers block `k + 1` found it free, within the disk; afterwards its bit is set,
  -- and every other bit is as it was.
  pub request_block-bits :
      (m m' : Manager Bits) (k j : ℕ)
      → IsCovered m
      → request_block a m ≡ (m', k + 1)
      → (test_bit m.bitmap k ≡ false)
        × (k < m.blocks_count)
        × (test_bit m'.bitmap j ≡ (if k == j then true else test_bit m.bitmap j))
  request_block-bits m m' k j covered e =
      let (within, free, after) = granted m m' k e in
      (
        free,
        within,
        rw after (
            ground (
              arith,
              test-set_self m.bitmap k (omega arith),
              test-set_other m.bitmap k j (omega arith),
            )),
      )

  -- Two requests in a row never answer the same block.
  pub request_block_twice :
      (m m' m'' : Manager Bits) (k l : ℕ)
      → IsCovered m
      → request_block a m ≡ (m', k + 1)
      → request_block a m' ≡ (m'', l + 1)
      → k ≢ l
  request_block_twice m m' m'' k l covered first second same =
      let (_, free, _) = granted m' m'' l second in
      let (_, _, used) = request_block-bits m m' k l covered first in ground arith

  -- A block that is given out by a request and released again leaves every bit as it was.
  pub release_block-request_block :
      (m m' : Manager Bits) (k : ℕ)
      → IsCovered m
      → m.blocks_count < 4294967296
      → request_block a m ≡ (m', k + 1)
      → (m'' : Manager Bits) × (release_block a m' (k + 1) ≡ some m'')
        × ((j : ℕ) → test_bit m''.bitmap j ≡ test_bit m.bitmap j)
  unfolding release_block
  release_block-request_block m m' k covered small e =
      let (within, free, after) = granted m m' k e in
      let index : (k + 1 + 4294967296 - 1) % 4294967296 ≡ k = omega arith in
      (
        record m { bitmap = clean_bit (set_bit m.bitmap k) k },
        rw (after, index) (ground arith),
        λ j. bit j within free,
      )
    where
      covers : k < m.blocks_count → k < get_max_bit (set_bit m.bitmap k)
      covers within = rw max-set (omega arith)

      bit :
          (j : ℕ)
          → k < m.blocks_count
          → test_bit m.bitmap k ≡ false
          → test_bit (clean_bit (set_bit m.bitmap k) k) j ≡ test_bit m.bitmap j
      bit j within free = elim (ℕ_discrete k j) [
        | yes same ↦
            subst (λ n. test_bit (clean_bit (set_bit m.bitmap k) k) n ≡ test_bit m.bitmap n) same
              (test-clean_self (set_bit m.bitmap k) k (covers within) ∙ sym free)
        | no other ↦
            test-clean_other (set_bit m.bitmap k) k j (covers within) other
            ∙ test-set_other m.bitmap k j (omega arith) other
      ]
