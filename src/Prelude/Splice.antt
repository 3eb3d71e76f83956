-- ===== src/Prelude/Splice.antt =====
-- A block of memory after a copy of bytes into it.
use Prim.Native.Nat.{ℕ, ◌+◌, ◌-◌, ◌≤◌, ◌<◌}
use mathlib.Core.List.{List, ◌++◌}
use mathlib.Core.Logic.{◌⊎◌, inl, inr}
use native.Mathlib.Omega.{arith}
use native.Mathlib.Decide.{dec_lt}
use tp_2021_1c_en_c_errados.Prelude.Slices.{
  get_elem?-append_left, get_elem?-append_right, get_elem?-take, get_elem?-drop,
  get_elem?-take_past, get_elem?-ext,
}
use mathlib.Core.Path.{◌≡◌, refl, sym, ◌∙◌}
use tp_2021_1c_en_c_errados.Prelude.Lists.{
  length, take, drop, get_elem?, length-append, length-take, length-drop, drop-append, take-append,
}

-- `memcpy` of the bytes into a block of memory, at an offset.
unfoldable pub splice : List ℕ → ℕ → List ℕ → List ℕ
splice block offset bytes = take offset block ++ (bytes ++ drop (offset + length bytes) block)

pub length-splice :
    (block : List ℕ) (offset : ℕ) (bytes : List ℕ)
    → offset + length bytes ≤ length block
    → length (splice block offset bytes) ≡ length block
unfolding splice
length-splice block offset bytes h = omega (
  arith,
  length-append (take offset block) (bytes ++ drop (offset + length bytes) block),
  length-append bytes (drop (offset + length bytes) block),
  length-take offset block,
  length-drop (offset + length bytes) block,
)

-- The bytes just written.
pub slice-splice_self :
    (block : List ℕ) (offset : ℕ) (bytes : List ℕ)
    → offset ≤ length block
    → take (length bytes) (drop offset (splice block offset bytes)) ≡ bytes
unfolding splice
slice-splice_self block offset bytes h = rw (
  drop-append offset (take offset block) (bytes ++ drop (offset + length bytes) block)
      (omega (arith, length-take offset block)),
  take-append (length bytes) bytes (drop (offset + length bytes) block) refl,
)

-- One byte of the block after a copy: outside of the range it is the old byte.
pub get_elem?-splice_before :
    (block : List ℕ) (offset : ℕ) (bytes : List ℕ) (i : ℕ)
    → offset ≤ length block
    → i < offset
    → get_elem? (splice block offset bytes) i ≡ get_elem? block i
unfolding splice
get_elem?-splice_before block offset bytes i h lt =
    get_elem?-append_left (take offset block) _ i (omega (arith, length-take offset block))
    ∙ get_elem?-take offset block i lt

pub get_elem?-splice_after :
    (block : List ℕ) (offset : ℕ) (bytes : List ℕ) (i : ℕ)
    → offset ≤ length block
    → offset + length bytes ≤ i
    → get_elem? (splice block offset bytes) i ≡ get_elem? block i
unfolding splice
get_elem?-splice_after block offset bytes i h lt =
    get_elem?-append_right (take offset block) _ i (i - offset)
      (omega (arith, length-take offset block))
    ∙ get_elem?-append_right bytes _ (i - offset) (i - offset - length bytes) (omega arith)
    ∙ get_elem?-drop (offset + length bytes) block (i - offset - length bytes) i (omega arith)

-- What a reader of `n` bytes at `at` sees does not change when the write is before or after them.
pub slice-splice_other :
    (block : List ℕ) (offset : ℕ) (bytes : List ℕ) (at n : ℕ)
    → offset ≤ length block
    → (at + n ≤ offset) ⊎ (offset + length bytes ≤ at)
    → take n (drop at (splice block offset bytes)) ≡ take n (drop at block)
slice-splice_other block offset bytes at n h apart = get_elem?-ext _ _ same
  where
    byte :
        (i : ℕ) → i < n → get_elem? (splice block offset bytes) (at + i) ≡ get_elem? block (at + i)
    byte i lt = elim apart [
      | inl before ↦ get_elem?-splice_before block offset bytes (at + i) h (omega arith)
      | inr after ↦ get_elem?-splice_after block offset bytes (at + i) h (omega arith)
    ]

    same :
        (i : ℕ)
        → get_elem? (take n (drop at (splice block offset bytes))) i
          ≡ get_elem? (take n (drop at block)) i
    same i = elim (dec_lt i n) [
      | yes lt ↦
          get_elem?-take n _ i lt
          ∙ get_elem?-drop at _ i (at + i) refl
          ∙ byte i lt
          ∙ sym (get_elem?-take n _ i lt ∙ get_elem?-drop at block i (at + i) refl)
      | no past ↦
          get_elem?-take_past n _ i (omega arith) ∙ sym (get_elem?-take_past n _ i (omega arith))
    ]
