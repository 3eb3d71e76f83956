-- ===== src/Ram/Physical/Copies.antt =====
-- Blocks of bytes copied to the physical memory of
-- Mi-RAM-HQ/src/memoria/esquemas/segmentacion/segmentacion.c, and what is read of them.
use tp_2021_1c_en_c_errados.Prelude.{
  slice-splice_self, ℕ, zero, suc, ◌+◌, ◌≤◌, ◌≡◌, ◌⊎◌, refl, sym, ap, ◌∙◌, List, [], ◌∷◌, ◌++◌, map,
  append_assoc, some, ◌>>=◌, length, take, drop, arith, splice, length-splice, slice-splice_other,
  length-append, length-take, take-append, copy_from,
}
use tp_2021_1c_en_c_errados.Ram.Physical.{poner, poner_todo, leer32}

pub poner_inside :
    (mfisica : List ℕ) (offset : ℕ) (bytes : List ℕ)
    → offset + length bytes ≤ length mfisica
    → poner mfisica offset bytes ≡ some (splice mfisica offset bytes)
unfolding poner
poner_inside mfisica offset bytes h = ground arith

-- The blocks in a row.
abbrev pub junto : List (List ℕ) → List ℕ
junto [] = []
junto (b ∷ bs) = b ++ junto bs

module _ {ℓ} {A : Type ℓ} where
  pub drop-append_past :
      (xs ys : List A) (n k : ℕ) → n ≡ length xs + k → drop n (xs ++ ys) ≡ drop k ys
  drop-append_past [] ys n k h = let e : n ≡ k = omega arith in ap (λ i. drop i ys) e
  drop-append_past (x ∷ xs) ys zero k h = absurd (omega arith)
  drop-append_past (x ∷ xs) ys (suc n) k h = drop-append_past xs ys n k (omega arith)

  pub drop-drop : (xs : List A) (m n k : ℕ) → m ≡ n + k → drop k (drop n xs) ≡ drop m xs
  drop-drop xs m zero k h = let e : k ≡ m = omega arith in ap (λ i. drop i xs) e
  drop-drop [] zero (suc n) k h = absurd (omega arith)
  drop-drop [] (suc m) (suc n) zero h = refl
  drop-drop [] (suc m) (suc n) (suc k) h = refl
  drop-drop (x ∷ xs) zero (suc n) k h = absurd (omega arith)
  drop-drop (x ∷ xs) (suc m) (suc n) k h = drop-drop xs m n k (omega arith)

module _ {ℓ} {A : Type ℓ} where
  append-take-drop : (n k : ℕ) (xs : List A) → k ≡ n → take n xs ++ drop k xs ≡ xs
  append-take-drop zero zero xs h = refl
  append-take-drop zero (suc k) xs h = absurd (omega arith)
  append-take-drop (suc n) zero xs h = absurd (omega arith)
  append-take-drop (suc n) (suc k) [] h = refl
  append-take-drop (suc n) (suc k) (x ∷ xs) h = ap (◌∷◌ x) (append-take-drop n k xs (omega arith))

-- What follows an address inside the bytes that were copied.
pub drop-splice :
    (mfisica : List ℕ) (offset : ℕ) (bytes : List ℕ) (i : ℕ)
    → offset ≤ length mfisica
    → drop (offset + i) (splice mfisica offset bytes)
      ≡ drop i (bytes ++ drop (offset + length bytes) mfisica)
unfolding splice
drop-splice mfisica offset bytes i h =
    drop-append_past (take offset mfisica) (bytes ++ drop (offset + length bytes) mfisica)
      (offset + i) i (omega (arith, length-take offset mfisica))

-- Two copies, the second right behind the first, are one.
pub splice-splice :
    (mfisica : List ℕ) (offset : ℕ) (a b : List ℕ)
    → offset + (length a + length b) ≤ length mfisica
    → splice (splice mfisica offset a) (offset + length a) b ≡ splice mfisica offset (a ++ b)
unfolding splice
splice-splice mfisica offset a b h =
    let start = take offset mfisica in
    let rest = drop (offset + length a) mfisica in
    let front : take (offset + length a) (start ++ (a ++ rest)) ≡ start ++ a =
      ap (take (offset + length a)) (sym (append_assoc start a rest))
      ∙ take-append (offset + length a) (start ++ a) rest
          (omega (arith, length-append start a, length-take offset mfisica)) in
    let back : drop (offset + length a + length b) (start ++ (a ++ rest))
        ≡ drop (offset + length (a ++ b)) mfisica =
      ap (drop (offset + length a + length b)) (sym (append_assoc start a rest))
      ∙ drop-append_past (start ++ a) rest (offset + length a + length b) (length b)
          (omega (arith, length-append start a, length-take offset mfisica))
      ∙ drop-drop mfisica (offset + length (a ++ b)) (offset + length a) (length b)
          (omega (arith, length-append a b)) in
    rw (front, back, append_assoc start a, append_assoc a b) refl

pub poner_todo-splice :
    (mfisica : List ℕ) (offset : ℕ) (bs : List (List ℕ))
    → offset + length (junto bs) ≤ length mfisica
    → poner_todo mfisica offset bs ≡ some (splice mfisica offset (junto bs))
unfolding poner_todo splice
poner_todo-splice mfisica offset [] h =
    ap some (sym (append-take-drop offset (offset + 0) mfisica (omega arith)))
poner_todo-splice mfisica offset (b ∷ bs) h =
    let all = length-append b (junto bs) in
    let inside : offset + length b ≤ length mfisica = omega arith in
    let kept = length-splice mfisica offset b inside in
    rw (poner_inside mfisica offset b inside, ◌>>=◌)
      (poner_todo-splice (splice mfisica offset b) (offset + length b) bs (omega arith)
        ∙ ap some (splice-splice mfisica offset b (junto bs) (omega arith)))

pub copy_from-inside :
    (block : List ℕ) (offset n : ℕ)
    → offset + n ≤ length block
    → copy_from block offset n ≡ some (take n (drop offset block))
unfolding copy_from
copy_from-inside block offset n h = ground arith

-- A copy changes no read before or behind it.
pub copy_from-splice_other :
    (mfisica : List ℕ) (offset : ℕ) (bytes : List ℕ) (at n : ℕ)
    → offset + length bytes ≤ length mfisica
    → (at + n ≤ offset) ⊎ (offset + length bytes ≤ at)
    → copy_from (splice mfisica offset bytes) at n ≡ copy_from mfisica at n
unfolding copy_from
copy_from-splice_other mfisica offset bytes at n inside apart =
    rw
      (
        length-splice mfisica offset bytes inside,
        slice-splice_other mfisica offset bytes at n (omega arith) apart,
      )
      refl

pub leer32-splice_other :
    (mfisica : List ℕ) (offset : ℕ) (bytes : List ℕ) (at : ℕ)
    → offset + length bytes ≤ length mfisica
    → (at + 4 ≤ offset) ⊎ (offset + length bytes ≤ at)
    → leer32 (splice mfisica offset bytes) at ≡ leer32 mfisica at
unfolding leer32
leer32-splice_other mfisica offset bytes at inside apart =
    rw (copy_from-splice_other mfisica offset bytes at 4 inside apart) refl

-- A read inside the bytes that were copied.
pub copy_from-splice :
    (mfisica : List ℕ) (offset : ℕ) (bytes : List ℕ) (i n : ℕ)
    → offset + length bytes ≤ length mfisica
    → i + n ≤ length bytes
    → copy_from (splice mfisica offset bytes) (offset + i) n
      ≡ some (take n (drop i (bytes ++ drop (offset + length bytes) mfisica)))
copy_from-splice mfisica offset bytes i n inside part =
    copy_from-inside (splice mfisica offset bytes) (offset + i) n
      (omega (arith, length-splice mfisica offset bytes inside))
    ∙ ap (λ l. some (take n l)) (drop-splice mfisica offset bytes i (omega arith))

pub junto-map : (xs : List ℕ) → junto (map (λ c. c ∷ []) xs) ≡ xs
junto-map [] = refl
junto-map (x ∷ xs) = ap (◌∷◌ x) (junto-map xs)

-- All the bytes that were copied are read back.
pub copy_from-splice_self :
    (mfisica : List ℕ) (offset : ℕ) (bytes : List ℕ)
    → offset + length bytes ≤ length mfisica
    → copy_from (splice mfisica offset bytes) offset (length bytes) ≡ some bytes
copy_from-splice_self mfisica offset bytes inside =
    copy_from-inside (splice mfisica offset bytes) offset (length bytes)
      (omega (arith, length-splice mfisica offset bytes inside))
    ∙ ap some (slice-splice_self mfisica offset bytes (omega arith))
