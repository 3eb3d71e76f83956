-- ===== src/Ram/Tables/Search.antt =====
-- The searches in the tables of
-- Mi-RAM-HQ/src/memoria/esquemas/segmentacion/segmentacion.c, before and after a change of the table.
use tp_2021_1c_en_c_errados.Prelude.{
  map, get_elem?-set_ne, get_elem?-append_right, ◌++◌, ℕ, zero, suc, ◌<◌, ◌≡◌, ◌≢◌, inl, inr, refl,
  sym, ap, ◌∙◌, List, [], ◌∷◌, Bool, true, false, none, some, ◌>>=◌, ◌==◌, >>=-eq-some, length,
  get_elem?, set, All, arith, some_injective, get_elem?-set_self, get_elem?-eq-some-lt,
  Option-cases, Bool-cases,
}
use tp_2021_1c_en_c_errados.Ram.Tables.{buscar_ultimo, un_indice_mas, ultimo_indice}

module _ {ℓ} {A : Type ℓ} (test : A → Bool) where
  pub ultimo_indice-some :
      (xs : List A) (i : ℕ)
      → ultimo_indice test xs ≡ some i
      → (x : A) × (get_elem? xs i ≡ some x) × (test x ≡ true)
  unfolding ultimo_indice
  ultimo_indice-some [] i h = cc
  ultimo_indice-some (x ∷ xs) zero h = elim (Option-cases (ultimo_indice test xs)) [
    | inl e ↦ elim (Bool-cases (test x)) [
      | inl t ↦ (x, refl, t)
      | inr f ↦ absurd (let k : none ≡ some 0 = rw (e, f) at h in cc)
    ]
    | inr (j, e) ↦
        absurd
          (let k : some (suc j) ≡ some 0 = rw e at h in let z = some_injective k in omega arith)
  ]
  ultimo_indice-some (x ∷ xs) (suc i) h = elim (Option-cases (ultimo_indice test xs)) [
    | inl e ↦ absurd (elim (Bool-cases (test x)) [
      | inl t ↦
          let k : some 0 ≡ some (suc i) = rw (e, t) at h in let z = some_injective k in omega arith
      | inr f ↦ let k : none ≡ some (suc i) = rw (e, f) at h in cc
    ])
    | inr (j, e) ↦
        let k : some (suc j) ≡ some (suc i) = rw e at h in
        ultimo_indice-some xs i (e ∙ ap some (omega (arith, some_injective k)))
  ]

  -- An element that the test sees as it saw the old one changes no search.
  pub ultimo_indice-set :
      (xs : List A) (i : ℕ) (x y : A)
      → get_elem? xs i ≡ some x
      → test y ≡ test x
      → ultimo_indice test (set xs i y) ≡ ultimo_indice test xs
  unfolding ultimo_indice
  ultimo_indice-set [] i x y h e = refl
  ultimo_indice-set (z ∷ zs) zero x y h e =
      let same : test y ≡ test z = e ∙ ap test (sym (some_injective h)) in rw same refl
  ultimo_indice-set (z ∷ zs) (suc i) x y h e =
      ap (un_indice_mas (test z)) (ultimo_indice-set zs i x y h e)

  ultimo_indice-none : (xs : List A) → All (λ x. test x ≡ false) xs → ultimo_indice test xs ≡ none
  unfolding ultimo_indice
  ultimo_indice-none [] h = refl
  ultimo_indice-none (x ∷ xs) (h, hs) = rw (ultimo_indice-none xs hs, h) refl

  -- The only element that passes.
  pub ultimo_indice-only :
      (xs : List A) (i : ℕ) (y : A)
      → i < length xs
      → All (λ x. test x ≡ false) xs
      → test y ≡ true
      → ultimo_indice test (set xs i y) ≡ some i
  unfolding ultimo_indice
  ultimo_indice-only [] i y lt h t = absurd (omega arith)
  ultimo_indice-only (x ∷ xs) zero y lt (h, hs) t = rw (ultimo_indice-none xs hs, t) refl
  ultimo_indice-only (x ∷ xs) (suc i) y lt (h, hs) t =
      rw (ultimo_indice-only xs i y (omega arith) hs t) refl

module _ {ℓ} {A : Type ℓ} (test : A → Bool) where
  pub buscar_ultimo-some :
      (xs : List A) (i : ℕ) (x : A)
      → buscar_ultimo test xs ≡ some (i, x)
      → (ultimo_indice test xs ≡ some i) × (get_elem? xs i ≡ some x) × (test x ≡ true)
  unfolding buscar_ultimo
  buscar_ultimo-some xs i x h =
      let (j, e, k) = >>=-eq-some (ultimo_indice test xs) _ h in
      let (y, at, l) = >>=-eq-some (get_elem? xs j) _ k in
      let (z, at', passed) = ultimo_indice-some test xs j e in
      let index : j ≡ i = ap (λ r. r.0) (some_injective l) in
      let elem : y ≡ x = ap (λ r. r.1) (some_injective l) in
      let same : z ≡ x = some_injective (sym at' ∙ at) ∙ elem in
      (
        e ∙ ap some index,
        sym (ap (get_elem? xs) index) ∙ at ∙ ap some elem,
        sym (ap test same) ∙ passed,
      )

  -- A changed element is found where the old one was found.
  pub buscar_ultimo-set :
      (xs : List A) (i : ℕ) (x y : A)
      → buscar_ultimo test xs ≡ some (i, x)
      → test y ≡ true
      → buscar_ultimo test (set xs i y) ≡ some (i, y)
  unfolding buscar_ultimo
  buscar_ultimo-set xs i x y h t =
      let (e, at, passed) = buscar_ultimo-some xs i x h in
      rw
        (
          ultimo_indice-set test xs i x y at (t ∙ sym passed),
          e,
          ◌>>=◌,
          get_elem?-set_self xs i y (get_elem?-eq-some-lt xs i at),
        )
        refl

  -- A change of an element that the search passes by changes no search.
  pub buscar_ultimo-set_other :
      (xs : List A) (i : ℕ) (x y : A)
      → get_elem? xs i ≡ some x
      → test x ≡ false
      → test y ≡ false
      → buscar_ultimo test (set xs i y) ≡ buscar_ultimo test xs
  unfolding buscar_ultimo
  buscar_ultimo-set_other xs i x y at f g = elim (Option-cases (ultimo_indice test xs)) [
    | inl e ↦ rw (ultimo_indice-set test xs i x y at (g ∙ sym f), e) refl
    | inr (j, e) ↦
        let (z, at', passed) = ultimo_indice-some test xs j e in
        let apart : i ≢ j = λ same.
          let t : test z ≡ test x =
            ap test (some_injective (sym at' ∙ ap (get_elem? xs) (sym same) ∙ at)) in
          cc in
        rw (ultimo_indice-set test xs i x y at (g ∙ sym f), e, ◌>>=◌, get_elem?-set_ne xs y apart)
          refl
  ]

  pub buscar_ultimo-only :
      (xs : List A) (i : ℕ) (y : A)
      → i < length xs
      → All (λ x. test x ≡ false) xs
      → test y ≡ true
      → buscar_ultimo test (set xs i y) ≡ some (i, y)
  unfolding buscar_ultimo
  buscar_ultimo-only xs i y lt h t =
      rw (ultimo_indice-only test xs i y lt h t, ◌>>=◌, get_elem?-set_self xs i y lt) refl

pub ==_refl : (a : ℕ) → (a == a) ≡ true
==_refl a = ground arith

pub ==_ne : (a b : ℕ) → a ≢ b → (a == b) ≡ false
==_ne a b h = ground arith

module _ {ℓ} {A : Type ℓ} (test : A → Bool) where
  ultimo_indice-append :
      (xs : List A) (y : A) → test y ≡ true → ultimo_indice test (xs ++ y ∷ []) ≡ some (length xs)
  unfolding ultimo_indice
  ultimo_indice-append [] y t = rw t refl
  ultimo_indice-append (x ∷ xs) y t = ap (un_indice_mas (test x)) (ultimo_indice-append xs y t)

  pub buscar_ultimo-append :
      (xs : List A) (y : A)
      → test y ≡ true
      → buscar_ultimo test (xs ++ y ∷ []) ≡ some (length xs, y)
  unfolding buscar_ultimo
  buscar_ultimo-append xs y t =
      rw
        (
          ultimo_indice-append xs y t,
          ◌>>=◌,
          get_elem?-append_right xs (y ∷ []) (length xs) 0 (omega arith),
        )
        refl

-- What is found among the images is found among the elements.
module _ {A B : Type 0} (g : A → B) where
  get_elem?-map :
      (xs : List A) (i : ℕ) (y : B)
      → get_elem? (map g xs) i ≡ some y
      → (x : A) × (get_elem? xs i ≡ some x) × (g x ≡ y)
  get_elem?-map [] i y h = cc
  get_elem?-map (x ∷ xs) zero y h = (x, refl, some_injective h)
  get_elem?-map (x ∷ xs) (suc i) y h = get_elem?-map xs i y h

  ultimo_indice-map :
      (test : B → Bool) (xs : List A)
      → ultimo_indice test (map g xs) ≡ ultimo_indice (λ x. test (g x)) xs
  unfolding ultimo_indice
  ultimo_indice-map test [] = refl
  ultimo_indice-map test (x ∷ xs) = ap (un_indice_mas (test (g x))) (ultimo_indice-map test xs)

  pub buscar_ultimo-map :
      (test : B → Bool) (xs : List A) (i : ℕ) (y : B)
      → buscar_ultimo test (map g xs) ≡ some (i, y)
      → (x : A) × (buscar_ultimo (λ x. test (g x)) xs ≡ some (i, x)) × (g x ≡ y)
  unfolding buscar_ultimo
  buscar_ultimo-map test xs i y h =
      let (index, at, _) = buscar_ultimo-some test (map g xs) i y h in
      let (x, at', same) = get_elem?-map xs i y at in
      (x, rw (sym (ultimo_indice-map test xs) ∙ index, ◌>>=◌, at') refl, same)

  pub map-set :
      (xs : List A) (i : ℕ) (x y : A)
      → get_elem? xs i ≡ some x
      → g y ≡ g x
      → map g (set xs i y) ≡ map g xs
  map-set [] i x y h e = refl
  map-set (z ∷ zs) zero x y h e = ap (λ w. w ∷ map g zs) (e ∙ ap g (sym (some_injective h)))
  map-set (z ∷ zs) (suc i) x y h e = ap (◌∷◌ (g z)) (map-set zs i x y h e)
