-- ===== src/Ram/Segments/Fit.antt =====
-- Which segment the search of Mi-RAM-HQ/src/memoria/esquemas/segmentacion/segmentacion.c chooses.
use tp_2021_1c_en_c_errados.Prelude.{
  ◌>>=◌, ◌++◌, All-get_elem?, set, ℕ, suc, ◌+◌, ◌≤◌, ◌<◌, ◌≡◌, refl, ◌∙◌, ap, ◌⊎◌, inl, inr, List,
  [], ◌∷◌, true, false, ◌&&◌, Option, none, some, ltb, leb, get_elem?, All, arith, Bool-cases,
}
use tp_2021_1c_en_c_errados.Ram.Segments.{
  resto, first_fit, best_fit, ocupado, cota, clave, indice_elegido, Criterio, buscar_segmento,
  Segmento, menos_uno, es_libre, elegir, hay_segmento_libre,
}

-- A free segment that takes `n` bytes.
abbrev pub Sirve : ℕ → Segmento → Type 0
Sirve n s = (s.tipo ≡ menos_uno) × (n ≤ s.tamanio)

module _ (clave : Segmento → ℕ) where
  -- The segment `s` at `j` is a free one of at least `n` bytes, with the smallest key of all.
  pub record Elegido (ss : List Segmento) (n j : ℕ) (s : Segmento) : Type 0 where
    pub lugar : get_elem? ss j ≡ some s
    pub sirve : Sirve n s
    pub menor : All (λ t. Sirve n t → clave s ≤ clave t) ss

  abbrev pub NoMejora : ℕ → ℕ → List Segmento → Type 0
  NoMejora n actual ss = All (λ t. Sirve n t → actual ≤ clave t) ss

  abbrev pub Mejora : ℕ → ℕ → ℕ → Option ℕ → List Segmento → Type 0
  Mejora n i actual r ss =
      (j : ℕ) × (s : Segmento) × (r ≡ some (i + j)) × Elegido ss n j s × (clave s < actual)

  pub elegir_lem :
      (ss : List Segmento) (n i actual : ℕ) (hallado : Option ℕ)
      → ((elegir clave ss n i actual hallado ≡ hallado) × NoMejora n actual ss)
        ⊎ Mejora n i actual (elegir clave ss n i actual hallado) ss
  unfolding elegir
  elegir_lem [] n i actual hallado = inl (refl, tt)
  elegir_lem (s ∷ ss) n i actual hallado =
      elim (Bool-cases (es_libre s && (leb n s.tamanio && ltb (clave s) actual))) [
        | inl e ↦
            let fits : Sirve n s = ground arith in
            let less : clave s < actual = ground arith in
            rw e (elim (elegir_lem ss n (suc i) (clave s) (some i)) [
              | inl (f, none_less) ↦ inr (
                0,
                s,
                f ∙ ap some (omega arith),
                record { lugar = refl; sirve = fits; menor = ((λ _. omega arith), none_less) },
                less,
              )
              | inr (j, t, f, el, lt) ↦ inr (
                suc j,
                t,
                f ∙ ap some (omega arith),
                record {
                  lugar = el.lugar;
                  sirve = el.sirve;
                  menor = ((λ _. omega arith), el.menor);
                },
                omega arith,
              )
            ])
        | inr e ↦
            let worse : Sirve n s → actual ≤ clave s = λ h. ground (arith, h) in
            rw e (elim (elegir_lem ss n (suc i) actual hallado) [
              | inl (f, none_less) ↦ inl (f, (worse, none_less))
              | inr (j, t, f, el, lt) ↦ inr (
                suc j,
                t,
                f ∙ ap some (omega arith),
                record {
                  lugar = el.lugar;
                  sirve = el.sirve;
                  menor = ((λ h. omega (arith, worse h)), el.menor);
                },
                lt,
              )
            ])
      ]

pub hay_segmento_libre-some :
    (ss : List Segmento) (n : ℕ)
    → hay_segmento_libre ss n ≡ true
    → (j : ℕ) × (s : Segmento) × (get_elem? ss j ≡ some s) × Sirve n s
unfolding hay_segmento_libre
hay_segmento_libre-some [] n h = cc
hay_segmento_libre-some (s ∷ ss) n h = elim (Bool-cases (es_libre s && leb n s.tamanio)) [
  | inl e ↦ (0, s, refl, ground arith)
  | inr e ↦
      let (j, t, at, fits) = hay_segmento_libre-some ss n (ground arith) in (suc j, t, at, fits)
]

pub hay_segmento_libre_none :
    (ss : List Segmento) (n : ℕ) → hay_segmento_libre ss n ≡ false → All (λ s. ¬ Sirve n s) ss
unfolding hay_segmento_libre
hay_segmento_libre_none [] n h = tt
hay_segmento_libre_none (s ∷ ss) n h = (ground arith, hay_segmento_libre_none ss n (ground arith))

-- Every segment lies in the memory and is not empty.
abbrev pub Inside : ℕ → List Segmento → Type 0
Inside memoria ss = All (λ s. (0 < s.tamanio) × (s.inicio + s.tamanio ≤ memoria)) ss

clave-lt-cota :
    (c : Criterio) (memoria : ℕ) (s : Segmento)
    → memoria < 2147483648
    → (0 < s.tamanio) × (s.inicio + s.tamanio ≤ memoria)
    → clave c s < cota c memoria
clave-lt-cota first_fit memoria s small h = omega arith
clave-lt-cota best_fit memoria s small h = omega arith

pub indice_elegido-some :
    (c : Criterio) (memoria : ℕ) (ss : List Segmento) (n : ℕ)
    → memoria < 2147483648
    → Inside memoria ss
    → hay_segmento_libre ss n ≡ true
    → (i : ℕ) × (s : Segmento) × (indice_elegido c memoria ss n ≡ some i)
      × Elegido (clave c) ss n i s
unfolding indice_elegido
indice_elegido-some c memoria ss n small inside h =
    elim (elegir_lem (clave c) ss n 0 (cota c memoria) none) [
      | inl (_, worse) ↦
          let (j, s, at, fits) = hay_segmento_libre-some ss n h in
          let less = clave-lt-cota c memoria s small (All-get_elem? _ ss j inside at) in
          absurd (omega (arith, All-get_elem? _ ss j worse at fits))
      | inr (i, s, e, el, _) ↦ (i, s, e ∙ ap some (omega arith), el)
    ]

pub indice_elegido-none :
    (c : Criterio) (memoria : ℕ) (ss : List Segmento) (n : ℕ)
    → hay_segmento_libre ss n ≡ false
    → indice_elegido c memoria ss n ≡ none
unfolding indice_elegido
indice_elegido-none c memoria ss n h = elim (elegir_lem (clave c) ss n 0 (cota c memoria) none) [
  | inl (e, _) ↦ e
  | inr (i, s, e, el, _) ↦
      absurd (All-get_elem? _ ss i (hay_segmento_libre_none ss n h) el.lugar el.sirve)
]

-- In a memory of less than 2^31 bytes in which every segment lies and none is empty, the search
-- succeeds exactly when there is a free segment of `n` bytes or more. It takes the one that starts
-- lowest (first fit) or that is smallest (best fit), cuts it to `n` bytes, and appends the rest to
-- the list unless nothing is left.
pub buscar_segmento_lem :
    (c : Criterio) (memoria : ℕ) (ss : List Segmento) (n tipo pid : ℕ)
    → memoria < 2147483648
    → Inside memoria ss
    → (hay_segmento_libre ss n ≡ true
        → (i : ℕ) × (s : Segmento) × Elegido (clave c) ss n i s
          × (buscar_segmento c memoria ss n tipo pid
              ≡ some (s.inicio, set ss i (ocupado s n tipo pid) ++ resto s n)))
      × (hay_segmento_libre ss n ≡ false → buscar_segmento c memoria ss n tipo pid ≡ none)
unfolding buscar_segmento
buscar_segmento_lem c memoria ss n tipo pid small inside = (
  λ h.
      let (i, s, e, el) = indice_elegido-some c memoria ss n small inside h in
      (i, s, el, rw (e, ◌>>=◌, el.lugar)),
  λ h. rw (indice_elegido-none c memoria ss n h),
)
