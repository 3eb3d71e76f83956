-- ===== src/Ram/Allocation/Reserve.antt =====
-- Segments taken one after the other by
-- Mi-RAM-HQ/src/memoria/esquemas/segmentacion/segmentacion.c, where no compaction is needed.
use tp_2021_1c_en_c_errados.Ram.Segments.Rest.{resto-cases}
use tp_2021_1c_en_c_errados.Prelude.{
  suma, ℕ, zero, suc, ◌+◌, ◌-◌, ◌≤◌, ◌<◌, ◌≡◌, ◌≢◌, inl, inr, refl, sym, ap, ◌∙◌, subst, List, [],
  ◌∷◌, ◌++◌, true, some, length, arith, get_elem?, set, ℕ_discrete, some_injective,
  get_elem?-set_ne, get_elem?-append_left, get_elem?-append_right, get_elem?-eq-some-lt, length-set,
}
use tp_2021_1c_en_c_errados.Prelude.Run.{done}
use tp_2021_1c_en_c_errados.Ram.Segments.{Segmento, menos_uno, hay_segmento_libre, ocupado, resto}
use tp_2021_1c_en_c_errados.Ram.Segments.Fit.{Sirve, hay_segmento_libre-some, buscar_segmento_lem}
use tp_2021_1c_en_c_errados.Ram.Segments.Cover.{bytes_libres, IsPartition}
use tp_2021_1c_en_c_errados.Ram.Segments.Split.{
  Tomado, buscar_segmento-Tomado, buscar_segmento-IsPartition, buscar_segmento-bytes,
}
use tp_2021_1c_en_c_errados.Ram.Segmentation.{Memoria, ocupar_segmento}
use tp_2021_1c_en_c_errados.Ram.Allocation.{obtener_segmento}

-- A segment that serves is seen by the test.
hay_segmento_libre-get_elem? :
    (ss : List Segmento) (n j : ℕ) {s : Segmento}
    → get_elem? ss j ≡ some s
    → Sirve n s
    → hay_segmento_libre ss n ≡ true
unfolding hay_segmento_libre
hay_segmento_libre-get_elem? [] n j at fits = cc
hay_segmento_libre-get_elem? (x ∷ xs) n zero {s = s} at fits =
    let fits' : Sirve n x = subst (Sirve n) (sym (some_injective at)) fits in ground arith
hay_segmento_libre-get_elem? (x ∷ xs) n (suc j) at fits =
    let rest = hay_segmento_libre-get_elem? xs n j at fits in ground arith

-- Where a free segment has `k` bytes, taking fewer leaves one with what remains of them.
hay_segmento_libre-Tomado :
    (memoria : ℕ) (ss : List Segmento) (n tipo pid inicio : ℕ) (ss' : List Segmento) (k : ℕ)
    → Tomado memoria ss n tipo pid inicio ss'
    → memoria < 2147483648
    → hay_segmento_libre ss k ≡ true
    → n < k
    → hay_segmento_libre ss' (k - n) ≡ true
hay_segmento_libre-Tomado memoria ss n tipo pid inicio ss' k t small h lt =
    let (j, s, at, fits) = hay_segmento_libre-some ss k h in
    let taken = set ss t.i (ocupado t.s n tipo pid) in
    let same = length-set ss t.i (ocupado t.s n tipo pid) in
    subst (λ l. hay_segmento_libre l (k - n) ≡ true) t.lista
      (elim (ℕ_discrete t.i j) [
        | yes e ↦
            let big : t.s ≡ s = some_injective (sym t.lugar ∙ ap (get_elem? ss) e ∙ at) in
            let size : t.s.tamanio ≡ s.tamanio = ap (λ x. x.tamanio) big in
            elim (resto-cases t.s n (omega (arith, fits.1)) (omega (arith, t.entra.1))) [
              | inl (f, _) ↦ absurd (omega (arith, fits.1))
              | inr (_, r) ↦
                  hay_segmento_libre-get_elem? (taken ++ resto t.s n) (k - n) (length taken)
                    (get_elem?-append_right taken (resto t.s n) (length taken) 0 (omega arith)
                      ∙ ap (λ l. get_elem? l 0) r)
                    (refl, omega (arith, fits.1))
            ]
        | no ne ↦
            let short = get_elem?-eq-some-lt ss j at in
            hay_segmento_libre-get_elem? (taken ++ resto t.s n) (k - n) j
              (get_elem?-append_left taken (resto t.s n) j (omega arith)
                ∙ get_elem?-set_ne ss (ocupado t.s n tipo pid) ne
                ∙ at)
              (fits.0, omega (arith, fits.1))
      ])

-- The memory is partitioned.
abbrev pub EnRegla : Memoria → Type 0
EnRegla m = IsPartition m.tamanio_memoria m.listado_segmentos

-- `n` bytes were taken, at `inicio`, and nothing else changed.
pub record Reservado (m : Memoria) (n inicio : ℕ) (m' : Memoria) : Type 0 where
  pub regla : EnRegla m'
  pub bytes : suma bytes_libres m'.listado_segmentos + n ≡ suma bytes_libres m.listado_segmentos
  pub dentro : inicio + n ≤ m.tamanio_memoria
  pub igual : m' ≡ record m { listado_segmentos = m'.listado_segmentos }

module _ (fuel : ℕ) (m : Memoria) (n tipo pid k : ℕ) where
  pub obtener_segmento-Reservado :
      EnRegla m
      → 0 < n
      → tipo ≢ menos_uno
      → n ≤ k
      → hay_segmento_libre m.listado_segmentos k ≡ true
      → (inicio : ℕ) × (m' : Memoria) × (obtener_segmento fuel m n tipo pid ≡ done (inicio, m'))
        × Reservado m n inicio m'
        × (n < k → hay_segmento_libre m'.listado_segmentos (k - n) ≡ true)
  unfolding obtener_segmento ocupar_segmento
  obtener_segmento-Reservado p pos taken le h =
      let c = m.criterio_seleccion in
      let b = m.tamanio_memoria in
      let ss = m.listado_segmentos in
      let (j, s, at, fits) = hay_segmento_libre-some ss k h in
      let enough = hay_segmento_libre-get_elem? ss n j at (fits.0, omega (arith, fits.1)) in
      let (i, u, el, e) = (buscar_segmento_lem c b ss n tipo pid p.small p.inside).0 enough in
      let ss' = set ss i (ocupado u n tipo pid) ++ resto u n in
      let t = buscar_segmento-Tomado c b ss n tipo pid u.inicio ss' p.small p.inside e in
      (
        u.inicio,
        record m { listado_segmentos = ss' },
        rw (enough, e) refl,
        record {
          regla = buscar_segmento-IsPartition c b ss n tipo pid u.inicio ss' p pos e;
          bytes = buscar_segmento-bytes c b ss n tipo pid u.inicio ss' p taken e;
          dentro = omega (arith, t.entra.1, t.sirve.1, t.desde);
          igual = refl;
        },
        hay_segmento_libre-Tomado b ss n tipo pid u.inicio ss' k t p.small h,
      )
