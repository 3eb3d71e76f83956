-- ===== src/Ram/Segments/Split.antt =====
-- What taking a segment does to the memory: `segmentacion_buscar_segmento` of
-- Mi-RAM-HQ/src/memoria/esquemas/segmentacion/segmentacion.c.
use tp_2021_1c_en_c_errados.Ram.Segments.Rest.{
  once-split, total-split, bytes-split, Inside-split, libre-split_in, libre-split_out,
}
use tp_2021_1c_en_c_errados.Prelude.{
  suma, suma-append, suma-set, get_elem?-set_ne, length-set, get_elem?-append_left,
  get_elem?-eq-some-lt, inr, inl, ℕ, ◌+◌, ◌≤◌, ◌<◌, ◌≡◌, ◌≢◌, sym, ap, ◌∙◌, subst, List, ◌++◌, some,
  get_elem?, set, arith, some_injective, All-set, All-append, All-get_elem?, Bool-cases, ◌↔◌, ◌⊎◌,
}
use tp_2021_1c_en_c_errados.Ram.Segments.{
  Segmento, menos_uno, Criterio, ocupado, resto, buscar_segmento, hay_segmento_libre,
}
use tp_2021_1c_en_c_errados.Ram.Segments.Fit.{Inside, buscar_segmento_lem, Sirve}
use tp_2021_1c_en_c_errados.Ram.Segments.Cover.{
  uno_dentro, libre_dentro, bytes_libres, IsPartition, EstaLibre, libre-le-uno,
}

-- A segment that was taken: where it stood, and the list that came of it.
pub record Tomado (memoria : ℕ) (ss : List Segmento) (n tipo pid inicio : ℕ) (ss' : List Segmento)
    : Type 0 where
  pub i : ℕ
  pub s : Segmento
  pub lugar : get_elem? ss i ≡ some s
  pub sirve : Sirve n s
  pub entra : (0 < s.tamanio) × (s.inicio + s.tamanio ≤ memoria)
  pub desde : s.inicio ≡ inicio
  pub lista : set ss i (ocupado s n tipo pid) ++ resto s n ≡ ss'

pub buscar_segmento-Tomado :
    (c : Criterio) (memoria : ℕ) (ss : List Segmento) (n tipo pid inicio : ℕ) (ss' : List Segmento)
    → memoria < 2147483648
    → Inside memoria ss
    → buscar_segmento c memoria ss n tipo pid ≡ some (inicio, ss')
    → Tomado memoria ss n tipo pid inicio ss'
buscar_segmento-Tomado c memoria ss n tipo pid inicio ss' small inside e =
    let (found, missed) = buscar_segmento_lem c memoria ss n tipo pid small inside in
    elim (Bool-cases (hay_segmento_libre ss n)) [
      | inl h ↦
          let (i, s, el, f) = found h in
          let same : ◌≡◌ {A = ℕ × List Segmento}
              (s.inicio, set ss i (ocupado s n tipo pid) ++ resto s n) (inicio, ss') =
            some_injective (sym f ∙ e) in
          record {
            i = i;
            s = s;
            lugar = el.lugar;
            sirve = el.sirve;
            entra = All-get_elem? _ ss i inside el.lugar;
            desde = ap (λ r. r.0) same;
            lista = ap (λ r. r.1) same;
          }
      | inr h ↦ let f = sym (missed h) ∙ e in cc
    ]

module _ (memoria : ℕ) (ss : List Segmento) (n tipo pid inicio : ℕ) (ss' : List Segmento)
    (t : Tomado memoria ss n tipo pid inicio ss') where
  -- A sum over the new list.
  suma-Tomado :
      (f : Segmento → ℕ)
      → suma f ss' + f t.s ≡ suma f ss + (f (ocupado t.s n tipo pid) + suma f (resto t.s n))
  suma-Tomado f =
      subst
        (λ l. suma f l + f t.s ≡ suma f ss + (f (ocupado t.s n tipo pid) + suma f (resto t.s n)))
        t.lista
        (omega (
          arith,
          suma-append f (set ss t.i (ocupado t.s n tipo pid)) (resto t.s n),
          suma-set f ss t.i t.s (ocupado t.s n tipo pid) t.lugar,
        ))

  Inside-Tomado : memoria < 2147483648 → 0 < n → Inside memoria ss → Inside memoria ss'
  Inside-Tomado small pos inside =
      let fits = t.sirve.1 in
      let room = t.entra.1 in
      subst (Inside memoria) t.lista (
        All-append _ (set ss t.i (ocupado t.s n tipo pid)) (resto t.s n)
          (All-set _ ss t.i (ocupado t.s n tipo pid) inside (pos, omega arith))
          (Inside-split t.s n tipo pid fits (omega arith) memoria room))

-- Taking a segment keeps the partition of the memory.
pub buscar_segmento-IsPartition :
    (c : Criterio) (memoria : ℕ) (ss : List Segmento) (n tipo pid inicio : ℕ) (ss' : List Segmento)
    → IsPartition memoria ss
    → 0 < n
    → buscar_segmento c memoria ss n tipo pid ≡ some (inicio, ss')
    → IsPartition memoria ss'
buscar_segmento-IsPartition c memoria ss n tipo pid inicio ss' p pos e =
    let t = buscar_segmento-Tomado c memoria ss n tipo pid inicio ss' p.small p.inside e in
    let small : t.s.inicio + t.s.tamanio < 2147483648 = omega (arith, t.entra.1, p.small) in
    record {
      small = p.small;
      inside = Inside-Tomado memoria ss n tipo pid inicio ss' t p.small pos p.inside;
      total = omega (
        arith,
        suma-Tomado memoria ss n tipo pid inicio ss' t (λ u. u.tamanio),
        total-split t.s n tipo pid t.sirve.1 small,
        p.total,
      );
      once = λ a h. omega (
        arith,
        suma-Tomado memoria ss n tipo pid inicio ss' t (uno_dentro a),
        once-split t.s n tipo pid t.sirve.1 small a,
        p.once a h,
      );
    }

-- The bytes taken are no longer counted as free.
pub buscar_segmento-bytes :
    (c : Criterio) (memoria : ℕ) (ss : List Segmento) (n tipo pid inicio : ℕ) (ss' : List Segmento)
    → IsPartition memoria ss
    → tipo ≢ menos_uno
    → buscar_segmento c memoria ss n tipo pid ≡ some (inicio, ss')
    → suma bytes_libres ss' + n ≡ suma bytes_libres ss
buscar_segmento-bytes c memoria ss n tipo pid inicio ss' p taken e =
    let t = buscar_segmento-Tomado c memoria ss n tipo pid inicio ss' p.small p.inside e in
    let small : t.s.inicio + t.s.tamanio < 2147483648 = omega (arith, t.entra.1, p.small) in
    let all_free : bytes_libres t.s ≡ t.s.tamanio = ground (arith, t.sirve.0) in
    omega (
      arith,
      suma-Tomado memoria ss n tipo pid inicio ss' t bytes_libres,
      bytes-split t.s n tipo pid t.sirve.1 small taken,
      all_free,
    )

-- For a partition of the memory, taking a segment of `n` bytes takes addresses that were free,
-- from the answer on, and leaves every other address as free or as taken as it was.
pub buscar_segmento-EstaLibre :
    (c : Criterio) (memoria : ℕ) (ss : List Segmento) (n tipo pid inicio : ℕ) (ss' : List Segmento)
    → IsPartition memoria ss
    → tipo ≢ menos_uno
    → buscar_segmento c memoria ss n tipo pid ≡ some (inicio, ss')
    → (a : ℕ)
    → (inicio ≤ a → a < inicio + n → EstaLibre ss a × ¬ EstaLibre ss' a)
      × ((a < inicio) ⊎ (inicio + n ≤ a) → EstaLibre ss' a ↔ EstaLibre ss a)
buscar_segmento-EstaLibre c memoria ss n tipo pid inicio ss' p taken e a =
    let t = buscar_segmento-Tomado c memoria ss n tipo pid inicio ss' p.small p.inside e in
    let at = t.desde in
    let fits = t.sirve.1 in
    let room = t.entra.1 in
    let below = p.small in
    let small : t.s.inicio + t.s.tamanio < 2147483648 = omega arith in
    let total = suma-Tomado memoria ss n tipo pid inicio ss' t (libre_dentro a) in
    (
      λ low high.
          let free : libre_dentro a t.s ≡ 1 = ground (arith, t.sirve.0) in
          let none_left =
            libre-split_in t.s n tipo pid fits small taken a (omega arith) (omega arith) in
          let at_most = libre-le-uno a ss in
          let single = p.once a (omega arith) in (omega arith, omega arith),
      λ out.
          let out' : (a < t.s.inicio) ⊎ (t.s.inicio + n ≤ a) = omega arith in
          let same = libre-split_out t.s n tipo pid fits small taken t.sirve.0 a out' in
          (omega arith, omega arith),
    )

-- A segment that is in use stays as it is, at its place in the list.
pub buscar_segmento-other :
    (c : Criterio) (memoria : ℕ) (ss : List Segmento) (n tipo pid inicio : ℕ) (ss' : List Segmento)
    → IsPartition memoria ss
    → buscar_segmento c memoria ss n tipo pid ≡ some (inicio, ss')
    → (j : ℕ) (u : Segmento) → get_elem? ss j ≡ some u
    → u.tipo ≢ menos_uno
    → get_elem? ss' j ≡ some u
buscar_segmento-other c memoria ss n tipo pid inicio ss' p e j u h used =
    let t = buscar_segmento-Tomado c memoria ss n tipo pid inicio ss' p.small p.inside e in
    let apart : t.i ≢ j = λ i. used (
      sym (ap (λ s. s.tipo) (some_injective (sym t.lugar ∙ ap (get_elem? ss) i ∙ h)))
      ∙ t.sirve.0) in
    let shorter = get_elem?-eq-some-lt ss j h in
    subst (λ l. get_elem? l j ≡ some u) t.lista
      (get_elem?-append_left (set ss t.i (ocupado t.s n tipo pid)) (resto t.s n) j
          (omega (arith, length-set ss t.i (ocupado t.s n tipo pid)))
        ∙ get_elem?-set_ne ss (ocupado t.s n tipo pid) apart
        ∙ h)
