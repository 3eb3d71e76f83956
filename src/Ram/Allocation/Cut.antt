-- ===== src/Ram/Allocation/Cut.antt =====
-- What a compaction of Mi-RAM-HQ/src/memoria/esquemas/segmentacion/segmentacion.c meets after a hole
-- was cut, whose rest `segmentacion_buscar_segmento` appends to the end of the list.
use tp_2021_1c_en_c_errados.Prelude.{
  ℕ, suc, ◌+◌, ◌%◌, ◌<◌, ◌≤◌, ◌≡◌, ◌≢◌, ◌==◌, refl, ap, ◌∙◌, List, [], ◌∷◌, ◌++◌, true, false,
  Option, none, some, ◌>>=◌, length, arith, get_elem?, set, u32_mod, sub32, ◌&&◌, Bool, leb, ltb,
  inl, inr, Bool-cases,
}
use tp_2021_1c_en_c_errados.Prelude.Run.{abort}
use tp_2021_1c_en_c_errados.Ram.Segments.{
  Segmento, segmento_libre, es_libre, cantidad_libres, elegir, es_ultimo, esta_compactado,
  primer_libre, clave, cota, first_fit, best_fit, Criterio, indice_elegido, ocupado, resto,
  buscar_segmento,
}
use tp_2021_1c_en_c_errados.Ram.Segmentation.{
  Memoria, reasignar_en, reasignar_desde, reasignar_segmento, ocupar_segmento,
}
use tp_2021_1c_en_c_errados.Ram.Allocation.{compactar}

-- With nothing free the search keeps what it has, and with one free segment it finds this one.
elegir_none_free :
    (medir : Segmento → ℕ) (ss : List Segmento) (n i actual : ℕ) (hallado : Option ℕ)
    → cantidad_libres ss ≡ 0
    → elegir medir ss n i actual hallado ≡ hallado
unfolding elegir cantidad_libres
elegir_none_free medir [] n i actual hallado h = refl
elegir_none_free medir (s ∷ ss) n i actual hallado h = elim (Bool-cases (es_libre s)) [
  | inl e ↦ absurd (ground arith)
  | inr e ↦ rw e (elegir_none_free medir ss n (suc i) actual hallado (ground arith))
]

elegir_used :
    (medir : Segmento → ℕ) (s : Segmento) (ss : List Segmento) (n i actual : ℕ) (hallado : Option ℕ)
    → es_libre s ≡ false
    → elegir medir (s ∷ ss) n i actual hallado ≡ elegir medir ss n (suc i) actual hallado
unfolding elegir
elegir_used medir s ss n i actual hallado e = rw e refl

elegir_only :
    (medir : Segmento → ℕ) (antes : List Segmento) (s : Segmento) (despues : List Segmento)
    (n i actual : ℕ) (hallado : Option ℕ)
    → cantidad_libres antes ≡ 0
    → cantidad_libres despues ≡ 0
    → es_libre s ≡ true
    → n ≤ s.tamanio
    → medir s < actual
    → elegir medir (antes ++ s ∷ despues) n i actual hallado ≡ some (i + length antes)
unfolding elegir cantidad_libres
elegir_only medir [] s despues n i actual hallado a d e fits less =
    let chosen : (es_libre s && (leb n s.tamanio && ltb (medir s) actual)) ≡ true = ground arith in
    rw (elegir, chosen)
      (elegir_none_free medir despues n (suc i) (medir s) (some i) d ∙ ap some (omega arith))
elegir_only medir (t ∷ antes) s despues n i actual hallado a d e fits less =
    let used : es_libre t ≡ false = ground arith in
    let index : suc i + length antes ≡ i + suc (length antes) = omega arith in
    elegir_used medir t (antes ++ s ∷ despues) n i actual hallado used
    ∙ elegir_only medir antes s despues n (suc i) actual hallado (ground arith) d e fits less
    ∙ ap some index

module _ {A : Type 0} where
  get_elem?_middle :
      (xs : List A) (x : A) (ys : List A) → get_elem? (xs ++ x ∷ ys) (length xs) ≡ some x
  get_elem?_middle [] x ys = refl
  get_elem?_middle (y ∷ xs) x ys = get_elem?_middle xs x ys

  get_elem?_behind : (xs : List A) (x : A) → get_elem? (xs ++ x ∷ []) (suc (length xs)) ≡ none
  get_elem?_behind [] x = refl
  get_elem?_behind (y ∷ xs) x = get_elem?_behind xs x

  set_middle :
      (xs : List A) (x y : A) (ys : List A) → set (xs ++ x ∷ ys) (length xs) y ≡ xs ++ y ∷ ys
  set_middle [] x y ys = refl
  set_middle (z ∷ xs) x y ys = ap (◌∷◌ z) (set_middle xs x y ys)

cantidad_libres-append :
    (xs ys : List Segmento) → cantidad_libres (xs ++ ys) ≡ cantidad_libres xs + cantidad_libres ys
unfolding cantidad_libres
cantidad_libres-append [] ys = omega arith
cantidad_libres-append (s ∷ xs) ys = omega (arith, cantidad_libres-append xs ys)

-- The one free segment does not reach the end of the memory.
es_ultimo_only :
    (memoria : ℕ) (ss : List Segmento) (s : Segmento)
    → cantidad_libres ss ≡ 0
    → (s.inicio + s.tamanio) % u32_mod ≢ memoria
    → es_ultimo memoria (ss ++ s ∷ []) ≡ false
unfolding es_ultimo cantidad_libres
es_ultimo_only memoria [] s h other = ground arith
es_ultimo_only memoria (t ∷ ss) s h other =
    let used : es_libre t ≡ false = ground arith in
    ground (arith, es_ultimo_only memoria ss s (ground arith) other)

esta_compactado_only :
    (memoria : ℕ) (ss : List Segmento) (s : Segmento)
    → cantidad_libres ss ≡ 0
    → (s.inicio + s.tamanio) % u32_mod ≢ memoria
    → esta_compactado memoria (ss ++ s ∷ []) ≡ false
unfolding esta_compactado
esta_compactado_only memoria ss s h other =
    rw (es_ultimo_only memoria ss s h other) (and-false (cantidad_libres (ss ++ s ∷ []) == 1))
  where
    and-false : (b : Bool) → (b && false) ≡ false
    and-false true = refl
    and-false false = refl

-- The lowest free segment is the last of the list: there is no next one.
compactar_last :
    (fuel : ℕ) (m : Memoria) (ss : List Segmento) (s : Segmento)
    → m.listado_segmentos ≡ ss ++ s ∷ []
    → cantidad_libres ss ≡ 0
    → es_libre s ≡ true
    → s.inicio < m.tamanio_memoria
    → (s.inicio + s.tamanio) % u32_mod ≢ m.tamanio_memoria
    → compactar (suc fuel) m ≡ abort
unfolding compactar reasignar_segmento reasignar_en reasignar_desde primer_libre cantidad_libres
compactar_last fuel m ss s list used free low short =
    let index : 0 + length ss ≡ length ss = omega arith in
    let found =
      elegir_only (clave first_fit) ss s [] 0 0 m.tamanio_memoria none used refl free (omega arith)
        low
      ∙ ap some index in
    rw
      (
        list,
        esta_compactado_only m.tamanio_memoria ss s used short,
        found,
        get_elem?_middle ss s [],
        get_elem?_behind ss s,
      )
      refl

clave-cota :
    (c : Criterio) (memoria : ℕ) (s : Segmento)
    → s.inicio + s.tamanio < memoria
    → memoria < 2147483648
    → clave c s < cota c memoria
clave-cota first_fit memoria s inside small = omega arith
clave-cota best_fit memoria s inside small = omega arith

buscar_segmento_only :
    (c : Criterio) (memoria n tipo pid : ℕ) (antes : List Segmento) (s : Segmento)
    (despues : List Segmento)
    → cantidad_libres antes ≡ 0
    → cantidad_libres despues ≡ 0
    → es_libre s ≡ true
    → n < s.tamanio
    → s.inicio + s.tamanio < memoria
    → memoria < 2147483648
    → buscar_segmento c memoria (antes ++ s ∷ despues) n tipo pid
      ≡ some (
        s.inicio,
        (antes ++ ocupado s n tipo pid ∷ despues)
            ++ segmento_libre ((s.inicio + n) % u32_mod) (sub32 s.tamanio n) ∷ [],
      )
unfolding buscar_segmento indice_elegido resto
buscar_segmento_only c memoria n tipo pid antes s despues a d free part inside small =
    let index : 0 + length antes ≡ length antes = omega arith in
    let found =
      elegir_only (clave c) antes s despues n 0 (cota c memoria) none a d free (omega arith)
        (clave-cota c memoria s inside small)
      ∙ ap some index in
    let rest : (s.tamanio == n) ≡ false = ground arith in
    rw
      (
        found,
        ◌>>=◌,
        get_elem?_middle antes s despues,
        set_middle antes s (ocupado s n tipo pid) despues,
        rest,
      )
      refl

-- In a memory below 2^31 bytes whose one free segment does not reach its end, a part of this segment
-- is taken, and the next compaction crashes: the rest of the hole stands at the end of the list, so
-- that the compaction finds no segment behind it.
pub compactar-ocupar_segmento :
    (fuel n tipo pid : ℕ) (m : Memoria) (antes : List Segmento) (s : Segmento)
    (despues : List Segmento)
    → m.listado_segmentos ≡ antes ++ s ∷ despues
    → cantidad_libres antes ≡ 0
    → cantidad_libres despues ≡ 0
    → es_libre s ≡ true
    → s.inicio + s.tamanio < m.tamanio_memoria
    → m.tamanio_memoria < 2147483648
    → n < s.tamanio
    → tipo < 3
    → (m' : Memoria) × (ocupar_segmento m n tipo pid ≡ some (s.inicio, m'))
      × (compactar (suc fuel) m' ≡ abort)
unfolding ocupar_segmento cantidad_libres
compactar-ocupar_segmento fuel n tipo pid m antes s despues list a d free inside small part kind =
    let u = ocupado s n tipo pid in
    let r = segmento_libre ((s.inicio + n) % u32_mod) (sub32 s.tamanio n) in
    let ss = antes ++ u ∷ despues in
    let m' = record m { listado_segmentos = ss ++ r ∷ [] } in
    let taken =
      buscar_segmento_only m.criterio_seleccion m.tamanio_memoria n tipo pid antes s despues a d
        free part inside small in
    let used : es_libre u ≡ false = ground arith in
    let both : cantidad_libres (u ∷ despues) ≡ 0 = rw used (omega arith) in
    let full : cantidad_libres ss ≡ 0 = omega (arith, cantidad_libres-append antes (u ∷ despues)) in
    let short : (r.inicio + r.tamanio) % u32_mod ≢ m.tamanio_memoria = λ e. omega arith in
    (
      m',
      rw (list, taken, ◌>>=◌) refl,
      compactar_last fuel m' ss r refl full refl (omega arith) short,
    )
