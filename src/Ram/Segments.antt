-- ===== src/Ram/Segments.antt =====
-- The list of segments of Mi-RAM-HQ/src/memoria/esquemas/segmentacion/segmentacion.c: the choice of
-- a free segment, its split, and the step of the compaction. A segment is a record of four
-- uint32_t; `none` is an access through NULL or an index that was never set.
pub mod Fit
pub mod Cover
pub mod Rest
pub mod Split
pub mod Order
pub mod Step
pub mod Packed
use tp_2021_1c_en_c_errados.Prelude.{
  ℕ, zero, suc, ◌+◌, ◌%◌, List, [], ◌∷◌, ◌++◌, Bool, true, false, ◌&&◌, ◌||◌, Option, none, some,
  ◌>>=◌, ◌==◌, ltb, leb, if◌then◌else◌, get_elem?, set, sub32, u32_mod,
}

-- The uint32_t -1: no type and no owner.
abbrev pub menos_uno : ℕ
menos_uno = 4294967295

-- `s_segmento_t`; the type is 0 (patota), 1 (tareas), 2 (tripulante) or -1 (free).
pub record Segmento : Type 0 where
  pub inicio : ℕ
  pub tamanio : ℕ
  pub tipo : ℕ
  pub id_propietario : ℕ

abbrev pub segmento_libre : ℕ → ℕ → Segmento
segmento_libre inicio tamanio = record {
  inicio = inicio;
  tamanio = tamanio;
  tipo = menos_uno;
  id_propietario = menos_uno;
}

unfoldable pub inicializar_listado_segmentos : ℕ → List Segmento
inicializar_listado_segmentos tamanio = segmento_libre 0 tamanio ∷ []

abbrev pub es_libre : Segmento → Bool
es_libre s = s.tipo == menos_uno

unfoldable pub hay_segmento_libre : List Segmento → ℕ → Bool
hay_segmento_libre [] n = false
hay_segmento_libre (s ∷ ss) n = (es_libre s && leb n s.tamanio) || hay_segmento_libre ss n

-- The loop that looks for the free segment of at least `n` bytes with the smallest `clave`: `actual`
-- is the smallest key so far and `hallado` the index that it was found at.
unfoldable pub elegir : (Segmento → ℕ) → List Segmento → ℕ → ℕ → ℕ → Option ℕ → Option ℕ
elegir clave [] n i actual hallado = hallado
elegir clave (s ∷ ss) n i actual hallado =
    let mejora = es_libre s && (leb n s.tamanio && ltb (clave s) actual) in
    elegir clave ss n (suc i) (if mejora then clave s else actual)
      (if mejora then some i else hallado)

-- CRITERIO_SELECCION: "FF", or anything else for best fit.
pub data Criterio : Type 0 where
  first_fit : Criterio
  best_fit : Criterio

abbrev pub clave : Criterio → Segmento → ℕ
clave first_fit s = s.inicio
clave best_fit s = s.tamanio

-- The key that a segment has to beat at first, for a memory of `memoria` bytes.
abbrev pub cota : Criterio → ℕ → ℕ
cota first_fit memoria = memoria
cota best_fit memoria = (memoria + 1) % u32_mod

unfoldable pub indice_elegido : Criterio → ℕ → List Segmento → ℕ → Option ℕ
indice_elegido c memoria segmentos n = elegir (clave c) segmentos n 0 (cota c memoria) none

-- The chosen segment, now taken.
abbrev pub ocupado : Segmento → ℕ → ℕ → ℕ → Segmento
ocupado s n tipo pid = record s {
  tamanio = n;
  tipo = tipo;
  id_propietario = if (tipo == 0) || (tipo == 1) then pid else s.id_propietario;
}

-- What is left of it, a segment of its own unless nothing is.
unfoldable pub resto : Segmento → ℕ → List Segmento
resto s n =
    if s.tamanio == n
    then []
    else segmento_libre ((s.inicio + n) % u32_mod) (sub32 s.tamanio n) ∷ []

-- The start of the segment taken, and the new list.
unfoldable pub buscar_segmento :
    Criterio → ℕ → List Segmento → ℕ → ℕ → ℕ → Option (ℕ × List Segmento)
buscar_segmento c memoria segmentos n tipo pid = do
  i ← indice_elegido c memoria segmentos n
  s ← get_elem? segmentos i
  some (s.inicio, set segmentos i (ocupado s n tipo pid) ++ resto s n)

-- The number of free segments.
unfoldable pub cantidad_libres : List Segmento → ℕ
cantidad_libres [] = 0
cantidad_libres (s ∷ ss) = (if es_libre s then 1 else 0) + cantidad_libres ss

unfoldable pub es_ultimo : ℕ → List Segmento → Bool
es_ultimo memoria [] = false
es_ultimo memoria (s ∷ ss) =
    (((s.inicio + s.tamanio) % u32_mod == memoria) && es_libre s) || es_ultimo memoria ss

unfoldable pub esta_compactado : ℕ → List Segmento → Bool
esta_compactado memoria segmentos = (cantidad_libres segmentos == 1) && es_ultimo memoria segmentos

-- The free segment with the lowest start.
unfoldable pub primer_libre : ℕ → List Segmento → Option ℕ
primer_libre memoria segmentos = elegir (clave first_fit) segmentos 0 0 memoria none

-- `list_remove`, of so-commons-library, on a list whose index is in range.
abbrev pub quitar {ℓ} : {A : Type ℓ} → List A → ℕ → List A
quitar [] i = []
quitar (x ∷ xs) zero = xs
quitar (x ∷ xs) (suc i) = x ∷ quitar xs i

-- What a step of the compaction makes of the list, with the free segment `s` at `i` and `t` behind
-- it: two free segments are joined, and an occupied one changes places with the free one.
unfoldable pub reacomodar : List Segmento → ℕ → Segmento → Segmento → List Segmento
reacomodar segmentos i s t =
    if es_libre t
    then quitar (set segmentos i (record s { tamanio = (s.tamanio + t.tamanio) % u32_mod })) (suc i)
    else set
        (set segmentos i
          (record s { tamanio = t.tamanio; tipo = t.tipo; id_propietario = t.id_propietario }))
        (suc i) (segmento_libre ((s.inicio + t.tamanio) % u32_mod) s.tamanio)
