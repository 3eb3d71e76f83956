-- ===== src/Ram/Tables.antt =====
-- The tables of the patotas, Mi-RAM-HQ/src/memoria/esquemas/segmentacion/segmentacion.h, and the
-- searches of segmentacion.c in them.
pub mod Search
use tp_2021_1c_en_c_errados.Prelude.{
  ℕ, zero, suc, List, [], ◌∷◌, Bool, true, false, Option, none, some, ◌>>=◌, ◌==◌, if◌then◌else◌,
  get_elem?, set,
}
use tp_2021_1c_en_c_errados.Ram.Segments.{Segmento, menos_uno}

pub record SegmentoTripulante : Type 0 where
  pub tid : ℕ
  pub inicio_segmento_tcb : ℕ
  pub tamanio_segmento_tcb : ℕ

pub record SegmentoPatota : Type 0 where
  pub inicio_segmento_pcb : ℕ
  pub tamanio_segmento_pcb : ℕ
  pub inicio_segmento_tareas : ℕ
  pub tamanio_segmento_tareas : ℕ
  pub listado_tripulantes : List SegmentoTripulante

-- The list `tabla_segmentos` always has exactly one element, which stands here for it.
pub record PatotaYTabla : Type 0 where
  pub pid : ℕ
  pub tabla_segmentos : SegmentoPatota

-- The index in a list with one more element in front, which passes the test or not.
abbrev pub un_indice_mas : Bool → Option ℕ → Option ℕ
un_indice_mas pasa (some i) = some (suc i)
un_indice_mas true none = some 0
un_indice_mas false none = none

-- The loop that keeps the index of the last element that passes a test.
unfoldable pub ultimo_indice {ℓ} : {A : Type ℓ} → (A → Bool) → List A → Option ℕ
ultimo_indice test [] = none
ultimo_indice test (x ∷ xs) = un_indice_mas (test x) (ultimo_indice test xs)

-- The loop that keeps the smallest index.
unfoldable pub primer_indice {ℓ} : {A : Type ℓ} → (A → Bool) → List A → Option ℕ
primer_indice test [] = none
primer_indice test (x ∷ xs) =
    let rest = primer_indice test xs in if test x then some 0 else rest >>= λ i. some (suc i)

-- The last element that passes, with its index; `none` is the access through NULL when none does.
unfoldable pub buscar_ultimo {ℓ} : {A : Type ℓ} → (A → Bool) → List A → Option (ℕ × A)
buscar_ultimo test xs = do i ← ultimo_indice test xs; x ← get_elem? xs i; some (i, x)

abbrev pub buscar_patota : List PatotaYTabla → ℕ → Option (ℕ × PatotaYTabla)
buscar_patota patotas pid = buscar_ultimo (λ p. p.pid == pid) patotas

abbrev pub buscar_tripulante : List SegmentoTripulante → ℕ → Option (ℕ × SegmentoTripulante)
buscar_tripulante tripulantes tid = buscar_ultimo (λ t. t.tid == tid) tripulantes

-- The crew of a patota, replaced in the table.
abbrev pub con_tripulantes : PatotaYTabla → List SegmentoTripulante → PatotaYTabla
con_tripulantes p tripulantes = record p {
  tabla_segmentos = record p.tabla_segmentos { listado_tripulantes = tripulantes };
}

-- The last segment that starts at an address is freed.
unfoldable pub liberar : List Segmento → ℕ → Option (List Segmento)
liberar segmentos inicio = do
  (k, s) ← buscar_ultimo (λ s. s.inicio == inicio) segmentos
  some (set segmentos k (record s { tipo = menos_uno; id_propietario = menos_uno }))
