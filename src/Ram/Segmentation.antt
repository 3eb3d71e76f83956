-- ===== src/Ram/Segmentation.antt =====
-- The state of Mi-RAM-HQ/src/memoria/esquemas/segmentacion/segmentacion.c, a step of its compaction,
-- and what a new patota writes. `none` is an access through NULL or outside of the memory.
use tp_2021_1c_en_c_errados.Prelude.{
  none, ℕ, suc, ◌+◌, ◌*◌, ◌%◌, ◌^◌, List, [], ◌∷◌, map, Bool, Option, some, ◌>>=◌, ◌==◌, ltb,
  if◌then◌else◌, get_elem?, set, length, u32_mod, le32, c_string,
}
use tp_2021_1c_en_c_errados.Prelude.Run.{Run, undefined, or_abort}
use tp_2021_1c_en_c_errados.Ram.Segments.{
  Segmento, es_libre, Criterio, inicializar_listado_segmentos, buscar_segmento, primer_libre,
  reacomodar,
}
use tp_2021_1c_en_c_errados.Ram.Tables.{
  SegmentoTripulante, PatotaYTabla, buscar_patota, con_tripulantes,
}
use tp_2021_1c_en_c_errados.Ram.Physical.{mover, poner_todo}

-- The global variables and the configuration. `espacio_libre` is an int, as its 32 bits.
pub record Memoria : Type 0 where
  pub tamanio_memoria : ℕ
  pub criterio_seleccion : Criterio
  pub listado_segmentos : List Segmento
  pub espacio_libre : ℕ
  pub mfisica : List ℕ
  pub listado_patotas : List PatotaYTabla

-- `segmentacion_memoria_init`, with the bytes that malloc hands out.
unfoldable pub memoria_init : Criterio → List ℕ → Memoria
memoria_init criterio bytes = record {
  tamanio_memoria = length bytes;
  criterio_seleccion = criterio;
  listado_segmentos = inicializar_listado_segmentos (length bytes);
  espacio_libre = length bytes;
  mfisica = bytes;
  listado_patotas = [];
}

-- Every slot of a crew with the tid moves to the address `libre`.
unfoldable pub mover_tripulantes :
    List ℕ → List SegmentoTripulante → ℕ → ℕ → Option (List ℕ × List SegmentoTripulante)
mover_tripulantes mfisica [] tid libre = some (mfisica, [])
mover_tripulantes mfisica (t ∷ ts) tid libre = do
  (movida, movido) ←
      if t.tid == tid
      then (do
        movida ← mover mfisica libre t.inicio_segmento_tcb t.tamanio_segmento_tcb
        some (movida, record t { inicio_segmento_tcb = libre }))
      else some (mfisica, t)
  (final, resto) ← mover_tripulantes movida ts tid libre
  some (final, movido ∷ resto)

unfoldable pub mover_patotas :
    List ℕ → List PatotaYTabla → ℕ → ℕ → Option (List ℕ × List PatotaYTabla)
mover_patotas mfisica [] tid libre = some (mfisica, [])
mover_patotas mfisica (p ∷ ps) tid libre = do
  (movida, tripulantes) ← mover_tripulantes mfisica p.tabla_segmentos.listado_tripulantes tid libre
  (final, resto) ← mover_patotas movida ps tid libre
  some (final, con_tripulantes p tripulantes ∷ resto)

-- The bytes of the occupied segment `t` move to `libre`, and the tables follow.
unfoldable pub actualizar_estructura_y_memoria :
    List ℕ → List PatotaYTabla → ℕ → Segmento → Option (List ℕ × List PatotaYTabla)
actualizar_estructura_y_memoria mfisica patotas libre t =
    if t.tipo == 0
    then (do
      (i, p) ← buscar_patota patotas t.id_propietario
      let tabla = p.tabla_segmentos
      movida ← mover mfisica libre tabla.inicio_segmento_pcb tabla.tamanio_segmento_pcb
      some (
        movida,
        set patotas i (record p { tabla_segmentos = record tabla { inicio_segmento_pcb = libre } }),
      ))
    else if t.tipo == 1
    then (do
      (i, p) ← buscar_patota patotas t.id_propietario
      let tabla = p.tabla_segmentos
      movida ← mover mfisica libre tabla.inicio_segmento_tareas tabla.tamanio_segmento_tareas
      some (
        movida,
        set patotas i
            (record p { tabla_segmentos = record tabla { inicio_segmento_tareas = libre } }),
      ))
    else if t.tipo == 2
    then mover_patotas mfisica patotas t.id_propietario libre
    else some (mfisica, patotas)

-- `segmentacion_reasignar_segmento` from the read of `indice` on.
unfoldable pub reasignar_desde : Memoria → ℕ → Option Memoria
reasignar_desde m i = do
  s ← get_elem? m.listado_segmentos i
  t ← get_elem? m.listado_segmentos (suc i)
  (movida, patotas) ←
      if es_libre t
      then some (m.mfisica, m.listado_patotas)
      else actualizar_estructura_y_memoria m.mfisica m.listado_patotas s.inicio t
  some (record m {
    listado_segmentos = reacomodar m.listado_segmentos i s t;
    mfisica = movida;
    listado_patotas = patotas;
  })

-- Where no segment is free, `indice` is read without having been set.
unfoldable pub reasignar_en : Memoria → Option ℕ → Run Memoria
reasignar_en m none = undefined
reasignar_en m (some i) = or_abort (reasignar_desde m i)

unfoldable pub reasignar_segmento : Memoria → Run Memoria
reasignar_segmento m = reasignar_en m (primer_libre m.tamanio_memoria m.listado_segmentos)

-- The free segment that is chosen is taken.
unfoldable pub ocupar_segmento : Memoria → ℕ → ℕ → ℕ → Option (ℕ × Memoria)
ocupar_segmento m n tipo pid = do
  (inicio, segmentos) ←
      buscar_segmento m.criterio_seleccion m.tamanio_memoria m.listado_segmentos n tipo pid
  some (inicio, record m { listado_segmentos = segmentos })

unfoldable pub agregar_patota_en_memoria : Memoria → ℕ → List ℕ → Option Memoria
agregar_patota_en_memoria m pid tareas = do
  (_, p) ← buscar_patota m.listado_patotas pid
  let tabla = p.tabla_segmentos
  con_pcb ← poner_todo m.mfisica tabla.inicio_segmento_pcb (le32 pid ∷ le32 0 ∷ [])
  escrita ← poner_todo con_pcb tabla.inicio_segmento_tareas (map (λ c. c ∷ []) (c_string tareas))
  some (record m { mfisica = escrita })

-- `a > b` for two ints given by their 32 bits.
abbrev pub int_mayor : ℕ → ℕ → Bool
int_mayor a b = ltb ((b + 2 ^ 31) % u32_mod) ((a + 2 ^ 31) % u32_mod)

-- `tamanio_data`, an int.
abbrev pub tamanio_data : ℕ → ℕ → ℕ
tamanio_data cant tam_tareas = (8 + 21 * cant % u32_mod + tam_tareas) % u32_mod
