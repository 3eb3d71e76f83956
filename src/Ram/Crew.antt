-- ===== src/Ram/Crew.antt =====
-- The crew members in the memory: the operations of
-- Mi-RAM-HQ/src/memoria/esquemas/segmentacion/segmentacion.c on a tripulante, and the dump. `none`
-- is an access through NULL or outside of the memory.
pub mod Tcb
pub mod Updates
pub mod Expel
pub mod Tasks
use tp_2021_1c_en_c_errados.Prelude.{
  ℕ, suc, ◌+◌, ◌%◌, List, [], ◌∷◌, ◌++◌, map, Bool, true, ◌&&◌, ◌||◌, not, Option, some, ◌>>=◌,
  ◌==◌, if◌then◌else◌, get_elem?, set, u32_mod, le32, un32, copy_from, strlen, take,
}
use tp_2021_1c_en_c_errados.Ram.Segments.{Segmento, menos_uno, quitar}
use tp_2021_1c_en_c_errados.Ram.Tables.{
  SegmentoTripulante, PatotaYTabla, buscar_patota, buscar_tripulante, con_tripulantes,
  primer_indice, liberar,
}
use tp_2021_1c_en_c_errados.Ram.Physical.{poner, poner_todo, tcb, leer32}
use tp_2021_1c_en_c_errados.Ram.Segmentation.{Memoria}
use tp_2021_1c_en_c_errados.Protocol.Fields.{Pos}

-- Where the TCB of a crew member starts.
unfoldable pub direccion_tcb : Memoria → ℕ → ℕ → Option ℕ
direccion_tcb m pid tid = do
  (_, p) ← buscar_patota m.listado_patotas pid
  (_, t) ← buscar_tripulante p.tabla_segmentos.listado_tripulantes tid
  some t.inicio_segmento_tcb

abbrev pub asignar : ℕ → ℕ → Segmento → Segmento
asignar inicio tid s = if s.inicio == inicio then record s { id_propietario = tid } else s

-- `segmentacion_memoria_inicializar_tripulante`: the first slot of the patota without a tid.
unfoldable pub inicializar_tripulante : Memoria → ℕ → ℕ → Pos → Option Memoria
inicializar_tripulante m pid tid pos = do
  (i, p) ← buscar_patota m.listado_patotas pid
  let tripulantes = p.tabla_segmentos.listado_tripulantes
  k ← primer_indice (λ t. t.tid == menos_uno) tripulantes
  t ← get_elem? tripulantes k
  escrita ← poner_todo m.mfisica t.inicio_segmento_tcb (tcb tid pos)
  some (record m {
    listado_patotas =
        set m.listado_patotas i (con_tripulantes p (set tripulantes k (record t { tid = tid })));
    listado_segmentos = map (asignar t.inicio_segmento_tcb tid) m.listado_segmentos;
    mfisica = escrita;
  })

unfoldable pub actualizar_posicion_tripulante : Memoria → ℕ → ℕ → Pos → Option Memoria
actualizar_posicion_tripulante m pid tid pos = do
  inicio ← direccion_tcb m pid tid
  con_x ← poner m.mfisica (inicio + 5) (le32 pos.x)
  con_y ← poner con_x (inicio + 9) (le32 pos.y)
  some (record m { mfisica = con_y })

unfoldable pub actualizar_estado_tripulante : Memoria → ℕ → ℕ → ℕ → Option Memoria
actualizar_estado_tripulante m pid tid estado = do
  inicio ← direccion_tcb m pid tid
  escrita ← poner m.mfisica (inicio + 4) (estado ∷ [])
  some (record m { mfisica = escrita })

unfoldable pub obtener_tareas_de_patota : Memoria → ℕ → Option (List ℕ)
obtener_tareas_de_patota m pid = do
  (_, p) ← buscar_patota m.listado_patotas pid
  copy_from m.mfisica p.tabla_segmentos.inicio_segmento_tareas
      p.tabla_segmentos.tamanio_segmento_tareas

-- The number of the next task, which is then one more.
unfoldable pub obtener_y_actualizar_proxima_tarea : Memoria → ℕ → ℕ → Option (ℕ × Memoria)
obtener_y_actualizar_proxima_tarea m pid tid = do
  inicio ← direccion_tcb m pid tid
  proxima ← leer32 m.mfisica (inicio + 13)
  escrita ← poner m.mfisica (inicio + 13) (le32 ((proxima + 1) % u32_mod))
  some (proxima, record m { mfisica = escrita })

module _ (string_split : List ℕ → List (List ℕ)) where
  -- `segmentacion_memoria_obtener_proxima_tarea`: the inner none is the answer NULL. The tasks are
  -- split at the ends of lines by so-commons-library.
  unfoldable pub obtener_proxima_tarea : Memoria → ℕ → ℕ → Option (Option (List ℕ) × Memoria)
  obtener_proxima_tarea m pid tid = do
    todas ← obtener_tareas_de_patota m pid
    (numero, con) ← obtener_y_actualizar_proxima_tarea m pid tid
    largo ← strlen todas
    some (get_elem? (string_split (take largo todas)) numero, con)

-- `tripulantes_t`, without the address of the PCB, which is never set.
pub record Tripulante : Type 0 where
  pub pid : ℕ
  pub tid : ℕ
  pub pos : Pos
  pub estado : ℕ
  pub proxima_tarea : ℕ

unfoldable pub obtener_tcb : Memoria → ℕ → ℕ → Option Tripulante
obtener_tcb m pid tid = do
  inicio ← direccion_tcb m pid tid
  estado ← copy_from m.mfisica (inicio + 4) 1
  letra ← get_elem? estado 0
  x ← leer32 m.mfisica (inicio + 5)
  y ← leer32 m.mfisica (inicio + 9)
  proxima ← leer32 m.mfisica (inicio + 13)
  some (record {
    pid = pid;
    tid = tid;
    pos = record { x = x; y = y };
    estado = letra;
    proxima_tarea = proxima;
  })

unfoldable pub tripulantes_de : Memoria → ℕ → List SegmentoTripulante → Option (List Tripulante)
tripulantes_de m pid [] = some []
tripulantes_de m pid (t ∷ ts) =
    let rest = tripulantes_de m pid ts in
    if t.tid == menos_uno
    then rest
    else (do info ← obtener_tcb m pid t.tid; infos ← rest; some (info ∷ infos))

unfoldable pub tripulantes_de_patotas : Memoria → List PatotaYTabla → Option (List Tripulante)
tripulantes_de_patotas m [] = some []
tripulantes_de_patotas m (p ∷ ps) = do
  infos ← tripulantes_de m p.pid p.tabla_segmentos.listado_tripulantes
  rest ← tripulantes_de_patotas m ps
  some (infos ++ rest)

unfoldable pub obtener_todos_los_tripulantes : Memoria → Option (List Tripulante)
obtener_todos_los_tripulantes m = tripulantes_de_patotas m m.listado_patotas

-- `tripulantes_expulsados == tamanio_lista_tripulantes`
unfoldable pub todos_expulsados : List SegmentoTripulante → Bool
todos_expulsados [] = true
todos_expulsados (t ∷ ts) = (t.tid == menos_uno) && todos_expulsados ts

abbrev pub slot_libre : SegmentoTripulante
slot_libre = record {
  tid = menos_uno;
  inicio_segmento_tcb = menos_uno;
  tamanio_segmento_tcb = menos_uno;
}

-- A crew member is gone from the patota `p`, at `i`, and its slot is free: with its last crew member
-- the patota goes too.
unfoldable pub despedir :
    Memoria → ℕ → PatotaYTabla → List SegmentoTripulante → List Segmento → Option Memoria
despedir m i p tripulantes segmentos =
    let tabla = p.tabla_segmentos in
    if todos_expulsados tripulantes
    then (do
      sin_pcb ← liberar segmentos tabla.inicio_segmento_pcb
      sin_tareas ← liberar sin_pcb tabla.inicio_segmento_tareas
      some (record m {
        listado_segmentos = sin_tareas;
        listado_patotas = quitar m.listado_patotas i;
        espacio_libre = (m.espacio_libre + 21 + (8 + tabla.tamanio_segmento_tareas)) % u32_mod;
      }))
    else some (record m {
      listado_segmentos = segmentos;
      listado_patotas = set m.listado_patotas i (con_tripulantes p tripulantes);
      espacio_libre = (m.espacio_libre + 21) % u32_mod;
    })

-- `segmentacion_memoria_expulsar_tripulante`
unfoldable pub expulsar_tripulante : Memoria → ℕ → ℕ → Option Memoria
expulsar_tripulante m pid tid = do
  (i, p) ← buscar_patota m.listado_patotas pid
  (k, t) ← buscar_tripulante p.tabla_segmentos.listado_tripulantes tid
  sin_tcb ← liberar m.listado_segmentos t.inicio_segmento_tcb
  despedir m i p (set p.tabla_segmentos.listado_tripulantes k slot_libre) sin_tcb
