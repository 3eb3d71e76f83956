-- ===== src/Ram/Allocation.antt =====
-- The compaction and the start of a patota, of
-- Mi-RAM-HQ/src/memoria/esquemas/segmentacion/segmentacion.c. The loop of the compaction need not
-- end and has fuel.
pub mod Slots
pub mod Move
pub mod Compaction
pub mod Reserve
pub mod Patota
pub mod Start
pub mod Cut
pub mod Refused
use tp_2021_1c_en_c_errados.Prelude.{
  ℕ, zero, suc, ◌+◌, ◌*◌, ◌%◌, List, [], ◌∷◌, ◌++◌, Bool, true, false, if◌then◌else◌, length, sub32,
  u32_mod,
}
use tp_2021_1c_en_c_errados.Prelude.Run.{Run, done, stuck, or_abort, ◌>>=◌}
use tp_2021_1c_en_c_errados.Ram.Segments.{menos_uno, hay_segmento_libre, esta_compactado}
use tp_2021_1c_en_c_errados.Ram.Tables.{SegmentoTripulante, PatotaYTabla}
use tp_2021_1c_en_c_errados.Ram.Segmentation.{
  Memoria, reasignar_segmento, ocupar_segmento, agregar_patota_en_memoria, int_mayor, tamanio_data,
}

unfoldable pub compactar : ℕ → Memoria → Run Memoria
compactar zero m = stuck
compactar (suc fuel) m =
    if esta_compactado m.tamanio_memoria m.listado_segmentos
    then done m
    else (reasignar_segmento m >>= compactar fuel)

-- A segment of `n` bytes, after a compaction when no free segment is large enough.
unfoldable pub obtener_segmento : ℕ → Memoria → ℕ → ℕ → ℕ → Run (ℕ × Memoria)
obtener_segmento fuel m n tipo pid = do
  con_lugar ← if hay_segmento_libre m.listado_segmentos n then done m else compactar fuel m
  or_abort (ocupar_segmento con_lugar n tipo pid)

abbrev pub nuevo_slot : ℕ → SegmentoTripulante
nuevo_slot inicio = record {
  tid = menos_uno;
  inicio_segmento_tcb = inicio;
  tamanio_segmento_tcb = 21;
}

-- The loop over the crew. Its list is not in the tables before the segments are all there.
unfoldable pub obtener_tripulantes : ℕ → Memoria → ℕ → ℕ → Run (List SegmentoTripulante × Memoria)
obtener_tripulantes fuel m pid zero = done ([], m)
obtener_tripulantes fuel m pid (suc cant) = do
  (inicio, con) ← obtener_segmento fuel m 21 2 pid
  (slots, final) ← obtener_tripulantes fuel con pid cant
  done (nuevo_slot inicio ∷ slots, final)

abbrev pub nueva_patota : ℕ → ℕ → ℕ → ℕ → ℕ → List SegmentoTripulante → PatotaYTabla
nueva_patota pid inicio_pcb tamanio_pcb inicio_tareas tamanio_tareas slots = record {
  pid = pid;
  tabla_segmentos = record {
    inicio_segmento_pcb = inicio_pcb;
    tamanio_segmento_pcb = tamanio_pcb;
    inicio_segmento_tareas = inicio_tareas;
    tamanio_segmento_tareas = tamanio_tareas;
    listado_tripulantes = slots;
  };
}

unfoldable pub obtener_segmentos : ℕ → Memoria → ℕ → ℕ → ℕ → ℕ → Run Memoria
obtener_segmentos fuel m pid tamanio_pcb tamanio_tareas cant = do
  (slots, con_slots) ← obtener_tripulantes fuel m pid cant
  (inicio_tareas, con_tareas) ← obtener_segmento fuel con_slots tamanio_tareas 1 pid
  (inicio_pcb, con_pcb) ← obtener_segmento fuel con_tareas tamanio_pcb 0 pid
  done (record con_pcb {
    listado_patotas =
        con_pcb.listado_patotas
        ++ nueva_patota pid inicio_pcb tamanio_pcb inicio_tareas tamanio_tareas slots ∷ [];
    espacio_libre =
        sub32 (sub32 (sub32 con_pcb.espacio_libre tamanio_pcb) tamanio_tareas)
          (21 * cant % u32_mod);
  })

-- `segmentacion_memoria_inicializar_patota`, for tasks of less than 2^31 characters.
unfoldable pub inicializar_patota : ℕ → Memoria → ℕ → ℕ → List ℕ → Run (Bool × Memoria)
inicializar_patota fuel m pid cant tareas =
    if int_mayor (tamanio_data cant (length tareas + 1)) m.espacio_libre
    then done (false, m)
    else (do
      con_segmentos ← obtener_segmentos fuel m pid 8 (length tareas + 1) cant
      escrita ← or_abort (agregar_patota_en_memoria con_segmentos pid tareas)
      done (true, escrita))
