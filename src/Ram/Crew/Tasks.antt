-- ===== src/Ram/Crew/Tasks.antt =====
-- The next task of a crew member, of
-- Mi-RAM-HQ/src/memoria/esquemas/segmentacion/segmentacion.c.
use tp_2021_1c_en_c_errados.Prelude.{
  ℕ, ◌+◌, ◌%◌, ◌≡◌, refl, List, some, ◌>>=◌, get_elem?, u32_mod, c_string, IsText, strlen-c_string,
  take-append, length, ◌∷◌, [],
}
use tp_2021_1c_en_c_errados.Ram.Segmentation.{Memoria}
use tp_2021_1c_en_c_errados.Ram.Crew.{Tripulante, obtener_proxima_tarea, obtener_tareas_de_patota}
use tp_2021_1c_en_c_errados.Ram.Crew.Tcb.{Guardado}
use tp_2021_1c_en_c_errados.Ram.Crew.Updates.{obtener_y_actualizar_proxima_tarea-Guardado}

-- For a stored crew member of a patota whose tasks are stored, the answer is the task that its TCB
-- numbers, of those that the text is split into, or NULL when there are no more; the number in the
-- TCB is one more afterwards, modulo 2^32.
pub obtener_proxima_tarea_lem :
    (string_split : List ℕ → List (List ℕ)) (m : Memoria) (a : ℕ) (info : Tripulante)
    (tareas : List ℕ)
    → Guardado m a info
    → obtener_tareas_de_patota m info.pid ≡ some (c_string tareas)
    → IsText tareas
    → (m' : Memoria) × (obtener_proxima_tarea string_split m info.pid info.tid
        ≡ some (get_elem? (string_split tareas) info.proxima_tarea, m'))
      × Guardado m' a (record info { proxima_tarea = (info.proxima_tarea + 1) % u32_mod })
unfolding obtener_proxima_tarea
obtener_proxima_tarea_lem string_split m a info tareas g stored text =
    let (m', e, h) = obtener_y_actualizar_proxima_tarea-Guardado m a info g in
    (
      m',
      rw
          (
            stored,
            ◌>>=◌,
            e,
            strlen-c_string tareas text,
            take-append (length tareas) tareas (0 ∷ []) refl,
          )
          refl,
      h,
    )
