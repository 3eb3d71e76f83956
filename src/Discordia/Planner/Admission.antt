-- ===== src/Discordia/Planner/Admission.antt =====
-- Discordia/src/planificador/planificador.c: the moves of whole queues.
use tp_2021_1c_en_c_errados.Prelude.{ℕ, zero, suc, Option, none, some, if◌then◌else◌, ◌>>=◌}
use tp_2021_1c_en_c_errados.Discordia.Crew.{
  tripulante_change_state, tripulante_obtener_proxima_tarea, TripState, ready, exec, block_sabotage,
  Commons,
}
use tp_2021_1c_en_c_errados.Discordia.Planner.{cola, con_cola, encolar, pasar_a, Planificador}
use tp_2021_1c_en_c_errados.Discordia.Queues.{
  ds_queue_mt_is_full, ds_queue_mt_pop, ds_queue_mt_sort_by_lowest_tid, QueueType, queue_new,
  queue_ready, queue_exec, queue_sabotage,
}

-- The loops that pop a queue until it is empty: `n` is its count of elements.
unfoldable pub admitir_nuevos : Commons → ℕ → Planificador → Option Planificador
admitir_nuevos c zero p = some p
admitir_nuevos c (suc n) p = elim (ds_queue_mt_pop (cola queue_new p)) [
  | none ↦ some p
  | some (trip, q) ↦ (do
    let (lista, red) = tripulante_change_state trip ready p.red
    (hay, con_tarea, red') ← tripulante_obtener_proxima_tarea c lista red
    admitir_nuevos c n
        (encolar queue_ready con_tarea (con_cola queue_new q (record p { red = red' }))))
]

unfoldable pub ds_planificador_admit_from_new_to_ready :
    Commons → Planificador → Option Planificador
ds_planificador_admit_from_new_to_ready c p = admitir_nuevos c (cola queue_new p).curr_elements p

unfoldable pub admitir_listos : ℕ → Planificador → Planificador
admitir_listos zero p = p
admitir_listos (suc n) p = elim (ds_queue_mt_pop (cola queue_ready p)) [
  | none ↦ p
  | some (trip, q) ↦
      let siguiente = admitir_listos n (pasar_a exec queue_exec trip (con_cola queue_ready q p)) in
      if ds_queue_mt_is_full (cola queue_exec p) then p else siguiente
]

unfoldable pub ds_planificador_admit_from_ready_to_exec : Planificador → Planificador
ds_planificador_admit_from_ready_to_exec p = admitir_listos (cola queue_ready p).curr_elements p

-- The loops that pop a queue until it is empty and push into another. A NULL is not survived.
unfoldable pub mover_todos :
    QueueType → TripState → QueueType → ℕ → Planificador → Option Planificador
mover_todos desde state hasta zero p = some p
mover_todos desde state hasta (suc n) p = do
  (trip, q) ← ds_queue_mt_pop (cola desde p)
  mover_todos desde state hasta n (pasar_a state hasta trip (con_cola desde q p))

unfoldable pub vaciar : QueueType → TripState → QueueType → Planificador → Option Planificador
vaciar desde state hasta p = mover_todos desde state hasta (cola desde p).curr_elements p

unfoldable pub vaciar_por_tid : Commons → QueueType → Planificador → Option Planificador
vaciar_por_tid c desde p =
    vaciar desde block_sabotage queue_sabotage
      (con_cola desde (ds_queue_mt_sort_by_lowest_tid c (cola desde p)) p)
