-- ===== src/Discordia/Planner/Io.antt =====
-- Discordia/src/planificador/io.c: the I/O device.
use tp_2021_1c_en_c_errados.Prelude.{sub32, true, Option, none, some, ◌==◌, if◌then◌else◌, ◌>>=◌}
use tp_2021_1c_en_c_errados.Discordia.Crew.{
  avisar, tripulante_obtener_proxima_tarea, Tarea, ready, Tripulante, Commons, finalizar_tarea,
}
use tp_2021_1c_en_c_errados.Discordia.Planner.{cola, con_cola, pasar_a, terminar, Planificador}
use tp_2021_1c_en_c_errados.Discordia.Queues.{ds_queue_mt_pop, Cola, queue_ready, queue_block}

-- The I/O device, `io_init` of io.c: it takes the first of BLOCK when it has none.
unfoldable pub tomar : Option Tripulante → Option (Tripulante × Cola) → Planificador → Planificador
tomar (some t) primero p = p
tomar none none p = p
tomar none (some (t, q)) p = con_cola queue_block q (record p { curr_trip = some t })

unfoldable pub tomar_bloqueado : Planificador → Planificador
tomar_bloqueado p = tomar p.curr_trip (ds_queue_mt_pop (cola queue_block p)) p

unfoldable pub mover_tripulante_terminado :
    Commons → Tripulante → Tarea → Planificador → Option Planificador
mover_tripulante_terminado c trip tarea p = do
  let hecho = record trip { tarea_actual = some (record tarea { is_finished = true }) }
  (hay, otro, red') ←
      tripulante_obtener_proxima_tarea c hecho (avisar (finalizar_tarea trip.tid tarea.tarea) p.red)
  let sin_trip = record p { curr_trip = none; red = red' }
  some (if hay then pasar_a ready queue_ready otro sin_trip else terminar otro sin_trip)

unfoldable pub manejo_de_io : Commons → Tripulante → Planificador → Option Planificador
manejo_de_io c trip p = do
  tarea ← trip.tarea_actual
  let restante = sub32 tarea.tiempo_bloqueado 1
  let con_menos_tiempo = record tarea { tiempo_bloqueado = restante }
  if restante == 0
      then mover_tripulante_terminado c trip con_menos_tiempo p
      else some
          (record p { curr_trip = some (record trip { tarea_actual = some con_menos_tiempo }) })

unfoldable pub manejar_actual : Commons → Option Tripulante → Planificador → Option Planificador
manejar_actual c none p = some p
manejar_actual c (some trip) p = manejo_de_io c trip p

unfoldable pub ciclo_de_io : Commons → Planificador → Option Planificador
ciclo_de_io c p =
    let con_trip = tomar_bloqueado p in
    if p.esta_en_sabotaje then some p else manejar_actual c con_trip.curr_trip con_trip
