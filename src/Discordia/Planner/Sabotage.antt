-- ===== src/Discordia/Planner/Sabotage.antt =====
-- Discordia/src/planificador/planificador.c: the start and the end of a sabotage.
use tp_2021_1c_en_c_errados.Prelude.{
  u32_mod, sub32, ℕ, ◌+◌, ◌%◌, false, not, Option, some, List, [], ◌∷◌, ltb, ◌==◌, if◌then◌else◌,
  ◌>>=◌,
}
use tp_2021_1c_en_c_errados.Discordia.Crew.{ready, Tripulante, Commons}
use tp_2021_1c_en_c_errados.Discordia.Planner.{cola, con_cola, pasar_a, Planificador}
use tp_2021_1c_en_c_errados.Discordia.Queues.{
  ds_queue_mt_pop_by_tid, queue_ready, queue_exec, queue_sabotage,
}
use tp_2021_1c_en_c_errados.Discordia.Planner.Admission.{vaciar, vaciar_por_tid}

-- The distance wraps around, and the tid is 0 where none is below 0xffffffff.
unfoldable pub distancia_trip : ℕ → Tripulante → ℕ
distancia_trip unificado trip = sub32 unificado ((trip.pos.x + trip.pos.y) % u32_mod)

unfoldable pub mas_cercano : ℕ → List Tripulante → ℕ → ℕ → ℕ
mas_cercano unificado [] pos_minima tid = tid
mas_cercano unificado (t ∷ ts) pos_minima tid =
    let d = distancia_trip unificado t in
    let mejor = ltb d pos_minima in
    mas_cercano unificado ts (if mejor then d else pos_minima) (if mejor then t.tid else tid)

unfoldable pub ds_planificador_init_rutina_sabotaje : Commons → Planificador → Option Planificador
ds_planificador_init_rutina_sabotaje c p = do
  let unificado = (p.sabotaje_pos.x + p.sabotaje_pos.y) % u32_mod
  sin_exec ← vaciar_por_tid c queue_exec (record p { inicializar_rutina_sabotaje = false })
  sin_ready ← vaciar_por_tid c queue_ready sin_exec
  let tid = mas_cercano unificado (cola queue_sabotage sin_ready).elementos 0xffffffff 0
  (elegido, q) ← ds_queue_mt_pop_by_tid (cola queue_sabotage sin_ready) tid
  some (pasar_a ready queue_ready elegido (con_cola queue_sabotage q sin_ready))

unfoldable pub rutina_bloqueados_sabotaje : Planificador → Option Planificador
rutina_bloqueados_sabotaje p =
    if not (p.tiempo_restante_block_sabo == 0)
    then some (record p { tiempo_restante_block_sabo = sub32 p.tiempo_restante_block_sabo 1 })
    else (do
      p' ← vaciar queue_sabotage ready queue_ready p
      some (record p' { manejar_cola_sabotaje = false; esta_en_sabotaje = false }))
