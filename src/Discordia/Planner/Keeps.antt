-- ===== src/Discordia/Planner/Keeps.antt =====
-- The sabotage and the turn of the loop of Discordia/src/planificador/planificador.c lose nobody.
use tp_2021_1c_en_c_errados.Prelude.{
  ℕ, ◌≡◌, refl, subst, inl, inr, false, not, some, [], arith, ◌==◌, Bool-cases, >>=-eq-some,
  if-both, some_injective,
}
use tp_2021_1c_en_c_errados.Discordia.Crew.{TripState, ready, block_sabotage, Commons}
use tp_2021_1c_en_c_errados.Discordia.Planner.{cola, con_cola, pasar_a, Planificador}
use tp_2021_1c_en_c_errados.Discordia.Queues.{
  tiene_id_menor, ds_queue_mt_sort_by_lowest_tid, QueueType, queue_new, queue_ready, queue_exec,
  queue_block, queue_sabotage,
}
use tp_2021_1c_en_c_errados.Discordia.Planner.Admission.{
  ds_planificador_admit_from_new_to_ready, ds_planificador_admit_from_ready_to_exec, vaciar,
  vaciar_por_tid,
}
use tp_2021_1c_en_c_errados.Discordia.Planner.Cycle.{
  ds_planificador_check_exec_queue, ds_planificador_check_exp_trip_requests, empezar_ciclo,
  terminar_ciclo,
}
use tp_2021_1c_en_c_errados.Discordia.Planner.Moves.{
  admitir_nuevos-Conserva, admitir_listos-Conserva, mover_todos-Conserva,
}
use tp_2021_1c_en_c_errados.Discordia.Planner.Rounds.{ds_algorithm-Conserva}
use tp_2021_1c_en_c_errados.Discordia.Planner.Sabotage.{
  ds_planificador_init_rutina_sabotaje, rutina_bloqueados_sabotaje,
}
use tp_2021_1c_en_c_errados.Discordia.Planner.Searches.{atender_pedidos-Conserva}
use tp_2021_1c_en_c_errados.Discordia.Planner.Weights.{
  pesos, Conserva, Conserva-trans, con_cola-Debe, pasar_a-Lleva, Orden, NoEsExec, es_ready,
  es_sabotage,
}
use tp_2021_1c_en_c_errados.Discordia.Queues.Laws.{pop_by_tid-Saca}
use tp_2021_1c_en_c_errados.Discordia.Queues.Weights.{Perm-suma, Perm-length, Ordena}

module _ (n : ℕ) where
  vaciar-Conserva :
      (desde : QueueType) (state : TripState) (hasta : QueueType) (p p' : Planificador)
      → NoEsExec hasta
      → Orden n p.colas
      → vaciar desde state hasta p ≡ some p'
      → Conserva n p p'
  unfolding vaciar
  vaciar-Conserva desde state hasta p p' ok o h =
      mover_todos-Conserva n desde state hasta (cola desde p).curr_elements p p' ok o h

  -- A queue that is put in another order.
  ordenar-Conserva :
      (c : Commons) (desde : QueueType) (p : Planificador)
      → Ordena c
      → Orden n p.colas
      → Conserva n p (con_cola desde (ds_queue_mt_sort_by_lowest_tid c (cola desde p)) p)
  unfolding con_cola cola ds_queue_mt_sort_by_lowest_tid
  ordenar-Conserva c queue_new p s o = (
    record { libres = o.libres; exec = o.exec; bound = o.bound },
    λ g. omega (arith, Perm-suma g (s.permuta tiene_id_menor p.colas.new.elementos)),
  )
  ordenar-Conserva c queue_ready p s o = (
    record { libres = o.libres; exec = o.exec; bound = o.bound },
    λ g. omega (arith, Perm-suma g (s.permuta tiene_id_menor p.colas.ready.elementos)),
  )
  ordenar-Conserva c queue_exec p s o =
      let perm = s.permuta tiene_id_menor p.colas.exec.elementos in
      (
        record {
          libres = o.libres;
          exec = record {
            justa = omega (arith, Perm-length perm, o.exec.justa);
            cabe = omega (arith, Perm-length perm, o.exec.cabe);
            chica = o.exec.chica;
            alguna = o.exec.alguna;
          };
          bound = o.bound;
        },
        λ g. omega (arith, Perm-suma g perm),
      )
  ordenar-Conserva c queue_block p s o = (
    record { libres = o.libres; exec = o.exec; bound = o.bound },
    λ g. omega (arith, Perm-suma g (s.permuta tiene_id_menor p.colas.block.elementos)),
  )
  ordenar-Conserva c queue_sabotage p s o = (
    record { libres = o.libres; exec = o.exec; bound = o.bound },
    λ g. omega (arith, Perm-suma g (s.permuta tiene_id_menor p.colas.sabotage.elementos)),
  )

  vaciar_por_tid-Conserva :
      (c : Commons) (desde : QueueType) (p p' : Planificador)
      → Ordena c
      → Orden n p.colas
      → vaciar_por_tid c desde p ≡ some p'
      → Conserva n p p'
  unfolding vaciar_por_tid
  vaciar_por_tid-Conserva c desde p p' s o h =
      let p1 = con_cola desde (ds_queue_mt_sort_by_lowest_tid c (cola desde p)) p in
      let sorted = ordenar-Conserva c desde p s o in
      Conserva-trans n p p1 p' sorted
        (vaciar-Conserva desde block_sabotage queue_sabotage p1 p' es_sabotage sorted.0 h)

  pub init_rutina_sabotaje-Conserva :
      (c : Commons) (p p' : Planificador)
      → Ordena c
      → Orden n p.colas
      → ds_planificador_init_rutina_sabotaje c p ≡ some p'
      → Conserva n p p'
  unfolding ds_planificador_init_rutina_sabotaje
  init_rutina_sabotaje-Conserva c p p' s o h =
      let p0 = record p { inicializar_rutina_sabotaje = false } in
      let (p1, e1, h1) = >>=-eq-some (vaciar_por_tid c queue_exec p0) _ h in
      let (p2, e2, h2) = >>=-eq-some (vaciar_por_tid c queue_ready p1) _ h1 in
      let ((t, q), e3, h3) = >>=-eq-some _ _ h2 in
      let k1 = vaciar_por_tid-Conserva c queue_exec p0 p1 s o e1 in
      let k2 = vaciar_por_tid-Conserva c queue_ready p1 p2 s k1.0 e2 in
      let out =
        con_cola-Debe n queue_sabotage p2 t q k2.0
          (pop_by_tid-Saca _ (cola queue_sabotage p2) t q e3) in
      let end =
        pasar_a-Lleva n ready queue_ready (pesos p2) (con_cola queue_sabotage q p2) t es_ready
          out in
      subst (Conserva n p) (some_injective h3) (
        Conserva-trans n p p2 (pasar_a ready queue_ready t (con_cola queue_sabotage q p2))
          (Conserva-trans n p p1 p2 k1 k2) end)

  pub rutina_bloqueados_sabotaje-Conserva :
      (p p' : Planificador)
      → Orden n p.colas
      → rutina_bloqueados_sabotaje p ≡ some p'
      → Conserva n p p'
  unfolding rutina_bloqueados_sabotaje
  rutina_bloqueados_sabotaje-Conserva p p' o h =
      elim (Bool-cases (not (p.tiempo_restante_block_sabo == 0))) [
        | inl e ↦ subst (Conserva n p) (some_injective (simp e at h)) (o, λ g. refl)
        | inr e ↦
            let (p1, f, k) =
              >>=-eq-some (vaciar queue_sabotage ready queue_ready p) _ (simp e at h) in
            subst (Conserva n p) (some_injective k)
              (vaciar-Conserva queue_sabotage ready queue_ready p p1 es_ready o f)
      ]

  pub empezar_ciclo-Conserva :
      (c : Commons) (p p' : Planificador)
      → Ordena c
      → Orden n p.colas
      → empezar_ciclo c p ≡ some p'
      → Conserva n p p'
  unfolding empezar_ciclo ds_planificador_admit_from_new_to_ready
  empezar_ciclo-Conserva c p p' s o =
      if-both (λ x. x ≡ some p' → Conserva n p p') (not p.esta_en_sabotaje)
        (admitir_nuevos-Conserva n c (cola queue_new p).curr_elements p p' o)
        (if-both (λ x. x ≡ some p' → Conserva n p p') p.inicializar_rutina_sabotaje
          (init_rutina_sabotaje-Conserva c p p' s o)
          (λ h. subst (Conserva n p) (some_injective h) (o, λ g. refl)))

  pub admit_from_ready_to_exec-Conserva :
      (p : Planificador)
      → Orden n p.colas
      → Conserva n p (ds_planificador_admit_from_ready_to_exec p)
  unfolding ds_planificador_admit_from_ready_to_exec
  admit_from_ready_to_exec-Conserva p o =
      admitir_listos-Conserva n (cola queue_ready p).curr_elements p o

  pub check_exec_queue-Conserva :
      (p p' : Planificador)
      → Orden n p.colas
      → ds_planificador_check_exec_queue p ≡ some p'
      → Conserva n p p'
  unfolding ds_planificador_check_exec_queue
  check_exec_queue-Conserva p p' o =
      if-both (λ x. x ≡ some p' → Conserva n p p') (not p.manejar_cola_sabotaje)
        (λ h. subst (Conserva n p) (some_injective h) (ds_algorithm-Conserva n p.algorithm p o))
        (rutina_bloqueados_sabotaje-Conserva p p' o)

  pub terminar_ciclo-Conserva :
      (p : Planificador) → Orden n p.colas → Conserva n p (terminar_ciclo p)
  unfolding terminar_ciclo ds_planificador_check_exp_trip_requests
  terminar_ciclo-Conserva p o =
      atender_pedidos-Conserva n p.expulsar_trip_request_queue
        (record p { expulsar_trip_request_queue = [] }) o
