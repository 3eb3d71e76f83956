-- ===== src/Discordia/Planner/Device.antt =====
-- The I/O device of Discordia/src/planificador/io.c loses nobody.
use tp_2021_1c_en_c_errados.Prelude.{
  sub32, ℕ, ◌≡◌, refl, ap, ◌∙◌, subst, inl, inr, Option, none, some, arith, ◌==◌, Bool-cases,
  Option-cases, >>=-eq-some, if-both, some_injective,
}
use tp_2021_1c_en_c_errados.Discordia.Crew.{Tarea, ready, Tripulante, Commons}
use tp_2021_1c_en_c_errados.Discordia.Planner.{cola, con_cola, terminar, Planificador}
use tp_2021_1c_en_c_errados.Discordia.Queues.{ds_queue_mt_pop, queue_ready, queue_block}
use tp_2021_1c_en_c_errados.Discordia.Planner.Io.{
  tomar, tomar_bloqueado, mover_tripulante_terminado, manejo_de_io, manejar_actual, ciclo_de_io,
}
use tp_2021_1c_en_c_errados.Discordia.Planner.Moves.{proxima_tarea-tid}
use tp_2021_1c_en_c_errados.Discordia.Planner.Weights.{
  peso_trip, pesos, Debe, Conserva, Conserva-trans, con_cola-Debe, pasar_a-Lleva, terminar-Lleva,
  pasar_a-exec, Orden, es_ready,
}
use tp_2021_1c_en_c_errados.Discordia.Queues.Laws.{pop-Saca}

module _ (n : ℕ) where
  -- What the I/O device does; EXEC is as it was.
  tomar-Conserva :
      (actual : Option Tripulante) (p : Planificador)
      → p.curr_trip ≡ actual
      → Orden n p.colas
      → Conserva n p (tomar actual (ds_queue_mt_pop (cola queue_block p)) p)
        × ((tomar actual (ds_queue_mt_pop (cola queue_block p)) p).colas.exec ≡ p.colas.exec)
  unfolding tomar con_cola peso_trip
  tomar-Conserva (some t) p e o = ((o, λ g. refl), refl)
  tomar-Conserva none p e o = elim (Option-cases (ds_queue_mt_pop (cola queue_block p))) [
    | inl f ↦ rw f ((o, λ g. refl), refl)
    | inr ((t, q), f) ↦
        let s = con_cola-Debe n queue_block p t q o (pop-Saca (cola queue_block p) t q f) in
        rw f (
          (s.0, λ g. let a : peso_trip g p.curr_trip ≡ 0 = rw e refl in omega (arith, s.1 g)),
          refl,
        )
  ]

  mover_tripulante_terminado-Conserva :
      (c : Commons) (t : Tripulante) (tarea : Tarea) (p p' : Planificador)
      → p.curr_trip ≡ some t
      → Orden n p.colas
      → mover_tripulante_terminado c t tarea p ≡ some p'
      → Conserva n p p' × (p'.colas.exec ≡ p.colas.exec)
  unfolding mover_tripulante_terminado peso_trip terminar
  mover_tripulante_terminado-Conserva c t tarea p p' e o h =
      let ((hay, otro, red), f, k) = >>=-eq-some _ _ h in
      let same = proxima_tarea-tid c _ _ hay otro red f in
      let p1 = record p { curr_trip = none; red = red } in
      let owes : Debe n otro.tid (pesos p) p1 = (
        o,
        λ g.
            let a : peso_trip g p.curr_trip ≡ g t.tid = rw e refl in
            let b = ap g same in omega (arith, a, b),
      ) in
      subst (λ x. Conserva n p x × (x.colas.exec ≡ p.colas.exec)) (some_injective k)
        (if-both (λ x. Conserva n p x × (x.colas.exec ≡ p.colas.exec)) hay
          (
            pasar_a-Lleva n ready queue_ready (pesos p) p1 otro es_ready owes,
            pasar_a-exec ready queue_ready otro p1 es_ready,
          )
          (terminar-Lleva n (pesos p) p1 otro owes, refl))

  manejo_de_io-Conserva :
      (c : Commons) (t : Tripulante) (p p' : Planificador)
      → p.curr_trip ≡ some t
      → Orden n p.colas
      → manejo_de_io c t p ≡ some p'
      → Conserva n p p' × (p'.colas.exec ≡ p.colas.exec)
  unfolding manejo_de_io peso_trip
  manejo_de_io-Conserva c t p p' e o h =
      let (tarea, f, k) = >>=-eq-some t.tarea_actual _ h in
      let menos = sub32 tarea.tiempo_bloqueado 1 in
      elim (Bool-cases (menos == 0)) [
        | inl z ↦
            mover_tripulante_terminado-Conserva c t (record tarea { tiempo_bloqueado = menos }) p p'
              e o (simp z at k)
        | inr z ↦
            subst (λ x. Conserva n p x × (x.colas.exec ≡ p.colas.exec))
              (some_injective (simp z at k)) ((o, λ g. rw e refl), refl)
      ]

  manejar_actual-Conserva :
      (c : Commons) (actual : Option Tripulante) (p p' : Planificador)
      → p.curr_trip ≡ actual
      → Orden n p.colas
      → manejar_actual c actual p ≡ some p'
      → Conserva n p p' × (p'.colas.exec ≡ p.colas.exec)
  unfolding manejar_actual
  manejar_actual-Conserva c none p p' e o h =
      subst (λ x. Conserva n p x × (x.colas.exec ≡ p.colas.exec)) (some_injective h)
        ((o, λ g. refl), refl)
  manejar_actual-Conserva c (some t) p p' e o h = manejo_de_io-Conserva c t p p' e o h

  pub ciclo_de_io-Conserva :
      (c : Commons) (p p' : Planificador)
      → Orden n p.colas
      → ciclo_de_io c p ≡ some p'
      → Conserva n p p' × (p'.colas.exec ≡ p.colas.exec)
  unfolding ciclo_de_io tomar_bloqueado
  ciclo_de_io-Conserva c p p' o h = elim (Bool-cases p.esta_en_sabotaje) [
    | inl e ↦
        subst (λ x. Conserva n p x × (x.colas.exec ≡ p.colas.exec)) (some_injective (simp e at h))
          ((o, λ g. refl), refl)
    | inr e ↦
        let p1 = tomar_bloqueado p in
        let (k, a) = tomar-Conserva p.curr_trip p refl o in
        let (k', b) = manejar_actual-Conserva c p1.curr_trip p1 p' refl k.0 (simp e at h) in
        (Conserva-trans n p p1 p' k k', b ∙ a)
  ]
