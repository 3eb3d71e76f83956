-- ===== src/Discordia/Planner/Moves.antt =====
-- The moves of whole queues of Discordia/src/planificador/planificador.c lose nobody.
use tp_2021_1c_en_c_errados.Prelude.{
  ℕ, zero, suc, ◌<◌, ◌≡◌, refl, sym, ap, inl, inr, Bool, false, some, arith, Bool-cases,
  Option-cases, >>=-eq-some, some_injective,
}
use tp_2021_1c_en_c_errados.Discordia.Crew.{
  parsear_tarea, tripulante_change_state, tripulante_obtener_proxima_tarea, TripState, ready, exec,
  Tripulante, Commons, Red,
}
use tp_2021_1c_en_c_errados.Discordia.Planner.{cola, con_cola, encolar, pasar_a, Planificador}
use tp_2021_1c_en_c_errados.Discordia.Queues.{
  ds_queue_mt_is_full, ds_queue_mt_pop, Cola, QueueType, queue_new, queue_ready, queue_exec,
}
use tp_2021_1c_en_c_errados.Discordia.Planner.Admission.{
  admitir_nuevos, admitir_listos, mover_todos,
}
use tp_2021_1c_en_c_errados.Discordia.Planner.Weights.{
  pesos, Debe, Conserva, Conserva-trans, con_cola-Debe, encolar-Lleva, pasar_a-Lleva,
  pasar_a_exec-Lleva, Orden, NoEsExec, es_ready,
}
use tp_2021_1c_en_c_errados.Discordia.Queues.Laws.{pop-Saca}

-- The next task does not change whose it is.
pub proxima_tarea-tid :
    (c : Commons) (t : Tripulante) (red : Red) (hay : Bool) (t' : Tripulante) (red' : Red)
    → tripulante_obtener_proxima_tarea c t red ≡ some (hay, t', red')
    → t'.tid ≡ t.tid
unfolding tripulante_obtener_proxima_tarea
proxima_tarea-tid c t red hay t' red' h =
    let (tarea, _, k) = >>=-eq-some (parsear_tarea c _) _ h in
    sym (ap (λ x. x.1.tid) (some_injective k))

-- EXEC has room where it is not full, also after a change of READY.
hay_lugar :
    (n : ℕ) (p : Planificador) (q : Cola)
    → Orden n p.colas
    → ds_queue_mt_is_full (cola queue_exec p) ≡ false
    → (con_cola queue_ready q p).colas.exec.curr_elements < n
unfolding ds_queue_mt_is_full cola con_cola
hay_lugar n p q o f =
    let e = p.colas.exec in
    let a = o.exec.alguna in
    let b = o.exec.justa in let d = o.exec.cabe in let k = o.bound in ground arith

module _ (n : ℕ) where
  -- A new crew member gets a task, and goes to READY.
  admitir_uno-Conserva :
      (c : Commons) (p : Planificador) (t : Tripulante) (q : Cola) (hay : Bool) (t' : Tripulante)
      (red : Red)
      → Debe n t.tid (pesos p) (con_cola queue_new q p)
      → tripulante_obtener_proxima_tarea c
          (tripulante_change_state t ready p.red).0
          (tripulante_change_state t ready p.red).1
        ≡ some (hay, t', red)
      → Conserva n p (encolar queue_ready t' (con_cola queue_new q (record p { red = red })))
  unfolding con_cola tripulante_change_state
  admitir_uno-Conserva c p t q hay t' red (o, h) f =
      let lista = (tripulante_change_state t ready p.red).0 in
      let aviso = (tripulante_change_state t ready p.red).1 in
      let same : t'.tid ≡ t.tid = proxima_tarea-tid c lista aviso hay t' red f in
      encolar-Lleva n queue_ready (pesos p) (con_cola queue_new q (record p { red = red })) t'
        es_ready (o, λ g. let e = ap g same in omega (arith, h g))

  pub admitir_nuevos-Conserva :
      (c : Commons) (k : ℕ) (p p' : Planificador)
      → Orden n p.colas
      → admitir_nuevos c k p ≡ some p'
      → Conserva n p p'
  unfolding admitir_nuevos
  admitir_nuevos-Conserva c zero p p' o h = rw (← some_injective h) (o, λ g. refl)
  admitir_nuevos-Conserva c (suc k) p p' o h =
      elim (Option-cases (ds_queue_mt_pop (cola queue_new p))) [
        | inl e ↦ rw (← some_injective (rw (e, admitir_nuevos) at h)) (o, λ g. refl)
        | inr ((t, q), e) ↦
            let s = con_cola-Debe n queue_new p t q o (pop-Saca (cola queue_new p) t q e) in
            let ((hay, t', red), f, rest) = >>=-eq-some _ _ (rw (e, admitir_nuevos) at h) in
            let moved = admitir_uno-Conserva c p t q hay t' red s f in
            let p1 = encolar queue_ready t' (con_cola queue_new q (record p { red = red })) in
            Conserva-trans n p p1 p' moved (admitir_nuevos-Conserva c k p1 p' moved.0 rest)
      ]

  pub admitir_listos-Conserva :
      (k : ℕ) (p : Planificador) → Orden n p.colas → Conserva n p (admitir_listos k p)
  unfolding admitir_listos
  admitir_listos-Conserva zero p o = (o, λ g. refl)
  admitir_listos-Conserva (suc k) p o = elim (Option-cases (ds_queue_mt_pop (cola queue_ready p))) [
    | inl e ↦ rw (e, admitir_listos) (o, λ g. refl)
    | inr ((t, q), e) ↦ elim (Bool-cases (ds_queue_mt_is_full (cola queue_exec p))) [
      | inl f ↦ rw (e, f, admitir_listos) (o, λ g. refl)
      | inr f ↦
          let p1 = con_cola queue_ready q p in
          let s = con_cola-Debe n queue_ready p t q o (pop-Saca (cola queue_ready p) t q e) in
          let room = hay_lugar n p q o f in
          let moved = pasar_a_exec-Lleva n (pesos p) p1 t s room in
          let p2 = pasar_a exec queue_exec t p1 in
          rw (e, f, admitir_listos)
            (Conserva-trans n p p2 (admitir_listos k p2) moved
              (admitir_listos-Conserva k p2 moved.0))
    ]
  ]

  pub mover_todos-Conserva :
      (desde : QueueType) (state : TripState) (hasta : QueueType) (k : ℕ) (p p' : Planificador)
      → NoEsExec hasta
      → Orden n p.colas
      → mover_todos desde state hasta k p ≡ some p'
      → Conserva n p p'
  unfolding mover_todos
  mover_todos-Conserva desde state hasta zero p p' ok o h = rw (← some_injective h) (o, λ g. refl)
  mover_todos-Conserva desde state hasta (suc k) p p' ok o h =
      let ((t, q), e, rest) = >>=-eq-some (ds_queue_mt_pop (cola desde p)) _ h in
      let s = con_cola-Debe n desde p t q o (pop-Saca (cola desde p) t q e) in
      let p1 = con_cola desde q p in
      let moved = pasar_a-Lleva n state hasta (pesos p) p1 t ok s in
      let p2 = pasar_a state hasta t p1 in
      Conserva-trans n p p2 p' moved
        (mover_todos-Conserva desde state hasta k p2 p' ok moved.0 rest)
