-- ===== src/Discordia/Planner/Searches.antt =====
-- `ds_planificador_find_and_terminate_trip` of Discordia/src/planificador/planificador.c: the search
-- of a crew member in one queue after the other.
use tp_2021_1c_en_c_errados.Prelude.{
  ℕ, ◌≡◌, refl, inl, inr, Option, none, some, List, [], ◌∷◌, arith, ◌==◌, Bool-cases, Option-cases,
  if-both,
}
use tp_2021_1c_en_c_errados.Discordia.Crew.{Tripulante}
use tp_2021_1c_en_c_errados.Discordia.Planner.{
  cola, con_cola, terminar, find_and_terminate_from, find_and_terminate_from_block,
  io_find_and_terminate, io_find_and_terminate_from_block, ds_planificador_find_and_terminate_trip,
  ds_planificador_eliminar_tripulante, Planificador,
}
use tp_2021_1c_en_c_errados.Discordia.Queues.{
  sacar_de, QueueType, queue_new, queue_ready, queue_exec, queue_block, queue_sabotage,
}
use tp_2021_1c_en_c_errados.Discordia.Planner.Cycle.{atender_pedidos}
use tp_2021_1c_en_c_errados.Discordia.Planner.Weights.{
  peso_trip, pesos, Conserva, Conserva-trans, con_cola-Debe, terminar-Lleva, Achica,
  con_cola-Achica, Orden,
}
use tp_2021_1c_en_c_errados.Discordia.Queues.Laws.{sacar_de-Saca}

-- No crew member is lost by the search, and EXEC does not grow.
abbrev pub Busca : ℕ → (ℕ → Planificador → Planificador) → Type 0
Busca n f =
    (tid : ℕ) (p : Planificador) → Orden n p.colas → Conserva n p (f tid p) × Achica p (f tid p)

module _ (n : ℕ) where
  find_and_terminate_from-Busca :
      (tipo : QueueType) (otro : ℕ → Planificador → Planificador)
      → Busca n otro
      → Busca n (find_and_terminate_from tipo otro)
  unfolding find_and_terminate_from terminar
  find_and_terminate_from-Busca tipo otro h tid p o =
      elim (Option-cases (sacar_de tid (cola tipo p))) [
        | inl e ↦ rw (e, find_and_terminate_from) (h tid p o)
        | inr ((t, q), e) ↦
            let s = sacar_de-Saca tid (cola tipo p) t q e in
            rw (e, find_and_terminate_from)
              (
                terminar-Lleva n (pesos p) (con_cola tipo q p) t (con_cola-Debe n tipo p t q o s),
                con_cola-Achica tipo p t q s,
              )
      ]

  find_and_terminate_from_block-Busca : Busca n find_and_terminate_from_block
  unfolding find_and_terminate_from_block
  find_and_terminate_from_block-Busca =
      find_and_terminate_from-Busca queue_block (λ _ p. p)
        (λ tid p o. ((o, λ g. refl), omega arith))

  io_find_and_terminate-Busca :
      (actual : Option Tripulante) (tid : ℕ) (p : Planificador)
      → p.curr_trip ≡ actual
      → Orden n p.colas
      → Conserva n p (io_find_and_terminate actual tid p)
        × Achica p (io_find_and_terminate actual tid p)
  unfolding io_find_and_terminate peso_trip terminar
  io_find_and_terminate-Busca none tid p e o = find_and_terminate_from_block-Busca tid p o
  io_find_and_terminate-Busca (some t) tid p e o = elim (Bool-cases (t.tid == tid)) [
    | inl igual ↦ rw igual (
      terminar-Lleva n (pesos p) (record p { curr_trip = none }) t (o, λ g. rw e (omega arith)),
      omega arith,
    )
    | inr otro ↦ rw otro (find_and_terminate_from_block-Busca tid p o)
  ]

  pub find_and_terminate_trip-Busca : Busca n ds_planificador_find_and_terminate_trip
  unfolding ds_planificador_find_and_terminate_trip io_find_and_terminate_from_block
  find_and_terminate_trip-Busca = find_and_terminate_from-Busca queue_new _ (
      find_and_terminate_from-Busca queue_ready _ (
        find_and_terminate_from-Busca queue_exec _ (
          find_and_terminate_from-Busca queue_sabotage _
            (λ tid p o. io_find_and_terminate-Busca p.curr_trip tid p refl o))))

  pub eliminar-Busca : Busca n ds_planificador_eliminar_tripulante
  unfolding ds_planificador_eliminar_tripulante
  eliminar-Busca tid p o =
      if-both (λ x. Conserva n p x × Achica p x) p.pause (find_and_terminate_trip-Busca tid p o)
        ((o, λ g. refl), omega arith)

  pub atender_pedidos-Conserva :
      (tids : List ℕ) (p : Planificador) → Orden n p.colas → Conserva n p (atender_pedidos tids p)
  unfolding atender_pedidos
  atender_pedidos-Conserva [] p o = (o, λ g. refl)
  atender_pedidos-Conserva (tid ∷ tids) p o =
      let p' = ds_planificador_find_and_terminate_trip tid p in
      let h = (find_and_terminate_trip-Busca tid p o).0 in
      Conserva-trans n p p' (atender_pedidos tids p') h (atender_pedidos-Conserva tids p' h.0)
