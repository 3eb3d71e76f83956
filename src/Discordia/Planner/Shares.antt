-- ===== src/Discordia/Planner/Shares.antt =====
-- What `ds_algorithm_fifo` and `ds_algorithm_rr` of Discordia/src/planificador/planificador.c make of
-- EXEC as a whole, outside of a sabotage.
use tp_2021_1c_en_c_errados.Discordia.Crew.{ready, tripulante_change_state, block_io, Tripulante}
use tp_2021_1c_en_c_errados.Prelude.{
  sub32, ℕ, ◌≡◌, refl, sym, ap, ◌∙◌, subst, inl, inr, false, Option, none, some, List, [], ◌∷◌,
  ◌++◌, append_assoc, append-nil, arith, ◌==◌, Bool-cases,
}
use tp_2021_1c_en_c_errados.Discordia.Planner.{
  cola, con_cola, encolar, pasar_a, Algoritmo, fifo, rr, Planificador,
}
use tp_2021_1c_en_c_errados.Discordia.Queues.{
  ds_queue_mt_push, Cola, queue_ready, queue_exec, queue_block,
}
use tp_2021_1c_en_c_errados.Discordia.Planner.Algorithms.{
  bloquear_trip, paso_fifo, paso_rr, Paso, paso_de, con_exec, seguir, recorrer, ds_algorithm,
}
use tp_2021_1c_en_c_errados.Discordia.Queues.Laws.{push-bound}
use tp_2021_1c_en_c_errados.Discordia.Planner.Destinations.{
  Destino, queda, al_io, a_ready, destino, si_queda, si_al_io, si_a_ready, reparto, Repartida,
  Normal,
}

pub push-elementos :
    (q : Cola) (t : Tripulante)
    → q.max_size ≡ 0
    → (ds_queue_mt_push q t).elementos ≡ q.elementos ++ t ∷ []
unfolding ds_queue_mt_push
push-elementos q t e = ground arith

-- The loop over the rest of EXEC, given the loop over one less.
module _ (quantum : ℕ) (hechos ts : List Tripulante) (t : Tripulante) (p : Planificador)
    (ok : Normal quantum p) (d : Tripulante → Destino) (paso : Paso)
    (rest : (antes : List Tripulante) (q : Planificador)
      → Normal quantum q
      → q.colas.exec.elementos ≡ antes ++ ts
      → Repartida d antes ts q (recorrer paso antes ts q)) where
  -- The destinations, with that of the first one known.
  reparto-cons :
      (si : Destino → List Tripulante → List Tripulante) (xs : List Tripulante) (x : Destino)
      → d t ≡ x
      → xs ++ si x (reparto si d ts) ≡ xs ++ reparto si d (t ∷ ts)
  unfolding reparto
  reparto-cons si xs x f = ap (λ y. xs ++ si y (reparto si d ts)) (sym f)

  abbrev Sigue : Option Tripulante × Planificador → Type 0
  Sigue r =
      Repartida d hechos (t ∷ ts) p
        (seguir (λ antes q. recorrer paso antes ts q) hechos ts (cola queue_exec p).curr_elements r)

  sigue_queda :
      (t' : Tripulante)
      → paso t p ≡ (some t', p)
      → d t ≡ queda t'
      → Repartida d hechos (t ∷ ts) p (recorrer paso hechos (t ∷ ts) p)
  unfolding recorrer seguir con_exec con_cola
  sigue_queda t' e f =
      let p1 = con_exec (hechos ++ t' ∷ ts) (cola queue_exec p).curr_elements p in
      let r =
        rest (hechos ++ t' ∷ []) p1
          (record {
            sin_sabotaje = ok.sin_sabotaje;
            mismo_quantum = ok.mismo_quantum;
            block_libre = ok.block_libre;
            ready_libre = ok.ready_libre;
          })
          (sym (append_assoc hechos (t' ∷ []) ts)) in
      subst Sigue (sym e) (record {
        exec =
            r.exec
            ∙ append_assoc hechos (t' ∷ []) (reparto si_queda d ts)
            ∙ reparto-cons si_queda hechos (queda t') f;
        block = r.block ∙ reparto-cons si_al_io p.colas.block.elementos (queda t') f;
        ready = r.ready ∙ reparto-cons si_a_ready p.colas.ready.elementos (queda t') f;
      })

  sigue_io :
      (t' : Tripulante)
      → paso t p ≡ (none, pasar_a block_io queue_block t' p)
      → d t ≡ al_io (record t' { curr_state = block_io })
      → Repartida d hechos (t ∷ ts) p (recorrer paso hechos (t ∷ ts) p)
  unfolding recorrer seguir con_exec con_cola pasar_a encolar cola tripulante_change_state
  sigue_io t' e f =
      let u = record t' { curr_state = block_io } in
      let p1 =
        con_exec (hechos ++ ts) (sub32 (cola queue_exec p).curr_elements 1)
          (pasar_a block_io queue_block t' p) in
      let pushed = push-elementos p.colas.block u ok.block_libre in
      let r =
        rest hechos p1
          (record {
            sin_sabotaje = ok.sin_sabotaje;
            mismo_quantum = ok.mismo_quantum;
            block_libre = push-bound p.colas.block u ∙ ok.block_libre;
            ready_libre = ok.ready_libre;
          })
          refl in
      subst Sigue (sym e) (record {
        exec = r.exec ∙ reparto-cons si_queda hechos (al_io u) f;
        block =
            r.block
            ∙ ap (λ x. x ++ reparto si_al_io d ts) pushed
            ∙ append_assoc p.colas.block.elementos (u ∷ []) (reparto si_al_io d ts)
            ∙ reparto-cons si_al_io p.colas.block.elementos (al_io u) f;
        ready = r.ready ∙ reparto-cons si_a_ready p.colas.ready.elementos (al_io u) f;
      })

  sigue_ready :
      (t' : Tripulante)
      → paso t p ≡ (none, pasar_a ready queue_ready t' p)
      → d t ≡ a_ready (record t' { curr_state = ready })
      → Repartida d hechos (t ∷ ts) p (recorrer paso hechos (t ∷ ts) p)
  unfolding recorrer seguir con_exec con_cola pasar_a encolar cola tripulante_change_state
  sigue_ready t' e f =
      let u = record t' { curr_state = ready } in
      let p1 =
        con_exec (hechos ++ ts) (sub32 (cola queue_exec p).curr_elements 1)
          (pasar_a ready queue_ready t' p) in
      let pushed = push-elementos p.colas.ready u ok.ready_libre in
      let r =
        rest hechos p1
          (record {
            sin_sabotaje = ok.sin_sabotaje;
            mismo_quantum = ok.mismo_quantum;
            block_libre = ok.block_libre;
            ready_libre = push-bound p.colas.ready u ∙ ok.ready_libre;
          })
          refl in
      subst Sigue (sym e) (record {
        exec = r.exec ∙ reparto-cons si_queda hechos (a_ready u) f;
        block = r.block ∙ reparto-cons si_al_io p.colas.block.elementos (a_ready u) f;
        ready =
            r.ready
            ∙ ap (λ x. x ++ reparto si_a_ready d ts) pushed
            ∙ append_assoc p.colas.ready.elementos (u ∷ []) (reparto si_a_ready d ts)
            ∙ reparto-cons si_a_ready p.colas.ready.elementos (a_ready u) f;
      })

-- A step of the algorithm is the destination.
data Camino (paso : Paso) (d : Tripulante → Destino) (t : Tripulante) (p : Planificador)
    : Type 0 where
  por_queda : (t' : Tripulante) → paso t p ≡ (some t', p) → d t ≡ queda t' → Camino paso d t p
  por_io :
      (t' : Tripulante)
      → paso t p ≡ (none, pasar_a block_io queue_block t' p)
      → d t ≡ al_io (record t' { curr_state = block_io })
      → Camino paso d t p
  por_ready :
      (t' : Tripulante)
      → paso t p ≡ (none, pasar_a ready queue_ready t' p)
      → d t ≡ a_ready (record t' { curr_state = ready })
      → Camino paso d t p

paso_de-Camino :
    (a : Algoritmo) (quantum : ℕ) (t : Tripulante) (p : Planificador)
    → Normal quantum p
    → Camino (paso_de a) (destino a quantum) t p
unfolding paso_de paso_fifo paso_rr bloquear_trip
paso_de-Camino fifo quantum t p ok = elim (Bool-cases t.bloquear) [
  | inl e ↦ por_io (record t { bloquear = false }) (simp (e, ok.sin_sabotaje)) (simp e)
  | inr e ↦ por_queda t (simp e) (simp e)
]
paso_de-Camino rr quantum t p ok = elim (Bool-cases t.bloquear) [
  | inl e ↦
      por_io (record t { bloquear = false; quatum = quantum })
        (simp (e, ok.sin_sabotaje, ok.mismo_quantum)) (simp e)
  | inr e ↦ elim (Bool-cases (sub32 t.quatum 1 == 0)) [
    | inl z ↦
        por_ready (record t { quatum = quantum }) (simp (e, z, ok.mismo_quantum)) (simp (e, z))
    | inr z ↦ por_queda (record t { quatum = sub32 t.quatum 1 }) (simp (e, z)) (simp (e, z))
  ]
]

recorrer_lem :
    (a : Algoritmo) (quantum : ℕ) (hechos ts : List Tripulante) (p : Planificador)
    → Normal quantum p
    → p.colas.exec.elementos ≡ hechos ++ ts
    → Repartida (destino a quantum) hechos ts p (recorrer (paso_de a) hechos ts p)
unfolding recorrer reparto
recorrer_lem a quantum hechos [] p ok e = record {
  exec = e;
  block = sym (append-nil p.colas.block.elementos);
  ready = sym (append-nil p.colas.ready.elementos);
}
recorrer_lem a quantum hechos (t ∷ ts) p ok e =
    let d = destino a quantum in
    let rest = λ (antes : List Tripulante) (q : Planificador). recorrer_lem a quantum antes ts q in
    elim (paso_de-Camino a quantum t p ok) [
      | por_queda t' f g ↦ sigue_queda quantum hechos ts t p ok d (paso_de a) rest t' f g
      | por_io t' f g ↦ sigue_io quantum hechos ts t p ok d (paso_de a) rest t' f g
      | por_ready t' f g ↦ sigue_ready quantum hechos ts t p ok d (paso_de a) rest t' f g
    ]

-- Outside of a sabotage, with READY and BLOCK without a bound, either algorithm leaves in EXEC those
-- that stay, in their order, and puts the others in their order behind those in BLOCK or in READY.
pub ds_algorithm_lem :
    (a : Algoritmo) (p : Planificador)
    → Normal p.quantum p
    → Repartida (destino a p.quantum) [] p.colas.exec.elementos p (ds_algorithm a p)
unfolding ds_algorithm cola
ds_algorithm_lem a p ok = recorrer_lem a p.quantum [] p.colas.exec.elementos p ok refl
