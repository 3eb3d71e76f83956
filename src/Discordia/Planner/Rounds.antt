-- ===== src/Discordia/Planner/Rounds.antt =====
-- The algorithms, the sabotage and the I/O device of Discordia/src/planificador lose nobody.
use tp_2021_1c_en_c_errados.Prelude.{
  suma, suma-append, sub32, ℕ, ◌+◌, ◌≤◌, ◌≡◌, refl, sym, ap, ◌∙◌, ◌⊎◌, inl, inr, false, not, none,
  some, List, [], ◌∷◌, ◌++◌, append_assoc, arith, ◌==◌, Bool-cases, if-both, length, length-append,
}
use tp_2021_1c_en_c_errados.Discordia.Crew.{TripState, ready, block_io, block_sabotage, Tripulante}
use tp_2021_1c_en_c_errados.Discordia.Planner.{
  cola, con_cola, pasar_a, Algoritmo, fifo, rr, Planificador,
}
use tp_2021_1c_en_c_errados.Discordia.Queues.{
  QueueType, queue_ready, queue_exec, queue_block, queue_sabotage,
}
use tp_2021_1c_en_c_errados.Discordia.Planner.Algorithms.{
  bloquear_trip, paso_fifo, paso_rr, Paso, paso_de, con_exec, recorrer, ds_algorithm,
}
use tp_2021_1c_en_c_errados.Discordia.Planner.Weights.{
  peso, Peso, pesos, Lleva, Conserva, Conserva-trans, pasar_a-Lleva, pasar_a-exec, Orden, NoEsExec,
  es_ready, es_block, es_sabotage,
}
use tp_2021_1c_en_c_errados.Discordia.Queues.Weights.{suma_tid}

-- A crew member that leaves EXEC is in another queue; one that stays is the same.
abbrev pub Sale : ℕ → Tripulante → Planificador → Planificador → Type 0
Sale n t p p' = Lleva n (λ g. peso g p + g t.tid) p' × (p'.colas.exec ≡ p.colas.exec)

abbrev pub Reparte : ℕ → Paso → Type 0
Reparte n paso =
    (t : Tripulante) (p : Planificador)
    → Orden n p.colas
    → ((p' : Planificador) × (paso t p ≡ (none, p')) × Sale n t p p')
      ⊎ ((t' : Tripulante) × (paso t p ≡ (some t', p)) × (t'.tid ≡ t.tid))

module _ (n : ℕ) where
  pasar_a-Sale :
      (state : TripState) (tipo : QueueType) (t : Tripulante) (p : Planificador)
      → NoEsExec tipo
      → Orden n p.colas
      → Sale n t p (pasar_a state tipo t p)
  pasar_a-Sale state tipo t p ok o = (
    pasar_a-Lleva n state tipo (λ g. peso g p + g t.tid) p t ok (o, λ g. refl),
    pasar_a-exec state tipo t p ok,
  )

  bloquear_trip-Sale :
      (t : Tripulante) (p : Planificador) → Orden n p.colas → Sale n t p (bloquear_trip t p)
  unfolding bloquear_trip
  bloquear_trip-Sale t p o =
      if-both (Sale n t p) (not p.esta_en_sabotaje)
        (pasar_a-Sale block_io queue_block t p es_block o)
        (pasar_a-Sale block_sabotage queue_sabotage t p es_sabotage o)

  paso_fifo-Reparte : Reparte n paso_fifo
  unfolding paso_fifo
  paso_fifo-Reparte t p o = elim (Bool-cases t.bloquear) [
    | inl e ↦ inl (
      bloquear_trip (record t { bloquear = false }) p,
      simp e,
      bloquear_trip-Sale (record t { bloquear = false }) p o,
    )
    | inr e ↦ inr (t, simp e, refl)
  ]

  paso_rr-Reparte : Reparte n paso_rr
  unfolding paso_rr
  paso_rr-Reparte t p o = elim (Bool-cases t.bloquear) [
    | inl e ↦ inl (
      bloquear_trip (record t { bloquear = false; quatum = p.quantum }) p,
      simp e,
      bloquear_trip-Sale (record t { bloquear = false; quatum = p.quantum }) p o,
    )
    | inr e ↦ elim (Bool-cases (sub32 t.quatum 1 == 0)) [
      | inl z ↦ inl (
        pasar_a ready queue_ready (record t { quatum = p.quantum }) p,
        simp (e, z),
        pasar_a-Sale ready queue_ready (record t { quatum = p.quantum }) p es_ready o,
      )
      | inr z ↦ inr (record t { quatum = sub32 t.quatum 1 }, simp (e, z), refl)
    ]
  ]

  pub paso_de-Reparte : (a : Algoritmo) → Reparte n (paso_de a)
  unfolding paso_de
  paso_de-Reparte fifo = paso_fifo-Reparte
  paso_de-Reparte rr = paso_rr-Reparte

-- EXEC with other elements.
con_exec-Lleva :
    (n : ℕ) (w : Peso) (p : Planificador) (xs : List Tripulante) (k : ℕ)
    → Orden n p.colas
    → k ≡ length xs
    → length xs ≤ n
    → ((g : ℕ → ℕ) → peso g p + suma_tid g xs ≡ w g + suma_tid g p.colas.exec.elementos)
    → Lleva n w (con_exec xs k p)
unfolding con_exec con_cola cola
con_exec-Lleva n w p xs k o e low h = (
  record {
    libres = o.libres;
    exec = record {
      justa = e;
      cabe = omega (arith, o.bound);
      chica = o.exec.chica;
      alguna = o.exec.alguna;
    };
    bound = o.bound;
  },
  λ g. omega (arith, h g),
)

con_exec-elementos :
    (xs : List Tripulante) (k : ℕ) (p : Planificador) → (con_exec xs k p).colas.exec.elementos ≡ xs
unfolding con_exec con_cola
con_exec-elementos xs k p = refl

module _ (n : ℕ) (hechos : List Tripulante) (t : Tripulante) (ts : List Tripulante)
    (p : Planificador) (o : Orden n p.colas) (e : p.colas.exec.elementos ≡ hechos ++ t ∷ ts) where
  Sale-uno :
      (p' : Planificador)
      → Sale n t p p'
      → Conserva n p (con_exec (hechos ++ ts) (sub32 (cola queue_exec p).curr_elements 1) p')
  unfolding cola suma
  Sale-uno p' ((o', h), same) =
      let full : length p.colas.exec.elementos ≡ length (hechos ++ t ∷ ts) = ap length e in
      let before = length-append hechos (t ∷ ts) in
      let after = length-append hechos ts in
      con_exec-Lleva n (pesos p) p' (hechos ++ ts) (sub32 p.colas.exec.curr_elements 1) o'
        (omega (arith, o.exec.justa, o.exec.cabe, o.exec.chica))
        (omega (arith, o.exec.cabe, o.bound))
        λ g.
          let a = suma-append (λ t. g t.tid) hechos (t ∷ ts) in
          let b = suma-append (λ t. g t.tid) hechos ts in
          let c : suma_tid g p.colas.exec.elementos ≡ suma_tid g (hechos ++ t ∷ ts) =
            ap (suma_tid g) e in
          let d : suma_tid g p'.colas.exec.elementos ≡ suma_tid g p.colas.exec.elementos =
            ap (λ q. suma_tid g q.elementos) same in
          omega (arith, h g)

  queda_uno :
      (t' : Tripulante)
      → t'.tid ≡ t.tid
      → Conserva n p (con_exec (hechos ++ t' ∷ ts) (cola queue_exec p).curr_elements p)
  unfolding cola suma
  queda_uno t' tid =
      let full : length p.colas.exec.elementos ≡ length (hechos ++ t ∷ ts) = ap length e in
      let before = length-append hechos (t ∷ ts) in
      let after = length-append hechos (t' ∷ ts) in
      con_exec-Lleva n (pesos p) p (hechos ++ t' ∷ ts) p.colas.exec.curr_elements o
        (omega (arith, o.exec.justa)) (omega (arith, o.exec.cabe, o.bound))
        λ g.
          let a = suma-append (λ t. g t.tid) hechos (t ∷ ts) in
          let b = suma-append (λ t. g t.tid) hechos (t' ∷ ts) in
          let c : suma_tid g p.colas.exec.elementos ≡ suma_tid g (hechos ++ t ∷ ts) =
            ap (suma_tid g) e in
          let d : g t'.tid ≡ g t.tid = ap g tid in omega arith

module _ (n : ℕ) (paso : Paso) (ok : Reparte n paso) where
  pub recorrer-Conserva :
      (hechos ts : List Tripulante) (p : Planificador)
      → Orden n p.colas
      → p.colas.exec.elementos ≡ hechos ++ ts
      → Conserva n p (recorrer paso hechos ts p)
  unfolding recorrer suma
  recorrer-Conserva hechos [] p o e = (o, λ g. refl)
  recorrer-Conserva hechos (t ∷ ts) p o e =
      let curr = (cola queue_exec p).curr_elements in
      elim (ok t p o) [
        | inl (p', f, sale) ↦
            let p1 = con_exec (hechos ++ ts) (sub32 curr 1) p' in
            let moved = Sale-uno n hechos t ts p o e p' sale in
            rw f (
              Conserva-trans n p p1 (recorrer paso hechos ts p1) moved
                (recorrer-Conserva hechos ts p1 moved.0 (con_exec-elementos (hechos ++ ts) _ p')))
        | inr (t', f, tid) ↦
            let p1 = con_exec (hechos ++ t' ∷ ts) curr p in
            let moved = queda_uno n hechos t ts p o e t' tid in
            rw f (
              Conserva-trans n p p1 (recorrer paso (hechos ++ t' ∷ []) ts p1) moved (
                recorrer-Conserva (hechos ++ t' ∷ []) ts p1 moved.0 (
                  con_exec-elementos (hechos ++ t' ∷ ts) _ p
                  ∙ sym (append_assoc hechos (t' ∷ []) ts))))
      ]

pub ds_algorithm-Conserva :
    (n : ℕ) (a : Algoritmo) (p : Planificador) → Orden n p.colas → Conserva n p (ds_algorithm a p)
unfolding ds_algorithm cola
ds_algorithm-Conserva n a p o =
    recorrer-Conserva n (paso_de a) (paso_de-Reparte n a) [] p.colas.exec.elementos p o refl
