-- ===== src/Discordia/Planner/Weights.antt =====
-- Where the crew members of Discordia/src/planificador/planificador.c are, added up: the five
-- queues, the I/O device, and those that were told to end.
use tp_2021_1c_en_c_errados.Discordia.Crew.{
  exec, tripulante_change_state, tripulante_terminate, TripState, Tripulante,
}
use tp_2021_1c_en_c_errados.Prelude.{
  suma, suma-append, ℕ, ◌+◌, ◌≤◌, ◌<◌, ◌≡◌, refl, ◌∙◌, inl, inr, Option, none, some, [], ◌∷◌, arith,
  length,
}
use tp_2021_1c_en_c_errados.Discordia.Planner.{
  cola, con_cola, encolar, pasar_a, terminar, Planificador,
}
use tp_2021_1c_en_c_errados.Discordia.Queues.{
  Cola, QueueType, queue_new, queue_ready, queue_exec, queue_block, queue_sabotage, Colas,
}
use tp_2021_1c_en_c_errados.Discordia.Queues.Laws.{
  push-suma, push-bound, push-EnCuenta, EnCuenta, Saca,
}
use tp_2021_1c_en_c_errados.Discordia.Queues.Weights.{suma_tid}

unfoldable pub peso_trip : (ℕ → ℕ) → Option Tripulante → ℕ
peso_trip g none = 0
peso_trip g (some t) = g t.tid

abbrev pub peso_colas : (ℕ → ℕ) → Colas → ℕ
peso_colas g q =
    suma_tid g q.new.elementos
    + suma_tid g q.ready.elementos
    + suma_tid g q.exec.elementos
    + suma_tid g q.block.elementos
    + suma_tid g q.sabotage.elementos

abbrev pub peso : (ℕ → ℕ) → Planificador → ℕ
peso g p = peso_colas g p.colas + peso_trip g p.curr_trip + suma_tid g p.terminados

-- EXEC holds at most `n` and counts them; the other queues have no bound.
abbrev pub SinTope : Colas → Type 0
SinTope q =
    (q.new.max_size ≡ 0)
    × (q.ready.max_size ≡ 0)
    × (q.block.max_size ≡ 0)
    × (q.sabotage.max_size ≡ 0)

pub record Orden (n : ℕ) (q : Colas) : Type 0 where
  pub libres : SinTope q
  pub exec : EnCuenta q.exec
  pub bound : q.exec.max_size ≡ n

abbrev pub Peso : Type 0
Peso = (ℕ → ℕ) → ℕ

abbrev pub pesos : Planificador → Peso
pesos p g = peso g p

-- The weight of the state is `w`, or `w` without one crew member of tid `k`.
abbrev pub Lleva : ℕ → Peso → Planificador → Type 0
Lleva n w p = Orden n p.colas × ((g : ℕ → ℕ) → peso g p ≡ w g)

abbrev pub Debe : ℕ → ℕ → Peso → Planificador → Type 0
Debe n k w p = Orden n p.colas × ((g : ℕ → ℕ) → peso g p + g k ≡ w g)

-- The state `p'` has the crew members of `p`.
abbrev pub Conserva : ℕ → Planificador → Planificador → Type 0
Conserva n p p' = Lleva n (pesos p) p'

pub Conserva-trans :
    (n : ℕ) (p p' p'' : Planificador) → Conserva n p p' → Conserva n p' p'' → Conserva n p p''
Conserva-trans n p p' p'' (_, a) (o, b) = (o, λ g. b g ∙ a g)

-- A queue other than EXEC takes any crew member.
pub data NoEsExec : QueueType → Type 0 where
  es_new : NoEsExec queue_new
  es_ready : NoEsExec queue_ready
  es_block : NoEsExec queue_block
  es_sabotage : NoEsExec queue_sabotage

pub con_cola-Debe :
    (n : ℕ) (tipo : QueueType) (p : Planificador) (t : Tripulante) (q : Cola)
    → Orden n p.colas
    → Saca (cola tipo p) t q
    → Debe n t.tid (pesos p) (con_cola tipo q p)
unfolding cola con_cola
con_cola-Debe n queue_new p t q o s = (
  record { libres = omega (arith, s.bound, o.libres); exec = o.exec; bound = o.bound },
  λ g. omega (arith, s.peso g),
)
con_cola-Debe n queue_ready p t q o s = (
  record { libres = omega (arith, s.bound, o.libres); exec = o.exec; bound = o.bound },
  λ g. omega (arith, s.peso g),
)
con_cola-Debe n queue_exec p t q o s = (
  record { libres = o.libres; exec = s.cuenta o.exec; bound = s.bound ∙ o.bound },
  λ g. omega (arith, s.peso g),
)
con_cola-Debe n queue_block p t q o s = (
  record { libres = omega (arith, s.bound, o.libres); exec = o.exec; bound = o.bound },
  λ g. omega (arith, s.peso g),
)
con_cola-Debe n queue_sabotage p t q o s = (
  record { libres = omega (arith, s.bound, o.libres); exec = o.exec; bound = o.bound },
  λ g. omega (arith, s.peso g),
)

pub encolar-Lleva :
    (n : ℕ) (tipo : QueueType) (w : Peso) (p : Planificador) (t : Tripulante)
    → NoEsExec tipo
    → Debe n t.tid w p
    → Lleva n w (encolar tipo t p)
unfolding encolar cola con_cola
encolar-Lleva n queue_new w p t es_new (o, h) = (
  record {
    libres = omega (arith, push-bound p.colas.new t, o.libres);
    exec = o.exec;
    bound = o.bound;
  },
  λ g. omega (arith, h g, push-suma g p.colas.new t (inl o.libres.0)),
)
encolar-Lleva n queue_ready w p t es_ready (o, h) = (
  record {
    libres = omega (arith, push-bound p.colas.ready t, o.libres);
    exec = o.exec;
    bound = o.bound;
  },
  λ g. omega (arith, h g, push-suma g p.colas.ready t (inl o.libres.1)),
)
encolar-Lleva n queue_block w p t es_block (o, h) = (
  record {
    libres = omega (arith, push-bound p.colas.block t, o.libres);
    exec = o.exec;
    bound = o.bound;
  },
  λ g. omega (arith, h g, push-suma g p.colas.block t (inl o.libres.2)),
)
encolar-Lleva n queue_sabotage w p t es_sabotage (o, h) = (
  record {
    libres = omega (arith, push-bound p.colas.sabotage t, o.libres);
    exec = o.exec;
    bound = o.bound;
  },
  λ g. omega (arith, h g, push-suma g p.colas.sabotage t (inl o.libres.3)),
)
encolar-Lleva n queue_exec w p t never _ = elim never [ ]

-- EXEC takes one where it is not full.
pub encolar_exec-Lleva :
    (n : ℕ) (w : Peso) (p : Planificador) (t : Tripulante)
    → Debe n t.tid w p
    → p.colas.exec.curr_elements < n
    → Lleva n w (encolar queue_exec t p)
unfolding encolar cola con_cola
encolar_exec-Lleva n w p t (o, h) room =
    let low : p.colas.exec.curr_elements < p.colas.exec.max_size = omega (arith, o.bound) in
    (
      record {
        libres = o.libres;
        exec = (push-EnCuenta p.colas.exec t o.exec low).0;
        bound = push-bound p.colas.exec t ∙ o.bound;
      },
      λ g. omega (arith, h g, push-suma g p.colas.exec t (inr low)),
    )

pub pasar_a-Lleva :
    (n : ℕ) (state : TripState) (tipo : QueueType) (w : Peso) (p : Planificador) (t : Tripulante)
    → NoEsExec tipo
    → Debe n t.tid w p
    → Lleva n w (pasar_a state tipo t p)
unfolding pasar_a tripulante_change_state
pasar_a-Lleva n state tipo w p t ok h =
    encolar-Lleva n tipo w (record p { red = (tripulante_change_state t state p.red).1 })
      (tripulante_change_state t state p.red).0 ok h

pub pasar_a_exec-Lleva :
    (n : ℕ) (w : Peso) (p : Planificador) (t : Tripulante)
    → Debe n t.tid w p
    → p.colas.exec.curr_elements < n
    → Lleva n w (pasar_a exec queue_exec t p)
unfolding pasar_a tripulante_change_state
pasar_a_exec-Lleva n w p t h room =
    encolar_exec-Lleva n w (record p { red = (tripulante_change_state t exec p.red).1 })
      (tripulante_change_state t exec p.red).0 h room

pub terminar-Lleva :
    (n : ℕ) (w : Peso) (p : Planificador) (t : Tripulante)
    → Debe n t.tid w p
    → Lleva n w (terminar t p)
unfolding terminar tripulante_terminate suma
terminar-Lleva n w p t (o, h) = (
  o,
  λ g.
      let s = suma-append (λ t. g t.tid) p.terminados ((tripulante_terminate t p.red).0 ∷ []) in
      omega (arith, h g, s),
)

-- EXEC does not grow.
abbrev pub Achica : Planificador → Planificador → Type 0
Achica p p' = length p'.colas.exec.elementos ≤ length p.colas.exec.elementos

pub con_cola-Achica :
    (tipo : QueueType) (p : Planificador) (t : Tripulante) (q : Cola)
    → Saca (cola tipo p) t q
    → Achica p (con_cola tipo q p)
unfolding cola con_cola
con_cola-Achica queue_new p t q s = omega arith
con_cola-Achica queue_ready p t q s = omega arith
con_cola-Achica queue_exec p t q s = omega (arith, s.largo)
con_cola-Achica queue_block p t q s = omega arith
con_cola-Achica queue_sabotage p t q s = omega arith

pub pasar_a-exec :
    (state : TripState) (tipo : QueueType) (t : Tripulante) (p : Planificador)
    → NoEsExec tipo
    → (pasar_a state tipo t p).colas.exec ≡ p.colas.exec
unfolding pasar_a encolar cola con_cola tripulante_change_state
pasar_a-exec state queue_new t p es_new = refl
pasar_a-exec state queue_ready t p es_ready = refl
pasar_a-exec state queue_exec t p never = elim never [ ]
pasar_a-exec state queue_block t p es_block = refl
pasar_a-exec state queue_sabotage t p es_sabotage = refl
