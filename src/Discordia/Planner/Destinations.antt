-- ===== src/Discordia/Planner/Destinations.antt =====
-- What FIFO and RR of Discordia/src/planificador/planificador.c mean for a crew member of EXEC: the
-- queue where it goes, and what a round makes of the queues.
use tp_2021_1c_en_c_errados.Discordia.Crew.{ready, block_io, Tripulante}
use tp_2021_1c_en_c_errados.Prelude.{sub32, ℕ, ◌≡◌, false, List, [], ◌∷◌, ◌++◌, ◌==◌, if◌then◌else◌}
use tp_2021_1c_en_c_errados.Discordia.Planner.{Algoritmo, fifo, rr, Planificador}

-- Where a crew member of EXEC goes.
pub data Destino : Type 0 where
  queda : Tripulante → Destino
  al_io : Tripulante → Destino
  a_ready : Tripulante → Destino

-- With FIFO one stays until it blocks; with RR its quantum falls, and at 0 it goes back to READY
-- with a new one.
abbrev pub destino : Algoritmo → ℕ → Tripulante → Destino
destino fifo quantum t =
    if t.bloquear then al_io (record t { bloquear = false; curr_state = block_io }) else queda t
destino rr quantum t =
    if t.bloquear
    then al_io (record t { bloquear = false; quatum = quantum; curr_state = block_io })
    else if sub32 t.quatum 1 == 0
    then a_ready (record t { quatum = quantum; curr_state = ready })
    else queda (record t { quatum = sub32 t.quatum 1 })

abbrev pub si_queda : Destino → List Tripulante → List Tripulante
si_queda (queda t) ts = t ∷ ts
si_queda (al_io t) ts = ts
si_queda (a_ready t) ts = ts

abbrev pub si_al_io : Destino → List Tripulante → List Tripulante
si_al_io (queda t) ts = ts
si_al_io (al_io t) ts = t ∷ ts
si_al_io (a_ready t) ts = ts

abbrev pub si_a_ready : Destino → List Tripulante → List Tripulante
si_a_ready (queda t) ts = ts
si_a_ready (al_io t) ts = ts
si_a_ready (a_ready t) ts = t ∷ ts

-- The crew members with a destination, in their order.
unfoldable pub reparto :
    (Destino → List Tripulante → List Tripulante)
    → (Tripulante → Destino)
    → List Tripulante
    → List Tripulante
reparto si d [] = []
reparto si d (t ∷ ts) = si (d t) (reparto si d ts)

-- What a round of the algorithm leaves.
pub record Repartida (d : Tripulante → Destino) (hechos ts : List Tripulante) (p p' : Planificador)
    : Type 0 where
  pub exec : p'.colas.exec.elementos ≡ hechos ++ reparto si_queda d ts
  pub block : p'.colas.block.elementos ≡ p.colas.block.elementos ++ reparto si_al_io d ts
  pub ready : p'.colas.ready.elementos ≡ p.colas.ready.elementos ++ reparto si_a_ready d ts

-- What a step needs of the state, and keeps.
pub record Normal (quantum : ℕ) (p : Planificador) : Type 0 where
  pub sin_sabotaje : p.esta_en_sabotaje ≡ false
  pub mismo_quantum : p.quantum ≡ quantum
  pub block_libre : p.colas.block.max_size ≡ 0
  pub ready_libre : p.colas.ready.max_size ≡ 0
