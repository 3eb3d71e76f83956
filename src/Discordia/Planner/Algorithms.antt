-- ===== src/Discordia/Planner/Algorithms.antt =====
-- Discordia/src/planificador/planificador.c: the algorithms FIFO and RR.
use tp_2021_1c_en_c_errados.Prelude.{
  sub32, ℕ, true, false, not, Option, none, some, List, [], ◌∷◌, ◌++◌, ◌==◌, if◌then◌else◌,
}
use tp_2021_1c_en_c_errados.Discordia.Crew.{ready, block_io, block_sabotage, Tripulante}
use tp_2021_1c_en_c_errados.Discordia.Planner.{
  cola, con_cola, pasar_a, Algoritmo, fifo, rr, Planificador,
}
use tp_2021_1c_en_c_errados.Discordia.Queues.{queue_ready, queue_exec, queue_block, queue_sabotage}

-- A crew member that is to block leaves EXEC, for the I/O or for the end of the sabotage.
unfoldable pub bloquear_trip : Tripulante → Planificador → Planificador
bloquear_trip trip p =
    if not p.esta_en_sabotaje
    then pasar_a block_io queue_block trip p
    else (record (pasar_a block_sabotage queue_sabotage trip p) {
      manejar_cola_sabotaje = true;
      tiempo_restante_block_sabo = p.duracion_sabotaje;
    })

-- What an algorithm does with one crew member of EXEC: it stays as it is now, or has left.
unfoldable pub paso_fifo : Tripulante → Planificador → Option Tripulante × Planificador
paso_fifo trip p =
    if trip.bloquear
    then (none, bloquear_trip (record trip { bloquear = false }) p)
    else (some trip, p)

unfoldable pub paso_rr : Tripulante → Planificador → Option Tripulante × Planificador
paso_rr trip p =
    let gastado = sub32 trip.quatum 1 in
    if trip.bloquear
    then (none, bloquear_trip (record trip { bloquear = false; quatum = p.quantum }) p)
    else if gastado == 0
    then (none, pasar_a ready queue_ready (record trip { quatum = p.quantum }) p)
    else (some (record trip { quatum = gastado }), p)

abbrev pub Paso : Type 0
Paso = Tripulante → Planificador → Option Tripulante × Planificador

unfoldable pub paso_de : Algoritmo → Paso
paso_de fifo = paso_fifo
paso_de rr = paso_rr

unfoldable pub con_exec : List Tripulante → ℕ → Planificador → Planificador
con_exec xs n p =
    con_cola queue_exec (record (cola queue_exec p) { elementos = xs; curr_elements = n }) p

-- After one crew member: `resto` is the rest of the loop, with `hechos` before the iterator.
unfoldable pub seguir :
    (List Tripulante → Planificador → Planificador)
    → List Tripulante
    → List Tripulante
    → ℕ
    → Option Tripulante × Planificador
    → Planificador
seguir resto hechos ts curr (none, p) = resto hechos (con_exec (hechos ++ ts) (sub32 curr 1) p)
seguir resto hechos ts curr (some t, p) =
    resto (hechos ++ t ∷ []) (con_exec (hechos ++ t ∷ ts) curr p)

-- The loop over EXEC.
unfoldable pub recorrer : Paso → List Tripulante → List Tripulante → Planificador → Planificador
unfolding seguir
recorrer paso hechos [] p = p
recorrer paso hechos (t ∷ ts) p =
    seguir (λ antes q. recorrer paso antes ts q) hechos ts (cola queue_exec p).curr_elements
      (paso t p)

-- `ds_algorithm_fifo` and `ds_algorithm_rr`
unfoldable pub ds_algorithm : Algoritmo → Planificador → Planificador
ds_algorithm algorithm p = recorrer (paso_de algorithm) [] (cola queue_exec p).elementos p
