-- ===== src/Discordia/Planner.antt =====
-- Discordia/src/planificador/planificador.c and io.c: the state of the planner and what its threads
-- do with it. `none` is an access through NULL.
pub mod Weights
pub mod Searches
pub mod Moves
pub mod Rounds
pub mod Keeps
pub mod Device
pub mod Destinations
pub mod Shares
pub mod Admits
pub mod Rescue
pub mod Recovery
pub mod Admission
pub mod Sabotage
pub mod Algorithms
pub mod Io
pub mod Cycle
use tp_2021_1c_en_c_errados.Prelude.{
  ℕ, zero, suc, ◌+◌, ◌%◌, List, [], ◌∷◌, ◌++◌, Bool, true, false, not, Option, none, some, ◌>>=◌,
  ltb, ◌==◌, if◌then◌else◌, sub32, u32_mod,
}
use tp_2021_1c_en_c_errados.Protocol.Fields.{Pos}
use tp_2021_1c_en_c_errados.Discordia.Crew.{
  Tripulante, TripState, ready, exec, block_io, block_sabotage, Tarea, Commons, Red,
  tripulante_create, tripulante_change_state, tripulante_obtener_proxima_tarea,
  tripulante_terminate, avisar, finalizar_tarea,
}
use tp_2021_1c_en_c_errados.Discordia.Queues.{
  Cola, Colas, QueueType, queue_new, queue_ready, queue_exec, queue_block, queue_sabotage,
  ds_queue_manager_init, ds_queue_mt_is_full, ds_queue_mt_push, ds_queue_mt_pop, sacar_de,
  ds_queue_mt_pop_by_tid, ds_queue_mt_sort_by_lowest_tid,
}

pub data Algoritmo : Type 0 where
  fifo rr : Algoritmo

-- `planificador_t`, with the queues, the crew member that is in the I/O device (`p_curr_trip` of
-- io.c), those that were told to end, and the messages.
pub record Planificador : Type 0 where
  pub cant_cpu : ℕ
  pub quantum : ℕ
  pub duracion_sabotaje : ℕ
  pub ciclos_counter : ℕ
  pub sabotaje_pos : Pos
  pub pause : Bool
  pub esta_en_sabotaje : Bool
  pub inicializar_rutina_sabotaje : Bool
  pub tiempo_restante_block_sabo : ℕ
  pub manejar_cola_sabotaje : Bool
  pub expulsar_trip_request_queue : List ℕ
  pub algorithm : Algoritmo
  pub colas : Colas
  pub curr_trip : Option Tripulante
  pub terminados : List Tripulante
  pub red : Red

unfoldable pub ds_planificador_init : ℕ → ℕ → ℕ → Algoritmo → List (Option (List ℕ)) → Planificador
ds_planificador_init cant_cpu quantum duracion_sabotaje algorithm respuestas = record {
  cant_cpu = cant_cpu;
  quantum = quantum;
  duracion_sabotaje = duracion_sabotaje;
  ciclos_counter = 0;
  sabotaje_pos = record { x = 0; y = 0 };
  pause = true;
  esta_en_sabotaje = false;
  inicializar_rutina_sabotaje = false;
  tiempo_restante_block_sabo = 0;
  manejar_cola_sabotaje = false;
  expulsar_trip_request_queue = [];
  algorithm = algorithm;
  colas = ds_queue_manager_init cant_cpu;
  curr_trip = none;
  terminados = [];
  red = record { avisos = []; respuestas = respuestas };
}

-- A queue, and the state with another one in its place.
unfoldable pub cola : QueueType → Planificador → Cola
cola queue_new p = p.colas.new
cola queue_ready p = p.colas.ready
cola queue_exec p = p.colas.exec
cola queue_block p = p.colas.block
cola queue_sabotage p = p.colas.sabotage

unfoldable pub con_cola : QueueType → Cola → Planificador → Planificador
con_cola queue_new q p = record p { colas = record p.colas { new = q } }
con_cola queue_ready q p = record p { colas = record p.colas { ready = q } }
con_cola queue_exec q p = record p { colas = record p.colas { exec = q } }
con_cola queue_block q p = record p { colas = record p.colas { block = q } }
con_cola queue_sabotage q p = record p { colas = record p.colas { sabotage = q } }

unfoldable pub encolar : QueueType → Tripulante → Planificador → Planificador
encolar tipo trip p = con_cola tipo (ds_queue_mt_push (cola tipo p) trip) p

-- The new state is sent, and the crew member pushed into its queue.
unfoldable pub pasar_a : TripState → QueueType → Tripulante → Planificador → Planificador
pasar_a state tipo trip p =
    let (trip', red') = tripulante_change_state trip state p.red in
    encolar tipo trip' (record p { red = red' })

unfoldable pub terminar : Tripulante → Planificador → Planificador
terminar trip p =
    let (trip', red') = tripulante_terminate trip p.red in
    record p { terminados = p.terminados ++ trip' ∷ []; red = red' }

unfoldable pub ds_planificador_iniciar_tripulante : ℕ → ℕ → Pos → Planificador → Planificador
ds_planificador_iniciar_tripulante pid tid pos p =
    encolar queue_new (tripulante_create pid tid pos p.quantum) p

-- `ds_planificador_find_and_terminate_from_new` and its like: `otro` is the search that follows.
unfoldable pub find_and_terminate_from :
    QueueType → (ℕ → Planificador → Planificador) → ℕ → Planificador → Planificador
find_and_terminate_from tipo otro tid p = elim (sacar_de tid (cola tipo p)) [
  | none ↦ otro tid p
  | some (trip, q) ↦ terminar trip (con_cola tipo q p)
]

-- `find_and_terminate_from_block`
unfoldable pub find_and_terminate_from_block : ℕ → Planificador → Planificador
find_and_terminate_from_block = find_and_terminate_from queue_block (λ _ p. p)

unfoldable pub io_find_and_terminate : Option Tripulante → ℕ → Planificador → Planificador
io_find_and_terminate none tid p = find_and_terminate_from_block tid p
io_find_and_terminate (some trip) tid p =
    if trip.tid == tid
    then terminar trip (record p { curr_trip = none })
    else find_and_terminate_from_block tid p

unfoldable pub io_find_and_terminate_from_block : ℕ → Planificador → Planificador
io_find_and_terminate_from_block tid p = io_find_and_terminate p.curr_trip tid p

unfoldable pub ds_planificador_find_and_terminate_trip : ℕ → Planificador → Planificador
ds_planificador_find_and_terminate_trip = find_and_terminate_from queue_new (
    find_and_terminate_from queue_ready (
      find_and_terminate_from queue_exec
        (find_and_terminate_from queue_sabotage io_find_and_terminate_from_block)))

-- `ds_planificador_eliminar_tripulante`, which also is `discordia_expulsar_tripulante`.
unfoldable pub ds_planificador_eliminar_tripulante : ℕ → Planificador → Planificador
ds_planificador_eliminar_tripulante tid p =
    if p.pause
    then ds_planificador_find_and_terminate_trip tid p
    else (record p { expulsar_trip_request_queue = p.expulsar_trip_request_queue ++ tid ∷ [] })

unfoldable pub ds_planificador_iniciar : Planificador → Planificador
ds_planificador_iniciar p = record p { pause = false }

unfoldable pub ds_planificador_pausar : Planificador → Planificador
ds_planificador_pausar p = record p { pause = true }

unfoldable pub ds_planificador_notificar_sabotaje : Pos → Planificador → Planificador
ds_planificador_notificar_sabotaje pos p = record p {
  sabotaje_pos = pos;
  inicializar_rutina_sabotaje = true;
  esta_en_sabotaje = true;
}
