-- ===== src/Discordia/Queues.antt =====
-- Discordia/src/planificador/queues: queue_mt.c, and the five queues of queue_manager.c. The
-- elements stand in the order of the list; `max_size` 0 is no bound.
pub mod Weights
pub mod Laws
use tp_2021_1c_en_c_errados.Prelude.{
  ℕ, ◌+◌, ◌%◌, List, [], ◌∷◌, ◌++◌, Bool, false, ◌||◌, Option, none, some, ltb, ◌==◌, if◌then◌else◌,
  sub32, u32_mod,
}
use tp_2021_1c_en_c_errados.Discordia.Crew.{Tripulante, Commons}

-- `ds_queue_mt_t`
pub record Cola : Type 0 where
  pub elementos : List Tripulante
  pub max_size : ℕ
  pub curr_elements : ℕ

unfoldable pub ds_queue_mt_create : ℕ → Cola
ds_queue_mt_create max_elements = record {
  elementos = [];
  max_size = max_elements;
  curr_elements = 0;
}

unfoldable pub ds_queue_mt_is_full : Cola → Bool
ds_queue_mt_is_full queue =
    if queue.max_size == 0 then false else queue.max_size == queue.curr_elements

-- A full queue takes nothing.
unfoldable pub ds_queue_mt_push : Cola → Tripulante → Cola
ds_queue_mt_push queue trip =
    if (queue.max_size == 0) || ltb queue.curr_elements queue.max_size
    then (record queue {
      elementos = queue.elementos ++ trip ∷ [];
      curr_elements = (queue.curr_elements + 1) % u32_mod;
    })
    else queue

unfoldable pub queue_pop : List Tripulante → Option (Tripulante × List Tripulante)
queue_pop [] = none
queue_pop (t ∷ ts) = some (t, ts)

unfoldable pub con_menos : Cola → Tripulante × List Tripulante → Tripulante × Cola
con_menos queue (t, ts) =
    (t, record queue { elementos = ts; curr_elements = sub32 queue.curr_elements 1 })

-- `none` is NULL; the queue is then as it was.
unfoldable pub ds_queue_mt_pop : Cola → Option (Tripulante × Cola)
unfolding queue_pop
ds_queue_mt_pop queue =
    if queue.curr_elements == 0
    then none
    else elim (queue_pop queue.elementos) [ none ↦ none | some r ↦ some (con_menos queue r) ]

unfoldable pub detras_de :
    Tripulante → Option (Tripulante × List Tripulante) → Option (Tripulante × List Tripulante)
detras_de t none = none
detras_de t (some (u, us)) = some (u, t ∷ us)

-- The loop over the elements that stops at the first with the tid, and takes it out.
unfoldable pub sacar_tid : ℕ → List Tripulante → Option (Tripulante × List Tripulante)
unfolding detras_de
sacar_tid tid [] = none
sacar_tid tid (t ∷ ts) = if t.tid == tid then some (t, ts) else detras_de t (sacar_tid tid ts)

unfoldable pub sacar_de : ℕ → Cola → Option (Tripulante × Cola)
unfolding sacar_tid
sacar_de tid queue = elim (sacar_tid tid queue.elementos) [
  | none ↦ none
  | some r ↦ some (con_menos queue r)
]

unfoldable pub ds_queue_mt_pop_by_tid : Cola → ℕ → Option (Tripulante × Cola)
unfolding sacar_de
ds_queue_mt_pop_by_tid queue tid = if queue.curr_elements == 0 then none else sacar_de tid queue

abbrev pub tiene_id_menor : Tripulante → Tripulante → Bool
tiene_id_menor uno dos = ltb uno.tid dos.tid

unfoldable pub ds_queue_mt_sort_by_lowest_tid : Commons → Cola → Cola
ds_queue_mt_sort_by_lowest_tid c queue = record queue {
  elementos = c.list_sort tiene_id_menor queue.elementos;
}

-- `ds_queue_type_e`
pub data QueueType : Type 0 where
  queue_new queue_ready queue_exec queue_block queue_sabotage : QueueType

-- `ds_queue_manager_t`
pub record Colas : Type 0 where
  pub new : Cola
  pub ready : Cola
  pub exec : Cola
  pub block : Cola
  pub sabotage : Cola

unfoldable pub ds_queue_manager_init : ℕ → Colas
unfolding ds_queue_mt_create
ds_queue_manager_init cpu_count = record {
  new = ds_queue_mt_create 0;
  ready = ds_queue_mt_create 0;
  exec = ds_queue_mt_create cpu_count;
  block = ds_queue_mt_create 0;
  sabotage = ds_queue_mt_create 0;
}
