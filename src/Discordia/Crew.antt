-- ===== src/Discordia/Crew.antt =====
-- A crew member of the planner: Discordia/src/planificador/tripulante/tripulante.c and tareas.c. A
-- `tripulante_t` is in one queue or device at a time, so it stands there as a value. `none` is an
-- access through NULL.
pub mod Turns
pub mod Work
use tp_2021_1c_en_c_errados.Prelude.{
  ℕ, ◌+◌, ◌-◌, List, [], ◌∷◌, ◌++◌, Bool, true, false, ◌&&◌, not, Option, none, some, ◌>>=◌, ltb,
  ◌==◌, if◌then◌else◌, get_elem?, sub32,
}
use tp_2021_1c_en_c_errados.Protocol.Fields.{Pos}

-- `tarea_t`
pub record Tarea : Type 0 where
  pub tarea : List ℕ
  pub is_blocking : Bool
  pub is_finished : Bool
  pub tiempo_bloqueado : ℕ
  pub pos : Pos

-- `trip_state_e`
pub data TripState : Type 0 where
  new ready exec block_io block_sabotage exit : TripState

-- `tripulante_t`; the two semaphores are the turns of the thread.
pub record Tripulante : Type 0 where
  pub pid : ℕ
  pub tid : ℕ
  pub tarea_actual : Option Tarea
  pub pos : Pos
  pub quatum : ℕ
  pub curr_state : TripState
  pub terminate : Bool
  pub bloquear : Bool
  pub es_primera_ejecucion_en_cpu : Bool

-- The functions of so-commons-library and of the C library that the planner calls.
pub record Commons : Type 0 where
  pub string_split : List ℕ → ℕ → List (List ℕ)
  pub string_contains : List ℕ → List ℕ → Bool
  pub atoi : List ℕ → ℕ
  pub list_sort : (Tripulante → Tripulante → Bool) → List Tripulante → List Tripulante

-- The calls of discordia/discordia.c, which send a message each.
pub data Aviso : Type 0 where
  nuevo_estado : ℕ → ℕ → ℕ → Aviso
  proxima_tarea : ℕ → ℕ → Aviso
  mover_tripulante : ℕ → ℕ → Pos → Aviso
  desplazamiento_tripulante : ℕ → Pos → Pos → Aviso
  iniciar_tarea : ℕ → List ℕ → Aviso
  finalizar_tarea : ℕ → List ℕ → Aviso
  atiende_sabotaje : ℕ → Aviso
  eliminar_tripulante : ℕ → ℕ → Aviso

-- What was sent, and the answers of Mi-RAM-HQ to come; NULL after the last.
pub record Red : Type 0 where
  pub avisos : List Aviso
  pub respuestas : List (Option (List ℕ))

unfoldable pub avisar : Aviso → Red → Red
avisar a red = record red { avisos = red.avisos ++ a ∷ [] }

unfoldable pub primera_respuesta : List (Option (List ℕ)) → Option (List ℕ)
primera_respuesta [] = none
primera_respuesta (r ∷ rs) = r

unfoldable pub otras_respuestas : List (Option (List ℕ)) → List (Option (List ℕ))
otras_respuestas [] = []
otras_respuestas (r ∷ rs) = rs

unfoldable pub discordia_obtener_proxima_tarea : ℕ → ℕ → Red → Option (List ℕ) × Red
unfolding primera_respuesta otras_respuestas avisar
discordia_obtener_proxima_tarea pid tid red = (
  primera_respuesta red.respuestas,
  avisar (proxima_tarea pid tid) (record red { respuestas = otras_respuestas red.respuestas }),
)

abbrev pub punto_y_coma : ℕ
punto_y_coma = 59

unfoldable pub tarea_es_bloqueante : Commons → List ℕ → Bool
tarea_es_bloqueante c tarea = c.string_contains tarea (32 ∷ [])

unfoldable pub parsear_texto : Commons → List ℕ → Option Tarea
unfolding tarea_es_bloqueante
parsear_texto c tarea_sin_parsear = do
  let partes = c.string_split tarea_sin_parsear punto_y_coma
  nombre ← get_elem? partes 0
  x ← get_elem? partes 1
  y ← get_elem? partes 2
  tiempo ← get_elem? partes 3
  some (record {
    tarea = nombre;
    is_blocking = tarea_es_bloqueante c nombre;
    is_finished = false;
    tiempo_bloqueado = c.atoi tiempo;
    pos = record { x = c.atoi x; y = c.atoi y };
  })

-- NULL is a task for NULL; the outer `none` is a text of fewer than four parts.
unfoldable pub parsear_tarea : Commons → Option (List ℕ) → Option (Option Tarea)
unfolding parsear_texto
parsear_tarea c none = some none
parsear_tarea c (some texto) = do tarea ← parsear_texto c texto; some (some tarea)

unfoldable pub tripulante_create : ℕ → ℕ → Pos → ℕ → Tripulante
tripulante_create pid tid pos quantum = record {
  pid = pid;
  tid = tid;
  tarea_actual = none;
  pos = pos;
  quatum = quantum;
  curr_state = new;
  terminate = false;
  bloquear = false;
  es_primera_ejecucion_en_cpu = true;
}

-- STATES_CHAR, for the states that are sent.
unfoldable pub states_char : TripState → Option ℕ
states_char new = some 78
states_char ready = some 82
states_char exec = some 69
states_char block_io = some 66
states_char block_sabotage = some 66
states_char exit = none

unfoldable pub avisar_estado : Tripulante → Option ℕ → Red → Red
avisar_estado this none red = red
avisar_estado this (some c) red = avisar (nuevo_estado this.pid this.tid c) red

unfoldable pub tripulante_change_state : Tripulante → TripState → Red → Tripulante × Red
tripulante_change_state this state red =
    (record this { curr_state = state }, avisar_estado this (states_char state) red)

unfoldable pub hay_tarea : Option Tarea → Bool
hay_tarea none = false
hay_tarea (some tarea) = true

-- The answer is whether there is a task.
unfoldable pub tripulante_obtener_proxima_tarea :
    Commons → Tripulante → Red → Option (Bool × Tripulante × Red)
tripulante_obtener_proxima_tarea c this red = do
  let respuesta = discordia_obtener_proxima_tarea this.pid this.tid red
  tarea ← parsear_tarea c respuesta.0
  let hay = hay_tarea tarea
  some (hay, record this { tarea_actual = tarea }, respuesta.1)

unfoldable pub tripulante_terminate : Tripulante → Red → Tripulante × Red
tripulante_terminate this red =
    (record this { terminate = true }, avisar (eliminar_tripulante this.pid this.tid) red)

-- CMP_POS
unfoldable pub cmp_pos : Pos → Pos → Bool
cmp_pos p q = (p.x == q.x) && (p.y == q.y)

-- One place along x, or along y where x is right.
unfoldable pub un_paso : Pos → Pos → Pos
un_paso p q =
    if not (p.x == q.x)
    then (record p { x = if ltb p.x q.x then p.x + 1 else p.x - 1 })
    else if not (p.y == q.y)
    then (record p { y = if ltb p.y q.y then p.y + 1 else p.y - 1 })
    else p

unfoldable pub tripulante_mover : Tripulante → Pos → Red → Tripulante × Red
tripulante_mover this pos red =
    let siguiente = un_paso this.pos pos in
    (
      record this { pos = siguiente },
      avisar (desplazamiento_tripulante this.tid this.pos siguiente)
          (avisar (mover_tripulante this.pid this.tid siguiente) red),
    )

-- What a turn of the thread leaves: the crew member, the messages, and whether it called
-- `discordia_expulsar_tripulante` for itself.
pub record Turno : Type 0 where
  pub trip : Tripulante
  pub red : Red
  pub expulsar : Bool

-- A turn of CPU in the place of a task that does not block.
unfoldable pub ejecutar_en_cpu : Commons → Tripulante → Tarea → Red → Option Turno
ejecutar_en_cpu c this tarea red =
    let restante = sub32 tarea.tiempo_bloqueado 1 in
    let iniciada =
      if this.es_primera_ejecucion_en_cpu
      then avisar (iniciar_tarea this.tid tarea.tarea) red
      else red in
    let en_cpu = record this {
      tarea_actual =
          some (record tarea { tiempo_bloqueado = restante; is_finished = restante == 0 });
      es_primera_ejecucion_en_cpu = false;
    } in
    if restante == 0
    then (do
      (hay, trip, red') ←
          tripulante_obtener_proxima_tarea c en_cpu
            (avisar (finalizar_tarea this.tid tarea.tarea) iniciada)
      some (record {
        trip = record trip { es_primera_ejecucion_en_cpu = true };
        red = red';
        expulsar = not hay;
      }))
    else some (record { trip = en_cpu; red = iniciada; expulsar = false })

unfoldable pub sin_expulsar : Tripulante × Red → Turno
sin_expulsar (trip, red) = record { trip = trip; red = red; expulsar = false }

-- `tripulante_check_tarea_actual`, and the move that the loop makes where it answers true.
unfoldable pub trabajar : Commons → Tripulante → Red → Option Turno
trabajar c this red = do
  tarea ← this.tarea_actual
  if cmp_pos this.pos tarea.pos
      then (if tarea.is_blocking
          then some (record {
            trip = record this { bloquear = true };
            red = avisar (iniciar_tarea this.tid tarea.tarea) red;
            expulsar = false;
          })
          else ejecutar_en_cpu c this tarea red)
      else some (sin_expulsar (tripulante_mover this tarea.pos red))

unfoldable pub tripulante_ejecutar_rutina_sabotaje : Tripulante → Pos → Red → Tripulante × Red
tripulante_ejecutar_rutina_sabotaje this pos red =
    if cmp_pos pos this.pos
    then (record this { bloquear = true }, avisar (atiende_sabotaje this.tid) red)
    else tripulante_mover this pos red

-- A turn of `tripulante_loop`, between the two semaphores.
unfoldable pub tripulante_turno : Commons → Bool → Pos → Tripulante → Red → Option Turno
tripulante_turno c esta_en_sabotaje sabotaje this red =
    if esta_en_sabotaje
    then some (sin_expulsar (tripulante_ejecutar_rutina_sabotaje this sabotaje red))
    else trabajar c this red
