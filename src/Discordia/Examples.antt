-- ===== src/Discordia/Examples.antt =====
-- Messages of Discordia/src/discordia/discordia.c on their way to the file system, and streams that
-- the file system reads.
use tp_2021_1c_en_c_errados.Prelude.{ℕ, ◌≡◌, arith, List, [], ◌∷◌, some, map}
use tp_2021_1c_en_c_errados.Mongo.ClientHandler.{Request, ended, handler_task}
use tp_2021_1c_en_c_errados.Mongo.ClientHandler.Stream.{frames, handler_task-frames}
use tp_2021_1c_en_c_errados.Discordia.Messenger.{
  Notice, call_all, iniciar_tarea, resuelve_sabotaje, desplazamiento,
}
use tp_2021_1c_en_c_errados.Discordia.Messenger.Delivery.{arrives, handler_task-call_all}

-- A move, the start of a task and the end of a sabotage.
abbrev notices : List Notice
notices =
    desplazamiento 4 (record { x = 1; y = 2 }) (record { x = 1; y = 3 })
    ∷ iniciar_tarea 4 (65 ∷ 66 ∷ [])
    ∷ resuelve_sabotaje 4
    ∷ []

handler_task-call_all_example :
    (wire : List ℕ) × (call_all notices ≡ some wire)
    × (handler_task wire ≡ ended (map arrives notices))
handler_task-call_all_example = handler_task-call_all notices (
  (
    omega arith,
    record { x_fits = omega arith; y_fits = omega arith },
    record { x_fits = omega arith; y_fits = omega arith },
  ),
  ((omega arith, (omega arith, (omega arith, tt)), omega arith), (omega arith, tt)),
)

abbrev requests : List Request
requests =
    Request.atiende_sabotaje (record { tripulante_id = 4 })
    ∷ Request.obtener_bitacora (record { tripulante_id = 9 })
    ∷ []

handler_task-frames_example : handler_task (frames requests) ≡ ended requests
handler_task-frames_example =
    handler_task-frames requests (
      record { tripulante_id_fits = omega arith },
      (record { tripulante_id_fits = omega arith }, tt),
    )
