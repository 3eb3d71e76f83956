-- ===== src/Mongo/ClientHandler.antt =====
-- I-Mongo-Store/src/server/client_handler.c: what the file system reads from a connection. The
-- stream is all that the peer ever sends; the calls into the file system are listed in order.
pub mod Stream
pub mod Ends
use tp_2021_1c_en_c_errados.Prelude.{
  ℕ, zero, suc, List, [], ◌∷◌, ◌++◌, Option, none, some, ◌>>=◌, un32, length, Bool, true, false,
  ◌||◌, ◌==◌, if◌then◌else◌,
}
use tp_2021_1c_en_c_errados.Socket.{Received, closed, got, cut, u_socket_recv}
use tp_2021_1c_en_c_errados.Protocol.Buffer.{Buffer, create, write}
use tp_2021_1c_en_c_errados.Protocol.Opcode.{number}
use tp_2021_1c_en_c_errados.Protocol.Opcode
use tp_2021_1c_en_c_errados.Protocol.Messages.DesplazamientoTripulante
use tp_2021_1c_en_c_errados.Protocol.Messages.InicioTarea
use tp_2021_1c_en_c_errados.Protocol.Messages.FinalizacionTarea
use tp_2021_1c_en_c_errados.Protocol.Messages.AtiendeSabotaje
use tp_2021_1c_en_c_errados.Protocol.Messages.ResuelveSabotaje
use tp_2021_1c_en_c_errados.Protocol.Messages.ObtenerBitacora

-- The handlers that are called, each with the message that it was given.
pub data Request : Type 0 where
  desplazamiento_tripulante : DesplazamientoTripulante.Message → Request
  inicio_tarea : InicioTarea.Message → Request
  finalizacion_tarea : FinalizacionTarea.Message → Request
  atiende_sabotaje : AtiendeSabotaje.Message → Request
  resuelve_sabotaje : ResuelveSabotaje.Message → Request
  obtener_bitacora : ObtenerBitacora.Message → Request

unfoldable pub is_valid_opcode : ℕ → Bool
is_valid_opcode opcode =
    opcode == number Opcode.desplazamiento_tripulante
    || opcode == number Opcode.inicio_tarea
    || opcode == number Opcode.finalizacion_tarea
    || opcode == number Opcode.atiende_sabotaje
    || opcode == number Opcode.resuelve_sabotaje
    || opcode == number Opcode.eliminar_tripulante
    || opcode == number Opcode.obtener_bitacora

-- The `switch`; every other opcode goes to the last handler.
unfoldable pub deserialize_msg : ℕ → Buffer → Option Request
deserialize_msg opcode buffer =
    if opcode == number Opcode.desplazamiento_tripulante
    then (do
      msg ← DesplazamientoTripulante.deserializar buffer
      some (desplazamiento_tripulante msg))
    else if opcode == number Opcode.inicio_tarea
    then (do msg ← InicioTarea.deserializar buffer; some (inicio_tarea msg))
    else if opcode == number Opcode.finalizacion_tarea
    then (do msg ← FinalizacionTarea.deserializar buffer; some (finalizacion_tarea msg))
    else if opcode == number Opcode.atiende_sabotaje
    then (do msg ← AtiendeSabotaje.deserializar buffer; some (atiende_sabotaje msg))
    else if opcode == number Opcode.resuelve_sabotaje
    then (do msg ← ResuelveSabotaje.deserializar buffer; some (resuelve_sabotaje msg))
    else (do msg ← ObtenerBitacora.deserializar buffer; some (obtener_bitacora msg))

-- How the reading of a connection ends, when each call into the file system returns: with the end
-- of the stream after these requests, by an abort, at a word or a message that the peer cut off,
-- of which the source goes on with memory that was never set, or, in the model alone, without fuel.
pub data Outcome : Type 0 where
  ended : List Request → Outcome
  aborted : List Request → Outcome
  cut_off : List Request → Outcome
  out_of_fuel : Outcome

-- What is left of the stream after one message, and the requests so far with the message's own.
pub data Handled : Type 0 where
  handled : List ℕ → List Request → Handled
  failed : Handled
  incomplete : Handled

dispatch : ℕ → Option Buffer → List ℕ → Handled
dispatch opcode buffer rest = elim (buffer >>= deserialize_msg opcode) [
  | none ↦ failed
  | some request ↦ handled rest (request ∷ [])
]

get_msg : List ℕ → ℕ → ℕ → Handled
get_msg stream opcode msg_length = elim (u_socket_recv stream msg_length) [
  | closed ↦ handled stream []
  | got msg rest ↦ dispatch opcode (write create msg msg_length) rest
  | cut ↦ incomplete
]

sized : List ℕ → List ℕ → ℕ → Handled
sized word rest opcode = elim (un32 word) [ none ↦ failed | some n ↦ get_msg rest opcode n ]

check_opcode : List ℕ → ℕ → Handled
check_opcode stream opcode =
    if is_valid_opcode opcode
    then elim (u_socket_recv stream 4) [
      | closed ↦ handled stream []
      | got word rest ↦ sized word rest opcode
      | cut ↦ incomplete
    ]
    else handled stream []

headed : List ℕ → List ℕ → Handled
headed word rest = elim (un32 word) [ none ↦ failed | some opcode ↦ check_opcode rest opcode ]

-- The `while` loop on fuel, with the requests handled before.
pub handler_loop : ℕ → List ℕ → List Request → Outcome
handler_loop zero stream before = out_of_fuel
handler_loop (suc fuel) stream before = elim (u_socket_recv stream 4) [
  | closed ↦ ended before
  | got word rest ↦ elim (headed word rest) [
    | handled left requests ↦ handler_loop fuel left (before ++ requests)
    | failed ↦ aborted before
    | incomplete ↦ cut_off before
  ]
  | cut ↦ cut_off before
]

-- Each round takes a word at least, so the length of the stream is fuel enough.
unfoldable pub handler_task : List ℕ → Outcome
unfolding handler_loop headed check_opcode sized get_msg dispatch
handler_task stream = handler_loop (suc (length stream)) stream []
