-- ===== src/Discordia/Messenger.antt =====
-- Discordia/src/discordia/discordia.c: the messages that it sends to the file system. Each function
-- gives the bytes that it hands to the connection; a text is the list of its characters.
pub mod Delivery
use tp_2021_1c_en_c_errados.Prelude.{ℕ, List, [], ◌∷◌, ◌++◌, Option, none, some, ◌>>=◌, c_string}
use tp_2021_1c_en_c_errados.Protocol.Buffer.{Buffer}
use tp_2021_1c_en_c_errados.Protocol.Fields.{Pos}
use tp_2021_1c_en_c_errados.Protocol.Package.{package_create, package_serialize}
use tp_2021_1c_en_c_errados.Protocol.Opcode.{Opcode, number}
use tp_2021_1c_en_c_errados.Protocol.Opcode
use tp_2021_1c_en_c_errados.Protocol.Messages.DesplazamientoTripulante
use tp_2021_1c_en_c_errados.Protocol.Messages.InicioTarea
use tp_2021_1c_en_c_errados.Protocol.Messages.FinalizacionTarea
use tp_2021_1c_en_c_errados.Protocol.Messages.AtiendeSabotaje
use tp_2021_1c_en_c_errados.Protocol.Messages.ResuelveSabotaje
use tp_2021_1c_en_c_errados.Protocol.Messages.ObtenerBitacora

-- `u_package_create`, `u_package_serialize`, and the content that goes to the socket.
pub packed : Opcode → Buffer → Option (List ℕ)
packed opcode msg_ser = do
  package_ser ← package_serialize (package_create (number opcode) msg_ser)
  some package_ser.content

unfoldable pub discordia_obtener_bitacora : ℕ → Option (List ℕ)
discordia_obtener_bitacora tid = do
  msg_ser ← ObtenerBitacora.serializar (ObtenerBitacora.crear tid)
  packed Opcode.obtener_bitacora msg_ser

unfoldable pub discordia_desplazamiento_tripulante : ℕ → Pos → Pos → Option (List ℕ)
discordia_desplazamiento_tripulante tid origen destino = do
  msg_ser ← DesplazamientoTripulante.serializar (DesplazamientoTripulante.crear tid origen destino)
  packed Opcode.desplazamiento_tripulante msg_ser

unfoldable pub discordia_iniciar_tarea : ℕ → List ℕ → Option (List ℕ)
discordia_iniciar_tarea tid tarea = do
  msg ← InicioTarea.crear tid (c_string tarea)
  msg_ser ← InicioTarea.serializar msg
  packed Opcode.inicio_tarea msg_ser

unfoldable pub discordia_finalizar_tarea : ℕ → List ℕ → Option (List ℕ)
discordia_finalizar_tarea tid tarea = do
  msg ← FinalizacionTarea.crear tid (c_string tarea)
  msg_ser ← FinalizacionTarea.serializar msg
  packed Opcode.finalizacion_tarea msg_ser

unfoldable pub discordia_tripulante_atiende_sabotaje : ℕ → Option (List ℕ)
discordia_tripulante_atiende_sabotaje tid = do
  msg_ser ← AtiendeSabotaje.serializar (AtiendeSabotaje.crear tid)
  packed Opcode.atiende_sabotaje msg_ser

-- The package is made with the opcode ATIENDE_SABOTAJE, as the source has it.
unfoldable pub discordia_tripulante_resuelve_sabotaje : ℕ → Option (List ℕ)
discordia_tripulante_resuelve_sabotaje tid = do
  msg_ser ← ResuelveSabotaje.serializar (ResuelveSabotaje.crear tid)
  packed Opcode.atiende_sabotaje msg_ser

-- The calls of these functions that a member of the crew can make.
pub data Notice : Type 0 where
  obtener_bitacora : ℕ → Notice
  desplazamiento : ℕ → Pos → Pos → Notice
  iniciar_tarea : ℕ → List ℕ → Notice
  finalizar_tarea : ℕ → List ℕ → Notice
  atiende_sabotaje : ℕ → Notice
  resuelve_sabotaje : ℕ → Notice

abbrev pub call : Notice → Option (List ℕ)
call (obtener_bitacora tid) = discordia_obtener_bitacora tid
call (desplazamiento tid origen destino) = discordia_desplazamiento_tripulante tid origen destino
call (iniciar_tarea tid tarea) = discordia_iniciar_tarea tid tarea
call (finalizar_tarea tid tarea) = discordia_finalizar_tarea tid tarea
call (atiende_sabotaje tid) = discordia_tripulante_atiende_sabotaje tid
call (resuelve_sabotaje tid) = discordia_tripulante_resuelve_sabotaje tid

-- What a row of calls puts on one connection. `ds_connection_handler_send` has a connection for each
-- tid, whose row are the calls with that tid; the bytes are made in the same way for any row.
unfoldable pub call_all : List Notice → Option (List ℕ)
call_all [] = some []
call_all (n ∷ ns) = do first ← call n; others ← call_all ns; some (first ++ others)
