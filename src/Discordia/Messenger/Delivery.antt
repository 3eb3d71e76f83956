-- ===== src/Discordia/Messenger/Delivery.antt =====
-- What arrives at I-Mongo-Store/src/server/client_handler.c of the messages that
-- Discordia/src/discordia/discordia.c sends.
use tp_2021_1c_en_c_errados.Prelude.{
  ℕ, ◌+◌, ◌≤◌, ◌≡◌, refl, ap, List, [], ◌∷◌, map, Option, some, ◌>>=◌, IsU32, IsText, c_string,
  length, length-append, arith, All,
}
use tp_2021_1c_en_c_errados.Protocol.Buffer.{Buffer}
use tp_2021_1c_en_c_errados.Protocol.Buffer.Growth.{limit}
use tp_2021_1c_en_c_errados.Protocol.Buffer.Contents.{Holds}
use tp_2021_1c_en_c_errados.Protocol.Fields.{IsPos}
use tp_2021_1c_en_c_errados.Protocol.Package.{frame, package_serialize-Holds}
use tp_2021_1c_en_c_errados.Protocol.Opcode.{Opcode, number}
use tp_2021_1c_en_c_errados.Protocol.Messages.DesplazamientoTripulante
use tp_2021_1c_en_c_errados.Protocol.Messages.InicioTarea
use tp_2021_1c_en_c_errados.Protocol.Messages.FinalizacionTarea
use tp_2021_1c_en_c_errados.Protocol.Messages.AtiendeSabotaje
use tp_2021_1c_en_c_errados.Protocol.Messages.ResuelveSabotaje
use tp_2021_1c_en_c_errados.Protocol.Messages.ObtenerBitacora
use tp_2021_1c_en_c_errados.Mongo.ClientHandler.{Request, ended, handler_task}
use tp_2021_1c_en_c_errados.Mongo.ClientHandler.Stream.{
  opcode, payload, IsValid, frames, handler_task-frames,
}
use tp_2021_1c_en_c_errados.Discordia.Messenger.{
  Notice, obtener_bitacora, desplazamiento, iniciar_tarea, finalizar_tarea, atiende_sabotaje,
  resuelve_sabotaje, packed, call, call_all, discordia_obtener_bitacora,
  discordia_desplazamiento_tripulante, discordia_iniciar_tarea, discordia_finalizar_tarea,
  discordia_tripulante_atiende_sabotaje, discordia_tripulante_resuelve_sabotaje,
}

-- The words fit 32 bits and the texts have no zero byte and fit a package.
abbrev pub IsSendable : Notice → Type 0
IsSendable (obtener_bitacora tid) = IsU32 tid
IsSendable (desplazamiento tid origen destino) = IsU32 tid × IsPos origen × IsPos destino
IsSendable (iniciar_tarea tid tarea) = IsU32 tid × IsText tarea × (length tarea + 17 ≤ limit)
IsSendable (finalizar_tarea tid tarea) = IsU32 tid × IsText tarea × (length tarea + 17 ≤ limit)
IsSendable (atiende_sabotaje tid) = IsU32 tid
IsSendable (resuelve_sabotaje tid) = IsU32 tid

-- The call into the file system that the message leads to. The end of a sabotage arrives as
-- another start of one.
abbrev pub arrives : Notice → Request
arrives (obtener_bitacora tid) = Request.obtener_bitacora (record { tripulante_id = tid })
arrives (desplazamiento tid origen destino) =
    Request.desplazamiento_tripulante
      (record { tripulante_id = tid; origen = origen; destino = destino })
arrives (iniciar_tarea tid tarea) = Request.inicio_tarea (record {
  tripulante_id = tid;
  largo_nombre_tarea = length (c_string tarea);
  tarea = c_string tarea;
})
arrives (finalizar_tarea tid tarea) = Request.finalizacion_tarea (record {
  tripulante_id = tid;
  largo_nombre_tarea = length (c_string tarea);
  tarea = c_string tarea;
})
arrives (atiende_sabotaje tid) = Request.atiende_sabotaje (record { tripulante_id = tid })
arrives (resuelve_sabotaje tid) = Request.atiende_sabotaje (record { tripulante_id = tid })

packed-frame :
    (op : Opcode) (b : Buffer) (bytes : List ℕ)
    → Holds b bytes
    → length bytes + 8 ≤ limit
    → packed op b ≡ some (frame (number op) bytes)
unfolding packed
packed-frame op b bytes h small =
    let (out, e, h') = package_serialize-Holds (number op) b bytes h small in rw e (ap some h'.held)

text_call-frame :
    (op : Opcode) (ser : Option Buffer) (bytes : List ℕ)
    → ((b : Buffer) × (ser ≡ some b) × Holds b bytes)
    → length bytes + 8 ≤ limit
    → (ser >>= λ b. packed op b) ≡ some (frame (number op) bytes)
text_call-frame op ser bytes (b, e, h) small = rw e (packed-frame op b bytes h small)

call-frame :
    (n : Notice)
    → IsSendable n
    → (call n ≡ some (frame (opcode (arrives n)) (payload (arrives n)))) × IsValid (arrives n)
unfolding discordia_obtener_bitacora discordia_desplazamiento_tripulante discordia_iniciar_tarea
    discordia_finalizar_tarea discordia_tripulante_atiende_sabotaje
    discordia_tripulante_resuelve_sabotaje ObtenerBitacora.crear DesplazamientoTripulante.crear
    AtiendeSabotaje.crear ResuelveSabotaje.crear
call-frame (obtener_bitacora tid) v = (
  text_call-frame Opcode.obtener_bitacora _ _ (ObtenerBitacora.serializar-Holds _) (omega arith),
  record { tripulante_id_fits = v },
)
call-frame (desplazamiento tid origen destino) v = (
  text_call-frame Opcode.desplazamiento_tripulante _ _ (DesplazamientoTripulante.serializar-Holds _)
      (omega arith),
  record { tripulante_id_fits = v.0; origen_fits = v.1; destino_fits = v.2 },
)
call-frame (iniciar_tarea tid tarea) v =
    let (e, ok) = InicioTarea.crear-IsValid tid tarea v.0 v.1 (omega (arith, v.2)) in
    let size : length (c_string tarea) ≡ length tarea + 1 =
      omega (arith, length-append tarea (0 ∷ [])) in
    (
      rw e (
          text_call-frame Opcode.inicio_tarea _ _ (InicioTarea.serializar-Holds _ ok)
            (omega (arith, v.2, size))),
      (ok, omega (arith, v.2, size)),
    )
call-frame (finalizar_tarea tid tarea) v =
    let (e, ok) = FinalizacionTarea.crear-IsValid tid tarea v.0 v.1 (omega (arith, v.2)) in
    let size : length (c_string tarea) ≡ length tarea + 1 =
      omega (arith, length-append tarea (0 ∷ [])) in
    (
      rw e (
          text_call-frame Opcode.finalizacion_tarea _ _ (FinalizacionTarea.serializar-Holds _ ok)
            (omega (arith, v.2, size))),
      (ok, omega (arith, v.2, size)),
    )
call-frame (atiende_sabotaje tid) v = (
  text_call-frame Opcode.atiende_sabotaje _ _ (AtiendeSabotaje.serializar-Holds _) (omega arith),
  record { tripulante_id_fits = v },
)
call-frame (resuelve_sabotaje tid) v = (
  text_call-frame Opcode.atiende_sabotaje _ _ (ResuelveSabotaje.serializar-Holds _) (omega arith),
  record { tripulante_id_fits = v },
)

call_all-frames :
    (ns : List Notice)
    → All IsSendable ns
    → (call_all ns ≡ some (frames (map arrives ns))) × All IsValid (map arrives ns)
unfolding call_all
call_all-frames [] v = (refl, tt)
call_all-frames (n ∷ ns) v =
    let (e, ok) = call-frame n v.0 in
    let (es, oks) = call_all-frames ns v.1 in (rw (e, es), (ok, oks))

-- From the crew to the file system: for every row of calls on one connection, with 32-bit words and
-- texts that fit a package, the senders succeed, and a file system that reads the bytes of the row from a
-- connection calls one handler for each, in the same order and with the same contents. Each is the
-- handler that the call names, but for `discordia_tripulante_resuelve_sabotaje`: its message
-- arrives as another ATIENDE_SABOTAJE of the same crew member.
pub handler_task-call_all :
    (ns : List Notice)
    → All IsSendable ns
    → (wire : List ℕ) × (call_all ns ≡ some wire) × (handler_task wire ≡ ended (map arrives ns))
handler_task-call_all ns v =
    let (e, ok) = call_all-frames ns v in
    (frames (map arrives ns), e, handler_task-frames (map arrives ns) ok)
