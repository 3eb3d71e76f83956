-- ===== src/Mongo/ClientHandler/Stream.antt =====
-- What the handler of I-Mongo-Store/src/server/client_handler.c makes of a stream of packages.
use tp_2021_1c_en_c_errados.Prelude.{
  ℕ, zero, suc, ◌+◌, ◌*◌, ◌/◌, ◌%◌, ◌≤◌, ◌<◌, ◌≡◌, refl, true, sym, ap, ◌∙◌, List, [], ◌∷◌, ◌++◌,
  append_assoc, append-nil, Option, some, le32, IsU32, length, length-append, arith, take-append,
  drop-append, le→leb, All,
}
use tp_2021_1c_en_c_errados.Socket.{got, u_socket_recv}
use tp_2021_1c_en_c_errados.Protocol.Buffer.{Buffer, create, write}
use tp_2021_1c_en_c_errados.Protocol.Buffer.Growth.{limit}
use tp_2021_1c_en_c_errados.Protocol.Buffer.Contents.{Holds, create-Holds, write-Holds}
use tp_2021_1c_en_c_errados.Protocol.Package.{frame}
use tp_2021_1c_en_c_errados.Protocol.Opcode.{number}
use tp_2021_1c_en_c_errados.Protocol.Opcode
use tp_2021_1c_en_c_errados.Protocol.Messages.DesplazamientoTripulante
use tp_2021_1c_en_c_errados.Protocol.Messages.InicioTarea
use tp_2021_1c_en_c_errados.Protocol.Messages.FinalizacionTarea
use tp_2021_1c_en_c_errados.Protocol.Messages.AtiendeSabotaje
use tp_2021_1c_en_c_errados.Protocol.Messages.ResuelveSabotaje
use tp_2021_1c_en_c_errados.Protocol.Messages.ObtenerBitacora
use tp_2021_1c_en_c_errados.Mongo.ClientHandler.{
  Request, desplazamiento_tripulante, inicio_tarea, finalizacion_tarea, atiende_sabotaje,
  resuelve_sabotaje, obtener_bitacora, is_valid_opcode, deserialize_msg, ended, handled, dispatch,
  get_msg, sized, check_opcode, headed, handler_loop, handler_task,
}

abbrev pub opcode : Request → ℕ
opcode (desplazamiento_tripulante m) = number Opcode.desplazamiento_tripulante
opcode (inicio_tarea m) = number Opcode.inicio_tarea
opcode (finalizacion_tarea m) = number Opcode.finalizacion_tarea
opcode (atiende_sabotaje m) = number Opcode.atiende_sabotaje
opcode (resuelve_sabotaje m) = number Opcode.resuelve_sabotaje
opcode (obtener_bitacora m) = number Opcode.obtener_bitacora

abbrev pub payload : Request → List ℕ
payload (desplazamiento_tripulante m) = DesplazamientoTripulante.bytes m
payload (inicio_tarea m) = InicioTarea.bytes m
payload (finalizacion_tarea m) = FinalizacionTarea.bytes m
payload (atiende_sabotaje m) = AtiendeSabotaje.bytes m
payload (resuelve_sabotaje m) = ResuelveSabotaje.bytes m
payload (obtener_bitacora m) = ObtenerBitacora.bytes m

-- The words of the message fit 32 bits, and a text leaves room for the header of the package.
abbrev pub IsValid : Request → Type 0
IsValid (desplazamiento_tripulante m) = DesplazamientoTripulante.IsValid m
IsValid (inicio_tarea m) = InicioTarea.IsValid m × (length m.tarea + 16 ≤ limit)
IsValid (finalizacion_tarea m) = FinalizacionTarea.IsValid m × (length m.tarea + 16 ≤ limit)
IsValid (atiende_sabotaje m) = AtiendeSabotaje.IsValid m
IsValid (resuelve_sabotaje m) = ResuelveSabotaje.IsValid m
IsValid (obtener_bitacora m) = ObtenerBitacora.IsValid m

length-payload :
    (r : Request) → IsValid r → (0 < length (payload r)) × (length (payload r) + 8 ≤ limit)
length-payload (desplazamiento_tripulante m) v = omega arith
length-payload (inicio_tarea m) v = omega arith
length-payload (finalizacion_tarea m) v = omega arith
length-payload (atiende_sabotaje m) v = omega arith
length-payload (resuelve_sabotaje m) v = omega arith
length-payload (obtener_bitacora m) v = omega arith

deserialize_msg-Holds :
    (r : Request) (b : Buffer)
    → IsValid r
    → Holds b (payload r)
    → deserialize_msg (opcode r) b ≡ some r
unfolding deserialize_msg
deserialize_msg-Holds (desplazamiento_tripulante m) b v h =
    rw (DesplazamientoTripulante.deserializar-Holds m b v h)
deserialize_msg-Holds (inicio_tarea m) b v h = rw (InicioTarea.deserializar-Holds m b v.0 h)
deserialize_msg-Holds (finalizacion_tarea m) b v h =
    rw (FinalizacionTarea.deserializar-Holds m b v.0 h)
deserialize_msg-Holds (atiende_sabotaje m) b v h = rw (AtiendeSabotaje.deserializar-Holds m b v h)
deserialize_msg-Holds (resuelve_sabotaje m) b v h = rw (ResuelveSabotaje.deserializar-Holds m b v h)
deserialize_msg-Holds (obtener_bitacora m) b v h = rw (ObtenerBitacora.deserializar-Holds m b v h)

-- The requests one after the other on the wire.
abbrev pub frames : List Request → List ℕ
frames [] = []
frames (r ∷ rs) = frame (opcode r) (payload r) ++ frames rs

decoded :
    (v : ℕ)
    → IsU32 v
    → v % 256 + 256 * (v / 256 % 256) + 65536 * (v / 65536 % 256) + 16777216 * (v / 16777216 % 256)
      ≡ v
decoded v h = omega arith

recv_front : (s rest : List ℕ) → 0 < length s → u_socket_recv (s ++ rest) (length s) ≡ got s rest
unfolding u_socket_recv
recv_front [] rest h = absurd (omega arith)
recv_front (c ∷ s) rest h = rw (
  le→leb (suc (length s)) (suc (length (s ++ rest))) (omega (arith, length-append s rest)),
  take-append (length s) s rest refl,
  drop-append (length s) s rest refl,
)

headed_word : (v : ℕ) (rest : List ℕ) → IsU32 v → headed (le32 v) rest ≡ check_opcode rest v
unfolding headed
headed_word v rest h = ap (check_opcode rest) (decoded v h)

sized_word : (n op : ℕ) (rest : List ℕ) → IsU32 n → sized (le32 n) rest op ≡ get_msg rest op n
unfolding sized
sized_word n op rest h = ap (get_msg rest op) (decoded n h)

check_opcode_valid :
    (op n : ℕ) (rest : List ℕ)
    → is_valid_opcode op ≡ true
    → check_opcode (le32 n ++ rest) op ≡ sized (le32 n) rest op
unfolding check_opcode
check_opcode_valid op n rest valid = rw (valid, recv_front (le32 n) rest (omega arith))

get_msg_whole :
    (op : ℕ) (message rest : List ℕ)
    → 0 < length message
    → get_msg (message ++ rest) op (length message)
      ≡ dispatch op (write create message (length message)) rest
unfolding get_msg
get_msg_whole op message rest h = rw (recv_front message rest h, get_msg)

dispatch_known :
    (op : ℕ) (buffer : Buffer) (rest : List ℕ) (r : Request)
    → deserialize_msg op buffer ≡ some r
    → dispatch op (some buffer) rest ≡ handled rest (r ∷ [])
unfolding dispatch
dispatch_known op buffer rest r e = rw (e, dispatch)

known : (r : Request) → is_valid_opcode (opcode r) ≡ true
unfolding is_valid_opcode
known (desplazamiento_tripulante m) = refl
known (inicio_tarea m) = refl
known (finalizacion_tarea m) = refl
known (atiende_sabotaje m) = refl
known (resuelve_sabotaje m) = refl
known (obtener_bitacora m) = refl

small : (r : Request) → IsU32 (opcode r)
small (desplazamiento_tripulante m) = omega arith
small (inicio_tarea m) = omega arith
small (finalizacion_tarea m) = omega arith
small (atiende_sabotaje m) = omega arith
small (resuelve_sabotaje m) = omega arith
small (obtener_bitacora m) = omega arith

headed_request :
    (r : Request) (rest : List ℕ)
    → IsValid r
    → headed (le32 (opcode r)) (le32 (length (payload r)) ++ (payload r ++ rest))
      ≡ handled rest (r ∷ [])
headed_request r rest v =
    let (some_bytes, short) = length-payload r v in
    let (b, e, h) = write-Holds create [] (payload r) create-Holds (omega (arith, short)) in
    headed_word (opcode r) _ (small r)
    ∙ check_opcode_valid (opcode r) (length (payload r)) (payload r ++ rest) (known r)
    ∙ sized_word (length (payload r)) (opcode r) (payload r ++ rest) (omega (arith, short))
    ∙ get_msg_whole (opcode r) (payload r) rest some_bytes
    ∙ ap (λ (m : Option Buffer). dispatch (opcode r) m rest) e
    ∙ dispatch_known (opcode r) b rest r (deserialize_msg-Holds r b v h)

handler_loop_step :
    (fuel : ℕ) (r : Request) (rest : List ℕ) (before : List Request)
    → IsValid r
    → handler_loop (suc fuel) (frame (opcode r) (payload r) ++ rest) before
      ≡ handler_loop fuel rest (before ++ r ∷ [])
unfolding handler_loop
handler_loop_step fuel r rest before v = rw (
  recv_front (le32 (opcode r)) (le32 (length (payload r)) ++ (payload r ++ rest)) (omega arith),
  handler_loop,
  headed_request r rest v,
  handler_loop,
)

pub handler_loop-frames :
    (fuel : ℕ) (rs before : List Request)
    → All IsValid rs
    → length rs < fuel
    → handler_loop fuel (frames rs) before ≡ ended (before ++ rs)
handler_loop-frames zero rs before v enough = absurd (omega arith)
handler_loop-frames (suc fuel) [] before v enough =
    unfold handler_loop u_socket_recv in ap ended (sym (append-nil before))
handler_loop-frames (suc fuel) (r ∷ rs) before v enough =
    handler_loop_step fuel r (frames rs) before v.0
    ∙ handler_loop-frames fuel rs (before ++ r ∷ []) v.1 (omega arith)
    ∙ ap ended (append_assoc before (r ∷ []) rs)

length-frames : (rs : List Request) → length rs ≤ length (frames rs)
length-frames [] = omega arith
length-frames (r ∷ rs) =
    omega (arith, length-frames rs, length-append (frame (opcode r) (payload r)) (frames rs))

-- On the frames of any list of valid requests, one after the other, the thread calls exactly
-- their handlers, in this order, and then sees the end of the stream.
pub handler_task-frames : (rs : List Request) → All IsValid rs → handler_task (frames rs) ≡ ended rs
unfolding handler_task
handler_task-frames rs v =
    handler_loop-frames (suc (length (frames rs))) rs [] v (omega (arith, length-frames rs))
