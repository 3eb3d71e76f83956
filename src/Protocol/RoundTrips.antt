-- ===== src/Protocol/RoundTrips.antt =====
-- What the readers of utils/src/protocol/messages make of what the writers wrote.
use tp_2021_1c_en_c_errados.Prelude.{length, ℕ, ◌+◌, ◌≤◌, ◌≡◌, List, some, c_string, IsText, IsU32}
use tp_2021_1c_en_c_errados.Protocol.Buffer.{Buffer}
use tp_2021_1c_en_c_errados.Protocol.Buffer.Growth.{limit}
use tp_2021_1c_en_c_errados.Protocol.Messages.DesplazamientoTripulante
use tp_2021_1c_en_c_errados.Protocol.Messages.EliminarTripulante
use tp_2021_1c_en_c_errados.Protocol.Messages.InformarSabotaje
use tp_2021_1c_en_c_errados.Protocol.Messages.IniciarTripulante
use tp_2021_1c_en_c_errados.Protocol.Messages.MovimientoTripulante
use tp_2021_1c_en_c_errados.Protocol.Messages.ProximaTarea
use tp_2021_1c_en_c_errados.Protocol.Messages.TripulanteNuevoEstado
use tp_2021_1c_en_c_errados.Protocol.Messages.AtiendeSabotaje
use tp_2021_1c_en_c_errados.Protocol.Messages.ResuelveSabotaje
use tp_2021_1c_en_c_errados.Protocol.Messages.ObtenerBitacora
use tp_2021_1c_en_c_errados.Protocol.Messages.ListaTripulantes
use tp_2021_1c_en_c_errados.Protocol.Messages.NuevaTarea
use tp_2021_1c_en_c_errados.Protocol.Messages.IniciarPatota
use tp_2021_1c_en_c_errados.Protocol.Messages.InicioTarea
use tp_2021_1c_en_c_errados.Protocol.Messages.FinalizacionTarea
use tp_2021_1c_en_c_errados.Protocol.Messages.Bitacora

-- A list of up to 159072862 crew members, whose words and states fit their fields, serialises, and
-- reading the buffer gives the same list in the same order.
pub lista_tripulantes_round_trip :
    (m : ListaTripulantes.Message)
    → ListaTripulantes.IsValid m
    → (b : Buffer) × (ListaTripulantes.serialize m ≡ some b)
      × (ListaTripulantes.deserialize b ≡ some m)
lista_tripulantes_round_trip m v =
    let (b, e, h) = ListaTripulantes.serializar-Holds m v in
    (b, e, ListaTripulantes.deserializar-Holds m b v h)

-- An answer to a request for a task, with a text that fits the buffer or without a task,
-- serialises, and reading the buffer gives it back: NULL stays NULL.
pub nueva_tarea_round_trip :
    (m : NuevaTarea.Message)
    → NuevaTarea.IsValid m
    → (b : Buffer) × (NuevaTarea.serializar m ≡ some b) × (NuevaTarea.deserializar b ≡ some m)
nueva_tarea_round_trip m v =
    let (b, e, h) = NuevaTarea.serializar-Holds m v in (b, e, NuevaTarea.deserializar-Holds m b v h)

-- The message of a move of a crew member, whose fields fit 32 bits,
-- serialises, and reading the buffer gives it back.
pub desplazamiento_tripulante_round_trip :
    (m : DesplazamientoTripulante.Message)
    → DesplazamientoTripulante.IsValid m
    → (b : Buffer) × (DesplazamientoTripulante.serializar m ≡ some b)
      × (DesplazamientoTripulante.deserializar b ≡ some m)
desplazamiento_tripulante_round_trip m v =
    let (b, e, h) = DesplazamientoTripulante.serializar-Holds m in
    (b, e, DesplazamientoTripulante.deserializar-Holds m b v h)

-- The message of the removal of a crew member, whose fields fit 32 bits,
-- serialises, and reading the buffer gives it back.
pub eliminar_tripulante_round_trip :
    (m : EliminarTripulante.Message)
    → EliminarTripulante.IsValid m
    → (b : Buffer) × (EliminarTripulante.serializar m ≡ some b)
      × (EliminarTripulante.deserializar b ≡ some m)
eliminar_tripulante_round_trip m v =
    let (b, e, h) = EliminarTripulante.serializar-Holds m in
    (b, e, EliminarTripulante.deserializar-Holds m b v h)

-- The message of the news of a sabotage, whose fields fit 32 bits,
-- serialises, and reading the buffer gives it back.
pub informar_sabotaje_round_trip :
    (m : InformarSabotaje.Message)
    → InformarSabotaje.IsValid m
    → (b : Buffer) × (InformarSabotaje.serializar m ≡ some b)
      × (InformarSabotaje.deserializar b ≡ some m)
informar_sabotaje_round_trip m v =
    let (b, e, h) = InformarSabotaje.serializar-Holds m in
    (b, e, InformarSabotaje.deserializar-Holds m b v h)

-- The message of the start of a crew member, whose fields fit 32 bits,
-- serialises, and reading the buffer gives it back.
pub iniciar_tripulante_round_trip :
    (m : IniciarTripulante.Message)
    → IniciarTripulante.IsValid m
    → (b : Buffer) × (IniciarTripulante.serializar m ≡ some b)
      × (IniciarTripulante.deserializar b ≡ some m)
iniciar_tripulante_round_trip m v =
    let (b, e, h) = IniciarTripulante.serializar-Holds m in
    (b, e, IniciarTripulante.deserializar-Holds m b v h)

-- The message of a new position of a crew member, whose fields fit 32 bits,
-- serialises, and reading the buffer gives it back.
pub movimiento_tripulante_round_trip :
    (m : MovimientoTripulante.Message)
    → MovimientoTripulante.IsValid m
    → (b : Buffer) × (MovimientoTripulante.serializar m ≡ some b)
      × (MovimientoTripulante.deserializar b ≡ some m)
movimiento_tripulante_round_trip m v =
    let (b, e, h) = MovimientoTripulante.serializar-Holds m in
    (b, e, MovimientoTripulante.deserializar-Holds m b v h)

-- The message of a request for the next task, whose fields fit 32 bits,
-- serialises, and reading the buffer gives it back.
pub proxima_tarea_round_trip :
    (m : ProximaTarea.Message)
    → ProximaTarea.IsValid m
    → (b : Buffer) × (ProximaTarea.serializar m ≡ some b) × (ProximaTarea.deserializar b ≡ some m)
proxima_tarea_round_trip m v =
    let (b, e, h) = ProximaTarea.serializar-Holds m in
    (b, e, ProximaTarea.deserializar-Holds m b v h)

-- The message of a new state of a crew member, whose fields fit the words and bytes that they are written to,
-- serialises, and reading the buffer gives it back.
pub tripulante_nuevo_estado_round_trip :
    (m : TripulanteNuevoEstado.Message)
    → TripulanteNuevoEstado.IsValid m
    → (b : Buffer) × (TripulanteNuevoEstado.serializar m ≡ some b)
      × (TripulanteNuevoEstado.deserializar b ≡ some m)
tripulante_nuevo_estado_round_trip m v =
    let (b, e, h) = TripulanteNuevoEstado.serializar-Holds m in
    (b, e, TripulanteNuevoEstado.deserializar-Holds m b v h)

-- The message of the start of work on a sabotage, whose fields fit 32 bits,
-- serialises, and reading the buffer gives it back.
pub atiende_sabotaje_round_trip :
    (m : AtiendeSabotaje.Message)
    → AtiendeSabotaje.IsValid m
    → (b : Buffer) × (AtiendeSabotaje.serializar m ≡ some b)
      × (AtiendeSabotaje.deserializar b ≡ some m)
atiende_sabotaje_round_trip m v =
    let (b, e, h) = AtiendeSabotaje.serializar-Holds m in
    (b, e, AtiendeSabotaje.deserializar-Holds m b v h)

-- The message of the end of a sabotage, whose fields fit 32 bits,
-- serialises, and reading the buffer gives it back.
pub resuelve_sabotaje_round_trip :
    (m : ResuelveSabotaje.Message)
    → ResuelveSabotaje.IsValid m
    → (b : Buffer) × (ResuelveSabotaje.serializar m ≡ some b)
      × (ResuelveSabotaje.deserializar b ≡ some m)
resuelve_sabotaje_round_trip m v =
    let (b, e, h) = ResuelveSabotaje.serializar-Holds m in
    (b, e, ResuelveSabotaje.deserializar-Holds m b v h)

-- The message of a request for a log, whose fields fit 32 bits,
-- serialises, and reading the buffer gives it back.
pub obtener_bitacora_round_trip :
    (m : ObtenerBitacora.Message)
    → ObtenerBitacora.IsValid m
    → (b : Buffer) × (ObtenerBitacora.serializar m ≡ some b)
      × (ObtenerBitacora.deserializar b ≡ some m)
obtener_bitacora_round_trip m v =
    let (b, e, h) = ObtenerBitacora.serializar-Holds m in
    (b, e, ObtenerBitacora.deserializar-Holds m b v h)

-- The message that starts a group is made of any text without a zero byte that fits the buffer; it serialises, and reading
-- the buffer gives it back, with every byte of the text and its end.
pub iniciar_patota_round_trip :
    (pid cant_trips : ℕ) (s : List ℕ)
    → IsU32 pid
    → IsU32 cant_trips
    → IsText s
    → length s + 13 ≤ limit
    → (m : IniciarPatota.Message) × (IniciarPatota.crear pid cant_trips (c_string s) ≡ some m)
      × (b : Buffer) × (IniciarPatota.serializar m ≡ some b)
      × (IniciarPatota.deserializar b ≡ some m)
iniciar_patota_round_trip pid cant_trips s pid_fits cant_trips_fits text short =
    let (e, ok) =
      IniciarPatota.crear-IsValid pid cant_trips s pid_fits cant_trips_fits text short in
    let (b, e', h) = IniciarPatota.serializar-Holds (IniciarPatota.carrying pid cant_trips s) ok in
    (
      IniciarPatota.carrying pid cant_trips s,
      e,
      b,
      e',
      IniciarPatota.deserializar-Holds (IniciarPatota.carrying pid cant_trips s) b ok h,
    )

-- The message of the start of a task is made of any text without a zero byte that fits the buffer; it serialises, and reading
-- the buffer gives it back, with every byte of the text and its end.
pub inicio_tarea_round_trip :
    (tripulante_id : ℕ) (s : List ℕ)
    → IsU32 tripulante_id
    → IsText s
    → length s + 9 ≤ limit
    → (m : InicioTarea.Message) × (InicioTarea.crear tripulante_id (c_string s) ≡ some m)
      × (b : Buffer) × (InicioTarea.serializar m ≡ some b)
      × (InicioTarea.deserializar b ≡ some m)
inicio_tarea_round_trip tripulante_id s tripulante_id_fits text short =
    let (e, ok) = InicioTarea.crear-IsValid tripulante_id s tripulante_id_fits text short in
    let (b, e', h) = InicioTarea.serializar-Holds (InicioTarea.carrying tripulante_id s) ok in
    (
      InicioTarea.carrying tripulante_id s,
      e,
      b,
      e',
      InicioTarea.deserializar-Holds (InicioTarea.carrying tripulante_id s) b ok h,
    )

-- The message of the end of a task is made of any text without a zero byte that fits the buffer; it serialises, and reading
-- the buffer gives it back, with every byte of the text and its end.
pub finalizacion_tarea_round_trip :
    (tripulante_id : ℕ) (s : List ℕ)
    → IsU32 tripulante_id
    → IsText s
    → length s + 9 ≤ limit
    → (m : FinalizacionTarea.Message) × (FinalizacionTarea.crear tripulante_id (c_string s)
        ≡ some m)
      × (b : Buffer) × (FinalizacionTarea.serializar m ≡ some b)
      × (FinalizacionTarea.deserializar b ≡ some m)
finalizacion_tarea_round_trip tripulante_id s tripulante_id_fits text short =
    let (e, ok) = FinalizacionTarea.crear-IsValid tripulante_id s tripulante_id_fits text short in
    let (b, e', h) =
      FinalizacionTarea.serializar-Holds (FinalizacionTarea.carrying tripulante_id s) ok in
    (
      FinalizacionTarea.carrying tripulante_id s,
      e,
      b,
      e',
      FinalizacionTarea.deserializar-Holds (FinalizacionTarea.carrying tripulante_id s) b ok h,
    )

-- The message with the contents of a log is made of any text without a zero byte that fits the buffer; it serialises, and reading
-- the buffer gives it back, with every byte of the text and its end.
pub bitacora_round_trip :
    (s : List ℕ)
    → IsText s
    → length s + 5 ≤ limit
    → (m : Bitacora.Message) × (Bitacora.crear (c_string s) ≡ some m)
      × (b : Buffer) × (Bitacora.serializar m ≡ some b)
      × (Bitacora.deserializar b ≡ some m)
bitacora_round_trip s text short =
    let (e, ok) = Bitacora.crear-IsValid s text short in
    let (b, e', h) = Bitacora.serializar-Holds (Bitacora.carrying s) ok in
    (Bitacora.carrying s, e, b, e', Bitacora.deserializar-Holds (Bitacora.carrying s) b ok h)
