-- ===== src/Protocol/Messages.antt =====
-- The messages of utils/src/protocol/messages, a module for each file.
pub mod AtiendeSabotaje
pub mod Bitacora
pub mod DesplazamientoTripulante
pub mod EliminarTripulante
pub mod Fail
pub mod FinalizacionTarea
pub mod InformarSabotaje
pub mod IniciarPatota
pub mod IniciarTripulante
pub mod InicioTarea
pub mod MovimientoTripulante
pub mod ObtenerBitacora
pub mod ProximaTarea
pub mod ResuelveSabotaje
pub mod TripulanteNuevoEstado
pub mod ListaTripulantes
pub mod NuevaTarea
