-- ===== src/Ram/Allocation/Refused.antt =====
-- Where `segmentacion_inicializar_patota` of
-- Mi-RAM-HQ/src/memoria/esquemas/segmentacion/segmentacion.c refuses a patota.
use tp_2021_1c_en_c_errados.Ram.Allocation.Patota.{tamanio_patota}
use tp_2021_1c_en_c_errados.Prelude.{suma, ℕ, ◌+◌, ◌<◌, ◌≡◌, refl, List, true, false, length, arith}
use tp_2021_1c_en_c_errados.Prelude.Run.{done}
use tp_2021_1c_en_c_errados.Ram.Segments.Cover.{bytes_libres}
use tp_2021_1c_en_c_errados.Ram.Segmentation.{Memoria, int_mayor, tamanio_data}
use tp_2021_1c_en_c_errados.Ram.Allocation.{inicializar_patota}
use tp_2021_1c_en_c_errados.Ram.Allocation.Start.{EnCuenta}

-- In a memory whose count of free bytes is right, a patota of less than 2^31 bytes that takes more
-- bytes than are free is refused, and nothing changes.
pub inicializar_patota_refused :
    (fuel : ℕ) (m : Memoria) (pid cant : ℕ) (tareas : List ℕ)
    → EnCuenta m
    → suma bytes_libres m.listado_segmentos < tamanio_patota cant tareas
    → tamanio_patota cant tareas < 2147483648
    → inicializar_patota fuel m pid cant tareas ≡ done (false, m)
unfolding inicializar_patota
inicializar_patota_refused fuel m pid cant tareas q more small =
    let counted = q.cuenta in
    let large : int_mayor (tamanio_data cant (length tareas + 1)) m.espacio_libre ≡ true =
      ground arith in
    rw large refl
