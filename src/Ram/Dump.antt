-- ===== src/Ram/Dump.antt =====
-- The dump of the memory and the signals that ask for it or for a compaction, of
-- Mi-RAM-HQ/src/memoria/esquemas/segmentacion/segmentacion.c.
use tp_2021_1c_en_c_errados.Prelude.{
  ℕ, suc, List, [], ◌∷◌, ◌++◌, ◌&&◌, ◌||◌, not, ◌==◌, if◌then◌else◌,
}
use tp_2021_1c_en_c_errados.Ram.Segments.{Segmento, menos_uno}
use tp_2021_1c_en_c_errados.Ram.Tables.{SegmentoTripulante, PatotaYTabla}
use tp_2021_1c_en_c_errados.Ram.Segmentation.{Memoria}
use tp_2021_1c_en_c_errados.Prelude.Run.{Run, done, ◌>>=◌}
use tp_2021_1c_en_c_errados.Ram.Allocation.{compactar}

-- A line of `segmentacion_memoria_dump`.
pub record Linea : Type 0 where
  pub proceso : ℕ
  pub segmento : ℕ
  pub inicio : ℕ
  pub tam : ℕ

abbrev pub linea : ℕ → ℕ → Segmento → Linea
linea proceso indice s = record {
  proceso = proceso;
  segmento = indice;
  inicio = s.inicio;
  tam = s.tamanio;
}

unfoldable pub lineas_de_slots : ℕ → List SegmentoTripulante → ℕ → Segmento → List Linea
lineas_de_slots pid [] indice s = []
lineas_de_slots pid (t ∷ ts) indice s =
    let rest = lineas_de_slots pid ts indice s in
    if t.tid == s.id_propietario then linea pid indice s ∷ rest else rest

unfoldable pub lineas_de_patotas : List PatotaYTabla → ℕ → Segmento → List Linea
lineas_de_patotas [] indice s = []
lineas_de_patotas (p ∷ ps) indice s =
    lineas_de_slots p.pid p.tabla_segmentos.listado_tripulantes indice s
    ++ lineas_de_patotas ps indice s

unfoldable pub lineas_de_segmento : List PatotaYTabla → ℕ → Segmento → List Linea
lineas_de_segmento patotas indice s =
    (if (s.tipo == 0) || (s.tipo == 1) then linea s.id_propietario indice s ∷ [] else [])
    ++ (if (s.tipo == 2) && not (s.id_propietario == menos_uno)
        then lineas_de_patotas patotas indice s
        else if s.id_propietario == menos_uno
        then linea menos_uno indice s ∷ []
        else [])

unfoldable pub lineas_desde : List PatotaYTabla → ℕ → List Segmento → List Linea
lineas_desde patotas indice [] = []
lineas_desde patotas indice (s ∷ ss) =
    lineas_de_segmento patotas indice s ++ lineas_desde patotas (suc indice) ss

unfoldable pub memoria_dump : Memoria → List Linea
memoria_dump m = lineas_desde m.listado_patotas 0 m.listado_segmentos

-- SIGUSR1, SIGUSR2 and the other signals.
pub data Senial : Type 0 where
  usr1 : Senial
  usr2 : Senial
  otra : Senial

-- The lines that are logged, and the state afterwards.
unfoldable pub recibir_signal : ℕ → Memoria → Senial → Run (List Linea × Memoria)
recibir_signal fuel m usr1 = do compactada ← compactar fuel m; done ([], compactada)
recibir_signal fuel m usr2 = done (memoria_dump m, m)
recibir_signal fuel m otra = done ([], m)
