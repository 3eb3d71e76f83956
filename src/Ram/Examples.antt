-- ===== src/Ram/Examples.antt =====
-- Runs of the memory process of Mi-RAM-HQ/src/memoria at small memories.
use tp_2021_1c_en_c_errados.Prelude.Run.{abort, done}
use tp_2021_1c_en_c_errados.Ram.Allocation.Cut.{compactar-ocupar_segmento}
use tp_2021_1c_en_c_errados.Ram.Segmentation.{
  ocupar_segmento, reasignar_desde, reasignar_segmento, actualizar_estructura_y_memoria,
  reasignar_en, Memoria,
}
use tp_2021_1c_en_c_errados.Ram.Allocation.Slots.{forma}
use tp_2021_1c_en_c_errados.Ram.Segments.{
  cantidad_libres, es_ultimo, esta_compactado, primer_libre, reacomodar, elegir, Segmento,
  first_fit, best_fit, menos_uno, segmento_libre, hay_segmento_libre, buscar_segmento,
  indice_elegido, resto, ocupado, clave,
}
use tp_2021_1c_en_c_errados.Ram.Segments.Step.{medida, cantidad_ocupados}
use tp_2021_1c_en_c_errados.Ram.Physical.{poner, mover}
use tp_2021_1c_en_c_errados.Prelude.{
  suma, copy_from, splice, ℕ, ◌+◌, ◌≤◌, ◌<◌, ◌≡◌, ◌⊎◌, ◌↔◌, refl, arith, true, false, List, [], ◌∷◌,
  ◌++◌, replicate, some, none, set, get_elem?,
}
use tp_2021_1c_en_c_errados.Ram.Tables.{ultimo_indice, buscar_ultimo, PatotaYTabla}
use tp_2021_1c_en_c_errados.Ram.Allocation.Compaction.{
  EnOrden, Coherente, Compactada, compactar_lem,
}
use tp_2021_1c_en_c_errados.Ram.Allocation.{compactar, inicializar_patota}
use tp_2021_1c_en_c_errados.Ram.Segments.Fit.{Elegido, buscar_segmento_lem}
use tp_2021_1c_en_c_errados.Ram.Segments.Cover.{IsPartition, EstaLibre}
use tp_2021_1c_en_c_errados.Ram.Segments.Split.{
  buscar_segmento-IsPartition, buscar_segmento-EstaLibre, buscar_segmento-other,
}
use tp_2021_1c_en_c_errados.Ram.Allocation.Start.{EnCuenta, inicializar_patota_lem}
use tp_2021_1c_en_c_errados.Ram.Crew.{obtener_tareas_de_patota}

abbrev segmento : ℕ → ℕ → ℕ → ℕ → Segmento
segmento inicio tamanio tipo id = record {
  inicio = inicio;
  tamanio = tamanio;
  tipo = tipo;
  id_propietario = id;
}

-- A memory of 100 bytes, all free, or with its first 30 bytes in use.
abbrev vacia : List Segmento
vacia = segmento_libre 0 100 ∷ []

abbrev media : List Segmento
media = segmento 0 30 1 7 ∷ segmento_libre 30 70 ∷ []

vacia-IsPartition : IsPartition 100 vacia
unfolding suma
vacia-IsPartition = record {
  small = omega arith;
  inside = ((omega arith, omega arith), tt);
  total = refl;
  once = λ a h. ground arith;
}

media-IsPartition : IsPartition 100 media
unfolding suma
media-IsPartition = record {
  small = omega arith;
  inside = ((omega arith, omega arith), ((omega arith, omega arith), tt));
  total = refl;
  once = λ a h. ground arith;
}

abbrev media_partida : List Segmento
media_partida = segmento 0 30 1 7 ∷ segmento 30 21 2 menos_uno ∷ segmento_libre 51 49 ∷ []

media_taken : buscar_segmento best_fit 100 media 21 2 7 ≡ some (30, media_partida)
unfolding buscar_segmento indice_elegido elegir resto
media_taken = refl

buscar_segmento_lem_example :
    (hay_segmento_libre media 21 ≡ true
      → (i : ℕ) × (s : Segmento) × Elegido (clave best_fit) media 21 i s
        × (buscar_segmento best_fit 100 media 21 2 7
            ≡ some (s.inicio, set media i (ocupado s 21 2 7) ++ resto s 21)))
    × (hay_segmento_libre media 21 ≡ false → buscar_segmento best_fit 100 media 21 2 7 ≡ none)
buscar_segmento_lem_example =
    buscar_segmento_lem best_fit 100 media 21 2 7 (omega arith) media-IsPartition.inside

buscar_segmento-IsPartition_example : IsPartition 100 media_partida
buscar_segmento-IsPartition_example =
    buscar_segmento-IsPartition best_fit 100 media 21 2 7 30 media_partida media-IsPartition
      (omega arith) media_taken

buscar_segmento-EstaLibre_example :
    (30 ≤ 35 → 35 < 51 → EstaLibre media 35 × ¬ EstaLibre media_partida 35)
    × ((35 < 30) ⊎ (51 ≤ 35) → EstaLibre media_partida 35 ↔ EstaLibre media 35)
buscar_segmento-EstaLibre_example =
    buscar_segmento-EstaLibre best_fit 100 media 21 2 7 30 media_partida media-IsPartition
      (omega arith) media_taken 35

buscar_segmento-other_example : get_elem? media_partida 0 ≡ some (segmento 0 30 1 7)
buscar_segmento-other_example =
    buscar_segmento-other best_fit 100 media 21 2 7 30 media_partida media-IsPartition media_taken 0
      (segmento 0 30 1 7) refl (omega arith)

abbrev memoria : List Segmento → ℕ → List ℕ → List PatotaYTabla → Memoria
memoria segmentos libre bytes patotas = record {
  tamanio_memoria = 100;
  criterio_seleccion = first_fit;
  listado_segmentos = segmentos;
  espacio_libre = libre;
  mfisica = bytes;
  listado_patotas = patotas;
}

abbrev limpia : Memoria
limpia = memoria vacia 100 (replicate 100 0) []

limpia-EnCuenta : EnCuenta limpia
unfolding suma
limpia-EnCuenta = record { regla = vacia-IsPartition; cuenta = refl; entera = refl }

inicializar_patota_lem_example :
    (m' : Memoria) × (inicializar_patota 0 limpia 7 2 (65 ∷ 66 ∷ []) ≡ done (true, m'))
    × EnCuenta m'
    × (m'.espacio_libre + 53 ≡ 100)
    × (obtener_tareas_de_patota m' 7 ≡ some (65 ∷ 66 ∷ 0 ∷ []))
unfolding hay_segmento_libre
inicializar_patota_lem_example =
    inicializar_patota_lem 0 limpia 7 2 (65 ∷ 66 ∷ []) limpia-EnCuenta refl

abbrev con_hueco_tabla : PatotaYTabla
con_hueco_tabla = record {
  pid = 7;
  tabla_segmentos = record {
    inicio_segmento_pcb = 30;
    tamanio_segmento_pcb = 8;
    inicio_segmento_tareas = 0;
    tamanio_segmento_tareas = 0;
    listado_tripulantes = [];
  };
}

-- A hole of 30 bytes, the PCB of the patota 7, and the rest.
abbrev con_hueco : Memoria
con_hueco =
    memoria (segmento_libre 0 30 ∷ segmento 30 8 0 7 ∷ segmento_libre 38 62 ∷ []) 92
      (replicate 100 0) (con_hueco_tabla ∷ [])

con_hueco-EnOrden : EnOrden con_hueco
unfolding cantidad_libres
con_hueco-EnOrden = record {
  small = omega arith;
  contiguo = (
    refl,
    omega arith,
    (λ _. refl),
    (
      refl,
      omega arith,
      (λ h. let t : false ≡ true = h in cc),
      (refl, omega arith, (λ _. refl), refl),
    ),
  );
  alguno = omega arith;
}

con_hueco-Coherente : Coherente con_hueco
unfolding buscar_ultimo ultimo_indice
con_hueco-Coherente = record {
  entera = refl;
  dentro = (record { pcb = omega arith; tareas = omega arith; slots = tt }, tt);
  movibles = (
    ((λ h. absurd (omega (arith, h))), (λ h. absurd (omega (arith, h))), (λ h. (tt, tt))),
    (
      (
        (λ h. (0, forma con_hueco_tabla, refl, omega arith)),
        (λ h. absurd (omega (arith, h))),
        (λ h. (tt, tt)),
      ),
      (((λ h. absurd (omega (arith, h))), (λ h. absurd (omega (arith, h))), (λ h. (tt, tt))), tt),
    ),
  );
}

compactar_lem_example :
    (m' : Memoria) × (compactar 10 con_hueco ≡ done m') × Compactada con_hueco m' × Coherente m'
unfolding medida cantidad_ocupados
compactar_lem_example =
    compactar_lem 10 con_hueco con_hueco-EnOrden con_hueco-Coherente (omega arith)

compactar_ends_packed :
    compactar 10 con_hueco
    ≡ done (
        memoria (segmento 0 8 0 7 ∷ segmento_libre 8 92 ∷ []) 92 (replicate 100 0) (
          record {
            pid = 7;
            tabla_segmentos = record {
              inicio_segmento_pcb = 0;
              tamanio_segmento_pcb = 8;
              inicio_segmento_tareas = 0;
              tamanio_segmento_tareas = 0;
              listado_tripulantes = [];
            };
          }
          ∷ []))
unfolding compactar reasignar_segmento reasignar_en reasignar_desde primer_libre elegir reacomodar
    actualizar_estructura_y_memoria mover poner esta_compactado cantidad_libres es_ultimo
    ultimo_indice buscar_ultimo copy_from splice
compactar_ends_packed = refl

-- A hole in the middle of a memory that is full but for it.
abbrev con_un_hueco : Memoria
con_un_hueco =
    memoria (segmento 0 30 1 7 ∷ segmento_libre 30 40 ∷ segmento 70 30 1 8 ∷ []) 40
      (replicate 100 0) []

compactar-ocupar_segmento_example :
    (m' : Memoria) × (ocupar_segmento con_un_hueco 21 2 7 ≡ some (30, m'))
    × (compactar 5 m' ≡ abort)
unfolding cantidad_libres
compactar-ocupar_segmento_example =
    compactar-ocupar_segmento 4 21 2 7 con_un_hueco (segmento 0 30 1 7 ∷ []) (segmento_libre 30 40)
      (segmento 70 30 1 8 ∷ []) refl refl refl refl (omega arith) (omega arith) (omega arith)
      (omega arith)
