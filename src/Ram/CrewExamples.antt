-- ===== src/Ram/CrewExamples.antt =====
-- Runs of the operations on crew members, Mi-RAM-HQ/src/memoria/esquemas/segmentacion, at a small
-- memory.
use tp_2021_1c_en_c_errados.Prelude.{
  suma, ℕ, ◌≡◌, inl, refl, arith, List, [], ◌∷◌, ◌++◌, replicate, some, copy_from,
}
use tp_2021_1c_en_c_errados.Protocol.Fields.{Pos, IsPos}
use tp_2021_1c_en_c_errados.Ram.Segments.{Segmento, first_fit, menos_uno, segmento_libre}
use tp_2021_1c_en_c_errados.Ram.Tables.{
  SegmentoTripulante, ultimo_indice, primer_indice, buscar_ultimo,
}
use tp_2021_1c_en_c_errados.Ram.Physical.{leer32}
use tp_2021_1c_en_c_errados.Ram.Segmentation.{Memoria}
use tp_2021_1c_en_c_errados.Ram.Allocation.Start.{EnCuenta}
use tp_2021_1c_en_c_errados.Ram.Crew.{
  Tripulante, inicializar_tripulante, actualizar_posicion_tripulante, obtener_tcb,
  obtener_proxima_tarea, obtener_tareas_de_patota, expulsar_tripulante, direccion_tcb,
  todos_expulsados,
}
use tp_2021_1c_en_c_errados.Ram.Crew.Tcb.{Guardado}
use tp_2021_1c_en_c_errados.Ram.Crew.Updates.{
  Lugar, inicializar_tripulante-obtener_tcb, actualizar_posicion_tripulante-other,
}
use tp_2021_1c_en_c_errados.Ram.Crew.Tasks.{obtener_proxima_tarea_lem}
use tp_2021_1c_en_c_errados.Ram.Crew.Expel.{Registrado, expulsar_tripulante-EnCuenta}

abbrev segmento : ℕ → ℕ → ℕ → ℕ → Segmento
segmento inicio tamanio tipo id = record {
  inicio = inicio;
  tamanio = tamanio;
  tipo = tipo;
  id_propietario = id;
}

abbrev slot : ℕ → ℕ → SegmentoTripulante
slot tid inicio = record { tid = tid; inicio_segmento_tcb = inicio; tamanio_segmento_tcb = 21 }

-- The patota 7 with two TCBs, its tasks "AB" and its PCB; the second TCB has the tid `segundo`.
abbrev con_dos : ℕ → Memoria
con_dos segundo = record {
  tamanio_memoria = 100;
  criterio_seleccion = first_fit;
  listado_segmentos =
      segmento 0 21 2 1
      ∷ segmento 21 21 2 segundo
      ∷ segmento 42 3 1 7
      ∷ segmento 45 8 0 7
      ∷ segmento_libre 53 47
      ∷ [];
  espacio_libre = 47;
  mfisica = replicate 42 0 ++ (65 ∷ 66 ∷ 0 ∷ replicate 55 0);
  listado_patotas =
      record {
        pid = 7;
        tabla_segmentos = record {
          inicio_segmento_pcb = 45;
          tamanio_segmento_pcb = 8;
          inicio_segmento_tareas = 42;
          tamanio_segmento_tareas = 3;
          listado_tripulantes = slot 1 0 ∷ slot segundo 21 ∷ [];
        };
      }
      ∷ [];
}

abbrev en_cero : ℕ → Tripulante
en_cero tid = record {
  pid = 7;
  tid = tid;
  pos = record { x = 0; y = 0 };
  estado = 0;
  proxima_tarea = 0;
}

abbrev lejos : Pos
lejos = record { x = 300; y = 4 }

lejos-IsPos : IsPos lejos
lejos-IsPos = record { x_fits = omega arith; y_fits = omega arith }

lugar : Lugar (con_dos menos_uno) 7 5
unfolding buscar_ultimo ultimo_indice primer_indice
lugar = record {
  i = 0;
  p = _;
  k = 1;
  t = slot menos_uno 21;
  patota = refl;
  slot = refl;
  at = refl;
  nuevo = ((omega arith), ((omega arith), tt));
  room = omega arith;
}

inicializar_tripulante-obtener_tcb_example :
    (m' : Memoria) × (inicializar_tripulante (con_dos menos_uno) 7 5 lejos ≡ some m')
    × (obtener_tcb m' 7 5
        ≡ some (record { pid = 7; tid = 5; pos = lejos; estado = 78; proxima_tarea = 0 }))
inicializar_tripulante-obtener_tcb_example =
    inicializar_tripulante-obtener_tcb (con_dos menos_uno) 7 5 lejos lejos-IsPos lugar

uno-Guardado : Guardado (con_dos 2) 0 (en_cero 1)
unfolding direccion_tcb buscar_ultimo ultimo_indice leer32 copy_from
uno-Guardado = record {
  direccion = refl;
  bytes = record { room = omega arith; estado = refl; x = refl; y = refl; proxima = refl };
}

dos-Guardado : Guardado (con_dos 2) 21 (en_cero 2)
unfolding direccion_tcb buscar_ultimo ultimo_indice leer32 copy_from
dos-Guardado = record {
  direccion = refl;
  bytes = record { room = omega arith; estado = refl; x = refl; y = refl; proxima = refl };
}

actualizar_posicion_tripulante-other_example :
    (m' : Memoria) × (actualizar_posicion_tripulante (con_dos 2) 7 1 lejos ≡ some m')
    × Guardado m' 21 (en_cero 2)
actualizar_posicion_tripulante-other_example =
    actualizar_posicion_tripulante-other (con_dos 2) 0 (en_cero 1) lejos 21 (en_cero 2) uno-Guardado
      dos-Guardado (inl (omega arith))

-- One task, the whole text.
abbrev una_tarea : List ℕ → List (List ℕ)
una_tarea text = text ∷ []

obtener_proxima_tarea_lem_example :
    (m' : Memoria) × (obtener_proxima_tarea una_tarea (con_dos 2) 7 1
      ≡ some (some (65 ∷ 66 ∷ []), m'))
    × Guardado m' 0 (record (en_cero 1) { proxima_tarea = 1 })
unfolding obtener_tareas_de_patota buscar_ultimo ultimo_indice copy_from
obtener_proxima_tarea_lem_example =
    obtener_proxima_tarea_lem una_tarea (con_dos 2) 0 (en_cero 1) (65 ∷ 66 ∷ []) uno-Guardado refl
      ((omega arith), ((omega arith), tt))

dos-EnCuenta : EnCuenta (con_dos 2)
unfolding suma
dos-EnCuenta = record {
  regla = record {
    small = omega arith;
    inside = (
      (omega arith, omega arith),
      (
        (omega arith, omega arith),
        (
          (omega arith, omega arith),
          ((omega arith, omega arith), ((omega arith, omega arith), tt)),
        ),
      ),
    );
    total = refl;
    once = λ a h. ground arith;
  };
  cuenta = refl;
  entera = refl;
}

registrado : Registrado (con_dos 2) 7 2
unfolding buscar_ultimo ultimo_indice
registrado = record {
  i = 0;
  p = _;
  k = 1;
  t = slot 2 21;
  patota = refl;
  tripulante = refl;
  tcb = (1, segmento 21 21 2 2, refl, omega arith, refl);
  pcb = (3, segmento 45 8 0 7, refl, omega arith, refl);
  tareas = (2, segmento 42 3 1 7, refl, omega arith, refl);
  pcb_tcb = omega arith;
  tareas_tcb = omega arith;
  tareas_pcb = omega arith;
}

expulsar_tripulante-EnCuenta_example :
    (m' : Memoria) × (expulsar_tripulante (con_dos 2) 7 2 ≡ some m')
    × EnCuenta m'
    × (m'.espacio_libre ≡ 68)
unfolding todos_expulsados registrado
expulsar_tripulante-EnCuenta_example =
    expulsar_tripulante-EnCuenta (con_dos 2) 7 2 registrado dos-EnCuenta
