-- ===== src/Discordia/SystemExamples.antt =====
-- Tests of the theorems on the threads of Discordia/src/planificador.
use tp_2021_1c_en_c_errados.Prelude.{
  if◌then◌else◌, suma, ◌+◌, ◌≤◌, ◌≡◌, refl, true, false, none, some, [], ◌∷◌, ◌++◌, arith, length,
}
use tp_2021_1c_en_c_errados.Protocol.Fields.{Pos}
use tp_2021_1c_en_c_errados.Discordia.Crew.{
  avisar, primera_respuesta, otras_respuestas, discordia_obtener_proxima_tarea, parsear_tarea,
  hay_tarea, tripulante_obtener_proxima_tarea, cmp_pos, ejecutar_en_cpu, trabajar, tripulante_turno,
  Tripulante, proxima_tarea, iniciar_tarea, finalizar_tarea, Red, Turno, tripulante_create,
  avisar_estado, states_char, tripulante_change_state, tripulante_terminate,
}
use tp_2021_1c_en_c_errados.Discordia.Planner.{
  ds_planificador_iniciar_tripulante, ds_planificador_eliminar_tripulante, ds_planificador_iniciar,
  rr, Planificador, cola, con_cola, ds_planificador_init, encolar,
  ds_planificador_find_and_terminate_trip, find_and_terminate_from, terminar, pasar_a,
}
use tp_2021_1c_en_c_errados.Discordia.Planner.Admission.{
  admitir_nuevos, ds_planificador_admit_from_new_to_ready, admitir_listos,
  ds_planificador_admit_from_ready_to_exec,
}
use tp_2021_1c_en_c_errados.Discordia.Planner.Cycle.{empezar_ciclo}
use tp_2021_1c_en_c_errados.Discordia.Queues.{
  ds_queue_mt_pop, queue_exec, sacar_de, ds_queue_mt_push, ds_queue_manager_init, con_menos,
  ds_queue_mt_is_full,
}
use tp_2021_1c_en_c_errados.Discordia.System.{
  despertar, tras_turno, ejecutando, en_espera, con, Sistema, iniciar_tripulante, eliminar, iniciar,
  Reach, here, next, dormido, despierto, admitiendo, ejecutar_siguiente_ciclo, con_cpu, revisar,
  empezar, admitir, tomar_trip, inicial,
}
use tp_2021_1c_en_c_errados.Discordia.Planner.Weights.{peso_trip}
use tp_2021_1c_en_c_errados.Discordia.System.Census.{peso_cpu, ocupada, censo, Sana}
use tp_2021_1c_en_c_errados.Discordia.System.Lost.{uno, expulsion_perdida}
use tp_2021_1c_en_c_errados.Discordia.System.Reachable.{arranque, Reach-censo, Reach-multitarea}
use tp_2021_1c_en_c_errados.Discordia.Samples.{
  commons, en, trip, mirar, sin_nada, planta, commons-Ordena,
}

-- Two crew members are started, the first is expelled while the planner is paused, and the planner
-- is started.
abbrev al_comienzo : Sistema
al_comienzo = arranque 2 2 1 rr []

abbrev con_una : Sistema
con_una = record al_comienzo {
  plan = ds_planificador_iniciar_tripulante 1 5 (en 0 0) al_comienzo.plan;
  iniciados = al_comienzo.iniciados ++ 5 ∷ [];
}

abbrev con_dos : Sistema
con_dos = record con_una {
  plan = ds_planificador_iniciar_tripulante 1 6 (en 3 4) con_una.plan;
  iniciados = con_una.iniciados ++ 6 ∷ [];
}

abbrev con_expulsada : Sistema
con_expulsada = record con_dos { plan = ds_planificador_eliminar_tripulante 5 con_dos.plan }

abbrev en_marcha : Sistema
en_marcha = record con_expulsada {
  plan = ds_planificador_iniciar con_expulsada.plan;
  fase = despertar con_expulsada.fase;
}

hasta_en_marcha : Reach commons al_comienzo en_marcha
hasta_en_marcha =
    next
      (next (next (next here (iniciar_tripulante 1 5 (en 0 0))) (iniciar_tripulante 1 6 (en 3 4)))
        (eliminar 5))
      iniciar

-- Its first cycle begins, and the first CPU takes the crew member that is left.
abbrev despierta : Sistema
despierta = record en_marcha { fase = if en_marcha.plan.pause then dormido else despierto }

abbrev admitidos : Planificador
admitidos = elim (empezar_ciclo commons despierta.plan) [ none ↦ despierta.plan | some p ↦ p ]

abbrev en_ciclo : Sistema
en_ciclo =
    ejecutar_siguiente_ciclo (ds_planificador_admit_from_ready_to_exec admitidos)
      (record despierta { plan = admitidos; fase = admitiendo })

abbrev con_trip : Sistema
con_trip = elim (ds_queue_mt_pop (cola queue_exec en_ciclo.plan)) [
  | none ↦ en_ciclo
  | some (t, q) ↦ con_cpu en_ciclo 0 (con t) (con_cola queue_exec q en_ciclo.plan)
]

hasta_con_trip : Reach commons al_comienzo con_trip
unfolding ds_planificador_eliminar_tripulante empezar_ciclo despertar ds_planificador_iniciar
    ds_planificador_iniciar_tripulante cola con_cola ds_planificador_admit_from_new_to_ready
    admitir_nuevos discordia_obtener_proxima_tarea parsear_tarea tripulante_obtener_proxima_tarea
    ds_queue_mt_pop admitir_listos ds_planificador_admit_from_ready_to_exec ejecutar_siguiente_ciclo
    ds_planificador_init encolar ds_planificador_find_and_terminate_trip find_and_terminate_from
    terminar pasar_a inicial sacar_de ds_queue_mt_push ds_queue_manager_init con_menos
    ds_queue_mt_is_full tripulante_create avisar_estado states_char tripulante_change_state
    tripulante_terminate
hasta_con_trip =
    next
      (next (next (next hasta_en_marcha (revisar refl)) (empezar admitidos refl refl))
        (admitir refl))
      (tomar_trip 0 _ _ refl refl)

Reach-censo_example : censo (uno 6) con_trip ≡ suma (uno 6) con_trip.iniciados
Reach-censo_example =
    Reach-censo commons commons-Ordena 2 2 1 rr [] (omega arith) (omega arith) con_trip
      hasta_con_trip (uno 6)

Reach-multitarea_example :
    length con_trip.plan.colas.exec.elementos + suma ocupada con_trip.cpus ≤ 2
Reach-multitarea_example =
    Reach-multitarea commons commons-Ordena 2 2 1 rr [] (omega arith) (omega arith) con_trip
      hasta_con_trip

-- The last task of the crew member 5 ends in a CPU, after the planner was paused.
abbrev en_su_lugar : Tripulante
en_su_lugar = trip 5 (en 2 1) (some (mirar false 1))

abbrev en_cpu : Sistema
en_cpu = record {
  plan = planta [] [] [];
  fase = ejecutando;
  cpus = con en_su_lugar ∷ en_espera ∷ [];
  io = false;
  iniciados = 5 ∷ [];
}

en_cpu-Sana : Sana 2 en_cpu
unfolding suma peso_cpu ocupada peso_trip
en_cpu-Sana = record {
  orden = record {
    libres = (refl, refl, refl, refl);
    exec = record { justa = refl; cabe = omega arith; chica = omega arith; alguna = omega arith };
    bound = refl;
  };
  lugar = omega arith;
  quietas = λ other. absurd (other refl);
  todos = λ g. omega arith;
}

abbrev ultimo_turno : Turno
ultimo_turno = record {
  trip = trip 5 (en 2 1) none;
  red = record {
    avisos = iniciar_tarea 5 (65 ∷ []) ∷ finalizar_tarea 5 (65 ∷ []) ∷ proxima_tarea 1 5 ∷ [];
    respuestas = [];
  };
  expulsar = true;
}

ultimo_turno_lem : tripulante_turno commons false (en 3 3) en_su_lugar sin_nada ≡ some ultimo_turno
unfolding tripulante_turno trabajar cmp_pos ejecutar_en_cpu avisar tripulante_obtener_proxima_tarea
    discordia_obtener_proxima_tarea parsear_tarea hay_tarea primera_respuesta otras_respuestas
ultimo_turno_lem = refl

expulsion_perdida_example :
    (tras_turno ultimo_turno (planta [] [] [])
      ≡ record (planta [] [] []) { red = ultimo_turno.red })
    × ((pos : Pos) (red : Red)
        → tripulante_turno commons false pos (trip 5 (en 2 1) none) red ≡ none)
unfolding suma
expulsion_perdida_example =
    expulsion_perdida commons 2 0 en_cpu en_su_lugar ultimo_turno en_cpu-Sana refl refl refl
      ultimo_turno_lem refl
