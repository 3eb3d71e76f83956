-- ===== src/Discordia/Planner/Cycle.antt =====
-- Discordia/src/planificador/planificador.c: a turn of the loop of the planner.
use tp_2021_1c_en_c_errados.Prelude.{
  u32_mod, ℕ, ◌+◌, ◌%◌, not, Option, some, List, [], ◌∷◌, if◌then◌else◌,
}
use tp_2021_1c_en_c_errados.Discordia.Crew.{Commons}
use tp_2021_1c_en_c_errados.Discordia.Planner.{
  ds_planificador_find_and_terminate_trip, Planificador,
}
use tp_2021_1c_en_c_errados.Discordia.Planner.Admission.{ds_planificador_admit_from_new_to_ready}
use tp_2021_1c_en_c_errados.Discordia.Planner.Algorithms.{ds_algorithm}
use tp_2021_1c_en_c_errados.Discordia.Planner.Sabotage.{
  ds_planificador_init_rutina_sabotaje, rutina_bloqueados_sabotaje,
}

unfoldable pub ds_planificador_check_exec_queue : Planificador → Option Planificador
ds_planificador_check_exec_queue p =
    if not p.manejar_cola_sabotaje
    then some (ds_algorithm p.algorithm p)
    else rutina_bloqueados_sabotaje p

unfoldable pub atender_pedidos : List ℕ → Planificador → Planificador
atender_pedidos [] p = p
atender_pedidos (tid ∷ tids) p =
    atender_pedidos tids (ds_planificador_find_and_terminate_trip tid p)

unfoldable pub ds_planificador_check_exp_trip_requests : Planificador → Planificador
ds_planificador_check_exp_trip_requests p =
    atender_pedidos p.expulsar_trip_request_queue (record p { expulsar_trip_request_queue = [] })

-- The parts of a turn of `ds_planificador_loop` between the test of `pause` and the admission into
-- EXEC, and after the review of EXEC.
unfoldable pub empezar_ciclo : Commons → Planificador → Option Planificador
empezar_ciclo c p =
    if not p.esta_en_sabotaje
    then ds_planificador_admit_from_new_to_ready c p
    else if p.inicializar_rutina_sabotaje
    then ds_planificador_init_rutina_sabotaje c p
    else some p

unfoldable pub terminar_ciclo : Planificador → Planificador
terminar_ciclo p =
    let atendido = ds_planificador_check_exp_trip_requests p in
    record atendido { ciclos_counter = (atendido.ciclos_counter + 1) % u32_mod }
