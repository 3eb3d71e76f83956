-- ===== src/Discordia/System.antt =====
-- The threads of the planner together: Discordia/src/planificador/planificador.c, cpu.c, io.c and
-- synchronizer.c, with the calls of the console and of the notifier of the file system. A step is a
-- call, a part of the turn of the planner, or what a device does with one crew member.
pub mod Census
pub mod Steps
pub mod Reachable
pub mod Lost
use tp_2021_1c_en_c_errados.Prelude.{
  ℕ, ◌≡◌, Bool, true, false, none, some, List, [], ◌∷◌, ◌++◌, map, if◌then◌else◌, get_elem?, set,
  replicate, All,
}
use tp_2021_1c_en_c_errados.Protocol.Fields.{Pos}
use tp_2021_1c_en_c_errados.Discordia.Crew.{tripulante_turno, Tripulante, Commons, Turno}
use tp_2021_1c_en_c_errados.Discordia.Planner.{
  cola, con_cola, encolar, ds_planificador_iniciar_tripulante, ds_planificador_eliminar_tripulante,
  ds_planificador_iniciar, ds_planificador_pausar, ds_planificador_notificar_sabotaje, Planificador,
}
use tp_2021_1c_en_c_errados.Discordia.Queues.{ds_queue_mt_pop, Cola, queue_exec}
use tp_2021_1c_en_c_errados.Discordia.Planner.Admission.{ds_planificador_admit_from_ready_to_exec}
use tp_2021_1c_en_c_errados.Discordia.Planner.Cycle.{
  empezar_ciclo, ds_planificador_check_exec_queue, terminar_ciclo,
}
use tp_2021_1c_en_c_errados.Discordia.Planner.Io.{ciclo_de_io}

-- Where the planner's thread is: before the test of `pause`, waiting for its condition, past it,
-- before the admission into EXEC, waiting for the devices, or past the review of EXEC.
pub data Fase : Type 0 where
  revisando dormido despierto admitiendo ejecutando terminando : Fase

-- A CPU: it waits for the next cycle, may take a crew member, has one, or has had its turn.
pub data Cpu : Type 0 where
  en_espera lista : Cpu
  con : Tripulante → Cpu
  hecha : Tripulante → Cpu

-- The devices with their place in the cycle, and the tids of the crew members started so far.
pub record Sistema : Type 0 where
  pub plan : Planificador
  pub fase : Fase
  pub cpus : List Cpu
  pub io : Bool
  pub iniciados : List ℕ

-- `pthread_cond_signal` of `ds_planificador_iniciar`.
unfoldable pub despertar : Fase → Fase
despertar dormido = despierto
despertar revisando = revisando
despertar despierto = despierto
despertar admitiendo = admitiendo
despertar ejecutando = ejecutando
despertar terminando = terminando

-- `ds_synchronizer_execute_next_cicle`, up to its wait.
unfoldable pub ejecutar_siguiente_ciclo : Planificador → Sistema → Sistema
ejecutar_siguiente_ciclo p s = record s {
  plan = p;
  fase = ejecutando;
  cpus = map (λ _. lista) s.cpus;
  io = true;
}

-- `discordia_expulsar_tripulante`, where the turn called it.
unfoldable pub tras_turno : Turno → Planificador → Planificador
tras_turno r p =
    let con_red = record p { red = r.red } in
    if r.expulsar then ds_planificador_eliminar_tripulante r.trip.tid con_red else con_red

-- No device is in its cycle: what `ds_synchronizer_execute_next_cicle` waits for.
abbrev pub EnEspera : Cpu → Type 0
EnEspera cpu = cpu ≡ en_espera

abbrev pub con_cpu : Sistema → ℕ → Cpu → Planificador → Sistema
con_cpu s i cpu p = record s { plan = p; cpus = set s.cpus i cpu }

pub data Step (c : Commons) (s : Sistema) : Sistema → Type 0 where
  iniciar_tripulante :
      (pid tid : ℕ) (pos : Pos)
      → Step c s (record s {
        plan = ds_planificador_iniciar_tripulante pid tid pos s.plan;
        iniciados = s.iniciados ++ tid ∷ [];
      })
  eliminar :
      (tid : ℕ) → Step c s (record s { plan = ds_planificador_eliminar_tripulante tid s.plan })
  pausar : Step c s (record s { plan = ds_planificador_pausar s.plan })
  iniciar : Step c s (record s { plan = ds_planificador_iniciar s.plan; fase = despertar s.fase })
  sabotear :
      (pos : Pos) → Step c s (record s { plan = ds_planificador_notificar_sabotaje pos s.plan })
  revisar :
      s.fase ≡ revisando
      → Step c s (record s { fase = if s.plan.pause then dormido else despierto })
  empezar :
      (p : Planificador)
      → s.fase ≡ despierto
      → empezar_ciclo c s.plan ≡ some p
      → Step c s (record s { plan = p; fase = admitiendo })
  admitir :
      s.fase ≡ admitiendo
      → Step c s (ejecutar_siguiente_ciclo (ds_planificador_admit_from_ready_to_exec s.plan) s)
  tomar_trip :
      (i : ℕ) (t : Tripulante) (q : Cola)
      → get_elem? s.cpus i ≡ some lista
      → ds_queue_mt_pop (cola queue_exec s.plan) ≡ some (t, q)
      → Step c s (con_cpu s i (con t) (con_cola queue_exec q s.plan))
  sin_trip :
      (i : ℕ)
      → get_elem? s.cpus i ≡ some lista
      → ds_queue_mt_pop (cola queue_exec s.plan) ≡ none
      → Step c s (con_cpu s i en_espera s.plan)
  turno :
      (i : ℕ) (t : Tripulante) (r : Turno)
      → get_elem? s.cpus i ≡ some (con t)
      → tripulante_turno c s.plan.esta_en_sabotaje s.plan.sabotaje_pos t s.plan.red ≡ some r
      → Step c s (con_cpu s i (hecha r.trip) (tras_turno r s.plan))
  devolver :
      (i : ℕ) (t : Tripulante)
      → get_elem? s.cpus i ≡ some (hecha t)
      → Step c s (con_cpu s i en_espera (encolar queue_exec t s.plan))
  ejecutar_io :
      (p : Planificador)
      → s.io ≡ true
      → ciclo_de_io c s.plan ≡ some p
      → Step c s (record s { plan = p; io = false })
  revisar_exec :
      (p : Planificador)
      → s.fase ≡ ejecutando
      → s.io ≡ false
      → All EnEspera s.cpus
      → ds_planificador_check_exec_queue s.plan ≡ some p
      → Step c s (record s { plan = p; fase = terminando })
  acabar :
      s.fase ≡ terminando → Step c s (record s { plan = terminar_ciclo s.plan; fase = revisando })

pub data Reach (c : Commons) (s : Sistema) : Sistema → Type 0 where
  here : Reach c s s
  next : {t u : Sistema} → Reach c s t → Step c t u → Reach c s u

-- After `ds_planificador_init`, with as many CPUs as `GRADO_MULTITAREA`.
unfoldable pub inicial : Planificador → Sistema
inicial p = record {
  plan = p;
  fase = revisando;
  cpus = replicate p.cant_cpu en_espera;
  io = false;
  iniciados = [];
}
