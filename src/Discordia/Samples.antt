-- ===== src/Discordia/Samples.antt =====
-- Inputs for the tests on the planner of Discordia/src/planificador: a library of lists and texts
-- with the behaviour that the theorems ask for, crew members and planners.
use mathlib.Core.List.Perm
use tp_2021_1c_en_c_errados.Discordia.Parser.Laws.{sample}
use mathlib.Core.List.{Perm}
use tp_2021_1c_en_c_errados.Prelude.{
  ℕ, max, Bool, true, false, ◌||◌, Option, none, List, [], ◌∷◌, ◌==◌, if◌then◌else◌, if-both,
  length,
}
use tp_2021_1c_en_c_errados.Protocol.Fields.{Pos}
use tp_2021_1c_en_c_errados.Discordia.Crew.{Tarea, exec, Tripulante, Commons, Red}
use tp_2021_1c_en_c_errados.Discordia.Planner.{rr, Planificador}
use tp_2021_1c_en_c_errados.Discordia.Queues.{Cola}
use tp_2021_1c_en_c_errados.Discordia.Queues.Weights.{Ordena}

abbrev insertar : (Tripulante → Tripulante → Bool) → Tripulante → List Tripulante → List Tripulante
insertar menor x [] = x ∷ []
insertar menor x (y ∷ ys) = if menor x y then x ∷ y ∷ ys else y ∷ insertar menor x ys

insertar-perm :
    (menor : Tripulante → Tripulante → Bool) (x : Tripulante) (ys : List Tripulante)
    → Perm (insertar menor x ys) (x ∷ ys)
insertar-perm menor x [] = Perm.rfl
insertar-perm menor x (y ∷ ys) =
    if-both (λ zs. Perm zs (x ∷ y ∷ ys)) (menor x y) Perm.rfl
      (Perm.trans (Perm.cons y (insertar-perm menor x ys)) (Perm.swap x y ys))

abbrev ordenar : (Tripulante → Tripulante → Bool) → List Tripulante → List Tripulante
ordenar menor [] = []
ordenar menor (x ∷ xs) = insertar menor x (ordenar menor xs)

ordenar-perm :
    (menor : Tripulante → Tripulante → Bool) (xs : List Tripulante) → Perm (ordenar menor xs) xs
ordenar-perm menor [] = Perm.rfl
ordenar-perm menor (x ∷ xs) =
    Perm.trans (insertar-perm menor x (ordenar menor xs)) (Perm.cons x (ordenar-perm menor xs))

abbrev pub tiene : List ℕ → List ℕ → Bool
tiene [] ys = false
tiene (x ∷ xs) [] = true
tiene (x ∷ xs) (y ∷ ys) = (x == y) || tiene xs (y ∷ ys)

abbrev pub commons : Commons
commons = record {
  string_split = sample.string_split;
  string_contains = tiene;
  atoi = sample.atoi;
  list_sort = ordenar;
}

pub commons-Ordena : Ordena commons
commons-Ordena = record { permuta = ordenar-perm }

abbrev pub en : ℕ → ℕ → Pos
en x y = record { x = x; y = y }

abbrev pub trip : ℕ → Pos → Option Tarea → Tripulante
trip tid pos tarea = record {
  pid = 1;
  tid = tid;
  tarea_actual = tarea;
  pos = pos;
  quatum = 2;
  curr_state = exec;
  terminate = false;
  bloquear = false;
  es_primera_ejecucion_en_cpu = true;
}

abbrev pub mirar : Bool → ℕ → Tarea
mirar bloquea tiempo = record {
  tarea = 65 ∷ [];
  is_blocking = bloquea;
  is_finished = false;
  tiempo_bloqueado = tiempo;
  pos = en 2 1;
}

abbrev pub sin_nada : Red
sin_nada = record { avisos = []; respuestas = [] }

abbrev pub con_gente : ℕ → List Tripulante → Cola
con_gente max ts = record { elementos = ts; max_size = max; curr_elements = length ts }

-- A planner with two CPUs, its quantum 2, and crew members in READY, EXEC and SABOTAGE.
abbrev pub planta : List Tripulante → List Tripulante → List Tripulante → Planificador
planta listos en_exec esperando = record {
  cant_cpu = 2;
  quantum = 2;
  duracion_sabotaje = 1;
  ciclos_counter = 0;
  sabotaje_pos = en 3 3;
  pause = true;
  esta_en_sabotaje = false;
  inicializar_rutina_sabotaje = false;
  tiempo_restante_block_sabo = 1;
  manejar_cola_sabotaje = true;
  expulsar_trip_request_queue = [];
  algorithm = rr;
  colas = record {
    new = con_gente 0 [];
    ready = con_gente 0 listos;
    exec = con_gente 2 en_exec;
    block = con_gente 0 [];
    sabotage = con_gente 0 esperando;
  };
  curr_trip = none;
  terminados = [];
  red = sin_nada;
}

abbrev pub a : Tripulante
a = trip 5 (en 0 0) none

abbrev pub b : Tripulante
b = record (trip 6 (en 3 4) none) { quatum = 1 }
