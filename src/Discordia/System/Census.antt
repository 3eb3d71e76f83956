-- ===== src/Discordia/System/Census.antt =====
-- Nobody is lost between the threads of Discordia/src/planificador, in whatever order they run.
use tp_2021_1c_en_c_errados.Prelude.{
  suma, suma-set, ℕ, ◌+◌, ◌≤◌, ◌≡◌, refl, ap, ◌∙◌, ◌≢◌, Bool, some, List, [], ◌∷◌, map, arith,
  length, get_elem?, All, All-get_elem?,
}
use tp_2021_1c_en_c_errados.Discordia.Planner.{Planificador}
use tp_2021_1c_en_c_errados.Discordia.System.{
  EnEspera, con_cpu, Fase, ejecutando, Cpu, en_espera, lista, con, hecha, Sistema,
}
use tp_2021_1c_en_c_errados.Discordia.Planner.Weights.{peso, Conserva, Achica, Orden}

-- The weight of what a CPU has, and whether it has anything.
unfoldable pub peso_cpu : (ℕ → ℕ) → Cpu → ℕ
peso_cpu g en_espera = 0
peso_cpu g lista = 0
peso_cpu g (con t) = g t.tid
peso_cpu g (hecha t) = g t.tid

unfoldable pub ocupada : Cpu → ℕ
ocupada en_espera = 0
ocupada lista = 0
ocupada (con t) = 1
ocupada (hecha t) = 1

-- A weight over the whole system: the queues, the devices, and those that were told to end.
abbrev pub censo : (ℕ → ℕ) → Sistema → ℕ
censo g s = peso g s.plan + suma (peso_cpu g) s.cpus

-- EXEC has a place for each CPU, also for what the CPUs have taken out; outside of the cycle of the
-- devices these have nothing. Whoever was started is somewhere, once.
pub record Sana (n : ℕ) (s : Sistema) : Type 0 where
  pub orden : Orden n s.plan.colas
  pub lugar : length s.plan.colas.exec.elementos + suma ocupada s.cpus ≤ n
  pub quietas : s.fase ≢ ejecutando → All EnEspera s.cpus
  pub todos : (g : ℕ → ℕ) → censo g s ≡ suma g s.iniciados

pub EnEspera-suma :
    (f : Cpu → ℕ) → f en_espera ≡ 0 → (cpus : List Cpu) → All EnEspera cpus → suma f cpus ≡ 0
unfolding suma
EnEspera-suma f z [] h = refl
EnEspera-suma f z (x ∷ xs) (e, h) =
    let k : f x ≡ 0 = ap f e ∙ z in omega (arith, EnEspera-suma f z xs h)

pub suma-map_lista :
    (f : Cpu → ℕ) → f lista ≡ 0 → (cpus : List Cpu) → suma f (map (λ _. lista) cpus) ≡ 0
unfolding suma
suma-map_lista f z [] = refl
suma-map_lista f z (x ∷ xs) = omega (arith, suma-map_lista f z xs)

-- Where a CPU has something, or may take it, the devices are in their cycle.
en_ciclo :
    (n : ℕ) (s : Sistema) (i : ℕ) (cpu : Cpu)
    → Sana n s
    → get_elem? s.cpus i ≡ some cpu
    → cpu ≢ en_espera
    → ¬ (s.fase ≢ ejecutando)
en_ciclo n s i cpu h at busy other = busy (All-get_elem? EnEspera s.cpus i (h.quietas other) at)

module _ (n : ℕ) (s : Sistema) (h : Sana n s) (p : Planificador) where
  -- A step of the planner's state alone.
  pub plan-Sana :
      (fase : Fase) (io : Bool)
      → (fase ≢ ejecutando → All EnEspera s.cpus)
      → Conserva n s.plan p
      → Achica s.plan p
      → Sana n (record s { plan = p; fase = fase; io = io })
  plan-Sana fase io quiet (o, w) less = record {
    orden = o;
    lugar = omega (arith, h.lugar);
    quietas = quiet;
    todos = λ g. omega (arith, h.todos g, w g);
  }

  -- A step in which no device has anything.
  pub quieta-Sana :
      (fase : Fase) (io : Bool)
      → All EnEspera s.cpus
      → Conserva n s.plan p
      → Sana n (record s { plan = p; fase = fase; io = io })
  unfolding ocupada
  quieta-Sana fase io quiet (o, w) = record {
    orden = o;
    lugar = omega (arith, EnEspera-suma ocupada refl s.cpus quiet, o.exec.cabe, o.bound);
    quietas = λ _. quiet;
    todos = λ g. omega (arith, h.todos g, w g);
  }

  -- A step of one CPU.
  pub cpu-Sana :
      (i : ℕ) (antes ahora : Cpu)
      → get_elem? s.cpus i ≡ some antes
      → antes ≢ en_espera
      → Orden n p.colas
      → length p.colas.exec.elementos + ocupada ahora
        ≤ length s.plan.colas.exec.elementos + ocupada antes
      → ((g : ℕ → ℕ) → peso g p + peso_cpu g ahora ≡ peso g s.plan + peso_cpu g antes)
      → Sana n (con_cpu s i ahora p)
  cpu-Sana i antes ahora at busy o room w = record {
    orden = o;
    lugar = omega (arith, h.lugar, suma-set ocupada s.cpus i antes ahora at);
    quietas = λ other. absurd (en_ciclo n s i antes h at busy other);
    todos = λ g. omega (arith, h.todos g, w g, suma-set (peso_cpu g) s.cpus i antes ahora at);
  }
