-- ===== src/Discordia/System/Reachable.antt =====
-- What holds in every state that the threads of Discordia/src/planificador can reach.
use tp_2021_1c_en_c_errados.Prelude.{
  suma, u32_mod, ℕ, zero, suc, ◌+◌, ◌≤◌, ◌<◌, ◌≡◌, refl, Option, List, arith, length, replicate,
  All,
}
use tp_2021_1c_en_c_errados.Discordia.Crew.{Commons}
use tp_2021_1c_en_c_errados.Discordia.Planner.{ds_planificador_init, Algoritmo}
use tp_2021_1c_en_c_errados.Discordia.Queues.{ds_queue_mt_create, ds_queue_manager_init}
use tp_2021_1c_en_c_errados.Discordia.System.{EnEspera, inicial, en_espera, Sistema, Reach}
use tp_2021_1c_en_c_errados.Discordia.Planner.Weights.{peso_trip}
use tp_2021_1c_en_c_errados.Discordia.Queues.Weights.{Ordena}
use tp_2021_1c_en_c_errados.Discordia.System.Census.{peso_cpu, ocupada, censo, EnEspera-suma, Sana}
use tp_2021_1c_en_c_errados.Discordia.System.Steps.{Reach-Sana}

replicate-EnEspera : (k : ℕ) → All EnEspera (replicate k en_espera)
replicate-EnEspera zero = tt
replicate-EnEspera (suc k) = (refl, replicate-EnEspera k)

abbrev pub arranque : ℕ → ℕ → ℕ → Algoritmo → List (Option (List ℕ)) → Sistema
arranque cant_cpu quantum duracion a respuestas =
    inicial (ds_planificador_init cant_cpu quantum duracion a respuestas)

inicial-Sana :
    (cant_cpu quantum duracion : ℕ) (a : Algoritmo) (respuestas : List (Option (List ℕ)))
    → 0 < cant_cpu
    → cant_cpu < u32_mod
    → Sana cant_cpu (arranque cant_cpu quantum duracion a respuestas)
unfolding inicial ds_planificador_init ds_queue_manager_init ds_queue_mt_create suma peso_trip
    ocupada peso_cpu
inicial-Sana cant_cpu quantum duracion a respuestas some_cpu small =
    let quiet = replicate-EnEspera cant_cpu in
    record {
      orden = record {
        libres = (refl, refl, refl, refl);
        exec = record { justa = refl; cabe = omega arith; chica = small; alguna = some_cpu };
        bound = refl;
      };
      lugar = omega (arith, EnEspera-suma ocupada refl (replicate cant_cpu en_espera) quiet);
      quietas = λ _. quiet;
      todos =
          λ g. omega (arith, EnEspera-suma (peso_cpu g) refl (replicate cant_cpu en_espera) quiet);
    }

module _ (c : Commons) (sorts : Ordena c) (cant_cpu quantum duracion : ℕ) (a : Algoritmo)
    (respuestas : List (Option (List ℕ))) (some_cpu : 0 < cant_cpu) (small : cant_cpu < u32_mod)
    (s : Sistema) (r : Reach c (arranque cant_cpu quantum duracion a respuestas) s) where
  pub Reach_arranque-Sana : Sana cant_cpu s
  Reach_arranque-Sana =
      Reach-Sana c sorts cant_cpu _ s
        (inicial-Sana cant_cpu quantum duracion a respuestas some_cpu small) r

  -- In every state that the threads reach from the start, with at least one CPU, in whatever order
  -- they run and whatever the console, Mi-RAM-HQ and the sabotages do: each crew member that was
  -- started is in one queue, in one CPU or in the I/O device, or was told to end. Its number is
  -- given by any weight of the tids, such as 1 at one tid and 0 elsewhere.
  pub Reach-censo : (g : ℕ → ℕ) → censo g s ≡ suma g s.iniciados
  Reach-censo = Reach_arranque-Sana.todos

  -- In these states EXEC and the CPUs never have more crew members than there are CPUs.
  pub Reach-multitarea : length s.plan.colas.exec.elementos + suma ocupada s.cpus ≤ cant_cpu
  Reach-multitarea = Reach_arranque-Sana.lugar
