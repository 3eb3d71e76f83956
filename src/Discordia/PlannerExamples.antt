-- ===== src/Discordia/PlannerExamples.antt =====
-- Tests of the theorems on Discordia/src/planificador/planificador.c.
use tp_2021_1c_en_c_errados.Prelude.{◌≡◌, refl, none, some, [], ◌∷◌, arith}
use tp_2021_1c_en_c_errados.Discordia.Crew.{Tripulante}
use tp_2021_1c_en_c_errados.Discordia.Planner.{rr, Planificador}
use tp_2021_1c_en_c_errados.Discordia.Planner.Admission.{ds_planificador_admit_from_ready_to_exec}
use tp_2021_1c_en_c_errados.Discordia.Planner.Admits.{admit_from_ready_to_exec_lem, Admitida}
use tp_2021_1c_en_c_errados.Discordia.Planner.Algorithms.{ds_algorithm}
use tp_2021_1c_en_c_errados.Discordia.Planner.Recovery.{revisiones, revisiones_lem, Recuperado}
use tp_2021_1c_en_c_errados.Discordia.Planner.Rescue.{
  mas_cercano-distancia, init_rutina_sabotaje-none, MasCercano,
}
use tp_2021_1c_en_c_errados.Discordia.Planner.Sabotage.{
  distancia_trip, mas_cercano, ds_planificador_init_rutina_sabotaje,
}
use tp_2021_1c_en_c_errados.Discordia.Planner.Shares.{ds_algorithm_lem}
use tp_2021_1c_en_c_errados.Discordia.Planner.Destinations.{destino, Repartida}
use tp_2021_1c_en_c_errados.Discordia.Planner.Weights.{Orden}
use tp_2021_1c_en_c_errados.Discordia.Crew.Turns.{distancia}
use tp_2021_1c_en_c_errados.Discordia.Samples.{en, trip, commons, planta, a, b}

ds_algorithm_lem_example :
    Repartida
      (destino rr 2)
      []
      (a ∷ b ∷ [])
      (planta [] (a ∷ b ∷ []) [])
      (ds_algorithm rr (planta [] (a ∷ b ∷ []) []))
ds_algorithm_lem_example =
    ds_algorithm_lem rr (planta [] (a ∷ b ∷ []) [])
      (record { sin_sabotaje = refl; mismo_quantum = refl; block_libre = refl; ready_libre = refl })

planta-Orden : Orden 2 (planta (a ∷ b ∷ []) (a ∷ []) []).colas
planta-Orden = record {
  libres = (refl, refl, refl, refl);
  exec = record { justa = refl; cabe = omega arith; chica = omega arith; alguna = omega arith };
  bound = refl;
}

admit_from_ready_to_exec_lem_example :
    Admitida 1
      (a ∷ b ∷ [])
      (planta (a ∷ b ∷ []) (a ∷ []) [])
      (ds_planificador_admit_from_ready_to_exec (planta (a ∷ b ∷ []) (a ∷ []) []))
admit_from_ready_to_exec_lem_example =
    admit_from_ready_to_exec_lem 2 (planta (a ∷ b ∷ []) (a ∷ []) []) planta-Orden
      (refl, omega arith)

revisiones_lem_example :
    (p' : Planificador) × (revisiones 2 (planta [] [] (a ∷ b ∷ [])) ≡ some p')
    × Recuperado (planta [] [] (a ∷ b ∷ [])) p'
revisiones_lem_example =
    revisiones_lem 1 (planta [] [] (a ∷ b ∷ [])) (omega arith) (record {
      manejar = refl;
      restante = refl;
      ready_libre = refl;
      contada = (refl, omega arith);
    })

-- Of two crew members before the sabotage at (4, 4) the second is nearer.
mas_cercano-distancia_example :
    (u : Tripulante) × MasCercano (λ v. distancia v.pos (en 4 4)) (a ∷ b ∷ []) u
    × (mas_cercano 8 (a ∷ b ∷ []) 4294967295 0 ≡ u.tid)
mas_cercano-distancia_example =
    mas_cercano-distancia (en 4 4) a (b ∷ []) (omega arith)
      ((omega arith, omega arith), ((omega arith, omega arith), tt))

-- Past the sabotage along one axis the choice is wrong: of one at (0, 10) and one at (5, 4) the
-- first, ten places away, is sent to (5, 5).
mas_cercano_lejos_test :
    mas_cercano 10 (trip 8 (en 0 10) none ∷ trip 9 (en 5 4) none ∷ []) 4294967295 0 ≡ 8
unfolding mas_cercano distancia_trip
mas_cercano_lejos_test = refl

mas_cercano_test : mas_cercano 8 (a ∷ b ∷ []) 4294967295 0 ≡ 6
unfolding mas_cercano distancia_trip
mas_cercano_test = refl

-- The sabotage is at (3, 3), and the crew member that waits for it at (3, 4).
init_rutina_sabotaje-none_example :
    ds_planificador_init_rutina_sabotaje commons (planta [] [] (b ∷ [])) ≡ none
unfolding distancia_trip
init_rutina_sabotaje-none_example =
    init_rutina_sabotaje-none commons (planta [] [] (b ∷ [])) refl refl
      ((refl, (λ h. absurd (omega (arith, h)))), tt)
