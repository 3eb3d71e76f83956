-- ===== src/Discordia/CrewExamples.antt =====
-- Tests of the theorems on tripulante.c and tareas.c of Discordia/src/planificador/tripulante.
use tp_2021_1c_en_c_errados.Discordia.Parser.Laws.{split_at, valor_desde}
use tp_2021_1c_en_c_errados.Prelude.{
  ℕ, ◌≡◌, refl, true, false, none, some, List, [], ◌∷◌, ◌++◌, arith,
}
use tp_2021_1c_en_c_errados.Discordia.Crew.{
  primera_respuesta, tarea_es_bloqueante, parsear_texto, parsear_tarea, Aviso, iniciar_tarea, Turno,
}
use tp_2021_1c_en_c_errados.Discordia.Crew.Turns.{turnos}
use tp_2021_1c_en_c_errados.Discordia.Crew.Work.{turnos_terminan, turnos_bloquean, Terminada}
use tp_2021_1c_en_c_errados.Discordia.Samples.{commons, en, trip, mirar, sin_nada}

-- A task read from its text, "AB;2;1;3".
abbrev texto : List ℕ
texto = 65 ∷ 66 ∷ 59 ∷ 50 ∷ 59 ∷ 49 ∷ 59 ∷ 51 ∷ []

parsear_tarea_test :
    parsear_tarea commons (some texto)
    ≡ some (some (record (mirar false 3) { tarea = 65 ∷ 66 ∷ [] }))
unfolding parsear_tarea parsear_texto tarea_es_bloqueante split_at valor_desde
parsear_tarea_test = refl

turnos_terminan_example :
    (r : Turno) × (turnos commons 5 (trip 5 (en 0 0) (some (mirar false 2))) sin_nada ≡ some r)
    × Terminada (trip 5 (en 0 0) (some (mirar false 2))) (mirar false 2) none r
unfolding parsear_tarea primera_respuesta
turnos_terminan_example =
    turnos_terminan commons none (trip 5 (en 0 0) (some (mirar false 2))) (mirar false 2) sin_nada
      refl refl (omega arith) (omega arith) refl

turnos_bloquean_example :
    (r : Turno) × (turnos commons 4 (trip 5 (en 0 0) (some (mirar true 2))) sin_nada ≡ some r)
    × (r.trip ≡ record (trip 5 (en 0 0) (some (mirar true 2))) { pos = en 2 1; bloquear = true })
    × ((antes : List Aviso) × (r.red.avisos ≡ antes ++ iniciar_tarea 5 (65 ∷ []) ∷ []))
turnos_bloquean_example =
    turnos_bloquean commons (trip 5 (en 0 0) (some (mirar true 2))) (mirar true 2) sin_nada refl
      refl
