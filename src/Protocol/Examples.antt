-- ===== src/Protocol/Examples.antt =====
-- Messages of utils/src/protocol written and read back.
use tp_2021_1c_en_c_errados.Prelude.{ℕ, ◌≤◌, ◌≡◌, refl, arith, [], ◌∷◌, true, some, c_string}
use tp_2021_1c_en_c_errados.Protocol.Buffer.{Buffer, grow}
use tp_2021_1c_en_c_errados.Protocol.Buffer.Growth.{grow_enough}
use tp_2021_1c_en_c_errados.Protocol.Buffer.Contents.{Holds}
use tp_2021_1c_en_c_errados.Protocol.Fields.{Pos, IsPos}
use tp_2021_1c_en_c_errados.Protocol.Texts.{stored}
use tp_2021_1c_en_c_errados.Protocol.Messages.ListaTripulantes
use tp_2021_1c_en_c_errados.Protocol.Messages.NuevaTarea
use tp_2021_1c_en_c_errados.Protocol.RoundTrips.{lista_tripulantes_round_trip}

grow_enough_example : (c' : ℕ) × (grow 101 0 100 ≡ some c') × (100 ≤ c') × (0 ≤ c')
grow_enough_example = grow_enough 101 0 100 (omega arith) (omega arith)

-- Five bytes.
abbrev buffer_of_five : Buffer
buffer_of_five = record { size = 5; capacity = 6; content = 1 ∷ 2 ∷ 3 ∷ 4 ∷ 5 ∷ [] }

buffer_of_five-Holds : Holds buffer_of_five (1 ∷ 2 ∷ 3 ∷ 4 ∷ 5 ∷ [])
buffer_of_five-Holds = record { held = refl; counted = refl; allocated = omega arith }

abbrev at_five : Pos
at_five = record { x = 5; y = 300 }

at_five-IsPos : IsPos at_five
at_five-IsPos = record { x_fits = omega arith; y_fits = omega arith }

-- Two crew members.
abbrev crew : ListaTripulantes.Message
crew = record {
  tripulantes =
      record { pid = 1; tid = 2; estado = 69 } ∷ record { pid = 1; tid = 3; estado = 82 } ∷ [];
}

crew-IsValid : ListaTripulantes.IsValid crew
crew-IsValid = record {
  infos = (
    record { pid_fits = omega arith; tid_fits = omega arith; estado_fits = omega arith },
    (record { pid_fits = omega arith; tid_fits = omega arith; estado_fits = omega arith }, tt),
  );
  short = omega arith;
}

lista_tripulantes_round_trip_example :
    (b : Buffer) × (ListaTripulantes.serialize crew ≡ some b)
    × (ListaTripulantes.deserialize b ≡ some crew)
lista_tripulantes_round_trip_example = lista_tripulantes_round_trip crew crew-IsValid

abbrev a_task : NuevaTarea.Message
a_task = record { tarea = some (c_string (65 ∷ 66 ∷ [])); hay_tarea = true }

a_task-IsValid : NuevaTarea.IsValid a_task
a_task-IsValid =
    NuevaTarea.full (c_string (65 ∷ 66 ∷ []))
      (stored (65 ∷ 66 ∷ []) (omega arith, (omega arith, tt))) (omega arith)
