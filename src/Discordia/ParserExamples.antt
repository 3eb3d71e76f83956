-- ===== src/Discordia/ParserExamples.antt =====
-- Commands typed at the console of Discordia/src/console.
use tp_2021_1c_en_c_errados.Prelude.{ℕ, ◌≡◌, ◌⊎◌, ◌↔◌, refl, List, [], ◌∷◌, true, some, arith}
use tp_2021_1c_en_c_errados.Discordia.Parser.{
  iniciar_patota, salir, null, patota, ds_parse, command_str_to_enum, same_text, parser_func,
  is_valid_number, is_valid_position, espacio, nombre_iniciar_patota, nombre_salir,
}
use tp_2021_1c_en_c_errados.Discordia.Parser.Laws.{
  valor_desde, Word, joined, split_at, sample, sample-IsLibrary,
}
use tp_2021_1c_en_c_errados.Discordia.Parser.Positions.{Number, Pair, is_valid_position_iff}
use tp_2021_1c_en_c_errados.Discordia.Parser.Commands.{Decimal, ds_parse_iniciar_patota}
use tp_2021_1c_en_c_errados.Discordia.Console.{Readable, ds_parse-Readable}

abbrev doce : List ℕ
doce = 49 ∷ 50 ∷ []

abbrev ruta : List ℕ
ruta = 47 ∷ 116 ∷ []

doce-Decimal : Decimal doce
unfolding is_valid_number valor_desde
doce-Decimal = (((λ e. cc), refl), omega arith)

ruta-Word : Word espacio ruta
ruta-Word = ((λ e. cc), ((omega arith), ((omega arith), tt)))

is_valid_position_iff_example :
    (is_valid_position (49 ∷ 124 ∷ 50 ∷ []) ≡ true)
    ↔ (Number (49 ∷ 124 ∷ 50 ∷ []) ⊎ Pair (49 ∷ 124 ∷ 50 ∷ []))
is_valid_position_iff_example = is_valid_position_iff (49 ∷ 124 ∷ 50 ∷ [])

ds_parse_iniciar_patota_example :
    ds_parse sample
      (joined espacio nombre_iniciar_patota (doce ∷ ruta ∷ (49 ∷ 50 ∷ 124 ∷ 49 ∷ 50 ∷ []) ∷ []))
      null
    ≡ some (record {
      command = iniciar_patota;
      info = patota (record {
        cant_trip = 12;
        ruta_tareas = ruta;
        trip_positions = some (record { x = 12; y = 12 } ∷ []);
      });
    })
unfolding valor_desde
ds_parse_iniciar_patota_example =
    ds_parse_iniciar_patota sample sample-IsLibrary doce ruta ((doce, doce) ∷ []) null doce-Decimal
      ruta-Word ((doce-Decimal, doce-Decimal), tt)

salir_parsed : ds_parse sample nombre_salir null ≡ some (record { command = salir; info = null })
unfolding ds_parse command_str_to_enum same_text parser_func split_at
salir_parsed = refl

ds_parse-Readable_example : Readable (record { command = salir; info = null })
ds_parse-Readable_example = ds_parse-Readable sample nombre_salir null _ salir_parsed
