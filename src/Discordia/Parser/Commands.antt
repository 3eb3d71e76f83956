-- ===== src/Discordia/Parser/Commands.antt =====
-- Commands typed as words with a space between them, and what Discordia/src/console/parser.c makes
-- of them.
use tp_2021_1c_en_c_errados.Prelude.{
  ℕ, ◌<◌, ◌≡◌, inl, inr, refl, ap, ◌∙◌, List, [], ◌∷◌, ◌++◌, map, false, All, All-append, Option,
  none, some, ◌>>=◌, arith,
}
use tp_2021_1c_en_c_errados.Discordia.Parser.{
  Library, Command, expulsar_tripulante, obtener_bitacora, iniciar_patota, tid_error, Data, tid,
  patota, ds_parse, command_str_to_enum, same_text, parser_func, parser_tid, parser_iniciar_patota,
  command_result, parse_positions, parse_position, is_valid_number, espacio, barra,
  nombre_iniciar_patota, nombre_expulsar_tripulante, nombre_obtener_bitacora, write_error, right,
}
use tp_2021_1c_en_c_errados.Discordia.Parser.Laws.{IsLibrary, valor, Word, joined}
use tp_2021_1c_en_c_errados.Discordia.Parser.Positions.{
  Number, Number-valid, Pair-valid, digits-Word,
}
use tp_2021_1c_en_c_errados.Protocol.Fields.{Pos}

-- Digits of a number that fits an int.
abbrev pub Decimal : List ℕ → Type 0
Decimal s = Number s × (valor s < 2147483648)

-- The two commands on a crew member.
pub data OnCrew : Type 0 where
  expulsar : OnCrew
  bitacora : OnCrew

abbrev pub command_of : OnCrew → Command
command_of expulsar = expulsar_tripulante
command_of bitacora = obtener_bitacora

abbrev pub name_of : OnCrew → List ℕ
name_of expulsar = nombre_expulsar_tripulante
name_of bitacora = nombre_obtener_bitacora

name_of-Word : (c : OnCrew) → Word espacio (name_of c)
name_of-Word expulsar = ground arith
name_of-Word bitacora = ground arith

command_str_to_enum_crew : (c : OnCrew) → command_str_to_enum (name_of c) ≡ command_of c
unfolding command_str_to_enum same_text
command_str_to_enum_crew expulsar = refl
command_str_to_enum_crew bitacora = refl

parser_func_crew :
    (lib : Library) (c : OnCrew) (argv : List (List ℕ)) (old : Data)
    → parser_func lib (command_of c) argv old ≡ some (parser_tid lib (command_of c) argv)
unfolding parser_func
parser_func_crew lib expulsar argv old = refl
parser_func_crew lib bitacora argv old = refl

-- A position as it is typed.
abbrev pub typed : List ℕ × List ℕ → List ℕ
typed (x, y) = x ++ barra ∷ y

abbrev pub position : List ℕ × List ℕ → Pos
position (x, y) = record { x = valor x; y = valor y }

abbrev pub IsTyped : List ℕ × List ℕ → Type 0
IsTyped (x, y) = Decimal x × Decimal y

-- The positions of a patota; without any the list is NULL.
abbrev pub positions : List (List ℕ × List ℕ) → Option (List Pos)
positions [] = none
positions (p ∷ ps) = some (map position (p ∷ ps))

typed-Word : (p : List ℕ × List ℕ) → IsTyped p → Word espacio (typed p)
typed-Word ([], y) (((some_char, _), _), dy) = absurd (some_char refl)
typed-Word (c ∷ cs, y) ((nx, _), (ny, _)) =
    let (_, first) = digits-Word espacio (c ∷ cs) (inl refl) nx in
    let (_, second) = digits-Word espacio y (inl refl) ny in
    ((λ e. cc), All-append _ (c ∷ cs) (barra ∷ y) first (omega arith, second))

typed-Words : (ps : List (List ℕ × List ℕ)) → All IsTyped ps → All (Word espacio) (map typed ps)
typed-Words [] h = tt
typed-Words (p ∷ ps) (h, hs) = (typed-Word p h, typed-Words ps hs)

module _ (lib : Library) (laws : IsLibrary lib) where
  ds_parse-words :
      (name : List ℕ) (args : List (List ℕ)) (old : Data)
      → Word espacio name
      → All (Word espacio) args
      → ds_parse lib (joined espacio name args) old
        ≡ parser_func lib (command_str_to_enum name) (name ∷ args) old
  unfolding ds_parse
  ds_parse-words name args old word words = rw (laws.split espacio name args word words) refl

  -- EXPULSAR_TRIPULANTE and OBTENER_BITACORA with a word behind them give its number if it is one
  -- that fits an int, and an error with the word if it has another character than digits.
  pub ds_parse_tid :
      (c : OnCrew) (w : List ℕ) (old : Data)
      → Word espacio w
      → (Decimal w
          → ds_parse lib (joined espacio (name_of c) (w ∷ [])) old
            ≡ some (record { command = command_of c; info = tid (valor w) }))
        × (is_valid_number w ≡ false
            → ds_parse lib (joined espacio (name_of c) (w ∷ [])) old
              ≡ some (write_error (tid_error w)))
  unfolding parser_tid
  ds_parse_tid c w old word =
      let read =
        ds_parse-words (name_of c) (w ∷ []) old (name_of-Word c) (word, tt)
        ∙ ap (λ d. parser_func lib d (name_of c ∷ w ∷ []) old) (command_str_to_enum_crew c)
        ∙ parser_func_crew lib c (name_of c ∷ w ∷ []) old in
      (
        λ ((_, digits), small). read ∙ rw (digits, laws.decimal w digits small) refl,
        λ wrong. read ∙ rw wrong refl,
      )

  parse_position-typed :
      (p : List ℕ × List ℕ) → IsTyped p → parse_position lib (typed p) ≡ some (position p)
  unfolding parse_position joined
  parse_position-typed (x, y) ((nx, small_x), (ny, small_y)) =
      let split =
        laws.split barra x (y ∷ []) (digits-Word barra x (inr refl) nx)
          (digits-Word barra y (inr refl) ny, tt) in
      rw (split, ◌>>=◌, laws.decimal x nx.1 small_x, laws.decimal y ny.1 small_y) refl

  parse_positions-typed :
      (ps : List (List ℕ × List ℕ))
      → All IsTyped ps
      → parse_positions lib (map typed ps) ≡ some (right (map position ps))
  unfolding parse_positions
  parse_positions-typed [] h = refl
  parse_positions-typed ((x, y) ∷ ps) (h, hs) =
      let ((nx, _), (ny, _)) = h in
      rw (Pair-valid x y nx ny.1, parse_position-typed (x, y) h, ◌>>=◌, parse_positions-typed ps hs)
        refl

  command_result-typed :
      (cant ruta : List ℕ) (ps : List (List ℕ × List ℕ))
      → All IsTyped ps
      → command_result lib cant ruta (map typed ps)
        ≡ some (record {
          command = iniciar_patota;
          info = patota (record {
            cant_trip = lib.atoi cant;
            ruta_tareas = ruta;
            trip_positions = positions ps;
          });
        })
  unfolding command_result
  command_result-typed cant ruta [] h = refl
  command_result-typed cant ruta (p ∷ ps) h = rw (parse_positions-typed (p ∷ ps) h) refl

  -- INICIAR_PATOTA with a number of crew members, a path, and positions of two numbers with a bar
  -- between them gives just these, when every number fits an int.
  pub ds_parse_iniciar_patota :
      (cant ruta : List ℕ) (ps : List (List ℕ × List ℕ)) (old : Data)
      → Decimal cant
      → Word espacio ruta
      → All IsTyped ps
      → ds_parse lib (joined espacio nombre_iniciar_patota (cant ∷ ruta ∷ map typed ps)) old
        ≡ some (record {
          command = iniciar_patota;
          info = patota (record {
            cant_trip = valor cant;
            ruta_tareas = ruta;
            trip_positions = positions ps;
          });
        })
  unfolding command_str_to_enum same_text parser_func parser_iniciar_patota
  ds_parse_iniciar_patota cant ruta ps old ((some_char, digits), small) word typed_all =
      ds_parse-words nombre_iniciar_patota (cant ∷ ruta ∷ map typed ps) old (ground arith)
        (digits-Word espacio cant (inl refl) (some_char, digits), (word, typed-Words ps typed_all))
      ∙ rw (digits, command_result-typed cant ruta ps typed_all, laws.decimal cant digits small)
          refl

  -- A position that is a number without a bar passes the test of positions, and then crashes.
  pub ds_parse_no_pipe :
      (cant ruta p : List ℕ) (old : Data)
      → Decimal cant
      → Word espacio ruta
      → Number p
      → ds_parse lib (joined espacio nombre_iniciar_patota (cant ∷ ruta ∷ p ∷ [])) old ≡ none
  unfolding command_str_to_enum same_text parser_func parser_iniciar_patota command_result
      parse_positions parse_position joined
  ds_parse_no_pipe cant ruta p old ((some_char, digits), small) word number =
      ds_parse-words nombre_iniciar_patota (cant ∷ ruta ∷ p ∷ []) old (ground arith) (
        digits-Word espacio cant (inl refl) (some_char, digits),
        (word, (digits-Word espacio p (inl refl) number, tt)),
      )
      ∙ rw
          (
            digits,
            Number-valid p number,
            laws.split barra p [] (digits-Word barra p (inr refl) number) tt,
          )
          refl
