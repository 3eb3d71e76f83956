-- ===== src/Discordia/Parser.antt =====
-- The parser of the console, Discordia/src/console/parser.c. A text is the list of its characters;
-- `none` is an access through NULL.
pub mod Laws
pub mod Positions
pub mod Commands
use tp_2021_1c_en_c_errados.Prelude.{
  ℕ, List, [], ◌∷◌, Bool, true, false, ◌&&◌, ◌||◌, not, Option, none, some, ◌>>=◌, leb, ◌==◌,
  if◌then◌else◌, get_elem?,
}
use tp_2021_1c_en_c_errados.Protocol.Fields.{Pos}

-- `string_split` of so-commons-library, for a separator of one character, and `atoi` of the C
-- library, as a uint32_t.
pub record Library : Type 0 where
  pub string_split : List ℕ → ℕ → List (List ℕ)
  pub atoi : List ℕ → ℕ

-- `ds_parser_command_e`
pub data Command : Type 0 where
  invalid_command salir iniciar_patota listar_tripulantes : Command
  expulsar_tripulante iniciar_planificacion pausar_planificacion obtener_bitacora : Command

-- The texts that an error is written from: what is missing, or the argument that is wrong.
pub data ParserError : Type 0 where
  comando_invalido : ParserError
  not_enough_args : Command → ParserError
  cantidad_error : List ℕ → ParserError
  tid_error : List ℕ → ParserError
  pos_error : List ℕ → ParserError

-- `ds_command_iniciar_patota_t`; without positions the list is NULL.
pub record IniciarPatota : Type 0 where
  pub cant_trip : ℕ
  pub ruta_tareas : List ℕ
  pub trip_positions : Option (List Pos)

-- What `data` points to.
pub data Data : Type 0 where
  null : Data
  error : ParserError → Data
  tid : ℕ → Data
  patota : IniciarPatota → Data

-- `ds_parser_result_t`
pub record ParserResult : Type 0 where
  pub command : Command
  pub info : Data

abbrev pub espacio : ℕ
espacio = 32

abbrev pub barra : ℕ
barra = 124

abbrev pub nombre_salir : List ℕ
nombre_salir = 83 ∷ 65 ∷ 76 ∷ 73 ∷ 82 ∷ []

abbrev pub nombre_iniciar_patota : List ℕ
nombre_iniciar_patota = 73 ∷ 78 ∷ 73 ∷ 67 ∷ 73 ∷ 65 ∷ 82 ∷ 95 ∷ 80 ∷ 65 ∷ 84 ∷ 79 ∷ 84 ∷ 65 ∷ []

abbrev pub nombre_listar_tripulantes : List ℕ
nombre_listar_tripulantes =
    76 ∷ 73 ∷ 83 ∷ 84 ∷ 65 ∷ 82 ∷ 95 ∷ 84 ∷ 82 ∷ 73 ∷ 80 ∷ 85 ∷ 76 ∷ 65 ∷ 78 ∷ 84 ∷ 69 ∷ 83 ∷ []

abbrev pub nombre_expulsar_tripulante : List ℕ
nombre_expulsar_tripulante =
    69 ∷ 88 ∷ 80 ∷ 85 ∷ 76 ∷ 83 ∷ 65 ∷ 82 ∷ 95 ∷ 84 ∷ 82 ∷ 73 ∷ 80 ∷ 85 ∷ 76 ∷ 65 ∷ 78 ∷ 84 ∷ 69
    ∷ []

abbrev pub nombre_iniciar_planificacion : List ℕ
nombre_iniciar_planificacion =
    73 ∷ 78 ∷ 73 ∷ 67 ∷ 73 ∷ 65 ∷ 82 ∷ 95 ∷ 80 ∷ 76 ∷ 65 ∷ 78 ∷ 73 ∷ 70 ∷ 73 ∷ 67 ∷ 65 ∷ 67 ∷ 73
    ∷ 79 ∷ 78 ∷ []

abbrev pub nombre_pausar_planificacion : List ℕ
nombre_pausar_planificacion =
    80 ∷ 65 ∷ 85 ∷ 83 ∷ 65 ∷ 82 ∷ 95 ∷ 80 ∷ 76 ∷ 65 ∷ 78 ∷ 73 ∷ 70 ∷ 73 ∷ 67 ∷ 65 ∷ 67 ∷ 73 ∷ 79
    ∷ 78 ∷ []

abbrev pub nombre_obtener_bitacora : List ℕ
nombre_obtener_bitacora =
    79 ∷ 66 ∷ 84 ∷ 69 ∷ 78 ∷ 69 ∷ 82 ∷ 95 ∷ 66 ∷ 73 ∷ 84 ∷ 65 ∷ 67 ∷ 79 ∷ 82 ∷ 65 ∷ []

-- `!strcmp`
unfoldable pub same_text : List ℕ → List ℕ → Bool
same_text [] [] = true
same_text [] (d ∷ ds) = false
same_text (c ∷ cs) [] = false
same_text (c ∷ cs) (d ∷ ds) = (c == d) && same_text cs ds

unfoldable pub command_str_to_enum : List ℕ → Command
command_str_to_enum text =
    if same_text text nombre_iniciar_patota
    then iniciar_patota
    else if same_text text nombre_listar_tripulantes
    then listar_tripulantes
    else if same_text text nombre_expulsar_tripulante
    then expulsar_tripulante
    else if same_text text nombre_iniciar_planificacion
    then iniciar_planificacion
    else if same_text text nombre_pausar_planificacion
    then pausar_planificacion
    else if same_text text nombre_obtener_bitacora
    then obtener_bitacora
    else if same_text text nombre_salir
    then salir
    else invalid_command

abbrev pub isdigit : ℕ → Bool
isdigit c = leb 48 c && leb c 57

unfoldable pub is_valid_number : List ℕ → Bool
is_valid_number [] = true
is_valid_number (c ∷ cs) = isdigit c && is_valid_number cs

-- The loop of `ds_is_valid_position`.
unfoldable pub only_one_pipe : Bool → List ℕ → Bool
only_one_pipe pipe_found [] = true
only_one_pipe pipe_found (c ∷ cs) =
    let first_pipe = (c == barra) && not pipe_found in
    let rest = only_one_pipe (if first_pipe then true else pipe_found) cs in
    if first_pipe
    then rest
    else if ((c == barra) && pipe_found) || not (isdigit c)
    then false
    else rest

unfoldable pub is_valid_position : List ℕ → Bool
is_valid_position [] = false
is_valid_position (c ∷ cs) = if not (isdigit c) then false else only_one_pipe false (c ∷ cs)

-- `ds_parser_write_error`
abbrev pub write_error : ParserError → ParserResult
write_error e = record { command = invalid_command; info = error e }

-- The positions of the crew, or the first argument that is none.
pub data ParsedPositions : Type 0 where
  wrong : List ℕ → ParsedPositions
  right : List Pos → ParsedPositions

abbrev pub with_position : Pos → ParsedPositions → ParsedPositions
with_position p (wrong a) = wrong a
with_position p (right ps) = right (p ∷ ps)

module _ (lib : Library) where
  open lib use {string_split, atoi}

  unfoldable pub parse_position : List ℕ → Option Pos
  parse_position arg = do
    let coordinates = string_split arg barra
    x ← get_elem? coordinates 0
    y ← get_elem? coordinates 1
    some (record { x = atoi x; y = atoi y })

  unfoldable pub parse_positions : List (List ℕ) → Option ParsedPositions
  parse_positions [] = some (right [])
  parse_positions (arg ∷ args) =
      let rest = parse_positions args in
      if is_valid_position arg
      then (do p ← parse_position arg; ps ← rest; some (with_position p ps))
      else some (wrong arg)

  abbrev pub patota_result : List ℕ → List ℕ → Option (List Pos) → ParserResult
  patota_result cant ruta positions = record {
    command = iniciar_patota;
    info =
        patota (record { cant_trip = atoi cant; ruta_tareas = ruta; trip_positions = positions });
  }

  abbrev pub with_positions : List ℕ → List ℕ → ParsedPositions → ParserResult
  with_positions cant ruta (wrong arg) = write_error (pos_error arg)
  with_positions cant ruta (right ps) = patota_result cant ruta (some ps)

  -- With exactly three arguments there are no positions.
  unfoldable pub command_result : List ℕ → List ℕ → List (List ℕ) → Option ParserResult
  command_result cant ruta [] = some (patota_result cant ruta none)
  command_result cant ruta (arg ∷ args) = do
    ps ← parse_positions (arg ∷ args)
    some (with_positions cant ruta ps)

  unfoldable pub parser_iniciar_patota : List (List ℕ) → Option ParserResult
  parser_iniciar_patota (name ∷ cant ∷ ruta ∷ args) =
      if not (is_valid_number cant)
      then some (write_error (cantidad_error cant))
      else command_result cant ruta args
  parser_iniciar_patota _ = some (write_error (not_enough_args iniciar_patota))

  -- `ds_parser_expulsar_tripulante` and `ds_parser_obtener_bitacora`
  unfoldable pub parser_tid : Command → List (List ℕ) → ParserResult
  parser_tid command (name ∷ number ∷ args) =
      if not (is_valid_number number)
      then write_error (tid_error number)
      else record { command = command; info = tid (atoi number) }
  parser_tid command _ = write_error (not_enough_args command)

  -- The function of PARSER_FUNC_ARRAY for a command; those without arguments keep the data as it was.
  unfoldable pub parser_func : Command → List (List ℕ) → Data → Option ParserResult
  parser_func invalid_command argv old = some (write_error comando_invalido)
  parser_func iniciar_patota argv old = parser_iniciar_patota argv
  parser_func expulsar_tripulante argv old = some (parser_tid expulsar_tripulante argv)
  parser_func obtener_bitacora argv old = some (parser_tid obtener_bitacora argv)
  parser_func salir argv old = some (record { command = salir; info = old })
  parser_func listar_tripulantes argv old =
      some (record { command = listar_tripulantes; info = old })
  parser_func iniciar_planificacion argv old =
      some (record { command = iniciar_planificacion; info = old })
  parser_func pausar_planificacion argv old =
      some (record { command = pausar_planificacion; info = old })

  -- `ds_parse`, with the data of the result before.
  unfoldable pub ds_parse : List ℕ → Data → Option ParserResult
  ds_parse command old = do
    let argv = string_split command espacio
    first ← get_elem? argv 0
    parser_func (command_str_to_enum first) argv old
