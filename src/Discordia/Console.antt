-- ===== src/Discordia/Console.antt =====
-- The dispatch of the console, Discordia/src/console/console.c. A command whose data is of another
-- kind than its function reads is `none`.
use tp_2021_1c_en_c_errados.Prelude.{
  ℕ, ◌≡◌, refl, List, [], ◌∷◌, Bool, true, false, Option, none, some, ◌>>=◌, >>=-eq-some,
  some_injective, Bool-cases, inl, inr, if◌then◌else◌, get_elem?, subst,
}
use tp_2021_1c_en_c_errados.Discordia.Parser.{
  Library, Command, invalid_command, salir, iniciar_patota, listar_tripulantes, expulsar_tripulante,
  iniciar_planificacion, pausar_planificacion, obtener_bitacora, ParserError, Data, error, tid,
  patota, ParserResult, IniciarPatota, ds_parse, command_str_to_enum, parser_func, parser_tid,
  parser_iniciar_patota, command_result, parse_positions, espacio, is_valid_number, with_positions,
  right, wrong, ParsedPositions, write_error,
}

-- What a command asks of Discordia, or what is printed.
pub data Call : Type 0 where
  print_error : ParserError → Call
  nothing : Call
  inicializar_patota : IniciarPatota → Call
  obtener_tripulantes : Call
  expulsar : ℕ → Call
  iniciar_planificacion_call : Call
  pausar_planificacion_call : Call
  bitacora : ℕ → Call

-- The function of COMMAND_FUNCS_ARRAY for a command, on the data: whether the console ends, and the
-- call.
unfoldable pub command_func : Command → Data → Option (Bool × Call)
command_func invalid_command (error e) = some (false, print_error e)
command_func salir d = some (true, nothing)
command_func iniciar_patota (patota p) = some (false, inicializar_patota p)
command_func listar_tripulantes d = some (false, obtener_tripulantes)
command_func expulsar_tripulante (tid n) = some (false, expulsar n)
command_func iniciar_planificacion d = some (false, iniciar_planificacion_call)
command_func pausar_planificacion d = some (false, pausar_planificacion_call)
command_func obtener_bitacora (tid n) = some (false, bitacora n)
command_func _ _ = none

abbrev pub check_result : ParserResult → Option (Bool × Call)
check_result r = command_func r.command r.info

-- The loop of `ds_console_init` on the lines that are typed: its calls, up to SALIR.
unfoldable pub console_loop : Library → List (List ℕ) → Data → Option (List Call)
console_loop lib [] old = some []
console_loop lib (line ∷ lines) old = do
  r ← ds_parse lib line old
  (should_exit, call) ← check_result r
  calls ← if should_exit then some [] else console_loop lib lines r.info
  some (call ∷ calls)

-- A result that its command's function can read.
abbrev pub Readable : ParserResult → Type 0
Readable r = (should_exit : Bool) × (call : Call) × (check_result r ≡ some (should_exit, call))

write_error-Readable : (e : ParserError) → Readable (write_error e)
unfolding command_func
write_error-Readable e = (false, print_error e, refl)

module _ (lib : Library) where
  command_result-Readable :
      (cant ruta : List ℕ) (args : List (List ℕ)) (r : ParserResult)
      → command_result lib cant ruta args ≡ some r
      → Readable r
  unfolding command_result command_func
  command_result-Readable cant ruta [] r h = subst Readable (some_injective h) (false, _, refl)
  command_result-Readable cant ruta (arg ∷ args) r h =
      let (ps, _, k) = >>=-eq-some (parse_positions lib (arg ∷ args)) _ h in
      subst Readable (some_injective k) (each ps)
    where
      each : (ps : ParsedPositions) → Readable (with_positions lib cant ruta ps)
      each (wrong a) = (false, _, refl)
      each (right ps) = (false, _, refl)

  parser_iniciar_patota-Readable :
      (argv : List (List ℕ)) (r : ParserResult)
      → parser_iniciar_patota lib argv ≡ some r
      → Readable r
  unfolding parser_iniciar_patota
  parser_iniciar_patota-Readable [] r h = subst Readable (some_injective h) (write_error-Readable _)
  parser_iniciar_patota-Readable (a ∷ []) r h =
      subst Readable (some_injective h) (write_error-Readable _)
  parser_iniciar_patota-Readable (a ∷ b ∷ []) r h =
      subst Readable (some_injective h) (write_error-Readable _)
  parser_iniciar_patota-Readable (a ∷ b ∷ c ∷ args) r h = elim (Bool-cases (is_valid_number b)) [
    | inl e ↦ command_result-Readable b c args r (rw e at h)
    | inr e ↦
        let k : some (write_error _) ≡ some r = rw e at h in
        subst Readable (some_injective k) (write_error-Readable _)
  ]

  tid_case :
      (c : Command) (n : List ℕ)
      → ((k : ℕ) → Readable (record { command = c; info = tid k }))
      → (name : List ℕ) (args : List (List ℕ)) → Readable (parser_tid lib c (name ∷ n ∷ args))
  unfolding parser_tid
  tid_case c n reads name args = elim (Bool-cases (is_valid_number n)) [
    | inl e ↦ rw e (reads (lib.atoi n))
    | inr e ↦ rw e (write_error-Readable _)
  ]

  parser_tid-Readable :
      (c : Command)
      → ((k : ℕ) → Readable (record { command = c; info = tid k }))
      → (argv : List (List ℕ)) → Readable (parser_tid lib c argv)
  unfolding parser_tid
  parser_tid-Readable c reads [] = write_error-Readable _
  parser_tid-Readable c reads (a ∷ []) = write_error-Readable _
  parser_tid-Readable c reads (a ∷ b ∷ args) = tid_case c b reads a args

  parser_func-Readable :
      (c : Command) (argv : List (List ℕ)) (old : Data) (r : ParserResult)
      → parser_func lib c argv old ≡ some r
      → Readable r
  unfolding parser_func command_func
  parser_func-Readable invalid_command argv old r h =
      subst Readable (some_injective h) (write_error-Readable _)
  parser_func-Readable iniciar_patota argv old r h = parser_iniciar_patota-Readable argv r h
  parser_func-Readable expulsar_tripulante argv old r h =
      subst Readable (some_injective h)
        (parser_tid-Readable expulsar_tripulante (λ k. (false, _, refl)) argv)
  parser_func-Readable obtener_bitacora argv old r h =
      subst Readable (some_injective h)
        (parser_tid-Readable obtener_bitacora (λ k. (false, _, refl)) argv)
  parser_func-Readable salir argv old r h = subst Readable (some_injective h) (true, _, refl)
  parser_func-Readable listar_tripulantes argv old r h =
      subst Readable (some_injective h) (false, _, refl)
  parser_func-Readable iniciar_planificacion argv old r h =
      subst Readable (some_injective h) (false, _, refl)
  parser_func-Readable pausar_planificacion argv old r h =
      subst Readable (some_injective h) (false, _, refl)

  -- Whatever is typed, and with any library, a result of the parser carries data of the kind that its
  -- command's function reads.
  pub ds_parse-Readable :
      (line : List ℕ) (old : Data) (r : ParserResult) → ds_parse lib line old ≡ some r → Readable r
  unfolding ds_parse
  ds_parse-Readable line old r h =
      let (first, _, k) = >>=-eq-some (get_elem? (lib.string_split line espacio) 0) _ h in
      parser_func-Readable (command_str_to_enum first) _ old r k
