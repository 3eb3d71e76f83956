-- ===== src/Protocol/Opcode.antt =====
-- utils/include/utils/protocol/opcodes.h and utils/src/protocol/opcode.c
use tp_2021_1c_en_c_errados.Prelude.{
  ℕ, ◌≡◌, refl, Bool, true, false, Option, none, some, ◌&&◌, leb, if◌then◌else◌, get_elem?, List,
  [], ◌∷◌,
}
use Prim.Native.String.{String}

pub data Opcode : Type 0 where
  ok fail desplazamiento_tripulante bitacora movimiento_tripulante informar_sabotaje : Opcode
  inicio_tarea nueva_tarea finalizacion_tarea atiende_sabotaje resuelve_sabotaje : Opcode
  lista_tripulantes obtener_tripulantes obtener_bitacora eliminar_tripulante : Opcode
  iniciar_tripulante iniciar_patota proxima_tarea tripulante_nuevo_estado : Opcode
  finalizacion_fsck : Opcode

-- The number that C gives to an enumerator.
abbrev pub number : Opcode → ℕ
number ok = 0
number fail = 1
number desplazamiento_tripulante = 2
number bitacora = 3
number movimiento_tripulante = 4
number informar_sabotaje = 5
number inicio_tarea = 6
number nueva_tarea = 7
number finalizacion_tarea = 8
number atiende_sabotaje = 9
number resuelve_sabotaje = 10
number lista_tripulantes = 11
number obtener_tripulantes = 12
number obtener_bitacora = 13
number eliminar_tripulante = 14
number iniciar_tripulante = 15
number iniciar_patota = 16
number proxima_tarea = 17
number tripulante_nuevo_estado = 18
number finalizacion_fsck = 19

-- U_MSG_IS_VALID, on the number that the variable holds.
unfoldable pub u_msg_is_valid : ℕ → Bool
u_msg_is_valid opcode =
    leb (number desplazamiento_tripulante) opcode && leb opcode (number tripulante_nuevo_estado)

abbrev pub opcodes_str : List String
opcodes_str =
    "OK" ∷ "FAIL" ∷ "DESPLAZAMIENTO_TRIPULANTE" ∷ "BITACORA" ∷ "MOVIMIENTO_TRIPULANTE"
    ∷ "INFORMAR_SABOTAJE" ∷ "INICIO_TAREA" ∷ "NUEVA_TAREA" ∷ "FINALIZACION_TAREA"
    ∷ "ATIENDE_SABOTAJE" ∷ "RESUELVE_SABOTAJE" ∷ "LISTA_TRIPULANTES" ∷ "OBTENER_TRIPULANTES"
    ∷ "OBTENER_BITACORA" ∷ "ELIMINAR_TRIPULANTE" ∷ "INICIAR_TRIPULANTE" ∷ "INICIAR_PATOTA"
    ∷ "PROXIMA_TAREA" ∷ "TRIPULANTE_NUEVO_ESTADO" ∷ "FINALIZACION_FSCK" ∷ []

-- `none` is the abort of the assertion.
unfoldable pub u_opcode_to_string : ℕ → Option String
unfolding u_msg_is_valid
u_opcode_to_string opcode = if u_msg_is_valid opcode then get_elem? opcodes_str opcode else none

-- The name of an enumerator, as the header writes it.
abbrev pub name : Opcode → String
name ok = "OK"
name fail = "FAIL"
name desplazamiento_tripulante = "DESPLAZAMIENTO_TRIPULANTE"
name bitacora = "BITACORA"
name movimiento_tripulante = "MOVIMIENTO_TRIPULANTE"
name informar_sabotaje = "INFORMAR_SABOTAJE"
name inicio_tarea = "INICIO_TAREA"
name nueva_tarea = "NUEVA_TAREA"
name finalizacion_tarea = "FINALIZACION_TAREA"
name atiende_sabotaje = "ATIENDE_SABOTAJE"
name resuelve_sabotaje = "RESUELVE_SABOTAJE"
name lista_tripulantes = "LISTA_TRIPULANTES"
name obtener_tripulantes = "OBTENER_TRIPULANTES"
name obtener_bitacora = "OBTENER_BITACORA"
name eliminar_tripulante = "ELIMINAR_TRIPULANTE"
name iniciar_tripulante = "INICIAR_TRIPULANTE"
name iniciar_patota = "INICIAR_PATOTA"
name proxima_tarea = "PROXIMA_TAREA"
name tripulante_nuevo_estado = "TRIPULANTE_NUEVO_ESTADO"
name finalizacion_fsck = "FINALIZACION_FSCK"

-- The opcodes that carry a message between processes other than an answer.
abbrev pub is_named : Opcode → Bool
is_named ok = false
is_named fail = false
is_named finalizacion_fsck = false
is_named _ = true

-- `u_opcode_to_string` gives every enumerator its own name, except for OK, FAIL and
-- FINALIZACION_FSCK, at which the assertion aborts the program.
pub u_opcode_to_string_lem :
    (op : Opcode) → u_opcode_to_string (number op) ≡ (if is_named op then some (name op) else none)
unfolding u_opcode_to_string
u_opcode_to_string_lem ok = refl
u_opcode_to_string_lem _ = refl
