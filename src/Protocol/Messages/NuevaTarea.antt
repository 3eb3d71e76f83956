-- ===== src/Protocol/Messages/NuevaTarea.antt =====
-- utils/src/protocol/messages/nueva_tarea.c
use tp_2021_1c_en_c_errados.Prelude.{
  ℕ, ◌+◌, ◌%◌, ◌≤◌, ◌≡◌, List, [], ◌∷◌, ◌++◌, Option, none, some, ◌>>=◌, arith, le32, IsText,
  u32_mod, length, strlen, c_string, length-append, Bool, true, false, if◌then◌else◌, ◌==◌,
}
use tp_2021_1c_en_c_errados.Protocol.Buffer.{Buffer, create, write, read, write32, read32}
use tp_2021_1c_en_c_errados.Protocol.Buffer.Growth.{limit}
use tp_2021_1c_en_c_errados.Protocol.Buffer.Contents.{
  Holds, create-Holds, write-Holds, write32-Holds, read32-Holds,
}
use tp_2021_1c_en_c_errados.Protocol.Fields.{
  write_char, read_char, write_char-Holds, read_char-Holds,
}
use tp_2021_1c_en_c_errados.Protocol.Texts.{
  strdup, strdup-c_string, IsStored, stored, strlen-IsStored, read_last-Holds,
}

-- `none` is the pointer NULL.
pub record Message : Type 0 where
  pub tarea : Option (List ℕ)
  pub hay_tarea : Bool

unfoldable pub crear : Option (List ℕ) → Option Message
crear none = some (record { tarea = none; hay_tarea = false })
crear (some tarea) = do copy ← strdup tarea; some (record { tarea = some copy; hay_tarea = true })

-- A `bool` in memory.
abbrev bool_byte : Bool → ℕ
bool_byte true = 1
bool_byte false = 0

-- The text behind a pointer; reading through NULL is a fault.
write_tarea : Buffer → Option (List ℕ) → Option Buffer
write_tarea buffer none = none
write_tarea buffer (some tarea) = do
  n ← strlen tarea
  let tarea_length = (n + 1) % u32_mod
  buffer ← write32 buffer tarea_length
  write buffer tarea tarea_length

unfoldable pub serializar : Message → Option Buffer
unfolding write_tarea
serializar m = do
  buffer ← write_char create (bool_byte m.hay_tarea)
  if m.hay_tarea then write_tarea buffer m.tarea else some buffer

read_tarea : Buffer → Option Message
read_tarea buffer = do
  tarea_length ← read32 buffer 1
  tarea ← read buffer tarea_length 5
  some (record { tarea = some tarea; hay_tarea = true })

unfoldable pub deserializar : Buffer → Option Message
unfolding read_tarea
deserializar buffer = do
  hay_tarea ← read_char buffer 0
  if hay_tarea == 0 then some (record { tarea = none; hay_tarea = false }) else read_tarea buffer

-- A message has a task exactly when its flag is set.
pub data IsValid : Message → Type 0 where
  empty : IsValid (record { tarea = none; hay_tarea = false })
  full :
      (tarea : List ℕ)
      → IsStored tarea
      → length tarea + 5 ≤ limit
      → IsValid (record { tarea = some tarea; hay_tarea = true })

-- The message on the wire.
abbrev pub tarea_bytes : Option (List ℕ) → List ℕ
tarea_bytes none = 0 ∷ []
tarea_bytes (some tarea) = 1 ∷ (le32 (length tarea) ++ tarea)

abbrev pub bytes : Message → List ℕ
bytes m = tarea_bytes m.tarea

-- What `crear` makes of a text, or of NULL, is valid.
pub crear-IsValid :
    (s : List ℕ)
    → IsText s
    → length s + 6 ≤ limit
    → (m : Message) × (crear (some (c_string s)) ≡ some m) × IsValid m
unfolding crear
crear-IsValid s text short = (
  record { tarea = some (c_string s); hay_tarea = true },
  rw (strdup-c_string s text),
  full (c_string s) (stored s text) (omega (arith, length-append s (0 ∷ []))),
)

pub serializar-Holds :
    (m : Message) → IsValid m → (b : Buffer) × (serializar m ≡ some b) × Holds b (bytes m)
unfolding serializar
serializar-Holds m empty =
    let (b, e, h) = write_char-Holds create [] 0 create-Holds (omega arith) in (b, rw e, h)
serializar-Holds m (full tarea is_stored short) =
    let (n, found, counted) = strlen-IsStored is_stored in
    let len : (n + 1) % 4294967296 ≡ length tarea = omega (arith, short) in
    rw (found, len)
      (let (b0, e0, h0) = write_char-Holds create [] 1 create-Holds (omega arith) in
        let (b1, e1, h1) = write32-Holds b0 (1 ∷ []) (length tarea) h0 (omega arith) in
        let (b, e, h) = write-Holds b1 (1 ∷ le32 (length tarea)) tarea h1 (omega (arith, short)) in
        (b, rw (e0, e1, e), h))

pub deserializar-Holds :
    (m : Message) (b : Buffer) → IsValid m → Holds b (bytes m) → deserializar b ≡ some m
unfolding deserializar
deserializar-Holds m b empty h = rw (read_char-Holds b [] 0 [] h (omega arith) (omega arith))
deserializar-Holds m b (full tarea is_stored short) h = rw (
  read_char-Holds b [] 1 (le32 (length tarea) ++ tarea) h (omega arith) (omega arith),
  read32-Holds b (1 ∷ []) (length tarea) tarea h (omega arith) (omega (arith, short)),
  read_last-Holds b (1 ∷ le32 (length tarea)) tarea h (omega (arith, short)),
)
