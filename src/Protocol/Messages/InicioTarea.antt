-- ===== src/Protocol/Messages/InicioTarea.antt =====
-- utils/src/protocol/messages/inicio_tarea.c
use tp_2021_1c_en_c_errados.Prelude.{
  ℕ, ◌+◌, ◌%◌, ◌≤◌, ◌≡◌, refl, List, [], ◌∷◌, ◌++◌, Option, some, ◌>>=◌, arith, le32, IsU32, IsText,
  u32_mod, length, strlen, c_string, strlen-c_string, length-append,
}
use tp_2021_1c_en_c_errados.Protocol.Buffer.{Buffer, create, write, read, write32, read32}
use tp_2021_1c_en_c_errados.Protocol.Buffer.Growth.{limit}
use tp_2021_1c_en_c_errados.Protocol.Buffer.Contents.{
  Holds, create-Holds, write-Holds, write32-Holds, read32-Holds,
}
use tp_2021_1c_en_c_errados.Protocol.Texts.{
  strdup, strdup-c_string, IsStored, stored, read_last-Holds,
}

-- The text is the block of memory that the pointer leads to.
pub record Message : Type 0 where
  pub tripulante_id : ℕ
  pub largo_nombre_tarea : ℕ
  pub tarea : List ℕ

unfoldable pub crear : ℕ → List ℕ → Option Message
crear tripulante_id tarea = do
  n ← strlen tarea
  copy ← strdup tarea
  some (record {
    tripulante_id = tripulante_id;
    largo_nombre_tarea = (n + 1) % u32_mod;
    tarea = copy;
  })

unfoldable pub serializar : Message → Option Buffer
serializar m = do
  buffer ← write32 create m.tripulante_id
  buffer ← write32 buffer m.largo_nombre_tarea
  write buffer m.tarea m.largo_nombre_tarea

unfoldable pub deserializar : Buffer → Option Message
deserializar buffer = do
  tripulante_id ← read32 buffer 0
  len ← read32 buffer 4
  bytes ← read buffer len 8
  some (record { tripulante_id = tripulante_id; largo_nombre_tarea = len; tarea = bytes })

pub record IsValid (m : Message) : Type 0 where
  pub tripulante_id_fits : IsU32 m.tripulante_id
  pub measured : m.largo_nombre_tarea ≡ length m.tarea
  pub is_stored : IsStored m.tarea
  pub short : length m.tarea + 8 ≤ limit

-- The message on the wire.
abbrev pub bytes : Message → List ℕ
bytes m = le32 m.tripulante_id ++ le32 (length m.tarea) ++ m.tarea

-- The message that carries a text.
abbrev pub carrying : ℕ → List ℕ → Message
carrying tripulante_id s = record {
  tripulante_id = tripulante_id;
  largo_nombre_tarea = length (c_string s);
  tarea = c_string s;
}

-- What `crear` makes of a text is that message, and it is valid.
pub crear-IsValid :
    (tripulante_id : ℕ) (s : List ℕ)
    → IsU32 tripulante_id
    → IsText s
    → length s + 9 ≤ limit
    → (crear tripulante_id (c_string s) ≡ some (carrying tripulante_id s))
      × IsValid (carrying tripulante_id s)
unfolding crear
crear-IsValid tripulante_id s tripulante_id_fits text short =
    let len : (length s + 1) % 4294967296 ≡ length (c_string s) =
      omega (arith, length-append s (0 ∷ [])) in
    (
      rw (strlen-c_string s text, strdup-c_string s text, len),
      record {
        tripulante_id_fits = tripulante_id_fits;
        measured = refl;
        is_stored = stored s text;
        short = omega (arith, length-append s (0 ∷ []));
      },
    )

pub serializar-Holds :
    (m : Message) → IsValid m → (b : Buffer) × (serializar m ≡ some b) × Holds b (bytes m)
unfolding serializar
serializar-Holds m v =
    let (b0, e0, h0) = write32-Holds create [] m.tripulante_id create-Holds (omega arith) in
    let (b1, e1, h1) = write32-Holds b0 (le32 m.tripulante_id) (length m.tarea) h0 (omega arith) in
    let (b, e, h) =
      write-Holds b1 (le32 m.tripulante_id ++ le32 (length m.tarea)) m.tarea h1
        (omega (arith, v.short)) in
    (b, rw (v.measured, e0, e1, e), h)

pub deserializar-Holds :
    (m : Message) (b : Buffer) → IsValid m → Holds b (bytes m) → deserializar b ≡ some m
unfolding deserializar
deserializar-Holds m b v h = rw (
  read32-Holds b [] m.tripulante_id (le32 (length m.tarea) ++ m.tarea) h (omega arith)
      v.tripulante_id_fits,
  read32-Holds b (le32 m.tripulante_id) (length m.tarea) (m.tarea) h (omega arith)
      (omega (arith, v.short)),
  read_last-Holds b (le32 m.tripulante_id ++ le32 (length m.tarea)) m.tarea h
      (omega (arith, v.short)),
  v.measured,
)
