-- ===== src/Protocol/Messages/IniciarPatota.antt =====
-- utils/src/protocol/messages/iniciar_patota.c
use tp_2021_1c_en_c_errados.Prelude.{
  ℕ, ◌+◌, ◌%◌, ◌≤◌, ◌≡◌, List, [], ◌∷◌, ◌++◌, Option, some, ◌>>=◌, arith, le32, IsU32, IsText,
  u32_mod, length, strlen, c_string, length-append,
}
use tp_2021_1c_en_c_errados.Protocol.Buffer.{Buffer, create, write, read, write32, read32}
use tp_2021_1c_en_c_errados.Protocol.Buffer.Growth.{limit}
use tp_2021_1c_en_c_errados.Protocol.Buffer.Contents.{
  Holds, create-Holds, write-Holds, write32-Holds, read32-Holds,
}
use tp_2021_1c_en_c_errados.Protocol.Texts.{
  strdup, strdup-c_string, IsStored, stored, strlen-IsStored, read_last-Holds,
}

-- The text is the block of memory that the pointer leads to.
pub record Message : Type 0 where
  pub pid : ℕ
  pub cant_trips : ℕ
  pub lista_tareas : List ℕ

unfoldable pub crear : ℕ → ℕ → List ℕ → Option Message
crear pid cant_trips lista_tareas = do
  copy ← strdup lista_tareas
  some (record { pid = pid; cant_trips = cant_trips; lista_tareas = copy })

unfoldable pub serializar : Message → Option Buffer
serializar m = do
  n ← strlen m.lista_tareas
  let len = (n + 1) % u32_mod
  buffer ← write32 create m.pid
  buffer ← write32 buffer m.cant_trips
  buffer ← write32 buffer len
  write buffer m.lista_tareas len

unfoldable pub deserializar : Buffer → Option Message
deserializar buffer = do
  pid ← read32 buffer 0
  cant_trips ← read32 buffer 4
  len ← read32 buffer 8
  bytes ← read buffer len 12
  some (record { pid = pid; cant_trips = cant_trips; lista_tareas = bytes })

pub record IsValid (m : Message) : Type 0 where
  pub pid_fits : IsU32 m.pid
  pub cant_trips_fits : IsU32 m.cant_trips
  pub is_stored : IsStored m.lista_tareas
  pub short : length m.lista_tareas + 12 ≤ limit

-- The message on the wire.
abbrev pub bytes : Message → List ℕ
bytes m = le32 m.pid ++ le32 m.cant_trips ++ le32 (length m.lista_tareas) ++ m.lista_tareas

-- The message that carries a text.
abbrev pub carrying : ℕ → ℕ → List ℕ → Message
carrying pid cant_trips s = record { pid = pid; cant_trips = cant_trips; lista_tareas = c_string s }

-- What `crear` makes of a text is that message, and it is valid.
pub crear-IsValid :
    (pid cant_trips : ℕ) (s : List ℕ)
    → IsU32 pid
    → IsU32 cant_trips
    → IsText s
    → length s + 13 ≤ limit
    → (crear pid cant_trips (c_string s) ≡ some (carrying pid cant_trips s))
      × IsValid (carrying pid cant_trips s)
unfolding crear
crear-IsValid pid cant_trips s pid_fits cant_trips_fits text short = (
  rw (strdup-c_string s text),
  record {
    pid_fits = pid_fits;
    cant_trips_fits = cant_trips_fits;
    is_stored = stored s text;
    short = omega (arith, length-append s (0 ∷ []));
  },
)

pub serializar-Holds :
    (m : Message) → IsValid m → (b : Buffer) × (serializar m ≡ some b) × Holds b (bytes m)
unfolding serializar
serializar-Holds m v =
    let (n, found, counted) = strlen-IsStored v.is_stored in
    let len : (n + 1) % 4294967296 ≡ length m.lista_tareas = omega (arith, v.short) in
    rw (found, len)
      (let (b0, e0, h0) = write32-Holds create [] m.pid create-Holds (omega arith) in
        let (b1, e1, h1) = write32-Holds b0 (le32 m.pid) m.cant_trips h0 (omega arith) in
        let (b2, e2, h2) =
          write32-Holds b1 (le32 m.pid ++ le32 m.cant_trips) (length m.lista_tareas) h1
            (omega arith) in
        let (b, e, h) =
          write-Holds b2 (le32 m.pid ++ le32 m.cant_trips ++ le32 (length m.lista_tareas))
            m.lista_tareas h2 (omega (arith, v.short)) in
        (b, rw (e0, e1, e2, e), h))

pub deserializar-Holds :
    (m : Message) (b : Buffer) → IsValid m → Holds b (bytes m) → deserializar b ≡ some m
unfolding deserializar
deserializar-Holds m b v h = rw (
  read32-Holds b [] m.pid (le32 m.cant_trips ++ le32 (length m.lista_tareas) ++ m.lista_tareas) h
      (omega arith) v.pid_fits,
  read32-Holds b (le32 m.pid) m.cant_trips (le32 (length m.lista_tareas) ++ m.lista_tareas) h
      (omega arith) v.cant_trips_fits,
  read32-Holds b (le32 m.pid ++ le32 m.cant_trips) (length m.lista_tareas) (m.lista_tareas) h
      (omega arith) (omega (arith, v.short)),
  read_last-Holds b (le32 m.pid ++ le32 m.cant_trips ++ le32 (length m.lista_tareas)) m.lista_tareas
      h (omega (arith, v.short)),
)
