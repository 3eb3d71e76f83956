-- ===== src/Protocol/Messages/Bitacora.antt =====
-- utils/src/protocol/messages/bitacora.c
use tp_2021_1c_en_c_errados.Prelude.{
  ℕ, ◌+◌, ◌%◌, ◌≤◌, ◌≡◌, List, [], ◌∷◌, ◌++◌, Option, some, ◌>>=◌, arith, le32, IsText, u32_mod,
  length, strlen, c_string, length-append,
}
use tp_2021_1c_en_c_errados.Protocol.Buffer.{Buffer, create, write, read, write32, read32}
use tp_2021_1c_en_c_errados.Protocol.Buffer.Growth.{limit}
use tp_2021_1c_en_c_errados.Protocol.Buffer.Contents.{
  Holds, create-Holds, write-Holds, write32-Holds, read32-Holds,
}
use tp_2021_1c_en_c_errados.Protocol.Texts.{
  strdup, strdup-c_string, IsStored, stored, strlen-IsStored, read_last-Holds,
}

-- The text is the block of memory that the pointer leads to.
pub record Message : Type 0 where
  pub contenido : List ℕ

unfoldable pub crear : List ℕ → Option Message
crear contenido = do copy ← strdup contenido; some (record { contenido = copy })

unfoldable pub serializar : Message → Option Buffer
serializar m = do
  n ← strlen m.contenido
  let len = (n + 1) % u32_mod
  buffer ← write32 create len
  write buffer m.contenido len

unfoldable pub deserializar : Buffer → Option Message
deserializar buffer = do
  len ← read32 buffer 0
  bytes ← read buffer len 4
  some (record { contenido = bytes })

pub record IsValid (m : Message) : Type 0 where
  pub is_stored : IsStored m.contenido
  pub short : length m.contenido + 4 ≤ limit

-- The message on the wire.
abbrev pub bytes : Message → List ℕ
bytes m = le32 (length m.contenido) ++ m.contenido

-- The message that carries a text.
abbrev pub carrying : List ℕ → Message
carrying s = record { contenido = c_string s }

-- What `crear` makes of a text is that message, and it is valid.
pub crear-IsValid :
    (s : List ℕ)
    → IsText s
    → length s + 5 ≤ limit
    → (crear (c_string s) ≡ some (carrying s)) × IsValid (carrying s)
unfolding crear
crear-IsValid s text short = (
  rw (strdup-c_string s text),
  record { is_stored = stored s text; short = omega (arith, length-append s (0 ∷ [])) },
)

pub serializar-Holds :
    (m : Message) → IsValid m → (b : Buffer) × (serializar m ≡ some b) × Holds b (bytes m)
unfolding serializar
serializar-Holds m v =
    let (n, found, counted) = strlen-IsStored v.is_stored in
    let len : (n + 1) % 4294967296 ≡ length m.contenido = omega (arith, v.short) in
    rw (found, len)
      (let (b0, e0, h0) = write32-Holds create [] (length m.contenido) create-Holds (omega arith) in
        let (b, e, h) =
          write-Holds b0 (le32 (length m.contenido)) m.contenido h0 (omega (arith, v.short)) in
        (b, rw (e0, e), h))

pub deserializar-Holds :
    (m : Message) (b : Buffer) → IsValid m → Holds b (bytes m) → deserializar b ≡ some m
unfolding deserializar
deserializar-Holds m b v h = rw (
  read32-Holds b [] (length m.contenido) (m.contenido) h (omega arith) (omega (arith, v.short)),
  read_last-Holds b (le32 (length m.contenido)) m.contenido h (omega (arith, v.short)),
)
