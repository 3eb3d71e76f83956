-- ===== src/Protocol/Messages/Fail.antt =====
-- utils/src/protocol/messages/fail.c
use tp_2021_1c_en_c_errados.Prelude.{
  ℕ, ◌+◌, ◌%◌, ◌≤◌, ◌≡◌, List, [], ◌++◌, Option, some, ◌>>=◌, arith, le32, u32_mod, length, strlen,
}
use tp_2021_1c_en_c_errados.Protocol.Buffer.{Buffer, create, write, read, write32, read32}
use tp_2021_1c_en_c_errados.Protocol.Buffer.Growth.{limit}
use tp_2021_1c_en_c_errados.Protocol.Buffer.Contents.{
  Holds, create-Holds, write-Holds, write32-Holds, read32-Holds,
}
use tp_2021_1c_en_c_errados.Protocol.Texts.{IsStored, strlen-IsStored, read_last-Holds}

-- The text is the block of memory that the pointer leads to.
pub record Message : Type 0 where
  pub description : List ℕ

-- The text comes formatted, as `string_from_vformat` gives it.
unfoldable pub crear : List ℕ → Option Message
crear description = some (record { description = description })

unfoldable pub serializar : Message → Option Buffer
serializar m = do
  n ← strlen m.description
  let len = (n + 1) % u32_mod
  buffer ← write32 create len
  write buffer m.description len

unfoldable pub deserializar : Buffer → Option Message
deserializar buffer = do
  len ← read32 buffer 0
  bytes ← read buffer len 4
  some (record { description = bytes })

pub record IsValid (m : Message) : Type 0 where
  pub is_stored : IsStored m.description
  pub short : length m.description + 4 ≤ limit

-- The message on the wire.
abbrev pub bytes : Message → List ℕ
bytes m = le32 (length m.description) ++ m.description

pub serializar-Holds :
    (m : Message) → IsValid m → (b : Buffer) × (serializar m ≡ some b) × Holds b (bytes m)
unfolding serializar
serializar-Holds m v =
    let (n, found, counted) = strlen-IsStored v.is_stored in
    let len : (n + 1) % 4294967296 ≡ length m.description = omega (arith, v.short) in
    rw (found, len)
      (let (b0, e0, h0) =
          write32-Holds create [] (length m.description) create-Holds (omega arith) in
        let (b, e, h) =
          write-Holds b0 (le32 (length m.description)) m.description h0 (omega (arith, v.short)) in
        (b, rw (e0, e), h))

pub deserializar-Holds :
    (m : Message) (b : Buffer) → IsValid m → Holds b (bytes m) → deserializar b ≡ some m
unfolding deserializar
deserializar-Holds m b v h = rw (
  read32-Holds b [] (length m.description) (m.description) h (omega arith) (omega (arith, v.short)),
  read_last-Holds b (le32 (length m.description)) m.description h (omega (arith, v.short)),
)
