-- ===== src/Protocol/Messages/InformarSabotaje.antt =====
-- utils/src/protocol/messages/informar_sabotaje.c
use tp_2021_1c_en_c_errados.Prelude.{
  ℕ, ◌≡◌, List, [], ◌++◌, Option, some, ◌>>=◌, arith, le32, IsU32,
}
use tp_2021_1c_en_c_errados.Protocol.Buffer.{Buffer, create, write32, read32}
use tp_2021_1c_en_c_errados.Protocol.Buffer.Contents.{
  Holds, create-Holds, write32-Holds, read32-Holds,
}

pub record Message : Type 0 where
  pub pos_x : ℕ
  pub pos_y : ℕ

unfoldable pub crear : ℕ → ℕ → Message
crear pos_x pos_y = record { pos_x = pos_x; pos_y = pos_y }

unfoldable pub serializar : Message → Option Buffer
serializar m = do buffer ← write32 create m.pos_x; write32 buffer m.pos_y

unfoldable pub deserializar : Buffer → Option Message
deserializar buffer = do
  pos_x ← read32 buffer 0
  pos_y ← read32 buffer 4
  some (record { pos_x = pos_x; pos_y = pos_y })

pub record IsValid (m : Message) : Type 0 where
  pub pos_x_fits : IsU32 m.pos_x
  pub pos_y_fits : IsU32 m.pos_y

-- The message on the wire.
abbrev pub bytes : Message → List ℕ
bytes m = le32 m.pos_x ++ le32 m.pos_y

pub serializar-Holds : (m : Message) → (b : Buffer) × (serializar m ≡ some b) × Holds b (bytes m)
unfolding serializar
serializar-Holds m =
    let (b0, e0, h0) = write32-Holds create [] m.pos_x create-Holds (omega arith) in
    let (b1, e1, h1) = write32-Holds b0 (le32 m.pos_x) m.pos_y h0 (omega arith) in
    (b1, rw (e0, e1), h1)

pub deserializar-Holds :
    (m : Message) (b : Buffer) → IsValid m → Holds b (bytes m) → deserializar b ≡ some m
unfolding deserializar
deserializar-Holds m b v h = rw (
  read32-Holds b [] m.pos_x (le32 m.pos_y) h (omega arith) v.pos_x_fits,
  read32-Holds b (le32 m.pos_x) m.pos_y [] h (omega arith) v.pos_y_fits,
)
