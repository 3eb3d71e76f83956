-- ===== src/Protocol/Messages/AtiendeSabotaje.antt =====
-- utils/src/protocol/messages/atiende_sabotaje.c
use tp_2021_1c_en_c_errados.Prelude.{ℕ, ◌≡◌, List, [], Option, some, ◌>>=◌, arith, le32, IsU32}
use tp_2021_1c_en_c_errados.Protocol.Buffer.{Buffer, create, write32, read32}
use tp_2021_1c_en_c_errados.Protocol.Buffer.Contents.{
  Holds, create-Holds, write32-Holds, read32-Holds,
}

pub record Message : Type 0 where
  pub tripulante_id : ℕ

unfoldable pub crear : ℕ → Message
crear tripulante_id = record { tripulante_id = tripulante_id }

unfoldable pub serializar : Message → Option Buffer
serializar m = write32 create m.tripulante_id

unfoldable pub deserializar : Buffer → Option Message
deserializar buffer = do
  tripulante_id ← read32 buffer 0
  some (record { tripulante_id = tripulante_id })

pub record IsValid (m : Message) : Type 0 where
  pub tripulante_id_fits : IsU32 m.tripulante_id

-- The message on the wire.
abbrev pub bytes : Message → List ℕ
bytes m = le32 m.tripulante_id

pub serializar-Holds : (m : Message) → (b : Buffer) × (serializar m ≡ some b) × Holds b (bytes m)
unfolding serializar
serializar-Holds m =
    let (b0, e0, h0) = write32-Holds create [] m.tripulante_id create-Holds (omega arith) in
    (b0, rw e0, h0)

pub deserializar-Holds :
    (m : Message) (b : Buffer) → IsValid m → Holds b (bytes m) → deserializar b ≡ some m
unfolding deserializar
deserializar-Holds m b v h =
    rw (read32-Holds b [] m.tripulante_id [] h (omega arith) v.tripulante_id_fits)
