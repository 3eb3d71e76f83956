-- ===== src/Protocol/Messages/IniciarTripulante.antt =====
-- utils/src/protocol/messages/iniciar_tripulante.c
use tp_2021_1c_en_c_errados.Prelude.{
  ℕ, ◌≡◌, List, [], ◌++◌, Option, some, ◌>>=◌, arith, le32, IsU32,
}
use tp_2021_1c_en_c_errados.Protocol.Buffer.{Buffer, create, write32, read32}
use tp_2021_1c_en_c_errados.Protocol.Buffer.Contents.{
  Holds, create-Holds, write32-Holds, read32-Holds,
}
use tp_2021_1c_en_c_errados.Protocol.Fields.{
  Pos, IsPos, pos_bytes, write_pos, read_pos, write_pos-Holds, read_pos-Holds,
}

pub record Message : Type 0 where
  pub patota_id : ℕ
  pub tripulante_id : ℕ
  pub posicion : Pos

unfoldable pub crear : ℕ → ℕ → Pos → Message
crear patota_id tripulante_id posicion = record {
  patota_id = patota_id;
  tripulante_id = tripulante_id;
  posicion = posicion;
}

unfoldable pub serializar : Message → Option Buffer
serializar m = do
  buffer ← write32 create m.patota_id
  buffer ← write32 buffer m.tripulante_id
  write_pos buffer m.posicion

unfoldable pub deserializar : Buffer → Option Message
deserializar buffer = do
  patota_id ← read32 buffer 0
  tripulante_id ← read32 buffer 4
  posicion ← read_pos buffer 8
  some (record { patota_id = patota_id; tripulante_id = tripulante_id; posicion = posicion })

pub record IsValid (m : Message) : Type 0 where
  pub patota_id_fits : IsU32 m.patota_id
  pub tripulante_id_fits : IsU32 m.tripulante_id
  pub posicion_fits : IsPos m.posicion

-- The message on the wire.
abbrev pub bytes : Message → List ℕ
bytes m = le32 m.patota_id ++ le32 m.tripulante_id ++ pos_bytes m.posicion

pub serializar-Holds : (m : Message) → (b : Buffer) × (serializar m ≡ some b) × Holds b (bytes m)
unfolding serializar
serializar-Holds m =
    let (b0, e0, h0) = write32-Holds create [] m.patota_id create-Holds (omega arith) in
    let (b1, e1, h1) = write32-Holds b0 (le32 m.patota_id) m.tripulante_id h0 (omega arith) in
    let (b2, e2, h2) =
      write_pos-Holds b1 (le32 m.patota_id ++ le32 m.tripulante_id) m.posicion h1 (omega arith) in
    (b2, rw (e0, e1, e2), h2)

pub deserializar-Holds :
    (m : Message) (b : Buffer) → IsValid m → Holds b (bytes m) → deserializar b ≡ some m
unfolding deserializar
deserializar-Holds m b v h = rw (
  read32-Holds b [] m.patota_id (le32 m.tripulante_id ++ pos_bytes m.posicion) h (omega arith)
      v.patota_id_fits,
  read32-Holds b (le32 m.patota_id) m.tripulante_id (pos_bytes m.posicion) h (omega arith)
      v.tripulante_id_fits,
  read_pos-Holds b (le32 m.patota_id ++ le32 m.tripulante_id) m.posicion [] h (omega arith)
      v.posicion_fits,
)
