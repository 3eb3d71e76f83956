-- ===== src/Protocol/Messages/DesplazamientoTripulante.antt =====
-- utils/src/protocol/messages/desplazamiento_tripulante.c
use tp_2021_1c_en_c_errados.Prelude.{
  ℕ, ◌≡◌, List, [], ◌++◌, Option, some, ◌>>=◌, arith, le32, IsU32,
}
use tp_2021_1c_en_c_errados.Protocol.Buffer.{Buffer, create, write32, read32}
use tp_2021_1c_en_c_errados.Protocol.Buffer.Contents.{
  Holds, create-Holds, write32-Holds, read32-Holds,
}
use tp_2021_1c_en_c_errados.Protocol.Fields.{
  Pos, IsPos, pos_bytes, write_pos, read_pos, write_pos-Holds, read_pos-Holds,
}

pub record Message : Type 0 where
  pub tripulante_id : ℕ
  pub origen : Pos
  pub destino : Pos

unfoldable pub crear : ℕ → Pos → Pos → Message
crear tripulante_id origen destino = record {
  tripulante_id = tripulante_id;
  origen = origen;
  destino = destino;
}

unfoldable pub serializar : Message → Option Buffer
serializar m = do
  buffer ← write32 create m.tripulante_id
  buffer ← write_pos buffer m.origen
  write_pos buffer m.destino

unfoldable pub deserializar : Buffer → Option Message
deserializar buffer = do
  tripulante_id ← read32 buffer 0
  origen ← read_pos buffer 4
  destino ← read_pos buffer 12
  some (record { tripulante_id = tripulante_id; origen = origen; destino = destino })

pub record IsValid (m : Message) : Type 0 where
  pub tripulante_id_fits : IsU32 m.tripulante_id
  pub origen_fits : IsPos m.origen
  pub destino_fits : IsPos m.destino

-- The message on the wire.
abbrev pub bytes : Message → List ℕ
bytes m = le32 m.tripulante_id ++ pos_bytes m.origen ++ pos_bytes m.destino

pub serializar-Holds : (m : Message) → (b : Buffer) × (serializar m ≡ some b) × Holds b (bytes m)
unfolding serializar
serializar-Holds m =
    let (b0, e0, h0) = write32-Holds create [] m.tripulante_id create-Holds (omega arith) in
    let (b1, e1, h1) = write_pos-Holds b0 (le32 m.tripulante_id) m.origen h0 (omega arith) in
    let (b2, e2, h2) =
      write_pos-Holds b1 (le32 m.tripulante_id ++ pos_bytes m.origen) m.destino h1 (omega arith) in
    (b2, rw (e0, e1, e2), h2)

pub deserializar-Holds :
    (m : Message) (b : Buffer) → IsValid m → Holds b (bytes m) → deserializar b ≡ some m
unfolding deserializar
deserializar-Holds m b v h = rw (
  read32-Holds b [] m.tripulante_id (pos_bytes m.origen ++ pos_bytes m.destino) h (omega arith)
      v.tripulante_id_fits,
  read_pos-Holds b (le32 m.tripulante_id) m.origen (pos_bytes m.destino) h (omega arith)
      v.origen_fits,
  read_pos-Holds b (le32 m.tripulante_id ++ pos_bytes m.origen) m.destino [] h (omega arith)
      v.destino_fits,
)
