-- ===== src/Protocol/Messages/TripulanteNuevoEstado.antt =====
-- utils/src/protocol/messages/tripulante_nuevo_estado.c
use tp_2021_1c_en_c_errados.Prelude.{
  ℕ, ◌≡◌, List, [], ◌∷◌, ◌++◌, Option, some, ◌>>=◌, arith, le32, IsU32, IsByte,
}
use tp_2021_1c_en_c_errados.Protocol.Buffer.{Buffer, create, write32, read32}
use tp_2021_1c_en_c_errados.Protocol.Buffer.Contents.{
  Holds, create-Holds, write32-Holds, read32-Holds,
}
use tp_2021_1c_en_c_errados.Protocol.Fields.{
  write_char, read_char, write_char-Holds, read_char-Holds,
}

pub record Message : Type 0 where
  pub pid : ℕ
  pub tid : ℕ
  pub nuevo_estado : ℕ

unfoldable pub crear : ℕ → ℕ → ℕ → Message
crear pid tid nuevo_estado = record { pid = pid; tid = tid; nuevo_estado = nuevo_estado }

unfoldable pub serializar : Message → Option Buffer
serializar m = do
  buffer ← write32 create m.pid
  buffer ← write32 buffer m.tid
  write_char buffer m.nuevo_estado

unfoldable pub deserializar : Buffer → Option Message
deserializar buffer = do
  pid ← read32 buffer 0
  tid ← read32 buffer 4
  nuevo_estado ← read_char buffer 8
  some (record { pid = pid; tid = tid; nuevo_estado = nuevo_estado })

pub record IsValid (m : Message) : Type 0 where
  pub pid_fits : IsU32 m.pid
  pub tid_fits : IsU32 m.tid
  pub nuevo_estado_fits : IsByte m.nuevo_estado

-- The message on the wire.
abbrev pub bytes : Message → List ℕ
bytes m = le32 m.pid ++ le32 m.tid ++ (m.nuevo_estado ∷ [])

pub serializar-Holds : (m : Message) → (b : Buffer) × (serializar m ≡ some b) × Holds b (bytes m)
unfolding serializar
serializar-Holds m =
    let (b0, e0, h0) = write32-Holds create [] m.pid create-Holds (omega arith) in
    let (b1, e1, h1) = write32-Holds b0 (le32 m.pid) m.tid h0 (omega arith) in
    let (b2, e2, h2) =
      write_char-Holds b1 (le32 m.pid ++ le32 m.tid) m.nuevo_estado h1 (omega arith) in
    (b2, rw (e0, e1, e2), h2)

pub deserializar-Holds :
    (m : Message) (b : Buffer) → IsValid m → Holds b (bytes m) → deserializar b ≡ some m
unfolding deserializar
deserializar-Holds m b v h = rw (
  read32-Holds b [] m.pid (le32 m.tid ++ (m.nuevo_estado ∷ [])) h (omega arith) v.pid_fits,
  read32-Holds b (le32 m.pid) m.tid ((m.nuevo_estado ∷ [])) h (omega arith) v.tid_fits,
  read_char-Holds b (le32 m.pid ++ le32 m.tid) m.nuevo_estado [] h (omega arith)
      v.nuevo_estado_fits,
)
