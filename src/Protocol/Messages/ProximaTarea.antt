-- ===== src/Protocol/Messages/ProximaTarea.antt =====
-- utils/src/protocol/messages/proxima_tarea.c
use tp_2021_1c_en_c_errados.Prelude.{
  ℕ, ◌≡◌, List, [], ◌++◌, Option, some, ◌>>=◌, arith, le32, IsU32,
}
use tp_2021_1c_en_c_errados.Protocol.Buffer.{Buffer, create, write32, read32}
use tp_2021_1c_en_c_errados.Protocol.Buffer.Contents.{
  Holds, create-Holds, write32-Holds, read32-Holds,
}

pub record Message : Type 0 where
  pub pid : ℕ
  pub tid : ℕ

unfoldable pub crear : ℕ → ℕ → Message
crear pid tid = record { pid = pid; tid = tid }

unfoldable pub serializar : Message → Option Buffer
serializar m = do buffer ← write32 create m.pid; write32 buffer m.tid

unfoldable pub deserializar : Buffer → Option Message
deserializar buffer = do
  pid ← read32 buffer 0
  tid ← read32 buffer 4
  some (record { pid = pid; tid = tid })

pub record IsValid (m : Message) : Type 0 where
  pub pid_fits : IsU32 m.pid
  pub tid_fits : IsU32 m.tid

-- The message on the wire.
abbrev pub bytes : Message → List ℕ
bytes m = le32 m.pid ++ le32 m.tid

pub serializar-Holds : (m : Message) → (b : Buffer) × (serializar m ≡ some b) × Holds b (bytes m)
unfolding serializar
serializar-Holds m =
    let (b0, e0, h0) = write32-Holds create [] m.pid create-Holds (omega arith) in
    let (b1, e1, h1) = write32-Holds b0 (le32 m.pid) m.tid h0 (omega arith) in (b1, rw (e0, e1), h1)

pub deserializar-Holds :
    (m : Message) (b : Buffer) → IsValid m → Holds b (bytes m) → deserializar b ≡ some m
unfolding deserializar
deserializar-Holds m b v h = rw (
  read32-Holds b [] m.pid (le32 m.tid) h (omega arith) v.pid_fits,
  read32-Holds b (le32 m.pid) m.tid [] h (omega arith) v.tid_fits,
)
